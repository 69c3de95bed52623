-- ===== src/Client/Reliable.antt =====
-- ensure_buffer_capacity and transfer_file_reliable of src/client.c: the receiver that buffers
-- DATA packets out of order and acknowledges. The buffer is the list of its `buffered_cap` slots.
pub mod Slots
pub mod Drain
pub mod Data
pub mod Accept
use udp_secure_transfer.Prelude.{ℕ, zero, suc, ◌+◌, ◌-◌, ◌*◌, Bool, true, false, not, ◌&&◌}
use udp_secure_transfer.Prelude.{Option, none, some, List, [], ◌∷◌, ◌++◌, length, take, get_or, set}
use udp_secure_transfer.Prelude.{replicate, u32, u64, ltb, leb, ◌==◌, if◌then◌else◌}
use udp_secure_transfer.Protocol
use udp_secure_transfer.Protocol.{Packet, Peer}
use udp_secure_transfer.Protocol.Parse.{is_same_peer}
use udp_secure_transfer.Protocol.Recv.{Link, Net, Arrival}
use udp_secure_transfer.Protocol.Logged.{Event, payload_bytes, Logged, received, quiet, lost}
use udp_secure_transfer.Protocol.Logged.{recv_expected, send_feedback}
use udp_secure_transfer.Client.Transfer.{Disk, local_digest, digests_match}

-- A slot; `bytes` is what `data` points to, and a NULL pointer shows none.
pub record BufferedChunk : Type 0 where
  pub bytes : List ℕ
  pub length : ℕ
  pub present : Bool

abbrev pub empty_slot : BufferedChunk
empty_slot = record { bytes = []; length = 0; present = false }

-- Whether `realloc` and `malloc` succeed, by the size that is asked for.
pub record Heap : Type 0 where
  pub reallocs : ℕ → Bool
  pub mallocs : ℕ → Bool

-- `while (new_cap < need)`: each turn makes it larger, so `need` turns are enough.
unfoldable pub grow : ℕ → ℕ → ℕ → ℕ
grow zero new_cap need = new_cap
grow (suc fuel) new_cap need =
    let more = grow fuel (if new_cap == 0 then 32 else new_cap * 2) need in
    if ltb new_cap need then more else new_cap

-- `none` is -1. New slots are zero.
unfoldable pub ensure_buffer_capacity : Heap → List BufferedChunk → ℕ → Option (List BufferedChunk)
unfolding grow
ensure_buffer_capacity heap chunks need =
    let capacity = length chunks in
    let new_cap = grow need capacity need in
    if leb need capacity
    then some chunks
    else if heap.reallocs new_cap
    then some (chunks ++ replicate (new_cap - capacity) empty_slot)
    else none

pub record ReliableReceiver : Type 0 where
  pub buffered : List BufferedChunk
  pub expected_packet_id : ℕ
  pub received_bytes : ℕ
  pub out : List ℕ

abbrev pub fresh : ReliableReceiver
fresh = record { buffered = []; expected_packet_id = 0; received_bytes = 0; out = [] }

abbrev pub slot : List BufferedChunk → ℕ → BufferedChunk
slot chunks i = get_or chunks i empty_slot

-- The slot is filled if it is not in use; `none` is a failed `malloc`.
unfoldable pub store_chunk : Heap → List BufferedChunk → Packet → Option (List BufferedChunk)
store_chunk heap chunks p =
    if (slot chunks p.packet_id).present
    then some chunks
    else if heap.mallocs (if p.payload_length == 0 then 1 else p.payload_length)
    then some (
        set chunks p.packet_id (record {
          bytes = take p.payload_length (payload_bytes p.payload);
          length = p.payload_length;
          present = true;
        }))
    else none

-- One turn of the loop that writes: the slot at the expected id is written out and cleared.
unfoldable pub write_slot : ReliableReceiver → ReliableReceiver
write_slot r =
    let chunk = slot r.buffered r.expected_packet_id in
    record {
      buffered = set r.buffered r.expected_packet_id empty_slot;
      expected_packet_id = u32 (r.expected_packet_id + 1);
      received_bytes = u64 (r.received_bytes + chunk.length);
      out = r.out ++ take chunk.length chunk.bytes;
    }

-- The loop clears a slot in each turn, so as many turns as there are slots are enough; `none` is
-- a short write.
unfoldable pub drain : Disk → ℕ → ReliableReceiver → Option ReliableReceiver
unfolding write_slot
drain disk zero r = some r
drain disk (suc fuel) r =
    let chunk = slot r.buffered r.expected_packet_id in
    let rest = drain disk fuel (write_slot r) in
    if ltb r.expected_packet_id (length r.buffered) && chunk.present
    then (if ltb 0 chunk.length
          && not (disk.fwrite r.expected_packet_id (take chunk.length chunk.bytes) == chunk.length)
        then none
        else rest)
    else some r

-- `keeps` is the next turn of the loop, `finished` the return value 0 with the committed file,
-- and `dropped` is -1.
pub data ReliableStep : Type 0 where
  keeps : ReliableReceiver → Net → ReliableStep
  finished : List ℕ → Net → ReliableStep
  dropped : Net → ReliableStep

module _ (link : Link) (disk : Disk) (heap : Heap) (window : ℕ) (server : Peer) where
  -- The ACK at the end of a turn.
  unfoldable pub acknowledge : ReliableReceiver → Net → ReliableStep
  acknowledge r net =
      let (sent, net') = send_feedback link net Protocol.ack r.expected_packet_id window in
      if sent then keeps r net' else dropped net'

  -- After the NACK, if there was one: write out what is in order and acknowledge.
  unfoldable pub write_in_order : ReliableReceiver → Net → ReliableStep
  unfolding acknowledge
  write_in_order r net = elim (drain disk (length r.buffered) r) [
    | none ↦ dropped net
    | some r' ↦ acknowledge r' net
  ]

  unfoldable pub report_gap : ReliableReceiver → Packet → Net → ReliableStep
  unfolding write_in_order
  report_gap r p net =
      let (sent, net') = send_feedback link net Protocol.nack r.expected_packet_id window in
      if ltb r.expected_packet_id p.packet_id
      then (if sent then write_in_order r net' else dropped net')
      else write_in_order r net

  unfoldable pub reliable_data : ReliableReceiver → Packet → Net → ReliableStep
  unfolding acknowledge report_gap
  reliable_data r p net =
      if ltb p.packet_id r.expected_packet_id
      then acknowledge r net
      else elim (ensure_buffer_capacity heap r.buffered (p.packet_id + 1)) [
        | none ↦ dropped net
        | some grown ↦ elim (store_chunk heap grown p) [
          | none ↦ dropped net
          | some stored ↦ report_gap (record r { buffered = stored }) p net
        ]
      ]

  -- The ACK goes out whether or not the digests match.
  unfoldable pub reliable_terminate : ReliableReceiver → Packet → Net → ReliableStep
  reliable_terminate r p net = elim (local_digest disk r.out) [
    | none ↦ dropped net
    | some digest ↦
        let (sent, net') = send_feedback link net Protocol.ack r.expected_packet_id window in
        if not sent
        then dropped net'
        else if not (digests_match p digest)
        then dropped net'
        else if not disk.renames
        then dropped net'
        else finished r.out net'
  ]

  unfoldable pub reliable_packet : ReliableReceiver → Net → Logged → ReliableStep
  unfolding reliable_data reliable_terminate
  reliable_packet r net (received p from) =
      if not (is_same_peer server from)
      then dropped net
      else if p.type == Protocol.data_packet
      then reliable_data r p net
      else if p.type == Protocol.terminate
      then reliable_terminate r p net
      else dropped net
  reliable_packet r net quiet = dropped net
  reliable_packet r net lost = dropped net

-- `still_open` is a receiver that the listed events do not bring to an end.
pub data ReliableResult : Type 0 where
  output : List ℕ → Net → ReliableResult
  failed : Net → ReliableResult
  still_open : ReliableReceiver → Net → ReliableResult

module _ (link : Link) (disk : Disk) (heap : Heap) (window : ℕ) (server : Peer) where
  -- `while (!stop_requested)`
  unfoldable pub reliable_loop : ReliableReceiver → Net → List Event → ReliableResult
  reliable_loop r net [] = still_open r net
  reliable_loop r net (event ∷ events) =
      if event.stopped
      then failed net
      else elim (reliable_packet link disk heap window server r net (recv_expected event.arrival)) [
        | keeps r' net' ↦ reliable_loop r' net' events
        | finished bytes net' ↦ output bytes net'
        | dropped net' ↦ failed net'
      ]
