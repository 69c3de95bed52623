-- ===== src/Server/Reliable.antt =====
-- The reliable sender of src/server.c: the simulated faults, the sliding window, the feedback.
pub mod Window
pub mod Flags
pub mod Acks
pub mod Confirmed
pub mod Delivered
pub mod Completes
pub mod Outcome
pub mod Order
use udp_secure_transfer.Prelude.{ℕ, zero, suc, ◌+◌, ◌-◌, ◌*◌, ◌/◌, Bool, true, false, not, ◌&&◌}
use udp_secure_transfer.Prelude.{◌||◌, Option, none, some, List, [], ◌∷◌, ◌++◌, length, get_elem?}
use udp_secure_transfer.Prelude.{set, u32, ltb, leb, ◌==◌, if◌then◌else◌}
use udp_secure_transfer.Protocol
use udp_secure_transfer.Protocol.{Packet, Peer, max_datagram, data_chunk_size}
use udp_secure_transfer.Protocol.Build.{build_data_packet, build_terminate_packet}
use udp_secure_transfer.Protocol.Parse.{is_same_peer}
use udp_secure_transfer.Protocol.Recv.{Link, Net}
use udp_secure_transfer.Protocol.Logged.{Event, Logged, received, quiet, lost, send_logged}
use udp_secure_transfer.Protocol.Logged.{recv_logged_timeout}
use udp_secure_transfer.Sha1.{FileBytes, fread_blocks}

-- `struct timespec`, and what the k-th `clock_gettime(CLOCK_MONOTONIC, …)` gives.
pub record Timespec : Type 0 where
  pub sec : ℕ
  pub nsec : ℕ

abbrev pub Clock : Type 0
Clock = ℕ → Timespec

-- The clock does not go back; C's division of a negative nanosecond difference cuts towards 0.
unfoldable pub elapsed_ms_since : Timespec → Timespec → ℕ
elapsed_ms_since now ts =
    let sec_ms = (now.sec - ts.sec) * 1000 in
    if leb ts.nsec now.nsec
    then sec_ms + (now.nsec - ts.nsec) / 1000000
    else sec_ms - (ts.nsec - now.nsec) / 1000000

-- `wire` is `wire[0..wire_len)`.
pub record ReliableChunk : Type 0 where
  pub packet_id : ℕ
  pub payload_length : ℕ
  pub wire : List ℕ
  pub acked : Bool
  pub send_count : ℕ
  pub drop_first_send : Bool
  pub dup_first_send : Bool
  pub reorder_first_send : Bool
  pub reorder_pending : Bool
  pub last_send : Timespec

unfoldable pub packet_id_list_contains : List ℕ → ℕ → Bool
packet_id_list_contains [] packet_id = false
packet_id_list_contains (id ∷ ids) packet_id =
    if id == packet_id then true else packet_id_list_contains ids packet_id

-- The ids whose first transmission is dropped, sent twice, or held back.
pub record Faults : Type 0 where
  pub loss_ids : List ℕ
  pub dup_ids : List ℕ
  pub reorder_ids : List ℕ

-- The loop body for the block number `count`; `none` is -1.
unfoldable pub load_chunk : Faults → ℕ → List ℕ → Option ReliableChunk
load_chunk faults count block =
    let id = u32 count in
    elim (build_data_packet id (some block) (length block) max_datagram) [
      | none ↦ none
      | some wire ↦ some (record {
        packet_id = id;
        payload_length = length block;
        wire = wire;
        acked = false;
        send_count = 0;
        drop_first_send = packet_id_list_contains faults.loss_ids id;
        dup_first_send = packet_id_list_contains faults.dup_ids id;
        reorder_first_send = packet_id_list_contains faults.reorder_ids id;
        reorder_pending = false;
        last_send = record { sec = 0; nsec = 0 };
      })
    ]

-- Whether `realloc` gives memory for an array of so many chunks.
abbrev pub Memory : Type 0
Memory = ℕ → Bool

-- `cap` for the next chunk: a full array is doubled; `none` is -1.
unfoldable pub next_cap : Memory → ℕ → ℕ → Option ℕ
next_cap memory cap count =
    let new_cap = if cap == 0 then 32 else cap * 2 in
    if not (count == cap) then some cap else if memory new_cap then some new_cap else none

-- The loop from a capacity and a count on.
unfoldable pub load_chunks : Memory → Faults → ℕ → ℕ → List (List ℕ) → Option (List ReliableChunk)
load_chunks memory faults cap count [] = some []
load_chunks memory faults cap count (block ∷ blocks) = elim (next_cap memory cap count) [
  | none ↦ none
  | some cap' ↦
      let rest = load_chunks memory faults cap' (count + 1) blocks in
      elim (load_chunk faults count block) [
        | none ↦ none
        | some chunk ↦ elim rest [ none ↦ none | some chunks ↦ some (chunk ∷ chunks) ]
      ]
]

-- `ferror` is not asked.
unfoldable pub load_reliable_chunks :
    Memory → Faults → Option FileBytes → Option (List ReliableChunk)
load_reliable_chunks memory faults none = none
load_reliable_chunks memory faults (some file) =
    load_chunks memory faults 0 0 (fread_blocks data_chunk_size file.bytes)

-- The network and the number of readings of the clock.
pub record Sender : Type 0 where
  pub net : Net
  pub ticks : ℕ

-- `ok` is the return value 0; the chunk is written in place.
pub record ChunkSent : Type 0 where
  pub ok : Bool
  pub chunk : ReliableChunk
  pub sender : Sender

module _ (link : Link) (clock : Clock) where
  -- A chunk that goes out, and goes out again if its first transmission is to be doubled.
  unfoldable pub transmit : Sender → ReliableChunk → ChunkSent
  transmit s chunk =
      let (sent, net) = send_logged link s.net chunk.wire in
      let counted = record chunk { last_send = clock s.ticks; send_count = chunk.send_count + 1 } in
      let (sent_again, net') = send_logged link net chunk.wire in
      if not sent
      then record { ok = false; chunk = chunk; sender = record s { net = net } }
      else if counted.send_count == 1 && chunk.dup_first_send
      then record {
        ok = sent_again;
        chunk = record counted { dup_first_send = false };
        sender = record { net = net'; ticks = s.ticks + 1 };
      }
      else record { ok = true; chunk = counted; sender = record { net = net; ticks = s.ticks + 1 } }

  unfoldable pub send_reliable_chunk : Sender → ReliableChunk → ChunkSent
  unfolding transmit
  send_reliable_chunk s chunk =
      if chunk.send_count == 0 && chunk.reorder_first_send
      then record {
        ok = true;
        chunk = record chunk { reorder_first_send = false; reorder_pending = true };
        sender = s;
      }
      else if chunk.send_count == 0 && chunk.drop_first_send
      then record {
        ok = true;
        chunk = record chunk {
          drop_first_send = false;
          send_count = chunk.send_count + 1;
          last_send = clock s.ticks;
        };
        sender = record s { ticks = s.ticks + 1 };
      }
      else transmit s chunk

-- `ok` is the return value 0 of a function that writes the chunks in place.
pub record ChunksSent : Type 0 where
  pub ok : Bool
  pub chunks : List ReliableChunk
  pub sender : Sender

abbrev pub put_back : ReliableChunk → ChunksSent → ChunksSent
put_back chunk rest = record rest { chunks = chunk ∷ rest.chunks }

module _ (link : Link) (clock : Clock) where
  -- The loop over the first `count` chunks.
  unfoldable pub release_delayed_chunks : ℕ → Sender → List ReliableChunk → ChunksSent
  release_delayed_chunks zero s chunks = record { ok = true; chunks = chunks; sender = s }
  release_delayed_chunks (suc count) s [] = record { ok = true; chunks = []; sender = s }
  release_delayed_chunks (suc count) s (chunk ∷ chunks) =
      let skipped = release_delayed_chunks count s chunks in
      let released = send_reliable_chunk link clock s (record chunk { reorder_pending = false }) in
      let later = release_delayed_chunks count released.sender chunks in
      if not chunk.reorder_pending || chunk.acked
      then put_back chunk skipped
      else if released.ok
      then put_back released.chunk later
      else record { ok = false; chunks = released.chunk ∷ chunks; sender = released.sender }

  -- send_reliable_chunk on `chunks[i]`; an index out of range does not occur.
  unfoldable pub send_at : Sender → List ReliableChunk → ℕ → ChunksSent
  send_at s chunks i = elim (get_elem? chunks i) [
    | none ↦ record { ok = false; chunks = chunks; sender = s }
    | some chunk ↦
        let sent = send_reliable_chunk link clock s chunk in
        record { ok = sent.ok; chunks = set chunks i sent.chunk; sender = sent.sender }
  ]
