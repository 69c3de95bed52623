-- ===== src/Server/Reliable/Window.antt =====
-- transfer_file_reliable of src/server.c: the window is filled, one wait for feedback is handled,
-- overdue chunks are sent again, until every chunk is acknowledged; then TERMINATE three times.
use udp_secure_transfer.Prelude.{ℕ, zero, suc, ◌+◌, ◌-◌, Bool, true, false, not, ◌&&◌, Option}
use udp_secure_transfer.Prelude.{none, some, List, [], ◌∷◌, length, get_elem?, ltb, leb, ◌==◌}
use udp_secure_transfer.Prelude.{if◌then◌else◌}
use udp_secure_transfer.Protocol
use udp_secure_transfer.Protocol.{Packet, Peer, max_datagram}
use udp_secure_transfer.Protocol.Build.{build_terminate_packet}
use udp_secure_transfer.Protocol.Parse.{is_same_peer}
use udp_secure_transfer.Protocol.Recv.{Link, Net}
use udp_secure_transfer.Protocol.Logged.{Event, Logged, received, quiet, lost, send_logged}
use udp_secure_transfer.Protocol.Logged.{recv_logged_timeout}
use udp_secure_transfer.Sha1.{FileBytes}
use udp_secure_transfer.Server.Reliable.{Clock, elapsed_ms_since, ReliableChunk, Faults, Sender}
use udp_secure_transfer.Server.Reliable.{Memory, load_reliable_chunks, ChunksSent, send_at}
use udp_secure_transfer.Server.Reliable.{release_delayed_chunks}

-- The variables of the outer loop.
pub record Transfer : Type 0 where
  pub chunks : List ReliableChunk
  pub base : ℕ
  pub next_to_send : ℕ
  pub sender : Sender

-- `ok` is false where the function returns -1.
pub record Progress : Type 0 where
  pub ok : Bool
  pub transfer : Transfer

abbrev pub with_chunks : Transfer → ChunksSent → Transfer
with_chunks t sent = record t { chunks = sent.chunks; sender = sent.sender }

-- `chunks[i].acked`, for an index in range.
unfoldable pub is_acked : List ReliableChunk → ℕ → Bool
is_acked chunks i = elim (get_elem? chunks i) [ none ↦ false | some chunk ↦ chunk.acked ]

unfoldable pub ack_at : List ReliableChunk → ℕ → List ReliableChunk
ack_at [] i = []
ack_at (chunk ∷ chunks) zero = record chunk { acked = true } ∷ chunks
ack_at (chunk ∷ chunks) (suc i) = chunk ∷ ack_at chunks i

-- `for (i = base; i < ack_upto; i += 1)`, with the turns that are left.
unfoldable pub mark_acked : ℕ → ℕ → List ReliableChunk → List ReliableChunk
mark_acked zero i chunks = chunks
mark_acked (suc turns) i chunks = mark_acked turns (i + 1) (ack_at chunks i)

-- `while (base < chunk_count && chunks[base].acked)`: at most one turn for each chunk.
unfoldable pub advance : ℕ → List ReliableChunk → ℕ → ℕ
advance zero chunks base = base
advance (suc fuel) chunks base =
    let more = advance fuel chunks (base + 1) in
    if ltb base (length chunks) && is_acked chunks base then more else base

unfoldable pub handle_ack : Transfer → Packet → Transfer
handle_ack t p =
    let chunk_count = length t.chunks in
    let ack_upto = if ltb chunk_count p.ack_id then chunk_count else p.ack_id in
    let chunks = mark_acked (ack_upto - t.base) t.base t.chunks in
    record t { chunks = chunks; base = advance chunk_count chunks t.base }

module _ (link : Link) (clock : Clock) (window_size retransmit_timeout : ℕ) (peer : Peer) where
  -- One turn of the loop that fills the window.
  unfoldable pub send_next : Transfer → Progress
  send_next t =
      let sent = send_at link clock t.sender t.chunks t.next_to_send in
      let released =
        release_delayed_chunks link clock (t.next_to_send + 1) sent.sender sent.chunks in
      if not sent.ok
      then record { ok = false; transfer = with_chunks t sent }
      else if not released.ok
      then record { ok = false; transfer = with_chunks t released }
      else record {
        ok = true;
        transfer = record (with_chunks t released) { next_to_send = t.next_to_send + 1 };
      }

  unfoldable pub fill : ℕ → Transfer → Progress
  fill zero t = record { ok = true; transfer = t }
  fill (suc fuel) t =
      let sent = send_next t in
      let rest = fill fuel sent.transfer in
      if ltb t.next_to_send (length t.chunks) && ltb t.next_to_send (t.base + window_size)
      then (if sent.ok then rest else sent)
      else record { ok = true; transfer = t }

  unfoldable pub handle_nack : Transfer → Packet → Progress
  handle_nack t p =
      let sent = send_at link clock t.sender t.chunks p.ack_id in
      if ltb p.ack_id (length t.chunks) && not (is_acked t.chunks p.ack_id)
      then record { ok = sent.ok; transfer = with_chunks t sent }
      else record { ok = true; transfer = t }

  -- Packets from others, and other types, are ignored; a wait without a packet changes nothing.
  unfoldable pub handle_feedback : Transfer → Logged → Progress
  handle_feedback t (received p from) =
      if not (is_same_peer peer from)
      then record { ok = true; transfer = t }
      else if p.type == Protocol.ack
      then record { ok = true; transfer = handle_ack t p }
      else if p.type == Protocol.nack
      then handle_nack t p
      else record { ok = true; transfer = t }
  handle_feedback t quiet = record { ok = true; transfer = t }
  handle_feedback t lost = record { ok = false; transfer = t }

  -- `clock` is read once for each chunk that is waiting for its ACK.
  is_waiting : ReliableChunk → Bool
  is_waiting chunk = not chunk.acked && not chunk.reorder_pending && ltb 0 chunk.send_count

  resend_overdue : Transfer → ℕ → ReliableChunk → Progress
  resend_overdue t i chunk =
      let now = clock t.sender.ticks in
      let read = record t { sender = record { net = t.sender.net; ticks = t.sender.ticks + 1 } } in
      let sent = send_at link clock read.sender read.chunks i in
      if leb retransmit_timeout (elapsed_ms_since now chunk.last_send)
      then record { ok = sent.ok; transfer = with_chunks read sent }
      else record { ok = true; transfer = read }

  unfoldable pub resend_one : Transfer → ℕ → Progress
  unfolding is_waiting resend_overdue
  resend_one t i = elim (get_elem? t.chunks i) [
    | none ↦ record { ok = true; transfer = t }
    | some chunk ↦
        if is_waiting chunk then resend_overdue t i chunk else record { ok = true; transfer = t }
  ]

  -- `for (i = base; i < next_to_send; i += 1)`, with the turns that are left.
  unfoldable pub resend : ℕ → ℕ → Transfer → Progress
  resend zero i t = record { ok = true; transfer = t }
  resend (suc turns) i t =
      let one = resend_one t i in
      let rest = resend turns (i + 1) one.transfer in if one.ok then rest else one

  -- The body of the outer loop, with what the wait of 80 ms gives.
  unfoldable pub turn : Transfer → Logged → Progress
  turn t arrived =
      let filled = fill (length t.chunks) t in
      let answered = handle_feedback filled.transfer arrived in
      let after = answered.transfer in
      let resent = resend (after.next_to_send - after.base) after.base after in
      if not filled.ok then filled else if not answered.ok then answered else resent

-- `all_acked` leaves the outer loop, `broken` is -1, and `still_sending` is a server that the
-- listed events do not bring to an end.
pub data WindowResult : Type 0 where
  all_acked : Transfer → WindowResult
  broken : Transfer → WindowResult
  still_sending : Transfer → WindowResult

module _ (link : Link) (clock : Clock) (window_size retransmit_timeout : ℕ) (peer : Peer) where
  unfoldable pub window_loop : Transfer → List Event → WindowResult
  window_loop t [] = if ltb t.base (length t.chunks) then still_sending t else all_acked t
  window_loop t (event ∷ events) =
      let next =
        turn link clock window_size retransmit_timeout peer t
          (recv_logged_timeout false event.arrival) in
      let rest = window_loop next.transfer events in
      if event.stopped
      then broken t
      else if ltb t.base (length t.chunks)
      then (if next.ok then rest else broken next.transfer)
      else all_acked t

-- The loop that sends TERMINATE, with the turns that are left.
unfoldable pub send_copies : Link → ℕ → Net → List ℕ → Bool × Net
send_copies link zero net wire = (true, net)
send_copies link (suc turns) net wire =
    let (sent, net') = send_logged link net wire in
    let rest = send_copies link turns net' wire in if sent then rest else (false, net')

-- `succeeded` is the return value 0.
pub data ReliableOutcome : Type 0 where
  succeeded : Net → ReliableOutcome
  unsuccessful : Net → ReliableOutcome
  in_progress : Transfer → ReliableOutcome

pub after_window : Link → List ℕ → WindowResult → ReliableOutcome
after_window link digest (all_acked t) = elim (build_terminate_packet (some digest) max_datagram) [
  | none ↦ unsuccessful t.sender.net
  | some wire ↦
      let (sent, net) = send_copies link 3 t.sender.net wire in
      if sent then succeeded net else unsuccessful net
]
after_window link digest (broken t) = unsuccessful t.sender.net
after_window link digest (still_sending t) = in_progress t

abbrev pub start : List ReliableChunk → Net → Transfer
start chunks net = record {
  chunks = chunks;
  base = 0;
  next_to_send = 0;
  sender = record { net = net; ticks = 0 };
}

unfoldable pub transfer_file_reliable :
    Link
    → Clock
    → ℕ
    → ℕ
    → Peer
    → Memory
    → Faults
    → Option FileBytes
    → List ℕ
    → Net
    → List Event
    → ReliableOutcome
unfolding after_window
transfer_file_reliable link clock window_size timeout peer memory faults file digest net events =
    elim (load_reliable_chunks memory faults file) [
      | none ↦ unsuccessful net
      | some chunks ↦
          after_window link digest
            (window_loop link clock window_size timeout peer (start chunks net) events)
    ]
