-- ===== src/Tests/Confirm.antt =====
-- The reliable transfer of a short file, first lost and then acknowledged.
use udp_secure_transfer.Prelude.{
  ℕ, ◌+◌, ◌≤◌, ◌≡◌, arith, refl, true, false, some, List, [], ◌∷◌, ◌++◌,
}
use udp_secure_transfer.Prelude.{length, map, take, inl, Bool}
use udp_secure_transfer.Protocol
use udp_secure_transfer.Protocol.RoundTrip.{feedback_wire, feedback_view, payload_wire}
use udp_secure_transfer.Protocol.Recv.{Net, no_traffic, timeout, recv_packet}
use udp_secure_transfer.Protocol.Logged.{Event, received, recv_logged_timeout}
use udp_secure_transfer.Protocol.Delivery.{after_send, is_same_peer_refl, recv_feedback}
use udp_secure_transfer.Sha1.{FileBytes, fread_blocks, fread_all}
use udp_secure_transfer.Server.Reliable.{Clock, Faults, Memory, ReliableChunk}
use udp_secure_transfer.Server.Reliable.Window.{transfer_file_reliable, succeeded, fill, start}
use udp_secure_transfer.Server.Reliable.Confirmed.{Confirms, Confirmed}
use udp_secure_transfer.Server.Reliable.Completes.{Heard}
use udp_secure_transfer.Server.Reliable.Outcome.{transfer_file_reliable_completes}
use udp_secure_transfer.Server.Reliable.Outcome.{transfer_file_reliable-Confirmed}
use udp_secure_transfer.Server.Reliable.Order.{fill_in_order, IsFresh}
use udp_secure_transfer.Session.Plain.{arriving}
use udp_secure_transfer.Tests.Fixtures.{client, wire_link, wire_link-Delivers}

abbrev clock : Clock
clock k = record { sec = k; nsec = 0 }

-- Every `realloc` succeeds.
abbrev plenty : Memory
plenty n = true

-- The first transmission of the only chunk is dropped.
abbrev first_lost : Faults
first_lost = record { loss_ids = 0 ∷ []; dup_ids = []; reorder_ids = [] }

abbrev file : FileBytes
file = record { bytes = 97 ∷ 98 ∷ 99 ∷ []; read_error = false }

abbrev digest : List ℕ
digest =
    1 ∷ 2 ∷ 3 ∷ 4 ∷ 5 ∷ 6 ∷ 7 ∷ 8 ∷ 9 ∷ 10 ∷ 11 ∷ 12 ∷ 13 ∷ 14 ∷ 15 ∷ 16 ∷ 17 ∷ 18 ∷ 19 ∷ 20 ∷ []

-- Nothing comes, then an ACK for nothing, then one for the block.
abbrev before : List Event
before =
    record { stopped = false; arrival = timeout }
    ∷ arriving client (feedback_wire Protocol.ack 0 4)
    ∷ []

ack_received :
    (ack_id : ℕ)
    → ack_id ≤ 1
    → recv_logged_timeout false (arriving client (feedback_wire Protocol.ack ack_id 4)).arrival
      ≡ received (feedback_view Protocol.ack ack_id 4 (feedback_wire Protocol.ack ack_id 4)) client
ack_received ack_id h =
    recv_feedback client Protocol.ack ack_id 4 (inl refl) (omega arith) (omega arith)

heard : (ack_id : ℕ) → ack_id ≤ 1 → Heard (arriving client (feedback_wire Protocol.ack ack_id 4))
heard ack_id h = (refl, λ e. absurd (ground (arith, ack_received ack_id h, e)))

quiet-Heard : Heard (record { stopped = false; arrival = timeout })
unfolding recv_logged_timeout recv_packet
quiet-Heard = (refl, λ e. ground (arith, e))

one_block : length (fread_blocks 1000 file.bytes) ≡ 1
unfolding fread_all
one_block = refl

confirms :
    Confirms client
      (length (fread_blocks 1000 file.bytes))
      (recv_logged_timeout false (arriving client (feedback_wire Protocol.ack 1 4)).arrival)
confirms = record {
  packet = feedback_view Protocol.ack 1 4 (feedback_wire Protocol.ack 1 4);
  from = client;
  arrives = ack_received 1 (omega arith);
  same_peer = is_same_peer_refl client;
  is_ack = refl;
  covers = omega (arith, one_block);
}

transfer_file_reliable_completes_example :
    (net' : Net) × (transfer_file_reliable wire_link clock 4 10 client plenty first_lost
        (some file)
        digest
        no_traffic
        (before ++ (arriving client (feedback_wire Protocol.ack 1 4) ∷ []))
      ≡ succeeded (
          after_send
            (after_send
              (after_send net' (payload_wire Protocol.terminate digest))
              (payload_wire Protocol.terminate digest))
            (payload_wire Protocol.terminate digest)))
transfer_file_reliable_completes_example =
    transfer_file_reliable_completes wire_link clock 4 10 client plenty first_lost file.bytes digest
      no_traffic before [] (arriving client (feedback_wire Protocol.ack 1 4)) wire_link-Delivers
      (λ n. refl) refl (quiet-Heard, (heard 0 (omega arith), tt)) (heard 1 (omega arith)) tt
      confirms

succeeds :
    (net' : Net) × (transfer_file_reliable wire_link clock 4 10 client plenty first_lost
        (some file)
        digest
        no_traffic
        (before ++ (arriving client (feedback_wire Protocol.ack 1 4) ∷ []))
      ≡ succeeded net')
succeeds =
    let (net', e) =
      transfer_file_reliable_completes wire_link clock 4 10 client plenty first_lost file.bytes
        digest no_traffic before [] (arriving client (feedback_wire Protocol.ack 1 4))
        wire_link-Delivers (λ n. refl) refl (quiet-Heard, (heard 0 (omega arith), tt))
        (heard 1 (omega arith)) tt confirms in
    (_, e)

transfer_file_reliable-Confirmed_example :
    Confirmed wire_link clock 4 10 client
      (length (fread_blocks 1000 file.bytes))
      (before ++ (arriving client (feedback_wire Protocol.ack 1 4) ∷ []))
transfer_file_reliable-Confirmed_example =
    transfer_file_reliable-Confirmed wire_link clock 4 10 client plenty first_lost file digest
      no_traffic _ (before ++ (arriving client (feedback_wire Protocol.ack 1 4) ∷ []))
      (omega (arith, one_block)) succeeds.1

-- The first of two chunks is to be held back.
abbrev chunk : ℕ → Bool → ReliableChunk
chunk id reorder = record {
  packet_id = id;
  payload_length = 1;
  wire = (id + 65) ∷ [];
  acked = false;
  send_count = 0;
  drop_first_send = false;
  dup_first_send = false;
  reorder_first_send = reorder;
  reorder_pending = false;
  last_send = clock 0;
}

chunk-IsFresh : (id : ℕ) (reorder : Bool) → IsFresh (chunk id reorder)
chunk-IsFresh id reorder = record {
  unsent = refl;
  unacked = refl;
  kept = refl;
  single = refl;
  not_held = refl;
}

abbrev chunks : List ReliableChunk
chunks = chunk 0 true ∷ chunk 1 false ∷ chunk 2 false ∷ []

fill_in_order_example :
    (fill wire_link clock 2 10 client
      (length chunks)
      (start chunks no_traffic)).transfer.sender.net.sent
    ≡ no_traffic.sent ++ map (λ c. c.wire) (take 2 chunks)
fill_in_order_example =
    fill_in_order wire_link wire_link-Delivers clock 2 10 client no_traffic chunks
      (chunk-IsFresh 0 true, (chunk-IsFresh 1 false, (chunk-IsFresh 2 false, tt)))
