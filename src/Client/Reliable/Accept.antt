-- ===== src/Client/Reliable/Accept.antt =====
-- One DATA packet at the reliable receiver, from its arrival to the ACK, in src/client.c.
use udp_secure_transfer.Prelude.{ℕ, ◌+◌, ◌≤◌, ◌<◌, ◌^◌, ◌≡◌, refl, ◌≢◌, inl, inr}
use udp_secure_transfer.Prelude.{arith, ap, sym, ◌∙◌, true, false, some, List, []}
use udp_secure_transfer.Prelude.{◌∷◌, ◌++◌, length, ltb, ltb-false, lt→ltb}
use udp_secure_transfer.Prelude.{Bool-cases, if◌then◌else◌}
use udp_secure_transfer.Prelude.{append-nil}
use native.Mathlib.Decide.{ℕ_discrete, dec_lt}
use udp_secure_transfer.Protocol
use udp_secure_transfer.Protocol.{Packet, Peer}
use udp_secure_transfer.Protocol.Recv.{Link, Net}
use udp_secure_transfer.Protocol.RoundTrip.{feedback_wire}
use udp_secure_transfer.Protocol.Delivery.{Delivers, after_send, send_feedback_lem}
use udp_secure_transfer.Client.Transfer.{Disk}
use udp_secure_transfer.Client.Reliable.{ReliableReceiver, slot, Heap}
use udp_secure_transfer.Client.Reliable.{ensure_buffer_capacity, store_chunk, drain, ReliableStep}
use udp_secure_transfer.Client.Reliable.{keeps, acknowledge, write_in_order, report_gap}
use udp_secure_transfer.Client.Reliable.{reliable_data}
use udp_secure_transfer.Client.Reliable.Slots.{Allocates, Grown, ensure-Grown}
use udp_secure_transfer.Client.Reliable.Drain.{present, Has, IsConsistent, IsDrained}
use udp_secure_transfer.Client.Reliable.Drain.{drain-IsDrained}
use udp_secure_transfer.Client.Reliable.Data.{IsBlockOf, Stored, store-Stored}

-- The NACK that a packet ahead of the expected one causes.
abbrev pub gap_report : ℕ → ReliableReceiver → Packet → List (List ℕ)
gap_report window r p =
    if ltb r.expected_packet_id p.packet_id
    then feedback_wire Protocol.nack r.expected_packet_id window ∷ []
    else []

-- What an honest DATA packet does to a consistent receiver: the receiver stays consistent, keeps
-- what it has and has the packet's block, and the last datagram sent is the ACK of the least
-- missing block, after a NACK of the one expected before if the packet was ahead of it.
pub record IsAccepted (block : ℕ → List ℕ) (n window : ℕ) (r : ReliableReceiver) (p : Packet)
    (net : Net) (result : ReliableStep) : Type 0 where
  pub after : ReliableReceiver
  pub traffic : Net
  pub returns : result ≡ keeps after traffic
  pub consistent : IsConsistent block n after
  pub retains : (i : ℕ) → Has r i → Has after i
  pub gains : Has after p.packet_id
  pub missing : present after after.expected_packet_id ≡ false
  pub sent :
      traffic.sent
      ≡ (net.sent ++ gap_report window r p)
        ++ (feedback_wire Protocol.ack after.expected_packet_id window ∷ [])

module _ (block : ℕ → List ℕ) (n : ℕ) (small : n < 2 ^ 32) (link : Link) (delivers : Delivers link)
    (disk : Disk) (writes : (k : ℕ) (bytes : List ℕ) → disk.fwrite k bytes ≡ length bytes)
    (heap : Heap) (allocates : Allocates heap) (window : ℕ) (server : Peer) where
  acknowledge_lem :
      (r : ReliableReceiver) (net : Net)
      → acknowledge link disk heap window server r net
        ≡ keeps r (after_send net (feedback_wire Protocol.ack r.expected_packet_id window))
  unfolding acknowledge
  acknowledge_lem r net = ground (
    arith,
    send_feedback_lem link delivers net Protocol.ack r.expected_packet_id window (inl refl),
  )

  write_in_order_lem :
      (r after : ReliableReceiver) (net : Net)
      → drain disk (length r.buffered) r ≡ some after
      → write_in_order link disk heap window server r net
        ≡ keeps after (after_send net (feedback_wire Protocol.ack after.expected_packet_id window))
  unfolding write_in_order
  write_in_order_lem r after net h = ground (
    arith,
    send_feedback_lem link delivers net Protocol.ack after.expected_packet_id window (inl refl),
  )

  -- The traffic after the NACK, if there is one.
  abbrev after_gap : ReliableReceiver → Packet → Net → Net
  after_gap r p net =
      if ltb r.expected_packet_id p.packet_id
      then after_send net (feedback_wire Protocol.nack r.expected_packet_id window)
      else net

  report_gap_lem :
      (r : ReliableReceiver) (p : Packet) (net : Net)
      → report_gap link disk heap window server r p net
        ≡ write_in_order link disk heap window server r (after_gap r p net)
  unfolding report_gap
  report_gap_lem r p net = ground (
    arith,
    send_feedback_lem link delivers net Protocol.nack r.expected_packet_id window (inr refl),
  )

  sent-after_gap :
      (r : ReliableReceiver) (p : Packet) (net : Net)
      → (after_gap r p net).sent ≡ net.sent ++ gap_report window r p
  sent-after_gap r p net = elim (Bool-cases (ltb r.expected_packet_id p.packet_id)) [
    | inl gap ↦ rw gap refl
    | inr none_left ↦ rw none_left (sym (append-nil net.sent))
  ]

  -- A duplicate of a block that has been written out.
  old_packet :
      (r : ReliableReceiver) (p : Packet) (net : Net)
      → IsConsistent block n r
      → present r r.expected_packet_id ≡ false
      → p.packet_id < r.expected_packet_id
      → IsAccepted block n window r p net (reliable_data link disk heap window server r p net)
  old_packet r p net c missing old = record {
    after = r;
    traffic = after_send net (feedback_wire Protocol.ack r.expected_packet_id window);
    returns = unfold reliable_data in rw (lt→ltb _ _ old) (acknowledge_lem r net);
    consistent = c;
    retains = λ i h. h;
    gains = inl old;
    missing = missing;
    sent = rw (ltb-false r.expected_packet_id p.packet_id (omega arith), append-nil) refl;
  }

  module _ (r : ReliableReceiver) (p : Packet) (net : Net) (c : IsConsistent block n r)
      (honest : IsBlockOf block n p) (new : r.expected_packet_id ≤ p.packet_id) where
    g :
        Grown r.buffered
          (p.packet_id + 1)
          (ensure_buffer_capacity heap r.buffered (p.packet_id + 1))
    g = ensure-Grown heap allocates r.buffered (p.packet_id + 1)

    -- What is known of a slot of `r` is known of the grown buffer.
    in_grown :
        (i : ℕ)
        → (slot g.grown i).present ≡ true
        → ((slot g.grown i).bytes ≡ block i) × ((slot g.grown i).length ≡ length (block i))
    in_grown i h =
        let was : present r i ≡ true = ap (λ s. s.present) (sym (g.same i)) ∙ h in
        rw (g.same i) (c.bytes i was, c.sizes i was)

    s : Stored block p g.grown (store_chunk heap g.grown p)
    s =
        store-Stored heap allocates block n p honest g.grown (omega (arith, g.enough))
          (in_grown p.packet_id)

    abbrev loaded : ReliableReceiver
    loaded = record r { buffered = s.stored }

    other_slot : (i : ℕ) → i ≢ p.packet_id → slot s.stored i ≡ slot r.buffered i
    other_slot i h = s.others i h ∙ g.same i

    loaded-IsConsistent : IsConsistent block n loaded
    loaded-IsConsistent = record {
      written = c.written;
      bounded = c.bounded;
      later = λ i h. elim (ℕ_discrete i p.packet_id) [
        | yes same ↦ omega (arith, honest.in_range)
        | no other ↦ c.later i (ap (λ t. t.present) (sym (other_slot i other)) ∙ h)
      ];
      bytes = λ i h. elim (ℕ_discrete i p.packet_id) [
        | yes same ↦ rw same s.bytes
        | no other ↦
            rw (other_slot i other) (c.bytes i (ap (λ t. t.present) (sym (other_slot i other)) ∙ h))
      ];
      sizes = λ i h. elim (ℕ_discrete i p.packet_id) [
        | yes same ↦ rw same s.size
        | no other ↦
            rw (other_slot i other) (c.sizes i (ap (λ t. t.present) (sym (other_slot i other)) ∙ h))
      ];
    }

    loaded-retains : (i : ℕ) → Has r i → Has loaded i
    loaded-retains i (inl h) = inl h
    loaded-retains i (inr h) = elim (ℕ_discrete i p.packet_id) [
      | yes same ↦ inr (rw same s.here)
      | no other ↦ inr (ap (λ t. t.present) (other_slot i other) ∙ h)
    ]

    d : IsDrained block n loaded (drain disk (length s.stored) loaded)
    d =
        drain-IsDrained block n small disk writes (length s.stored) loaded loaded-IsConsistent
          (omega arith)

    new_packet_runs :
        reliable_data link disk heap window server r p net
        ≡ report_gap link disk heap window server loaded p net
    unfolding reliable_data
    new_packet_runs = ground (arith, g.returns, s.returns)

    new_packet :
        IsAccepted block n window r p net (reliable_data link disk heap window server r p net)
    new_packet = record {
      after = d.after;
      traffic =
          after_send (after_gap loaded p net)
            (feedback_wire Protocol.ack d.after.expected_packet_id window);
      returns =
          new_packet_runs
          ∙ report_gap_lem loaded p net
          ∙ write_in_order_lem loaded d.after (after_gap loaded p net) d.returns;
      consistent = d.consistent;
      retains = λ i h. d.keeps i (loaded-retains i h);
      gains = d.keeps p.packet_id (inr s.here);
      missing = d.missing;
      sent =
          ap (λ l. l ++ (feedback_wire Protocol.ack d.after.expected_packet_id window ∷ []))
            (sent-after_gap loaded p net);
    }

  -- On a link that delivers, with memory and a disk that works, for a file of fewer than 2 ^ 32
  -- blocks and a receiver that is consistent and has not got the expected block: a DATA packet
  -- with any block of the file, early, late or again, is accepted. The receiver stays
  -- consistent, has that block and all that it had, still lacks the block that it then expects,
  -- and has sent NACK first if there was a gap, and ACK with the id that it then expects.
  pub reliable_data-IsAccepted :
      (r : ReliableReceiver) (p : Packet) (net : Net)
      → IsConsistent block n r
      → present r r.expected_packet_id ≡ false
      → IsBlockOf block n p
      → IsAccepted block n window r p net (reliable_data link disk heap window server r p net)
  reliable_data-IsAccepted r p net c missing honest =
      elim (dec_lt p.packet_id r.expected_packet_id) [
        | yes old ↦ old_packet r p net c missing old
        | no new ↦ new_packet r p net c honest (omega arith)
      ]
