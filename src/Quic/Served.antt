-- ===== src/Quic/Served.antt =====
-- What main of src/quic_demo_server.c sends to a client that acknowledges every frame.
use udp_secure_transfer.Prelude.{ℕ, zero, suc, ◌+◌, ◌-◌, ◌≤◌, ◌<◌, ◌^◌, ◌≡◌, refl, arith, ap, sym}
use udp_secure_transfer.Prelude.{◌∙◌, true, false, some, List, [], ◌∷◌, length, map}
use udp_secure_transfer.Prelude.{
  take, drop, min, take_of_le, take_all, drop_all, length-take, length-drop, IsU32, ◌==◌, ==_iff,
  u16,
}
use native.Mathlib.Decide.{dec_lt}
use udp_secure_transfer.Protocol.Recv.{Link}
use udp_secure_transfer.Protocol.Delivery.{Delivers, after_send}
use udp_secure_transfer.Sha1.{fread_all}
use udp_secure_transfer.Sha1.File.{fread_all_cons}
use udp_secure_transfer.Session.Plain.{after_all}
use udp_secure_transfer.Quic.Packet.{QuicPacket, Fits, packet_wire, quic_ack}
use udp_secure_transfer.Quic.Sorted.{StreamChunk, numbered}
use udp_secure_transfer.Quic.Reassembly.{stream_packet, received, sends}
use udp_secure_transfer.Quic.Reassembly.{stream-Fits}
use udp_secure_transfer.Quic.Server.{Inbox, QuicServer, goes_on, plain_packet, await_ack}
use udp_secure_transfer.Quic.Server.{send_step, stream_step, stream_loop}

-- The chunk that is asked for is the next block of the file.
next_block :
    (k : ℕ) (bytes : List ℕ)
    → (take (min (length bytes) k) bytes ≡ take k bytes)
      × (drop (min (length bytes) k) bytes ≡ drop k bytes)
      × (length (take k bytes) ≡ min (length bytes) k)
next_block k bytes = elim (dec_lt (length bytes) k) [
  | yes short ↦
      let all : min (length bytes) k ≡ length bytes = omega arith in
      rw (all, take_of_le k bytes (omega arith))
        (
          take_all bytes,
          drop_all (length bytes) bytes (omega arith) ∙ sym (drop_all k bytes (omega arith)),
          refl,
        )
  | no long ↦
      let part : min (length bytes) k ≡ k = omega arith in
      rw part (refl, refl, length-take k bytes ∙ omega arith)
]

abbrev pub ack_packet : ℕ → ℕ → QuicPacket
ack_packet connection seq = record (plain_packet quic_ack connection []) { ack = seq }

-- From the k-th `recvfrom` on, the ACKs for `count` frames from `seq` on.
abbrev pub Acknowledges : Inbox → ℕ → ℕ → ℕ → ℕ → Type 0
Acknowledges inbox connection k seq count =
    (i : ℕ) → i < count → inbox (k + i) ≡ some (packet_wire (ack_packet connection (seq + i)))

abbrev pub frame_wire : ℕ → StreamChunk → List ℕ
frame_wire connection c = packet_wire (stream_packet connection c)

ack_packet-Fits :
    (connection seq : ℕ) → IsU32 connection → IsU32 seq → Fits (ack_packet connection seq)
ack_packet-Fits connection seq hc hs = record {
  stream = omega arith;
  connection = hc;
  number = omega arith;
  acked = hs;
  whole = refl;
  bounded = omega arith;
}

first_ack :
    (inbox : Inbox) (connection k seq count : ℕ)
    → Acknowledges inbox connection k seq (suc count)
    → inbox k ≡ some (packet_wire (ack_packet connection seq))
first_ack inbox connection k seq count acks =
    ap inbox (omega arith)
    ∙ acks 0 (omega arith)
    ∙ ap (λ n. some (packet_wire (ack_packet connection n))) (omega arith)

later_acks :
    (inbox : Inbox) (connection k seq count : ℕ)
    → Acknowledges inbox connection k seq (suc count)
    → Acknowledges inbox connection (k + 1) (seq + 1) count
later_acks inbox connection k seq count acks i h =
    ap inbox (omega arith)
    ∙ acks (suc i) (omega arith)
    ∙ ap (λ n. some (packet_wire (ack_packet connection n))) (omega arith)

module _ (link : Link) (delivers : Delivers link) (inbox : Inbox) (connection : ℕ)
    (connected : IsU32 connection) where
  pub step_sent :
      (s : QuicServer) (p : QuicPacket)
      → Fits p
      → send_step link inbox s p ≡ goes_on (record s { net = after_send s.net (packet_wire p) })
  unfolding send_step
  step_sent s p f = rw (sends link delivers s.net p f) refl

  frame_served :
      (s : QuicServer) (seq : ℕ) (block : List ℕ)
      → seq < 2 ^ 16
      → length block ≤ 1200
      → inbox s.received ≡ some (packet_wire (ack_packet connection seq))
      → stream_step link inbox false connection seq block s
        ≡ goes_on (record {
          net =
              after_send s.net
                (frame_wire connection (record { stream_id = 1; seq = seq; payload = block }));
          received = s.received + 1;
        })
  frame_served s seq block hs hb h =
      let p = stream_packet connection (record { stream_id = 1; seq = seq; payload = block }) in
      let fits =
        stream-Fits connection (record { stream_id = 1; seq = seq; payload = block }) connected
          (record { stream = omega arith; number = omega arith; bounded = hb }) in
      let ack =
        received (ack_packet connection seq)
          (ack_packet-Fits connection seq connected (omega arith)) in
      let sent = step_sent s p fits in
      unfold stream_step in unfold await_ack in ground (arith, sent, h, ack)

  served_one :
      (fuel seq : ℕ) (bytes : List ℕ) (s s' : QuicServer)
      → 0 < length bytes
      → seq + 1 < 2 ^ 16
      → stream_step link inbox false connection seq (take 1200 bytes) s ≡ goes_on s'
      → stream_loop link inbox (suc fuel) false connection seq (length bytes) bytes s
        ≡ stream_loop link inbox fuel false connection
            (seq + 1)
            (length (drop 1200 bytes))
            (drop 1200 bytes)
            s'
  served_one fuel seq bytes s s' some_left few step =
      let (first, rest, size) = next_block 1200 bytes in
      let left : length (drop 1200 bytes) ≡ length bytes - min (length bytes) 1200 =
        length-drop 1200 bytes ∙ omega arith in
      let nonzero : (length bytes == 0) ≡ false = (ground arith) in
      let full : (length (take 1200 bytes) == min (length bytes) 1200) ≡ true =
        (==_iff (length (take 1200 bytes)) (min (length bytes) 1200)).1 size in
      let number : u16 (seq + 1) ≡ seq + 1 = omega arith in
      rw (left, ← rest, ← number) (unfold stream_loop in rw (first, nonzero, full, step) refl)

  nothing_left :
      (fuel seq : ℕ) (s : QuicServer)
      → stream_loop link inbox fuel false connection seq 0 [] s
        ≡ goes_on (record { net = s.net; received = s.received + 0 })
  unfolding stream_loop
  nothing_left zero seq s = ground arith
  nothing_left (suc fuel) seq s = ground arith

  pub frames_served :
      (fuel seq : ℕ) (bytes : List ℕ) (s : QuicServer) (blocks : List (List ℕ))
      → length bytes ≤ fuel
      → fread_all fuel 1200 bytes ≡ blocks
      → seq + length blocks < 2 ^ 16
      → Acknowledges inbox connection s.received seq (length blocks)
      → stream_loop link inbox fuel false connection seq (length bytes) bytes s
        ≡ goes_on (record {
          net = after_all s.net (map (frame_wire connection) (numbered 1 seq blocks));
          received = s.received + length blocks;
        })
  frames_served fuel seq [] s [] h e few acks = nothing_left fuel seq s
  frames_served zero seq [] s (b ∷ blocks) h e few acks =
      absurd (unfold fread_all in ground (arith, e))
  frames_served (suc fuel) seq [] s (b ∷ blocks) h e few acks =
      absurd (unfold fread_all in ground (arith, e))
  frames_served zero seq (x ∷ bytes) s blocks h e few acks = absurd (omega arith)
  frames_served (suc fuel) seq (x ∷ bytes) s [] h e few acks =
      absurd (ground (arith, e, fread_all_cons fuel 1200 x bytes))
  frames_served (suc fuel) seq (x ∷ bytes) s (b ∷ blocks) h e few acks =
      let whole : List ℕ = x ∷ bytes in
      let cut = fread_all_cons fuel 1200 x bytes in
      let first : take 1200 whole ≡ b = ground (arith, e, cut) in
      let rest : fread_all fuel 1200 (drop 1200 whole) ≡ blocks = ground (arith, e, cut) in
      let s' : QuicServer = record {
        net = after_send s.net (
            frame_wire connection (record { stream_id = 1; seq = seq; payload = take 1200 whole }));
        received = s.received + 1;
      } in
      let step =
        frame_served s seq (take 1200 whole) (omega arith) (omega (arith, length-take 1200 whole))
          (first_ack inbox connection s.received seq (length blocks) acks) in
      served_one fuel seq whole s s' (omega arith) (omega arith) step
      ∙ frames_served fuel (seq + 1) (drop 1200 whole) s' blocks
          (omega (arith, length-drop 1200 whole)) rest (omega arith)
          (later_acks inbox connection s.received seq (length blocks) acks)
      ∙ ap
          (λ n. goes_on (record {
            net = after_all s'.net (map (frame_wire connection) (numbered 1 (seq + 1) blocks));
            received = n;
          }))
          (omega arith)
      ∙ ap
          (λ l. goes_on (record {
            net =
                after_all
                  (after_send s.net
                    (frame_wire connection (record { stream_id = 1; seq = seq; payload = l })))
                  (map (frame_wire connection) (numbered 1 (seq + 1) blocks));
            received = s.received + suc (length blocks);
          }))
          first
