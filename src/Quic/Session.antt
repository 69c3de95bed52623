-- ===== src/Quic/Session.antt =====
-- src/quic_demo_server.c and src/quic_demo_client.c together.
use udp_secure_transfer.Prelude.{ℕ, suc, ◌+◌, ◌≤◌, ◌≡◌, refl, arith, ap, sym, ◌∙◌, All}
use udp_secure_transfer.Prelude.{true, false, some, List, [], ◌∷◌, ◌++◌, length, map, concat}
use udp_secure_transfer.Prelude.{codes, IsU32}
use mathlib.Core.List.Perm
use udp_secure_transfer.Protocol.Recv.{Link, Net}
use udp_secure_transfer.Protocol.Delivery.{Delivers, after_send}
use udp_secure_transfer.Sha1.{fread_blocks}
use udp_secure_transfer.Sha1.Padding.{fips_sha1}
use udp_secure_transfer.Sha1.File.{IsBlock, concat-fread_all, fread_all-IsBlock, fips_sha1_size}
use udp_secure_transfer.Session.Plain.{after_all}
use udp_secure_transfer.Tcp.Client.{Files}
use udp_secure_transfer.Tcp.Records.{Works}
use udp_secure_transfer.Quic.Packet.{Fits, packet_wire, quic_close}
use udp_secure_transfer.Quic.Sorted.{StreamChunk, Sorts, numbered}
use udp_secure_transfer.Quic.Client.{quic_receive, output}
use udp_secure_transfer.Quic.Reassembly.{IsFrame, stream_packet, close_packet, turn_of, received}
use udp_secure_transfer.Quic.Reassembly.{quic_reassembles}
use udp_secure_transfer.Quic.Server.{
  Inbox, QuicServer, goes_on, plain_packet, serve_stream, serve_quic,
}
use udp_secure_transfer.Quic.Server.{serve_handshake, quic_initial, quic_handshake}
use udp_secure_transfer.Quic.Server.{quic_handshake_ack}
use udp_secure_transfer.Quic.Served.{Acknowledges, frame_wire, frames_served, step_sent}

plain-Fits :
    (type connection : ℕ) (payload : List ℕ)
    → IsU32 connection
    → length payload ≤ 1200
    → Fits (plain_packet type connection payload)
plain-Fits type connection payload hc hp = record {
  stream = omega arith;
  connection = hc;
  number = omega arith;
  acked = omega arith;
  whole = refl;
  bounded = hp;
}

frames-IsFrame :
    (n : ℕ) (blocks : List (List ℕ))
    → All (IsBlock 1200) blocks
    → n + length blocks ≤ 65536
    → All IsFrame (numbered 1 n blocks)
frames-IsFrame n [] ok few = tt
frames-IsFrame n (block ∷ blocks) ok few = (
  record { stream = omega arith; number = omega arith; bounded = ok.0.1 },
  frames-IsFrame (n + 1) blocks ok.1 (omega arith),
)

length-numbered : (n : ℕ) (blocks : List (List ℕ)) → length (numbered 1 n blocks) ≡ length blocks
length-numbered n [] = refl
length-numbered n (block ∷ blocks) = ap suc (length-numbered (n + 1) blocks)

abbrev pub wire_of : ℕ → ℕ → List ℕ → List ℕ
wire_of type connection payload = packet_wire (plain_packet type connection payload)

-- The server after the handshake, the frames and CLOSE.
abbrev pub after_quic : ℕ → List ℕ → List (List ℕ) → QuicServer → QuicServer
after_quic connection digest blocks s = record {
  net =
      after_send
        (after_all (after_send s.net (wire_of quic_handshake connection (codes "server-hello")))
          (map (frame_wire connection) (numbered 1 1 blocks)))
        (wire_of quic_close connection digest);
  received = s.received + 1 + 1 + length blocks;
}

module _ (link : Link) (delivers : Delivers link) (inbox : Inbox) (connection : ℕ)
    (connected : IsU32 connection) where
  handshake_served :
      (s : QuicServer)
      → inbox s.received ≡ some (wire_of quic_handshake_ack connection [])
      → serve_handshake link inbox connection s
        ≡ goes_on (record {
          net = after_send s.net (wire_of quic_handshake connection (codes "server-hello"));
          received = s.received + 1;
        })
  unfolding serve_handshake
  handshake_served s h =
      let hello =
        step_sent link delivers inbox connection connected s
          (plain_packet quic_handshake connection (codes "server-hello"))
          (plain-Fits quic_handshake connection (codes "server-hello") connected (omega arith)) in
      let ack =
        received (plain_packet quic_handshake_ack connection [])
          (plain-Fits quic_handshake_ack connection [] connected (omega arith)) in
      ground (arith, hello, h, ack)

  stream_served :
      (bytes digest : List ℕ) (s : QuicServer)
      → length digest ≡ 20
      → length (fread_blocks 1200 bytes) ≤ 256
      → Acknowledges inbox connection s.received 1 (length (fread_blocks 1200 bytes))
      → serve_stream link inbox false connection (length bytes) (some bytes) digest s
        ≡ goes_on (record {
          net =
              after_send
                (after_all s.net
                  (map (frame_wire connection) (numbered 1 1 (fread_blocks 1200 bytes))))
                (wire_of quic_close connection digest);
          received = s.received + length (fread_blocks 1200 bytes);
        })
  unfolding serve_stream
  stream_served bytes digest s size few acks =
      let blocks = fread_blocks 1200 bytes in
      let frames =
        frames_served link delivers inbox connection connected (length bytes) 1 bytes s blocks
          (omega arith) refl (omega arith) acks in
      let close =
        step_sent link delivers inbox connection connected
          (record {
            net = after_all s.net (map (frame_wire connection) (numbered 1 1 blocks));
            received = s.received + length blocks;
          })
          (plain_packet quic_close connection digest)
          (plain-Fits quic_close connection digest connected (omega (arith, size))) in
      rw (frames, serve_stream) close

  quic_served :
      (bytes digest hello : List ℕ) (s : QuicServer)
      → length digest ≡ 20
      → length hello ≤ 1200
      → length (fread_blocks 1200 bytes) ≤ 256
      → inbox s.received ≡ some (wire_of quic_initial connection hello)
      → inbox (s.received + 1) ≡ some (wire_of quic_handshake_ack connection [])
      → Acknowledges inbox connection (s.received + 1 + 1) 1 (length (fread_blocks 1200 bytes))
      → serve_quic link inbox false (length bytes) (some bytes) digest s
        ≡ goes_on (after_quic connection digest (fread_blocks 1200 bytes) s)
  unfolding serve_quic
  quic_served bytes digest hello s size short few first second acks =
      let initial =
        received (plain_packet quic_initial connection hello)
          (plain-Fits quic_initial connection hello connected short) in
      let s1 : QuicServer = record s { received = s.received + 1 } in
      let s2 : QuicServer = record {
        net = after_send s.net (wire_of quic_handshake connection (codes "server-hello"));
        received = s.received + 1 + 1;
      } in
      ground (
        arith,
        first,
        initial,
        handshake_served s1 second,
        stream_served bytes digest s2 size few acks,
      )

-- On links that deliver, for a file of at most 256 blocks of 1200 bytes, with any `qsort` that
-- sorts by chunk_cmp, and if the temporary file is written, read again and renamed without an
-- error: a server that gets INITIAL, HANDSHAKE_ACK and the ACK
-- of every frame sends HANDSHAKE, the frames of the file in order and CLOSE with the digest; and a
-- client that gets these frames and this CLOSE ends with the bytes of the file as its output file.
pub quic_transfer :
    (link link' : Link) (inbox : Inbox) (files : Files)
    (qsort : List StreamChunk → List StreamChunk) (connection : ℕ) (bytes hello : List ℕ)
    (s : QuicServer) (net : Net)
    → Delivers link
    → Delivers link'
    → Works files
    → Sorts qsort
    → IsU32 connection
    → length hello ≤ 1200
    → length (fread_blocks 1200 bytes) ≤ 256
    → inbox s.received ≡ some (wire_of quic_initial connection hello)
    → inbox (s.received + 1) ≡ some (wire_of quic_handshake_ack connection [])
    → Acknowledges inbox connection (s.received + 1 + 1) 1 (length (fread_blocks 1200 bytes))
    → (serve_quic link inbox false (length bytes) (some bytes) (fips_sha1 bytes) s
        ≡ goes_on (after_quic connection (fips_sha1 bytes) (fread_blocks 1200 bytes) s))
      × (quic_receive link' files qsort [] net (
            map turn_of (map (stream_packet connection) (numbered 1 1 (fread_blocks 1200 bytes)))
            ++ (turn_of (plain_packet quic_close connection (fips_sha1 bytes)) ∷ []))
          ≡ output bytes true)
quic_transfer link link' inbox files qsort connection bytes hello s net delivers delivers' works
      sorts connected short few first second acks =
    let blocks = fread_blocks 1200 bytes in
    let size = (fips_sha1_size bytes).0 in
    let whole : concat blocks ≡ bytes =
      concat-fread_all (length bytes) 1200 bytes (omega arith) (omega arith) in
    let ok = fread_all-IsBlock (length bytes) 1200 bytes (omega arith) in
    let frames = map turn_of (map (stream_packet connection) (numbered 1 1 blocks)) in
    (
      quic_served link delivers inbox connection connected bytes (fips_sha1 bytes) hello s size
          short few first second acks,
      ap
            (λ n. quic_receive link' files qsort [] net (
              frames
              ++ (turn_of (record (plain_packet quic_close connection (fips_sha1 bytes)) {
                payload_len = n;
              })
                  ∷ [])))
            size
          ∙ ap
              (λ l.
                quic_receive link' files qsort [] net
                  (frames ++ (turn_of (close_packet connection (fips_sha1 l)) ∷ [])))
              (sym whole)
          ∙ quic_reassembles link' files qsort connection 1 1 blocks (numbered 1 1 blocks) net []
              delivers' works sorts connected (Perm.refl (numbered 1 1 blocks))
              (frames-IsFrame 1 blocks ok (omega arith)) (omega (arith, length-numbered 1 blocks))
          ∙ ap (λ l. output l true) whole,
    )
