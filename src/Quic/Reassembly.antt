-- ===== src/Quic/Reassembly.antt =====
-- A file whose frames reach main of src/quic_demo_client.c in any order.
use udp_secure_transfer.Prelude.{ℕ, ◌+◌, ◌≤◌, ◌<◌, ◌≡◌, refl, arith, ap, ap₂, sym, ◌∙◌, All}
use udp_secure_transfer.Prelude.{true, false, some, List, [], ◌∷◌, ◌++◌, length, map}
use udp_secure_transfer.Prelude.{take, take_of_le, concat, ◌==◌, append_assoc, append-nil, IsU32}
use udp_secure_transfer.Prelude.{bytes_eq_iff, length-append}
use mathlib.Core.List.{Perm}
use udp_secure_transfer.Protocol.Recv.{Link, Net, send_all_packet}
use udp_secure_transfer.Protocol.Delivery.{Delivers, after_send}
use udp_secure_transfer.Sha1.Padding.{fips_sha1}
use udp_secure_transfer.Sha1.File.{sha1_file_lem, fips_sha1_size}
use udp_secure_transfer.Session.Plain.{after_all}
use udp_secure_transfer.Tcp.Client.{Files}
use udp_secure_transfer.Tcp.Records.{Works}
use udp_secure_transfer.Quic.Packet.{QuicPacket, Fits, packet_wire, encode_packet_lem, quic_stream}
use udp_secure_transfer.Quic.Packet.{length-packet_wire, decode-packet_wire, quic_close}
use udp_secure_transfer.Quic.Sorted.{StreamChunk, Sorts, numbered, sorted-numbered}
use udp_secure_transfer.Quic.Client.{send_packet_logged, QuicTurn, recv_packet_logged, output}
use udp_secure_transfer.Quic.Client.{store_stream, ack_of, write_chunks, finish, quic_receive}

-- A frame of at most 1200 bytes, with numbers in the ranges of their types.
pub record IsFrame (c : StreamChunk) : Type 0 where
  pub stream : c.stream_id < 65536
  pub number : IsU32 c.seq
  pub bounded : length c.payload ≤ 1200

abbrev pub stream_packet : ℕ → StreamChunk → QuicPacket
stream_packet connection c = record {
  type = quic_stream;
  flags = 0;
  stream_id = c.stream_id;
  connection_id = connection;
  seq = c.seq;
  ack = 0;
  retransmit_count = 0;
  payload_len = length c.payload;
  payload = c.payload;
}

abbrev pub close_packet : ℕ → List ℕ → QuicPacket
close_packet connection digest = record {
  type = quic_close;
  flags = 0;
  stream_id = 0;
  connection_id = connection;
  seq = 0;
  ack = 0;
  retransmit_count = 0;
  payload_len = 20;
  payload = digest;
}

abbrev pub turn_of : QuicPacket → QuicTurn
turn_of p = record { stopped = false; wire = some (packet_wire p) }

not_empty : (n m : ℕ) → n ≡ m + 19 → (n == 0) ≡ false
not_empty n m h = ground (arith, h)

pub received : (p : QuicPacket) → Fits p → recv_packet_logged (some (packet_wire p)) ≡ some p
unfolding recv_packet_logged
received p f =
    let size = length-packet_wire p f in
    let whole : take 1219 (packet_wire p) ≡ packet_wire p =
      take_of_le 1219 (packet_wire p) (omega (arith, size, f.bounded)) in
    let some_bytes : (length (packet_wire p) == 0) ≡ false = not_empty _ p.payload_len size in
    rw (whole, some_bytes) (decode-packet_wire p f)

pub stream-Fits :
    (connection : ℕ) (c : StreamChunk)
    → IsU32 connection
    → IsFrame c
    → Fits (stream_packet connection c)
stream-Fits connection c h f = record {
  stream = f.stream;
  connection = h;
  number = f.number;
  acked = omega arith;
  whole = refl;
  bounded = f.bounded;
}

ack-Fits : (p : QuicPacket) → Fits p → Fits (ack_of p)
ack-Fits p f = record {
  stream = omega arith;
  connection = f.connection;
  number = omega arith;
  acked = f.number;
  whole = refl;
  bounded = omega arith;
}

abbrev pub ack_wire : ℕ → StreamChunk → List ℕ
ack_wire connection c = packet_wire (ack_of (stream_packet connection c))

pub sends :
    (link : Link) (delivers : Delivers link) (net : Net) (p : QuicPacket)
    → Fits p
    → send_packet_logged link net p ≡ (true, after_send net (packet_wire p))
unfolding send_packet_logged send_all_packet
sends link delivers net p f =
    ground (arith, encode_packet_lem p f, delivers net.calls (packet_wire p))

module _ (link : Link) (delivers : Delivers link) (files : Files)
    (qsort : List StreamChunk → List StreamChunk) (connection : ℕ)
    (connected : IsU32 connection) where
  store_one :
      (chunks : List StreamChunk) (net : Net) (c : StreamChunk) (turns : List QuicTurn)
      → IsFrame c
      → length chunks < 256
      → quic_receive link files qsort chunks net (turn_of (stream_packet connection c) ∷ turns)
        ≡ quic_receive link files qsort
            (chunks ++ (c ∷ []))
            (after_send net (ack_wire connection c))
            turns
  unfolding quic_receive store_stream
  store_one chunks net c turns f room =
      let p = stream_packet connection c in
      let fits = stream-Fits connection c connected f in
      ground (arith, received p fits, sends link delivers net (ack_of p) (ack-Fits p fits))

  store_frames :
      (chunks todo : List StreamChunk) (net : Net) (turns : List QuicTurn)
      → All IsFrame todo
      → length chunks + length todo ≤ 256
      → quic_receive link files qsort chunks net
          (map turn_of (map (stream_packet connection) todo) ++ turns)
        ≡ quic_receive link files qsort
            (chunks ++ todo)
            (after_all net (map (ack_wire connection) todo))
            turns
  store_frames chunks [] net turns f few =
      ap (λ l. quic_receive link files qsort l net turns) (sym (append-nil chunks))
  store_frames chunks (c ∷ todo) net turns f few =
      store_one chunks net c (map turn_of (map (stream_packet connection) todo) ++ turns) f.0
        (omega arith)
      ∙ store_frames (chunks ++ (c ∷ [])) todo (after_send net (ack_wire connection c)) turns f.1
          (omega (arith, length-append chunks (c ∷ [])))
      ∙ ap
          (λ l.
            quic_receive link files qsort l
              (after_all (after_send net (ack_wire connection c)) (map (ack_wire connection) todo))
              turns)
          (append_assoc chunks (c ∷ []) todo)

  closes :
      (works : Works files) (chunks : List StreamChunk) (net : Net) (turns : List QuicTurn)
      (bytes : List ℕ)
      → write_chunks files (qsort chunks) ≡ bytes
      → quic_receive link files qsort chunks net
          (turn_of (close_packet connection (fips_sha1 bytes)) ∷ turns)
        ≡ output bytes true
  unfolding quic_receive finish
  closes works chunks net turns bytes written =
      let digest = fips_sha1 bytes in
      let size = (fips_sha1_size bytes).0 in
      let fits : Fits (close_packet connection digest) = record {
        stream = omega arith;
        connection = connected;
        number = omega arith;
        acked = omega arith;
        whole = size;
        bounded = omega arith;
      } in
      ground (
        arith,
        received (close_packet connection digest) fits,
        written,
        works.reopens,
        works.rereads,
        works.commits,
        sha1_file_lem bytes,
        take_of_le 20 digest (omega (arith, size)),
        (bytes_eq_iff digest digest).1 refl,
      )

writes_blocks :
    (files : Files) (works : Works files) (stream n : ℕ) (blocks : List (List ℕ))
    → write_chunks files (numbered stream n blocks) ≡ concat blocks
unfolding write_chunks
writes_blocks files works stream n [] = refl
writes_blocks files works stream n (block ∷ blocks) =
    ap₂ (λ a b. a ++ b) (take_of_le (files.fwrite block) block (omega (arith, works.writes block)))
      (writes_blocks files works stream (n + 1) blocks)

-- On a link that delivers, with any `qsort` that sorts by chunk_cmp, and if the temporary file is
-- written, read again and renamed without an error: let
-- the STREAM frames of one stream with consecutive numbers come in any order, each once and at
-- most 256 of them, and then CLOSE with the digest of their bytes in order. Then the client
-- ends with these bytes as its output file.
pub quic_reassembles :
    (link : Link) (files : Files) (qsort : List StreamChunk → List StreamChunk)
    (connection stream n : ℕ) (blocks : List (List ℕ)) (arrived : List StreamChunk) (net : Net)
    (rest : List QuicTurn)
    → Delivers link
    → Works files
    → Sorts qsort
    → IsU32 connection
    → Perm arrived (numbered stream n blocks)
    → All IsFrame arrived
    → length arrived ≤ 256
    → quic_receive link files qsort [] net (
        map turn_of (map (stream_packet connection) arrived)
        ++ (turn_of (close_packet connection (fips_sha1 (concat blocks))) ∷ rest))
      ≡ output (concat blocks) true
quic_reassembles link files qsort connection stream n blocks arrived net rest delivers works sorts
      connected any_order frames few =
    store_frames link delivers files qsort connection connected [] arrived net _ frames
      (omega arith)
    ∙ closes link delivers files qsort connection connected works arrived _ rest (concat blocks) (
        ap (write_chunks files) (sorted-numbered qsort sorts stream n blocks arrived any_order)
        ∙ writes_blocks files works stream n blocks)
