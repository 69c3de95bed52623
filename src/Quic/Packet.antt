-- ===== src/Quic/Packet.antt =====
-- encode_packet and decode_packet, which src/quic_demo_client.c and src/quic_demo_server.c have in
-- the same words.
use udp_secure_transfer.Prelude.{
  ℕ, ◌+◌, ◌≤◌, ◌<◌, ◌^◌, ◌*◌, ◌/◌, ◌%◌, ◌≡◌, arith, ap, sym, ◌∙◌, ◌||◌,
}
use udp_secure_transfer.Prelude.{Option, none, some, List, [], ◌∷◌, ◌++◌, length, take, drop, ltb}
use udp_secure_transfer.Prelude.{if◌then◌else◌, append-nil, front_of, length-append, IsU32}
use udp_secure_transfer.Protocol.Bytes.{put_u16, put_u32, get_u16, get_u32, byte_at}

abbrev pub quic_header_size : ℕ
quic_header_size = 19

abbrev pub quic_max_payload : ℕ
quic_max_payload = 1200

abbrev pub quic_stream : ℕ
quic_stream = 63

abbrev pub quic_ack : ℕ
quic_ack = 64

abbrev pub quic_close : ℕ
quic_close = 65

-- `payload` is `payload[0..payload_len)`.
pub record QuicPacket : Type 0 where
  pub type : ℕ
  pub flags : ℕ
  pub stream_id : ℕ
  pub connection_id : ℕ
  pub seq : ℕ
  pub ack : ℕ
  pub retransmit_count : ℕ
  pub payload_len : ℕ
  pub payload : List ℕ

-- `wire[0..*wire_len)`.
unfoldable pub packet_wire : QuicPacket → List ℕ
packet_wire p =
    p.type
    ∷ p.flags
    ∷ (put_u16 p.stream_id
        ++ (put_u32 p.connection_id
            ++ (put_u32 p.seq
                ++ (put_u32 p.ack ++ (p.retransmit_count ∷ (put_u16 p.payload_len ++ p.payload))))))

-- `none` is -1.
unfoldable pub encode_packet : QuicPacket → Option (List ℕ)
unfolding packet_wire
encode_packet p = if ltb quic_max_payload p.payload_len then none else some (packet_wire p)

unfoldable pub decode_packet : List ℕ → Option QuicPacket
decode_packet wire =
    let payload_len = get_u16 (drop 17 wire) in
    if ltb (length wire) quic_header_size
    then none
    else if ltb (length wire) (quic_header_size + payload_len) || ltb quic_max_payload payload_len
    then none
    else some (record {
      type = byte_at wire 0;
      flags = byte_at wire 1;
      stream_id = get_u16 (drop 2 wire);
      connection_id = get_u32 (drop 4 wire);
      seq = get_u32 (drop 8 wire);
      ack = get_u32 (drop 12 wire);
      retransmit_count = byte_at wire 16;
      payload_len = payload_len;
      payload = take payload_len (drop quic_header_size wire);
    })

-- The fields are in the ranges of their C types, and the payload has the length that is given.
pub record Fits (p : QuicPacket) : Type 0 where
  pub stream : p.stream_id < 2 ^ 16
  pub connection : IsU32 p.connection_id
  pub number : IsU32 p.seq
  pub acked : IsU32 p.ack
  pub whole : length p.payload ≡ p.payload_len
  pub bounded : p.payload_len ≤ 1200

u16_bytes : (v : ℕ) → v < 2 ^ 16 → v / 256 % 256 * 256 + v % 256 ≡ v
u16_bytes v h = omega arith

u32_bytes :
    (v : ℕ)
    → IsU32 v
    → v / 16777216 % 256 * 16777216 + v / 65536 % 256 * 65536 + v / 256 % 256 * 256 + v % 256 ≡ v
u32_bytes v h = omega arith

pub encode_packet_lem : (p : QuicPacket) → Fits p → encode_packet p ≡ some (packet_wire p)
unfolding encode_packet
encode_packet_lem p f = ground (arith, f.bounded)

pub length-packet_wire : (p : QuicPacket) → Fits p → length (packet_wire p) ≡ p.payload_len + 19
unfolding packet_wire put_u16 put_u32
length-packet_wire p f = omega (arith, f.whole)

pub decode-append :
    (p : QuicPacket) (later : List ℕ) → Fits p → decode_packet (packet_wire p ++ later) ≡ some p
unfolding decode_packet packet_wire put_u16 put_u32 get_u16 get_u32
decode-append p later f =
    let stream : p.stream_id / 256 % 256 * 256 + p.stream_id % 256 ≡ p.stream_id =
      u16_bytes p.stream_id f.stream in
    let size : p.payload_len / 256 % 256 * 256 + p.payload_len % 256 ≡ p.payload_len =
      u16_bytes p.payload_len (omega (arith, f.bounded)) in
    let long : length (p.payload ++ later) ≡ p.payload_len + length later =
      length-append p.payload later ∙ ap (λ n. n + length later) f.whole in
    rw
      (
        stream,
        size,
        u32_bytes p.connection_id f.connection,
        u32_bytes p.seq f.number,
        u32_bytes p.ack f.acked,
        front_of p.payload_len p.payload later f.whole,
      )
      (ground (arith, f.bounded, long))

pub decode-packet_wire : (p : QuicPacket) → Fits p → decode_packet (packet_wire p) ≡ some p
decode-packet_wire p f = ap decode_packet (sym (append-nil (packet_wire p))) ∙ decode-append p [] f

-- A packet whose fields are in the ranges of their types, with at most 1200 bytes, is encoded, and
-- it is decoded from its datagram, also if bytes follow.
pub decode-encode_packet :
    (p : QuicPacket) (later : List ℕ)
    → Fits p
    → (wire : List ℕ) × (encode_packet p ≡ some wire) × (decode_packet (wire ++ later) ≡ some p)
decode-encode_packet p later f = (packet_wire p, encode_packet_lem p f, decode-append p later f)
