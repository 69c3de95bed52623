-- ===== src/Protocol/RoundTrip.antt =====
-- What parse_packet of src/protocol.c makes of the datagrams that the build functions write.
use mathlib.Core.Option.{Option}
use udp_secure_transfer.Prelude.{All, ◌≢◌, [], ◌∷◌, refl}
use udp_secure_transfer.Prelude.{ℕ, ◌≤◌, ◌≡◌, arith, some, ◌⊎◌}
use udp_secure_transfer.Prelude.{List, ◌++◌, length, take_all, IsU32}
use udp_secure_transfer.Protocol
use udp_secure_transfer.Protocol.{Packet, max_datagram, digest_size, max_password}
use udp_secure_transfer.Protocol.Bytes.{put_u16, put_u32, get_u16, get_u32}
use udp_secure_transfer.Protocol.Build.{build_control_packet, build_pass_resp_packet, strlen}
use udp_secure_transfer.Protocol.Build.{build_data_packet, build_feedback_packet}
use udp_secure_transfer.Protocol.Build.{build_terminate_packet}
use udp_secure_transfer.Protocol.Parse.{parsed, parse_packet}

-- The packet that a DATA datagram is read as, and its wire.
abbrev pub data_view : ℕ → List ℕ → List ℕ → Packet
data_view packet_id bytes wire = record {
  type = Protocol.data_packet;
  payload_length = length bytes;
  packet_id = packet_id;
  ack_id = 0;
  window_size = 0;
  payload = some bytes;
  wire = wire;
}

-- A packet that carries only a payload.
abbrev pub payload_view : ℕ → List ℕ → List ℕ → Packet
payload_view type bytes wire = record {
  type = type;
  payload_length = length bytes;
  packet_id = 0;
  ack_id = 0;
  window_size = 0;
  payload = some bytes;
  wire = wire;
}

unfoldable pub data_wire : ℕ → List ℕ → List ℕ
data_wire packet_id bytes =
    put_u16 Protocol.data_packet ++ put_u32 (length bytes) ++ put_u32 packet_id ++ bytes

unfoldable pub payload_wire : ℕ → List ℕ → List ℕ
payload_wire type bytes = put_u16 type ++ put_u32 (length bytes) ++ bytes

pub build_data_packet_lem :
    (packet_id : ℕ) (bytes : List ℕ)
    → length bytes ≤ 1000
    → build_data_packet packet_id (some bytes) (length bytes) max_datagram
      ≡ some (data_wire packet_id bytes)
unfolding build_data_packet data_wire
build_data_packet_lem packet_id bytes h = ground (arith, take_all bytes)

pub parse-data_wire :
    (packet_id : ℕ) (bytes : List ℕ)
    → IsU32 packet_id
    → length bytes ≤ 1000
    → parse_packet (some (data_wire packet_id bytes))
      ≡ parsed (data_view packet_id bytes (data_wire packet_id bytes))
unfolding parse_packet data_wire put_u16 put_u32 get_u16 get_u32
parse-data_wire packet_id bytes hid hlen = ground arith

-- A DATA datagram built for a 32-bit packet id and a chunk of at most 1000 bytes is read as
-- that packet id and chunk.
pub parse-build_data_packet :
    (packet_id : ℕ) (bytes : List ℕ)
    → IsU32 packet_id
    → length bytes ≤ 1000
    → (wire : List ℕ) × (build_data_packet packet_id (some bytes) (length bytes) max_datagram
        ≡ some wire)
      × (parse_packet (some wire) ≡ parsed (data_view packet_id bytes wire))
parse-build_data_packet packet_id bytes hid hlen = (
  data_wire packet_id bytes,
  build_data_packet_lem packet_id bytes hlen,
  parse-data_wire packet_id bytes hid hlen,
)

-- Bytes that can be those of a C string.
abbrev pub HasNoNul : List ℕ → Type 0
HasNoNul text = All (λ c. c ≢ 0) text

pub strlen-HasNoNul : (text : List ℕ) → HasNoNul text → strlen text ≡ length text
unfolding strlen
strlen-HasNoNul [] h = refl
strlen-HasNoNul (c ∷ text) h = ground (arith, strlen-HasNoNul text h.1, h.0)

pub build_pass_resp_packet_lem :
    (password : List ℕ)
    → HasNoNul password
    → length password ≤ 255
    → build_pass_resp_packet (some password) max_datagram
      ≡ some (payload_wire Protocol.pass_resp password)
unfolding build_pass_resp_packet payload_wire
build_pass_resp_packet_lem password text h =
    ground (arith, strlen-HasNoNul password text, take_all password)

pub parse-pass_resp_wire :
    (password : List ℕ)
    → length password ≤ 255
    → parse_packet (some (payload_wire Protocol.pass_resp password))
      ≡ parsed (payload_view Protocol.pass_resp password (payload_wire Protocol.pass_resp password))
unfolding parse_packet payload_wire put_u16 put_u32 get_u16 get_u32
parse-pass_resp_wire password h = ground arith

pub build_terminate_packet_lem :
    (digest : List ℕ)
    → length digest ≡ 20
    → build_terminate_packet (some digest) max_datagram
      ≡ some (payload_wire Protocol.terminate digest)
unfolding build_terminate_packet payload_wire
build_terminate_packet_lem digest h = ground (arith, take_all digest)

pub parse-terminate_wire :
    (digest : List ℕ)
    → length digest ≡ 20
    → parse_packet (some (payload_wire Protocol.terminate digest))
      ≡ parsed (payload_view Protocol.terminate digest (payload_wire Protocol.terminate digest))
unfolding parse_packet payload_wire put_u16 put_u32 get_u16 get_u32
parse-terminate_wire digest h = ground arith

-- The packet that an ACK or a NACK is read as, and its wire.
abbrev pub feedback_view : ℕ → ℕ → ℕ → List ℕ → Packet
feedback_view type ack_id window_size wire = record {
  type = type;
  payload_length = 8;
  packet_id = 0;
  ack_id = ack_id;
  window_size = window_size;
  payload = Option.none;
  wire = wire;
}

unfoldable pub feedback_wire : ℕ → ℕ → ℕ → List ℕ
feedback_wire type ack_id window_size =
    put_u16 type ++ put_u32 8 ++ put_u32 ack_id ++ put_u32 window_size

pub build_feedback_packet_lem :
    (type ack_id window_size : ℕ)
    → (type ≡ Protocol.ack) ⊎ (type ≡ Protocol.nack)
    → build_feedback_packet type ack_id window_size max_datagram
      ≡ some (feedback_wire type ack_id window_size)
unfolding build_feedback_packet feedback_wire
build_feedback_packet_lem type ack_id window_size h = ground arith

pub parse-feedback_wire :
    (type ack_id window_size : ℕ)
    → (type ≡ Protocol.ack) ⊎ (type ≡ Protocol.nack)
    → IsU32 ack_id
    → IsU32 window_size
    → parse_packet (some (feedback_wire type ack_id window_size))
      ≡ parsed (feedback_view type ack_id window_size (feedback_wire type ack_id window_size))
unfolding parse_packet feedback_wire put_u16 put_u32 get_u16 get_u32
parse-feedback_wire type ack_id window_size h ha hw = ground arith

-- The types whose packets are a bare header.
abbrev pub IsControl : ℕ → Type 0
IsControl type =
    ((type ≡ Protocol.join_req) ⊎ (type ≡ Protocol.pass_req))
    ⊎ ((type ≡ Protocol.pass_accept) ⊎ (type ≡ Protocol.reject))

abbrev pub control_view : ℕ → List ℕ → Packet
control_view type wire = record {
  type = type;
  payload_length = 0;
  packet_id = 0;
  ack_id = 0;
  window_size = 0;
  payload = Option.none;
  wire = wire;
}

unfoldable pub control_wire : ℕ → List ℕ
control_wire type = put_u16 type ++ put_u32 0

pub build_control_packet_lem :
    (type : ℕ) → IsControl type → build_control_packet type max_datagram ≡ some (control_wire type)
unfolding build_control_packet control_wire
build_control_packet_lem type h = ground arith

pub parse-control_wire :
    (type : ℕ)
    → IsControl type
    → parse_packet (some (control_wire type)) ≡ parsed (control_view type (control_wire type))
unfolding parse_packet control_wire put_u16 put_u32 get_u16 get_u32
parse-control_wire type h = ground arith
