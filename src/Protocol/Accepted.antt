-- ===== src/Protocol/Accepted.antt =====
-- What a successful parse_packet of src/protocol.c says of the buffer, type by type.
use udp_secure_transfer.Prelude.{
  ℕ, ◌+◌, ◌≤◌, ◌≡◌, ◌⊎◌, arith, Option, none, some, List, length, drop,
}
use udp_secure_transfer.Protocol
use udp_secure_transfer.Protocol.{Packet}
use udp_secure_transfer.Protocol.Bytes.{get_u16, get_u32}
use udp_secure_transfer.Protocol.Parse.{parsed, parse_packet}
use udp_secure_transfer.Protocol.RoundTrip.{IsControl}

-- A packet with the header of `buf` and the fields that its type adds.
abbrev pub view : List ℕ → ℕ → ℕ → ℕ → Option (List ℕ) → Packet
view buf packet_id ack_id window_size payload = record {
  type = get_u16 buf;
  payload_length = get_u32 (drop 2 buf);
  packet_id = packet_id;
  ack_id = ack_id;
  window_size = window_size;
  payload = payload;
  wire = buf;
}

abbrev pub IsFeedback : ℕ → Type 0
IsFeedback type = (type ≡ Protocol.ack) ⊎ (type ≡ Protocol.nack)

module _ (buf : List ℕ) (p : Packet) (accepted : parse_packet (some buf) ≡ parsed p) where
  pub accepted_header :
      (1 ≤ get_u16 buf) × (get_u16 buf ≤ 9) × (6 ≤ length buf) × (length buf ≤ 2048)
  unfolding parse_packet
  accepted_header = ground arith

  pub accepted_fields :
      (p.type ≡ get_u16 buf) × (p.payload_length ≡ get_u32 (drop 2 buf)) × (p.wire ≡ buf)
  unfolding parse_packet
  accepted_fields = ground arith

  pub accepted_control :
      IsControl (get_u16 buf)
      → (get_u32 (drop 2 buf) ≡ 0) × (length buf ≡ 6) × (p ≡ view buf 0 0 0 none)
  unfolding parse_packet
  accepted_control t = ground arith

  pub accepted_pass_resp :
      get_u16 buf ≡ Protocol.pass_resp
      → (get_u32 (drop 2 buf) ≤ 255)
        × (length buf ≡ 6 + get_u32 (drop 2 buf))
        × (p ≡ view buf 0 0 0 (some (drop 6 buf)))
  unfolding parse_packet
  accepted_pass_resp t = ground arith

  pub accepted_data :
      get_u16 buf ≡ Protocol.data_packet
      → (get_u32 (drop 2 buf) ≤ 1000)
        × (length buf ≡ 10 + get_u32 (drop 2 buf))
        × (p ≡ view buf (get_u32 (drop 6 buf)) 0 0 (some (drop 10 buf)))
  unfolding parse_packet
  accepted_data t = ground arith

  pub accepted_terminate :
      get_u16 buf ≡ Protocol.terminate
      → (get_u32 (drop 2 buf) ≡ 20) × (length buf ≡ 26) × (p ≡ view buf 0 0 0 (some (drop 6 buf)))
  unfolding parse_packet
  accepted_terminate t = ground arith

  pub accepted_feedback :
      IsFeedback (get_u16 buf)
      → (get_u32 (drop 2 buf) ≡ 8)
        × (length buf ≡ 14)
        × (p ≡ view buf 0 (get_u32 (drop 6 buf)) (get_u32 (drop 10 buf)) none)
  unfolding parse_packet
  accepted_feedback t = ground arith

-- The valid types, by the shape of their packets.
pub type_cases :
    (t : ℕ)
    → 1 ≤ t
    → t ≤ 9
    → (IsControl t ⊎ (t ≡ Protocol.pass_resp))
      ⊎ ((t ≡ Protocol.data_packet) ⊎ ((t ≡ Protocol.terminate) ⊎ IsFeedback t))
type_cases t lo hi = ground arith
