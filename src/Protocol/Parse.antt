-- ===== src/Protocol/Parse.antt =====
-- packet_type_name, is_same_peer and parse_packet of src/protocol.c. A failure carries the
-- message that the source writes into `error`; what it leaves in `*packet` is never read.
use udp_secure_transfer.Prelude.{ℕ, ◌+◌, Bool, ◌&&◌, ◌||◌, not, Option, none, some}
use udp_secure_transfer.Prelude.{List, length, drop, ltb, ◌==◌, if◌then◌else◌}
use udp_secure_transfer.Protocol.{header_size, data_header_size, feedback_payload_size}
use udp_secure_transfer.Protocol.{feedback_header_size, data_chunk_size, digest_size}
use udp_secure_transfer.Protocol.{max_password, recv_buffer, join_req, pass_req, pass_resp}
use udp_secure_transfer.Protocol.{pass_accept, data_packet, terminate, reject, ack, nack}
use udp_secure_transfer.Protocol.{Packet, Peer}
use udp_secure_transfer.Protocol.Bytes.{get_u16, get_u32}
use udp_secure_transfer.Protocol.Build.{packet_type_valid}

-- The messages of parse_fail.
pub data ParseError : Type 0 where
  null_packet_buffer shorter_than_header exceeds_receive_buffer unknown_packet_type : ParseError
  control_payload password_too_long pass_resp_length data_too_long data_length : ParseError
  terminate_length feedback_length invalid_packet : ParseError

pub data ParseResult : Type 0 where
  parsed : Packet → ParseResult
  parse_fail : ParseError → ParseResult

unfoldable pub is_same_peer : Peer → Peer → Bool
is_same_peer a b = a.family == b.family && a.port == b.port && a.address == b.address

-- The packet after `memset` and the first assignments.
header_packet : List ℕ → Packet
header_packet buf = record {
  type = get_u16 buf;
  payload_length = get_u32 (drop 2 buf);
  packet_id = 0;
  ack_id = 0;
  window_size = 0;
  payload = none;
  wire = buf;
}

-- The `switch` on the type, for a buffer whose header has been read into `packet`.
parse_body : List ℕ → Packet → ParseResult
parse_body buf packet =
    let len = length buf in
    let type = packet.type in
    let payload_len = packet.payload_length in
    if type == join_req || type == pass_req || type == pass_accept || type == reject
    then (if not (payload_len == 0) || not (len == header_size)
        then parse_fail control_payload
        else parsed packet)
    else if type == pass_resp
    then (if ltb max_password payload_len
        then parse_fail password_too_long
        else if not (len == header_size + payload_len)
        then parse_fail pass_resp_length
        else parsed (record packet { payload = some (drop header_size buf) }))
    else if type == data_packet
    then (if ltb data_chunk_size payload_len
        then parse_fail data_too_long
        else if not (len == data_header_size + payload_len)
        then parse_fail data_length
        else parsed (record packet {
          packet_id = get_u32 (drop header_size buf);
          payload = some (drop data_header_size buf);
        }))
    else if type == terminate
    then (if not (payload_len == digest_size) || not (len == header_size + digest_size)
        then parse_fail terminate_length
        else parsed (record packet { payload = some (drop header_size buf) }))
    else if type == ack || type == nack
    then (if not (payload_len == feedback_payload_size) || not (len == feedback_header_size)
        then parse_fail feedback_length
        else parsed (record packet {
          ack_id = get_u32 (drop header_size buf);
          window_size = get_u32 (drop (header_size + 4) buf);
        }))
    else parse_fail invalid_packet

unfoldable pub parse_packet : Option (List ℕ) → ParseResult
unfolding header_packet parse_body packet_type_valid
parse_packet none = parse_fail null_packet_buffer
parse_packet (some buf) =
    if ltb (length buf) header_size
    then parse_fail shorter_than_header
    else if ltb recv_buffer (length buf)
    then parse_fail exceeds_receive_buffer
    else if not (packet_type_valid (get_u16 buf))
    then parse_fail unknown_packet_type
    else parse_body buf (header_packet buf)
