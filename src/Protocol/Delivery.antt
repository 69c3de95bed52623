-- ===== src/Protocol/Delivery.antt =====
-- What the calls that send do on a link that takes every datagram whole, and what the calls that
-- receive do with a datagram that arrives whole.
use udp_secure_transfer.Prelude.{ℕ, ◌+◌, ◌≤◌, ◌≡◌, refl, arith, true, some}
use udp_secure_transfer.Prelude.{List, [], ◌∷◌, ◌++◌, length, take, take_of_le, IsU32, ◌⊎◌}
use udp_secure_transfer.Prelude.{false}
use udp_secure_transfer.Protocol
use udp_secure_transfer.Protocol.{Packet, Peer}
use udp_secure_transfer.Protocol.Bytes.{put_u16, put_u32}
use udp_secure_transfer.Protocol.Parse.{ParseResult, parsed, parse_fail, parse_packet, is_same_peer}
use udp_secure_transfer.Protocol.Recv.{Link, Net, Arrival, datagram, timeout, failure, recv_packet}
use udp_secure_transfer.Protocol.Recv.{of_parse}
use udp_secure_transfer.Protocol.Logged.{received, recv_expected, send_logged, send_control}
use udp_secure_transfer.Protocol.Logged.{send_feedback, of_status, recv_logged_timeout}
use udp_secure_transfer.Protocol.RoundTrip

-- `sendto` takes every datagram whole.
abbrev pub Delivers : Link → Type 0
Delivers link = (k : ℕ) (wire : List ℕ) → link k wire ≡ some (length wire)

-- The traffic after one more datagram.
abbrev pub after_send : Net → List ℕ → Net
after_send net wire = record { calls = net.calls + 1; sent = net.sent ++ (wire ∷ []) }

pub is_same_peer_refl : (a : Peer) → is_same_peer a a ≡ true
unfolding is_same_peer
is_same_peer_refl a = ground arith

module _ (link : Link) (delivers : Delivers link) where
  pub send_logged_lem :
      (net : Net) (wire : List ℕ) → send_logged link net wire ≡ (true, after_send net wire)
  unfolding send_logged
  send_logged_lem net wire = ground (arith, delivers net.calls wire)

  pub send_control_lem :
      (net : Net) (type : ℕ)
      → RoundTrip.IsControl type
      → send_control link net type ≡ (true, after_send net (RoundTrip.control_wire type))
  unfolding send_control
  send_control_lem net type h = ground (
    arith,
    RoundTrip.build_control_packet_lem type h,
    delivers net.calls (RoundTrip.control_wire type),
  )

  pub send_feedback_lem :
      (net : Net) (type ack_id window_size : ℕ)
      → (type ≡ Protocol.ack) ⊎ (type ≡ Protocol.nack)
      → send_feedback link net type ack_id window_size
        ≡ (true, after_send net (RoundTrip.feedback_wire type ack_id window_size))
  unfolding send_feedback
  send_feedback_lem net type ack_id window_size h = ground (
    arith,
    RoundTrip.build_feedback_packet_lem type ack_id window_size h,
    delivers net.calls (RoundTrip.feedback_wire type ack_id window_size),
  )

-- A datagram that fits the buffer and parses is received as its packet.
pub recv_expected_lem :
    (from : Peer) (wire : List ℕ) (p : Packet)
    → length wire ≤ 2048
    → parse_packet (some wire) ≡ parsed p
    → recv_expected (datagram from wire) ≡ received p from
unfolding recv_expected recv_packet
recv_expected_lem from wire p h e = rw (take_of_le 2048 wire h, e) refl

pub recv_data :
    (from : Peer) (packet_id : ℕ) (bytes : List ℕ)
    → IsU32 packet_id
    → length bytes ≤ 1000
    → let wire = RoundTrip.data_wire packet_id bytes in
      recv_expected (datagram from wire) ≡ received (RoundTrip.data_view packet_id bytes wire) from
recv_data from packet_id bytes hid hlen =
    recv_expected_lem from _ _ (unfold RoundTrip.data_wire put_u16 put_u32 in omega arith)
      (RoundTrip.parse-data_wire packet_id bytes hid hlen)

pub recv_pass_resp :
    (from : Peer) (password : List ℕ)
    → length password ≤ 255
    → let wire = RoundTrip.payload_wire Protocol.pass_resp password in
      recv_expected (datagram from wire)
      ≡ received (RoundTrip.payload_view Protocol.pass_resp password wire) from
recv_pass_resp from password h =
    recv_expected_lem from _ _ (unfold RoundTrip.payload_wire put_u16 put_u32 in omega arith)
      (RoundTrip.parse-pass_resp_wire password h)

pub recv_terminate :
    (from : Peer) (digest : List ℕ)
    → length digest ≡ 20
    → let wire = RoundTrip.payload_wire Protocol.terminate digest in
      recv_expected (datagram from wire)
      ≡ received (RoundTrip.payload_view Protocol.terminate digest wire) from
recv_terminate from digest h =
    recv_expected_lem from _ _ (unfold RoundTrip.payload_wire put_u16 put_u32 in omega arith)
      (RoundTrip.parse-terminate_wire digest h)

pub recv_control :
    (from : Peer) (type : ℕ)
    → RoundTrip.IsControl type
    → let wire = RoundTrip.control_wire type in
      recv_expected (datagram from wire) ≡ received (RoundTrip.control_view type wire) from
recv_control from type h =
    recv_expected_lem from _ _ (unfold RoundTrip.control_wire put_u16 put_u32 in omega arith)
      (RoundTrip.parse-control_wire type h)

-- Feedback is received the same way by the server's window loop.
pub recv_feedback :
    (from : Peer) (type ack_id window_size : ℕ)
    → (type ≡ Protocol.ack) ⊎ (type ≡ Protocol.nack)
    → IsU32 ack_id
    → IsU32 window_size
    → let wire = RoundTrip.feedback_wire type ack_id window_size in
      recv_logged_timeout false (datagram from wire)
      ≡ received (RoundTrip.feedback_view type ack_id window_size wire) from
unfolding recv_logged_timeout recv_packet
recv_feedback from type ack_id window_size h ha hw =
    let wire = RoundTrip.feedback_wire type ack_id window_size in
    let short : length wire ≤ 2048 =
      unfold RoundTrip.feedback_wire put_u16 put_u32 in omega arith in
    rw (take_of_le 2048 wire short, RoundTrip.parse-feedback_wire type ack_id window_size h ha hw)
      refl

parsed_of_got :
    (from from' : Peer) (r : ParseResult) (p : Packet)
    → of_status true (of_parse from r) ≡ received p from'
    → r ≡ parsed p
unfolding recv_expected recv_packet
parsed_of_got from from' (parsed q) p e = ground arith
parsed_of_got from from' (parse_fail x) p e = cc

-- What is received has been parsed from at most 2048 bytes.
pub received-parsed :
    (arrival : Arrival) (p : Packet) (from : Peer)
    → recv_expected arrival ≡ received p from
    → (buf : List ℕ) × (parse_packet (some buf) ≡ parsed p)
unfolding recv_expected recv_packet
received-parsed (datagram sender bytes) p from e =
    (take 2048 bytes, parsed_of_got sender from (parse_packet (some (take 2048 bytes))) p e)
received-parsed timeout p from e = cc
received-parsed failure p from e = cc
