-- ===== src/Protocol.antt =====
-- src/protocol.c and include/protocol.h: the datagrams of the UDP protocol. This file holds the
-- constants and the packet record; the children build, parse, print and configure.
pub mod Bytes
pub mod Build
pub mod Parse
pub mod RoundTrip
pub mod Recv
pub mod Logged
pub mod Delivery
pub mod Hex
pub mod Config
pub mod Accepted
pub mod Canonical
use udp_secure_transfer.Prelude.{ℕ, List, Option}

-- The #define lines of protocol.h.
abbrev pub header_size : ℕ
header_size = 6

abbrev pub data_header_size : ℕ
data_header_size = 10

abbrev pub feedback_payload_size : ℕ
feedback_payload_size = 8

abbrev pub feedback_header_size : ℕ
feedback_header_size = 14

abbrev pub data_chunk_size : ℕ
data_chunk_size = 1000

abbrev pub digest_size : ℕ
digest_size = 20

abbrev pub max_password : ℕ
max_password = 255

abbrev pub max_datagram : ℕ
max_datagram = 1010

abbrev pub recv_buffer : ℕ
recv_buffer = 2048

-- `enum PacketType`, as the uint16_t codes that the wire carries.
abbrev pub join_req : ℕ
join_req = 1

abbrev pub pass_req : ℕ
pass_req = 2

abbrev pub pass_resp : ℕ
pass_resp = 3

abbrev pub pass_accept : ℕ
pass_accept = 4

abbrev pub data_packet : ℕ
data_packet = 5

abbrev pub terminate : ℕ
terminate = 6

abbrev pub reject : ℕ
reject = 7

abbrev pub ack : ℕ
ack = 8

abbrev pub nack : ℕ
nack = 9

-- `wire` is `wire[0..wire_length)`, and `payload` is what the pointer shows of it; NULL is `none`.
pub record Packet : Type 0 where
  pub type : ℕ
  pub payload_length : ℕ
  pub packet_id : ℕ
  pub ack_id : ℕ
  pub window_size : ℕ
  pub payload : Option (List ℕ)
  pub wire : List ℕ

-- `struct sockaddr_in`: its family, port and address, in the order of the bytes on the network.
pub record Peer : Type 0 where
  pub family : ℕ
  pub port : ℕ
  pub address : ℕ
