-- ===== src/Protocol/Logged.antt =====
-- The wrappers of src/server.c and src/client.c round the calls that send and receive. The log
-- entries that they write have no influence on what they return, and are not modelled.
use udp_secure_transfer.Prelude.{
  ℕ, Bool, true, false, Option, none, some, List, [], if◌then◌else◌, not,
}
use udp_secure_transfer.Protocol.{Packet, Peer, max_datagram}
use udp_secure_transfer.Protocol.Build.{build_control_packet, build_feedback_packet}
use udp_secure_transfer.Protocol.Recv.{Link, Net, send_all_packet, Arrival, RecvStatus}
use udp_secure_transfer.Protocol.Recv.{got, fail_timeout, fail_error, recv_packet}

-- One turn of a loop that receives: `stopped` is stop_requested at the loop's test, before the wait that ends in `arrival`.
pub record Event : Type 0 where
  pub stopped : Bool
  pub arrival : Arrival

-- A NULL payload has no bytes.
abbrev pub payload_bytes : Option (List ℕ) → List ℕ
payload_bytes none = []
payload_bytes (some bytes) = bytes

-- The return values 0, 1 and -1 of recv_logged_timeout.
pub data Logged : Type 0 where
  received : Packet → Peer → Logged
  quiet : Logged
  lost : Logged

pub of_status : Bool → RecvStatus → Logged
of_status log_timeout (got p from) = received p from
of_status log_timeout fail_timeout = if not log_timeout then quiet else lost
of_status log_timeout fail_error = lost

unfoldable pub recv_logged_timeout : Bool → Arrival → Logged
unfolding of_status
recv_logged_timeout log_timeout arrival = of_status log_timeout (recv_packet arrival)

-- recv_expected of the server and recv_logged of the client.
unfoldable pub recv_expected : Arrival → Logged
unfolding recv_logged_timeout
recv_expected arrival = recv_logged_timeout true arrival

-- send_logged: the datagram goes out, and a log entry is written.
unfoldable pub send_logged : Link → Net → List ℕ → Bool × Net
unfolding send_all_packet
send_logged link net wire = send_all_packet link net wire

unfoldable pub send_control : Link → Net → ℕ → Bool × Net
unfolding send_logged
send_control link net type = elim (build_control_packet type max_datagram) [
  | none ↦ (false, net)
  | some wire ↦ send_logged link net wire
]

unfoldable pub send_feedback : Link → Net → ℕ → ℕ → ℕ → Bool × Net
unfolding send_logged
send_feedback link net type ack_id window_size =
    elim (build_feedback_packet type ack_id window_size max_datagram) [
      | none ↦ (false, net)
      | some wire ↦ send_logged link net wire
    ]
