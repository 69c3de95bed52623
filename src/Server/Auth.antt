-- ===== src/Server/Auth.antt =====
-- The dialogue of `main` in src/server.c from JOIN_REQ to the end of authentication.
use udp_secure_transfer.Prelude.{ℕ, ◌+◌, Bool, not, ◌&&◌}
use udp_secure_transfer.Prelude.{List, [], ◌∷◌, length, take, leb, ◌==◌, bytes_eq, if◌then◌else◌}
use udp_secure_transfer.Protocol
use udp_secure_transfer.Protocol.{Packet, Peer}
use udp_secure_transfer.Protocol.Parse.{is_same_peer}
use udp_secure_transfer.Protocol.Recv.{Link, Net, Arrival}
use udp_secure_transfer.Protocol.Logged.{Event, payload_bytes}
use udp_secure_transfer.Protocol.Logged.{Logged, received, quiet, lost, recv_expected, send_control}

-- The reasons that `finish(&logger, "ABORT", …)` gives.
pub data AbortReason : Type 0 where
  invalid_arguments invalid_port_or_password input_unreadable socket_failed bind_failed :
      AbortReason
  expected_join_req failed_pass_req receive_failed expected_pass_resp : AbortReason
  failed_pass_accept three_attempts_failed stopped_early transfer_failed : AbortReason

-- What one turn of the attempt loop comes to: `again` carries `attempt` for the next turn.
pub data AuthStep : Type 0 where
  again : ℕ → Net → AuthStep
  accepted : Net → AuthStep
  aborted : AbortReason → Net → AuthStep

-- `packet.payload_length == strlen(password) && memcmp(…, packet.payload_length) == 0`
unfoldable pub password_ok : List ℕ → Packet → Bool
password_ok password p =
    p.payload_length == length password
    && bytes_eq (take p.payload_length (payload_bytes p.payload)) (take p.payload_length password)

module _ (link : Link) (password : List ℕ) (peer : Peer) where
  -- A right password.
  accept_password : Net → AuthStep
  accept_password net =
      let (sent, net') = send_control link net Protocol.pass_accept in
      if sent then accepted net' else aborted failed_pass_accept net'

  -- A wrong password: the third one is answered by REJECT, whether or not it can be sent.
  refuse_password : ℕ → Net → AuthStep
  refuse_password attempt net =
      let (_, rejected) = send_control link net Protocol.reject in
      let (sent, net') = send_control link net Protocol.pass_req in
      if attempt == 3
      then aborted three_attempts_failed rejected
      else if sent
      then again (attempt + 1) net'
      else aborted failed_pass_req net'

  -- `attempt--; continue;` and the loop's `attempt++` leave `attempt` as it was.
  pub auth_packet : ℕ → Net → Logged → AuthStep
  unfolding accept_password refuse_password
  auth_packet attempt net (received p from) =
      if not (is_same_peer peer from)
      then again attempt net
      else if not (p.type == Protocol.pass_resp)
      then aborted expected_pass_resp net
      else if password_ok password p
      then accept_password net
      else refuse_password attempt net
  auth_packet attempt net quiet = aborted receive_failed net
  auth_packet attempt net lost = aborted receive_failed net

  unfoldable pub auth_step : ℕ → Net → Arrival → AuthStep
  unfolding auth_packet
  auth_step attempt net arrival = auth_packet attempt net (recv_expected arrival)

-- `authenticated` has the events still to come; `waiting` is a server that the listed events do
-- not bring to an end.
pub data AuthResult : Type 0 where
  authenticated : Net → List Event → AuthResult
  failed : AbortReason → Net → AuthResult
  waiting : Net → AuthResult

module _ (link : Link) (password : List ℕ) (peer : Peer) where
  -- `for (attempt = 1; attempt <= 3 && !authed && !stop_requested; attempt++)` and the test
  -- `!authed || stop_requested` behind it, which finds the value `stop` of `stop_requested`.
  unfoldable pub auth_loop : Bool → ℕ → Net → List Event → AuthResult
  auth_loop stop attempt net [] = waiting net
  auth_loop stop attempt net (event ∷ events) =
      if leb attempt 3 && not event.stopped
      then elim (auth_step link password peer attempt net event.arrival) [
        | again attempt' net' ↦ auth_loop stop attempt' net' events
        | accepted net' ↦ if stop then failed stopped_early net' else authenticated net' events
        | aborted reason net' ↦ failed reason net'
      ]
      else failed stopped_early net

-- `packet.type != PKT_JOIN_REQ` on the first packet; the peer that sent it is the session's.
joined : Link → List ℕ → Bool → Net → List Event → Logged → AuthResult
joined link password stop net events (received p from) =
    let (sent, net') = send_control link net Protocol.pass_req in
    if not (p.type == Protocol.join_req)
    then failed expected_join_req net
    else if sent
    then auth_loop link password from stop 1 net' events
    else failed failed_pass_req net'
joined link password stop net events quiet = failed expected_join_req net
joined link password stop net events lost = failed expected_join_req net

-- From WAIT_JOIN_REQ to the test behind the loop.
unfoldable pub serve_auth : Link → List ℕ → Bool → Net → Arrival → List Event → AuthResult
unfolding joined
serve_auth link password stop net first events =
    joined link password stop net events (recv_expected first)
