-- ===== src/Client/Auth.antt =====
-- trim_line, get_password and the authentication loop of `main` in src/client.c.
use udp_secure_transfer.Prelude.{ℕ, ◌+◌, Bool, true, false, not, ◌&&◌, ◌||◌, Option, none, some}
use udp_secure_transfer.Prelude.{List, [], ◌∷◌, length, get_elem?, leb, ◌==◌, if◌then◌else◌}
use udp_secure_transfer.Protocol
use udp_secure_transfer.Protocol.{Packet, Peer, max_password, max_datagram}
use udp_secure_transfer.Protocol.Build.{build_pass_resp_packet}
use udp_secure_transfer.Protocol.Parse.{is_same_peer}
use udp_secure_transfer.Protocol.Recv.{Link, Net, Arrival}
use udp_secure_transfer.Protocol.Logged.{Logged, received, quiet, lost, recv_expected, send_logged}
use udp_secure_transfer.Protocol.Logged.{Event}

-- `text[len - 1] == '\n' || text[len - 1] == '\r'`
is_line_end : ℕ → Bool
is_line_end c = c == 10 || c == 13

-- The loop of trim_line takes line ends off the end of the string.
unfoldable pub trim_line : List ℕ → List ℕ
unfolding is_line_end
trim_line [] = []
trim_line (c ∷ text) =
    let rest = trim_line text in if length rest == 0 && is_line_end c then [] else c ∷ rest

-- What each call of `fgets` stores, by the index of the attempt; `none` is the end of the input.
abbrev pub Keyboard : Type 0
Keyboard = ℕ → Option (List ℕ)

checked : Option (List ℕ) → Option (List ℕ)
checked none = none
checked (some line) =
    if leb (length (trim_line line)) max_password then some (trim_line line) else none

argument : ℕ → Option (List ℕ) → Option (List ℕ)
argument size none = none
argument size (some password) = if leb size (length password) then none else some password

-- `none` is the return value -1; `passwords` holds the three of the command line.
unfoldable pub get_password : Bool → List (List ℕ) → Keyboard → ℕ → ℕ → Option (List ℕ)
unfolding checked argument
get_password false passwords typed index size =
    if leb 3 index then none else argument size (get_elem? passwords index)
get_password true passwords typed index size = checked (typed index)

-- The reasons that `finish(&logger, "ABORT", …)` gives.
pub data ClientAbort : Type 0 where
  invalid_arguments invalid_port_or_path unresolved socket_failed output_failed : ClientAbort
  failed_join_req auth_receive_failed no_password failed_pass_resp rejected : ClientAbort
  unexpected_auth_packet receive_failed not_continuous write_failed digest_failed : ClientAbort
  digest_mismatch commit_failed unexpected_packet stopped_early reliable_failed : ClientAbort

pub data AuthStep : Type 0 where
  answered : ℕ → Net → AuthStep
  entered : Net → AuthStep
  quit : ClientAbort → Net → AuthStep

module _ (link : Link) (interactive : Bool) (passwords : List (List ℕ)) (typed : Keyboard)
    (server : Peer) where
  -- The password goes out as a PASS_RESP, and `attempt` has been counted up.
  pub send_password : ℕ → Net → List ℕ → AuthStep
  send_password attempt net password = elim (build_pass_resp_packet (some password) max_datagram) [
    | none ↦ quit failed_pass_resp net
    | some wire ↦
        let (sent, net') = send_logged link net wire in
        if sent then answered (attempt + 1) net' else quit failed_pass_resp net'
  ]

  pub answer_request : ℕ → Net → AuthStep
  unfolding send_password
  answer_request attempt net =
      elim (get_password interactive passwords typed attempt (max_password + 1)) [
        | none ↦ quit no_password net
        | some password ↦ send_password attempt net password
      ]

  pub auth_packet : ℕ → Net → Logged → AuthStep
  unfolding answer_request
  auth_packet attempt net (received p from) =
      if not (is_same_peer server from)
      then quit auth_receive_failed net
      else if p.type == Protocol.pass_req
      then (if leb 3 attempt then quit no_password net else answer_request attempt net)
      else if p.type == Protocol.pass_accept
      then entered net
      else if p.type == Protocol.reject
      then quit rejected net
      else quit unexpected_auth_packet net
  auth_packet attempt net quiet = quit auth_receive_failed net
  auth_packet attempt net lost = quit auth_receive_failed net

  unfoldable pub auth_step : ℕ → Net → Arrival → AuthStep
  unfolding auth_packet
  auth_step attempt net arrival = auth_packet attempt net (recv_expected arrival)

-- `entered_with` has the events still to come; `awaiting` is a client that the listed events do
-- not bring to an end.
pub data AuthResult : Type 0 where
  entered_with : ℕ → Net → List Event → AuthResult
  gave_up : ClientAbort → Net → AuthResult
  awaiting : ℕ → Net → AuthResult

module _ (link : Link) (interactive : Bool) (passwords : List (List ℕ)) (typed : Keyboard)
    (server : Peer) where
  -- `while (!authed && !stop_requested)`; a client that is stopped here transfers nothing.
  unfoldable pub auth_loop : ℕ → Net → List Event → AuthResult
  auth_loop attempt net [] = awaiting attempt net
  auth_loop attempt net (event ∷ events) =
      if event.stopped
      then gave_up stopped_early net
      else elim (auth_step link interactive passwords typed server attempt net event.arrival) [
        | answered attempt' net' ↦ auth_loop attempt' net' events
        | entered net' ↦ entered_with attempt net' events
        | quit reason net' ↦ gave_up reason net'
      ]
