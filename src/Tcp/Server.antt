-- ===== src/Tcp/Server.antt =====
-- main, run_tcp_basic and run_tls_like of src/tcp_demo_server.c, on the stream sockets of the
-- connection. The log entries are not modelled. A stream is closed after a failure, and what was
-- sent on it before is not kept.
use udp_secure_transfer.Prelude.{ℕ, ◌+◌, Bool, true, false, not, ◌&&◌, ◌||◌, Option, none, some}
use udp_secure_transfer.Prelude.{List, [], ◌∷◌, length, bytes_eq, leb, ◌==◌}
use udp_secure_transfer.Prelude.{if◌then◌else◌}
use udp_secure_transfer.Demo.Stream.{Socket, Outgoing, Incoming}
use udp_secure_transfer.Demo.Frame.{DemoFrame, send_frame, recv_frame}

-- The types of frames that the two programs send.
abbrev pub join_req : ℕ
join_req = 1

abbrev pub pass_req : ℕ
pass_req = 2

abbrev pub pass_resp : ℕ
pass_resp = 3

abbrev pub pass_accept : ℕ
pass_accept = 4

abbrev pub data_frame : ℕ
data_frame = 5

abbrev pub terminate : ℕ
terminate = 6

abbrev pub reject : ℕ
reject = 7

abbrev pub client_hello : ℕ
client_hello = 20

abbrev pub server_hello : ℕ
server_hello = 21

abbrev pub finished : ℕ
finished = 22

abbrev pub app_data : ℕ
app_data = 23

-- The two directions of the connection: `send` and `recv` of one end.
pub record Connection : Type 0 where
  pub outgoing : Outgoing
  pub incoming : Incoming

pub record Sockets : Type 0 where
  pub send : Socket
  pub recv : Socket

-- send_frame_logged, with `fragment_mode` 0.
unfoldable pub send_on : Sockets → Connection → ℕ → List ℕ → Bool → Option Connection
send_on sockets c type payload fragment_mode =
    elim (send_frame sockets.send c.outgoing type payload fragment_mode) [
      | none ↦ none
      | some s ↦ some (record c { outgoing = s })
    ]

-- recv_frame_logged.
unfoldable pub recv_on : Sockets → Connection → Option (DemoFrame × Connection)
recv_on sockets c = elim (recv_frame sockets.recv c.incoming) [
  | none ↦ none
  | some (frame, s) ↦ some (frame, record c { incoming = s })
]

-- One turn of the password loop: an end of the connection, or the next turn.
pub data Turn : Type 0 where
  gives_up : Connection → Turn
  asks_again : Connection → Turn
  accepts : Connection → Turn

-- The connection after a send whose result is not looked at, or ends the program: a send that
-- fails is taken to fail on its first call.
unfoldable pub behind_send : Connection → Option Connection → Connection
behind_send c none = record c {
  outgoing = record { calls = c.outgoing.calls + 1; sent = c.outgoing.sent };
}
behind_send c (some c') = c'

unfoldable pub accepted : Connection → Option Connection → Turn
unfolding behind_send
accepted c none = gives_up (behind_send c none)
accepted c (some c') = accepts c'

-- The body of the loop, where `attempt` is already counted.
unfoldable pub password_turn : Sockets → List ℕ → ℕ → DemoFrame → Connection → Turn
unfolding accepted
password_turn sockets password attempt frame c =
    if not (frame.type == pass_resp)
    then gives_up c
    else if frame.length == length password && bytes_eq frame.payload password
    then accepted c (send_on sockets c pass_accept [] false)
    else if leb 3 attempt
    then gives_up (behind_send c (send_on sockets c reject [] false))
    else asks_again (behind_send c (send_on sockets c pass_req [] false))

unfoldable pub password_step : Sockets → List ℕ → ℕ → Connection → Turn
unfolding password_turn
password_step sockets password attempt c = elim (recv_on sockets c) [
  | none ↦ gives_up c
  | some (frame, c') ↦ password_turn sockets password attempt frame c'
]

-- `enters` goes on to the transfer; `rejected` is the return value 1; `waiting` is a loop that the
-- listed tests do not bring to an end.
pub data PasswordEnd : Type 0 where
  enters : Connection → PasswordEnd
  rejected : Connection → PasswordEnd
  waiting : PasswordEnd

-- `while (!stop_requested && attempt < 3 && !authed)`: the list has the values of stop_requested
-- at the loop's tests.
unfoldable pub password_loop : Sockets → List ℕ → ℕ → Bool → Connection → List Bool → PasswordEnd
unfolding password_step
password_loop sockets password attempt authed c [] = waiting
password_loop sockets password attempt authed c (stop ∷ stops) =
    let turn : PasswordEnd = elim (password_step sockets password (attempt + 1) c) [
      | gives_up c' ↦ rejected c'
      | asks_again c' ↦ password_loop sockets password (attempt + 1) false c' stops
      | accepts c' ↦ password_loop sockets password (attempt + 1) true c' stops
    ] in
    if stop || leb 3 attempt || authed then enters c else turn

-- The JOIN_REQ, the first PASS_REQ and the loop.
unfoldable pub serve_password : Sockets → List ℕ → Connection → List Bool → PasswordEnd
serve_password sockets password c stops = elim (recv_on sockets c) [
  | none ↦ rejected c
  | some (frame, c1) ↦
      let loop : PasswordEnd = elim (send_on sockets c1 pass_req [] false) [
        | none ↦ rejected (behind_send c1 none)
        | some c2 ↦ password_loop sockets password 0 false c2 stops
      ] in
      if not (frame.type == join_req) then rejected c1 else loop
]
