-- ===== src/Server/AuthBounds.antt =====
-- How much the password dialogue of src/server.c sends.
use udp_secure_transfer.Prelude.{ℕ, ◌+◌, ◌≤◌, ◌≡◌, refl, arith}
use udp_secure_transfer.Prelude.{Bool, false, List, [], ◌∷◌}
use udp_secure_transfer.Prelude.{length, length-append}
use udp_secure_transfer.Prelude.{inl, inr, Option-cases}
use udp_secure_transfer.Protocol
use udp_secure_transfer.Protocol.{Packet, Peer, max_datagram}
use udp_secure_transfer.Protocol.Build.{build_control_packet}
use udp_secure_transfer.Protocol.Parse.{is_same_peer}
use udp_secure_transfer.Protocol.Recv.{Link, Net, send_all_packet}
use udp_secure_transfer.Protocol.Logged.{Logged, received, quiet, lost, recv_expected, send_control}
use udp_secure_transfer.Server.Auth.{AuthStep, again, accepted, aborted, auth_step}
use udp_secure_transfer.Protocol.Logged.{Event}
use udp_secure_transfer.Server.Auth.{AuthResult, authenticated, failed, waiting, auth_loop}
use udp_secure_transfer.Server.Auth.{auth_packet}

-- The traffic of a result.
abbrev pub net_of : AuthResult → Net
net_of (authenticated net rest) = net
net_of (failed reason net) = net
net_of (waiting net) = net

send_all_packet-grows :
    (link : Link) (net : Net) (wire : List ℕ)
    → length (send_all_packet link net wire).1.sent ≤ length net.sent + 1
unfolding send_all_packet
send_all_packet-grows link net wire = ground (arith, length-append net.sent (wire ∷ []))

send_control-grows :
    (link : Link) (net : Net) (type : ℕ)
    → length (send_control link net type).1.sent ≤ length net.sent + 1
unfolding send_control
send_control-grows link net type = elim (Option-cases (build_control_packet type max_datagram)) [
  | inl e ↦ rw (e, send_control) (omega arith)
  | inr (wire, e) ↦ rw (e, send_control) (send_all_packet-grows link net wire)
]

module _ (link : Link) (password : List ℕ) (peer : Peer) where
  -- The datagrams that a step adds, against the attempts that it uses up.
  abbrev StepFits : ℕ → Net → AuthStep → Type 0
  StepFits attempt net (again a n) = (a ≤ 3) × (length n.sent + attempt ≤ length net.sent + a)
  StepFits attempt net (accepted n) = length n.sent ≤ length net.sent + 1
  StepFits attempt net (aborted r n) = length n.sent ≤ length net.sent + 1

  packet_fits :
      (attempt : ℕ) (net : Net) (l : Logged)
      → attempt ≤ 3
      → StepFits attempt net (auth_packet link password peer attempt net l)
  packet_fits attempt net quiet h = unfold auth_step in omega arith
  packet_fits attempt net lost h = unfold auth_step in omega arith
  packet_fits attempt net (received p from) h =
      unfold auth_step in
      ground (
        arith,
        send_control-grows link net Protocol.pass_accept,
        send_control-grows link net Protocol.pass_req,
        send_control-grows link net Protocol.reject,
      )

  turn_fits :
      (stop : Bool) (attempt : ℕ) (net : Net) (e : Event) (events : List Event) (s : AuthStep)
      → auth_step link password peer attempt net e.arrival ≡ s
      → StepFits attempt net s
      → ((a : ℕ) (n : Net)
          → a ≤ 3
          → length (net_of (auth_loop link password peer stop a n events)).sent + a
            ≤ length n.sent + 4)
      → attempt ≤ 3
      → length (net_of (auth_loop link password peer stop attempt net (e ∷ events))).sent + attempt
        ≤ length net.sent + 4
  unfolding auth_loop
  turn_fits stop attempt net e events (again a n) step fits later h = ground (arith, later a n)
  turn_fits stop attempt net e events (accepted n) step fits later h = ground arith
  turn_fits stop attempt net e events (aborted r n) step fits later h = ground arith

  -- From attempt `attempt` on, at most 3, the server sends at most `4 - attempt` datagrams,
  -- whatever the link does and whatever arrives from whom.
  pub auth_loop_answers :
      (stop : Bool) (attempt : ℕ) (net : Net) (events : List Event)
      → attempt ≤ 3
      → length (net_of (auth_loop link password peer stop attempt net events)).sent + attempt
        ≤ length net.sent + 4
  auth_loop_answers stop attempt net [] h = unfold auth_loop in omega arith
  auth_loop_answers stop attempt net (e ∷ events) h =
      turn_fits stop attempt net e events _ refl
        (unfold auth_step in packet_fits attempt net (recv_expected e.arrival) h)
        (λ a n. auth_loop_answers stop a n events) h

  -- A datagram from another peer costs the client nothing: the loop goes on as if it had not come.
  pub auth_loop_foreign :
      (stop : Bool) (attempt : ℕ) (net : Net) (e : Event) (events : List Event) (p : Packet)
      (from : Peer)
      → attempt ≤ 3
      → e.stopped ≡ false
      → recv_expected e.arrival ≡ received p from
      → is_same_peer peer from ≡ false
      → auth_loop link password peer stop attempt net (e ∷ events)
        ≡ auth_loop link password peer stop attempt net events
  unfolding auth_loop auth_step
  auth_loop_foreign stop attempt net e events p from h running arrives foreign = ground arith
