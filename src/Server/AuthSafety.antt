-- ===== src/Server/AuthSafety.antt =====
-- What the password dialogue of src/server.c never does, on any link and for any events.
use udp_secure_transfer.Prelude.{ℕ, ◌≡◌, refl, arith, ap, sym, ◌∙◌}
use udp_secure_transfer.Prelude.{Bool, true, false, some, List, [], ◌∷◌, ◌++◌}
use udp_secure_transfer.Prelude.{take_of_le, drop, length-drop}
use udp_secure_transfer.Prelude.{bytes_eq_iff}
use udp_secure_transfer.Protocol
use udp_secure_transfer.Protocol.{Packet, Peer, max_datagram}
use udp_secure_transfer.Protocol.Accepted.{accepted_pass_resp, accepted_fields}
use udp_secure_transfer.Protocol.Parse.{is_same_peer, parsed, parse_packet}
use udp_secure_transfer.Protocol.Recv.{Link, Net, Arrival}
use udp_secure_transfer.Protocol.Logged.{Logged, received, quiet, lost, recv_expected}
use udp_secure_transfer.Server.Auth.{AuthStep, again, accepted, aborted, password_ok, auth_step}
use udp_secure_transfer.Protocol.Logged.{Event}
use udp_secure_transfer.Server.Auth.{authenticated, auth_loop}
use udp_secure_transfer.Server.Auth.{auth_packet}
use udp_secure_transfer.Protocol.Delivery.{received-parsed}

-- The payload of a PASS_RESP that passes the test is the password.
pub password_ok-payload :
    (password : List ℕ) (buf : List ℕ) (p : Packet)
    → parse_packet (some buf) ≡ parsed p
    → p.type ≡ Protocol.pass_resp
    → password_ok password p ≡ true
    → p.payload ≡ some password
unfolding password_ok
password_ok-payload password buf p h t right =
    let fields = accepted_fields buf p h in
    let shape = accepted_pass_resp buf p h (sym fields.0 ∙ t) in
    ground (
      arith,
      shape,
      fields,
      length-drop 6 buf,
      take_of_le p.payload_length (drop 6 buf),
      take_of_le p.payload_length password,
      bytes_eq_iff (drop 6 buf) password,
    )

-- An arrival that carries the password from the session's peer.
pub record Grants (password : List ℕ) (peer : Peer) (arrival : Arrival) : Type 0 where
  pub packet : Packet
  pub from : Peer
  pub arrives : recv_expected arrival ≡ received packet from
  pub same_peer : is_same_peer peer from ≡ true
  pub is_response : packet.type ≡ Protocol.pass_resp
  pub carries : packet.payload ≡ some password

module _ (link : Link) (password : List ℕ) (peer : Peer) where
  auth_packet-accepted :
      (attempt : ℕ) (net net' : Net) (p : Packet) (from : Peer)
      → auth_packet link password peer attempt net (received p from) ≡ accepted net'
      → (is_same_peer peer from ≡ true)
        × (p.type ≡ Protocol.pass_resp)
        × (password_ok password p ≡ true)
  unfolding auth_step
  auth_packet-accepted attempt net net' p from e = ground arith

  packet_Grants :
      (attempt : ℕ) (net net' : Net) (arrival : Arrival) (l : Logged)
      → recv_expected arrival ≡ l
      → auth_packet link password peer attempt net l ≡ accepted net'
      → Grants password peer arrival
  packet_Grants attempt net net' arrival (received p from) e h =
      let facts = auth_packet-accepted attempt net net' p from h in
      let (buf, parses) = received-parsed arrival p from e in
      record {
        packet = p;
        from = from;
        arrives = e;
        same_peer = facts.0;
        is_response = facts.1;
        carries = password_ok-payload password buf p parses facts.1 facts.2;
      }
  packet_Grants attempt net net' arrival quiet e h = unfold auth_step in cc
  packet_Grants attempt net net' arrival lost e h = unfold auth_step in cc

  step_Grants :
      (attempt : ℕ) (net net' : Net) (arrival : Arrival)
      → auth_step link password peer attempt net arrival ≡ accepted net'
      → Grants password peer arrival
  unfolding auth_step
  step_Grants attempt net net' arrival h = packet_Grants attempt net net' arrival _ refl h

  -- The events from the one that let the client in.
  pub record Entry (events rest : List Event) : Type 0 where
    pub before : List Event
    pub entry : Event
    pub split : events ≡ before ++ (entry ∷ rest)
    pub not_stopped : entry.stopped ≡ false
    pub grants : Grants password peer entry.arrival

  later_Entry : (e : Event) (events rest : List Event) → Entry events rest → Entry (e ∷ events) rest
  later_Entry e events rest x = record {
    before = e ∷ x.before;
    entry = x.entry;
    split = ap (λ l. e ∷ l) x.split;
    not_stopped = x.not_stopped;
    grants = x.grants;
  }

  turn_Entry :
      (stop : Bool) (attempt : ℕ) (net net' : Net) (e : Event) (events rest : List Event)
      (s : AuthStep)
      → auth_step link password peer attempt net e.arrival ≡ s
      → ((attempt' : ℕ) (between : Net)
          → auth_loop link password peer stop attempt' between events ≡ authenticated net' rest
          → Entry events rest)
      → auth_loop link password peer stop attempt net (e ∷ events) ≡ authenticated net' rest
      → Entry (e ∷ events) rest
  unfolding auth_loop
  turn_Entry stop attempt net net' e events rest (again a n) step later h =
      later_Entry e events rest (later a n (ground arith))
  turn_Entry stop attempt net net' e events rest (accepted n) step later h = record {
    before = [];
    entry = e;
    split = ground arith;
    not_stopped = ground arith;
    grants = step_Grants attempt net n e.arrival step;
  }
  turn_Entry stop attempt net net' e events rest (aborted r n) step later h = absurd (ground arith)

  -- Whatever the link does and whatever arrives, the server goes on to the transfer only after a
  -- PASS_RESP from the session's peer whose payload is the password; the events left for the
  -- transfer are those after it.
  pub auth_loop_sound :
      (stop : Bool) (attempt : ℕ) (net net' : Net) (events rest : List Event)
      → auth_loop link password peer stop attempt net events ≡ authenticated net' rest
      → Entry events rest
  auth_loop_sound stop attempt net net' [] rest h = unfold auth_loop in cc
  auth_loop_sound stop attempt net net' (e ∷ events) rest h =
      turn_Entry stop attempt net net' e events rest _ refl
        (λ a n. auth_loop_sound stop a n net' events rest) h
