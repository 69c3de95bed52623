-- ===== src/Client/AuthSafety.antt =====
-- What the authentication loop of src/client.c never does, on any link and for any events.
use udp_secure_transfer.Prelude.{ℕ, ◌+◌, ◌≤◌, ◌≡◌, ◌≢◌, refl, arith, ap, Bool, true, false, some}
use udp_secure_transfer.Prelude.{List, [], ◌∷◌, ◌++◌, length, length-append, Option-cases, inl, inr}
use udp_secure_transfer.Prelude.{if◌then◌else◌}
use udp_secure_transfer.Protocol
use udp_secure_transfer.Protocol.{Packet, Peer, max_password, max_datagram}
use udp_secure_transfer.Protocol.Build.{build_pass_resp_packet}
use udp_secure_transfer.Protocol.Parse.{is_same_peer}
use udp_secure_transfer.Protocol.Recv.{Link, Net, Arrival}
use udp_secure_transfer.Protocol.Logged.{Logged, received, quiet, lost, recv_expected, send_logged}
use udp_secure_transfer.Protocol.Logged.{Event}
use udp_secure_transfer.Client.Auth.{Keyboard, get_password, AuthStep, answered, entered, quit}
use udp_secure_transfer.Client.Auth.{auth_packet, auth_step, AuthResult, entered_with, gave_up}
use udp_secure_transfer.Client.Auth.{awaiting, auth_loop, send_password, answer_request}

-- The traffic of a result.
abbrev pub traffic : AuthResult → Net
traffic (entered_with attempt net rest) = net
traffic (gave_up reason net) = net
traffic (awaiting attempt net) = net

-- An arrival that is a PASS_ACCEPT of the server.
pub record Admits (server : Peer) (arrival : Arrival) : Type 0 where
  pub packet : Packet
  pub from : Peer
  pub arrives : recv_expected arrival ≡ received packet from
  pub same_peer : is_same_peer server from ≡ true
  pub is_accept : packet.type ≡ Protocol.pass_accept

send_logged-counts :
    (link : Link) (net : Net) (wire : List ℕ)
    → length (send_logged link net wire).1.sent
      ≡ (if (send_logged link net wire).0 then length net.sent + 1 else length net.sent)
unfolding send_logged
send_logged-counts link net wire = ground (arith, length-append net.sent (wire ∷ []))

module _ (link : Link) (interactive : Bool) (passwords : List (List ℕ)) (typed : Keyboard)
    (server : Peer) where
  -- A step counts a password for each datagram that it adds.
  abbrev StepFits : ℕ → Net → AuthStep → Type 0
  StepFits attempt net (answered a n) = (a ≤ 3) × (length n.sent + attempt ≤ length net.sent + a)
  StepFits attempt net (entered n) = n ≡ net
  StepFits attempt net (quit reason n) = length n.sent ≤ length net.sent

  send_fits :
      (attempt : ℕ) (net : Net) (password : List ℕ)
      → attempt + 1 ≤ 3
      → StepFits attempt net
          (send_password link interactive passwords typed server attempt net password)
  unfolding auth_step
  send_fits attempt net password h =
      elim (Option-cases (build_pass_resp_packet (some password) max_datagram)) [
        | inl e ↦ rw (StepFits, e, send_password) (omega arith)
        | inr (wire, e) ↦
            rw (StepFits, e, send_password) (ground (arith, send_logged-counts link net wire))
      ]

  answer_fits :
      (attempt : ℕ) (net : Net)
      → attempt + 1 ≤ 3
      → StepFits attempt net (answer_request link interactive passwords typed server attempt net)
  unfolding auth_step
  answer_fits attempt net h =
      elim (Option-cases (get_password interactive passwords typed attempt (max_password + 1))) [
        | inl e ↦ rw (StepFits, e, answer_request) (omega arith)
        | inr (password, e) ↦ rw (StepFits, e, answer_request) (send_fits attempt net password h)
      ]

  packet_fits :
      (attempt : ℕ) (net : Net) (l : Logged)
      → attempt ≤ 3
      → StepFits attempt net (auth_packet link interactive passwords typed server attempt net l)
  packet_fits attempt net quiet h = unfold auth_step in omega arith
  packet_fits attempt net lost h = unfold auth_step in omega arith
  packet_fits attempt net (received p from) h =
      unfold auth_step in ground (arith, answer_fits attempt net)

  send_password-stays :
      (attempt : ℕ) (net n : Net) (password : List ℕ)
      → send_password link interactive passwords typed server attempt net password ≢ entered n
  unfolding auth_step
  send_password-stays attempt net n password h =
      elim (Option-cases (build_pass_resp_packet (some password) max_datagram)) [
        | inl e ↦ ground (arith, e)
        | inr (wire, e) ↦ ground (arith, e)
      ]

  answer_request-stays :
      (attempt : ℕ) (net n : Net)
      → answer_request link interactive passwords typed server attempt net ≢ entered n
  unfolding auth_step
  answer_request-stays attempt net n h =
      elim (Option-cases (get_password interactive passwords typed attempt (max_password + 1))) [
        | inl e ↦ ground (arith, e)
        | inr (password, e) ↦ ground (arith, e, send_password-stays attempt net n password)
      ]

  packet_enters :
      (attempt : ℕ) (net net' : Net) (p : Packet) (from : Peer)
      → auth_packet link interactive passwords typed server attempt net (received p from)
        ≡ entered net'
      → (is_same_peer server from ≡ true) × (p.type ≡ Protocol.pass_accept)
  unfolding auth_step
  packet_enters attempt net net' p from h = ground (arith, answer_request-stays attempt net net')

  step_Admits :
      (attempt : ℕ) (net net' : Net) (arrival : Arrival) (l : Logged)
      → recv_expected arrival ≡ l
      → auth_packet link interactive passwords typed server attempt net l ≡ entered net'
      → Admits server arrival
  step_Admits attempt net net' arrival (received p from) e h =
      let (same, type) = packet_enters attempt net net' p from h in
      record { packet = p; from = from; arrives = e; same_peer = same; is_accept = type }
  step_Admits attempt net net' arrival quiet e h = absurd (unfold auth_step in ground arith)
  step_Admits attempt net net' arrival lost e h = absurd (unfold auth_step in ground arith)

  turn_fits :
      (attempt : ℕ) (net : Net) (e : Event) (events : List Event) (s : AuthStep)
      → auth_step link interactive passwords typed server attempt net e.arrival ≡ s
      → StepFits attempt net s
      → ((a : ℕ) (n : Net)
          → a ≤ 3
          → length (traffic (auth_loop link interactive passwords typed server a n events)).sent + a
            ≤ length n.sent + 3)
      → attempt ≤ 3
      → length
            (traffic
              (auth_loop link interactive passwords typed server attempt net (e ∷ events))).sent
          + attempt
        ≤ length net.sent + 3
  unfolding auth_loop
  turn_fits attempt net e events (answered a n) step fits later h = ground (arith, later a n)
  turn_fits attempt net e events (entered n) step fits later h = ground arith
  turn_fits attempt net e events (quit reason n) step fits later h = ground arith

  -- With `attempt` passwords given, of at most three, the client sends at most `3 - attempt` more
  -- datagrams, whatever the link does and however often it is asked.
  pub auth_loop_limit :
      (attempt : ℕ) (net : Net) (events : List Event)
      → attempt ≤ 3
      → length (traffic (auth_loop link interactive passwords typed server attempt net events)).sent
          + attempt
        ≤ length net.sent + 3
  auth_loop_limit attempt net [] h = unfold auth_loop in omega arith
  auth_loop_limit attempt net (e ∷ events) h =
      turn_fits attempt net e events _ refl
        (unfold auth_step in packet_fits attempt net (recv_expected e.arrival) h)
        (λ a n. auth_loop_limit a n events) h

  -- The events from the one that let the client go on.
  pub record Admission (events rest : List Event) : Type 0 where
    pub before : List Event
    pub admission : Event
    pub split : events ≡ before ++ (admission ∷ rest)
    pub not_stopped : admission.stopped ≡ false
    pub admits : Admits server admission.arrival

  turn_Admission :
      (attempt a : ℕ) (net net' : Net) (e : Event) (events rest : List Event) (s : AuthStep)
      → auth_step link interactive passwords typed server attempt net e.arrival ≡ s
      → ((b : ℕ) (n : Net)
          → auth_loop link interactive passwords typed server b n events ≡ entered_with a net' rest
          → Admission events rest)
      → auth_loop link interactive passwords typed server attempt net (e ∷ events)
        ≡ entered_with a net' rest
      → Admission (e ∷ events) rest
  unfolding auth_loop
  turn_Admission attempt a net net' e events rest (answered b n) step later h =
      let l = later b n (ground arith) in
      record {
        before = e ∷ l.before;
        admission = l.admission;
        split = ap (λ es. e ∷ es) l.split;
        not_stopped = l.not_stopped;
        admits = l.admits;
      }
  turn_Admission attempt a net net' e events rest (entered n) step later h = record {
    before = [];
    admission = e;
    split = ground arith;
    not_stopped = ground arith;
    admits =
        step_Admits attempt net n e.arrival (recv_expected e.arrival) refl
          (unfold auth_step in step);
  }
  turn_Admission attempt a net net' e events rest (quit reason n) step later h =
      absurd (ground arith)

  -- Whatever the link does and whatever arrives, the client goes on to receive the file only after
  -- a PASS_ACCEPT of the server, and with the events after it.
  pub auth_loop_admitted :
      (attempt a : ℕ) (net net' : Net) (events rest : List Event)
      → auth_loop link interactive passwords typed server attempt net events
        ≡ entered_with a net' rest
      → Admission events rest
  auth_loop_admitted attempt a net net' [] rest h = absurd (unfold auth_loop in ground arith)
  auth_loop_admitted attempt a net net' (e ∷ events) rest h =
      turn_Admission attempt a net net' e events rest _ refl
        (λ b n. auth_loop_admitted b a n net' events rest) h
