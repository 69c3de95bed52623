-- ===== src/Server/Reliable/Completes.antt =====
-- On a link that delivers, an ACK for every block ends the transfer of src/server.c.
use udp_secure_transfer.Prelude.{ℕ, ◌-◌, ◌≤◌, ◌<◌, ◌≡◌, ◌≢◌, arith, ap, sym, ◌∙◌}
use udp_secure_transfer.Prelude.{false, List}
use udp_secure_transfer.Prelude.{[], ◌∷◌, ◌++◌, length, ltb, if◌then◌else◌, inl, inr, All}
use udp_secure_transfer.Prelude.{Bool-cases}
use native.Mathlib.Decide.{dec_lt, ℕ_discrete}
use udp_secure_transfer.Protocol
use udp_secure_transfer.Protocol.{Packet, Peer, max_datagram}
use udp_secure_transfer.Protocol.Parse.{is_same_peer}
use udp_secure_transfer.Protocol.Recv.{Link}
use udp_secure_transfer.Protocol.Logged.{Event, Logged, received, quiet, lost, recv_logged_timeout}
use udp_secure_transfer.Protocol.Delivery.{Delivers}
use udp_secure_transfer.Server.Reliable.{Clock}
use udp_secure_transfer.Server.Reliable.Window.{Transfer, mark_acked, advance}
use udp_secure_transfer.Server.Reliable.Window.{handle_ack, handle_feedback, fill}
use udp_secure_transfer.Server.Reliable.Window.{turn}
use udp_secure_transfer.Server.Reliable.Window.{all_acked, window_loop}
use udp_secure_transfer.Server.Reliable.Acks.{length-mark_acked, mark_acked_inside, advance_reaches}
use udp_secure_transfer.Server.Reliable.Acks.{advance-le-length}
use udp_secure_transfer.Server.Reliable.Flags.{length-flags, SameAcks, fill-SameAcks}
use udp_secure_transfer.Server.Reliable.Confirmed.{Confirms, ack_handled, foreign_ignored}
use udp_secure_transfer.Server.Reliable.Confirmed.{rest_SameAcks, answered}
use udp_secure_transfer.Server.Reliable.Delivered.{turn_ok, turn-SameAcks}

-- The base is an index of the chunks, or their number.
abbrev pub InRange : ℕ → Transfer → Type 0
InRange count t = (length t.chunks ≡ count) × (t.base ≤ count)

SameAcks-InRange : (count : ℕ) (t u : Transfer) → SameAcks t u → InRange count t → InRange count u
SameAcks-InRange count t u same h = (
  sym (length-flags u.chunks) ∙ ap length same.0 ∙ length-flags t.chunks ∙ h.0,
  omega (arith, same.1, h.1),
)

handle_ack-InRange :
    (count : ℕ) (t : Transfer) (p : Packet) → InRange count t → InRange count (handle_ack t p)
unfolding handle_ack
handle_ack-InRange count t p h =
    let upto = if ltb (length t.chunks) p.ack_id then length t.chunks else p.ack_id in
    let marked = mark_acked (upto - t.base) t.base t.chunks in
    let size : length marked ≡ count = length-mark_acked (upto - t.base) t.base t.chunks ∙ h.0 in
    (size, omega (arith, size, h.1, advance-le-length (length t.chunks) marked t.base))

-- An ACK for all chunks moves the base behind the last.
handle_ack_all :
    (count : ℕ) (t : Transfer) (p : Packet)
    → InRange count t
    → count ≤ p.ack_id
    → (handle_ack t p).base ≡ count
unfolding handle_ack
handle_ack_all count t p h all =
    let marked = mark_acked (count - t.base) t.base t.chunks in
    let size : length marked ≡ count = length-mark_acked (count - t.base) t.base t.chunks ∙ h.0 in
    let upto : (if ltb (length t.chunks) p.ack_id then length t.chunks else p.ack_id) ≡ count =
      ground (arith, h.0) in
    let reaches : count ≤ advance (length t.chunks) marked t.base =
      advance_reaches (length t.chunks) marked t.base count (omega (arith, size))
        (omega (arith, h.0))
        (λ j lo hi.
          mark_acked_inside (count - t.base) t.base j t.chunks lo (omega arith)
            (omega (arith, h.0))) in
    let fits = advance-le-length (length t.chunks) marked t.base (omega (arith, size, h.1)) in
    rw upto (omega (arith, reaches, fits, size))

-- Nothing stops the server at this event.
abbrev pub Running : Event → Type 0
Running e = e.stopped ≡ false

-- The wait does not end in an error.
abbrev pub Heard : Event → Type 0
Heard e = (e.stopped ≡ false) × (recv_logged_timeout false e.arrival ≢ lost)

module _ (link : Link) (delivers : Delivers link) (clock : Clock) (window timeout : ℕ)
    (peer : Peer) where
  feedback-InRange :
      (count : ℕ) (t : Transfer) (l : Logged)
      → InRange count t
      → InRange count (handle_feedback link clock window timeout peer t l).transfer
  feedback-InRange count t quiet h = unfold handle_feedback in h
  feedback-InRange count t lost h = unfold handle_feedback in h
  feedback-InRange count t (received p from) h = elim (ℕ_discrete p.type Protocol.ack) [
    | no other ↦
        SameAcks-InRange count t (answered link clock window timeout peer t (received p from))
          (rest_SameAcks link clock window timeout peer t p from other) h
    | yes is_ack ↦ elim (Bool-cases (is_same_peer peer from)) [
      | inr foreign ↦ rw (foreign_ignored link clock window timeout peer t p from foreign) h
      | inl same ↦
          rw (ack_handled link clock window timeout peer t p from same is_ack)
            (handle_ack-InRange count t p h)
    ]
  ]

  filled-InRange :
      (count : ℕ) (t : Transfer)
      → InRange count t
      → InRange count (fill link clock window timeout peer (length t.chunks) t).transfer
  filled-InRange count t h =
      SameAcks-InRange count t (fill link clock window timeout peer (length t.chunks) t).transfer
        (fill-SameAcks link clock window timeout peer (length t.chunks) t) h

  turn-InRange :
      (count : ℕ) (t : Transfer) (l : Logged)
      → l ≢ lost
      → InRange count t
      → InRange count (turn link clock window timeout peer t l).transfer
  turn-InRange count t l kept h =
      let filled = (fill link clock window timeout peer (length t.chunks) t).transfer in
      SameAcks-InRange count (answered link clock window timeout peer filled l)
        (turn link clock window timeout peer t l).transfer
        (turn-SameAcks link delivers clock window timeout peer t l kept)
        (feedback-InRange count filled l (filled-InRange count t h))

  turn_confirmed :
      (count : ℕ) (t : Transfer) (l : Logged)
      → l ≢ lost
      → InRange count t
      → Confirms peer count l
      → (turn link clock window timeout peer t l).transfer.base ≡ count
  turn_confirmed count t l kept h c =
      let filled = (fill link clock window timeout peer (length t.chunks) t).transfer in
      (turn-SameAcks link delivers clock window timeout peer t l kept).1
      ∙ ap (λ x. (handle_feedback link clock window timeout peer filled x).transfer.base) c.arrives
      ∙ ap (λ u. u.base)
          (ack_handled link clock window timeout peer filled c.packet c.from c.same_peer c.is_ack)
      ∙ handle_ack_all count filled c.packet (filled-InRange count t h) c.covers

  ended :
      (t : Transfer) (events : List Event)
      → length t.chunks ≤ t.base
      → All Running events
      → window_loop link clock window timeout peer t events ≡ all_acked t
  unfolding window_loop
  ended t [] h ok = ground arith
  ended t (e ∷ events) h ok = ground (arith, ok.0)

  one_turn :
      (t : Transfer) (e : Event) (events : List Event)
      → t.base < length t.chunks
      → Heard e
      → window_loop link clock window timeout peer t (e ∷ events)
        ≡ window_loop link clock window timeout peer
            (turn link clock window timeout peer t (recv_logged_timeout false e.arrival)).transfer
            events
  unfolding window_loop
  one_turn t e events h heard = ground (
    arith,
    heard.0,
    turn_ok link delivers clock window timeout peer t (recv_logged_timeout false e.arrival) heard.1,
  )

  All-Running :
      (before : List Event) (e : Event) (rest : List Event)
      → All Heard before
      → Heard e
      → All Running rest
      → All Running (before ++ (e ∷ rest))
  All-Running [] e rest heard now later = (now.0, later)
  All-Running (b ∷ before) e rest heard now later =
      (heard.0.0, All-Running before e rest heard.1 now later)

  -- The events up to the ACK are heard, and nothing stops the server after it.
  last_turn :
      (count : ℕ) (e : Event) (rest : List Event) (t : Transfer)
      → InRange count t
      → Heard e
      → All Running rest
      → Confirms peer count (recv_logged_timeout false e.arrival)
      → t.base < count
      → (t' : Transfer) × (window_loop link clock window timeout peer t (e ∷ rest) ≡ all_acked t')
  last_turn count e rest t h now later c more =
      let l = recv_logged_timeout false e.arrival in
      let t' = (turn link clock window timeout peer t l).transfer in
      let kept = turn-InRange count t l now.1 h in
      (
        t',
        one_turn t e rest (omega (arith, h.0)) now
            ∙ ended t' rest (omega (arith, kept.0, turn_confirmed count t l now.1 h c)) later,
      )

  pub loop_completes :
      (count : ℕ) (before : List Event) (e : Event) (rest : List Event) (t : Transfer)
      → InRange count t
      → All Heard before
      → Heard e
      → All Running rest
      → Confirms peer count (recv_logged_timeout false e.arrival)
      → (t' : Transfer) × (window_loop link clock window timeout peer t (before ++ (e ∷ rest))
          ≡ all_acked t')
  loop_completes count [] e rest t h heard now later c = elim (dec_lt t.base count) [
    | no done ↦ (t, ended t (e ∷ rest) (omega (arith, h.0)) (now.0, later))
    | yes more ↦ last_turn count e rest t h now later c more
  ]
  loop_completes count (b ∷ before) e rest t h heard now later c = elim (dec_lt t.base count) [
    | no done ↦ (
      t,
      ended t (b ∷ (before ++ (e ∷ rest))) (omega (arith, h.0))
          (All-Running (b ∷ before) e rest heard now later),
    )
    | yes more ↦
        let l = recv_logged_timeout false b.arrival in
        let (t', r) =
          loop_completes count before e rest (turn link clock window timeout peer t l).transfer
            (turn-InRange count t l heard.0.1 h) heard.1 now later c in
        (t', one_turn t b (before ++ (e ∷ rest)) (omega (arith, h.0)) heard.0 ∙ r)
  ]
