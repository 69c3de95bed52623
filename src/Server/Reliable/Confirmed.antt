-- ===== src/Server/Reliable/Confirmed.antt =====
-- When the window loop of src/server.c ends.
use udp_secure_transfer.Prelude.{ℕ, suc, ◌-◌, ◌≤◌, ◌≡◌, ◌≢◌, refl, arith, ap, sym, ◌∙◌, ◌⊎◌}
use udp_secure_transfer.Prelude.{Bool, true, false, List, [], ◌∷◌, ◌++◌, length, get_or}
use udp_secure_transfer.Prelude.{if◌then◌else◌, inl, inr, ltb, not, Bool-cases}
use native.Mathlib.Decide.{dec_lt, ℕ_discrete}
use udp_secure_transfer.Protocol
use udp_secure_transfer.Protocol.{Packet, Peer, max_datagram}
use udp_secure_transfer.Protocol.Parse.{is_same_peer}
use udp_secure_transfer.Protocol.Recv.{Link}
use udp_secure_transfer.Protocol.Logged.{Event, Logged, received, quiet, lost, recv_logged_timeout}
use udp_secure_transfer.Server.Reliable.{Clock}
use udp_secure_transfer.Server.Reliable.Window.{Transfer, Progress, is_acked, mark_acked}
use udp_secure_transfer.Server.Reliable.Window.{handle_ack, handle_feedback, fill}
use udp_secure_transfer.Server.Reliable.Window.{resend, turn, all_acked, window_loop}
use udp_secure_transfer.Server.Reliable.Acks.{length-mark_acked, mark_acked_outside, advance_stops}
use udp_secure_transfer.Server.Reliable.Flags.{length-flags, is_acked-flags, SameAcks}
use udp_secure_transfer.Server.Reliable.Flags.{fill-SameAcks, handle_nack-SameAcks, resend-SameAcks}

-- The last chunk has not been acknowledged.
pub record IsOpen (last : ℕ) (t : Transfer) : Type 0 where
  pub count : length t.chunks ≡ suc last
  pub behind : t.base ≤ last
  pub unacked : is_acked t.chunks last ≡ false

-- An ACK of the peer for all `count` chunks.
pub record Confirms (peer : Peer) (count : ℕ) (l : Logged) : Type 0 where
  pub packet : Packet
  pub from : Peer
  pub arrives : l ≡ received packet from
  pub same_peer : is_same_peer peer from ≡ true
  pub is_ack : packet.type ≡ Protocol.ack
  pub covers : count ≤ packet.ack_id

SameAcks-IsOpen : (last : ℕ) (t u : Transfer) → SameAcks t u → IsOpen last t → IsOpen last u
SameAcks-IsOpen last t u same open_ = record {
  count = sym (length-flags u.chunks) ∙ ap length same.0 ∙ length-flags t.chunks ∙ open_.count;
  behind = omega (arith, same.1, open_.behind);
  unacked =
      is_acked-flags u.chunks last
      ∙ ap (λ bs. get_or bs last false) same.0
      ∙ sym (is_acked-flags t.chunks last)
      ∙ open_.unacked;
}

handle_ack-IsOpen :
    (last : ℕ) (t : Transfer) (p : Packet)
    → p.ack_id ≤ last
    → IsOpen last t
    → IsOpen last (handle_ack t p)
unfolding handle_ack
handle_ack-IsOpen last t p h open_ =
    let marked = mark_acked (p.ack_id - t.base) t.base t.chunks in
    let whole : (if ltb (length t.chunks) p.ack_id then length t.chunks else p.ack_id) ≡ p.ack_id =
      ground (arith, open_.count) in
    let size : length marked ≡ suc last =
      length-mark_acked (p.ack_id - t.base) t.base t.chunks ∙ open_.count in
    let still : is_acked marked last ≡ false =
      mark_acked_outside (p.ack_id - t.base) t.base last t.chunks (omega (arith, open_.behind))
      ∙ open_.unacked in
    rw whole (record {
      count = size;
      behind = advance_stops (length t.chunks) marked t.base last open_.behind still;
      unacked = still;
    })

one_of_three :
    (last : ℕ) (b c : Bool) (x y z : Progress)
    → IsOpen last x.transfer
    → IsOpen last y.transfer
    → IsOpen last z.transfer
    → IsOpen last (if not b then x else if not c then y else z).transfer
one_of_three last false c x y z p q r = p
one_of_three last true false x y z p q r = q
one_of_three last true true x y z p q r = r

module _ (link : Link) (clock : Clock) (window timeout : ℕ) (peer : Peer) where
  abbrev pub answered : Transfer → Logged → Transfer
  answered t l = (handle_feedback link clock window timeout peer t l).transfer

  pub foreign_ignored :
      (t : Transfer) (p : Packet) (from : Peer)
      → is_same_peer peer from ≡ false
      → answered t (received p from) ≡ t
  unfolding handle_feedback
  foreign_ignored t p from h = ground arith

  pub ack_handled :
      (t : Transfer) (p : Packet) (from : Peer)
      → is_same_peer peer from ≡ true
      → p.type ≡ Protocol.ack
      → answered t (received p from) ≡ handle_ack t p
  unfolding handle_feedback
  ack_handled t p from h k = ground arith

  pub rest_SameAcks :
      (t : Transfer) (p : Packet) (from : Peer)
      → p.type ≢ Protocol.ack
      → SameAcks t (answered t (received p from))
  unfolding handle_feedback
  rest_SameAcks t p from k = ground (arith, handle_nack-SameAcks link clock window timeout peer t p)

  feedback-IsOpen :
      (last : ℕ) (t : Transfer) (l : Logged)
      → IsOpen last t
      → Confirms peer (suc last) l ⊎ IsOpen last (answered t l)
  feedback-IsOpen last t quiet open_ = inr (unfold handle_feedback in open_)
  feedback-IsOpen last t lost open_ = inr (unfold handle_feedback in open_)
  feedback-IsOpen last t (received p from) open_ = elim (ℕ_discrete p.type Protocol.ack) [
    | no other ↦ inr (SameAcks-IsOpen last t _ (rest_SameAcks t p from other) open_)
    | yes is_ack ↦ elim (Bool-cases (is_same_peer peer from)) [
      | inr foreign ↦ inr (rw (foreign_ignored t p from foreign) open_)
      | inl same ↦ elim (dec_lt last p.ack_id) [
        | yes all ↦ inl (record {
          packet = p;
          from = from;
          arrives = refl;
          same_peer = same;
          is_ack = is_ack;
          covers = omega arith;
        })
        | no few ↦
            inr (
              rw (ack_handled t p from same is_ack)
                (handle_ack-IsOpen last t p (omega arith) open_))
      ]
    ]
  ]

  turn-IsOpen :
      (last : ℕ) (t : Transfer) (l : Logged)
      → IsOpen last t
      → Confirms peer (suc last) l ⊎ IsOpen last (turn link clock window timeout peer t l).transfer
  turn-IsOpen last t l open_ =
      let filled = (fill link clock window timeout peer (length t.chunks) t).transfer in
      let at_first : IsOpen last filled =
        SameAcks-IsOpen last t filled
          (fill-SameAcks link clock window timeout peer (length t.chunks) t) open_ in
      elim (feedback-IsOpen last filled l at_first) [
        | inl c ↦ inl c
        | inr o ↦
            let after = answered filled l in
            let resent =
              resend link clock window timeout peer (after.next_to_send - after.base) after.base
                after in
            let at_last : IsOpen last resent.transfer =
              SameAcks-IsOpen last after resent.transfer
                (resend-SameAcks link clock window timeout peer _ after.base after) o in
            inr (
              unfold turn in
              one_of_three last (fill link clock window timeout peer (length t.chunks) t).ok
                (handle_feedback link clock window timeout peer filled l).ok
                (fill link clock window timeout peer (length t.chunks) t)
                (handle_feedback link clock window timeout peer filled l) resent at_first o at_last)
      ]

  -- An event, before which nothing stops the server, that brings such an ACK.
  pub record Confirmed (count : ℕ) (events : List Event) : Type 0 where
    pub before : List Event
    pub event : Event
    pub after : List Event
    pub split : events ≡ before ++ (event ∷ after)
    pub confirms : Confirms peer count (recv_logged_timeout false event.arrival)

  loop_goes_on :
      (last : ℕ) (t t' : Transfer) (e : Event) (events : List Event)
      → IsOpen last t
      → window_loop link clock window timeout peer t (e ∷ events) ≡ all_acked t'
      → window_loop link clock window timeout peer
          (turn link clock window timeout peer t (recv_logged_timeout false e.arrival)).transfer
          events
        ≡ all_acked t'
  unfolding window_loop
  loop_goes_on last t t' e events open_ h = ground (arith, open_.count, open_.behind)

  pub open_Confirmed :
      (last : ℕ) (events : List Event) (t t' : Transfer)
      → IsOpen last t
      → window_loop link clock window timeout peer t events ≡ all_acked t'
      → Confirmed (suc last) events
  open_Confirmed last [] t t' open_ h =
      absurd (unfold window_loop in ground (arith, open_.count, open_.behind))
  open_Confirmed last (e ∷ events) t t' open_ h =
      elim (turn-IsOpen last t (recv_logged_timeout false e.arrival) open_) [
        | inl c ↦ record { before = []; event = e; after = events; split = refl; confirms = c }
        | inr o ↦
            let later =
              open_Confirmed last events _ t' o (loop_goes_on last t t' e events open_ h) in
            record {
              before = e ∷ later.before;
              event = later.event;
              after = later.after;
              split = ap (λ es. e ∷ es) later.split;
              confirms = later.confirms;
            }
      ]
