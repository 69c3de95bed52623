-- ===== src/Server/Reliable/Delivered.antt =====
-- On a link that delivers, no call of the reliable sender of src/server.c fails.
use udp_secure_transfer.Prelude.{ℕ, zero, suc, ◌+◌, ◌-◌, ◌<◌, ◌≡◌, ◌≢◌, refl, arith}
use udp_secure_transfer.Prelude.{true, false, some, Option-cases, List}
use udp_secure_transfer.Prelude.{[], ◌∷◌, length, get_elem?, inl, inr}
use udp_secure_transfer.Protocol.{Peer}
use udp_secure_transfer.Protocol.Recv.{Link}
use udp_secure_transfer.Protocol.Logged.{Logged, received, quiet, lost}
use udp_secure_transfer.Protocol.Delivery.{Delivers, after_send, send_logged_lem}
use udp_secure_transfer.Server.Reliable.{Clock, ReliableChunk, Sender, send_reliable_chunk, send_at}
use udp_secure_transfer.Server.Reliable.{release_delayed_chunks}
use udp_secure_transfer.Server.Reliable.Window.{Transfer}
use udp_secure_transfer.Server.Reliable.Window.{handle_nack, handle_feedback, fill}
use udp_secure_transfer.Server.Reliable.Window.{send_next, resend_one, resend, turn}
use udp_secure_transfer.Server.Reliable.Flags.{SameAcks}
use udp_secure_transfer.Server.Reliable.Flags.{resend-SameAcks}

in_range :
    (chunks : List ReliableChunk) (i : ℕ)
    → i < length chunks
    → (chunk : ReliableChunk) × (get_elem? chunks i ≡ some chunk)
in_range [] i h = absurd (omega arith)
in_range (chunk ∷ chunks) zero h = (chunk, refl)
in_range (chunk ∷ chunks) (suc i) h = in_range chunks i (omega arith)

found_in_range :
    (chunks : List ReliableChunk) (i : ℕ) (chunk : ReliableChunk)
    → get_elem? chunks i ≡ some chunk
    → i < length chunks
found_in_range [] i chunk h = absurd (ground arith)
found_in_range (c ∷ chunks) zero chunk h = omega arith
found_in_range (c ∷ chunks) (suc i) chunk h = omega (arith, found_in_range chunks i chunk h)

module _ (link : Link) (delivers : Delivers link) (clock : Clock) where
  pub sends_ok :
      (s : Sender) (chunk : ReliableChunk) → (send_reliable_chunk link clock s chunk).ok ≡ true
  unfolding send_reliable_chunk
  sends_ok s chunk = ground (
    arith,
    send_logged_lem link delivers s.net chunk.wire,
    send_logged_lem link delivers (after_send s.net chunk.wire) chunk.wire,
  )

  pub send_at_ok :
      (s : Sender) (chunks : List ReliableChunk) (i : ℕ)
      → i < length chunks
      → (send_at link clock s chunks i).ok ≡ true
  unfolding send_at
  send_at_ok s chunks i h =
      let (chunk, e) = in_range chunks i h in ground (arith, e, sends_ok s chunk)

  release_ok :
      (count : ℕ) (s : Sender) (chunks : List ReliableChunk)
      → (release_delayed_chunks link clock count s chunks).ok ≡ true
  unfolding release_delayed_chunks
  release_ok zero s chunks = refl
  release_ok (suc count) s [] = refl
  release_ok (suc count) s (chunk ∷ chunks) =
      let released = send_reliable_chunk link clock s (record chunk { reorder_pending = false }) in
      ground (
        arith,
        sends_ok s (record chunk { reorder_pending = false }),
        release_ok count s chunks,
        release_ok count released.sender chunks,
      )

  module _ (window timeout : ℕ) (peer : Peer) where
    send_next_ok :
        (t : Transfer)
        → t.next_to_send < length t.chunks
        → (send_next link clock window timeout peer t).ok ≡ true
    unfolding send_next
    send_next_ok t h =
        let sent = send_at link clock t.sender t.chunks t.next_to_send in
        ground (
          arith,
          send_at_ok t.sender t.chunks t.next_to_send h,
          release_ok (t.next_to_send + 1) sent.sender sent.chunks,
        )

    fill_ok : (fuel : ℕ) (t : Transfer) → (fill link clock window timeout peer fuel t).ok ≡ true
    unfolding fill
    fill_ok zero t = refl
    fill_ok (suc fuel) t =
        let sent = send_next link clock window timeout peer t in
        ground (arith, send_next_ok t, fill_ok fuel sent.transfer)

    feedback_ok :
        (t : Transfer) (l : Logged)
        → l ≢ lost
        → (handle_feedback link clock window timeout peer t l).ok ≡ true
    feedback_ok t quiet h = unfold handle_feedback in refl
    feedback_ok t lost h = absurd (h refl)
    feedback_ok t (received p from) h =
        unfold handle_feedback in
        unfold handle_nack in ground (arith, send_at_ok t.sender t.chunks p.ack_id)

    resend_one_ok :
        (t : Transfer) (i : ℕ) → (resend_one link clock window timeout peer t i).ok ≡ true
    resend_one_ok t i = elim (Option-cases (get_elem? t.chunks i)) [
      | inl e ↦ unfold resend_one in ground (arith, e)
      | inr (chunk, e) ↦
          unfold resend_one in
          ground (
            arith,
            e,
            send_at_ok (record { net = t.sender.net; ticks = t.sender.ticks + 1 }) t.chunks i
                (found_in_range t.chunks i chunk e),
          )
    ]

    resend_ok :
        (turns i : ℕ) (t : Transfer) → (resend link clock window timeout peer turns i t).ok ≡ true
    unfolding resend
    resend_ok zero i t = refl
    resend_ok (suc turns) i t =
        let one = resend_one link clock window timeout peer t i in
        ground (arith, resend_one_ok t i, resend_ok turns (i + 1) one.transfer)

    pub turn_ok :
        (t : Transfer) (l : Logged) → l ≢ lost → (turn link clock window timeout peer t l).ok ≡ true
    unfolding turn
    turn_ok t l h =
        let filled = (fill link clock window timeout peer (length t.chunks) t).transfer in
        let after = (handle_feedback link clock window timeout peer filled l).transfer in
        ground (
          arith,
          fill_ok (length t.chunks) t,
          feedback_ok filled l h,
          resend_ok (after.next_to_send - after.base) after.base after,
        )

    -- What a turn does to the acknowledgements is what the feedback does.
    pub turn-SameAcks :
        (t : Transfer) (l : Logged)
        → l ≢ lost
        → SameAcks
            (handle_feedback link clock window timeout peer
              (fill link clock window timeout peer (length t.chunks) t).transfer
              l).transfer
            (turn link clock window timeout peer t l).transfer
    unfolding turn
    turn-SameAcks t l h =
        let filled = (fill link clock window timeout peer (length t.chunks) t).transfer in
        let after = (handle_feedback link clock window timeout peer filled l).transfer in
        ground (
          arith,
          fill_ok (length t.chunks) t,
          feedback_ok filled l h,
          resend-SameAcks link clock window timeout peer (after.next_to_send - after.base)
              after.base after,
        )
