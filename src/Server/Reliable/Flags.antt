-- ===== src/Server/Reliable/Flags.antt =====
-- No function of src/server.c but the one that handles an ACK touches `acked`.
use udp_secure_transfer.Prelude.{ℕ, zero, suc, ◌+◌, ◌≡◌, refl, arith, ap, ◌∙◌}
use udp_secure_transfer.Prelude.{Bool, false, some, List, [], ◌∷◌}
use udp_secure_transfer.Prelude.{length, get_elem?, get_or, set}
use udp_secure_transfer.Prelude.{inl, inr, Option-cases}
use udp_secure_transfer.Protocol.{Peer, Packet}
use udp_secure_transfer.Protocol.Recv.{Link}
use udp_secure_transfer.Server.Reliable.{Clock, ReliableChunk, Sender, send_reliable_chunk}
use udp_secure_transfer.Server.Reliable.{release_delayed_chunks, send_at}
use udp_secure_transfer.Server.Reliable.Window.{Transfer, send_next, fill, handle_nack}
use udp_secure_transfer.Server.Reliable.Window.{resend_one, resend, is_acked}

abbrev pub flags : List ReliableChunk → List Bool
flags [] = []
flags (chunk ∷ chunks) = chunk.acked ∷ flags chunks

pub length-flags : (chunks : List ReliableChunk) → length (flags chunks) ≡ length chunks
length-flags [] = refl
length-flags (chunk ∷ chunks) = ap suc (length-flags chunks)

pub is_acked-flags :
    (chunks : List ReliableChunk) (i : ℕ) → is_acked chunks i ≡ get_or (flags chunks) i false
unfolding is_acked
is_acked-flags [] i = refl
is_acked-flags (chunk ∷ chunks) zero = refl
is_acked-flags (chunk ∷ chunks) (suc i) = is_acked-flags chunks i

flags-set :
    (chunks : List ReliableChunk) (i : ℕ) (old new : ReliableChunk)
    → get_elem? chunks i ≡ some old
    → new.acked ≡ old.acked
    → flags (set chunks i new) ≡ flags chunks
flags-set [] i old new h e = refl
flags-set (chunk ∷ chunks) zero old new h e = ap (λ b. b ∷ flags chunks) (ground arith)
flags-set (chunk ∷ chunks) (suc i) old new h e =
    ap (λ l. chunk.acked ∷ l) (flags-set chunks i old new h e)

module _ (link : Link) (clock : Clock) where
  acked-send :
      (s : Sender) (chunk : ReliableChunk)
      → (send_reliable_chunk link clock s chunk).chunk.acked ≡ chunk.acked
  unfolding send_reliable_chunk
  acked-send s chunk = ground arith

  pub flags-send_at :
      (s : Sender) (chunks : List ReliableChunk) (i : ℕ)
      → flags (send_at link clock s chunks i).chunks ≡ flags chunks
  flags-send_at s chunks i = elim (Option-cases (get_elem? chunks i)) [
    | inl e ↦ unfold send_at in ground arith
    | inr (chunk, e) ↦
        let new = (send_reliable_chunk link clock s chunk).chunk in
        let runs : (send_at link clock s chunks i).chunks ≡ set chunks i new =
          unfold send_at in ground arith in
        ap flags runs ∙ flags-set chunks i chunk new e (acked-send s chunk)
  ]

  pub flags-release :
      (count : ℕ) (s : Sender) (chunks : List ReliableChunk)
      → flags (release_delayed_chunks link clock count s chunks).chunks ≡ flags chunks
  unfolding release_delayed_chunks
  flags-release zero s chunks = refl
  flags-release (suc count) s [] = refl
  flags-release (suc count) s (chunk ∷ chunks) =
      let released = send_reliable_chunk link clock s (record chunk { reorder_pending = false }) in
      ground (
        arith,
        acked-send s (record chunk { reorder_pending = false }),
        flags-release count s chunks,
        flags-release count released.sender chunks,
      )

-- The acknowledgements, and how far they reach, are as they were.
abbrev pub SameAcks : Transfer → Transfer → Type 0
SameAcks t t' = (flags t'.chunks ≡ flags t.chunks) × (t'.base ≡ t.base)

SameAcks-trans : (t u v : Transfer) → SameAcks t u → SameAcks u v → SameAcks t v
SameAcks-trans t u v p q = (q.0 ∙ p.0, q.1 ∙ p.1)

module _ (link : Link) (clock : Clock) (window timeout : ℕ) (peer : Peer) where
  send_next-SameAcks :
      (t : Transfer) → SameAcks t (send_next link clock window timeout peer t).transfer
  unfolding send_next
  send_next-SameAcks t =
      let sent = send_at link clock t.sender t.chunks t.next_to_send in
      ground (
        arith,
        flags-send_at link clock t.sender t.chunks t.next_to_send,
        flags-release link clock (t.next_to_send + 1) sent.sender sent.chunks,
      )

  pub fill-SameAcks :
      (fuel : ℕ) (t : Transfer) → SameAcks t (fill link clock window timeout peer fuel t).transfer
  unfolding fill
  fill-SameAcks zero t = (refl, refl)
  fill-SameAcks (suc fuel) t =
      let sent = send_next link clock window timeout peer t in
      ground (arith, send_next-SameAcks t, fill-SameAcks fuel sent.transfer)

  pub handle_nack-SameAcks :
      (t : Transfer) (p : Packet)
      → SameAcks t (handle_nack link clock window timeout peer t p).transfer
  unfolding handle_nack
  handle_nack-SameAcks t p = ground (arith, flags-send_at link clock t.sender t.chunks p.ack_id)

  resend_one-SameAcks :
      (t : Transfer) (i : ℕ) → SameAcks t (resend_one link clock window timeout peer t i).transfer
  unfolding resend_one
  resend_one-SameAcks t i = ground (
    arith,
    flags-send_at link clock (record { net = t.sender.net; ticks = t.sender.ticks + 1 }) t.chunks i,
  )

  pub resend-SameAcks :
      (turns i : ℕ) (t : Transfer)
      → SameAcks t (resend link clock window timeout peer turns i t).transfer
  unfolding resend
  resend-SameAcks zero i t = (refl, refl)
  resend-SameAcks (suc turns) i t =
      let one = resend_one link clock window timeout peer t i in
      ground (arith, resend_one-SameAcks t i, resend-SameAcks turns (i + 1) one.transfer)
