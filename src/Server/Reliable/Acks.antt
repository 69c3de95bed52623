-- ===== src/Server/Reliable/Acks.antt =====
-- The cumulative acknowledgement of src/server.c: what an ACK does to the window.
use udp_secure_transfer.Prelude.{ℕ, zero, suc, ◌+◌, ◌≤◌, ◌<◌, ◌≡◌, refl, ◌≢◌, arith, ap}
use udp_secure_transfer.Prelude.{◌∙◌, true, false, List, [], ◌∷◌, length}
use udp_secure_transfer.Prelude.{◌⊎◌}
use native.Mathlib.Decide.{dec_lt, ℕ_discrete}
use udp_secure_transfer.Server.Reliable.{ReliableChunk}
use udp_secure_transfer.Server.Reliable.Window.{is_acked, ack_at, mark_acked, advance}

acked_self :
    (chunks : List ReliableChunk) (i : ℕ) → i < length chunks → is_acked (ack_at chunks i) i ≡ true
unfolding is_acked ack_at
acked_self [] i h = absurd (omega arith)
acked_self (chunk ∷ chunks) zero h = refl
acked_self (chunk ∷ chunks) (suc i) h = acked_self chunks i (omega arith)

acked_other :
    (chunks : List ReliableChunk) (i j : ℕ)
    → i ≢ j
    → is_acked (ack_at chunks i) j ≡ is_acked chunks j
unfolding is_acked ack_at
acked_other [] i j h = refl
acked_other (chunk ∷ chunks) zero zero h = absurd (h refl)
acked_other (chunk ∷ chunks) zero (suc j) h = refl
acked_other (chunk ∷ chunks) (suc i) zero h = refl
acked_other (chunk ∷ chunks) (suc i) (suc j) h = acked_other chunks i j (λ e. h (ap suc e))

length-ack_at : (chunks : List ReliableChunk) (i : ℕ) → length (ack_at chunks i) ≡ length chunks
unfolding ack_at
length-ack_at [] i = refl
length-ack_at (chunk ∷ chunks) zero = refl
length-ack_at (chunk ∷ chunks) (suc i) = ap suc (length-ack_at chunks i)

pub length-mark_acked :
    (turns i : ℕ) (chunks : List ReliableChunk) → length (mark_acked turns i chunks) ≡ length chunks
unfolding mark_acked
length-mark_acked zero i chunks = refl
length-mark_acked (suc turns) i chunks =
    length-mark_acked turns (i + 1) (ack_at chunks i) ∙ length-ack_at chunks i

-- Chunks outside the marked range keep their flag.
pub mark_acked_outside :
    (turns i j : ℕ) (chunks : List ReliableChunk)
    → (j < i) ⊎ (i + turns ≤ j)
    → is_acked (mark_acked turns i chunks) j ≡ is_acked chunks j
unfolding mark_acked
mark_acked_outside zero i j chunks h = refl
mark_acked_outside (suc turns) i j chunks h =
    mark_acked_outside turns (i + 1) j (ack_at chunks i) (omega arith)
    ∙ acked_other chunks i j (omega arith)

pub mark_acked_inside :
    (turns i j : ℕ) (chunks : List ReliableChunk)
    → i ≤ j
    → j < i + turns
    → j < length chunks
    → is_acked (mark_acked turns i chunks) j ≡ true
unfolding mark_acked
mark_acked_inside zero i j chunks lo hi size = absurd (omega arith)
mark_acked_inside (suc turns) i j chunks lo hi size = elim (ℕ_discrete i j) [
  | yes same ↦
      mark_acked_outside turns (i + 1) j (ack_at chunks i) (omega arith)
      ∙ rw (← same) (acked_self chunks i (omega arith))
  | no other ↦
      mark_acked_inside turns (i + 1) j (ack_at chunks i) (omega arith) (omega arith)
        (omega (arith, length-ack_at chunks i))
]

-- The base moves over acknowledged chunks only, and not past one that is not.
pub advance_stops :
    (fuel : ℕ) (chunks : List ReliableChunk) (base last : ℕ)
    → base ≤ last
    → is_acked chunks last ≡ false
    → advance fuel chunks base ≤ last
unfolding advance
advance_stops zero chunks base last h open_ = h
advance_stops (suc fuel) chunks base last h open_ = elim (ℕ_discrete base last) [
  | yes same ↦ ground (arith, same)
  | no other ↦ ground (arith, advance_stops fuel chunks (base + 1) last)
]

pub base-le-advance :
    (fuel : ℕ) (chunks : List ReliableChunk) (base : ℕ) → base ≤ advance fuel chunks base
unfolding advance
base-le-advance zero chunks base = omega arith
base-le-advance (suc fuel) chunks base = ground (arith, base-le-advance fuel chunks (base + 1))

pub advance-le-length :
    (fuel : ℕ) (chunks : List ReliableChunk) (base : ℕ)
    → base ≤ length chunks
    → advance fuel chunks base ≤ length chunks
unfolding advance
advance-le-length zero chunks base h = h
advance-le-length (suc fuel) chunks base h =
    ground (arith, advance-le-length fuel chunks (base + 1))

pub advance_reaches :
    (fuel : ℕ) (chunks : List ReliableChunk) (base upto : ℕ)
    → upto ≤ length chunks
    → upto ≤ base + fuel
    → ((j : ℕ) → base ≤ j → j < upto → is_acked chunks j ≡ true)
    → upto ≤ advance fuel chunks base
unfolding advance
advance_reaches zero chunks base upto size h acked = omega arith
advance_reaches (suc fuel) chunks base upto size h acked = elim (dec_lt base upto) [
  | yes more ↦ ground (
    arith,
    acked base (omega arith) more,
    advance_reaches fuel chunks (base + 1) upto size (omega arith)
        (λ j lo hi. acked j (omega arith) hi),
  )
  | no done ↦ omega (arith, base-le-advance (suc fuel) chunks base)
]

advance_acked :
    (fuel : ℕ) (chunks : List ReliableChunk) (base j : ℕ)
    → base ≤ j
    → j < advance fuel chunks base
    → is_acked chunks j ≡ true
unfolding advance
advance_acked zero chunks base j lo hi = absurd (omega arith)
advance_acked (suc fuel) chunks base j lo hi = elim (ℕ_discrete base j) [
  | yes same ↦ ground (arith, same)
  | no other ↦ ground (arith, advance_acked fuel chunks (base + 1) j)
]
