-- ===== src/Client/Reliable/Slots.antt =====
-- The slots of the receive buffer of src/client.c: growing it and storing into it.
use udp_secure_transfer.Prelude.{ℕ, zero, suc, ◌+◌, ◌-◌, ◌*◌, ◌≤◌, ◌≡◌, refl}
use udp_secure_transfer.Prelude.{arith, true, Option, some, List, []}
use udp_secure_transfer.Prelude.{◌∷◌, ◌++◌, length, replicate, length-append}
use udp_secure_transfer.Prelude.{length-replicate}
use native.Mathlib.Decide.{dec_le}
use udp_secure_transfer.Client.Reliable.{BufferedChunk, empty_slot, Heap, grow}
use udp_secure_transfer.Client.Reliable.{ensure_buffer_capacity, slot}

-- The doubling reaches what is needed.
pub need-le-grow : (fuel new_cap need : ℕ) → need ≤ fuel + new_cap → need ≤ grow fuel new_cap need
unfolding grow
need-le-grow zero new_cap need h = omega arith
need-le-grow (suc fuel) new_cap need h =
    ground (arith, need-le-grow fuel 32 need, need-le-grow fuel (new_cap * 2) need)

pub slot_beyond :
    (chunks : List BufferedChunk) (i : ℕ) → length chunks ≤ i → slot chunks i ≡ empty_slot
slot_beyond [] i h = refl
slot_beyond (x ∷ xs) zero h = absurd (omega arith)
slot_beyond (x ∷ xs) (suc i) h = slot_beyond xs i (omega arith)

slot_empty : (k i : ℕ) → slot (replicate k empty_slot) i ≡ empty_slot
slot_empty zero i = refl
slot_empty (suc k) zero = refl
slot_empty (suc k) (suc i) = slot_empty k i

pub slot-append :
    (chunks : List BufferedChunk) (k i : ℕ)
    → slot (chunks ++ replicate k empty_slot) i ≡ slot chunks i
slot-append [] k i = slot_empty k i
slot-append (x ∷ xs) k zero = refl
slot-append (x ∷ xs) k (suc i) = slot-append xs k i

-- `realloc` and `malloc` never fail.
pub record Allocates (heap : Heap) : Type 0 where
  pub reallocs : (k : ℕ) → heap.reallocs k ≡ true
  pub mallocs : (k : ℕ) → heap.mallocs k ≡ true

-- The buffer after ensure_buffer_capacity: large enough, and with the old slots and empty ones.
pub record Grown (chunks : List BufferedChunk) (need : ℕ) (result : Option (List BufferedChunk))
    : Type 0 where
  pub grown : List BufferedChunk
  pub returns : result ≡ some grown
  pub enough : need ≤ length grown
  pub same : (i : ℕ) → slot grown i ≡ slot chunks i

module _ (heap : Heap) (allocates : Allocates heap) where
  pub ensure-Grown :
      (chunks : List BufferedChunk) (need : ℕ)
      → Grown chunks need (ensure_buffer_capacity heap chunks need)
  ensure-Grown chunks need = elim (dec_le need (length chunks)) [
    | yes fits ↦ record {
      grown = chunks;
      returns = unfold ensure_buffer_capacity in ground arith;
      enough = fits;
      same = λ i. refl;
    }
    | no short ↦
        let new_cap = grow need (length chunks) need in
        record {
          grown = chunks ++ replicate (new_cap - length chunks) empty_slot;
          returns = unfold ensure_buffer_capacity in ground (arith, allocates.reallocs new_cap);
          enough = omega (
            arith,
            length-append chunks (replicate (new_cap - length chunks) empty_slot),
            length-replicate (new_cap - length chunks) empty_slot,
            need-le-grow need (length chunks) need (omega arith),
          );
          same = slot-append chunks (new_cap - length chunks);
        }
  ]
