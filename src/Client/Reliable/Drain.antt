-- ===== src/Client/Reliable/Drain.antt =====
-- The invariant of the reliable receiver of src/client.c, and the loop that writes what is in
-- order. A file is a function from ids to blocks, and `n` bounds the ids.
use udp_secure_transfer.Prelude.{ℕ, zero, suc, ◌+◌, ◌≤◌, ◌<◌, ◌^◌, ◌≡◌, refl, ◌≢◌, ◌⊎◌, inl}
use udp_secure_transfer.Prelude.{inr, arith, ap, sym, ◌∙◌, Bool, true, false, Option, some}
use udp_secure_transfer.Prelude.{List, [], ◌++◌, length, take, take_all, u32}
use udp_secure_transfer.Prelude.{length-set, get_or-set_self, get_or-set_ne, Bool-cases}
use udp_secure_transfer.Client.Transfer.{Disk}
use udp_secure_transfer.Client.Reliable.{empty_slot, ReliableReceiver, slot}
use udp_secure_transfer.Client.Reliable.{write_slot, drain}
use udp_secure_transfer.Client.Reliable.Slots.{slot_beyond}
use native.Mathlib.Decide.{ℕ_discrete, dec_lt}
use native.Mathlib.Numerals.{add-one}

-- The first `k` blocks.
abbrev pub first : (ℕ → List ℕ) → ℕ → List ℕ
first block zero = []
first block (suc k) = first block k ++ block k

abbrev pub present : ReliableReceiver → ℕ → Bool
present r i = (slot r.buffered i).present

-- A block has been written out or waits in its slot.
abbrev pub Has : ReliableReceiver → ℕ → Type 0
Has r i = (i < r.expected_packet_id) ⊎ (present r i ≡ true)

-- The output is the blocks below the expected id, and the slots in use hold later blocks.
pub record IsConsistent (block : ℕ → List ℕ) (n : ℕ) (r : ReliableReceiver) : Type 0 where
  pub written : r.out ≡ first block r.expected_packet_id
  pub bounded : r.expected_packet_id ≤ n
  pub later : (i : ℕ) → present r i ≡ true → (r.expected_packet_id ≤ i) × (i < n)
  pub bytes : (i : ℕ) → present r i ≡ true → (slot r.buffered i).bytes ≡ block i
  pub sizes : (i : ℕ) → present r i ≡ true → (slot r.buffered i).length ≡ length (block i)

-- What the loop leaves: everything is kept, and the expected block is missing.
pub record IsDrained (block : ℕ → List ℕ) (n : ℕ) (r : ReliableReceiver)
    (result : Option ReliableReceiver) : Type 0 where
  pub after : ReliableReceiver
  pub returns : result ≡ some after
  pub consistent : IsConsistent block n after
  pub forward : r.expected_packet_id ≤ after.expected_packet_id
  pub keeps : (i : ℕ) → Has r i → Has after i
  pub missing : present after after.expected_packet_id ≡ false

module _ (block : ℕ → List ℕ) (n : ℕ) (small : n < 2 ^ 32) (disk : Disk)
    (writes : (k : ℕ) (bytes : List ℕ) → disk.fwrite k bytes ≡ length bytes) where
  module _ (r : ReliableReceiver) (c : IsConsistent block n r)
      (next : present r r.expected_packet_id ≡ true) where
    abbrev e : ℕ
    e = r.expected_packet_id

    in_buffer : e < length r.buffered
    in_buffer = elim (dec_lt e (length r.buffered)) [
      | yes h ↦ h
      | no h ↦ absurd (ground (arith, slot_beyond r.buffered e (omega arith)))
    ]

    next_id : u32 (e + 1) ≡ e + 1
    next_id = let (lo, hi) = c.later e next in omega arith

    slot-write_slot_self : slot (write_slot r).buffered e ≡ empty_slot
    unfolding write_slot
    slot-write_slot_self = get_or-set_self r.buffered e empty_slot empty_slot in_buffer

    slot-write_slot : (i : ℕ) → i ≢ e → slot (write_slot r).buffered i ≡ slot r.buffered i
    unfolding write_slot
    slot-write_slot i h = get_or-set_ne r.buffered e i empty_slot empty_slot (λ q. h (sym q))

    expected-write_slot : (write_slot r).expected_packet_id ≡ e + 1
    unfolding write_slot
    expected-write_slot = next_id

    whole_slot : take (slot r.buffered e).length (slot r.buffered e).bytes ≡ block e
    whole_slot = rw (c.bytes e next, c.sizes e next) (take_all (block e))

    -- A slot in use after the turn was in use before, and is not the one written.
    still_present : (i : ℕ) → present (write_slot r) i ≡ true → (i ≢ e) × (present r i ≡ true)
    still_present i h = elim (ℕ_discrete i e) [
      | yes same ↦ absurd (ground (arith, slot-write_slot_self))
      | no other ↦ (other, ap (λ s. s.present) (sym (slot-write_slot i other)) ∙ h)
    ]

    write_slot-IsConsistent : IsConsistent block n (write_slot r)
    write_slot-IsConsistent = record {
      written =
          rw (expected-write_slot, add-one) (unfold write_slot in rw (c.written, whole_slot) refl);
      bounded = omega (arith, expected-write_slot, c.later e next);
      later = λ i h.
          let (other, old) = still_present i h in omega (arith, expected-write_slot, c.later i old);
      bytes = λ i h.
          let (other, old) = still_present i h in rw (slot-write_slot i other) (c.bytes i old);
      sizes = λ i h.
          let (other, old) = still_present i h in rw (slot-write_slot i other) (c.sizes i old);
    }

    write_slot-keeps : (i : ℕ) → Has r i → Has (write_slot r) i
    write_slot-keeps i (inl h) = inl (omega (arith, expected-write_slot))
    write_slot-keeps i (inr h) = elim (ℕ_discrete i e) [
      | yes same ↦ inl (omega (arith, expected-write_slot))
      | no other ↦ inr (ap (λ s. s.present) (slot-write_slot i other) ∙ h)
    ]

    length-write_slot : length (write_slot r).buffered ≡ length r.buffered
    unfolding write_slot
    length-write_slot = length-set r.buffered e empty_slot

    drain_turn : (fuel : ℕ) → drain disk (suc fuel) r ≡ drain disk fuel (write_slot r)
    unfolding drain
    drain_turn fuel = ground (
      arith,
      in_buffer,
      next,
      whole_slot,
      c.sizes e next,
      writes e (take (slot r.buffered e).length (slot r.buffered e).bytes),
    )

  drain_stop :
      (fuel : ℕ) (r : ReliableReceiver)
      → present r r.expected_packet_id ≡ false
      → drain disk fuel r ≡ some r
  unfolding drain
  drain_stop zero r h = refl
  drain_stop (suc fuel) r h = ground arith

  stopped_here :
      (fuel : ℕ) (r : ReliableReceiver)
      → IsConsistent block n r
      → present r r.expected_packet_id ≡ false
      → IsDrained block n r (drain disk fuel r)
  stopped_here fuel r c gap = record {
    after = r;
    returns = drain_stop fuel r gap;
    consistent = c;
    forward = omega arith;
    keeps = λ i h. h;
    missing = gap;
  }

  one_turn :
      (fuel : ℕ) (r : ReliableReceiver) (c : IsConsistent block n r)
      → present r r.expected_packet_id ≡ true
      → IsDrained block n (write_slot r) (drain disk fuel (write_slot r))
      → IsDrained block n r (drain disk (suc fuel) r)
  one_turn fuel r c next d = record {
    after = d.after;
    returns = drain_turn r c next fuel ∙ d.returns;
    consistent = d.consistent;
    forward = omega (arith, d.forward, expected-write_slot r c next);
    keeps = λ i h. d.keeps i (write_slot-keeps r c next i h);
    missing = d.missing;
  }

  -- For a file of fewer than 2 ^ 32 blocks, a disk that takes every write whole, and a
  -- consistent receiver: with a turn for each slot from the expected one on, the loop ends at a
  -- missing block, and leaves a consistent receiver that has all blocks that it had.
  pub drain-IsDrained :
      (fuel : ℕ) (r : ReliableReceiver)
      → IsConsistent block n r
      → length r.buffered ≤ fuel + r.expected_packet_id
      → IsDrained block n r (drain disk fuel r)
  drain-IsDrained zero r c enough =
      stopped_here zero r c
        (ap (λ s. s.present) (slot_beyond r.buffered r.expected_packet_id (omega arith)))
  drain-IsDrained (suc fuel) r c enough = elim (Bool-cases (present r r.expected_packet_id)) [
    | inl next ↦ one_turn fuel r c next (
        drain-IsDrained fuel (write_slot r) (write_slot-IsConsistent r c next)
          (omega (arith, length-write_slot r c next, expected-write_slot r c next)))
    | inr gap ↦ stopped_here (suc fuel) r c gap
  ]
