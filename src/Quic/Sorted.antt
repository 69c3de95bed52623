-- ===== src/Quic/Sorted.antt =====
-- chunk_cmp of src/quic_demo_client.c, and what a sort by it can do.
use udp_secure_transfer.Prelude.{ℕ, ◌+◌, ◌≤◌, ◌≡◌, refl, arith, ap₂, sym}
use udp_secure_transfer.Prelude.{Bool, true, false, not, List, [], ◌∷◌, ltb, ◌==◌, if◌then◌else◌}
use mathlib.Core.List.{Perm, Mem, eq-or-mem_of_mem-cons, mem-cons_self, not-mem-nil, Pairwise}
use mathlib.Core.List.Perm
use mathlib.Core.Logic.{∥∥₁_elim, inl, inr}
use native.Mathlib.Bridge.{le_prop}

-- `payload` is `payload[0..payload_len)`.
pub record StreamChunk : Type 0 where
  pub stream_id : ℕ
  pub seq : ℕ
  pub payload : List ℕ

-- chunk_cmp gives a number that is not above 0.
unfoldable pub in_order : StreamChunk → StreamChunk → Bool
in_order a b =
    if not (a.stream_id == b.stream_id)
    then ltb a.stream_id b.stream_id
    else if ltb a.seq b.seq
    then true
    else if ltb b.seq a.seq
    then false
    else true

-- What `qsort` with chunk_cmp does to an array.
pub record Sorts (qsort : List StreamChunk → List StreamChunk) : Type 0 where
  pub permutes : (chunks : List StreamChunk) → Perm (qsort chunks) chunks
  pub orders : (chunks : List StreamChunk) → Pairwise (λ a b. in_order a b ≡ true) (qsort chunks)

-- Frames of one stream with consecutive numbers.
abbrev pub numbered : ℕ → ℕ → List (List ℕ) → List StreamChunk
numbered stream seq [] = []
numbered stream seq (block ∷ blocks) =
    record { stream_id = stream; seq = seq; payload = block } ∷ numbered stream (seq + 1) blocks

StreamChunk-set : IsSet StreamChunk
StreamChunk-set = hlevel

-- A sorted list is the only one in its order, where no two elements are on a par.
sorted_unique :
    (l t : List StreamChunk)
    → Perm l t
    → Pairwise (λ a b. in_order a b ≡ true) l
    → Pairwise (λ a b. in_order b a ≡ false) t
    → l ≡ t
sorted_unique [] t p sl st = Perm.nil-eq p
sorted_unique (y ∷ l) [] p sl st = Perm.eq-nil p
sorted_unique (y ∷ l) (x ∷ t) p (Pairwise.cons hy sl) (Pairwise.cons hx st) =
    let same : y ≡ x =
      ∥∥₁_elim (eq-or-mem_of_mem-cons ((Perm.mem_iff p).0 mem-cons_self)) (StreamChunk-set y x)
        (λ e. elim e [
          | inl e ↦ e
          | inr m ↦
              ∥∥₁_elim (eq-or-mem_of_mem-cons ((Perm.mem_iff p).1 mem-cons_self))
                (StreamChunk-set y x)
                (λ e'. elim e' [
                  | inl e' ↦ sym e'
                  | inr m' ↦ absurd (ground (arith, hx y m, hy x m'))
                ])
        ]) in
    let heads : Perm (x ∷ l) (x ∷ t) = Perm.trans (Perm.cons' (sym same) (Perm.refl l)) p in
    let rest : Perm l t = Perm.cons_inv heads in
    ap₂ (λ c cs. c ∷ cs) same (sorted_unique l t rest sl st)

abbrev pub IsNumbered : ℕ → ℕ → StreamChunk → Type 0
IsNumbered stream n c = (c.stream_id ≡ stream) × (n ≤ c.seq)

numbered-IsNumbered :
    (stream n : ℕ) (blocks : List (List ℕ)) (c : StreamChunk)
    → Mem c (numbered stream n blocks)
    → IsNumbered stream n c
numbered-IsNumbered stream n [] c m = absurd (not-mem-nil m)
numbered-IsNumbered stream n (block ∷ blocks) c m =
    ∥∥₁_elim (eq-or-mem_of_mem-cons m) (hlevel (le_prop)) (λ e. elim e [
      | inl e ↦ rw e (refl, omega arith)
      | inr m' ↦
          let later = numbered-IsNumbered stream (n + 1) blocks c m' in
          (later.0, omega (arith, later.1))
    ])

behind :
    (stream n : ℕ) (block : List ℕ) (c : StreamChunk)
    → IsNumbered stream (n + 1) c
    → in_order c (record { stream_id = stream; seq = n; payload = block }) ≡ false
unfolding in_order
behind stream n block c h = ground (arith, h)

numbered-in_order :
    (stream n : ℕ) (blocks : List (List ℕ))
    → Pairwise (λ a b. in_order b a ≡ false) (numbered stream n blocks)
numbered-in_order stream n [] = Pairwise.nil
numbered-in_order stream n (block ∷ blocks) =
    Pairwise.cons (λ c m. behind stream n block c (numbered-IsNumbered stream (n + 1) blocks c m))
      (numbered-in_order stream (n + 1) blocks)

-- A sort by chunk_cmp puts the frames of one stream back into their order.
pub sorted-numbered :
    (qsort : List StreamChunk → List StreamChunk) (sorts : Sorts qsort) (stream n : ℕ)
    (blocks : List (List ℕ)) (chunks : List StreamChunk)
    → Perm chunks (numbered stream n blocks)
    → qsort chunks ≡ numbered stream n blocks
sorted-numbered qsort sorts stream n blocks chunks p =
    sorted_unique (qsort chunks) (numbered stream n blocks) (Perm.trans (sorts.permutes chunks) p)
      (sorts.orders chunks) (numbered-in_order stream n blocks)
