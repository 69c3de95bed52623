-- ===== src/Sha1/Stream.antt =====
-- The loop of sha1_update is a fold over the bytes.
use udp_secure_transfer.Prelude.{ℕ, zero, suc, ◌+◌, ◌-◌, ◌≤◌, ◌<◌, ◌≡◌, refl, arith, ap, ◌∙◌}
use udp_secure_transfer.Prelude.{List, [], ◌∷◌, ◌++◌, length, take, drop, length-append}
use udp_secure_transfer.Prelude.{length-take, length-drop, append-nil, append_assoc}
use udp_secure_transfer.Prelude.{take-append-drop, take_all, drop_all, sym, if◌then◌else◌, ◌==◌}
use udp_secure_transfer.Sha1.Transform.{Registers, sha1_transform}
use native.Mathlib.Decide.{dec_lt}
use udp_secure_transfer.Sha1.{update_loop}

-- One byte: it fills the block, or it joins the buffer.
unfoldable pub absorb : Registers × List ℕ → ℕ → Registers × List ℕ
absorb (state, buffer) x =
    if length buffer == 63
    then (sha1_transform state (buffer ++ (x ∷ [])), [])
    else (state, buffer ++ (x ∷ []))

unfoldable pub feed : Registers × List ℕ → List ℕ → Registers × List ℕ
feed s [] = s
feed s (x ∷ xs) = feed (absorb s x) xs

pub feed-append :
    (s : Registers × List ℕ) (xs ys : List ℕ) → feed s (xs ++ ys) ≡ feed (feed s xs) ys
unfolding feed
feed-append s [] ys = refl
feed-append s (x ∷ xs) ys = feed-append (absorb s x) xs ys

-- Bytes that leave the block unfilled are appended.
pub feed_short :
    (state : Registers) (buffer xs : List ℕ)
    → length buffer + length xs < 64
    → feed (state, buffer) xs ≡ (state, buffer ++ xs)
unfolding feed absorb
feed_short state buffer [] h = rw append-nil
feed_short state buffer (x ∷ xs) h = ground (
  arith,
  feed_short state (buffer ++ (x ∷ [])) xs,
  length-append buffer (x ∷ []),
  append_assoc buffer (x ∷ []) xs,
)

-- Bytes that fill the block exactly cause one transform.
pub feed_full :
    (state : Registers) (buffer xs : List ℕ)
    → length buffer < 64
    → length buffer + length xs ≡ 64
    → feed (state, buffer) xs ≡ (sha1_transform state (buffer ++ xs), [])
unfolding feed absorb
feed_full state buffer [] h e = absurd (omega arith)
feed_full state buffer (x ∷ []) h e = ground arith
feed_full state buffer (x ∷ y ∷ xs) h e = ground (
  arith,
  feed_full state (buffer ++ (x ∷ [])) (y ∷ xs),
  length-append buffer (x ∷ []),
  append_assoc buffer (x ∷ []) (y ∷ xs),
)

pub feed_buffer_lt :
    (s : Registers × List ℕ) (xs : List ℕ) → length s.1 < 64 → length (feed s xs).1 < 64
unfolding feed absorb
feed_buffer_lt s [] h = h
feed_buffer_lt s (x ∷ xs) h =
    feed_buffer_lt (absorb s x) xs (ground (arith, length-append s.1 (x ∷ [])))

-- One round that takes all the bytes and leaves room, and one that fills the block.
module _ (fuel : ℕ) (state : Registers) (buffer bytes : List ℕ) (some_left : 0 < length bytes) where
  update_loop_short :
      length buffer + length bytes < 64
      → update_loop (suc fuel) state buffer bytes ≡ update_loop fuel state (buffer ++ bytes) []
  unfolding update_loop
  update_loop_short h =
      ground (arith, take_all bytes, drop_all (length bytes) bytes, length-append buffer bytes)

  update_loop_long :
      length buffer < 64
      → 64 ≤ length buffer + length bytes
      → let room = 64 - length buffer in
        update_loop (suc fuel) state buffer bytes
        ≡ update_loop fuel (sha1_transform state (buffer ++ take room bytes)) [] (drop room bytes)
  unfolding update_loop
  update_loop_long hb h = ground (
    arith,
    length-append buffer (take (64 - length buffer) bytes),
    length-take (64 - length buffer) bytes,
  )

feed_split :
    (state : Registers) (buffer bytes : List ℕ)
    → length buffer < 64
    → 64 ≤ length buffer + length bytes
    → let room = 64 - length buffer in
      feed (state, buffer) bytes
      ≡ feed (sha1_transform state (buffer ++ take room bytes), []) (drop room bytes)
feed_split state buffer bytes hb h =
    let room = 64 - length buffer in
    ap (feed (state, buffer)) (sym (take-append-drop room bytes))
    ∙ feed-append (state, buffer) (take room bytes) (drop room bytes)
    ∙ ap (λ s. feed s (drop room bytes))
        (feed_full state buffer (take room bytes) hb (omega (arith, length-take room bytes)))

-- The loop's rounds on any fuel that covers the bytes.
pub update_loop-eq-feed :
    (fuel : ℕ) (state : Registers) (buffer bytes : List ℕ)
    → length buffer < 64
    → length bytes ≤ fuel
    → update_loop fuel state buffer bytes ≡ feed (state, buffer) bytes
update_loop-eq-feed zero state buffer [] hb hf = unfold feed update_loop in refl
update_loop-eq-feed zero state buffer (x ∷ xs) hb hf = absurd (omega arith)
update_loop-eq-feed (suc fuel) state buffer [] hb hf = unfold feed update_loop in refl
update_loop-eq-feed (suc fuel) state buffer (x ∷ xs) hb hf =
    let bytes = x ∷ xs in
    let room = 64 - length buffer in
    elim (dec_lt (length buffer + length bytes) 64) [
      | yes short ↦
          update_loop_short fuel state buffer bytes (omega arith) short
          ∙ update_loop-eq-feed fuel state (buffer ++ bytes) []
              (omega (arith, length-append buffer bytes)) (omega arith)
          ∙ unfold feed in sym (feed_short state buffer bytes short)
      | no long ↦
          update_loop_long fuel state buffer bytes (omega arith) hb (omega arith)
          ∙ update_loop-eq-feed fuel (sha1_transform state (buffer ++ take room bytes)) []
              (drop room bytes) (omega arith) (omega (arith, length-drop room bytes))
          ∙ sym (feed_split state buffer bytes hb (omega arith))
    ]
