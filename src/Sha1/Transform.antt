-- ===== src/Sha1/Transform.antt =====
-- rotl32 and sha1_transform of src/sha1_util.c, on uint32_t values.
use udp_secure_transfer.Prelude.{ℕ, zero, suc, ◌+◌, ◌-◌, ◌*◌, ◌/◌, ◌^◌}
use udp_secure_transfer.Prelude.{List, [], ◌∷◌, ◌++◌, u32, bit_and, bit_or, bit_xor, ltb, get_or}
use udp_secure_transfer.Prelude.{if◌then◌else◌}

pub record Registers : Type 0 where
  pub h0 : ℕ
  pub h1 : ℕ
  pub h2 : ℕ
  pub h3 : ℕ
  pub h4 : ℕ

pub rotl32 : ℕ → ℕ → ℕ
rotl32 value bits = bit_or (u32 (value * 2 ^ bits)) (value / 2 ^ (32 - bits))

-- `~x` on a uint32_t.
abbrev bit_not : ℕ → ℕ
bit_not x = 0xffffffff - x

-- The bytes of the block, four to a word.
pub block_words : ℕ → List ℕ → List ℕ
block_words (suc n) (a ∷ b ∷ c ∷ d ∷ rest) =
    bit_or (bit_or (bit_or (a * 2 ^ 24) (b * 2 ^ 16)) (c * 2 ^ 8)) d ∷ block_words n rest
block_words n rest = []

-- `w[i]` for `i` from 16 on; `n` words are left to compute.
pub schedule : ℕ → ℕ → List ℕ → List ℕ
unfolding rotl32
schedule zero i w = w
schedule (suc n) i w =
    let at = λ (k : ℕ). get_or w (i - k) 0 in
    let mixed = bit_xor (bit_xor (bit_xor (at 3) (at 8)) (at 14)) (at 16) in
    schedule n (i + 1) (w ++ (rotl32 mixed 1 ∷ []))

pub round_f : ℕ → ℕ → ℕ → ℕ → ℕ
round_f i b c d =
    if ltb i 20
    then bit_or (bit_and b c) (bit_and (bit_not b) d)
    else if ltb i 40
    then bit_xor (bit_xor b c) d
    else if ltb i 60
    then bit_or (bit_or (bit_and b c) (bit_and b d)) (bit_and c d)
    else bit_xor (bit_xor b c) d

pub round_k : ℕ → ℕ
round_k i =
    if ltb i 20
    then 0x5a827999
    else if ltb i 40
    then 0x6ed9eba1
    else if ltb i 60
    then 0x8f1bbcdc
    else 0xca62c1d6

-- One pass of the main loop: `h0` to `h4` are the variables `a` to `e`.
pub round : ℕ → ℕ → Registers → Registers
unfolding rotl32 round_f round_k
round i w r =
    let temp = u32 (rotl32 r.h0 5 + round_f i r.h1 r.h2 r.h3 + r.h4 + round_k i + w) in
    record { h0 = temp; h1 = r.h0; h2 = rotl32 r.h1 30; h3 = r.h2; h4 = r.h3 }

pub rounds : ℕ → List ℕ → Registers → Registers
rounds i [] r = r
rounds i (w ∷ ws) r = rounds (i + 1) ws (round i w r)

unfoldable pub sha1_transform : Registers → List ℕ → Registers
unfolding block_words schedule rounds round
sha1_transform s block =
    let r = rounds 0 (schedule 64 16 (block_words 16 block)) s in
    record {
      h0 = u32 (s.h0 + r.h0);
      h1 = u32 (s.h1 + r.h1);
      h2 = u32 (s.h2 + r.h2);
      h3 = u32 (s.h3 + r.h3);
      h4 = u32 (s.h4 + r.h4);
    }
