-- ===== src/Demo/Digest.antt =====
-- demo_hmac_sha1, demo_derive_session_key and demo_xor_crypt of src/demo_util.c.
use udp_secure_transfer.Prelude.{ℕ, zero, suc, ◌+◌, ◌-◌, ◌%◌, ◌<◌, ◌≡◌, refl, arith, ap, ap₂}
use udp_secure_transfer.Prelude.{
  ◌∙◌, Bool, true, ◌&&◌, List, [], ◌∷◌, ◌++◌, map, length, replicate, ltb,
}
use udp_secure_transfer.Prelude.{◌==◌, ==_iff, if◌then◌else◌, u8, bit_xor, get_or, IsByte, IsBytes}
use udp_secure_transfer.Prelude.{xor_bits, bit_xor_byte}
use udp_secure_transfer.Sha1.{sha1_init, sha1_update, sha1_final}
use udp_secure_transfer.Sha1.File.{one_update, digest_of_two}
use udp_secure_transfer.Sha1.Padding.{fips_sha1, update-context_of}
use udp_secure_transfer.Sha1.Padding.{final-context_of_fips}

-- A block of 64 zero bytes with `bytes` at its front.
abbrev pub write_block : List ℕ → List ℕ
write_block bytes = bytes ++ replicate (64 - length bytes) 0

-- `(uint8_t)(key_block[i] ^ pad)`
abbrev pub xor_pad : ℕ → List ℕ → List ℕ
xor_pad pad key_block = map (λ b. u8 (bit_xor b pad)) key_block

unfoldable pub demo_hmac_sha1 : List ℕ → List ℕ → List ℕ
demo_hmac_sha1 key bytes =
    let key_block =
      if ltb 64 (length key)
      then write_block (sha1_final (sha1_update sha1_init key))
      else write_block key in
    let inner = sha1_final (sha1_update (sha1_update sha1_init (xor_pad 0x36 key_block)) bytes) in
    sha1_final (sha1_update (sha1_update sha1_init (xor_pad 0x5c key_block)) inner)

unfoldable pub demo_derive_session_key : List ℕ → List ℕ → List ℕ → List ℕ
demo_derive_session_key password left right =
    sha1_final (sha1_update (sha1_update (sha1_update sha1_init password) left) right)

-- The loop of demo_xor_crypt from the index `i` on.
unfoldable pub xor_from : List ℕ → ℕ → List ℕ → List ℕ
xor_from key i [] = []
xor_from key i (b ∷ bytes) =
    u8 (bit_xor b (get_or key (i % length key) 0)) ∷ xor_from key (i + 1) bytes

unfoldable pub demo_xor_crypt : List ℕ → List ℕ → List ℕ
unfolding xor_from
demo_xor_crypt bytes key = if length key == 0 then bytes else xor_from key 0 bytes

-- The key of RFC 2104: hashed if it is longer than a block, then filled up with zeros.
abbrev pub block_key : List ℕ → List ℕ
block_key key =
    let short = if ltb 64 (length key) then fips_sha1 key else key in
    short ++ replicate (64 - length short) 0

hashed : (key : List ℕ) → sha1_final (sha1_update sha1_init key) ≡ fips_sha1 key
hashed key = ap sha1_final (one_update key) ∙ final-context_of_fips key

key_block_lem :
    (key : List ℕ)
    → (if ltb 64 (length key)
        then write_block (sha1_final (sha1_update sha1_init key))
        else write_block key)
      ≡ block_key key
key_block_lem key = ground (arith, hashed key)

hmac_of :
    (key_block bytes : List ℕ)
    → sha1_final (
        sha1_update
          (sha1_update sha1_init (xor_pad 0x5c key_block))
          (sha1_final (sha1_update (sha1_update sha1_init (xor_pad 0x36 key_block)) bytes)))
      ≡ fips_sha1 (xor_pad 0x5c key_block ++ fips_sha1 (xor_pad 0x36 key_block ++ bytes))
hmac_of key_block bytes =
    digest_of_two (xor_pad 0x5c key_block) _
    ∙ ap (λ d. fips_sha1 (xor_pad 0x5c key_block ++ d))
        (digest_of_two (xor_pad 0x36 key_block) bytes)

-- A block XOR a byte repeated, as RFC 2104 has it: each of the eight digits of a byte is 1 if
-- exactly one of the two is.
abbrev pub padded_with : ℕ → List ℕ → List ℕ
padded_with pad [] = []
padded_with pad (b ∷ block) = xor_bits 8 b pad ∷ padded_with pad block

xor_pad-padded_with : (pad : ℕ) (block : List ℕ) → xor_pad pad block ≡ padded_with pad block
xor_pad-padded_with pad [] = refl
xor_pad-padded_with pad (b ∷ block) =
    ap₂ (λ x xs. x ∷ xs) (bit_xor_byte b pad) (xor_pad-padded_with pad block)

-- For every key and every message, demo_hmac_sha1 is the HMAC of RFC 2104 over the SHA-1 of
-- fips_sha1: the digest of the key's block XOR 0x5c and of the digest of the key's block XOR 0x36
-- and the message. The key's block is the key, hashed if it is longer than 64 bytes, filled up
-- with zeros.
pub demo_hmac_sha1_lem :
    (key bytes : List ℕ)
    → demo_hmac_sha1 key bytes
      ≡ fips_sha1 (
          padded_with 0x5c (block_key key) ++ fips_sha1 (padded_with 0x36 (block_key key) ++ bytes))
unfolding demo_hmac_sha1
demo_hmac_sha1_lem key bytes =
    hmac_of _ bytes
    ∙ ap (λ k. fips_sha1 (xor_pad 0x5c k ++ fips_sha1 (xor_pad 0x36 k ++ bytes)))
        (key_block_lem key)
    ∙ ap₂ (λ outer inner. fips_sha1 (outer ++ fips_sha1 (inner ++ bytes)))
        (xor_pad-padded_with 0x5c (block_key key)) (xor_pad-padded_with 0x36 (block_key key))

-- The session key is the digest of the password, the left and the right nonce, one after the
-- other.
pub demo_derive_session_key_lem :
    (password left right : List ℕ)
    → demo_derive_session_key password left right ≡ fips_sha1 ((password ++ left) ++ right)
unfolding demo_derive_session_key
demo_derive_session_key_lem password left right =
    ap (λ c. sha1_final (sha1_update (sha1_update c left) right)) (one_update password)
    ∙ ap (λ c. sha1_final (sha1_update c right)) (update-context_of password left)
    ∙ ap sha1_final (update-context_of (password ++ left) right)
    ∙ final-context_of_fips ((password ++ left) ++ right)

-- A test that every number under a bound passes.
unfoldable pub passes : (ℕ → Bool) → ℕ → Bool
passes test zero = true
passes test (suc bound) = passes test bound && test bound

pub passes_lem :
    (test : ℕ → Bool) (bound a : ℕ) → a < bound → passes test bound ≡ true → test a ≡ true
unfolding passes
passes_lem test zero a small h = absurd (omega arith)
passes_lem test (suc bound) a small h = ground (arith, passes_lem test bound a)

-- The test of `bit_xor` at all pairs of bytes, by evaluation.
xor_table : passes (λ a. passes (λ b. u8 (bit_xor (u8 (bit_xor a b)) b) == a) 256) 256 ≡ true
unfolding passes
xor_table = refl

xor_twice : (a b : ℕ) → IsByte a → IsByte b → u8 (bit_xor (u8 (bit_xor a b)) b) ≡ a
xor_twice a b ha hb = (==_iff _ a).0 (passes_lem _ 256 b hb (passes_lem _ 256 a ha xor_table))

key-IsByte : (key : List ℕ) (i : ℕ) → IsBytes key → IsByte (get_or key i 0)
key-IsByte [] i h = omega arith
key-IsByte (k ∷ key) zero h = h.0
key-IsByte (k ∷ key) (suc i) h = key-IsByte key i h.1

xor_from_twice :
    (key : List ℕ) (i : ℕ) (bytes : List ℕ)
    → IsBytes key
    → IsBytes bytes
    → xor_from key i (xor_from key i bytes) ≡ bytes
unfolding xor_from
xor_from_twice key i [] hk hb = refl
xor_from_twice key i (b ∷ bytes) hk hb =
    ap₂ (λ x xs. x ∷ xs)
      (xor_twice b (get_or key (i % length key) 0) hb.0 (key-IsByte key (i % length key) hk))
      (xor_from_twice key (i + 1) bytes hk hb.1)

-- With any key of bytes, encrypting bytes a second time gives them back.
pub demo_xor_crypt_twice :
    (bytes key : List ℕ)
    → IsBytes bytes
    → IsBytes key
    → demo_xor_crypt (demo_xor_crypt bytes key) key ≡ bytes
unfolding demo_xor_crypt
demo_xor_crypt_twice bytes key hb hk = ground (arith, xor_from_twice key 0 bytes)

length-xor_from :
    (key : List ℕ) (i : ℕ) (bytes : List ℕ) → length (xor_from key i bytes) ≡ length bytes
unfolding xor_from
length-xor_from key i [] = refl
length-xor_from key i (b ∷ bytes) = ap suc (length-xor_from key (i + 1) bytes)

pub length-demo_xor_crypt : (bytes key : List ℕ) → length (demo_xor_crypt bytes key) ≡ length bytes
unfolding demo_xor_crypt
length-demo_xor_crypt bytes key = ground (arith, length-xor_from key 0 bytes)
