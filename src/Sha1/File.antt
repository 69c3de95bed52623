-- ===== src/Sha1/File.antt =====
-- sha1_file of src/sha1_util.c: reading in blocks gives the digest of the whole file.
use udp_secure_transfer.Prelude.{ℕ, zero, suc, ◌≤◌, ◌<◌, ◌≡◌, refl, arith, ap, ◌∙◌}
use udp_secure_transfer.Prelude.{
  List, [], ◌∷◌, length, take, drop, concat, All, some, none, false, IsBytes,
}
use udp_secure_transfer.Prelude.{length-take, length-drop, take-append-drop, true, ◌++◌}
use udp_secure_transfer.Sha1.{Sha1Context, fread_all, fread_blocks, sha1_file, sha1_final}
use udp_secure_transfer.Sha1.{update_all, sha1_init, sha1_update}
use udp_secure_transfer.Prelude.{All-take, All-drop, IsByte}
use udp_secure_transfer.Sha1.Padding.{fips_sha1, context_of, init-context_of}
use udp_secure_transfer.Sha1.Padding.{
  update_all-context_of, final-context_of_fips, update-context_of,
}

-- What `fread` returns until 0, put together, is the file, on any fuel that covers it.
pub concat-fread_all :
    (fuel size : ℕ) (bytes : List ℕ)
    → 0 < size
    → length bytes ≤ fuel
    → concat (fread_all fuel size bytes) ≡ bytes
unfolding fread_all
concat-fread_all zero size [] hs hf = refl
concat-fread_all zero size (x ∷ xs) hs hf = absurd (omega arith)
concat-fread_all (suc fuel) size [] hs hf = refl
concat-fread_all (suc fuel) size (x ∷ xs) hs hf = ground (
  arith,
  concat-fread_all fuel size (drop size (x ∷ xs)) hs,
  length-drop size (x ∷ xs),
  take-append-drop size (x ∷ xs),
)

-- Each block is a block of `fread`: not empty and not larger than asked for.
abbrev pub IsBlock : ℕ → List ℕ → Type 0
IsBlock size block = (0 < length block) × (length block ≤ size)

pub fread_all_cons :
    (fuel size x : ℕ) (xs : List ℕ)
    → fread_all (suc fuel) size (x ∷ xs)
      ≡ take size (x ∷ xs) ∷ fread_all fuel size (drop size (x ∷ xs))
unfolding fread_all
fread_all_cons fuel size x xs = ground arith

pub fread_all-IsBlock :
    (fuel size : ℕ) (bytes : List ℕ) → 0 < size → All (IsBlock size) (fread_all fuel size bytes)
fread_all-IsBlock zero size bytes hs = unfold fread_all in tt
fread_all-IsBlock (suc fuel) size [] hs = unfold fread_all in tt
fread_all-IsBlock (suc fuel) size (x ∷ xs) hs = rw fread_all_cons (
  (omega (arith, length-take size (x ∷ xs)), omega (arith, length-take size (x ∷ xs))),
  fread_all-IsBlock fuel size (drop size (x ∷ xs)) hs,
)

pub fread_all-IsBytes :
    (fuel size : ℕ) (bytes : List ℕ)
    → 0 < size
    → IsBytes bytes
    → All (λ b. IsBlock size b × IsBytes b) (fread_all fuel size bytes)
fread_all-IsBytes zero size bytes hs hb = unfold fread_all in tt
fread_all-IsBytes (suc fuel) size [] hs hb = unfold fread_all in tt
fread_all-IsBytes (suc fuel) size (x ∷ xs) hs hb = rw fread_all_cons (
  (
    (omega (arith, length-take size (x ∷ xs)), omega (arith, length-take size (x ∷ xs))),
    All-take IsByte size (x ∷ xs) hb,
  ),
  fread_all-IsBytes fuel size (drop size (x ∷ xs)) hs (All-drop IsByte size (x ∷ xs) hb),
)

-- Of an opened file, and of one that cannot be opened.
pub sha1_file_lem :
    (bytes : List ℕ)
    → (sha1_file (some (record { bytes = bytes; read_error = false })) ≡ some (fips_sha1 bytes))
      × (sha1_file (some (record { bytes = bytes; read_error = true })) ≡ none)
      × (sha1_file none ≡ none)
sha1_file_lem bytes = (whole, unfold sha1_file in refl, unfold sha1_file in refl)
  where
    whole : sha1_file (some (record { bytes = bytes; read_error = false })) ≡ some (fips_sha1 bytes)
    whole =
        unfold sha1_file in
        ap (λ c. some (sha1_final (update_all c (fread_blocks 4096 bytes)))) init-context_of
        ∙ ap (λ c. some (sha1_final c)) (update_all-context_of (fread_blocks 4096 bytes) [])
        ∙ ap (λ m. some (sha1_final (context_of m)))
            (concat-fread_all (length bytes) 4096 bytes (omega arith) (omega arith))
        ∙ ap some (final-context_of_fips bytes)

-- A message that is taken in block by block, however it is cut into blocks, has the digest that
-- fips_sha1 gives for the whole, and sha1_file, which reads blocks of 4096 bytes, returns this
-- digest for a file of these bytes that is opened and read without an error.
pub sha1_file-update_all :
    (blocks : List (List ℕ))
    → (sha1_final (update_all sha1_init blocks) ≡ fips_sha1 (concat blocks))
      × (sha1_file (some (record { bytes = concat blocks; read_error = false }))
          ≡ some (fips_sha1 (concat blocks)))
sha1_file-update_all blocks = (
  ap (λ c. sha1_final (update_all c blocks)) init-context_of
      ∙ ap sha1_final (update_all-context_of blocks [])
      ∙ final-context_of_fips (concat blocks),
  (sha1_file_lem (concat blocks)).0,
)

-- A digest has 20 bytes.
pub sha1_final_size :
    (ctx : Sha1Context) → (length (sha1_final ctx) ≡ 20) × IsBytes (sha1_final ctx)
unfolding sha1_final
sha1_final_size ctx = omega arith

pub fips_sha1_size :
    (message : List ℕ) → (length (fips_sha1 message) ≡ 20) × IsBytes (fips_sha1 message)
fips_sha1_size message = rw (← final-context_of_fips message) (sha1_final_size (context_of message))

-- The context after one update, and the digest after two.
pub one_update : (a : List ℕ) → sha1_update sha1_init a ≡ context_of a
one_update a = ap (λ c. sha1_update c a) init-context_of ∙ update-context_of [] a

pub digest_of_two :
    (a b : List ℕ) → sha1_final (sha1_update (sha1_update sha1_init a) b) ≡ fips_sha1 (a ++ b)
digest_of_two a b =
    ap (λ c. sha1_final (sha1_update c b)) (one_update a)
    ∙ ap sha1_final (update-context_of a b)
    ∙ final-context_of_fips (a ++ b)
