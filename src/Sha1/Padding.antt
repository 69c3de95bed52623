-- ===== src/Sha1/Padding.antt =====
-- The digest functions of src/sha1_util.c against SHA-1 as FIPS 180 describes it: pad the whole
-- message, cut it into blocks of 64 bytes, and run the compression over them.
use udp_secure_transfer.Prelude.{ℕ, zero, suc, ◌+◌, ◌-◌, ◌*◌, ◌/◌, ◌%◌, ◌<◌, ◌≡◌, refl, ◌≢◌}
use udp_secure_transfer.Prelude.{arith, ap, sym, ◌∙◌, List, [], ◌∷◌, ◌++◌, length, take, drop}
use udp_secure_transfer.Prelude.{length-append, length-take, length-drop, append-nil, append_assoc}
use udp_secure_transfer.Prelude.{◌^◌, ap₂, bit_and_byte}
use udp_secure_transfer.Prelude.{take-append-drop, replicate, length-replicate, concat, u64}
use native.Mathlib.Decide.{ℕ_discrete}
use udp_secure_transfer.Sha1.{Sha1Context, sha1_init, sha1_update, sha1_final, pad_zeros, initial}
use udp_secure_transfer.Sha1.{length_bytes, word_bytes, byte_of, digest_bytes, update_all, sha1}
use udp_secure_transfer.Sha1.Transform.{Registers, sha1_transform}
use udp_secure_transfer.Sha1.Stream.{absorb, feed, feed-append, feed_full, feed_buffer_lt}
use udp_secure_transfer.Sha1.Stream.{update_loop-eq-feed}

-- The number of zero bytes that bring a message with its 0x80 byte to 56 modulo 64.
abbrev pub zero_count : ℕ → ℕ
zero_count len = (119 - len % 64) % 64

-- The number `n` as `count` bytes, the highest first.
abbrev big_endian : ℕ → ℕ → List ℕ
big_endian zero n = []
big_endian (suc count) n = (n / 256 ^ count % 256) ∷ big_endian count n

-- The one bit as the byte 0x80, zero bytes, and the length in bits as 64 bits.
abbrev pub padding : ℕ → List ℕ
padding len = 0x80 ∷ replicate (zero_count len) 0x00 ++ big_endian 8 (len * 8 % 2 ^ 64)

-- The initial hash value of FIPS 180, as the digits of the standard's five words.
abbrev fips_initial : Registers
fips_initial = record {
  h0 = 1732584193;
  h1 = 4023233417;
  h2 = 2562383102;
  h3 = 271733878;
  h4 = 3285377520;
}

-- The message digest: the five words, the first one first.
abbrev fips_digest : Registers → List ℕ
fips_digest r =
    big_endian 4 r.h0
    ++ big_endian 4 r.h1
    ++ big_endian 4 r.h2
    ++ big_endian 4 r.h3
    ++ big_endian 4 r.h4

pub compress_blocks : ℕ → Registers → List ℕ → Registers
compress_blocks zero r message = r
compress_blocks (suc n) r message =
    compress_blocks n (sha1_transform r (take 64 message)) (drop 64 message)

unfoldable pub fips_sha1 : List ℕ → List ℕ
fips_sha1 message =
    let padded = message ++ padding (length message) in
    fips_digest (compress_blocks (length padded / 64) fips_initial padded)

byte_of_lem : (value shift : ℕ) → byte_of value shift ≡ value / 2 ^ shift % 256
byte_of_lem value shift = omega (arith, bit_and_byte (value / 2 ^ shift))

-- What the code writes as the length and as the digest.
length_bytes-eq-big_endian : (n : ℕ) → length_bytes n ≡ big_endian 8 n
unfolding length_bytes
length_bytes-eq-big_endian n =
    rw
      (
        byte_of_lem n 56,
        byte_of_lem n 48,
        byte_of_lem n 40,
        byte_of_lem n 32,
        byte_of_lem n 24,
        byte_of_lem n 16,
        byte_of_lem n 8,
        byte_of_lem n 0,
      )
      refl

word_bytes-eq-big_endian : (h : ℕ) → word_bytes h ≡ big_endian 4 h
unfolding word_bytes
word_bytes-eq-big_endian h =
    rw (byte_of_lem h 24, byte_of_lem h 16, byte_of_lem h 8, byte_of_lem h 0) refl

digest_bytes-eq-fips_digest : (r : Registers) → digest_bytes r ≡ fips_digest r
unfolding digest_bytes
digest_bytes-eq-fips_digest r =
    ap₂ (λ a rest. a ++ rest) (word_bytes-eq-big_endian r.h0)
      (ap₂ (λ a rest. a ++ rest) (word_bytes-eq-big_endian r.h1)
        (ap₂ (λ a rest. a ++ rest) (word_bytes-eq-big_endian r.h2)
          (ap₂ (λ a rest. a ++ rest) (word_bytes-eq-big_endian r.h3)
            (word_bytes-eq-big_endian r.h4))))

-- The context after `message`, however it was cut up.
pub context_of : List ℕ → Sha1Context
context_of message =
    let s = feed (initial, []) message in
    record { state = s.0; bit_count = u64 (length message * 8); buffer = s.1 }

pub update-context_of :
    (message bytes : List ℕ)
    → sha1_update (context_of message) bytes ≡ context_of (message ++ bytes)
unfolding sha1_update context_of
update-context_of message bytes =
    let s = feed (initial, []) message in
    let lt : length s.1 < 64 = feed_buffer_lt (initial, []) message (omega arith) in
    rw
      (
        update_loop-eq-feed (length bytes) s.0 s.1 bytes lt (omega arith),
        feed-append (initial, []) message bytes,
        length-append message bytes,
      )
      (ground arith)

pub init-context_of : sha1_init ≡ context_of []
unfolding sha1_init context_of feed
init-context_of = refl

pub buffer-length :
    (s : Registers × List ℕ) (xs : List ℕ)
    → length s.1 < 64
    → length (feed s xs).1 ≡ (length s.1 + length xs) % 64
unfolding feed absorb
buffer-length s [] h = omega arith
buffer-length s (x ∷ xs) h = ground (
  arith,
  length-append s.1 (x ∷ []),
  buffer-length (sha1_transform s.0 (s.1 ++ (x ∷ [])), []) xs,
  buffer-length (s.0, s.1 ++ (x ∷ [])) xs,
)

feed_blocks :
    (n : ℕ) (r : Registers) (xs : List ℕ)
    → length xs ≡ n * 64
    → feed (r, []) xs ≡ (compress_blocks n r xs, [])
feed_blocks zero r [] h = unfold feed compress_blocks in refl
feed_blocks zero r (x ∷ xs) h = absurd (omega arith)
feed_blocks (suc n) r xs h =
    ap (feed (r, [])) (sym (take-append-drop 64 xs))
    ∙ feed-append (r, []) (take 64 xs) (drop 64 xs)
    ∙ ap (λ s. feed s (drop 64 xs))
        (feed_full r [] (take 64 xs) (omega arith) (omega (arith, length-take 64 xs)))
    ∙ feed_blocks n (sha1_transform r (take 64 xs)) (drop 64 xs) (omega (arith, length-drop 64 xs))
    ∙ unfold compress_blocks in refl

buffer-context_of : (message : List ℕ) → length (context_of message).buffer ≡ length message % 64
unfolding context_of
buffer-context_of message = omega (arith, buffer-length (initial, []) message (omega arith))

zeros : ℕ → ℕ
zeros len = (120 - len % 64) % 64

pad_zeros_more :
    (fuel : ℕ) (ctx : Sha1Context)
    → length ctx.buffer ≢ 56
    → pad_zeros (suc fuel) ctx ≡ pad_zeros fuel (sha1_update ctx (0x00 ∷ []))
unfolding pad_zeros
pad_zeros_more fuel ctx h = ground arith

pad_zeros_done :
    (fuel : ℕ) (ctx : Sha1Context) → length ctx.buffer ≡ 56 → pad_zeros (suc fuel) ctx ≡ ctx
unfolding pad_zeros
pad_zeros_done fuel ctx h = ground arith

-- The loop adds zero bytes up to 56 modulo 64.
pad_zeros-context_of :
    (fuel : ℕ) (message : List ℕ)
    → zeros (length message) < fuel
    → pad_zeros fuel (context_of message)
      ≡ context_of (message ++ replicate (zeros (length message)) 0x00)
pad_zeros-context_of zero message h = absurd (omega arith)
pad_zeros-context_of (suc fuel) message h = elim (ℕ_discrete (length message % 64) 56) [
  | yes there ↦
      let none_left : zeros (length message) ≡ 0 = unfold zeros in omega arith in
      pad_zeros_done fuel (context_of message) (buffer-context_of message ∙ there)
      ∙ ap context_of (rw none_left (sym (append-nil message)))
  | no more ↦
      let longer : List ℕ = message ++ (0x00 ∷ []) in
      let len : length longer ≡ length message + 1 = length-append message (0x00 ∷ []) in
      let step : zeros (length message) ≡ suc (zeros (length longer)) =
        unfold zeros in omega (arith, len) in
      pad_zeros_more fuel (context_of message)
        (λ e. more (omega (arith, buffer-context_of message, e)))
      ∙ ap (pad_zeros fuel) (update-context_of message (0x00 ∷ []))
      ∙ pad_zeros-context_of fuel longer (omega arith)
      ∙ ap context_of
          (rw step (append_assoc message (0x00 ∷ []) (replicate (zeros (length longer)) 0x00)))
]

-- The context that sha1_final ends with is the one after the padded message.
final-context_of :
    (message : List ℕ)
    → sha1_final (context_of message)
      ≡ digest_bytes (context_of (message ++ padding (length message))).state
final-context_of message =
    let marked : List ℕ = message ++ (0x80 ∷ []) in
    let filled : List ℕ = marked ++ replicate (zeros (length marked)) 0x00 in
    let tail : List ℕ = length_bytes (u64 (length message * 8)) in
    let len : length marked ≡ length message + 1 = length-append message (0x80 ∷ []) in
    let count : zeros (length marked) ≡ zero_count (length message) =
      unfold zeros in omega (arith, len) in
    let runs : sha1_update (pad_zeros 64 (sha1_update (context_of message) (0x80 ∷ []))) tail
        ≡ context_of (filled ++ tail) =
      ap (λ c. sha1_update (pad_zeros 64 c) tail) (update-context_of message (0x80 ∷ []))
      ∙ ap (λ c. sha1_update c tail) (pad_zeros-context_of 64 marked (unfold zeros in omega arith))
      ∙ update-context_of filled tail in
    let same : filled ++ tail ≡ message ++ padding (length message) =
      rw (count, length_bytes-eq-big_endian (u64 (length message * 8))) (simp append_assoc) in
    unfold sha1_final context_of in
    ap (λ c. digest_bytes c.state) runs ∙ ap (λ m. digest_bytes (context_of m).state) same

padded_length :
    (message : List ℕ)
    → length (message ++ padding (length message))
      ≡ length (message ++ padding (length message)) / 64 * 64
padded_length message = omega (
  arith,
  length-append message (padding (length message)),
  length-append (replicate (zero_count (length message)) 0x00)
      (big_endian 8 (length message * 8 % 2 ^ 64)),
  length-replicate {A = ℕ} (zero_count (length message)) 0x00,
)

-- For every message the context that has taken it in yields the FIPS 180 digest.
pub final-context_of_fips : (message : List ℕ) → sha1_final (context_of message) ≡ fips_sha1 message
unfolding fips_sha1
final-context_of_fips message =
    let padded : List ℕ = message ++ padding (length message) in
    final-context_of message
    ∙ unfold context_of in
      ap (λ s. digest_bytes s.0)
        (feed_blocks (length padded / 64) initial padded (padded_length message))
      ∙ digest_bytes-eq-fips_digest (compress_blocks (length padded / 64) initial padded)

-- One sha1_init, sha1_update and sha1_final over a message give the digest that FIPS 180
-- defines: the message with the byte 0x80, zeros and its length in bits as 64 bits, the highest
-- byte first, is cut into blocks of 64 bytes, which change the standard's initial words one after
-- the other, and the last words are the digest, the highest byte of each first. The work on a
-- block is the code's own sha1_transform on both sides.
pub sha1-eq-fips : (message : List ℕ) → sha1 message ≡ fips_sha1 message
unfolding sha1
sha1-eq-fips message =
    ap (λ c. sha1_final (sha1_update c message)) init-context_of
    ∙ ap sha1_final (update-context_of [] message)
    ∙ final-context_of_fips message

-- Updates with the blocks of a message one by one leave the context of the whole message.
pub update_all-context_of :
    (blocks : List (List ℕ)) (message : List ℕ)
    → update_all (context_of message) blocks ≡ context_of (message ++ concat blocks)
unfolding update_all
update_all-context_of [] message = ap context_of (sym (append-nil message))
update_all-context_of (block ∷ blocks) message =
    ap (λ c. update_all c blocks) (update-context_of message block)
    ∙ update_all-context_of blocks (message ++ block)
    ∙ ap context_of (append_assoc message block (concat blocks))
