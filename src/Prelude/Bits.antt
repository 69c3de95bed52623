-- ===== src/Prelude/Bits.antt =====
-- The bit operations on numbers, described digit by digit: the libraries have no lemmas on them.
use Prim.Native.Nat.{ℕ, zero, suc, ◌+◌, ◌*◌, ◌/◌, ◌%◌, ◌^◌, ◌≤◌, ◌<◌, min, differ, digits}
use Prim.Native.Nat.{bit_and, bit_and-bitwise, bit_xor, bit_xor-bitwise}
use mathlib.Core.Path.{◌≡◌, refl, ◌∙◌, ap}
use native.Mathlib.Omega.{arith}

-- The lowest `k` binary digits of a number, and `k` ones.
abbrev low : ℕ → ℕ → ℕ
low zero a = 0
low (suc k) a = low k (a / 2) * 2 + a % 2

abbrev ones : ℕ → ℕ
ones zero = 0
ones (suc k) = ones k * 2 + 1

-- The exclusive or of the lowest `k` digits: a digit is 1 if exactly one of the two is.
abbrev pub xor_bits : ℕ → ℕ → ℕ → ℕ
xor_bits zero a b = 0
xor_bits (suc k) a b = xor_bits k (a / 2) (b / 2) * 2 + (a % 2 + b % 2) % 2

low_eight : (a : ℕ) → low 8 a ≡ a % 2 ^ 8
low_eight a = omega arith

low_none : (k : ℕ) → low k 0 ≡ 0
low_none zero = refl
low_none (suc k) = omega (arith, low_none k)

digits-ones : (k n a : ℕ) → a ≤ n → digits (λ b. zero) min n a (ones k) ≡ low k a
digits-ones k zero zero h = omega (arith, low_none k)
digits-ones k zero (suc a) h = absurd (omega arith)
digits-ones k (suc n) zero h = omega (arith, low_none k)
digits-ones zero (suc n) (suc a) h = omega (arith, digits-ones zero n (suc a / 2) (omega arith))
digits-ones (suc k) (suc n) (suc a) h =
    let half : (ones k * 2 + 1) / 2 ≡ ones k = omega arith in
    let more : digits (λ b. zero) min n (suc a / 2) ((ones k * 2 + 1) / 2) ≡ low k (suc a / 2) =
      ap (digits (λ b. zero) min n (suc a / 2)) half ∙ digits-ones k n (suc a / 2) (omega arith) in
    omega (arith, more)

-- `a & 0xff` is the lowest byte.
pub bit_and_byte : (a : ℕ) → bit_and a 0xff ≡ a % 2 ^ 8
bit_and_byte a = bit_and-bitwise a 0xff ∙ digits-ones 8 a a (omega arith) ∙ low_eight a

differ_digits : (x y : ℕ) → x < 2 → y < 2 → differ x y ≡ (x + y) % 2
differ_digits zero y hx hy = omega arith
differ_digits (suc zero) zero hx hy = refl
differ_digits (suc zero) (suc zero) hx hy = refl
differ_digits (suc zero) (suc (suc y)) hx hy = absurd (omega arith)
differ_digits (suc (suc x)) y hx hy = absurd (omega arith)

xor_bits-zero : (k b : ℕ) → low k b ≡ xor_bits k 0 b
xor_bits-zero zero b = refl
xor_bits-zero (suc k) b = omega (arith, xor_bits-zero k (b / 2))

low-digits : (k n a b : ℕ) → a ≤ n → low k (digits (λ b. b) differ n a b) ≡ xor_bits k a b
low-digits zero n a b h = refl
low-digits (suc k) zero zero b h = xor_bits-zero (suc k) b
low-digits (suc k) zero (suc a) b h = absurd (omega arith)
low-digits (suc k) (suc n) zero b h = xor_bits-zero (suc k) b
low-digits (suc k) (suc n) (suc a) b h =
    let rest = digits (λ b. b) differ n (suc a / 2) (b / 2) in
    let digit = differ (suc a % 2) (b % 2) in
    let d : digit ≡ (suc a % 2 + b % 2) % 2 =
      differ_digits (suc a % 2) (b % 2) (omega arith) (omega arith) in
    let half : (rest * 2 + digit) / 2 ≡ rest = omega (arith, d) in
    let more : low k ((rest * 2 + digit) / 2) ≡ xor_bits k (suc a / 2) (b / 2) =
      ap (low k) half ∙ low-digits k n (suc a / 2) (b / 2) (omega arith) in
    omega (arith, d, more)

-- A byte's exclusive or is the one of its eight digits.
pub bit_xor_byte : (a b : ℕ) → bit_xor a b % 2 ^ 8 ≡ xor_bits 8 a b
bit_xor_byte a b =
    ap (λ n. n % 2 ^ 8) (bit_xor-bitwise a b)
    ∙ omega (arith, low_eight (digits (λ b. b) differ a a b))
    ∙ low-digits 8 a a b (omega arith)
