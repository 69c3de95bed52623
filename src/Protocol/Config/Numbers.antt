-- ===== src/Protocol/Config/Numbers.antt =====
-- Decimal numbers, as they are printed, are read back by the parsers of src/protocol.c.
use udp_secure_transfer.Prelude.{ℕ, zero, suc, ◌+◌, ◌-◌, ◌*◌, ◌/◌, ◌%◌, ◌^◌, ◌≤◌, ◌<◌, ◌≡◌, refl}
use udp_secure_transfer.Prelude.{arith, ap, ◌∙◌, false, none, some}
use udp_secure_transfer.Prelude.{List, [], ◌∷◌, ◌++◌, length, ltb, leb, All, if◌then◌else◌, ◌&&◌}
use udp_secure_transfer.Prelude.{length-append, All-append, Bool-cases, inl, inr}
use native.Mathlib.Nat.{pow-suc}
use udp_secure_transfer.Protocol.Config.{is_digit, scan_digits, strtol}
use udp_secure_transfer.Protocol.Config.{number_between, parse_port}

-- The digits of a number, the highest first; a number below `10 ^ fuel` needs no more fuel.
unfoldable pub digits : ℕ → ℕ → List ℕ
digits zero n = []
digits (suc fuel) n =
    let front = digits fuel (n / 10) in
    if ltb n 10 then (48 + n) ∷ [] else front ++ (48 + n % 10) ∷ []

abbrev pub IsDigit : ℕ → Type 0
IsDigit c = (48 ≤ c) × (c ≤ 57)

abbrev pub value : ℕ → List ℕ → ℕ
value acc [] = acc
value acc (c ∷ text) = value (acc * 10 + (c - 48)) text

value-append :
    (acc : ℕ) (xs : List ℕ) (c : ℕ) → value acc (xs ++ c ∷ []) ≡ value acc xs * 10 + (c - 48)
value-append acc [] c = refl
value-append acc (x ∷ xs) c = value-append (acc * 10 + (x - 48)) xs c

digits-IsDigit : (fuel n : ℕ) → All IsDigit (digits fuel n)
unfolding digits
digits-IsDigit zero n = tt
digits-IsDigit (suc fuel) n = elim (Bool-cases (ltb n 10)) [
  | inl short ↦ rw short (ground arith)
  | inr long ↦ rw long (
      All-append IsDigit (digits fuel (n / 10)) ((48 + n % 10) ∷ []) (digits-IsDigit fuel (n / 10))
        (omega arith))
]

value-digits : (fuel n : ℕ) → n < 10 ^ fuel → value 0 (digits fuel n) ≡ n
unfolding digits
value-digits zero n h = omega arith
value-digits (suc fuel) n h = elim (Bool-cases (ltb n 10)) [
  | inl short ↦ rw short (omega arith)
  | inr long ↦
      rw (long, value-append 0 (digits fuel (n / 10)) (48 + n % 10))
        (omega (arith, value-digits fuel (n / 10) (omega (arith, pow-suc 10 fuel))))
]

scan-digits :
    (acc : ℕ) (text : List ℕ) → All IsDigit text → scan_digits acc text ≡ (value acc text, [])
unfolding scan_digits
scan-digits acc [] ok = refl
scan-digits acc (c ∷ text) ok = ground (arith, scan-digits (acc * 10 + (c - 48)) text)

-- A text of digits that is not empty has no space and no sign in front.
strtol-of_digits :
    (text : List ℕ)
    → All IsDigit text
    → 0 < length text
    → value 0 text < 2 ^ 63
    → strtol text ≡ record { negative = false; size = value 0 text; rest = []; range_error = false }
unfolding strtol
strtol-of_digits [] ok some_left small = absurd (omega arith)
strtol-of_digits (c ∷ text) ok some_left small = ground (arith, scan-digits 0 (c ∷ text) ok)

digits_some : (fuel n : ℕ) → 0 < length (digits (suc fuel) n)
unfolding digits
digits_some fuel n = elim (Bool-cases (ltb n 10)) [
  | inl short ↦ rw short (omega arith)
  | inr long ↦ rw long (omega (arith, length-append (digits fuel (n / 10)) ((48 + n % 10) ∷ [])))
]

strtol-digits :
    (n : ℕ)
    → n < 10 ^ 18
    → strtol (digits 18 n) ≡ record { negative = false; size = n; rest = []; range_error = false }
strtol-digits n h =
    let same : value 0 (digits 18 n) ≡ n = value-digits 18 n h in
    strtol-of_digits (digits 18 n) (digits-IsDigit 18 n) (digits_some 17 n) (rw same (omega arith))
    ∙ ap (λ k. record { negative = false; size = k; rest = []; range_error = false }) same

-- The digits end at the first byte that is none, and `*end` is there.
scan-digits_before :
    (acc : ℕ) (text : List ℕ) (c : ℕ) (more : List ℕ)
    → All IsDigit text
    → is_digit c ≡ false
    → scan_digits acc (text ++ c ∷ more) ≡ (value acc text, c ∷ more)
unfolding scan_digits
scan-digits_before acc [] c more ok other = ground arith
scan-digits_before acc (d ∷ text) c more ok other =
    ground (arith, scan-digits_before (acc * 10 + (d - 48)) text c more)

strtol-of_digits_before :
    (text : List ℕ) (c : ℕ) (more : List ℕ)
    → All IsDigit text
    → 0 < length text
    → value 0 text < 2 ^ 63
    → is_digit c ≡ false
    → strtol (text ++ c ∷ more)
      ≡ record { negative = false; size = value 0 text; rest = c ∷ more; range_error = false }
unfolding strtol
strtol-of_digits_before [] c more ok some_left small other = absurd (omega arith)
strtol-of_digits_before (d ∷ text) c more ok some_left small other =
    ground (arith, scan-digits_before 0 (d ∷ text) c more ok other)

-- A number below 10^18, written in decimal without leading zeros, is taken exactly when it is from
-- 1 to 65535, and then parse_port returns it. With anything behind it that does not begin with a
-- digit, it is refused.
pub parse_port-digits :
    (n c : ℕ) (more : List ℕ)
    → n < 10 ^ 18
    → is_digit c ≡ false
    → (parse_port (some (digits 18 n)) ≡ (if leb 1 n && leb n 65535 then some n else none))
      × (parse_port (some (digits 18 n ++ c ∷ more)) ≡ none)
unfolding parse_port number_between
parse_port-digits n c more h other =
    let same : value 0 (digits 18 n) ≡ n = value-digits 18 n h in
    let reads =
      strtol-of_digits_before (digits 18 n) c more (digits-IsDigit 18 n) (digits_some 17 n)
        (rw same (omega arith)) other in
    (
      ground (arith, strtol-digits n h, digits_some 17 n),
      ground (arith, reads, length-append (digits 18 n) (c ∷ more)),
    )
