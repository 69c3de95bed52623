-- ===== src/Protocol/Config/Numeral.antt =====
-- What parse_port of src/protocol.c accepts, for any text.
use udp_secure_transfer.Prelude.{ℕ, ◌+◌, ◌-◌, ◌*◌, ◌≤◌, ◌≡◌, refl, arith, ap, sym, ◌∙◌}
use udp_secure_transfer.Prelude.{
  Bool, true, false, some, List, [], ◌∷◌, ◌++◌, length, All, ◌==◌, ==_iff,
}
use udp_secure_transfer.Prelude.{Bool-cases, inl, inr, ◌⊎◌}
use udp_secure_transfer.Protocol.Config.{is_space, is_digit, skip_spaces, scan_digits, Strtol}
use udp_secure_transfer.Protocol.Config.{
  digits_from, clamp_long, after_sign, strtol, number_between, parse_port,
}
use udp_secure_transfer.Protocol.Config.Numbers.{IsDigit, value}

-- Spaces, at most a plus sign, and digits up to the end that stand for a port.
pub record IsPort (text : List ℕ) (n : ℕ) : Type 0 where
  pub spaces : List ℕ
  pub sign : List ℕ
  pub number : List ℕ
  pub whole : text ≡ spaces ++ (sign ++ number)
  pub blank : All (λ c. is_space c ≡ true) spaces
  pub plus : (sign ≡ []) ⊎ (sign ≡ 43 ∷ [])
  pub decimal : All IsDigit number
  pub stands_for : value 0 number ≡ n
  pub positive : 1 ≤ n
  pub bounded : n ≤ 65535

skip_on : (c : ℕ) (text : List ℕ) → is_space c ≡ true → skip_spaces (c ∷ text) ≡ skip_spaces text
unfolding skip_spaces
skip_on c text h = ground (arith, h)

skip_ends : (c : ℕ) (text : List ℕ) → is_space c ≡ false → skip_spaces (c ∷ text) ≡ c ∷ text
unfolding skip_spaces
skip_ends c text h = ground (arith, h)

skip_split :
    (text : List ℕ)
    → (spaces : List ℕ) × (All (λ c. is_space c ≡ true) spaces)
      × (text ≡ spaces ++ skip_spaces text)
skip_split [] = ([], tt, unfold skip_spaces in refl)
skip_split (c ∷ text) = elim (Bool-cases (is_space c)) [
  | inl space ↦
      let (spaces, blank, e) = skip_split text in
      (
        c ∷ spaces,
        (space, blank),
        ap (λ l. c ∷ l) e ∙ ap (λ l. c ∷ (spaces ++ l)) (sym (skip_on c text space)),
      )
  | inr other ↦ ([], tt, sym (skip_ends c text other))
]

scan_step :
    (acc c : ℕ) (text : List ℕ)
    → is_digit c ≡ true
    → scan_digits acc (c ∷ text) ≡ scan_digits (acc * 10 + (c - 48)) text
unfolding scan_digits
scan_step acc c text h = ground (arith, h)

scan_stop :
    (acc c : ℕ) (text : List ℕ) → is_digit c ≡ false → scan_digits acc (c ∷ text) ≡ (acc, c ∷ text)
unfolding scan_digits
scan_stop acc c text h = ground (arith, h)

is_digit-IsDigit : (c : ℕ) → is_digit c ≡ true → IsDigit c
unfolding is_digit
is_digit-IsDigit c h = ground arith

-- If nothing is left behind the digits, then the text is digits, and the value is theirs.
scan_whole :
    (acc : ℕ) (text : List ℕ)
    → length (scan_digits acc text).1 ≡ 0
    → All IsDigit text × (value acc text ≡ (scan_digits acc text).0)
scan_whole acc [] h = (tt, unfold scan_digits in refl)
scan_whole acc (c ∷ text) h = elim (Bool-cases (is_digit c)) [
  | inl digit ↦
      let e = scan_step acc c text digit in
      let r = scan_whole (acc * 10 + (c - 48)) text (ap (λ s. length s.1) (sym e) ∙ h) in
      ((is_digit-IsDigit c digit, r.0), r.1 ∙ ap (λ s. s.0) (sym e))
  | inr other ↦ absurd (omega (arith, h, ap (λ s. length s.1) (scan_stop acc c text other)))
]

clamped :
    (p : ℕ × List ℕ)
    → (clamp_long false p).range_error ≡ false
    → ((clamp_long false p).size ≡ p.0) × ((clamp_long false p).rest ≡ p.1)
unfolding clamp_long
clamped (n, rest) h = (ground (arith, h), refl)

from_digit :
    (text t : List ℕ) (d : ℕ)
    → is_digit d ≡ true
    → digits_from text false (d ∷ t) ≡ clamp_long false (scan_digits 0 (d ∷ t))
unfolding digits_from
from_digit text t d h = ground (arith, h)

from_other :
    (text t : List ℕ) (negative : Bool) (d : ℕ)
    → is_digit d ≡ false
    → (digits_from text negative (d ∷ t)).size ≡ 0
unfolding digits_from
from_other text t negative d h = ground (arith, h)

-- What is read to the end and gives a positive value is digits.
digits_read :
    (text t : List ℕ) (r : Strtol)
    → digits_from text false t ≡ r
    → r.range_error ≡ false
    → length r.rest ≡ 0
    → 1 ≤ r.size
    → All IsDigit t × (value 0 t ≡ r.size)
digits_read text [] r e a b c = absurd (unfold digits_from in omega (arith, c, ap (λ x. x.size) e))
digits_read text (d ∷ t) r e a b c = elim (Bool-cases (is_digit d)) [
  | inl digit ↦
      let e' : clamp_long false (scan_digits 0 (d ∷ t)) ≡ r = sym (from_digit text t d digit) ∙ e in
      let s = clamped (scan_digits 0 (d ∷ t)) (ap (λ x. x.range_error) e' ∙ a) in
      let w = scan_whole 0 (d ∷ t) (ap length (sym s.1) ∙ ap (λ x. length x.rest) e' ∙ b) in
      (w.0, w.1 ∙ sym s.0 ∙ ap (λ x. x.size) e')
  | inr other ↦ absurd (omega (arith, c, ap (λ x. x.size) e, from_other text t false d other))
]

negative_none :
    (text t : List ℕ) (r : Strtol) → digits_from text true t ≡ r → r.negative ≡ false → r.size ≡ 0
unfolding digits_from clamp_long
negative_none text [] r e h = sym (ap (λ x. x.size) e)
negative_none text (d ∷ t) r e h = ground (arith, e, h)

-- The text behind the spaces.
sign_read :
    (text t : List ℕ) (r : Strtol)
    → after_sign text t ≡ r
    → r.range_error ≡ false
    → r.negative ≡ false
    → length r.rest ≡ 0
    → 1 ≤ r.size
    → (sign number : List ℕ) × (t ≡ sign ++ number)
      × ((sign ≡ []) ⊎ (sign ≡ 43 ∷ []))
      × All IsDigit number
      × (value 0 number ≡ r.size)
sign_read text [] r e a n b c =
    let w = digits_read text [] r (unfold after_sign in e) a b c in
    ([], [], refl, inl refl, w.0, w.1)
sign_read text (d ∷ t) r e a n b c = elim (Bool-cases (d == 45)) [
  | inl minus ↦
      let read : digits_from text true t ≡ r = unfold after_sign in ground (arith, e, minus) in
      absurd (omega (arith, c, negative_none text t r read n))
  | inr unlike ↦ elim (Bool-cases (d == 43)) [
    | inl plus ↦
        let read : digits_from text false t ≡ r =
          unfold after_sign in ground (arith, e, unlike, plus) in
        let w = digits_read text t r read a b c in
        (43 ∷ [], t, ap (λ x. x ∷ t) ((==_iff d 43).0 plus), inr refl, w.0, w.1)
    | inr unsigned ↦
        let read : digits_from text false (d ∷ t) ≡ r =
          unfold after_sign in ground (arith, e, unlike, unsigned) in
        let w = digits_read text (d ∷ t) r read a b c in ([], d ∷ t, refl, inl refl, w.0, w.1)
  ]
]

accepted_facts :
    (text : List ℕ) (n : ℕ)
    → parse_port (some text) ≡ some n
    → ((strtol text).range_error ≡ false)
      × ((strtol text).negative ≡ false)
      × (length (strtol text).rest ≡ 0)
      × ((strtol text).size ≡ n)
      × (1 ≤ n)
      × (n ≤ 65535)
unfolding parse_port number_between
accepted_facts text n h =
    (ground arith, ground arith, ground arith, ground arith, ground arith, ground arith)

-- A text that parse_port accepts, whatever it is, consists of spaces, at most one plus sign, and
-- decimal digits up to its end, and the port is the number of the digits, from 1 to 65535.
pub parse_port-IsPort : (text : List ℕ) (n : ℕ) → parse_port (some text) ≡ some n → IsPort text n
parse_port-IsPort text n h =
    let f = accepted_facts text n h in
    let (spaces, blank, split) = skip_split text in
    let (sign, number, e, plus, decimal, same) =
      sign_read text (skip_spaces text) (strtol text) (unfold strtol in refl) f.0 f.1 f.2
        (omega (arith, f.3, f.4)) in
    record {
      spaces = spaces;
      sign = sign;
      number = number;
      whole = split ∙ ap (λ l. spaces ++ l) e;
      blank = blank;
      plus = plus;
      decimal = decimal;
      stands_for = same ∙ f.3;
      positive = f.4;
      bounded = f.5;
    }
