-- ===== src/Protocol/Config.antt =====
-- parse_port and the env_* functions of src/protocol.c, and the C library's `strtol` in base 10,
-- on which they rest. A text is a C string's bytes; a NULL pointer, an unset variable, is `none`.
pub mod Numbers
pub mod Ranges
pub mod Numeral
use udp_secure_transfer.Prelude.{
  ℕ, zero, suc, ◌+◌, ◌-◌, ◌*◌, ◌^◌, Bool, true, false, not, ◌&&◌, ◌||◌,
}
use udp_secure_transfer.Prelude.{Option, none, some, List, [], ◌∷◌, length, ltb, leb, ◌==◌, codes}
use udp_secure_transfer.Prelude.{bytes_eq, if◌then◌else◌}

-- The characters of `isspace`.
unfoldable pub is_space : ℕ → Bool
is_space c = c == 32 || leb 9 c && leb c 13

unfoldable pub is_digit : ℕ → Bool
is_digit c = leb 48 c && leb c 57

unfoldable pub skip_spaces : List ℕ → List ℕ
unfolding is_space
skip_spaces [] = []
skip_spaces (c ∷ text) = if is_space c then skip_spaces text else c ∷ text

-- The value of the digits in front, behind `acc`, and what follows them.
unfoldable pub scan_digits : ℕ → List ℕ → ℕ × List ℕ
unfolding is_digit
scan_digits acc [] = (acc, [])
scan_digits acc (c ∷ text) =
    let rest = scan_digits (acc * 10 + (c - 48)) text in
    if is_digit c then rest else (acc, c ∷ text)

-- The value, a sign and a size; `rest` is the text at `*end`, and `range_error` is ERANGE.
pub record Strtol : Type 0 where
  pub negative : Bool
  pub size : ℕ
  pub rest : List ℕ
  pub range_error : Bool

-- A `long` has 64 bits: a larger value is cut to LONG_MAX or LONG_MIN.
clamp_long : Bool → ℕ × List ℕ → Strtol
clamp_long negative (value, rest) =
    let limit = if negative then 2 ^ 63 else 2 ^ 63 - 1 in
    record {
      negative = negative;
      size = if leb value limit then value else limit;
      rest = rest;
      range_error = ltb limit value;
    }

-- Without a digit the value is 0, and `*end` is the whole text.
digits_from : List ℕ → Bool → List ℕ → Strtol
digits_from text negative [] = record {
  negative = false;
  size = 0;
  rest = text;
  range_error = false;
}
digits_from text negative (c ∷ more) =
    if is_digit c
    then clamp_long negative (scan_digits 0 (c ∷ more))
    else record { negative = false; size = 0; rest = text; range_error = false }

after_sign : List ℕ → List ℕ → Strtol
after_sign text [] = digits_from text false []
after_sign text (c ∷ more) =
    if c == 45
    then digits_from text true more
    else if c == 43
    then digits_from text false more
    else digits_from text false (c ∷ more)

unfoldable pub strtol : List ℕ → Strtol
unfolding skip_spaces scan_digits is_digit clamp_long digits_from after_sign
strtol text = after_sign text (skip_spaces text)

-- A number that `strtol` reads from the whole text without an error, and that lies in a range of
-- positive numbers.
unfoldable pub number_between : ℕ → ℕ → List ℕ → Option ℕ
number_between lo hi text =
    let n = strtol text in
    if n.range_error || not (length n.rest == 0) || n.negative || ltb n.size lo || ltb hi n.size
    then none
    else some n.size

-- `value <= 0 || value > 65535` is -1; the pointer to the result is present.
unfoldable pub parse_port : Option (List ℕ) → Option ℕ
parse_port none = none
parse_port (some text) = if length text == 0 then none else number_between 1 65535 text

or_default : ℕ → Option ℕ → ℕ
or_default d none = d
or_default d (some n) = n

unfoldable pub env_number : ℕ → ℕ → ℕ → Option (List ℕ) → ℕ
unfolding or_default
env_number lo hi d none = d
env_number lo hi d (some text) =
    if length text == 0 then d else or_default d (number_between lo hi text)

-- The value of UDP_SECURE_TIMEOUT_MS is the argument, and so for the other three.
unfoldable pub env_timeout_ms : Option (List ℕ) → ℕ
env_timeout_ms text = env_number 200 120000 10000 text

unfoldable pub env_reliable_window_size : Option (List ℕ) → ℕ
env_reliable_window_size text = env_number 2 64 4 text

unfoldable pub env_reliable_timeout_ms : Option (List ℕ) → ℕ
env_reliable_timeout_ms text = env_number 50 10000 400 text

unfoldable pub protocol_is_reliable : Option (List ℕ) → Bool
protocol_is_reliable none = false
protocol_is_reliable (some name) = bytes_eq name (codes "udp-reliable")
