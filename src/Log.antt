-- ===== src/Log.antt =====
-- The log of src/logger.c: one JSON object a line.
use udp_secure_transfer.Prelude.{ℕ, zero, suc, ◌+◌, ◌/◌, ◌%◌, Bool, true, false, not, ◌&&◌, ◌||◌}
use udp_secure_transfer.Prelude.{
  Option, none, some, List, [], ◌∷◌, ◌++◌, length, take, ltb, leb, ◌==◌,
}
use udp_secure_transfer.Prelude.{if◌then◌else◌, codes}
use udp_secure_transfer.Protocol
use udp_secure_transfer.Protocol.Config.Numbers.{digits}
use udp_secure_transfer.Sha1.{sha1_init, sha1_update, sha1_final}
pub mod Entry
pub mod Line
pub mod Uid

-- A lower-case hexadecimal digit.
abbrev pub hex_digit : ℕ → ℕ
hex_digit n = if ltb n 10 then 48 + n else 87 + n

-- `"\\u%04x"` for a byte.
abbrev unicode_escape : ℕ → List ℕ
unicode_escape c = 92 ∷ 117 ∷ 48 ∷ 48 ∷ hex_digit (c / 16) ∷ hex_digit (c % 16) ∷ []

-- The `switch` of json_escape.
unfoldable pub escape_char : ℕ → List ℕ
escape_char c =
    if c == 92
    then 92 ∷ 92 ∷ []
    else if c == 34
    then 92 ∷ 34 ∷ []
    else if c == 8
    then 92 ∷ 98 ∷ []
    else if c == 12
    then 92 ∷ 102 ∷ []
    else if c == 10
    then 92 ∷ 110 ∷ []
    else if c == 13
    then 92 ∷ 114 ∷ []
    else if c == 9
    then 92 ∷ 116 ∷ []
    else if ltb c 0x20
    then unicode_escape c
    else c ∷ []

-- `while (*p)`, on the bytes in front of the final NUL.
unfoldable pub escape_text : List ℕ → List ℕ
unfolding escape_char
escape_text [] = []
escape_text (c ∷ text) = escape_char c ++ escape_text text

unfoldable pub json_escape : Option (List ℕ) → List ℕ
unfolding escape_text
json_escape none = 34 ∷ 34 ∷ []
json_escape (some text) = 34 ∷ (escape_text text ++ 34 ∷ [])

-- An `int`: LOG_INT_UNSET, a number from 0 on, or minus a number other than LOG_INT_UNSET's.
pub data LogInt : Type 0 where
  unset : LogInt
  nonnegative : ℕ → LogInt
  negative : ℕ → LogInt

-- `first`, and what has been written.
pub record Output : Type 0 where
  pub first : Bool
  pub text : List ℕ

-- The comma, the key and the colon, and then the value.
abbrev pub put_field : Output → List ℕ → List ℕ → Output
put_field o key value = record {
  first = false;
  text = o.text ++ ((if o.first then [] else 44 ∷ []) ++ (json_escape (some key) ++ (58 ∷ value)));
}

unfoldable pub write_string_field : Output → List ℕ → Option (List ℕ) → Output
unfolding json_escape
write_string_field o key none = o
write_string_field o key (some value) = put_field o key (json_escape (some value))

-- `":%d"`: an `int` has at most 10 digits.
unfoldable pub write_int_field : Output → List ℕ → LogInt → Output
unfolding json_escape
write_int_field o key unset = o
write_int_field o key (nonnegative n) = put_field o key (digits 10 n)
write_int_field o key (negative n) = put_field o key (45 ∷ digits 10 n)

-- A `pid_t` of 0 or less stands for none.
unfoldable pub write_pid_field : Output → List ℕ → ℕ → Output
unfolding json_escape
write_pid_field o key pid = if pid == 0 then o else put_field o key (digits 19 pid)

-- `value ? "true" : "false"`
unfoldable pub write_bool_field : Output → List ℕ → LogInt → Output
unfolding json_escape
write_bool_field o key unset = o
write_bool_field o key (nonnegative zero) = put_field o key (codes "false")
write_bool_field o key (nonnegative (suc n)) = put_field o key (codes "true")
write_bool_field o key (negative n) = put_field o key (codes "true")
