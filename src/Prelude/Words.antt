-- ===== src/Prelude/Words.antt =====
-- Bytes and machine words as numbers: the casts, and the text constants as byte lists.
use Prim.Native.Nat.{ℕ, ◌%◌, ◌^◌, ◌<◌}
use Prim.Native.Char.{code}
use Prim.Native.String.{String}
use mathlib.Core.List.{List, [], ◌∷◌}
use udp_secure_transfer.Prelude.Lists.{All}

abbrev pub u8 : ℕ → ℕ
u8 n = n % 2 ^ 8

abbrev pub u16 : ℕ → ℕ
u16 n = n % 2 ^ 16

abbrev pub u32 : ℕ → ℕ
u32 n = n % 2 ^ 32

abbrev pub u64 : ℕ → ℕ
u64 n = n % 2 ^ 64

abbrev pub IsByte : ℕ → Type 0
IsByte b = b < 256

abbrev pub IsBytes : List ℕ → Type 0
IsBytes bs = All IsByte bs

abbrev pub IsU32 : ℕ → Type 0
IsU32 n = n < 2 ^ 32

-- The bytes of an ASCII text, without the final NUL of a C string.
abbrev pub codes : String → List ℕ
codes String.[] = []
codes (String.◌∷◌ c s) = code c ∷ codes s
