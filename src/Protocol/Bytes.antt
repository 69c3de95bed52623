-- ===== src/Protocol/Bytes.antt =====
-- put_u16, put_u32, get_u16 and get_u32 of src/protocol.c: integers in network byte order.
use udp_secure_transfer.Prelude.{ℕ, ◌+◌, ◌*◌, ◌/◌, ◌%◌, ◌^◌, ◌<◌, ◌≤◌, ◌≡◌, refl, arith}
use udp_secure_transfer.Prelude.{List, [], ◌∷◌, ◌++◌, length, drop, get_or, IsByte, IsBytes, IsU32}

-- `htons` and `htonl` put the highest byte first.
unfoldable pub put_u16 : ℕ → List ℕ
put_u16 value = (value / 2 ^ 8 % 2 ^ 8) ∷ (value % 2 ^ 8) ∷ []

unfoldable pub put_u32 : ℕ → List ℕ
put_u32 value =
    (value / 2 ^ 24 % 2 ^ 8)
    ∷ (value / 2 ^ 16 % 2 ^ 8)
    ∷ (value / 2 ^ 8 % 2 ^ 8)
    ∷ (value % 2 ^ 8)
    ∷ []

-- The byte `buf[i]`.
abbrev pub byte_at : List ℕ → ℕ → ℕ
byte_at buf i = get_or buf i 0

unfoldable pub get_u16 : List ℕ → ℕ
get_u16 buf = byte_at buf 0 * 2 ^ 8 + byte_at buf 1

unfoldable pub get_u32 : List ℕ → ℕ
get_u32 buf =
    byte_at buf 0 * 2 ^ 24 + byte_at buf 1 * 2 ^ 16 + byte_at buf 2 * 2 ^ 8 + byte_at buf 3

pub get_u16-put_u16 : (v : ℕ) (rest : List ℕ) → v < 2 ^ 16 → get_u16 (put_u16 v ++ rest) ≡ v
unfolding get_u16 put_u16
get_u16-put_u16 v rest h = omega arith

pub get_u32-put_u32 : (v : ℕ) (rest : List ℕ) → IsU32 v → get_u32 (put_u32 v ++ rest) ≡ v
unfolding get_u32 put_u32
get_u32-put_u32 v rest h = omega arith

pub put_u16-IsBytes : (v : ℕ) → IsBytes (put_u16 v)
unfolding put_u16
put_u16-IsBytes v = omega arith

pub put_u32-IsBytes : (v : ℕ) → IsBytes (put_u32 v)
unfolding put_u32
put_u32-IsBytes v = omega arith

-- What two bytes and four bytes say is written back as these bytes.
pub put_u16-get_u16 :
    (a b : ℕ) (rest : List ℕ) → IsByte a → IsByte b → put_u16 (get_u16 (a ∷ b ∷ rest)) ≡ a ∷ b ∷ []
unfolding get_u16 put_u16
put_u16-get_u16 a b rest ha hb = ground arith

pub put_u32-get_u32 :
    (a b c d : ℕ) (rest : List ℕ)
    → IsByte a
    → IsByte b
    → IsByte c
    → IsByte d
    → put_u32 (get_u32 (a ∷ b ∷ c ∷ d ∷ rest)) ≡ a ∷ b ∷ c ∷ d ∷ []
unfolding get_u32 put_u32
put_u32-get_u32 a b c d rest ha hb hc hd = ground arith

-- The first four bytes of a block, read and written back, and the rest of it.
pub put_u32-get_u32-drop :
    (xs : List ℕ) → IsBytes xs → 4 ≤ length xs → put_u32 (get_u32 xs) ++ drop 4 xs ≡ xs
put_u32-get_u32-drop [] b h = absurd (omega arith)
put_u32-get_u32-drop (x ∷ []) b h = absurd (omega arith)
put_u32-get_u32-drop (x ∷ y ∷ []) b h = absurd (omega arith)
put_u32-get_u32-drop (x ∷ y ∷ z ∷ []) b h = absurd (omega arith)
put_u32-get_u32-drop (x ∷ y ∷ z ∷ w ∷ xs) b h =
    rw (put_u32-get_u32 x y z w xs (omega arith) (omega arith) (omega arith) (omega arith)) refl
