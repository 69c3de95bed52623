-- ===== src/Protocol/Hex/Array.antt =====
-- bytes_to_hex of src/protocol.c as writes to an array: each of them is inside it.
use udp_secure_transfer.Prelude.{ℕ, ◌+◌, ◌-◌, ◌*◌, ◌≤◌, ◌≡◌}
use udp_secure_transfer.Prelude.{some, List, ◌∷◌, ◌++◌, length, ltb, if◌then◌else◌}
use udp_secure_transfer.Prelude.{◌⊎◌}
use udp_secure_transfer.Protocol.Hex.{store, hex_from, sha1_to_hex}

-- What the loop comes to: the digits of some bytes in front, and the rest of the array as it was.
-- If it ends before the last byte, then there is no room for two more digits.
record Written (i : ℕ) (bytes front tail : List ℕ) : Type 0 where
  pub last : ℕ
  pub written : List ℕ
  pub left : List ℕ
  pub behind : List ℕ
  pub ends : hex_from i bytes (front ++ tail) ≡ some (last, (front ++ written) ++ behind)
  pub size : length (front ++ written) ≡ last * 2
  pub room : length written + length behind ≡ length tail
  pub digits_of : sha1_to_hex bytes ≡ written ++ left
  pub all : (length left ≡ 0) ⊎ (length behind ≤ 1)

-- The NUL behind the digits, or over the last one.
record Ended (written behind : List ℕ) (i : ℕ) : Type 0 where
  pub text : List ℕ
  pub over : List ℕ
  pub after : List ℕ
  pub stored :
      store
        (written ++ behind)
        (if ltb i (length (written ++ behind)) then i else length (written ++ behind) - 1)
        0
      ≡ some (text ++ 0 ∷ after)
  pub front : written ≡ text ++ over
  pub places : length text + length after + 1 ≡ length written + length behind
  pub kept : (length over ≡ 0) ⊎ (length behind ≡ 0)
