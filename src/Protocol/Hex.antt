-- ===== src/Protocol/Hex.antt =====
-- packet_type_name and bytes_to_hex of src/protocol.c and sha1_to_hex of src/sha1_util.c.
pub mod Array
use udp_secure_transfer.Prelude.{
  ℕ, zero, suc, ◌+◌, ◌-◌, ◌*◌, ◌/◌, ◌%◌, ◌≤◌, ◌<◌, ◌≡◌, refl, arith, ap, ap₂,
}
use udp_secure_transfer.Prelude.{◌∙◌, Option, none, some, List, [], ◌∷◌, length, ltb, leb, set}
use udp_secure_transfer.Prelude.{◌==◌, if◌then◌else◌, IsByte, IsBytes, codes}
use udp_secure_transfer.Protocol
use udp_secure_transfer.Log.{hex_digit}

unfoldable pub packet_type_name : ℕ → List ℕ
packet_type_name type =
    if type == Protocol.join_req
    then codes "JOIN_REQ"
    else if type == Protocol.pass_req
    then codes "PASS_REQ"
    else if type == Protocol.pass_resp
    then codes "PASS_RESP"
    else if type == Protocol.pass_accept
    then codes "PASS_ACCEPT"
    else if type == Protocol.data_packet
    then codes "DATA"
    else if type == Protocol.terminate
    then codes "TERMINATE"
    else if type == Protocol.reject
    then codes "REJECT"
    else if type == Protocol.ack
    then codes "ACK"
    else if type == Protocol.nack
    then codes "NACK"
    else codes "UNKNOWN"

-- `out[i] = c`; `none` is a write outside the array.
unfoldable pub store : List ℕ → ℕ → ℕ → Option (List ℕ)
store out i c = if ltb i (length out) then some (set out i c) else none

-- The two digits of a byte.
unfoldable pub put_hex : ℕ → ℕ → List ℕ → Option (List ℕ)
unfolding store
put_hex i b out = elim (store out (i * 2) (hex_digit (b / 16 % 16))) [
  | none ↦ none
  | some out' ↦ store out' (i * 2 + 1) (hex_digit (b % 16))
]

-- The loop of bytes_to_hex from the index `i` on, with the index it ends at.
unfoldable pub hex_from : ℕ → List ℕ → List ℕ → Option (ℕ × List ℕ)
unfolding put_hex
hex_from i [] out = some (i, out)
hex_from i (b ∷ bytes) out =
    if leb (i * 2 + 2) (length out)
    then elim (put_hex i b out) [ none ↦ none | some out' ↦ hex_from (i + 1) bytes out' ]
    else some (i, out)

-- The array `out` after the call, an `out_size` of 0 included; the pointer to it is present.
-- `none` is a write outside the array.
unfoldable pub bytes_to_hex : Option (List ℕ) → List ℕ → Option (List ℕ)
unfolding hex_from store
bytes_to_hex bytes [] = some []
bytes_to_hex none (c ∷ out) = store (c ∷ out) 0 0
bytes_to_hex (some bytes) (c ∷ out) = elim (hex_from 0 bytes (c ∷ out)) [
  | none ↦ none
  | some (i, out') ↦ store out' (if ltb (i * 2) (length out') then i * 2 else length out' - 1) 0
]

-- The digits of a digest, without the NUL.
unfoldable pub sha1_to_hex : List ℕ → List ℕ
sha1_to_hex [] = []
sha1_to_hex (b ∷ digest) = hex_digit (b / 16 % 16) ∷ hex_digit (b % 16) ∷ sha1_to_hex digest

-- The bytes that hexadecimal digits stand for.
abbrev digit_value : ℕ → ℕ
digit_value c = if ltb c 58 then c - 48 else c - 87

abbrev pub from_hex : List ℕ → List ℕ
from_hex [] = []
from_hex (a ∷ []) = []
from_hex (a ∷ b ∷ text) = (digit_value a * 16 + digit_value b) ∷ from_hex text

value_of_digit : (n : ℕ) → n < 16 → digit_value (hex_digit n) ≡ n
value_of_digit n h = ground arith

byte_of_digits :
    (b : ℕ)
    → IsByte b
    → digit_value (hex_digit (b / 16 % 16)) * 16 + digit_value (hex_digit (b % 16)) ≡ b
byte_of_digits b h =
    rw (value_of_digit (b / 16 % 16) (omega arith), value_of_digit (b % 16) (omega arith))
      (omega arith)

-- The digits that are written for a digest stand for its bytes.
pub from_hex-sha1_to_hex :
    (digest : List ℕ) → IsBytes digest → from_hex (sha1_to_hex digest) ≡ digest
unfolding sha1_to_hex
from_hex-sha1_to_hex [] h = refl
from_hex-sha1_to_hex (b ∷ digest) h =
    ap₂ (λ x xs. x ∷ xs) (byte_of_digits b h.0) (from_hex-sha1_to_hex digest h.1)

pub length-sha1_to_hex : (bytes : List ℕ) → length (sha1_to_hex bytes) ≡ 2 * length bytes
unfolding sha1_to_hex
length-sha1_to_hex [] = refl
length-sha1_to_hex (b ∷ bytes) = omega (arith, length-sha1_to_hex bytes)
