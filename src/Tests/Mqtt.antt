-- ===== src/Tests/Mqtt.antt =====
-- A length of two bytes, and a text behind a byte.
use udp_secure_transfer.Prelude.{ℕ, ◌<◌, ◌≤◌, ◌^◌, ◌≡◌, ◌⊎◌, arith, some, none, List, [], ◌∷◌, ◌++◌}
use udp_secure_transfer.Prelude.{length, codes}
use udp_secure_transfer.Mqtt.Codec.{encode_remaining_length, Encodes, encode_string, decode_string}
use udp_secure_transfer.Mqtt.Codec.{decode-encode_remaining_length, decode-encode_string}

decode-encode_remaining_length_example :
    ((300 < 2 ^ 28) × ((out : List ℕ) × Encodes 300 (7 ∷ []) out))
    ⊎ ((2 ^ 28 ≤ 300) × (encode_remaining_length 300 4 ≡ none))
decode-encode_remaining_length_example = decode-encode_remaining_length 300 (7 ∷ [])

decode-encode_string_example :
    (out : List ℕ) × (encode_string (codes "topic") 64 ≡ some out)
    × (decode_string ((16 ∷ []) ++ (out ++ (7 ∷ []))) 1 128
        ≡ some (codes "topic", length ((16 ∷ []) ++ out)))
decode-encode_string_example =
    decode-encode_string (16 ∷ []) (codes "topic") (7 ∷ []) 64 128 (omega arith) (omega arith)
      (omega arith)
