-- ===== src/Mqtt/Codec.antt =====
-- encode_remaining_length, decode_remaining_length, encode_string and decode_string, which
-- src/mqtt_demo_server.c and src/mqtt_demo_client.c have in the same words.
use udp_secure_transfer.Prelude.{
  ℕ, zero, suc, ◌+◌, ◌*◌, ◌/◌, ◌%◌, ◌≤◌, ◌<◌, ◌^◌, ◌≡◌, refl, arith, ap,
}
use udp_secure_transfer.Prelude.{sym, ◌∙◌, ◌||◌, Option, none, some, List, [], ◌∷◌, ◌++◌, length}
use udp_secure_transfer.Prelude.{take, drop, ltb, leb, ◌==◌, if◌then◌else◌, u32, front_of, rest_of}
use udp_secure_transfer.Prelude.{append_assoc, length-append, ◌⊎◌, inl, inr}
use native.Mathlib.Decide.{dec_lt}
use udp_secure_transfer.Protocol.Bytes.{put_u16, get_u16}

-- A length is at most 32 bits, so five turns are enough. `none` is -1.
unfoldable pub encode_from : ℕ → ℕ → ℕ → ℕ → Option (List ℕ)
encode_from zero len pos cap = none
encode_from (suc turns) len pos cap =
    let rest = len / 2 ^ 7 in
    let more : Option (List ℕ) = elim (encode_from turns rest (pos + 1) cap) [
      | none ↦ none
      | some out ↦ some ((len % 2 ^ 7 + 2 ^ 7) ∷ out)
    ] in
    if leb cap pos then none else if rest == 0 then some ((len % 2 ^ 7) ∷ []) else more

unfoldable pub encode_remaining_length : ℕ → ℕ → Option (List ℕ)
unfolding encode_from
encode_remaining_length len cap = encode_from 5 len 0 cap

-- The turns that are left of four, and the bytes from the index `i` on.
unfoldable pub decode_from : ℕ → List ℕ → ℕ → ℕ → ℕ → Option (ℕ × ℕ)
decode_from zero buf multiplier value i = none
decode_from (suc turns) [] multiplier value i = none
decode_from (suc turns) (b ∷ buf) multiplier value i =
    let value' = u32 (value + b % 2 ^ 7 * multiplier) in
    let rest = decode_from turns buf (u32 (multiplier * 128)) value' (i + 1) in
    if b / 2 ^ 7 % 2 == 0 then some (value', i + 1) else rest

-- `*out` and `*consumed` for `buf[0..cap)`; `none` is -1.
unfoldable pub decode_remaining_length : List ℕ → Option (ℕ × ℕ)
unfolding decode_from
decode_remaining_length buf = decode_from 4 buf 1 0 0

-- `none` is -1.
unfoldable pub encode_string : List ℕ → ℕ → Option (List ℕ)
encode_string str cap =
    if ltb 65535 (length str) || ltb cap (2 + length str)
    then none
    else some (put_u16 (length str) ++ str)

-- The text and the offset behind it, for `buf[0..cap)`; `none` is -1.
unfoldable pub decode_string : List ℕ → ℕ → ℕ → Option (List ℕ × ℕ)
decode_string buf offset out_size =
    let cap = length buf in
    let len = get_u16 (drop offset buf) in
    if ltb cap (offset + 2)
    then none
    else if ltb cap (offset + 2 + len)
    then none
    else if ltb out_size (len + 1)
    then none
    else some (take len (drop (offset + 2) buf), offset + 2 + len)

-- What is encoded in some bytes, and followed by others.
abbrev Trip : ℕ → List ℕ → List ℕ → Type 0
Trip len later out =
    (encode_remaining_length len 4 ≡ some out)
    × (decode_remaining_length (out ++ later) ≡ some (len, length out))

one_byte : (len : ℕ) (later : List ℕ) → len < 2 ^ 7 → Trip len later (len ∷ [])
unfolding encode_remaining_length decode_remaining_length
one_byte len later h = (ground arith, ground arith)

two_bytes :
    (len : ℕ) (later : List ℕ)
    → 2 ^ 7 ≤ len
    → len < 2 ^ 14
    → Trip len later ((len % 2 ^ 7 + 2 ^ 7) ∷ (len / 2 ^ 7) ∷ [])
unfolding encode_remaining_length decode_remaining_length
two_bytes len later h h' = (ground arith, ground arith)

three_bytes :
    (len : ℕ) (later : List ℕ)
    → 2 ^ 14 ≤ len
    → len < 2 ^ 21
    → Trip len later ((len % 2 ^ 7 + 2 ^ 7) ∷ (len / 2 ^ 7 % 2 ^ 7 + 2 ^ 7) ∷ (len / 2 ^ 14) ∷ [])
unfolding encode_remaining_length decode_remaining_length
three_bytes len later h h' = (ground arith, ground arith)

four_bytes :
    (len : ℕ) (later : List ℕ)
    → 2 ^ 21 ≤ len
    → len < 2 ^ 28
    → Trip len later (
        (len % 2 ^ 7 + 2 ^ 7)
        ∷ (len / 2 ^ 7 % 2 ^ 7 + 2 ^ 7)
        ∷ (len / 2 ^ 14 % 2 ^ 7 + 2 ^ 7)
        ∷ (len / 2 ^ 21)
        ∷ [])
unfolding encode_remaining_length decode_remaining_length
four_bytes len later h h' = (ground arith, ground arith)

too_long : (len : ℕ) → 2 ^ 28 ≤ len → encode_remaining_length len 4 ≡ none
unfolding encode_remaining_length
too_long len h = ground arith

-- The encoding of a length, which takes four bytes at most.
abbrev pub Encodes : ℕ → List ℕ → List ℕ → Type 0
Encodes len later out =
    (length out ≤ 4)
    × (encode_remaining_length len 4 ≡ some out)
    × (decode_remaining_length (out ++ later) ≡ some (len, length out))

in_four :
    (len : ℕ) (later out : List ℕ) → length out ≤ 4 → Trip len later out → Encodes len later out
in_four len later out h t = (h, t.0, t.1)

-- A length below 2 ^ 28 is encoded in at most four bytes, and read back from them with the number
-- of these bytes, whatever follows; a longer one does not fit the four bytes that there are.
pub decode-encode_remaining_length :
    (len : ℕ) (later : List ℕ)
    → ((len < 2 ^ 28) × ((out : List ℕ) × Encodes len later out))
      ⊎ ((2 ^ 28 ≤ len) × (encode_remaining_length len 4 ≡ none))
decode-encode_remaining_length len later = elim (dec_lt len (2 ^ 7)) [
  | yes h ↦ inl (omega arith, (_, in_four len later _ (omega arith) (one_byte len later h)))
  | no h ↦ elim (dec_lt len (2 ^ 14)) [
    | yes h' ↦
        inl (
          omega arith,
          (_, in_four len later _ (omega arith) (two_bytes len later (omega arith) h')),
        )
    | no h' ↦ elim (dec_lt len (2 ^ 21)) [
      | yes h'' ↦ inl (
        omega arith,
        (_, in_four len later _ (omega arith) (three_bytes len later (omega arith) h'')),
      )
      | no h'' ↦ elim (dec_lt len (2 ^ 28)) [
        | yes g ↦
            inl (g, (_, in_four len later _ (omega arith) (four_bytes len later (omega arith) g)))
        | no g ↦ inr (omega arith, too_long len (omega arith))
      ]
    ]
  ]
]

-- A text of at most 65535 bytes, for which there is room at both ends, is read back from where it
-- was written, and the offset is then behind it.
pub decode-encode_string :
    (front str later : List ℕ) (room out_size : ℕ)
    → length str ≤ 65535
    → 2 + length str ≤ room
    → length str < out_size
    → (out : List ℕ) × (encode_string str room ≡ some out)
      × (decode_string (front ++ (out ++ later)) (length front) out_size
          ≡ some (str, length (front ++ out)))
decode-encode_string front str later room out_size short fits fits' =
    let out : List ℕ = put_u16 (length str) ++ str in
    let head : length (put_u16 (length str)) ≡ 2 = unfold put_u16 in refl in
    let size : length out ≡ 2 + length str =
      length-append (put_u16 (length str)) str ∙ omega (arith, head) in
    let whole : length (front ++ (out ++ later)) ≡ length front + (2 + length str + length later) =
      length-append front (out ++ later) ∙ omega (arith, length-append out later, size) in
    let behind : drop (length front) (front ++ (out ++ later)) ≡ out ++ later =
      rest_of (length front) front (out ++ later) refl in
    let number : get_u16 (out ++ later) ≡ length str =
      unfold put_u16 in unfold get_u16 in omega arith in
    let text : drop (length front + 2) (front ++ (out ++ later)) ≡ str ++ later =
      ap (drop (length front + 2)) (
        ap (λ l. front ++ l) (append_assoc (put_u16 (length str)) str later)
        ∙ sym (append_assoc front (put_u16 (length str)) (str ++ later)))
      ∙ rest_of (length front + 2) (front ++ put_u16 (length str)) (str ++ later)
          (length-append front (put_u16 (length str)) ∙ omega (arith, head)) in
    (
      out,
      unfold encode_string in ground (arith, short, fits),
      unfold decode_string in
          rw (behind, text, number, front_of (length str) str later refl)
            (ground (arith, whole, size, length-append front out)),
    )
