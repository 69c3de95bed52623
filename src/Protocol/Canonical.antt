-- ===== src/Protocol/Canonical.antt =====
-- parse_packet of src/protocol.c accepts nothing but what the build functions write.
use udp_secure_transfer.Prelude.{
  ℕ, ◌+◌, ◌≤◌, ◌≡◌, refl, ap, ◌∙◌, inl, inr, arith, Option, none, some,
}
use udp_secure_transfer.Prelude.{List, [], ◌∷◌, ◌++◌, length, drop, ◌==◌, ◌||◌, if◌then◌else◌}
use udp_secure_transfer.Prelude.{IsBytes, take, take_all, append-nil, length-drop, All-drop, IsByte}
use udp_secure_transfer.Protocol
use udp_secure_transfer.Protocol.{Packet, max_datagram}
use udp_secure_transfer.Protocol.Accepted
use udp_secure_transfer.Protocol.Accepted.{view, IsFeedback, type_cases}
use udp_secure_transfer.Protocol.Bytes.{put_u16, put_u32, get_u16, get_u32}
use udp_secure_transfer.Protocol.Bytes.{put_u16-get_u16, put_u32-get_u32, put_u32-get_u32-drop}
use udp_secure_transfer.Protocol.Build.{build_control_packet, build_pass_resp_packet}
use udp_secure_transfer.Protocol.Build.{build_data_packet, build_feedback_packet}
use udp_secure_transfer.Protocol.Build.{build_terminate_packet}
use udp_secure_transfer.Protocol.Parse.{parsed, parse_packet}
use udp_secure_transfer.Protocol.RoundTrip.{IsControl, HasNoNul, strlen-HasNoNul}

-- The build function for the packet's type, called with what the packet holds.
unfoldable pub rebuild : Packet → Option (List ℕ)
rebuild p =
    if p.type == Protocol.pass_resp
    then build_pass_resp_packet p.payload max_datagram
    else if p.type == Protocol.data_packet
    then build_data_packet p.packet_id p.payload p.payload_length max_datagram
    else if p.type == Protocol.terminate
    then build_terminate_packet p.payload max_datagram
    else if p.type == Protocol.ack || p.type == Protocol.nack
    then build_feedback_packet p.type p.ack_id p.window_size max_datagram
    else build_control_packet p.type max_datagram

nil_of_length : (xs : List ℕ) → length xs ≡ 0 → xs ≡ []
nil_of_length [] h = refl
nil_of_length (x ∷ xs) h = absurd (omega arith)

take_of_length : (n : ℕ) (xs : List ℕ) → length xs ≡ n → take n xs ≡ xs
take_of_length n xs h = rw (← h) (take_all xs)

two_words :
    (xs : List ℕ)
    → IsBytes xs
    → length xs ≡ 8
    → put_u32 (get_u32 xs) ++ put_u32 (get_u32 (drop 4 xs)) ≡ xs
two_words xs b h = cc (
  put_u32-get_u32-drop xs b (omega arith),
  put_u32-get_u32-drop (drop 4 xs) (All-drop IsByte 4 xs b) (omega (arith, length-drop 4 xs)),
  nil_of_length (drop 4 (drop 4 xs)) (omega (arith, length-drop 4 (drop 4 xs), length-drop 4 xs)),
  append-nil (put_u32 (get_u32 (drop 4 xs))),
)

module _ (a b c d e f : ℕ) (rest : List ℕ) (bytes : IsBytes (a ∷ b ∷ c ∷ d ∷ e ∷ f ∷ rest)) where
  abbrev buf : List ℕ
  buf = a ∷ b ∷ c ∷ d ∷ e ∷ f ∷ rest

  abbrev len : ℕ
  len = get_u32 (c ∷ d ∷ e ∷ f ∷ rest)

  header_bytes : put_u16 (get_u16 buf) ++ put_u32 len ≡ a ∷ b ∷ c ∷ d ∷ e ∷ f ∷ []
  header_bytes = simp (
    put_u16-get_u16 a b (c ∷ d ∷ e ∷ f ∷ rest) (omega arith) (omega arith),
    put_u32-get_u32 c d e f rest (omega arith) (omega arith) (omega arith) (omega arith),
  )

  rebuild-control :
      IsControl (get_u16 buf) → len ≡ 0 → length buf ≡ 6 → rebuild (view buf 0 0 0 none) ≡ some buf
  unfolding rebuild build_control_packet
  rebuild-control t l n = ground (arith, header_bytes, nil_of_length rest)

  rebuild-pass_resp :
      get_u16 buf ≡ Protocol.pass_resp
      → len ≤ 255
      → length buf ≡ 6 + len
      → HasNoNul rest
      → rebuild (view buf 0 0 0 (some rest)) ≡ some buf
  unfolding rebuild build_pass_resp_packet
  rebuild-pass_resp t l n text =
      ground (arith, header_bytes, strlen-HasNoNul rest text, take_all rest)

  rebuild-terminate :
      get_u16 buf ≡ Protocol.terminate
      → len ≡ 20
      → length buf ≡ 26
      → rebuild (view buf 0 0 0 (some rest)) ≡ some buf
  unfolding rebuild build_terminate_packet
  rebuild-terminate t l n = ground (arith, header_bytes, take_of_length 20 rest)

  rebuild-data :
      get_u16 buf ≡ Protocol.data_packet
      → len ≤ 1000
      → length buf ≡ 10 + len
      → rebuild (view buf (get_u32 rest) 0 0 (some (drop 4 rest))) ≡ some buf
  unfolding rebuild build_data_packet
  rebuild-data t l n = ground (
    arith,
    header_bytes,
    put_u32-get_u32-drop rest,
    length-drop 4 rest,
    take_of_length len (drop 4 rest),
  )

  rebuild-feedback :
      IsFeedback (get_u16 buf)
      → len ≡ 8
      → length buf ≡ 14
      → rebuild (view buf 0 (get_u32 rest) (get_u32 (drop 4 rest)) none) ≡ some buf
  unfolding rebuild build_feedback_packet
  rebuild-feedback t l n = ground (arith, header_bytes, two_words rest)

rebuild-parse_long :
    (a b c d e f : ℕ) (rest : List ℕ) (p : Packet)
    → IsBytes (a ∷ b ∷ c ∷ d ∷ e ∷ f ∷ rest)
    → parse_packet (some (a ∷ b ∷ c ∷ d ∷ e ∷ f ∷ rest)) ≡ parsed p
    → ((text : List ℕ) → p.type ≡ Protocol.pass_resp → p.payload ≡ some text → HasNoNul text)
    → rebuild p ≡ some (a ∷ b ∷ c ∷ d ∷ e ∷ f ∷ rest)
rebuild-parse_long a b c d e f rest p bytes h texts = elim (type_cases _ ok.0 ok.1) [
  | inl (inl t) ↦
      let v = Accepted.accepted_control _ p h t in
      rw v.2 (rebuild-control a b c d e f rest bytes t v.0 v.1)
  | inl (inr t) ↦
      let v = Accepted.accepted_pass_resp _ p h t in
      rw v.2 (
        rebuild-pass_resp a b c d e f rest bytes t v.0 v.1
          (texts rest (ap (λ q. q.type) v.2 ∙ t) (ap (λ q. q.payload) v.2)))
  | inr (inl t) ↦
      let v = Accepted.accepted_data _ p h t in
      rw v.2 (rebuild-data a b c d e f rest bytes t v.0 v.1)
  | inr (inr (inl t)) ↦
      let v = Accepted.accepted_terminate _ p h t in
      rw v.2 (rebuild-terminate a b c d e f rest bytes t v.0 v.1)
  | inr (inr (inr t)) ↦
      let v = Accepted.accepted_feedback _ p h t in
      rw v.2 (rebuild-feedback a b c d e f rest bytes t v.0 v.1)
]
  where
    ok :
        let buf : List ℕ = a ∷ b ∷ c ∷ d ∷ e ∷ f ∷ rest in
        (1 ≤ get_u16 buf) × (get_u16 buf ≤ 9) × (6 ≤ length buf) × (length buf ≤ 2048)
    ok = Accepted.accepted_header _ p h

-- A buffer of bytes that parse_packet accepts is what the build function for its type writes when
-- it is called with the parsed fields, if the payload of a PASS_RESP has no NUL byte: the build
-- function for PASS_RESP takes a C string, which ends at the first one.
pub rebuild-parse :
    (buf : List ℕ) (p : Packet)
    → IsBytes buf
    → parse_packet (some buf) ≡ parsed p
    → ((text : List ℕ) → p.type ≡ Protocol.pass_resp → p.payload ≡ some text → HasNoNul text)
    → rebuild p ≡ some buf
rebuild-parse (a ∷ b ∷ c ∷ d ∷ e ∷ f ∷ rest) p bytes h texts =
    rebuild-parse_long a b c d e f rest p bytes h texts
rebuild-parse buf p bytes h texts = absurd (omega (arith, Accepted.accepted_header _ p h))
