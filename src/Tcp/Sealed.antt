-- ===== src/Tcp/Sealed.antt =====
-- Which records verify_tls_app_data of src/tcp_demo_client.c takes.
use udp_secure_transfer.Prelude.{ℕ, ◌+◌, ◌-◌, ◌≤◌, ◌<◌, ◌≡◌, refl, arith, ap, ◌∙◌}
use udp_secure_transfer.Prelude.{Bool, true, false, not, some, List, [], ◌∷◌, ◌++◌}
use udp_secure_transfer.Prelude.{length, take, drop, replicate, u8, bit_xor, IsBytes, IsU32}
use udp_secure_transfer.Prelude.{◌==◌, bytes_eq, bytes_eq_iff, if◌then◌else◌, Bool-cases}
use udp_secure_transfer.Prelude.{front_of, rest_of, take_of_le, length-append, inl, inr}
use udp_secure_transfer.Protocol.Bytes.{put_u32, get_u32, get_u32-put_u32}
use udp_secure_transfer.Sha1.File.{fips_sha1_size}
use udp_secure_transfer.Demo.Frame.{DemoFrame}
use udp_secure_transfer.Demo.Digest.{demo_hmac_sha1, demo_hmac_sha1_lem, demo_xor_crypt}
use udp_secure_transfer.Demo.Digest.{
  demo_xor_crypt_twice, length-demo_xor_crypt, passes, passes_lem,
}
use udp_secure_transfer.Tcp.Record.{tls_app_mac, tampered, tls_payload_app_data}
use udp_secure_transfer.Tcp.Record.{verified, mac_fail, Writer, verify_tls_app_data}

-- A record with the number `seq`, a keyed digest and what is encrypted.
abbrev pub sealed : ℕ → List ℕ → List ℕ → List ℕ
sealed seq mac cipher = put_u32 seq ++ (mac ++ cipher)

abbrev pub frame_of : ℕ → List ℕ → DemoFrame
frame_of type payload = record { type = type; length = length payload; payload = payload }

mac_size :
    (seq : ℕ) (cipher key : List ℕ)
    → (length (tls_app_mac true seq cipher key) ≡ 20) × IsBytes (tls_app_mac true seq cipher key)
unfolding tls_app_mac
mac_size seq cipher key = rw (demo_hmac_sha1_lem key (put_u32 seq ++ cipher)) (fips_sha1_size _)

sealed_size :
    (seq : ℕ) (mac cipher : List ℕ)
    → length mac ≡ 20
    → length (sealed seq mac cipher) ≡ length cipher + 24
unfolding put_u32
sealed_size seq mac cipher h = omega (arith, length-append mac cipher, h)

sealed_mac :
    (seq : ℕ) (mac cipher : List ℕ)
    → length mac ≡ 20
    → take 20 (drop 4 (sealed seq mac cipher)) ≡ mac
unfolding put_u32
sealed_mac seq mac cipher h = front_of 20 mac cipher h

sealed_cipher :
    (seq : ℕ) (mac cipher : List ℕ) → length mac ≡ 20 → drop 24 (sealed seq mac cipher) ≡ cipher
unfolding put_u32
sealed_cipher seq mac cipher h = rest_of 20 mac cipher h

-- What the verification of a record comes down to.
verify-sealed :
    (fwrite : Writer) (type seq : ℕ) (mac cipher key out : List ℕ) (seen : ℕ)
    → IsU32 seq
    → length mac ≡ 20
    → seen < seq
    → ((bytes : List ℕ) → fwrite bytes ≡ length bytes)
    → verify_tls_app_data true fwrite (frame_of type (sealed seq mac cipher)) key out seen ≡ (
        if bytes_eq mac (tls_app_mac true seq cipher key)
        then verified
            (take 24 (sealed seq mac cipher) ++ demo_xor_crypt cipher key)
            (out ++ demo_xor_crypt cipher key)
            seq
        else mac_fail)
unfolding verify_tls_app_data
verify-sealed fwrite type seq mac cipher key out seen hs size newer writes =
    let whole = sealed seq mac cipher in
    let s : get_u32 whole ≡ seq = get_u32-put_u32 seq (mac ++ cipher) hs in
    let n = sealed_size seq mac cipher size in
    let c : take (length whole - 4 - 20) (drop 24 whole) ≡ cipher =
      ap (λ l. take (length whole - 4 - 20) l) (sealed_cipher seq mac cipher size)
      ∙ take_of_le _ cipher (omega (arith, n)) in
    let m : take 20 (drop 4 whole) ≡ mac = sealed_mac seq mac cipher size in
    rw (s, c, m)
      (ground (arith, n, length-demo_xor_crypt cipher key, writes (demo_xor_crypt cipher key)))

-- A record as the server writes it.
abbrev pub record_of : ℕ → List ℕ → List ℕ → Bool → List ℕ
record_of seq plain key tamper =
    let cipher = demo_xor_crypt plain key in
    let mac = tls_app_mac true seq cipher key in
    sealed seq (if tamper then tampered mac else mac) cipher

pub tls_payload_app_data_lem :
    (seq : ℕ) (plain key : List ℕ) (tamper : Bool)
    → length plain ≤ 4072
    → tls_payload_app_data true seq plain key tamper ≡ some (record_of seq plain key tamper)
unfolding tls_payload_app_data
tls_payload_app_data_lem seq plain key tamper h = ground arith

flip_table : passes (λ b. not (u8 (bit_xor b 0x5a) == b)) 256 ≡ true
unfolding passes
flip_table = refl

bytes_eq-tampered :
    (mac : List ℕ) → length mac ≡ 20 → IsBytes mac → bytes_eq (tampered mac) mac ≡ false
unfolding tampered
bytes_eq-tampered [] h hb = absurd (omega (arith, h))
bytes_eq-tampered (b ∷ mac) h hb =
    ground (arith, passes_lem (λ b. not (u8 (bit_xor b 0x5a) == b)) 256 b hb.0 flip_table)

tampered_size : (mac : List ℕ) → length mac ≡ 20 → length (tampered mac) ≡ 20
unfolding tampered
tampered_size [] h = h
tampered_size (b ∷ mac) h = h

record_mac_size :
    (seq : ℕ) (plain key : List ℕ) (tamper : Bool)
    → let mac = tls_app_mac true seq (demo_xor_crypt plain key) key in
      length (if tamper then tampered mac else mac) ≡ 20
record_mac_size seq plain key true = tampered_size _ (mac_size seq (demo_xor_crypt plain key) key).0
record_mac_size seq plain key false = (mac_size seq (demo_xor_crypt plain key) key).0

-- The size of a record as the server writes it.
pub length-record_of :
    (seq : ℕ) (plain key : List ℕ) (tamper : Bool)
    → length (record_of seq plain key tamper) ≡ length plain + 24
length-record_of seq plain key tamper =
    sealed_size seq _ (demo_xor_crypt plain key) (record_mac_size seq plain key tamper)
    ∙ ap (λ n. n + 24) (length-demo_xor_crypt plain key)

-- A genuine record is taken.
pub verify-record_of :
    (fwrite : Writer) (type seq seen : ℕ) (plain key out : List ℕ)
    → IsU32 seq
    → seen < seq
    → length plain ≤ 4072
    → IsBytes plain
    → IsBytes key
    → ((bytes : List ℕ) → fwrite bytes ≡ length bytes)
    → let payload = record_of seq plain key false in
      verify_tls_app_data true fwrite (frame_of type payload) key out seen
      ≡ verified (take 24 payload ++ plain) (out ++ plain) seq
verify-record_of fwrite type seq seen plain key out hs newer size hb hk writes =
    let cipher = demo_xor_crypt plain key in
    let mac = tls_app_mac true seq cipher key in
    let same : bytes_eq mac mac ≡ true = (bytes_eq_iff mac mac).1 refl in
    verify-sealed fwrite type seq mac cipher key out seen hs (record_mac_size seq plain key false)
      newer writes
    ∙ rw (same, demo_xor_crypt_twice plain key hb hk) refl

-- If memory is there and all is written: of a record whose number is higher than any before it,
-- the client writes the bytes that the server put in, and takes its number; if the server has
-- tampered with the digest, the client refuses the record.
pub verify-tls_payload_app_data :
    (fwrite : Writer) (type seq seen : ℕ) (plain key out : List ℕ)
    → IsU32 seq
    → seen < seq
    → length plain ≤ 4072
    → IsBytes plain
    → IsBytes key
    → ((bytes : List ℕ) → fwrite bytes ≡ length bytes)
    → (payload forged : List ℕ) × (tls_payload_app_data true seq plain key false ≡ some payload)
      × (verify_tls_app_data true fwrite (frame_of type payload) key out seen
          ≡ verified (take 24 payload ++ plain) (out ++ plain) seq)
      × (tls_payload_app_data true seq plain key true ≡ some forged)
      × (verify_tls_app_data true fwrite (frame_of type forged) key out seen ≡ mac_fail)
verify-tls_payload_app_data fwrite type seq seen plain key out hs newer size hb hk writes =
    let cipher = demo_xor_crypt plain key in
    let mac = tls_app_mac true seq cipher key in
    let forgery : bytes_eq (tampered mac) mac ≡ false =
      bytes_eq-tampered mac (mac_size seq cipher key).0 (mac_size seq cipher key).1 in
    (
      record_of seq plain key false,
      record_of seq plain key true,
      tls_payload_app_data_lem seq plain key false size,
      verify-record_of fwrite type seq seen plain key out hs newer size hb hk writes,
      tls_payload_app_data_lem seq plain key true size,
      verify-sealed fwrite type seq (tampered mac) cipher key out seen hs
            (record_mac_size seq plain key true) newer writes
          ∙ rw forgery refl,
    )

tls_app_mac_lem :
    (allocated : Bool) (seq : ℕ) (cipher key : List ℕ)
    → tls_app_mac allocated seq cipher key
      ≡ (if allocated then demo_hmac_sha1 key (put_u32 seq ++ cipher) else replicate 20 0)
unfolding tls_app_mac
tls_app_mac_lem true seq cipher key = refl
tls_app_mac_lem false seq cipher key = refl

-- What the client takes from a record, whoever sent it: the record is not too short, its number is
-- higher than any before it and is the last one from then on, and what is written is the encrypted
-- bytes decrypted. If `malloc` gives memory, then the record's digest is the HMAC of the number and
-- the encrypted bytes under the key; if it does not, then the record has 20 zero bytes in place of
-- the digest.
pub verify_tls_app_data_sound :
    (allocated : Bool) (fwrite : Writer) (frame : DemoFrame) (key out : List ℕ) (seen : ℕ)
    (payload' out' : List ℕ) (seen' : ℕ)
    → verify_tls_app_data allocated fwrite frame key out seen ≡ verified payload' out' seen'
    → let cipher = take (frame.length - 24) (drop 24 frame.payload) in
      (24 ≤ frame.length)
      × (seen < seen')
      × (seen' ≡ get_u32 frame.payload)
      × (take 20 (drop 4 frame.payload)
          ≡ (if allocated then demo_hmac_sha1 key (put_u32 seen' ++ cipher) else replicate 20 0))
      × (out' ≡ out ++ demo_xor_crypt cipher key)
unfolding verify_tls_app_data
verify_tls_app_data_sound allocated fwrite frame key out seen payload' out' seen' h =
    let seq = get_u32 frame.payload in
    let cipher = take (frame.length - 24) (drop 24 frame.payload) in
    let mac = take 20 (drop 4 frame.payload) in
    let expected = tls_app_mac allocated seq cipher key in
    let same : frame.length - 4 - 20 ≡ frame.length - 24 = omega arith in
    elim (Bool-cases (bytes_eq mac expected)) [
      | inl e ↦
          let number : seen' ≡ seq = ground (arith, h, same, e) in
          (
            ground (arith, h, same, e),
            ground (arith, h, same, e),
            number,
            rw number ((bytes_eq_iff mac expected).0 e ∙ tls_app_mac_lem allocated seq cipher key),
            ground (arith, h, same, e),
          )
      | inr e ↦ absurd (ground (arith, h, same, e))
    ]
