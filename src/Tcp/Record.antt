-- ===== src/Tcp/Record.antt =====
-- The APP_DATA records of tls-like: tls_app_mac and tls_payload_app_data of
-- src/tcp_demo_server.c, verify_tls_app_data of src/tcp_demo_client.c.
use udp_secure_transfer.Prelude.{ℕ, ◌+◌, ◌-◌, Bool, not, ◌&&◌, Option, none, some}
use udp_secure_transfer.Prelude.{
  List, [], ◌∷◌, ◌++◌, length, take, drop, replicate, u8, u32, ltb, leb,
}
use udp_secure_transfer.Prelude.{◌==◌, bytes_eq, if◌then◌else◌, bit_xor}
use udp_secure_transfer.Protocol.Bytes.{put_u32, get_u32}
use udp_secure_transfer.Demo.Frame.{DemoFrame, demo_max_payload}
use udp_secure_transfer.Demo.Digest.{demo_hmac_sha1, demo_xor_crypt}

abbrev pub sha1_digest_length : ℕ
sha1_digest_length = 20

-- `allocated` says whether `malloc` gives memory.
unfoldable pub tls_app_mac : Bool → ℕ → List ℕ → List ℕ → List ℕ
tls_app_mac allocated seq cipher key =
    if not allocated
    then replicate sha1_digest_length 0
    else demo_hmac_sha1 key (put_u32 seq ++ cipher)

-- `mac[0] ^= 0x5aU`
unfoldable pub tampered : List ℕ → List ℕ
tampered [] = []
tampered (b ∷ mac) = u8 (bit_xor b 0x5a) ∷ mac

-- `out[0..*out_len)`; `none` is -1.
unfoldable pub tls_payload_app_data : Bool → ℕ → List ℕ → List ℕ → Bool → Option (List ℕ)
unfolding tls_app_mac tampered
tls_payload_app_data allocated seq plain key tamper_mac =
    let cipher = demo_xor_crypt plain key in
    let mac = tls_app_mac allocated seq cipher key in
    if ltb demo_max_payload (u32 (length plain + 4 + sha1_digest_length))
    then none
    else some (put_u32 seq ++ ((if tamper_mac then tampered mac else mac) ++ cipher))

-- `verified` is 0 with the payload, which is decrypted in its place, the file's bytes and
-- `*seen_seq`; the others are -1.
pub data Verification : Type 0 where
  verified : List ℕ → List ℕ → ℕ → Verification
  too_short : Verification
  replay_detected : Verification
  mac_fail : Verification
  write_fail : Verification

-- What `fwrite` takes of some bytes.
abbrev pub Writer : Type 0
Writer = List ℕ → ℕ

unfoldable pub verify_tls_app_data : Bool → Writer → DemoFrame → List ℕ → List ℕ → ℕ → Verification
unfolding tls_app_mac
verify_tls_app_data allocated fwrite frame key out seen_seq =
    let seq = get_u32 frame.payload in
    let cipher_len = frame.length - 4 - sha1_digest_length in
    let cipher = take cipher_len (drop (4 + sha1_digest_length) frame.payload) in
    let mac = take sha1_digest_length (drop 4 frame.payload) in
    let expected = tls_app_mac allocated seq cipher key in
    let plain = demo_xor_crypt cipher key in
    if ltb frame.length (4 + sha1_digest_length)
    then too_short
    else if leb seq seen_seq
    then replay_detected
    else if not (bytes_eq mac expected)
    then mac_fail
    else if ltb 0 cipher_len && not (fwrite plain == cipher_len)
    then write_fail
    else verified (take (4 + sha1_digest_length) frame.payload ++ plain) (out ++ plain) seq
