-- ===== src/Tests/Demo.antt =====
-- Frames over a socket that moves one byte a call, and keyed digests.
use udp_secure_transfer.Prelude.{◌≡◌, arith, true, some, [], ◌∷◌, ◌++◌}
use udp_secure_transfer.Prelude.{codes}
use udp_secure_transfer.Sha1.Padding.{fips_sha1}
use udp_secure_transfer.Demo.Stream.{Outgoing, Incoming}
use udp_secure_transfer.Tests.Fixtures.{one_byte, one_byte-Flows}
use udp_secure_transfer.Demo.Frame.{send_frame, recv_frame}
use udp_secure_transfer.Demo.Trip.{silent, recv_frame-send_frame}
use udp_secure_transfer.Demo.Digest.{demo_hmac_sha1, demo_hmac_sha1_lem, demo_xor_crypt}
use udp_secure_transfer.Demo.Digest.{demo_xor_crypt_twice, demo_derive_session_key}
use udp_secure_transfer.Demo.Digest.{demo_derive_session_key_lem, padded_with, block_key}

recv_frame-send_frame_example :
    (s : Outgoing) × (after : Incoming) × (send_frame one_byte silent 5 (codes "abc") true ≡ some s)
    × (recv_frame one_byte (record { calls = 0; pending = s.sent ++ (9 ∷ []) })
        ≡ some (record { type = 5; length = 3; payload = codes "abc" }, after))
    × (after.pending ≡ 9 ∷ [])
recv_frame-send_frame_example =
    recv_frame-send_frame one_byte one_byte 5 0 (codes "abc") (9 ∷ []) true one_byte-Flows
      one_byte-Flows (omega arith) (omega arith)

demo_hmac_sha1_example :
    demo_hmac_sha1 (codes "key") (codes "message")
    ≡ fips_sha1 (
        padded_with 0x5c (block_key (codes "key"))
        ++ fips_sha1 (padded_with 0x36 (block_key (codes "key")) ++ codes "message"))
demo_hmac_sha1_example = demo_hmac_sha1_lem (codes "key") (codes "message")

demo_xor_crypt_example :
    demo_xor_crypt (demo_xor_crypt (codes "message") (codes "key")) (codes "key") ≡ codes "message"
demo_xor_crypt_example =
    demo_xor_crypt_twice (codes "message") (codes "key") (omega arith) (omega arith)

demo_derive_session_key_example :
    demo_derive_session_key (codes "secret") (1 ∷ []) (2 ∷ [])
    ≡ fips_sha1 ((codes "secret" ++ (1 ∷ [])) ++ (2 ∷ []))
demo_derive_session_key_example = demo_derive_session_key_lem (codes "secret") (1 ∷ []) (2 ∷ [])
