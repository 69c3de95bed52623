-- ===== src/Tests/Codec.antt =====
-- Packets, digests and numbers.
use udp_secure_transfer.Prelude.{ℕ, ◌≤◌, ◌≡◌, refl, arith, false, none, some}
use udp_secure_transfer.Prelude.{List, [], ◌∷◌, ◌++◌, codes}
use udp_secure_transfer.Protocol
use udp_secure_transfer.Protocol.{max_datagram}
use udp_secure_transfer.Protocol.Build.{build_data_packet}
use udp_secure_transfer.Protocol.Bytes.{get_u16, get_u32}
use udp_secure_transfer.Protocol.Parse.{parse_packet, parsed}
use udp_secure_transfer.Protocol.RoundTrip.{feedback_view}
use udp_secure_transfer.Protocol.RoundTrip.{data_view, parse-build_data_packet}
use udp_secure_transfer.Protocol.Canonical.{rebuild, rebuild-parse}
use udp_secure_transfer.Protocol.Config.{env_timeout_ms, env_reliable_window_size}
use udp_secure_transfer.Protocol.Config.{env_reliable_timeout_ms, parse_port, is_digit}
use udp_secure_transfer.Protocol.Config.{number_between, strtol}
use udp_secure_transfer.Protocol.Config.Numbers.{digits, parse_port-digits}
use udp_secure_transfer.Protocol.Config.Numeral.{IsPort, parse_port-IsPort}
use udp_secure_transfer.Protocol.Config.Ranges.{env-bounds}
use udp_secure_transfer.Sha1.{sha1, sha1_file, sha1_init, sha1_final, update_all}
use udp_secure_transfer.Sha1.Padding.{fips_sha1, sha1-eq-fips}
use udp_secure_transfer.Sha1.File.{sha1_file-update_all}

abbrev nack_wire : List ℕ
nack_wire = 0 ∷ 9 ∷ 0 ∷ 0 ∷ 0 ∷ 8 ∷ 0 ∷ 0 ∷ 1 ∷ 2 ∷ 0 ∷ 0 ∷ 0 ∷ 4 ∷ []

nack_parses : parse_packet (some nack_wire) ≡ parsed (feedback_view Protocol.nack 258 4 nack_wire)
unfolding parse_packet get_u16 get_u32
nack_parses = refl

rebuild-parse_example : rebuild (feedback_view Protocol.nack 258 4 nack_wire) ≡ some nack_wire
rebuild-parse_example =
    rebuild-parse nack_wire (feedback_view Protocol.nack 258 4 nack_wire) (ground arith) nack_parses
      (λ text t e. absurd (omega (arith, t)))

parse-build_data_packet_example :
    (wire : List ℕ) × (build_data_packet 7 (some (codes "abc")) 3 max_datagram ≡ some wire)
    × (parse_packet (some wire) ≡ parsed (data_view 7 (codes "abc") wire))
parse-build_data_packet_example =
    parse-build_data_packet 7 (codes "abc") (omega arith) (omega arith)

sha1-eq-fips_example : sha1 (codes "abc") ≡ fips_sha1 (codes "abc")
sha1-eq-fips_example = sha1-eq-fips (codes "abc")

sha1_file_example :
    (sha1_final (update_all sha1_init (codes "ab" ∷ codes "c" ∷ [])) ≡ fips_sha1 (codes "abc"))
    × (sha1_file (some (record { bytes = codes "abc"; read_error = false }))
        ≡ some (fips_sha1 (codes "abc")))
sha1_file_example = sha1_file-update_all (codes "ab" ∷ codes "c" ∷ [])

env_example :
    ((200 ≤ env_timeout_ms (some (codes "500"))) × (env_timeout_ms (some (codes "500")) ≤ 120000))
    × ((2 ≤ env_reliable_window_size (some (codes "500")))
        × (env_reliable_window_size (some (codes "500")) ≤ 64))
    × ((50 ≤ env_reliable_timeout_ms (some (codes "500")))
        × (env_reliable_timeout_ms (some (codes "500")) ≤ 10000))
env_example = env-bounds (some (codes "500"))

parse_port-digits_example :
    (parse_port (some (digits 18 9000)) ≡ some 9000)
    × (parse_port (some (digits 18 9000 ++ codes "x")) ≡ none)
parse_port-digits_example = parse_port-digits 9000 120 [] (omega arith) (unfold is_digit in refl)

-- A space, a plus sign and a leading zero are taken.
loose : parse_port (some (codes " +080")) ≡ some 80
unfolding parse_port number_between strtol
loose = refl

parse_port-IsPort_example : IsPort (codes " +080") 80
parse_port-IsPort_example = parse_port-IsPort (codes " +080") 80 loose
