-- ===== src/Tests/Plain.antt =====
-- The plain transfer of a short file.
use udp_secure_transfer.Prelude.{ℕ, ◌≡◌, arith, true, false, some, List, [], ◌∷◌, map, codes}
use udp_secure_transfer.Prelude.{◌^◌, ◌<◌, length}
use udp_secure_transfer.Protocol
use udp_secure_transfer.Protocol.RoundTrip.{data_wire, payload_wire}
use udp_secure_transfer.Protocol.Recv.{no_traffic}
use udp_secure_transfer.Protocol.Logged.{Event}
use udp_secure_transfer.Sha1.{fread_blocks, fread_all}
use udp_secure_transfer.Sha1.Padding.{fips_sha1}
use udp_secure_transfer.Server.Transfer.{transfer_file}
use udp_secure_transfer.Client.Transfer.{fresh, transfer_loop, output}
use udp_secure_transfer.Client.Transfer.Verified.{Verified, transfer_loop-Verified}
use udp_secure_transfer.Session.Plain.{never, after_all, arriving, plain_transfer, receives_blocks}
use udp_secure_transfer.Tests.Fixtures.{server, wire_link, wire_link-Delivers, good_disk}
use udp_secure_transfer.Tests.Fixtures.{good_disk-Works}

abbrev file : List ℕ
file = codes "abc"

one_block : length (fread_blocks 1000 file) < 2 ^ 32
unfolding fread_all
one_block = omega arith

plain_transfer_example :
    (wires : List (List ℕ)) × (transfer_file wire_link never
        (some (record { bytes = file; read_error = false }))
        (fips_sha1 file)
        no_traffic
      ≡ (true, after_all no_traffic wires))
    × ((after_all no_traffic wires).sent ≡ wires)
    × (transfer_loop good_disk server fresh (map (arriving server) wires) ≡ output file)
plain_transfer_example =
    plain_transfer good_disk good_disk-Works server wire_link no_traffic file wire_link-Delivers
      one_block

abbrev arrivals : List Event
arrivals =
    arriving server (data_wire 0 file)
    ∷ arriving server (payload_wire Protocol.terminate (fips_sha1 file))
    ∷ []

commits : transfer_loop good_disk server fresh arrivals ≡ output file
commits =
    receives_blocks good_disk good_disk-Works server (file ∷ []) fresh
      ((omega arith, omega arith), tt) (omega arith)

transfer_loop-Verified_example : Verified server 0 [] arrivals file
transfer_loop-Verified_example = transfer_loop-Verified good_disk server arrivals file commits
