-- ===== src/Tests/Reliable.antt =====
-- Three datagrams for the two blocks of a file, the second block first and again.
use udp_secure_transfer.Prelude.{ℕ, zero, suc, ◌+◌, ◌≤◌, ◌<◌, ◌≡◌, arith, refl, true, List, [], ◌∷◌}
use udp_secure_transfer.Prelude.{length}
use udp_secure_transfer.Protocol
use udp_secure_transfer.Protocol.RoundTrip.{data_wire, data_view, payload_wire}
use udp_secure_transfer.Protocol.Recv.{Net, no_traffic}
use udp_secure_transfer.Protocol.Logged.{Event}
use udp_secure_transfer.Sha1.Padding.{fips_sha1}
use udp_secure_transfer.Client.Reliable.{fresh, reliable_loop, reliable_data, output, drain}
use udp_secure_transfer.Client.Reliable.{ReliableReceiver, slot}
use udp_secure_transfer.Client.Reliable.Drain.{present, IsConsistent, IsDrained, drain-IsDrained}
use udp_secure_transfer.Client.Reliable.Accept.{IsAccepted, reliable_data-IsAccepted}
use udp_secure_transfer.Session.Plain.{arriving}
use udp_secure_transfer.Session.Reliable.{Occurs, reliable_transfer, fresh-IsConsistent}
use udp_secure_transfer.Tests.Fixtures.{server, wire_link, wire_link-Delivers, good_disk}
use udp_secure_transfer.Tests.Fixtures.{good_disk-Works, large_heap, large_heap-Allocates}

abbrev block : ℕ → List ℕ
block i = (i + 65) ∷ []

abbrev arrivals : List Event
arrivals =
    arriving server (data_wire 1 (block 1))
    ∷ arriving server (data_wire 0 (block 0))
    ∷ arriving server (data_wire 1 (block 1))
    ∷ arriving server (payload_wire Protocol.terminate (fips_sha1 (65 ∷ 66 ∷ [])))
    ∷ []

every_block : (i : ℕ) → i < 2 → Occurs i (1 ∷ 0 ∷ 1 ∷ [])
every_block i h = ground arith

reliable_transfer_example :
    (traffic : Net) × (reliable_loop wire_link good_disk large_heap 4 server fresh no_traffic
        arrivals
      ≡ output (65 ∷ 66 ∷ []) traffic)
reliable_transfer_example =
    reliable_transfer block 2 (omega arith) (λ i. omega arith) wire_link wire_link-Delivers
      good_disk good_disk-Works large_heap large_heap-Allocates 4 server no_traffic (1 ∷ 0 ∷ 1 ∷ [])
      [] (omega arith, (omega arith, (omega arith, tt))) every_block

reliable_data-IsAccepted_example :
    IsAccepted block 2 4 fresh (data_view 1 (block 1) []) no_traffic (
      reliable_data wire_link good_disk large_heap 4 server fresh
        (data_view 1 (block 1) [])
        no_traffic)
reliable_data-IsAccepted_example =
    reliable_data-IsAccepted block 2 (omega arith) wire_link wire_link-Delivers good_disk
      good_disk-Works.writes large_heap large_heap-Allocates 4 server fresh
      (data_view 1 (block 1) []) no_traffic (fresh-IsConsistent block 2) refl
      (record { in_range = omega arith; payload = refl; size = refl })

-- Block 0 has just been stored in front of block 1.
abbrev loaded : ReliableReceiver
loaded = record fresh {
  buffered =
      record { bytes = block 0; length = 1; present = true }
      ∷ record { bytes = block 1; length = 1; present = true }
      ∷ [];
}

loaded-IsConsistent : IsConsistent block 2 loaded
loaded-IsConsistent = record {
  written = refl;
  bounded = omega arith;
  later = later_slots;
  bytes = slot_bytes;
  sizes = slot_sizes;
}
  where
    later_slots : (i : ℕ) → present loaded i ≡ true → (0 ≤ i) × (i < 2)
    later_slots zero h = (omega arith, omega arith)
    later_slots (suc zero) h = (omega arith, omega arith)
    later_slots (suc (suc i)) h = absurd (ground arith)

    slot_bytes : (i : ℕ) → present loaded i ≡ true → (slot loaded.buffered i).bytes ≡ block i
    slot_bytes zero h = refl
    slot_bytes (suc zero) h = refl
    slot_bytes (suc (suc i)) h = absurd (ground arith)

    slot_sizes :
        (i : ℕ) → present loaded i ≡ true → (slot loaded.buffered i).length ≡ length (block i)
    slot_sizes zero h = refl
    slot_sizes (suc zero) h = refl
    slot_sizes (suc (suc i)) h = absurd (ground arith)

drain-IsDrained_example : IsDrained block 2 loaded (drain good_disk 2 loaded)
drain-IsDrained_example =
    drain-IsDrained block 2 (omega arith) good_disk good_disk-Works.writes 2 loaded
      loaded-IsConsistent (omega arith)
