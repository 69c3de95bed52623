-- ===== src/Session/Reliable.antt =====
-- The reliable receiver of src/client.c on a network that reorders and repeats datagrams.
use udp_secure_transfer.Prelude.{ℕ, ◌≤◌, ◌<◌, ◌^◌, ◌≡◌, refl, ◌⊎◌, inl, inr, arith}
use udp_secure_transfer.Prelude.{ap, sym, ◌∙◌, false, List, [], ◌∷◌, ◌++◌, map}
use udp_secure_transfer.Prelude.{length, take, bytes_eq_iff, All}
use native.Mathlib.Decide.{dec_lt}
use udp_secure_transfer.Protocol
use udp_secure_transfer.Protocol.{Peer, Packet}
use udp_secure_transfer.Protocol.RoundTrip.{data_wire, data_view, payload_wire, feedback_wire}
use udp_secure_transfer.Protocol.Recv.{Link, Net, datagram}
use udp_secure_transfer.Protocol.Logged.{Event, recv_expected}
use udp_secure_transfer.Protocol.Delivery.{Delivers, after_send, send_feedback_lem, recv_data}
use udp_secure_transfer.Protocol.Delivery.{recv_terminate, is_same_peer_refl}
use udp_secure_transfer.Sha1.Padding.{fips_sha1}
use udp_secure_transfer.Sha1.File.{sha1_file_lem, fips_sha1_size}
use udp_secure_transfer.Session.Plain.{arriving, Works}
use udp_secure_transfer.Client.Transfer.{Disk, local_digest, digests_match}
use udp_secure_transfer.Client.Reliable.{ReliableReceiver, fresh, Heap, reliable_loop}
use udp_secure_transfer.Client.Reliable.{reliable_packet, reliable_data, output, keeps, finished}
use udp_secure_transfer.Client.Reliable.Slots.{Allocates}
use udp_secure_transfer.Client.Reliable.Drain.{first, present, Has, IsConsistent}
use udp_secure_transfer.Client.Reliable.Accept.{reliable_data-IsAccepted}

abbrev pub Occurs : ℕ → List ℕ → Type 0
Occurs i [] = ⊥
Occurs i (x ∷ xs) = (i ≡ x) ⊎ Occurs i xs

pub fresh-IsConsistent : (block : ℕ → List ℕ) (n : ℕ) → IsConsistent block n fresh
fresh-IsConsistent block n = record {
  written = refl;
  bounded = omega arith;
  later = λ i h. absurd (ground arith);
  bytes = λ i h. absurd (ground arith);
  sizes = λ i h. absurd (ground arith);
}

module _ (block : ℕ → List ℕ) (n : ℕ) (small : n < 2 ^ 32)
    (fits : (i : ℕ) → length (block i) ≤ 1000) (link : Link) (delivers : Delivers link)
    (disk : Disk) (works : Works disk) (heap : Heap) (allocates : Allocates heap) (window : ℕ)
    (server : Peer) where
  -- The DATA datagram of a block.
  abbrev carrying : ℕ → Event
  carrying i = arriving server (data_wire i (block i))

  -- After the events of some blocks: the receiver is consistent, and has those blocks.
  record IsRun (r : ReliableReceiver) (net : Net) (ids : List ℕ) (rest : List Event) : Type 0 where
    after : ReliableReceiver
    traffic : Net
    returns :
        reliable_loop link disk heap window server r net (map carrying ids ++ rest)
        ≡ reliable_loop link disk heap window server after traffic rest
    consistent : IsConsistent block n after
    retains : (i : ℕ) → Has r i → Has after i
    gains : (i : ℕ) → Occurs i ids → Has after i
    missing : present after after.expected_packet_id ≡ false

  packet_arrives :
      (r after : ReliableReceiver) (net traffic : Net) (i : ℕ)
      → i < n
      → reliable_data link disk heap window server r
          (data_view i (block i) (data_wire i (block i)))
          net
        ≡ keeps after traffic
      → reliable_packet link disk heap window server r net (recv_expected (carrying i).arrival)
        ≡ keeps after traffic
  packet_arrives r after net traffic i h e =
      rw (recv_data server i (block i) (omega arith) (fits i))
        (unfold reliable_packet in rw (is_same_peer_refl server) e)

  one_event :
      (r after : ReliableReceiver) (net traffic : Net) (i : ℕ) (events : List Event)
      → i < n
      → reliable_data link disk heap window server r
          (data_view i (block i) (data_wire i (block i)))
          net
        ≡ keeps after traffic
      → reliable_loop link disk heap window server r net (carrying i ∷ events)
        ≡ reliable_loop link disk heap window server after traffic events
  unfolding reliable_loop
  one_event r after net traffic i events h e =
      ground (arith, packet_arrives r after net traffic i h e)

  runs :
      (ids : List ℕ) (r : ReliableReceiver) (net : Net) (rest : List Event)
      → All (λ i. i < n) ids
      → IsConsistent block n r
      → present r r.expected_packet_id ≡ false
      → IsRun r net ids rest
  runs [] r net rest ok c missing = record {
    after = r;
    traffic = net;
    returns = refl;
    consistent = c;
    retains = λ i h. h;
    gains = λ i h. absurd h;
    missing = missing;
  }
  runs (x ∷ xs) r net rest ok c missing =
      let p : Packet = data_view x (block x) (data_wire x (block x)) in
      let a =
        reliable_data-IsAccepted block n small link delivers disk works.writes heap allocates window
          server r p net c missing (record { in_range = ok.0; payload = refl; size = refl }) in
      let later = runs xs a.after a.traffic rest ok.1 a.consistent a.missing in
      record {
        after = later.after;
        traffic = later.traffic;
        returns =
            one_event r a.after net a.traffic x (map carrying xs ++ rest) ok.0 a.returns
            ∙ later.returns;
        consistent = later.consistent;
        retains = λ i h. later.retains i (a.retains i h);
        gains = λ i. elim [
          | inl same ↦ later.retains i (rw same a.gains)
          | inr among ↦ later.gains i among
        ];
        missing = later.missing;
      }

  -- Nothing is missing once every block has come.
  all_here :
      (ids : List ℕ) (r : ReliableReceiver)
      → IsConsistent block n r
      → present r r.expected_packet_id ≡ false
      → ((i : ℕ) → i < n → Has r i)
      → r.out ≡ first block n
  all_here ids r c missing has = elim (dec_lt r.expected_packet_id n) [
    | yes short ↦ elim (has r.expected_packet_id short) [
      | inl below ↦ absurd (omega arith)
      | inr here ↦ cc (sym missing ∙ here)
    ]
    | no done ↦
        let reached : r.expected_packet_id ≡ n = omega (arith, c.bounded) in
        c.written ∙ ap (first block) reached
  ]

  terminate_packet :
      (r : ReliableReceiver) (net : Net)
      → reliable_packet link disk heap window server r net
          (recv_expected (datagram server (payload_wire Protocol.terminate (fips_sha1 r.out))))
        ≡ finished r.out (after_send net (feedback_wire Protocol.ack r.expected_packet_id window))
  terminate_packet r net = rw (recv_terminate server (fips_sha1 r.out) (fips_sha1_size r.out).0) (
      unfold reliable_packet local_digest digests_match in
      ground (
        arith,
        is_same_peer_refl server,
        works.reopens,
        works.rereads,
        works.commits,
        sha1_file_lem r.out,
        bytes_eq_iff (take 20 (fips_sha1 r.out)) (take 20 (fips_sha1 r.out)),
        send_feedback_lem link delivers net Protocol.ack r.expected_packet_id window (inl refl),
      ))

  terminate_event :
      (r : ReliableReceiver) (net : Net) (later : List Event)
      → reliable_loop link disk heap window server r net
          (arriving server (payload_wire Protocol.terminate (fips_sha1 r.out)) ∷ later)
        ≡ output r.out (after_send net (feedback_wire Protocol.ack r.expected_packet_id window))
  unfolding reliable_loop
  terminate_event r net later = ground (arith, terminate_packet r net)

  -- Blocks of the file arrive in any order, some of them several times, each at least once, and
  -- then TERMINATE with the digest of the file: the receiver commits the file, whatever comes
  -- after. The network delivers the acknowledgements, memory and disk suffice, blocks have at
  -- most 1000 bytes, and there are fewer than 2 ^ 32 of them.
  pub reliable_transfer :
      (net : Net) (ids : List ℕ) (later : List Event)
      → All (λ i. i < n) ids
      → ((i : ℕ) → i < n → Occurs i ids)
      → (traffic : Net) × (reliable_loop link disk heap window server fresh net (
            map carrying ids
            ++ arriving server (payload_wire Protocol.terminate (fips_sha1 (first block n)))
              ∷ later)
          ≡ output (first block n) traffic)
  reliable_transfer net ids later ok every =
      let final = arriving server (payload_wire Protocol.terminate (fips_sha1 (first block n))) in
      let run = runs ids fresh net (final ∷ later) ok (fresh-IsConsistent block n) refl in
      let whole : run.after.out ≡ first block n =
        all_here ids run.after run.consistent run.missing (λ i h. run.gains i (every i h)) in
      (
        after_send run.traffic (feedback_wire Protocol.ack run.after.expected_packet_id window),
        run.returns ∙ rw whole at (terminate_event run.after run.traffic later),
      )
