-- ===== src/Client/Transfer/Safety.antt =====
-- What the plain receive loop of src/client.c commits, on any file system and for any events.
use udp_secure_transfer.Prelude.{ℕ, ◌+◌, ◌≡◌, ◌≢◌, arith, ap, sym, ◌∙◌, true}
use udp_secure_transfer.Prelude.{none, some, List, [], ◌∷◌, ◌++◌, take, u32}
use udp_secure_transfer.Prelude.{bytes_eq_iff, take_of_le, length-drop}
use udp_secure_transfer.Prelude.{drop, Option-cases, inl, inr}
use udp_secure_transfer.Protocol
use udp_secure_transfer.Protocol.{Packet, Peer}
use udp_secure_transfer.Protocol.Accepted.{accepted_data, accepted_fields}
use udp_secure_transfer.Protocol.Delivery.{received-parsed}
use udp_secure_transfer.Protocol.Parse.{is_same_peer, parsed, parse_packet}
use udp_secure_transfer.Protocol.Logged.{Event, payload_bytes, Logged, received, quiet, lost}
use udp_secure_transfer.Protocol.Logged.{recv_expected}
use udp_secure_transfer.Sha1.Padding.{fips_sha1}
use udp_secure_transfer.Sha1.File.{sha1_file_lem, fips_sha1_size}
use udp_secure_transfer.Client.Transfer.{Disk, Receiver, continues, committed}
use udp_secure_transfer.Client.Transfer.{transfer_step, transfer_packet}
use udp_secure_transfer.Client.Transfer.{
  local_digest, digests_match, receive_data, receive_terminate,
}

-- A DATA packet with this id and payload came from the server.
pub record IsData (server : Peer) (packet_id : ℕ) (block : List ℕ) (e : Event) : Type 0 where
  pub packet : Packet
  pub from : Peer
  pub arrives : recv_expected e.arrival ≡ received packet from
  pub same_peer : is_same_peer server from ≡ true
  pub is_data : packet.type ≡ Protocol.data_packet
  pub id : packet.packet_id ≡ packet_id
  pub payload : packet.payload ≡ some block

-- The events carry the blocks, one each, with consecutive ids.
abbrev pub Carry : Peer → ℕ → List Event → List (List ℕ) → Type 0
Carry server packet_id [] [] = Unit {0}
Carry server packet_id [] (block ∷ blocks) = ⊥
Carry server packet_id (e ∷ events) [] = ⊥
Carry server packet_id (e ∷ events) (block ∷ blocks) =
    IsData server packet_id block e × Carry server (u32 (packet_id + 1)) events blocks

-- A TERMINATE packet with this digest came from the server.
pub record IsTerminate (server : Peer) (digest : List ℕ) (e : Event) : Type 0 where
  pub packet : Packet
  pub from : Peer
  pub arrives : recv_expected e.arrival ≡ received packet from
  pub same_peer : is_same_peer server from ≡ true
  pub is_terminate : packet.type ≡ Protocol.terminate
  pub digest_matches : take 20 (payload_bytes packet.payload) ≡ digest

-- The digest of the temporary file, where there is one, is that of its content.
local_digest_lem :
    (disk : Disk) (out digest : List ℕ)
    → local_digest disk out ≡ some digest
    → digest ≡ fips_sha1 out
unfolding local_digest
local_digest_lem disk out digest h = ground (arith, sha1_file_lem out)

digests_match_lem :
    (p : Packet) (out digest : List ℕ)
    → digest ≡ fips_sha1 out
    → digests_match p digest ≡ true
    → take 20 (payload_bytes p.payload) ≡ fips_sha1 out
unfolding digests_match
digests_match_lem p out digest e h =
    (bytes_eq_iff (take 20 (payload_bytes p.payload)) (take 20 digest)).0 h
    ∙ ap (take 20) e
    ∙ take_of_le 20 (fips_sha1 out) (omega (arith, fips_sha1_size out))

module _ (disk : Disk) (server : Peer) where
  data_inversion :
      (r r' : Receiver) (p : Packet)
      → receive_data disk server r p ≡ continues r'
      → (p.packet_id ≡ r.expected_packet_id)
        × (r'.expected_packet_id ≡ u32 (r.expected_packet_id + 1))
        × (r'.out ≡ r.out ++ take p.payload_length (payload_bytes p.payload))
  unfolding transfer_step
  data_inversion r r' p h = ground arith

  terminate_inversion :
      (r : Receiver) (c digest : List ℕ) (p : Packet)
      → local_digest disk r.out ≡ some digest
      → receive_terminate disk server r p ≡ committed c
      → (c ≡ r.out) × (digests_match p digest ≡ true)
  unfolding transfer_step
  terminate_inversion r c digest p e h = ground arith

  terminate_no_digest :
      (r : Receiver) (c : List ℕ) (p : Packet)
      → local_digest disk r.out ≡ none
      → receive_terminate disk server r p ≢ committed c
  unfolding transfer_step
  terminate_no_digest r c p e h = ground arith

  packet_continues :
      (r r' : Receiver) (p : Packet) (from : Peer)
      → transfer_packet disk server r (received p from) ≡ continues r'
      → (is_same_peer server from ≡ true)
        × (p.type ≡ Protocol.data_packet)
        × (receive_data disk server r p ≡ continues r')
  unfolding transfer_step
  packet_continues r r' p from h = elim (Option-cases (local_digest disk r.out)) [
    | inl e ↦ ground arith
    | inr (digest, e) ↦ ground arith
  ]

  packet_commits :
      (r : Receiver) (c : List ℕ) (p : Packet) (from : Peer)
      → transfer_packet disk server r (received p from) ≡ committed c
      → (is_same_peer server from ≡ true)
        × (p.type ≡ Protocol.terminate)
        × (receive_terminate disk server r p ≡ committed c)
  unfolding transfer_step
  packet_commits r c p from h = ground arith

  -- The whole payload is what the packet's length says.
  data_payload :
      (buf : List ℕ) (p : Packet)
      → parse_packet (some buf) ≡ parsed p
      → p.type ≡ Protocol.data_packet
      → p.payload ≡ some (take p.payload_length (payload_bytes p.payload))
  data_payload buf p h t =
      let fields = accepted_fields buf p h in
      let shape = accepted_data buf p h (sym fields.0 ∙ t) in
      let whole : take p.payload_length (drop 10 buf) ≡ drop 10 buf =
        take_of_le p.payload_length (drop 10 buf)
          (omega (arith, fields.1, shape.1, length-drop 10 buf)) in
      ground (arith, shape.2, whole)

  pub step-IsData :
      (r r' : Receiver) (e : Event) (l : Logged)
      → recv_expected e.arrival ≡ l
      → transfer_packet disk server r l ≡ continues r'
      → (block : List ℕ) × IsData server r.expected_packet_id block e
        × (r'.expected_packet_id ≡ u32 (r.expected_packet_id + 1))
        × (r'.out ≡ r.out ++ block)
  step-IsData r r' e (received p from) arrives h =
      let (same, type, continued) = packet_continues r r' p from h in
      let (id, next, grown) = data_inversion r r' p continued in
      let (buf, parses) = received-parsed e.arrival p from arrives in
      (
        take p.payload_length (payload_bytes p.payload),
        record {
          packet = p;
          from = from;
          arrives = arrives;
          same_peer = same;
          is_data = type;
          id = id;
          payload = data_payload buf p parses type;
        },
        next,
        grown,
      )
  step-IsData r r' e quiet arrives h = absurd (unfold transfer_step in ground arith)
  step-IsData r r' e lost arrives h = absurd (unfold transfer_step in ground arith)

  pub step-IsTerminate :
      (r : Receiver) (c : List ℕ) (e : Event) (l : Logged)
      → recv_expected e.arrival ≡ l
      → transfer_packet disk server r l ≡ committed c
      → (c ≡ r.out) × IsTerminate server (fips_sha1 c) e
  step-IsTerminate r c e (received p from) arrives h = commits_of (packet_commits r c p from h)
    where
      commits_of :
          (is_same_peer server from ≡ true)
            × (p.type ≡ Protocol.terminate)
            × (receive_terminate disk server r p ≡ committed c)
          → (c ≡ r.out) × IsTerminate server (fips_sha1 c) e
      commits_of (same, type, done) = elim (Option-cases (local_digest disk r.out)) [
        | inl none_left ↦ absurd (terminate_no_digest r c p none_left done)
        | inr (digest, found) ↦
            let (content, match) = terminate_inversion r c digest p found done in
            (
              content,
              record {
                packet = p;
                from = from;
                arrives = arrives;
                same_peer = same;
                is_terminate = type;
                digest_matches =
                    digests_match_lem p c digest
                      (local_digest_lem disk r.out digest found ∙ ap fips_sha1 (sym content)) match;
              },
            )
      ]
  step-IsTerminate r c e quiet arrives h = absurd (unfold transfer_step in ground arith)
  step-IsTerminate r c e lost arrives h = absurd (unfold transfer_step in ground arith)
