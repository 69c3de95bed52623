-- ===== src/Session/Plain.antt =====
-- The plain transfer from transfer_file of src/server.c to the receive loop of src/client.c.
use udp_secure_transfer.Prelude.{ℕ, ◌+◌, ◌≤◌, ◌<◌, ◌^◌, ◌≡◌, refl, arith, sym, ◌∙◌}
use udp_secure_transfer.Prelude.{Bool, true, false, some, List, [], ◌∷◌, ◌++◌, map}
use udp_secure_transfer.Prelude.{length, take, take_all, concat, All, append_assoc}
use udp_secure_transfer.Prelude.{append-nil, u64, bytes_eq_iff}
use udp_secure_transfer.Protocol
use udp_secure_transfer.Protocol.{Peer}
use udp_secure_transfer.Protocol.RoundTrip
use udp_secure_transfer.Protocol.RoundTrip.{data_wire, payload_wire}
use udp_secure_transfer.Protocol.Recv.{Link, Net, datagram}
use udp_secure_transfer.Protocol.Logged.{Event}
use udp_secure_transfer.Protocol.Delivery.{Delivers, after_send, send_logged_lem}
use udp_secure_transfer.Protocol.Delivery.{recv_data, recv_terminate, is_same_peer_refl}
use udp_secure_transfer.Sha1.{fread_blocks}
use udp_secure_transfer.Sha1.Padding.{fips_sha1}
use udp_secure_transfer.Sha1.File.{IsBlock, fread_all-IsBlock, concat-fread_all, sha1_file_lem}
use udp_secure_transfer.Sha1.File.{fips_sha1_size}
use udp_secure_transfer.Server.Transfer.{send_block, send_blocks, transfer_file}
use udp_secure_transfer.Client.Transfer.{Disk, Receiver, fresh, transfer_step, transfer_loop}
use udp_secure_transfer.Client.Transfer.{continues, committed, output, local_digest}
use udp_secure_transfer.Client.Transfer.{digests_match}

-- stop_requested stays 0.
abbrev pub never : ℕ → Bool
never k = false

-- The datagrams for the blocks, numbered from `packet_id` on.
abbrev pub data_wires : ℕ → List (List ℕ) → List (List ℕ)
data_wires packet_id [] = []
data_wires packet_id (block ∷ blocks) =
    data_wire packet_id block ∷ data_wires (packet_id + 1) blocks

abbrev pub after_all : Net → List (List ℕ) → Net
after_all net [] = net
after_all net (wire ∷ wires) = after_all (after_send net wire) wires

pub sent-after_all :
    (net : Net) (wires : List (List ℕ)) → (after_all net wires).sent ≡ net.sent ++ wires
sent-after_all net [] = sym (append-nil net.sent)
sent-after_all net (wire ∷ wires) =
    sent-after_all (after_send net wire) wires ∙ append_assoc net.sent (wire ∷ []) wires

after_all-append :
    (net : Net) (wires more : List (List ℕ))
    → after_all net (wires ++ more) ≡ after_all (after_all net wires) more
after_all-append net [] more = refl
after_all-append net (wire ∷ wires) more = after_all-append (after_send net wire) wires more

module _ (link : Link) (delivers : Delivers link) where
  send_block_lem :
      (packet_id : ℕ) (net : Net) (block : List ℕ)
      → length block ≤ 1000
      → send_block link packet_id net block ≡ (true, after_send net (data_wire packet_id block))
  unfolding send_block
  send_block_lem packet_id net block h = ground (
    arith,
    RoundTrip.build_data_packet_lem packet_id block h,
    send_logged_lem link delivers net (data_wire packet_id block),
  )

  send_blocks_lem :
      (k packet_id : ℕ) (net : Net) (blocks : List (List ℕ))
      → All (IsBlock 1000) blocks
      → packet_id + length blocks < 2 ^ 32
      → send_blocks link never k packet_id net blocks
        ≡ (true, after_all net (data_wires packet_id blocks))
  unfolding send_blocks
  send_blocks_lem k packet_id net [] ok h = refl
  send_blocks_lem k packet_id net (block ∷ blocks) ok h = ground (
    arith,
    send_block_lem packet_id net block,
    send_blocks_lem (k + 1) (packet_id + 1) (after_send net (data_wire packet_id block)) blocks,
  )

  -- The whole run of transfer_file.
  transfer_file_lem :
      (net : Net) (bytes digest : List ℕ)
      → length (fread_blocks 1000 bytes) < 2 ^ 32
      → length digest ≡ 20
      → transfer_file link never (some (record { bytes = bytes; read_error = false })) digest net
        ≡ (
          true,
          after_all net (
              data_wires 0 (fread_blocks 1000 bytes)
              ++ payload_wire Protocol.terminate digest ∷ []),
        )
  unfolding transfer_file
  transfer_file_lem net bytes digest h size = ground (
    arith,
    send_blocks_lem 0 0 net (fread_blocks 1000 bytes)
        (fread_all-IsBlock (length bytes) 1000 bytes (omega arith)),
    RoundTrip.build_terminate_packet_lem digest size,
    send_logged_lem link delivers (after_all net (data_wires 0 (fread_blocks 1000 bytes)))
        (payload_wire Protocol.terminate digest),
    after_all-append net (data_wires 0 (fread_blocks 1000 bytes))
        (payload_wire Protocol.terminate digest ∷ []),
  )

-- A datagram from the server, with no signal pending.
abbrev pub arriving : Peer → List ℕ → Event
arriving server wire = record { stopped = false; arrival = datagram server wire }

-- A file system on which every call succeeds.
pub record Works (disk : Disk) : Type 0 where
  pub writes : (k : ℕ) (bytes : List ℕ) → disk.fwrite k bytes ≡ length bytes
  pub reopens : disk.opens ≡ true
  pub rereads : disk.read_error ≡ false
  pub commits : disk.renames ≡ true

module _ (disk : Disk) (works : Works disk) (server : Peer) where
  data_step :
      (r : Receiver) (block : List ℕ)
      → length block ≤ 1000
      → r.expected_packet_id + 1 < 2 ^ 32
      → transfer_step disk server r (datagram server (data_wire r.expected_packet_id block))
        ≡ continues (record {
          expected_packet_id = r.expected_packet_id + 1;
          received_bytes = u64 (r.received_bytes + length block);
          out = r.out ++ block;
        })
  unfolding transfer_step
  data_step r block h small = ground (
    arith,
    recv_data server r.expected_packet_id block (omega arith) h,
    is_same_peer_refl server,
    take_all block,
    works.writes r.expected_packet_id block,
  )

  terminate_step :
      (r : Receiver)
      → transfer_step disk server r
          (datagram server (payload_wire Protocol.terminate (fips_sha1 r.out)))
        ≡ committed r.out
  unfolding transfer_step local_digest digests_match
  terminate_step r = ground (
    arith,
    fips_sha1_size r.out,
    recv_terminate server (fips_sha1 r.out),
    is_same_peer_refl server,
    works.reopens,
    works.rereads,
    works.commits,
    sha1_file_lem r.out,
    bytes_eq_iff (take 20 (fips_sha1 r.out)) (take 20 (fips_sha1 r.out)),
  )

  pub receives_blocks :
      (blocks : List (List ℕ)) (r : Receiver)
      → All (IsBlock 1000) blocks
      → r.expected_packet_id + length blocks < 2 ^ 32
      → transfer_loop disk server r (
          map (arriving server) (
            data_wires r.expected_packet_id blocks
            ++ payload_wire Protocol.terminate (fips_sha1 (r.out ++ concat blocks)) ∷ []))
        ≡ output (r.out ++ concat blocks)
  unfolding transfer_loop
  receives_blocks [] r ok h = rw append-nil (rw (terminate_step r) refl)
  receives_blocks (block ∷ blocks) r ok h = ground (
    arith,
    data_step r block,
    append_assoc r.out block (concat blocks),
    receives_blocks blocks (record {
      expected_packet_id = r.expected_packet_id + 1;
      received_bytes = u64 (r.received_bytes + length block);
      out = r.out ++ block;
    }),
  )

  -- With a link that delivers, a file of fewer than 2 ^ 32 blocks that is read without error, and
  -- a file system that works: transfer_file succeeds, and the client that receives what was sent,
  -- in order, commits exactly the bytes of the file.
  pub plain_transfer :
      (link : Link) (net : Net) (bytes : List ℕ)
      → Delivers link
      → length (fread_blocks 1000 bytes) < 2 ^ 32
      → (wires : List (List ℕ)) × (transfer_file link never
            (some (record { bytes = bytes; read_error = false }))
            (fips_sha1 bytes)
            net
          ≡ (true, after_all net wires))
        × ((after_all net wires).sent ≡ net.sent ++ wires)
        × (transfer_loop disk server fresh (map (arriving server) wires) ≡ output bytes)
  plain_transfer link net bytes delivers few =
      let blocks = fread_blocks 1000 bytes in
      let wires : List (List ℕ) =
        data_wires 0 blocks ++ payload_wire Protocol.terminate (fips_sha1 bytes) ∷ [] in
      let whole : concat blocks ≡ bytes =
        concat-fread_all (length bytes) 1000 bytes (omega arith) (omega arith) in
      let ok = fread_all-IsBlock (length bytes) 1000 bytes (omega arith) in
      (
        wires,
        transfer_file_lem link delivers net bytes (fips_sha1 bytes) few (fips_sha1_size bytes).0,
        sent-after_all net wires,
        rw whole at (receives_blocks blocks fresh ok (omega arith)),
      )
