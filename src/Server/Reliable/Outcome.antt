-- ===== src/Server/Reliable/Outcome.antt =====
-- What transfer_file_reliable of src/server.c reports, from loading the file to TERMINATE.
use udp_secure_transfer.Prelude.{
  ℕ, zero, suc, ◌+◌, ◌-◌, ◌≤◌, ◌≡◌, refl, arith, ap, sym, ◌∙◌, ◌==◌, ◌*◌,
}
use udp_secure_transfer.Prelude.{if◌then◌else◌}
use udp_secure_transfer.Prelude.{true, false, some, Option-cases, List, [], ◌∷◌, ◌++◌, length}
use udp_secure_transfer.Prelude.{inl, inr}
use udp_secure_transfer.Protocol
use udp_secure_transfer.Protocol.{Packet, Peer, max_datagram}
use udp_secure_transfer.Protocol.Build.{build_data_packet}
use udp_secure_transfer.Prelude.{u32}
use udp_secure_transfer.Protocol.Recv.{Link, Net}
use udp_secure_transfer.Protocol.Logged.{Event, recv_logged_timeout}
use udp_secure_transfer.Sha1.{FileBytes, fread_blocks}
use udp_secure_transfer.Server.Reliable.{
  Clock, ReliableChunk, Faults, Memory, next_cap, load_chunk, load_chunks,
}
use udp_secure_transfer.Server.Reliable.{load_reliable_chunks}
use udp_secure_transfer.Server.Reliable.Window.{Transfer, is_acked}
use udp_secure_transfer.Server.Reliable.Window.{WindowResult, all_acked, window_loop}
use udp_secure_transfer.Server.Reliable.Window.{broken, still_sending, succeeded, start}
use udp_secure_transfer.Server.Reliable.Window.{transfer_file_reliable, after_window}
use udp_secure_transfer.Prelude.{All}
use udp_secure_transfer.Protocol.RoundTrip
use udp_secure_transfer.Protocol.RoundTrip.{payload_wire}
use udp_secure_transfer.Protocol.Delivery.{Delivers, after_send, send_logged_lem}
use udp_secure_transfer.Sha1.File.{IsBlock, fread_all-IsBlock}
use udp_secure_transfer.Server.Reliable.Window.{send_copies}
use udp_secure_transfer.Server.Reliable.Confirmed.{IsOpen, Confirms, Confirmed, open_Confirmed}
use udp_secure_transfer.Server.Reliable.Completes.{Heard, Running, loop_completes}

load_chunk_acked :
    (faults : Faults) (count : ℕ) (block : List ℕ) (chunk : ReliableChunk)
    → load_chunk faults count block ≡ some chunk
    → chunk.acked ≡ false
unfolding load_chunk
load_chunk_acked faults count block chunk h =
    elim (Option-cases (build_data_packet (u32 count) (some block) (length block) max_datagram)) [
      | inl e ↦ ground (arith, e)
      | inr (wire, e) ↦ ground (arith, e)
    ]

first_chunk :
    (memory : Memory) (faults : Faults) (cap count : ℕ) (block : List ℕ) (blocks : List (List ℕ))
    (chunks : List ReliableChunk)
    → load_chunks memory faults cap count (block ∷ blocks) ≡ some chunks
    → (cap' : ℕ) × (chunk : ReliableChunk) × (rest : List ReliableChunk) × (load_chunk faults count
          block
        ≡ some chunk)
      × (load_chunks memory faults cap' (count + 1) blocks ≡ some rest)
      × (chunks ≡ chunk ∷ rest)
unfolding load_chunks
first_chunk memory faults cap count block blocks chunks h =
    elim (Option-cases (next_cap memory cap count)) [
      | inl g ↦ absurd (ground (arith, g))
      | inr (cap', g) ↦ elim (Option-cases (load_chunk faults count block)) [
        | inl e ↦ absurd (ground (arith, g, e))
        | inr (chunk, e) ↦ elim (Option-cases (load_chunks memory faults cap' (count + 1) blocks)) [
          | inl e' ↦ absurd (ground (arith, g, e, e'))
          | inr (rest, e') ↦ (cap', chunk, rest, e, e', ground (arith, g, e, e'))
        ]
      ]
    ]

unacked_cons :
    (chunk : ReliableChunk) (rest : List ReliableChunk)
    → chunk.acked ≡ false
    → ((i : ℕ) → is_acked rest i ≡ false)
    → (i : ℕ) → is_acked (chunk ∷ rest) i ≡ false
unfolding is_acked
unacked_cons chunk rest h later zero = h
unacked_cons chunk rest h later (suc i) = later i

-- What is loaded has one chunk for each block, and no chunk is acknowledged.
load_chunks_lem :
    (memory : Memory) (faults : Faults) (cap count : ℕ) (blocks : List (List ℕ))
    (chunks : List ReliableChunk)
    → load_chunks memory faults cap count blocks ≡ some chunks
    → (length chunks ≡ length blocks) × ((i : ℕ) → is_acked chunks i ≡ false)
load_chunks_lem memory faults cap count [] chunks h =
    let none_loaded : chunks ≡ [] = unfold load_chunks in ground arith in
    rw none_loaded (refl, λ i. unfold is_acked in refl)
load_chunks_lem memory faults cap count (block ∷ blocks) chunks h =
    let (cap', chunk, rest, one, more, whole) =
      first_chunk memory faults cap count block blocks chunks h in
    let (size, fresh) = load_chunks_lem memory faults cap' (count + 1) blocks rest more in
    rw whole
      (ap suc size, unacked_cons chunk rest (load_chunk_acked faults count block chunk one) fresh)

window_ended :
    (link : Link) (digest : List ℕ) (net' : Net) (r : WindowResult)
    → after_window link digest r ≡ succeeded net'
    → (t : Transfer) × (r ≡ all_acked t)
window_ended link digest net' (all_acked t) h = (t, refl)
window_ended link digest net' (broken t) h = absurd (unfold transfer_file_reliable in ground arith)
window_ended link digest net' (still_sending t) h =
    absurd (unfold transfer_file_reliable in ground arith)

one_more :
    (memory : Memory) (faults : Faults) (cap cap' count : ℕ) (block : List ℕ)
    (blocks : List (List ℕ)) (rest : List ReliableChunk)
    → IsBlock 1000 block
    → next_cap memory cap count ≡ some cap'
    → load_chunks memory faults cap' (count + 1) blocks ≡ some rest
    → (chunks : List ReliableChunk) × (load_chunks memory faults cap count (block ∷ blocks)
        ≡ some chunks)
one_more memory faults cap cap' count block blocks rest ok g e =
    elim (Option-cases (load_chunk faults count block)) [
      | inl none_built ↦ absurd (
          unfold load_chunk in
          ground (arith, RoundTrip.build_data_packet_lem (u32 count) block ok.1))
      | inr (chunk, built) ↦ (chunk ∷ rest, unfold load_chunks in ground (arith, g, built, e))
    ]

room_grows :
    (memory : Memory) (cap count : ℕ)
    → ((n : ℕ) → memory n ≡ true)
    → (cap' : ℕ) × (next_cap memory cap count ≡ some cap')
room_grows memory cap count plenty = elim (Option-cases (next_cap memory cap count)) [
  | inl e ↦ absurd (unfold next_cap in ground (arith, e, plenty (if cap == 0 then 32 else cap * 2)))
  | inr x ↦ x
]

-- Blocks of at most 1000 bytes can be loaded.
chunks_loaded :
    (memory : Memory)
    → ((n : ℕ) → memory n ≡ true)
    → (faults : Faults) (cap count : ℕ) (blocks : List (List ℕ)) → All (IsBlock 1000) blocks
    → (chunks : List ReliableChunk) × (load_chunks memory faults cap count blocks ≡ some chunks)
chunks_loaded memory plenty faults cap count [] ok = ([], unfold load_chunks in refl)
chunks_loaded memory plenty faults cap count (block ∷ blocks) ok =
    let (cap', g) = room_grows memory cap count plenty in
    let (rest, e) = chunks_loaded memory plenty faults cap' (count + 1) blocks ok.1 in
    one_more memory faults cap cap' count block blocks rest ok.0 g e

terminated :
    (link : Link) (delivers : Delivers link) (digest : List ℕ) (t : Transfer)
    → length digest ≡ 20
    → after_window link digest (all_acked t)
      ≡ succeeded (
          after_send
            (after_send
              (after_send t.sender.net (payload_wire Protocol.terminate digest))
              (payload_wire Protocol.terminate digest))
            (payload_wire Protocol.terminate digest))
unfolding transfer_file_reliable send_copies
terminated link delivers digest t size =
    let wire = payload_wire Protocol.terminate digest in
    ground (
      arith,
      RoundTrip.build_terminate_packet_lem digest size,
      send_logged_lem link delivers t.sender.net wire,
      send_logged_lem link delivers (after_send t.sender.net wire) wire,
      send_logged_lem link delivers (after_send (after_send t.sender.net wire) wire) wire,
    )

module _ (link : Link) (clock : Clock) (window timeout : ℕ) (peer : Peer) where
  -- If the server reports success for a file that is not empty, then among the events there was an
  -- ACK of the session's peer for all of its blocks, whatever the link did, whatever else arrived,
  -- and whatever faults were simulated.
  pub transfer_file_reliable-Confirmed :
      (memory : Memory) (faults : Faults) (file : FileBytes) (digest : List ℕ) (net net' : Net)
      (events : List Event)
      → 1 ≤ length (fread_blocks 1000 file.bytes)
      → transfer_file_reliable link clock window timeout peer memory faults
          (some file)
          digest
          net
          events
        ≡ succeeded net'
      → Confirmed link clock window timeout peer (length (fread_blocks 1000 file.bytes)) events
  transfer_file_reliable-Confirmed memory faults file digest net net' events some_blocks h =
      elim (Option-cases (load_reliable_chunks memory faults (some file))) [
        | inl e ↦ absurd (unfold transfer_file_reliable in ground (arith, e))
        | inr (chunks, e) ↦
            let blocks = fread_blocks 1000 file.bytes in
            let loaded =
              load_chunks_lem memory faults 0 0 blocks chunks (unfold load_reliable_chunks in e) in
            let ends : after_window link digest
                  (window_loop link clock window timeout peer (start chunks net) events)
                ≡ succeeded net' =
              unfold transfer_file_reliable in ground (arith, e) in
            let (t, all) =
              window_ended link digest net'
                (window_loop link clock window timeout peer (start chunks net) events) ends in
            let last = length blocks - 1 in
            let size : suc last ≡ length blocks = omega arith in
            let opened : IsOpen last (start chunks net) = record {
              count = loaded.0 ∙ sym size;
              behind = omega arith;
              unacked = loaded.1 last;
            } in
            rw (← size) (open_Confirmed link clock window timeout peer last events _ t opened all)
      ]

  -- On a link that delivers, and with memory for every array: if the waits up to some event are heard and that event brings an ACK
  -- of the peer for all blocks, and nothing stops the server, then the server reports success, and
  -- has sent TERMINATE with the digest three times at the end.
  pub transfer_file_reliable_completes :
      (memory : Memory) (faults : Faults) (bytes digest : List ℕ) (net : Net)
      (before rest : List Event) (e : Event)
      → (delivers : Delivers link) → (plenty : (cap : ℕ) → memory cap ≡ true) → length digest ≡ 20
      → All Heard before
      → Heard e
      → All Running rest
      → Confirms peer (length (fread_blocks 1000 bytes)) (recv_logged_timeout false e.arrival)
      → (net' : Net) × (transfer_file_reliable link clock window timeout peer memory faults
            (some (record { bytes = bytes; read_error = false }))
            digest
            net
            (before ++ (e ∷ rest))
          ≡ succeeded (
              after_send
                (after_send
                  (after_send net' (payload_wire Protocol.terminate digest))
                  (payload_wire Protocol.terminate digest))
                (payload_wire Protocol.terminate digest)))
  transfer_file_reliable_completes memory faults bytes digest net before rest e delivers plenty size
        heard now later c =
      let blocks = fread_blocks 1000 bytes in
      let (chunks, e') =
        chunks_loaded memory plenty faults 0 0 blocks
          (fread_all-IsBlock (length bytes) 1000 bytes (omega arith)) in
      let loaded = load_chunks_lem memory faults 0 0 blocks chunks e' in
      let (t', ends) =
        loop_completes link delivers clock window timeout peer (length blocks) before e rest
          (start chunks net) (loaded.0, omega arith) heard now later c in
      (
        t'.sender.net,
        unfold transfer_file_reliable in
            unfold load_reliable_chunks in
            ground (arith, e', ends, terminated link delivers digest t' size),
      )
