-- ===== src/Server/Transfer.antt =====
-- transfer_file of src/server.c: DATA datagrams with consecutive ids, then TERMINATE.
use udp_secure_transfer.Prelude.{ℕ, ◌+◌, Bool, true, false, not, ◌||◌, Option, none, some}
use udp_secure_transfer.Prelude.{List, [], ◌∷◌, length, u32, if◌then◌else◌}
use udp_secure_transfer.Protocol.{max_datagram, data_chunk_size}
use udp_secure_transfer.Protocol.Build.{build_data_packet, build_terminate_packet}
use udp_secure_transfer.Protocol.Recv.{Link, Net}
use udp_secure_transfer.Protocol.Logged.{send_logged}
use udp_secure_transfer.Sha1.{FileBytes, fread_blocks}

-- The body of the loop for one block that `fread` returned.
unfoldable pub send_block : Link → ℕ → Net → List ℕ → Bool × Net
send_block link packet_id net block =
    elim (build_data_packet packet_id (some block) (length block) max_datagram) [
      | none ↦ (false, net)
      | some wire ↦ send_logged link net wire
    ]

-- `stop k` is stop_requested in the k-th turn. `packet_id` is a uint32_t.
unfoldable pub send_blocks : Link → (ℕ → Bool) → ℕ → ℕ → Net → List (List ℕ) → Bool × Net
unfolding send_block
send_blocks link stop k packet_id net [] = (true, net)
send_blocks link stop k packet_id net (block ∷ blocks) =
    let (sent, net') = send_block link packet_id net block in
    let rest = send_blocks link stop (k + 1) (u32 (packet_id + 1)) net' blocks in
    if stop k then (false, net) else if sent then rest else (false, net')

send_terminate : Link → Net → List ℕ → Bool × Net
send_terminate link net digest = elim (build_terminate_packet (some digest) max_datagram) [
  | none ↦ (false, net)
  | some wire ↦ send_logged link net wire
]

-- The file as it is when it is opened again; `true` is the return value 0.
unfoldable pub transfer_file : Link → (ℕ → Bool) → Option FileBytes → List ℕ → Net → Bool × Net
unfolding send_blocks send_terminate
transfer_file link stop none digest net = (false, net)
transfer_file link stop (some file) digest net =
    let (sent, net') = send_blocks link stop 0 0 net (fread_blocks data_chunk_size file.bytes) in
    if not sent || file.read_error then (false, net') else send_terminate link net' digest
