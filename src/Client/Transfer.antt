-- ===== src/Client/Transfer.antt =====
-- The plain transfer of `main` in src/client.c: DATA datagrams are written to the temporary file
-- in order, and TERMINATE decides whether the file is committed.
pub mod Safety
pub mod Verified
use udp_secure_transfer.Prelude.{ℕ, ◌+◌, Bool, true, false, not, ◌&&◌, Option, none, some, ltb}
use udp_secure_transfer.Prelude.{List, [], ◌∷◌, ◌++◌, length, take, u32, u64, ◌==◌, bytes_eq}
use udp_secure_transfer.Prelude.{if◌then◌else◌}
use udp_secure_transfer.Protocol
use udp_secure_transfer.Protocol.{Packet, Peer, digest_size}
use udp_secure_transfer.Protocol.Parse.{is_same_peer}
use udp_secure_transfer.Protocol.Recv.{Arrival}
use udp_secure_transfer.Protocol.Logged.{Logged, received, quiet, lost, recv_expected}
use udp_secure_transfer.Sha1.{FileBytes, sha1_file}
use udp_secure_transfer.Protocol.Logged.{Event, payload_bytes}
use udp_secure_transfer.Client.Auth.{ClientAbort, receive_failed, not_continuous, write_failed}
use udp_secure_transfer.Client.Auth.{digest_failed, digest_mismatch, commit_failed, stopped_early}
use udp_secure_transfer.Client.Auth.{unexpected_packet}

-- What the file system does: how many bytes `fwrite` takes for the packet with an id, whether the
-- temporary file can be opened again and read, and whether `rename` succeeds.
pub record Disk : Type 0 where
  pub fwrite : ℕ → List ℕ → ℕ
  pub opens : Bool
  pub read_error : Bool
  pub renames : Bool

-- `out` is what the temporary file holds.
pub record Receiver : Type 0 where
  pub expected_packet_id : ℕ
  pub received_bytes : ℕ
  pub out : List ℕ

abbrev pub fresh : Receiver
fresh = record { expected_packet_id = 0; received_bytes = 0; out = [] }

-- `committed` is OK with the output file's content; `removed` is ABORT, and no output file.
pub data TransferStep : Type 0 where
  continues : Receiver → TransferStep
  committed : List ℕ → TransferStep
  removed : ClientAbort → TransferStep

-- `sha1_file(temp_path, local_digest)` after `fclose(out)`.
unfoldable pub local_digest : Disk → List ℕ → Option (List ℕ)
local_digest disk out =
    sha1_file
      (if disk.opens then some (record { bytes = out; read_error = disk.read_error }) else none)

-- `memcmp(packet.payload, local_digest, PROTOCOL_DIGEST_SIZE) == 0`
unfoldable pub digests_match : Packet → List ℕ → Bool
digests_match p digest =
    bytes_eq (take digest_size (payload_bytes p.payload)) (take digest_size digest)

module _ (disk : Disk) (server : Peer) where
  pub receive_data : Receiver → Packet → TransferStep
  receive_data r p =
      let bytes = take p.payload_length (payload_bytes p.payload) in
      if not (p.packet_id == r.expected_packet_id)
      then removed not_continuous
      else if ltb 0 p.payload_length && not (disk.fwrite p.packet_id bytes == p.payload_length)
      then removed write_failed
      else continues (record {
        expected_packet_id = u32 (r.expected_packet_id + 1);
        received_bytes = u64 (r.received_bytes + p.payload_length);
        out = r.out ++ bytes;
      })

  pub receive_terminate : Receiver → Packet → TransferStep
  receive_terminate r p = elim (local_digest disk r.out) [
    | none ↦ removed digest_failed
    | some digest ↦
        if not (digests_match p digest)
        then removed digest_mismatch
        else if not disk.renames
        then removed commit_failed
        else committed r.out
  ]

  pub transfer_packet : Receiver → Logged → TransferStep
  unfolding receive_data receive_terminate
  transfer_packet r (received p from) =
      if not (is_same_peer server from)
      then removed receive_failed
      else if p.type == Protocol.data_packet
      then receive_data r p
      else if p.type == Protocol.terminate
      then receive_terminate r p
      else removed unexpected_packet
  transfer_packet r quiet = removed receive_failed
  transfer_packet r lost = removed receive_failed

  unfoldable pub transfer_step : Receiver → Arrival → TransferStep
  unfolding transfer_packet
  transfer_step r arrival = transfer_packet r (recv_expected arrival)

-- `unfinished` is a client that the listed events do not bring to an end.
pub data TransferResult : Type 0 where
  output : List ℕ → TransferResult
  aborted : ClientAbort → TransferResult
  unfinished : Receiver → TransferResult

module _ (disk : Disk) (server : Peer) where
  -- `while (!stop_requested)`
  unfoldable pub transfer_loop : Receiver → List Event → TransferResult
  transfer_loop r [] = unfinished r
  transfer_loop r (event ∷ events) =
      if event.stopped
      then aborted stopped_early
      else elim (transfer_step disk server r event.arrival) [
        | continues r' ↦ transfer_loop r' events
        | committed bytes ↦ output bytes
        | removed reason ↦ aborted reason
      ]
