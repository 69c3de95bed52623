-- ===== src/Quic/Client.antt =====
-- The loop of main in src/quic_demo_client.c: STREAM frames are stored and acknowledged, CLOSE
-- sorts them and checks the digest. The log entries are not modelled.
use udp_secure_transfer.Prelude.{ℕ, Bool, false, not, ◌||◌, Option, none, some, List, []}
use udp_secure_transfer.Prelude.{◌∷◌, ◌++◌, length, take, bytes_eq, ltb, ◌==◌, if◌then◌else◌}
use udp_secure_transfer.Protocol.Recv.{Link, Net, send_all_packet}
use udp_secure_transfer.Sha1.{sha1_file}
use udp_secure_transfer.Tcp.Record.{sha1_digest_length}
use udp_secure_transfer.Tcp.Client.{Files}
use udp_secure_transfer.Quic.Packet.{
  QuicPacket, encode_packet, decode_packet, quic_stream, quic_ack,
}
use udp_secure_transfer.Quic.Packet.{quic_close}
use udp_secure_transfer.Quic.Sorted.{StreamChunk}

-- The size of the array `chunks`.
abbrev pub max_chunks : ℕ
max_chunks = 256

-- `sendto` and the test of what it returns are those of send_all_packet.
unfoldable pub send_packet_logged : Link → Net → QuicPacket → Bool × Net
send_packet_logged link net p = elim (encode_packet p) [
  | none ↦ (false, net)
  | some wire ↦ send_all_packet link net wire
]

-- One turn of the loop: stop_requested at its test, and what `recvfrom` puts into a buffer of 1219
-- bytes, `none` for an error or 0. Who the datagram is from is not looked at.
pub record QuicTurn : Type 0 where
  pub stopped : Bool
  pub wire : Option (List ℕ)

-- `none` is -1.
unfoldable pub recv_packet_logged : Option (List ℕ) → Option QuicPacket
recv_packet_logged none = none
recv_packet_logged (some wire) =
    let packet = decode_packet (take 1219 wire) in if length wire == 0 then none else packet

pub data QuicAbort : Type 0 where
  receive_failed : QuicAbort
  ack_failed : QuicAbort
  digest_mismatch : QuicAbort
  client_stopped : QuicAbort

-- `output` is the return value 0, with the bytes of the temporary file and whether `rename` has
-- moved it: its result is not looked at. `unfinished` is a loop that the listed turns do not bring
-- to an end.
pub data QuicRun : Type 0 where
  output : List ℕ → Bool → QuicRun
  aborted : QuicAbort → QuicRun
  unfinished : List StreamChunk → Net → QuicRun

-- The first 256 frames are stored, the others are left aside.
unfoldable pub store_stream : List StreamChunk → QuicPacket → List StreamChunk
store_stream chunks p =
    if ltb (length chunks) max_chunks
    then chunks ++ (record { stream_id = p.stream_id; seq = p.seq; payload = p.payload } ∷ [])
    else chunks

abbrev pub ack_of : QuicPacket → QuicPacket
ack_of p = record {
  type = quic_ack;
  flags = 0;
  stream_id = 0;
  connection_id = p.connection_id;
  seq = 0;
  ack = p.seq;
  retransmit_count = 0;
  payload_len = 0;
  payload = [];
}

-- The loop of `fwrite`, whose result is not looked at: the bytes that are taken.
unfoldable pub write_chunks : Files → List StreamChunk → List ℕ
write_chunks files [] = []
write_chunks files (c ∷ chunks) =
    take (files.fwrite c.payload) c.payload ++ write_chunks files chunks

module _ (link : Link) (files : Files) (qsort : List StreamChunk → List StreamChunk) where
  unfoldable pub finish : List StreamChunk → QuicPacket → QuicRun
  finish chunks p =
      let out = write_chunks files (qsort chunks) in
      let reopened =
        if files.opens
        then some (record { bytes = out; read_error = files.read_error })
        else none in
      elim (sha1_file reopened) [
        | none ↦ aborted digest_mismatch
        | some local_digest ↦
            if not (p.payload_len == sha1_digest_length)
              || not (bytes_eq local_digest (take sha1_digest_length p.payload))
            then aborted digest_mismatch
            else output out files.renames
      ]

  unfoldable pub quic_receive : List StreamChunk → Net → List QuicTurn → QuicRun
  quic_receive chunks net [] = unfinished chunks net
  quic_receive chunks net (turn ∷ turns) = elim (recv_packet_logged turn.wire) [
    | none ↦ if turn.stopped then aborted client_stopped else aborted receive_failed
    | some p ↦
        let sent = send_packet_logged link net (ack_of p) in
        let stored : QuicRun = quic_receive (store_stream chunks p) sent.1 turns in
        let other : QuicRun = quic_receive chunks net turns in
        if turn.stopped
        then aborted client_stopped
        else if p.type == quic_stream
        then (if sent.0 then stored else aborted ack_failed)
        else if p.type == quic_close
        then finish chunks p
        else other
  ]
