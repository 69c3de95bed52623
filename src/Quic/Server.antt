-- ===== src/Quic/Server.antt =====
-- main of src/quic_demo_server.c from RECV_INITIAL on, in the scenarios other than stream-reorder
-- and zero-rtt-replay-risk. The log entries are not modelled.
use udp_secure_transfer.Prelude.{ℕ, zero, suc, ◌+◌, ◌-◌, Bool, not, ◌&&◌, Option}
use udp_secure_transfer.Prelude.{none, some, List, length, take, drop, min, u16, codes, ◌==◌}
use udp_secure_transfer.Prelude.{if◌then◌else◌}
use udp_secure_transfer.Protocol.Recv.{Link, Net}
use udp_secure_transfer.Quic.Packet.{
  QuicPacket, quic_stream, quic_ack, quic_close, quic_max_payload,
}
use udp_secure_transfer.Quic.Client.{send_packet_logged, recv_packet_logged}

abbrev pub quic_initial : ℕ
quic_initial = 60

abbrev pub quic_handshake : ℕ
quic_handshake = 61

abbrev pub quic_handshake_ack : ℕ
quic_handshake_ack = 62

-- What the k-th `recvfrom` gives, `none` for an error or a timeout. Who it is from is not looked
-- at.
abbrev pub Inbox : Type 0
Inbox = ℕ → Option (List ℕ)

-- What was sent, and the number of calls of `recvfrom`.
pub record QuicServer : Type 0 where
  pub net : Net
  pub received : ℕ

-- A packet after `memset`, with its type, connection and payload.
abbrev pub plain_packet : ℕ → ℕ → List ℕ → QuicPacket
plain_packet type connection payload = record {
  type = type;
  flags = 0;
  stream_id = 0;
  connection_id = connection;
  seq = 0;
  ack = 0;
  retransmit_count = 0;
  payload_len = length payload;
  payload = payload;
}

-- What the loop is at: the state of the server, or a failure.
pub data QuicProgress : Type 0 where
  goes_on : QuicServer → QuicProgress
  fails : QuicServer → QuicProgress

abbrev one_more : QuicServer → QuicServer
one_more s = record s { received = s.received + 1 }

unfoldable pub await_ack : Inbox → QuicServer → ℕ → QuicProgress
await_ack inbox s expect_ack = elim (recv_packet_logged (inbox s.received)) [
  | none ↦ fails (one_more s)
  | some p ↦
      if p.type == quic_ack && (p.ack == expect_ack)
      then goes_on (one_more s)
      else fails (one_more s)
]

module _ (link : Link) (inbox : Inbox) where
  unfoldable pub send_step : QuicServer → QuicPacket → QuicProgress
  send_step s p =
      let (sent, net) = send_packet_logged link s.net p in
      if sent then goes_on (record s { net = net }) else fails (record s { net = net })

  -- A STREAM frame and its ACK.
  unfoldable pub stream_step : Bool → ℕ → ℕ → List ℕ → QuicServer → QuicProgress
  unfolding send_step await_ack
  stream_step loss_recovery connection seq bytes s =
      let p = record (plain_packet quic_stream connection bytes) {
        stream_id = 1;
        seq = seq;
        retransmit_count = if loss_recovery && (seq == 1) then 1 else 0;
      } in
      elim (send_step s p) [ fails s' ↦ fails s' | goes_on s' ↦ await_ack inbox s' seq ]

  -- `while (offset < file_len)`, with `left` for `file_len - offset` and the bytes that `fread`
  -- has not given. Each turn sends a byte at least, so `file_len` turns are enough.
  unfoldable pub stream_loop : ℕ → Bool → ℕ → ℕ → ℕ → List ℕ → QuicServer → QuicProgress
  stream_loop zero loss_recovery connection seq left bytes s =
      if left == 0 then goes_on s else fails s
  stream_loop (suc fuel) loss_recovery connection seq left bytes s =
      let chunk = min left quic_max_payload in
      let got = take chunk bytes in
      let next : QuicProgress = elim (stream_step loss_recovery connection seq got s) [
        | fails s' ↦ fails s'
        | goes_on s' ↦
            stream_loop fuel loss_recovery connection (u16 (seq + 1)) (left - chunk)
              (drop chunk bytes) s'
      ] in
      if left == 0 then goes_on s else if not (length got == chunk) then fails s else next

  -- The stream and CLOSE: `file_len` is what `stat` says, `none` a file that cannot be opened.
  unfoldable pub serve_stream : Bool → ℕ → ℕ → Option (List ℕ) → List ℕ → QuicServer → QuicProgress
  serve_stream loss_recovery connection file_len none digest s = fails s
  serve_stream loss_recovery connection file_len (some bytes) digest s =
      elim (stream_loop file_len loss_recovery connection 1 file_len bytes s) [
        | fails s' ↦ fails s'
        | goes_on s' ↦ send_step s' (plain_packet quic_close connection digest)
      ]

  unfoldable pub serve_handshake : ℕ → QuicServer → QuicProgress
  serve_handshake connection s =
      elim (send_step s (plain_packet quic_handshake connection (codes "server-hello"))) [
        | fails s' ↦ fails s'
        | goes_on s' ↦ elim (recv_packet_logged (inbox s'.received)) [
          | none ↦ fails (one_more s')
          | some p ↦
              if p.type == quic_handshake_ack then goes_on (one_more s') else fails (one_more s')
        ]
      ]

  -- `goes_on` is the return value 0.
  unfoldable pub serve_quic : Bool → ℕ → Option (List ℕ) → List ℕ → QuicServer → QuicProgress
  serve_quic loss_recovery file_len file digest s = elim (recv_packet_logged (inbox s.received)) [
    | none ↦ fails (one_more s)
    | some p ↦
        let rest : QuicProgress = elim (serve_handshake p.connection_id (one_more s)) [
          | fails s' ↦ fails s'
          | goes_on s' ↦ serve_stream loss_recovery p.connection_id file_len file digest s'
        ] in
        if p.type == quic_initial then rest else fails (one_more s)
  ]
