-- ===== src/Tcp/Session.antt =====
-- tls-like at both ends: run_tls_like of src/tcp_demo_server.c and main of src/tcp_demo_client.c.
use udp_secure_transfer.Prelude.{ℕ, suc, ◌+◌, ◌<◌, ◌^◌, ◌≡◌}
use udp_secure_transfer.Prelude.{true, false, some, List, ◌++◌, length}
use udp_secure_transfer.Prelude.{replicate, IsBytes}
use udp_secure_transfer.Sha1.{fread_blocks}
use udp_secure_transfer.Demo.Frame.{frame_bytes}
use udp_secure_transfer.Demo.Digest.{demo_derive_session_key}
use udp_secure_transfer.Tcp.Server.{Connection, Sockets}
use udp_secure_transfer.Tcp.Server.{client_hello, server_hello, finished}
use udp_secure_transfer.Tcp.Flow.{Up}
use udp_secure_transfer.Tcp.Transfer.{completed, run_tls_like}
use udp_secure_transfer.Tcp.Transfer.{client_finished}
use udp_secure_transfer.Tcp.Client.{Files, output}
use udp_secure_transfer.Tcp.Client.{tls_client}
use udp_secure_transfer.Tcp.Records.{genuine, Works}
use udp_secure_transfer.Tcp.AtServer.{file_frames, plain_file, server_side}
use udp_secure_transfer.Tcp.AtClient.{client_side}

-- On connections that stay up, in pieces of any sizes, with a genuine demonstration and the same
-- password at both ends, a file that is read without an error at the server, a
-- temporary file that is written, read again and renamed without an error at the client, and
-- memory for every record: each end, given
-- what the other sends, sends what the other is given. The server completes, and the client
-- ends with the bytes of the file as its output file. Nothing behind what is sent is read.
pub tls_transfer :
    (server_sockets client_sockets : Sockets) (files : Files)
    (password client_nonce server_nonce bytes buffer later later' : List ℕ) (s c : Connection)
    → Up server_sockets
    → Up client_sockets
    → Works files
    → length client_nonce ≡ 16
    → length server_nonce ≡ 16
    → IsBytes bytes
    → length (fread_blocks 1000 bytes) + 1 < 2 ^ 32
    → let key = demo_derive_session_key password client_nonce server_nonce in
      let from_server : List ℕ = frame_bytes server_hello server_nonce ++ file_frames key bytes in
      s.incoming.pending
        ≡ frame_bytes client_hello client_nonce
          ++ (frame_bytes finished (client_finished key) ++ later)
      → c.incoming.pending ≡ from_server ++ later'
      → ((s' : Connection) × (run_tls_like server_sockets genuine server_nonce password
              (some (plain_file bytes))
              (some (plain_file bytes))
              s
            ≡ completed s')
          × (s'.outgoing.sent ≡ s.outgoing.sent ++ from_server)
          × (s'.incoming.pending ≡ later))
        × ((c' : Connection) × (tls_client client_sockets true files client_nonce password buffer c
                (replicate (suc (length (fread_blocks 1000 bytes))) false)
              ≡ output bytes true c')
            × (c'.outgoing.sent
                ≡ c.outgoing.sent
                  ++ (frame_bytes client_hello client_nonce
                      ++ frame_bytes finished (client_finished key)))
            × (c'.incoming.pending ≡ later'))
tls_transfer server_sockets client_sockets files password client_nonce server_nonce bytes buffer
      later later' s c server_up client_up works hc hs hb few h h' =
    (
      server_side server_sockets server_up password client_nonce server_nonce bytes later s hc hs
          few h,
      client_side client_sockets client_up files works password client_nonce server_nonce bytes
          buffer later' c hc hs hb few h',
    )
