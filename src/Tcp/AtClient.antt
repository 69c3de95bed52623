-- ===== src/Tcp/AtClient.antt =====
-- main of src/tcp_demo_client.c, from the handshake of tls-like on, for a server that knows the
-- password.
use udp_secure_transfer.Prelude.{ℕ, suc, ◌+◌, ◌<◌, ◌^◌, ◌≡◌, refl, arith, ap, sym, ◌∙◌}
use udp_secure_transfer.Prelude.{true, false, List, [], ◌++◌, length}
use udp_secure_transfer.Prelude.{drop, replicate, concat, append_assoc, IsBytes}
use udp_secure_transfer.Prelude.{bytes_eq_iff, front_of}
use udp_secure_transfer.Sha1.{fread_blocks}
use udp_secure_transfer.Sha1.Padding.{fips_sha1}
use udp_secure_transfer.Sha1.File.{concat-fread_all, fread_all-IsBytes, fips_sha1_size}
use udp_secure_transfer.Demo.Frame.{frame_bytes}
use udp_secure_transfer.Demo.Digest.{demo_derive_session_key, demo_derive_session_key_lem}
use udp_secure_transfer.Tcp.Server.{Connection, Sockets, terminate}
use udp_secure_transfer.Tcp.Server.{client_hello, server_hello, finished}
use udp_secure_transfer.Tcp.Flow.{Up, send_on-IsSent, recv_on-IsRead}
use udp_secure_transfer.Tcp.Transfer.{client_finished, server_finished}
use udp_secure_transfer.Tcp.Client.{Files, output, tls_check_server, tls_send_finished}
use udp_secure_transfer.Tcp.Client.{tls_client, read_over}
use udp_secure_transfer.Tcp.Records.{app_frames, Works}
use udp_secure_transfer.Tcp.Records.{tls_receive-IsOutput}
use udp_secure_transfer.Tcp.AtServer.{
  client_finished_size, server_finished_size, then_sent, in_parts, file_frames,
}

session_key-IsBytes :
    (password left right : List ℕ) → IsBytes (demo_derive_session_key password left right)
session_key-IsBytes password left right =
    rw (demo_derive_session_key_lem password left right) (fips_sha1_size _).1

module _ (sockets : Sockets) (up : Up sockets) (files : Files) (works : Works files) where
  server_checked :
      (key bytes buffer later : List ℕ) (c : Connection)
      → IsBytes key
      → IsBytes bytes
      → length (fread_blocks 1000 bytes) + 1 < 2 ^ 32
      → c.incoming.pending ≡ file_frames key bytes ++ later
      → (next : Connection) × (tls_check_server sockets true files key buffer c
            (replicate (suc (length (fread_blocks 1000 bytes))) false)
          ≡ output bytes true next)
        × (next.outgoing ≡ c.outgoing)
        × (next.incoming.pending ≡ later)
  server_checked key bytes buffer later c hk hb few h =
      let blocks = fread_blocks 1000 bytes in
      let mac = server_finished key in
      let size = server_finished_size key in
      let whole : concat blocks ≡ bytes =
        concat-fread_all (length bytes) 1000 bytes (omega arith) (omega arith) in
      let behind =
        app_frames key 1 blocks ++ (frame_bytes terminate (fips_sha1 (concat blocks)) ++ later) in
      let r = recv_on-IsRead sockets up c finished mac behind (omega arith) (omega (arith, size)) (
        h
        ∙ in_parts (frame_bytes finished mac) (app_frames key 1 blocks)
            (frame_bytes terminate (fips_sha1 bytes)) later
        ∙ ap
            (λ l.
              frame_bytes finished mac
              ++ (app_frames key 1 blocks ++ (frame_bytes terminate (fips_sha1 l) ++ later)))
            (sym whole)) in
      let t =
        tls_receive-IsOutput sockets up files works key hk
          (record { seen_seq = 0; out = []; buffer = read_over buffer mac }) r.next blocks later
          (fread_all-IsBytes (length bytes) 1000 bytes (omega arith) hb) (omega arith) r.left in
      (
        t.next,
        unfold tls_check_server in
            ground (
              arith,
              r.returns,
              front_of 20 mac (drop (length mac) buffer) size,
              (bytes_eq_iff mac mac).1 refl,
              t.returns,
              whole,
            ),
        t.outgoing ∙ r.outgoing,
        t.left,
      )

  pub client_side :
      (password client_nonce server_nonce bytes buffer later : List ℕ) (c : Connection)
      → length client_nonce ≡ 16
      → length server_nonce ≡ 16
      → IsBytes bytes
      → length (fread_blocks 1000 bytes) + 1 < 2 ^ 32
      → let key = demo_derive_session_key password client_nonce server_nonce in
        c.incoming.pending
          ≡ (frame_bytes server_hello server_nonce ++ file_frames key bytes) ++ later
        → (next : Connection) × (tls_client sockets true files client_nonce password buffer c
              (replicate (suc (length (fread_blocks 1000 bytes))) false)
            ≡ output bytes true next)
          × (next.outgoing.sent
              ≡ c.outgoing.sent
                ++ (frame_bytes client_hello client_nonce
                    ++ frame_bytes finished (client_finished key)))
          × (next.incoming.pending ≡ later)
  client_side password client_nonce server_nonce bytes buffer later c hc hs hb few h =
      let key = demo_derive_session_key password client_nonce server_nonce in
      let hello = frame_bytes client_hello client_nonce in
      let w = send_on-IsSent sockets up c client_hello client_nonce false (omega (arith, hc)) in
      let r =
        recv_on-IsRead sockets up w.next server_hello server_nonce (file_frames key bytes ++ later)
          (omega arith) (omega (arith, hs))
          (ap (λ i. i.pending) w.incoming
            ∙ h
            ∙ append_assoc (frame_bytes server_hello server_nonce) (file_frames key bytes) later) in
      let f =
        send_on-IsSent sockets up r.next finished (client_finished key) false
          (omega (arith, client_finished_size key)) in
      let (next, returns, outgoing, left) =
        server_checked key bytes (read_over buffer server_nonce) later f.next
          (session_key-IsBytes password client_nonce server_nonce) hb few
          (ap (λ i. i.pending) f.incoming ∙ r.left) in
      (
        next,
        unfold tls_client in
            unfold tls_send_finished in
            ground (arith, w.returns, r.returns, hs, f.returns, returns),
        ap (λ o. o.sent) outgoing
            ∙ then_sent _ _ _ _ _ w.sent (
                f.sent ∙ ap (λ o. o.sent ++ frame_bytes finished (client_finished key)) r.outgoing),
        left,
      )
