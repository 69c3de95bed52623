-- ===== src/Tcp/AtServer.antt =====
-- run_tls_like of src/tcp_demo_server.c for a client that knows the password.
use udp_secure_transfer.Prelude.{ℕ, ◌+◌, ◌<◌, ◌^◌, ◌≡◌, refl, arith, ap, ◌∙◌}
use udp_secure_transfer.Prelude.{false, some, List, ◌++◌, length}
use udp_secure_transfer.Prelude.{append_assoc}
use udp_secure_transfer.Prelude.{bytes_eq_iff}
use udp_secure_transfer.Sha1.{FileBytes, fread_blocks}
use udp_secure_transfer.Sha1.Padding.{fips_sha1}
use udp_secure_transfer.Sha1.File.{fread_all-IsBlock, sha1_file_lem, fips_sha1_size}
use udp_secure_transfer.Demo.Frame.{frame_bytes}
use udp_secure_transfer.Demo.Digest.{demo_derive_session_key}
use udp_secure_transfer.Demo.Digest.{demo_hmac_sha1_lem}
use udp_secure_transfer.Tcp.Server.{Connection, Sockets, terminate}
use udp_secure_transfer.Tcp.Server.{client_hello, server_hello, finished}
use udp_secure_transfer.Tcp.Flow.{Up, send_on-IsSent, recv_on-IsRead}
use udp_secure_transfer.Tcp.Transfer.{Run, completed, tls_send_file, tls_check_client, run_tls_like}
use udp_secure_transfer.Tcp.Transfer.{client_finished, server_finished, finish_tls, send_digest}
use udp_secure_transfer.Tcp.Records.{genuine, app_frames, tls_blocks-AllSent}

pub client_finished_size : (key : List ℕ) → length (client_finished key) ≡ 20
unfolding client_finished
client_finished_size key = rw demo_hmac_sha1_lem (fips_sha1_size _).0

pub server_finished_size : (key : List ℕ) → length (server_finished key) ≡ 20
unfolding server_finished
server_finished_size key = rw demo_hmac_sha1_lem (fips_sha1_size _).0

-- What is sent in two and in three steps.
pub then_sent : (x y z a b : List ℕ) → y ≡ x ++ a → z ≡ y ++ b → z ≡ x ++ (a ++ b)
then_sent x y z a b p q = q ∙ ap (λ l. l ++ b) p ∙ append_assoc x a b

in_a_row :
    (x y z w a b d : List ℕ) → y ≡ x ++ a → z ≡ y ++ b → w ≡ z ++ d → w ≡ x ++ (a ++ (b ++ d))
in_a_row x y z w a b d p q r = then_sent x y w a (b ++ d) p (then_sent y z w b d q r)

pub in_parts : (a b d later : List ℕ) → (a ++ (b ++ d)) ++ later ≡ a ++ (b ++ (d ++ later))
in_parts a b d later = append_assoc a (b ++ d) later ∙ ap (λ l. a ++ l) (append_assoc b d later)

-- What the server sends from its FINISHED on.
abbrev pub file_frames : List ℕ → List ℕ → List ℕ
file_frames key bytes =
    frame_bytes finished (server_finished key)
    ++ (app_frames key 1 (fread_blocks 1000 bytes) ++ frame_bytes terminate (fips_sha1 bytes))

abbrev pub plain_file : List ℕ → FileBytes
plain_file bytes = record { bytes = bytes; read_error = false }

-- A run of the server that has sent some more bytes.
pub record Completes (c : Connection) (bytes : List ℕ) (run : Run) : Type 0 where
  pub next : Connection
  pub returns : run ≡ completed next
  pub sent : next.outgoing.sent ≡ c.outgoing.sent ++ bytes
  pub incoming : next.incoming ≡ c.incoming

module _ (sockets : Sockets) (up : Up sockets) where
  file_sent :
      (key bytes : List ℕ) (c : Connection)
      → length (fread_blocks 1000 bytes) + 1 < 2 ^ 32
      → Completes c
          (file_frames key bytes)
          (tls_send_file sockets genuine key (plain_file bytes) (some (plain_file bytes)) c)
  file_sent key bytes c few =
      let blocks = fread_blocks 1000 bytes in
      let digest = fips_sha1 bytes in
      let f =
        send_on-IsSent sockets up c finished (server_finished key) false
          (omega (arith, server_finished_size key)) in
      let b =
        tls_blocks-AllSent sockets up key 1 f.next blocks
          (fread_all-IsBlock (length bytes) 1000 bytes (omega arith)) (omega arith) in
      let t =
        send_on-IsSent sockets up b.next terminate digest false
          (omega (arith, fips_sha1_size bytes)) in
      let end : finish_tls sockets genuine (some (plain_file bytes)) b.next ≡ completed t.next =
        unfold finish_tls in unfold send_digest in ground (arith, sha1_file_lem bytes, t.returns) in
      record {
        next = t.next;
        returns = unfold tls_send_file in ground (arith, f.returns, b.returns, end);
        sent = in_a_row _ _ _ _ _ _ _ f.sent b.sent t.sent;
        incoming = t.incoming ∙ b.incoming ∙ f.incoming;
      }

  client_checked :
      (key bytes later : List ℕ) (c : Connection)
      → length (fread_blocks 1000 bytes) + 1 < 2 ^ 32
      → c.incoming.pending ≡ frame_bytes finished (client_finished key) ++ later
      → (next : Connection) × (tls_check_client sockets genuine key
            (plain_file bytes)
            (some (plain_file bytes))
            c
          ≡ completed next)
        × (next.outgoing.sent ≡ c.outgoing.sent ++ file_frames key bytes)
        × (next.incoming.pending ≡ later)
  client_checked key bytes later c few h =
      let mac = client_finished key in
      let size = client_finished_size key in
      let r =
        recv_on-IsRead sockets up c finished mac later (omega arith) (omega (arith, size)) h in
      let s = file_sent key bytes r.next few in
      (
        s.next,
        unfold tls_check_client in
            ground (arith, size, r.returns, s.returns, (bytes_eq_iff mac mac).1 refl),
        s.sent ∙ ap (λ o. o.sent ++ file_frames key bytes) r.outgoing,
        ap (λ i. i.pending) s.incoming ∙ r.left,
      )

  pub server_side :
      (password client_nonce server_nonce bytes later : List ℕ) (c : Connection)
      → length client_nonce ≡ 16
      → length server_nonce ≡ 16
      → length (fread_blocks 1000 bytes) + 1 < 2 ^ 32
      → let key = demo_derive_session_key password client_nonce server_nonce in
        c.incoming.pending
          ≡ frame_bytes client_hello client_nonce
            ++ (frame_bytes finished (client_finished key) ++ later)
        → (next : Connection) × (run_tls_like sockets genuine server_nonce password
              (some (plain_file bytes))
              (some (plain_file bytes))
              c
            ≡ completed next)
          × (next.outgoing.sent
              ≡ c.outgoing.sent ++ (frame_bytes server_hello server_nonce ++ file_frames key bytes))
          × (next.incoming.pending ≡ later)
  server_side password client_nonce server_nonce bytes later c hc hs few h =
      let key = demo_derive_session_key password client_nonce server_nonce in
      let behind = frame_bytes finished (client_finished key) ++ later in
      let r =
        recv_on-IsRead sockets up c client_hello client_nonce behind (omega arith)
          (omega (arith, hc)) h in
      let w =
        send_on-IsSent sockets up r.next server_hello server_nonce false (omega (arith, hs)) in
      let (next, returns, sent, left) =
        client_checked key bytes later w.next few (ap (λ i. i.pending) w.incoming ∙ r.left) in
      (
        next,
        unfold run_tls_like in ground (arith, hc, r.returns, w.returns, returns),
        then_sent _ _ _ _ _
            (w.sent ∙ ap (λ o. o.sent ++ frame_bytes server_hello server_nonce) r.outgoing) sent,
        left,
      )
