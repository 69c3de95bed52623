-- ===== src/Tcp/Transfer.antt =====
-- run_tcp_basic and run_tls_like of src/tcp_demo_server.c.
use udp_secure_transfer.Prelude.{ℕ, ◌+◌, Bool, not, ◌&&◌, ◌||◌, Option, none, some, false}
use udp_secure_transfer.Prelude.{List, [], ◌∷◌, codes, bytes_eq, ◌==◌, u8, u32, bit_xor}
use udp_secure_transfer.Prelude.{if◌then◌else◌}
use udp_secure_transfer.Protocol.{data_chunk_size}
use udp_secure_transfer.Sha1.{FileBytes, fread_blocks, sha1_file}
use udp_secure_transfer.Demo.Digest.{demo_hmac_sha1, demo_derive_session_key}
use udp_secure_transfer.Tcp.Record.{sha1_digest_length, tls_payload_app_data}
use udp_secure_transfer.Tcp.Server.{Connection, Sockets, send_on, recv_on, behind_send, data_frame}
use udp_secure_transfer.Tcp.Server.{terminate, client_hello, server_hello, finished, app_data}

-- The return values -1, 1 and 0.
pub data Run : Type 0 where
  failed : Connection → Run
  demonstrated : Connection → Run
  completed : Connection → Run

-- How the loop over the file's blocks ends: a send that fails, the end of a demonstration, or the
-- end of the file.
pub data BlocksSent : Type 0 where
  broken : Connection → BlocksSent
  cut : Connection → BlocksSent
  all_sent : Connection → BlocksSent

unfoldable pub basic_blocks : Sockets → Bool → Bool → ℕ → Connection → List (List ℕ) → BlocksSent
basic_blocks sockets close_mid_transfer fragment_mode chunks c [] = all_sent c
basic_blocks sockets close_mid_transfer fragment_mode chunks c (block ∷ blocks) =
    elim (send_on sockets c data_frame block (fragment_mode && (chunks == 0))) [
      | none ↦ broken (behind_send c none)
      | some c' ↦
          let rest = basic_blocks sockets close_mid_transfer fragment_mode (chunks + 1) c' blocks in
          if close_mid_transfer && (chunks + 1 == 1) then cut c' else rest
    ]

-- TERMINATE with the digest.
unfoldable pub send_digest : Sockets → Connection → List ℕ → Run
send_digest sockets c digest = elim (send_on sockets c terminate digest false) [
  | none ↦ failed (behind_send c none)
  | some c' ↦ completed c'
]

-- `none` is a file that cannot be opened. `ferror` is not asked.
unfoldable pub run_tcp_basic : Sockets → Connection → Option FileBytes → List ℕ → Bool → Bool → Run
run_tcp_basic sockets c none digest close_mid_transfer fragment_mode = failed c
run_tcp_basic sockets c (some file) digest close_mid_transfer fragment_mode =
    elim (basic_blocks sockets close_mid_transfer fragment_mode 0 c
      (fread_blocks data_chunk_size file.bytes)) [
        | broken c' ↦ failed c'
        | cut c' ↦ demonstrated c'
        | all_sent c' ↦ send_digest sockets c' digest
      ]

-- What the demonstration of tls-like is to show, and whether `malloc` gives memory.
pub record Demonstration : Type 0 where
  pub tamper_finished : Bool
  pub tamper_app_data : Bool
  pub replay_mode : Bool
  pub allocated : Bool

unfoldable pub send_replay : Sockets → Connection → List ℕ → BlocksSent
send_replay sockets c payload = elim (send_on sockets c app_data payload false) [
  | none ↦ broken (behind_send c none)
  | some c' ↦ cut c'
]

-- One record of the loop: the connection behind it, or the end of the loop.
unfoldable pub send_record : Sockets → Demonstration → List ℕ → ℕ → Connection → List ℕ → BlocksSent
unfolding send_replay
send_record sockets d key seq c block =
    elim (tls_payload_app_data d.allocated seq block key (d.tamper_app_data && (seq == 1))) [
      | none ↦ broken c
      | some payload ↦ elim (send_on sockets c app_data payload false) [
        | none ↦ broken (behind_send c none)
        | some c' ↦
            if d.replay_mode && (seq == 1) then send_replay sockets c' payload else all_sent c'
      ]
    ]

unfoldable pub tls_blocks :
    Sockets → Demonstration → List ℕ → ℕ → Connection → List (List ℕ) → BlocksSent
tls_blocks sockets d key seq c [] = all_sent c
tls_blocks sockets d key seq c (block ∷ blocks) = elim (send_record sockets d key seq c block) [
  | broken c' ↦ broken c'
  | cut c' ↦ cut c'
  | all_sent c' ↦ tls_blocks sockets d key (u32 (seq + 1)) c' blocks
]

-- The digest of the file, which is read again, and TERMINATE.
unfoldable pub finish_tls : Sockets → Demonstration → Option FileBytes → Connection → Run
unfolding send_digest
finish_tls sockets d again c = elim (sha1_file again) [
  | none ↦ if d.tamper_app_data then demonstrated c else failed c
  | some digest ↦ if d.tamper_app_data then demonstrated c else send_digest sockets c digest
]

unfoldable pub client_finished : List ℕ → List ℕ
client_finished key = demo_hmac_sha1 key (codes "client-finished")

unfoldable pub server_finished : List ℕ → List ℕ
server_finished key = demo_hmac_sha1 key (codes "server-finished")

-- `reply[0] ^= 0x33U`
unfoldable pub spoiled : List ℕ → List ℕ
spoiled [] = []
spoiled (b ∷ reply) = u8 (bit_xor b 0x33) ∷ reply

-- From the server's FINISHED on.
unfoldable pub tls_send_file :
    Sockets → Demonstration → List ℕ → FileBytes → Option FileBytes → Connection → Run
unfolding spoiled
tls_send_file sockets d key file again c =
    let reply = server_finished key in
    elim (send_on sockets c finished (if d.tamper_finished then spoiled reply else reply) false) [
      | none ↦ failed (behind_send c none)
      | some c1 ↦
          let blocks : Run =
            elim (tls_blocks sockets d key 1 c1 (fread_blocks data_chunk_size file.bytes)) [
              | broken c2 ↦ failed c2
              | cut c2 ↦ demonstrated c2
              | all_sent c2 ↦ finish_tls sockets d again c2
            ] in
          if d.tamper_finished then demonstrated c1 else blocks
    ]

-- The client's FINISHED.
unfoldable pub tls_check_client :
    Sockets → Demonstration → List ℕ → FileBytes → Option FileBytes → Connection → Run
tls_check_client sockets d key file again c = elim (recv_on sockets c) [
  | none ↦ failed c
  | some (frame, c1) ↦
      let goes_on = tls_send_file sockets d key file again c1 in
      if not (frame.type == finished) || not (frame.length == sha1_digest_length)
      then failed c1
      else if not (bytes_eq frame.payload (client_finished key))
      then failed c1
      else goes_on
]

-- `server_nonce` is what demo_random_nonce gives, `file` what is read first and `again` what
-- sha1_file reads.
unfoldable pub run_tls_like :
    Sockets
    → Demonstration
    → List ℕ
    → List ℕ
    → Option FileBytes
    → Option FileBytes
    → Connection
    → Run
run_tls_like sockets d server_nonce password none again c = failed c
run_tls_like sockets d server_nonce password (some file) again c = elim (recv_on sockets c) [
  | none ↦ failed c
  | some (frame, c1) ↦
      let goes_on : Run = elim (send_on sockets c1 server_hello server_nonce false) [
        | none ↦ failed (behind_send c1 none)
        | some c2 ↦
            tls_check_client sockets d (demo_derive_session_key password frame.payload server_nonce)
              file again c2
      ] in
      if not (frame.type == client_hello) || not (frame.length == 16) then failed c1 else goes_on
]
