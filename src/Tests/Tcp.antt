-- ===== src/Tests/Tcp.antt =====
-- The stream demonstrations, over sockets that move one byte a call.
use udp_secure_transfer.Prelude.{
  ℕ, suc, ◌+◌, ◌≤◌, ◌<◌, ◌^◌, ◌-◌, ◌≡◌, refl, arith, true, false, some, List, [],
}
use udp_secure_transfer.Prelude.{◌∷◌, ◌++◌, length, codes, replicate, ◌⊎◌, take, drop}
use udp_secure_transfer.Protocol.Bytes.{get_u32, put_u32}
use udp_secure_transfer.Sha1.{fread_blocks, fread_all}
use udp_secure_transfer.Sha1.Padding.{fips_sha1}
use udp_secure_transfer.Demo.Frame.{frame_bytes}
use udp_secure_transfer.Demo.Trip.{silent}
use udp_secure_transfer.Demo.Digest.{demo_hmac_sha1, demo_xor_crypt, demo_derive_session_key}
use udp_secure_transfer.Tcp.Record.{tls_payload_app_data, verify_tls_app_data, verified}
use udp_secure_transfer.Tcp.Record.{mac_fail}
use udp_secure_transfer.Tcp.Sealed.{frame_of, record_of, verify-record_of}
use udp_secure_transfer.Tcp.Sealed.{verify-tls_payload_app_data, verify_tls_app_data_sound}
use udp_secure_transfer.Tcp.Server.{Connection, Sockets, serve_password, enters, join_req, pass_req}
use udp_secure_transfer.Tcp.Server.{client_hello, server_hello, finished, app_data}
use udp_secure_transfer.Tcp.Entered.{Submits, Stopped, serve_password_sound}
use udp_secure_transfer.Tcp.Flow.{Up, serve_password_stopped}
use udp_secure_transfer.Tcp.Transfer.{run_tcp_basic, run_tls_like, completed, client_finished}
use udp_secure_transfer.Tcp.Client.{basic_receive, tls_client, output}
use udp_secure_transfer.Tcp.Records.{genuine, IsOutput}
use udp_secure_transfer.Tcp.AtServer.{plain_file, file_frames}
use udp_secure_transfer.Tcp.Session.{tls_transfer}
use udp_secure_transfer.Tcp.Basic.{basic_bytes, basic_transfer}
use udp_secure_transfer.Tests.Fixtures.{one_byte, one_byte-Flows, files, files-Works}

abbrev sockets : Sockets
sockets = record { send = one_byte; recv = one_byte }

sockets-Up : Up sockets
sockets-Up = record { sends = one_byte-Flows; receives = one_byte-Flows }

abbrev holding : List ℕ → Connection
holding pending = record { outgoing = silent; incoming = record { calls = 0; pending = pending } }

verify-tls_payload_app_data_example :
    (payload forged : List ℕ) × (tls_payload_app_data true 3 (codes "abc") (codes "key") false
      ≡ some payload)
    × (verify_tls_app_data true files.fwrite (frame_of app_data payload) (codes "key") [] 2
        ≡ verified (take 24 payload ++ codes "abc") (codes "abc") 3)
    × (tls_payload_app_data true 3 (codes "abc") (codes "key") true ≡ some forged)
    × (verify_tls_app_data true files.fwrite (frame_of app_data forged) (codes "key") [] 2
        ≡ mac_fail)
verify-tls_payload_app_data_example =
    verify-tls_payload_app_data files.fwrite app_data 3 2 (codes "abc") (codes "key") []
      (omega arith) (omega arith) (omega arith) (omega arith) (omega arith) (λ bytes. refl)

abbrev sample : List ℕ
sample = record_of 3 (codes "abc") (codes "key") false

verify_tls_app_data_sound_example :
    (24 ≤ length sample)
    × (2 < 3)
    × (3 ≡ get_u32 sample)
    × (take 20 (drop 4 sample)
        ≡ demo_hmac_sha1 (codes "key") (put_u32 3 ++ take (length sample - 24) (drop 24 sample)))
    × (codes "abc"
        ≡ [] ++ demo_xor_crypt (take (length sample - 24) (drop 24 sample)) (codes "key"))
verify_tls_app_data_sound_example =
    verify_tls_app_data_sound true files.fwrite (frame_of app_data sample) (codes "key") [] 2
      (take 24 sample ++ codes "abc") (codes "abc") 3
      (verify-record_of files.fwrite app_data 3 2 (codes "abc") (codes "key") [] (omega arith)
        (omega arith) (omega arith) (omega arith) (omega arith) (λ bytes. refl))

serve_password_stopped_example :
    (c' : Connection) × (serve_password sockets
        (codes "secret")
        (holding (frame_bytes join_req [] ++ []))
        (true ∷ [])
      ≡ enters c')
    × (c'.outgoing.sent ≡ [] ++ frame_bytes pass_req [])
    × (c'.incoming.pending ≡ [])
serve_password_stopped_example =
    serve_password_stopped sockets sockets-Up (codes "secret")
      (holding (frame_bytes join_req [] ++ [])) [] [] refl

stopped :
    (c' : Connection) × (serve_password sockets
        (codes "secret")
        (holding (frame_bytes join_req [] ++ []))
        (true ∷ [])
      ≡ enters c')
stopped =
    let (c', enters_it, sent, left) =
      serve_password_stopped sockets sockets-Up (codes "secret")
        (holding (frame_bytes join_req [] ++ [])) [] [] refl in
    (c', enters_it)

serve_password_sound_example :
    Submits sockets (codes "secret") (holding (frame_bytes join_req [] ++ [])).incoming
    ⊎ Stopped (true ∷ [])
serve_password_sound_example =
    serve_password_sound sockets (codes "secret") (holding (frame_bytes join_req [] ++ [])) _
      (true ∷ []) stopped.1

abbrev client_nonce : List ℕ
client_nonce = replicate 16 1

abbrev server_nonce : List ℕ
server_nonce = replicate 16 2

abbrev key : List ℕ
key = demo_derive_session_key (codes "secret") client_nonce server_nonce

few_blocks : length (fread_blocks 1000 (codes "abc")) + 1 < 2 ^ 32
unfolding fread_all
few_blocks = omega arith

abbrev from_client : List ℕ
from_client =
    frame_bytes client_hello client_nonce ++ (frame_bytes finished (client_finished key) ++ [])

abbrev from_server : List ℕ
from_server = frame_bytes server_hello server_nonce ++ file_frames key (codes "abc")

tls_transfer_example :
    ((s' : Connection) × (run_tls_like sockets genuine server_nonce
          (codes "secret")
          (some (plain_file (codes "abc")))
          (some (plain_file (codes "abc")))
          (holding from_client)
        ≡ completed s')
      × (s'.outgoing.sent ≡ [] ++ from_server)
      × (s'.incoming.pending ≡ []))
    × ((c' : Connection) × (tls_client sockets true files client_nonce
            (codes "secret")
            []
            (holding (from_server ++ []))
            (replicate (suc (length (fread_blocks 1000 (codes "abc")))) false)
          ≡ output (codes "abc") true c')
        × (c'.outgoing.sent
            ≡ []
              ++ (frame_bytes client_hello client_nonce
                  ++ frame_bytes finished (client_finished key)))
        × (c'.incoming.pending ≡ []))
tls_transfer_example =
    tls_transfer sockets sockets files (codes "secret") client_nonce server_nonce (codes "abc") []
      [] [] (holding from_client) (holding (from_server ++ [])) sockets-Up sockets-Up files-Works
      refl refl (omega arith) few_blocks refl refl

basic_transfer_example :
    ((s' : Connection) × (run_tcp_basic sockets
          (holding [])
          (some (plain_file (codes "abc")))
          (fips_sha1 (codes "abc"))
          false
          true
        ≡ completed s')
      × (s'.outgoing.sent ≡ [] ++ basic_bytes (codes "abc")))
    × IsOutput (holding (basic_bytes (codes "abc") ++ (9 ∷ []))) files (codes "abc") (9 ∷ []) (
        basic_receive sockets files
          (record { seen_seq = 0; out = []; buffer = [] })
          (holding (basic_bytes (codes "abc") ++ (9 ∷ [])))
          (replicate (suc (length (fread_blocks 1000 (codes "abc")))) false))
basic_transfer_example =
    basic_transfer sockets sockets files (codes "abc") [] (9 ∷ []) true (holding [])
      (holding (basic_bytes (codes "abc") ++ (9 ∷ []))) sockets-Up sockets-Up files-Works refl
