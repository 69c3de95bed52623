-- ===== src/Tcp/Client.antt =====
-- main of src/tcp_demo_client.c from the end of the password dialogue on: the loop of tcp-basic,
-- the handshake and the loop of tls-like. The log entries are not modelled.
use udp_secure_transfer.Prelude.{ℕ, Bool, true, false, not, ◌&&◌, ◌||◌, none, some}
use udp_secure_transfer.Prelude.{List, [], ◌∷◌, ◌++◌, length, take, drop, bytes_eq, ltb, ◌==◌}
use udp_secure_transfer.Prelude.{if◌then◌else◌}
use udp_secure_transfer.Sha1.{sha1_file}
use udp_secure_transfer.Demo.Frame.{DemoFrame}
use udp_secure_transfer.Demo.Digest.{demo_derive_session_key}
use udp_secure_transfer.Tcp.Record.{sha1_digest_length, Writer, verify_tls_app_data, verified}
use udp_secure_transfer.Tcp.Server.{Connection, Sockets, send_on, recv_on, data_frame, terminate}
use udp_secure_transfer.Tcp.Server.{client_hello, server_hello, finished, app_data}
use udp_secure_transfer.Tcp.Transfer.{client_finished, server_finished}

-- What the file system does: how many bytes `fwrite` takes, whether the temporary file can be
-- opened again and read, and whether `rename` succeeds.
pub record Files : Type 0 where
  pub fwrite : Writer
  pub opens : Bool
  pub read_error : Bool
  pub renames : Bool

pub data Abort : Type 0 where
  hello_failed : Abort
  finished_failed : Abort
  finished_verify_failed : Abort
  receive_failed : Abort
  app_data_verify_failed : Abort
  missing_terminate : Abort
  digest_mismatch : Abort
  output_write_failed : Abort
  client_stopped : Abort

-- `output` is the return value 0, with the bytes of the temporary file, and whether `rename` has
-- moved it: its result is not looked at. `unfinished` is a loop that the listed tests do not bring
-- to an end.
pub data ClientRun : Type 0 where
  output : List ℕ → Bool → Connection → ClientRun
  aborted : Abort → ClientRun
  unfinished : ClientRun

-- `frame.payload[0..DEMO_MAX_PAYLOAD)`: a frame is read over what is there.
abbrev pub read_over : List ℕ → List ℕ → List ℕ
read_over buffer payload = payload ++ drop (length payload) buffer

-- `sha1_file(temp_path, local_digest) != 0 || memcmp(local_digest, frame.payload, 20) != 0`
unfoldable pub commit : Files → List ℕ → List ℕ → Connection → ClientRun
commit files out buffer c =
    let reopened =
      if files.opens then some (record { bytes = out; read_error = files.read_error }) else none in
    elim (sha1_file reopened) [
      | none ↦ aborted digest_mismatch
      | some local_digest ↦
          if not (bytes_eq local_digest (take sha1_digest_length buffer))
          then aborted digest_mismatch
          else output out files.renames c
    ]

pub record StreamReceiver : Type 0 where
  pub seen_seq : ℕ
  pub out : List ℕ
  pub buffer : List ℕ

pub data Step : Type 0 where
  continues : StreamReceiver → Step
  ends : ClientRun → Step

-- An APP_DATA frame, whose payload is decrypted in its place.
unfoldable pub take_record : Bool → Files → List ℕ → StreamReceiver → DemoFrame → Step
take_record allocated files key r frame =
    elim (verify_tls_app_data allocated files.fwrite frame key r.out r.seen_seq) [
      | verified payload out seen ↦
          continues (record { seen_seq = seen; out = out; buffer = read_over r.buffer payload })
      | _ ↦ ends (aborted app_data_verify_failed)
    ]

-- A frame in the loop of tls-like.
unfoldable pub tls_frame : Bool → Files → List ℕ → StreamReceiver → DemoFrame → Connection → Step
unfolding take_record
tls_frame allocated files key r frame c =
    if frame.type == app_data
    then take_record allocated files key r frame
    else if frame.type == terminate
    then ends (commit files r.out (read_over r.buffer frame.payload) c)
    else ends (aborted missing_terminate)

-- `while (!stop_requested)`: the list has the values of stop_requested at the loop's tests. A
-- client that is stopped has read a frame that is not TERMINATE.
unfoldable pub tls_receive :
    Sockets → Bool → Files → List ℕ → StreamReceiver → Connection → List Bool → ClientRun
tls_receive sockets allocated files key r c [] = unfinished
tls_receive sockets allocated files key r c (true ∷ stops) = aborted missing_terminate
tls_receive sockets allocated files key r c (false ∷ stops) = elim (recv_on sockets c) [
  | none ↦ aborted receive_failed
  | some (frame, c') ↦ elim (tls_frame allocated files key r frame c') [
    | continues r' ↦ tls_receive sockets allocated files key r' c' stops
    | ends run ↦ run
  ]
]

-- From the server's FINISHED on. Its length is not looked at: 20 bytes of the buffer are compared.
unfoldable pub tls_check_server :
    Sockets → Bool → Files → List ℕ → List ℕ → Connection → List Bool → ClientRun
tls_check_server sockets allocated files key buffer c stops = elim (recv_on sockets c) [
  | none ↦ aborted finished_failed
  | some (frame, c') ↦
      let buffer' = read_over buffer frame.payload in
      let goes_on =
        tls_receive sockets allocated files key
          (record { seen_seq = 0; out = []; buffer = buffer' }) c' stops in
      if not (frame.type == finished)
      then aborted finished_failed
      else if not (bytes_eq (take sha1_digest_length buffer') (server_finished key))
      then aborted finished_verify_failed
      else goes_on
]

unfoldable pub tls_send_finished :
    Sockets → Bool → Files → List ℕ → List ℕ → Connection → List Bool → ClientRun
tls_send_finished sockets allocated files key buffer c stops =
    elim (send_on sockets c finished (client_finished key) false) [
      | none ↦ aborted finished_failed
      | some c' ↦ tls_check_server sockets allocated files key buffer c' stops
    ]

-- `buffer` is what `frame.payload` holds before, `password` the last one that was sent.
unfoldable pub tls_client :
    Sockets → Bool → Files → List ℕ → List ℕ → List ℕ → Connection → List Bool → ClientRun
tls_client sockets allocated files client_nonce password buffer c stops =
    elim (send_on sockets c client_hello client_nonce false) [
      | none ↦ aborted hello_failed
      | some c1 ↦ elim (recv_on sockets c1) [
        | none ↦ aborted hello_failed
        | some (frame, c2) ↦
            let goes_on =
              tls_send_finished sockets allocated files
                (demo_derive_session_key password client_nonce frame.payload)
                (read_over buffer frame.payload) c2 stops in
            if not (frame.type == server_hello) || not (frame.length == 16)
            then aborted hello_failed
            else goes_on
      ]
    ]

-- A frame in the loop of tcp-basic: `seen_seq` is not used there. A frame of another type is read
-- and left aside.
unfoldable pub basic_frame : Files → StreamReceiver → DemoFrame → Connection → Step
basic_frame files r frame c =
    let buffer = read_over r.buffer frame.payload in
    if frame.type == data_frame
    then (if ltb 0 frame.length && not (files.fwrite frame.payload == frame.length)
        then ends (aborted output_write_failed)
        else continues (record r { out = r.out ++ frame.payload; buffer = buffer }))
    else if frame.type == terminate
    then ends (commit files r.out buffer c)
    else continues (record r { buffer = buffer })

unfoldable pub basic_receive : Sockets → Files → StreamReceiver → Connection → List Bool → ClientRun
basic_receive sockets files r c [] = unfinished
basic_receive sockets files r c (true ∷ stops) = aborted client_stopped
basic_receive sockets files r c (false ∷ stops) = elim (recv_on sockets c) [
  | none ↦ aborted receive_failed
  | some (frame, c') ↦ elim (basic_frame files r frame c') [
    | continues r' ↦ basic_receive sockets files r' c' stops
    | ends run ↦ run
  ]
]
