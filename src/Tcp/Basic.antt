-- ===== src/Tcp/Basic.antt =====
-- tcp-basic at both ends: run_tcp_basic of src/tcp_demo_server.c and the last loop of
-- src/tcp_demo_client.c.
use udp_secure_transfer.Prelude.{ℕ, suc, ◌+◌, ◌≡◌, refl, arith, ap, sym, ◌∙◌, All}
use udp_secure_transfer.Prelude.{Bool, true, false, ◌&&◌, some, List, [], ◌∷◌, ◌++◌, length, ◌==◌}
use udp_secure_transfer.Prelude.{replicate, concat, append_assoc, append-nil}
use udp_secure_transfer.Sha1.{fread_blocks}
use udp_secure_transfer.Sha1.Padding.{fips_sha1}
use udp_secure_transfer.Sha1.File.{IsBlock, concat-fread_all, fread_all-IsBlock, fips_sha1_size}
use udp_secure_transfer.Demo.Frame.{DemoFrame, frame_bytes}
use udp_secure_transfer.Tcp.Sealed.{frame_of}
use udp_secure_transfer.Tcp.Server.{Connection, Sockets, send_on, recv_on, terminate, data_frame}
use udp_secure_transfer.Tcp.Flow.{Up, send_on-IsSent, recv_on-IsRead}
use udp_secure_transfer.Tcp.Transfer.{basic_blocks, run_tcp_basic, send_digest, completed}
use udp_secure_transfer.Tcp.Client.{
  Files, StreamReceiver, output, continues, read_over, basic_frame,
}
use udp_secure_transfer.Tcp.Client.{basic_receive}
use udp_secure_transfer.Tcp.Records.{AllSent, Works, IsOutput, commit_lem}
use udp_secure_transfer.Tcp.AtServer.{then_sent, plain_file}

abbrev pub data_frames : List (List ℕ) → List ℕ
data_frames [] = []
data_frames (block ∷ blocks) = frame_bytes data_frame block ++ data_frames blocks

module _ (sockets : Sockets) (up : Up sockets) (fragment_mode : Bool) where
  goes_on :
      (chunks : ℕ) (c c' : Connection) (block : List ℕ) (blocks : List (List ℕ))
      → send_on sockets c data_frame block (fragment_mode && (chunks == 0)) ≡ some c'
      → basic_blocks sockets false fragment_mode chunks c (block ∷ blocks)
        ≡ basic_blocks sockets false fragment_mode (chunks + 1) c' blocks
  unfolding basic_blocks
  goes_on chunks c c' block blocks e = ground (arith, e)

  basic_blocks-AllSent :
      (chunks : ℕ) (c : Connection) (blocks : List (List ℕ))
      → All (IsBlock 1000) blocks
      → AllSent c (data_frames blocks) (basic_blocks sockets false fragment_mode chunks c blocks)
  basic_blocks-AllSent chunks c [] ok = record {
    next = c;
    returns = unfold basic_blocks in refl;
    sent = sym (append-nil c.outgoing.sent);
    incoming = refl;
  }
  basic_blocks-AllSent chunks c (block ∷ blocks) ok =
      let one =
        send_on-IsSent sockets up c data_frame block (fragment_mode && (chunks == 0))
          (omega (arith, ok.0.1)) in
      let more = basic_blocks-AllSent (chunks + 1) one.next blocks ok.1 in
      record {
        next = more.next;
        returns = goes_on chunks c one.next block blocks one.returns ∙ more.returns;
        sent = then_sent _ _ _ _ _ one.sent more.sent;
        incoming = more.incoming ∙ one.incoming;
      }

module _ (sockets : Sockets) (up : Up sockets) (files : Files) (works : Works files) where
  read_on :
      (r r' : StreamReceiver) (frame : DemoFrame) (c c' : Connection) (stops : List Bool)
      → recv_on sockets c ≡ some (frame, c')
      → basic_frame files r frame c' ≡ continues r'
      → basic_receive sockets files r c (false ∷ stops) ≡ basic_receive sockets files r' c' stops
  unfolding basic_receive
  read_on r r' frame c c' stops e step = ground (arith, e, step)

  terminate_read :
      (r : StreamReceiver) (c c' : Connection) (stops : List Bool)
      → recv_on sockets c ≡ some (frame_of terminate (fips_sha1 r.out), c')
      → basic_receive sockets files r c (false ∷ stops) ≡ output r.out true c'
  unfolding basic_receive basic_frame
  terminate_read r c c' stops e = ground (arith, e, commit_lem files works r.out r.buffer c')

  block_taken :
      (r : StreamReceiver) (block : List ℕ) (c : Connection)
      → basic_frame files r (frame_of data_frame block) c
        ≡ continues (record r { out = r.out ++ block; buffer = read_over r.buffer block })
  unfolding basic_frame
  block_taken r block c = ground (arith, works.writes block)

  basic_receive-IsOutput :
      (r : StreamReceiver) (c : Connection) (blocks : List (List ℕ)) (later : List ℕ)
      → All (IsBlock 1000) blocks
      → c.incoming.pending
        ≡ data_frames blocks
          ++ (frame_bytes terminate (fips_sha1 (r.out ++ concat blocks)) ++ later)
      → IsOutput c files
          (r.out ++ concat blocks)
          later
          (basic_receive sockets files r c (replicate (suc (length blocks)) false))
  basic_receive-IsOutput r c [] later ok h =
      let same : r.out ++ [] ≡ r.out = append-nil r.out in
      let read =
        recv_on-IsRead sockets up c terminate (fips_sha1 r.out) later (omega arith)
          (omega (arith, fips_sha1_size r.out))
          (h ∙ ap (λ l. frame_bytes terminate (fips_sha1 l) ++ later) same) in
      record {
        next = read.next;
        returns =
            terminate_read r c read.next [] read.returns
            ∙ ap (λ l. output l true read.next) (sym same);
        left = read.left;
        outgoing = read.outgoing;
      }
  basic_receive-IsOutput r c (block ∷ blocks) later ok h =
      let behind : List ℕ =
        frame_bytes terminate (fips_sha1 (r.out ++ (block ++ concat blocks))) ++ later in
      let read =
        recv_on-IsRead sockets up c data_frame block (data_frames blocks ++ behind) (omega arith)
          (omega (arith, ok.0.1))
          (h ∙ append_assoc (frame_bytes data_frame block) (data_frames blocks) behind) in
      let r' : StreamReceiver = record r {
        out = r.out ++ block;
        buffer = read_over r.buffer block;
      } in
      let whole : (r.out ++ block) ++ concat blocks ≡ r.out ++ (block ++ concat blocks) =
        append_assoc r.out block (concat blocks) in
      let more = basic_receive-IsOutput r' read.next blocks later ok.1 (
        read.left
        ∙ ap (λ l. data_frames blocks ++ (frame_bytes terminate (fips_sha1 l) ++ later))
            (sym whole)) in
      record {
        next = more.next;
        returns =
            read_on r r' (frame_of data_frame block) c read.next
              (replicate (suc (length blocks)) false) read.returns (block_taken r block read.next)
            ∙ more.returns
            ∙ ap (λ l. output l true more.next) whole;
        left = more.left;
        outgoing = more.outgoing ∙ read.outgoing;
      }

-- All that the server sends for a file.
abbrev pub basic_bytes : List ℕ → List ℕ
basic_bytes bytes = data_frames (fread_blocks 1000 bytes) ++ frame_bytes terminate (fips_sha1 bytes)

-- On connections that stay up, in pieces of any sizes, and with the first frame sent in one write
-- or in two: if the connection is not to be closed in the middle, then the server sends the file
-- and its digest and completes, and a client that is given what was sent, and anything behind it,
-- and whose temporary file is written, read again and renamed without an error, ends with the
-- bytes of the file as its output file.
pub basic_transfer :
    (server_sockets client_sockets : Sockets) (files : Files) (bytes buffer later : List ℕ)
    (fragment_mode : Bool) (s c : Connection)
    → Up server_sockets
    → Up client_sockets
    → Works files
    → c.incoming.pending ≡ basic_bytes bytes ++ later
    → ((s' : Connection) × (run_tcp_basic server_sockets s
            (some (plain_file bytes))
            (fips_sha1 bytes)
            false
            fragment_mode
          ≡ completed s')
        × (s'.outgoing.sent ≡ s.outgoing.sent ++ basic_bytes bytes))
      × IsOutput c files bytes later (
          basic_receive client_sockets files
            (record { seen_seq = 0; out = []; buffer = buffer })
            c
            (replicate (suc (length (fread_blocks 1000 bytes))) false))
basic_transfer server_sockets client_sockets files bytes buffer later fragment_mode s c server_up
      client_up works h =
    let blocks = fread_blocks 1000 bytes in
    let ok = fread_all-IsBlock (length bytes) 1000 bytes (omega arith) in
    let whole : concat blocks ≡ bytes =
      concat-fread_all (length bytes) 1000 bytes (omega arith) (omega arith) in
    let digest : List ℕ = frame_bytes terminate (fips_sha1 bytes) in
    let b = basic_blocks-AllSent server_sockets server_up fragment_mode 0 s blocks ok in
    let t =
      send_on-IsSent server_sockets server_up b.next terminate (fips_sha1 bytes) false
        (omega (arith, fips_sha1_size bytes)) in
    let r =
      basic_receive-IsOutput client_sockets client_up files works
        (record { seen_seq = 0; out = []; buffer = buffer }) c blocks later ok
        (h
          ∙ append_assoc (data_frames blocks) digest later
          ∙ ap (λ l. data_frames blocks ++ (frame_bytes terminate (fips_sha1 l) ++ later))
              (sym whole)) in
    (
      (
        t.next,
        unfold run_tcp_basic in unfold send_digest in ground (arith, b.returns, t.returns),
        then_sent _ _ _ _ _ b.sent t.sent,
      ),
      record {
        next = r.next;
        returns = r.returns ∙ ap (λ l. output l true r.next) whole;
        left = r.left;
        outgoing = r.outgoing;
      },
    )
