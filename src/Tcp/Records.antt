-- ===== src/Tcp/Records.antt =====
-- The APP_DATA records of a whole file, at the server and at the client of tls-like.
use udp_secure_transfer.Prelude.{ℕ, suc, ◌+◌, ◌≤◌, ◌<◌, ◌^◌, ◌≡◌, refl, arith, ap, sym, ◌∙◌, All}
use udp_secure_transfer.Prelude.{Bool, true, false, some, List, [], ◌∷◌, ◌++◌, length}
use udp_secure_transfer.Prelude.{take, drop, replicate, concat, append_assoc, append-nil, IsBytes}
use udp_secure_transfer.Prelude.{bytes_eq_iff, front_of}
use udp_secure_transfer.Sha1.Padding.{fips_sha1}
use udp_secure_transfer.Sha1.File.{IsBlock, sha1_file_lem, fips_sha1_size}
use udp_secure_transfer.Demo.Frame.{DemoFrame, frame_bytes}
use udp_secure_transfer.Tcp.Sealed.{frame_of, record_of, length-record_of, tls_payload_app_data_lem}
use udp_secure_transfer.Tcp.Sealed.{verify-record_of}
use udp_secure_transfer.Tcp.Server.{Connection, Sockets, recv_on, terminate, app_data}
use udp_secure_transfer.Tcp.Flow.{Up, send_on-IsSent, recv_on-IsRead}
use udp_secure_transfer.Tcp.Transfer.{Demonstration, BlocksSent, all_sent, send_record, tls_blocks}
use udp_secure_transfer.Tcp.Client.{Files, StreamReceiver, ClientRun, output, continues, commit}
use udp_secure_transfer.Tcp.Client.{take_record, tls_frame, tls_receive, read_over}

-- A transfer in which nothing is tampered with or replayed, and memory is there.
abbrev pub genuine : Demonstration
genuine = record {
  tamper_finished = false;
  tamper_app_data = false;
  replay_mode = false;
  allocated = true;
}

-- The frames of some blocks, numbered from `seq` on.
abbrev pub app_frames : List ℕ → ℕ → List (List ℕ) → List ℕ
app_frames key seq [] = []
app_frames key seq (block ∷ blocks) =
    frame_bytes app_data (record_of seq block key false) ++ app_frames key (seq + 1) blocks

pub record AllSent (c : Connection) (bytes : List ℕ) (result : BlocksSent) : Type 0 where
  pub next : Connection
  pub returns : result ≡ all_sent next
  pub sent : next.outgoing.sent ≡ c.outgoing.sent ++ bytes
  pub incoming : next.incoming ≡ c.incoming

module _ (sockets : Sockets) (up : Up sockets) (key : List ℕ) where
  record_sent :
      (seq : ℕ) (c : Connection) (block : List ℕ)
      → length block ≤ 1000
      → AllSent c
          (frame_bytes app_data (record_of seq block key false))
          (send_record sockets genuine key seq c block)
  record_sent seq c block h =
      let payload = record_of seq block key false in
      let size = length-record_of seq block key false in
      let w = send_on-IsSent sockets up c app_data payload false (omega (arith, size)) in
      record {
        next = w.next;
        returns =
            unfold send_record in
            ground (arith, tls_payload_app_data_lem seq block key false (omega arith), w.returns);
        sent = w.sent;
        incoming = w.incoming;
      }

  goes_on :
      (seq : ℕ) (c c' : Connection) (block : List ℕ) (blocks : List (List ℕ))
      → send_record sockets genuine key seq c block ≡ all_sent c'
      → seq + 1 < 2 ^ 32
      → tls_blocks sockets genuine key seq c (block ∷ blocks)
        ≡ tls_blocks sockets genuine key (seq + 1) c' blocks
  unfolding tls_blocks
  goes_on seq c c' block blocks e few = ground (arith, e)

  pub tls_blocks-AllSent :
      (seq : ℕ) (c : Connection) (blocks : List (List ℕ))
      → All (IsBlock 1000) blocks
      → seq + length blocks < 2 ^ 32
      → AllSent c (app_frames key seq blocks) (tls_blocks sockets genuine key seq c blocks)
  tls_blocks-AllSent seq c [] ok few = record {
    next = c;
    returns = unfold tls_blocks in refl;
    sent = sym (append-nil c.outgoing.sent);
    incoming = refl;
  }
  tls_blocks-AllSent seq c (block ∷ blocks) ok few =
      let one = record_sent seq c block ok.0.1 in
      let more = tls_blocks-AllSent (seq + 1) one.next blocks ok.1 (omega arith) in
      record {
        next = more.next;
        returns = goes_on seq c one.next block blocks one.returns (omega arith) ∙ more.returns;
        sent =
            more.sent
            ∙ ap (λ l. l ++ app_frames key (seq + 1) blocks) one.sent
            ∙ append_assoc c.outgoing.sent (frame_bytes app_data (record_of seq block key false))
                (app_frames key (seq + 1) blocks);
        incoming = more.incoming ∙ one.incoming;
      }

-- All is written, can be read again, and `rename` puts it in place.
pub record Works (files : Files) : Type 0 where
  pub writes : (bytes : List ℕ) → files.fwrite bytes ≡ length bytes
  pub reopens : files.opens ≡ true
  pub rereads : files.read_error ≡ false
  pub commits : files.renames ≡ true

-- The digest of what has been written is taken.
pub commit_lem :
    (files : Files) (works : Works files) (out buffer : List ℕ) (c : Connection)
    → commit files out (read_over buffer (fips_sha1 out)) c ≡ output out true c
unfolding commit
commit_lem files works out buffer c =
    let digest = fips_sha1 out in
    ground (
      arith,
      works.reopens,
      works.rereads,
      works.commits,
      sha1_file_lem out,
      front_of 20 digest (drop (length digest) buffer) (fips_sha1_size out).0,
      (bytes_eq_iff digest digest).1 refl,
    )

-- The client has read everything up to `later`, and written the file.
pub record IsOutput (c : Connection) (files : Files) (bytes later : List ℕ) (result : ClientRun)
    : Type 0 where
  pub next : Connection
  pub returns : result ≡ output bytes true next
  pub left : next.incoming.pending ≡ later
  pub outgoing : next.outgoing ≡ c.outgoing

module _ (sockets : Sockets) (up : Up sockets) (files : Files) (works : Works files) (key : List ℕ)
    (key_bytes : IsBytes key) where
  read_on :
      (r r' : StreamReceiver) (frame : DemoFrame) (c c' : Connection) (stops : List Bool)
      → recv_on sockets c ≡ some (frame, c')
      → tls_frame true files key r frame c' ≡ continues r'
      → tls_receive sockets true files key r c (false ∷ stops)
        ≡ tls_receive sockets true files key r' c' stops
  unfolding tls_receive
  read_on r r' frame c c' stops e step = ground (arith, e, step)

  terminate_read :
      (r : StreamReceiver) (c c' : Connection) (stops : List Bool)
      → recv_on sockets c ≡ some (frame_of terminate (fips_sha1 r.out), c')
      → tls_receive sockets true files key r c (false ∷ stops) ≡ output r.out true c'
  unfolding tls_receive tls_frame
  terminate_read r c c' stops e = ground (arith, e, commit_lem files works r.out r.buffer c')

  record_taken :
      (r : StreamReceiver) (block : List ℕ) (c : Connection)
      → length block ≤ 1000
      → IsBytes block
      → r.seen_seq + 1 < 2 ^ 32
      → let payload = record_of (r.seen_seq + 1) block key false in
        tls_frame true files key r (frame_of app_data payload) c
        ≡ continues (record {
          seen_seq = r.seen_seq + 1;
          out = r.out ++ block;
          buffer = read_over r.buffer (take 24 payload ++ block);
        })
  record_taken r block c size hb few =
      let e =
        verify-record_of files.fwrite app_data (r.seen_seq + 1) r.seen_seq block key r.out few
          (omega arith) (omega arith) hb key_bytes works.writes in
      unfold tls_frame in unfold take_record in ground (arith, e)

  pub tls_receive-IsOutput :
      (r : StreamReceiver) (c : Connection) (blocks : List (List ℕ)) (later : List ℕ)
      → All (λ b. IsBlock 1000 b × IsBytes b) blocks
      → r.seen_seq + length blocks < 2 ^ 32
      → c.incoming.pending
        ≡ app_frames key (r.seen_seq + 1) blocks
          ++ (frame_bytes terminate (fips_sha1 (r.out ++ concat blocks)) ++ later)
      → IsOutput c files
          (r.out ++ concat blocks)
          later
          (tls_receive sockets true files key r c (replicate (suc (length blocks)) false))
  tls_receive-IsOutput r c [] later ok few h =
      let same : r.out ++ [] ≡ r.out = append-nil r.out in
      let read =
        recv_on-IsRead sockets up c terminate (fips_sha1 r.out) later (omega arith)
          (omega (arith, fips_sha1_size r.out))
          (h ∙ ap (λ l. frame_bytes terminate (fips_sha1 l) ++ later) same) in
      record {
        next = read.next;
        returns =
            terminate_read r c read.next [] read.returns
            ∙ ap (λ l. output l true read.next) (sym same);
        left = read.left;
        outgoing = read.outgoing;
      }
  tls_receive-IsOutput r c (block ∷ blocks) later ok few h =
      let payload = record_of (r.seen_seq + 1) block key false in
      let behind : List ℕ =
        frame_bytes terminate (fips_sha1 (r.out ++ (block ++ concat blocks))) ++ later in
      let read =
        recv_on-IsRead sockets up c app_data payload
          (app_frames key (r.seen_seq + 1 + 1) blocks ++ behind) (omega arith)
          (omega (arith, length-record_of (r.seen_seq + 1) block key false, ok.0.0.1))
          (h
            ∙ append_assoc (frame_bytes app_data payload)
                (app_frames key (r.seen_seq + 1 + 1) blocks) behind) in
      let r' : StreamReceiver = record {
        seen_seq = r.seen_seq + 1;
        out = r.out ++ block;
        buffer = read_over r.buffer (take 24 payload ++ block);
      } in
      let whole : (r.out ++ block) ++ concat blocks ≡ r.out ++ (block ++ concat blocks) =
        append_assoc r.out block (concat blocks) in
      let more = tls_receive-IsOutput r' read.next blocks later ok.1 (omega arith) (
        read.left
        ∙ ap
            (λ l.
              app_frames key (r.seen_seq + 1 + 1) blocks
              ++ (frame_bytes terminate (fips_sha1 l) ++ later))
            (sym whole)) in
      record {
        next = more.next;
        returns =
            read_on r r' (frame_of app_data payload) c read.next
              (replicate (suc (length blocks)) false) read.returns
              (record_taken r block read.next ok.0.0.1 ok.0.1 (omega arith))
            ∙ more.returns
            ∙ ap (λ l. output l true more.next) whole;
        left = more.left;
        outgoing = more.outgoing ∙ read.outgoing;
      }
