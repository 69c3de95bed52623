-- ===== src/Tcp/Flow.antt =====
-- Frames on the connection of src/tcp_demo_server.c and src/tcp_demo_client.c while it stays up.
use udp_secure_transfer.Prelude.{ℕ, ◌≤◌, ◌<◌, ◌^◌, ◌≡◌, refl, arith, ap, ◌∙◌, Bool, true, false}
use udp_secure_transfer.Prelude.{Option, some, List, [], ◌∷◌, ◌++◌, length}
use udp_secure_transfer.Demo.Stream.{Flows}
use udp_secure_transfer.Demo.Frame.{DemoFrame, frame_bytes, recv_frame}
use udp_secure_transfer.Demo.Trip.{send_frame-IsWritten, recv_frame-IsReceived}
use udp_secure_transfer.Tcp.Server.{Connection, Sockets, send_on, recv_on, pass_req, join_req}
use udp_secure_transfer.Tcp.Server.{enters, serve_password, password_loop}
use udp_secure_transfer.Tcp.Sealed.{frame_of}

-- Both sockets keep moving bytes.
pub record Up (sockets : Sockets) : Type 0 where
  pub sends : Flows sockets.send
  pub receives : Flows sockets.recv

pub record IsSent (c : Connection) (bytes : List ℕ) (result : Option Connection) : Type 0 where
  pub next : Connection
  pub returns : result ≡ some next
  pub sent : next.outgoing.sent ≡ c.outgoing.sent ++ bytes
  pub incoming : next.incoming ≡ c.incoming

pub record IsRead (c : Connection) (frame : DemoFrame) (later : List ℕ)
    (result : Option (DemoFrame × Connection)) : Type 0 where
  pub next : Connection
  pub returns : result ≡ some (frame, next)
  pub left : next.incoming.pending ≡ later
  pub outgoing : next.outgoing ≡ c.outgoing

module _ (sockets : Sockets) (up : Up sockets) where
  pub send_on-IsSent :
      (c : Connection) (type : ℕ) (payload : List ℕ) (fragment_mode : Bool)
      → length payload ≤ 4096
      → IsSent c (frame_bytes type payload) (send_on sockets c type payload fragment_mode)
  send_on-IsSent c type payload fragment_mode h =
      let w = send_frame-IsWritten sockets.send up.sends c.outgoing type payload fragment_mode h in
      record {
        next = record c { outgoing = w.after };
        returns = unfold send_on in ground (arith, w.returns);
        sent = w.sent;
        incoming = refl;
      }

  pub recv_on-IsRead :
      (c : Connection) (type : ℕ) (payload later : List ℕ)
      → type < 2 ^ 16
      → length payload ≤ 4096
      → c.incoming.pending ≡ frame_bytes type payload ++ later
      → IsRead c (frame_of type payload) later (recv_on sockets c)
  recv_on-IsRead c type payload later ht hp h =
      let r =
        recv_frame-IsReceived sockets.recv up.receives c.incoming.calls type payload later ht hp in
      let arrives : recv_frame sockets.recv c.incoming ≡ some (frame_of type payload, r.after) =
        ap (λ l. recv_frame sockets.recv (record { calls = c.incoming.calls; pending = l })) h
        ∙ r.returns in
      record {
        next = record c { incoming = r.after };
        returns = unfold recv_on in ground (arith, arrives);
        left = r.left;
        outgoing = refl;
      }

  -- While the connection stays up: if stop_requested is set before the first test of the password
  -- loop, then the server goes on to the transfer for a client that has only sent JOIN_REQ, and
  -- has answered it by PASS_REQ.
  pub serve_password_stopped :
      (password : List ℕ) (c : Connection) (later : List ℕ) (stops : List Bool)
      → c.incoming.pending ≡ frame_bytes join_req [] ++ later
      → (c' : Connection) × (serve_password sockets password c (true ∷ stops) ≡ enters c')
        × (c'.outgoing.sent ≡ c.outgoing.sent ++ frame_bytes pass_req [])
        × (c'.incoming.pending ≡ later)
  serve_password_stopped password c later stops h =
      let r = recv_on-IsRead c join_req [] later (omega arith) (omega arith) h in
      let w = send_on-IsSent r.next pass_req [] false (omega arith) in
      (
        w.next,
        unfold serve_password in unfold password_loop in ground (arith, r.returns, w.returns),
        w.sent ∙ ap (λ o. o.sent ++ frame_bytes pass_req []) r.outgoing,
        ap (λ i. i.pending) w.incoming ∙ r.left,
      )
