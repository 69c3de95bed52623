-- ===== src/Tcp/Entered.antt =====
-- Who gets to the transfer of src/tcp_demo_server.c.
use udp_secure_transfer.Prelude.{ℕ, ◌+◌, ◌<◌, ◌≡◌, refl, arith, ap, sym, ◌∙◌, ◌⊎◌, inl, inr}
use udp_secure_transfer.Prelude.{Bool, true, false, some, Option-cases}
use udp_secure_transfer.Prelude.{List, [], ◌∷◌, bytes_eq, bytes_eq_iff}
use udp_secure_transfer.Prelude.{Bool-cases}
use udp_secure_transfer.Demo.Stream.{Incoming}
use udp_secure_transfer.Demo.Frame.{DemoFrame, send_frame, recv_frame}
use udp_secure_transfer.Tcp.Server.{pass_req, behind_send}
use udp_secure_transfer.Tcp.Server.{Connection, Sockets, send_on, recv_on, Turn, gives_up}
use udp_secure_transfer.Tcp.Server.{asks_again, accepts, password_turn, password_step, enters}
use udp_secure_transfer.Tcp.Server.{password_loop, pass_resp, pass_accept, accepted, serve_password}

-- Among the frames that are read one after the other from what is incoming, there is a PASS_RESP
-- with the password.
pub data Submits (sockets : Sockets) (password : List ℕ) : Incoming → Type 0 where
  submitted :
      {s s' : Incoming} (frame : DemoFrame)
      → recv_frame sockets.recv s ≡ some (frame, s')
      → frame.type ≡ pass_resp
      → frame.payload ≡ password
      → Submits sockets password s
  read :
      {s s' : Incoming} (frame : DemoFrame)
      → recv_frame sockets.recv s ≡ some (frame, s')
      → Submits sockets password s'
      → Submits sockets password s

-- stop_requested was set at one of the tests.
abbrev pub Stopped : List Bool → Type 0
Stopped [] = ⊥
Stopped (stop ∷ stops) = (stop ≡ true) ⊎ Stopped stops

turn_accepts :
    (sockets : Sockets) (password : List ℕ) (attempt : ℕ) (frame : DemoFrame) (c c' : Connection)
    → password_turn sockets password attempt frame c ≡ accepts c'
    → (frame.type ≡ pass_resp) × (frame.payload ≡ password)
unfolding password_turn accepted
turn_accepts sockets password attempt frame c c' h =
    elim (Bool-cases (bytes_eq frame.payload password)) [
      | inl e ↦ elim (Option-cases (send_on sockets c pass_accept [] false)) [
        | inl broken ↦ absurd (ground (arith, e, broken, h))
        | inr (c2, sent) ↦ (ground (arith, e, sent, h), (bytes_eq_iff frame.payload password).0 e)
      ]
      | inr e ↦ absurd (ground (arith, e, h))
    ]

incoming-behind_send :
    (sockets : Sockets) (c : Connection) (type : ℕ) (payload : List ℕ)
    → (behind_send c (send_on sockets c type payload false)).incoming ≡ c.incoming
unfolding behind_send send_on
incoming-behind_send sockets c type payload =
    elim (Option-cases (send_frame sockets.send c.outgoing type payload false)) [
      | inl e ↦ ground (arith, e)
      | inr (s, e) ↦ ground (arith, e)
    ]

turn_asks :
    (sockets : Sockets) (password : List ℕ) (attempt : ℕ) (frame : DemoFrame) (c c' : Connection)
    → password_turn sockets password attempt frame c ≡ asks_again c'
    → (attempt < 3) × (c'.incoming ≡ c.incoming)
unfolding password_turn accepted
turn_asks sockets password attempt frame c c' h =
    let same = incoming-behind_send sockets c pass_req [] in
    elim (Option-cases (send_on sockets c pass_accept [] false)) [
      | inl broken ↦ (ground (arith, broken, h), ground (arith, broken, h, same))
      | inr (c2, sent) ↦ (ground (arith, sent, h), ground (arith, sent, h, same))
    ]

Turn-cases :
    (t : Turn)
    → ((c : Connection) × (t ≡ gives_up c))
      ⊎ (((c : Connection) × (t ≡ asks_again c)) ⊎ ((c : Connection) × (t ≡ accepts c)))
Turn-cases (gives_up c) = inl (c, refl)
Turn-cases (asks_again c) = inr (inl (c, refl))
Turn-cases (accepts c) = inr (inr (c, refl))

received_from :
    (sockets : Sockets) (c c1 : Connection) (frame : DemoFrame)
    → recv_on sockets c ≡ some (frame, c1)
    → recv_frame sockets.recv c.incoming ≡ some (frame, c1.incoming)
unfolding recv_on
received_from sockets c c1 frame h = elim (Option-cases (recv_frame sockets.recv c.incoming)) [
  | inl e ↦ absurd (ground (arith, e, h))
  | inr ((f, s), e) ↦ ground (arith, e, h)
]

module _ (sockets : Sockets) (password : List ℕ) where
  step_accepts :
      (attempt : ℕ) (c c' : Connection)
      → password_step sockets password attempt c ≡ accepts c'
      → Submits sockets password c.incoming
  unfolding password_step
  step_accepts attempt c c' h = elim (Option-cases (recv_on sockets c)) [
    | inl e ↦ absurd (ground (arith, e, h))
    | inr ((frame, c1), e) ↦
        let (type, same) =
          turn_accepts sockets password attempt frame c1 c' (ground (arith, e, h)) in
        submitted frame (received_from sockets c c1 frame e) type same
  ]

  step_asks :
      (attempt : ℕ) (c c' : Connection)
      → password_step sockets password attempt c ≡ asks_again c'
      → (attempt < 3) × (Submits sockets password c'.incoming → Submits sockets password c.incoming)
  unfolding password_step
  step_asks attempt c c' h = elim (Option-cases (recv_on sockets c)) [
    | inl e ↦ absurd (ground (arith, e, h))
    | inr ((frame, c1), e) ↦
        let (few, same) = turn_asks sockets password attempt frame c1 c' (ground (arith, e, h)) in
        (few, λ s. read frame (received_from sockets c c1 frame e ∙ rw same refl) s)
  ]

  loop_sound :
      (attempt : ℕ) (c c' : Connection) (stops : List Bool)
      → attempt < 3
      → password_loop sockets password attempt false c stops ≡ enters c'
      → Submits sockets password c.incoming ⊎ Stopped stops
  loop_sound attempt c c' [] few h = absurd (unfold password_loop in ground (arith, h))
  loop_sound attempt c c' (true ∷ stops) few h = inr (inl refl)
  loop_sound attempt c c' (false ∷ stops) few h =
      elim (Turn-cases (password_step sockets password (attempt + 1) c)) [
        | inl (c1, t) ↦ absurd (unfold password_loop in ground (arith, few, t, h))
        | inr (inl (c1, t)) ↦
            let later : password_loop sockets password (attempt + 1) false c1 stops ≡ enters c' =
              unfold password_loop in ground (arith, few, t, h) in
            let (more, back) = step_asks (attempt + 1) c c1 t in
            elim (loop_sound (attempt + 1) c1 c' stops more later) [
              | inl s ↦ inl (back s)
              | inr s ↦ inr (inr s)
            ]
        | inr (inr (c1, t)) ↦ inl (step_accepts (attempt + 1) c c1 t)
      ]

  -- The server goes on to the transfer only if there is a PASS_RESP with the password among the
  -- frames that the connection holds, or stop_requested was set at a test of the password loop.
  pub serve_password_sound :
      (c c' : Connection) (stops : List Bool)
      → serve_password sockets password c stops ≡ enters c'
      → Submits sockets password c.incoming ⊎ Stopped stops
  unfolding behind_send
  serve_password_sound c c' stops h = elim (Option-cases (recv_on sockets c)) [
    | inl e ↦ absurd (unfold serve_password in ground (arith, e, h))
    | inr ((frame, c1), e) ↦ elim (Option-cases (send_on sockets c1 pass_req [] false)) [
      | inl broken ↦ absurd (unfold serve_password in ground (arith, e, broken, h))
      | inr (c2, sent) ↦
          let loop : password_loop sockets password 0 false c2 stops ≡ enters c' =
            unfold serve_password in ground (arith, e, sent, h) in
          let same : c2.incoming ≡ c1.incoming =
            ap (λ o. (behind_send c1 o).incoming) (sym sent)
            ∙ incoming-behind_send sockets c1 pass_req [] in
          elim (loop_sound 0 c2 c' stops (omega arith) loop) [
            | inl s ↦ inl (read frame (received_from sockets c c1 frame e ∙ rw same refl) s)
            | inr s ↦ inr s
          ]
    ]
  ]
