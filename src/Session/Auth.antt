-- ===== src/Session/Auth.antt =====
-- The two sides of the password dialogue: main of src/client.c and main of src/server.c.
use udp_secure_transfer.Prelude.{ℕ, suc, ◌+◌, ◌≤◌, ◌<◌, ◌≡◌, ◌≢◌, refl, arith, ap, sym, ◌∙◌, All}
use udp_secure_transfer.Prelude.{Bool, false, some, List, [], ◌∷◌, ◌++◌, map, length}
use udp_secure_transfer.Prelude.{get_elem?, append_assoc, inl, inr}
use udp_secure_transfer.Prelude.{length-append}
use udp_secure_transfer.Protocol
use udp_secure_transfer.Protocol.{Peer}
use udp_secure_transfer.Protocol.RoundTrip
use udp_secure_transfer.Protocol.RoundTrip.{payload_wire, control_wire, HasNoNul}
use udp_secure_transfer.Protocol.Recv.{Link, Net, datagram}
use udp_secure_transfer.Protocol.Logged.{Event}
use udp_secure_transfer.Protocol.Delivery.{Delivers, after_send, send_logged_lem, send_control_lem}
use udp_secure_transfer.Protocol.Delivery.{recv_control, is_same_peer_refl}
use udp_secure_transfer.Server.Auth.{serve_auth, authenticated, auth_loop as server_loop}
use udp_secure_transfer.Server.AuthLaws.{submission, asked_again, auth_loop_accepts}
use udp_secure_transfer.Client.Auth.{Keyboard, get_password, auth_loop, auth_step, answered}
use udp_secure_transfer.Client.Auth.{entered_with}
use udp_secure_transfer.Session.Plain.{arriving, after_all}

element_behind :
    (front rest : List (List ℕ)) (password : List ℕ)
    → get_elem? (front ++ (password ∷ rest)) (length front) ≡ some password
element_behind [] rest password = refl
element_behind (p ∷ front) rest password = element_behind front rest password

abbrev pub response : List ℕ → List ℕ
response password = payload_wire Protocol.pass_resp password

-- Datagrams that arrive one after the other, the last of them named.
arrivals_last :
    (from : Peer) (wires : List (List ℕ)) (wire : List ℕ) (rest : List Event)
    → map (arriving from) (wires ++ (wire ∷ [])) ++ rest
      ≡ map (arriving from) wires ++ (arriving from wire ∷ rest)
arrivals_last from [] wire rest = refl
arrivals_last from (w ∷ wires) wire rest =
    ap (λ l. arriving from w ∷ l) (arrivals_last from wires wire rest)

module _ (link : Link) (delivers : Delivers link) (typed : Keyboard) (server : Peer) where
  request_answered :
      (front rest : List (List ℕ)) (password : List ℕ) (net : Net)
      → length front < 3
      → HasNoNul password
      → length password ≤ 255
      → auth_step link false
          (front ++ (password ∷ rest))
          typed
          server
          (length front)
          net
          (datagram server (control_wire Protocol.pass_req))
        ≡ answered (length front + 1) (after_send net (response password))
  unfolding auth_step get_password
  request_answered front rest password net few text size = ground (
    arith,
    recv_control server Protocol.pass_req (inl (inr refl)),
    is_same_peer_refl server,
    element_behind front rest password,
    RoundTrip.build_pass_resp_packet_lem password text size,
    send_logged_lem link delivers net (response password),
  )

  one_request :
      (front rest : List (List ℕ)) (password : List ℕ) (net : Net) (events : List Event)
      → length front < 3
      → HasNoNul password
      → length password ≤ 255
      → auth_loop link false
          (front ++ (password ∷ rest))
          typed
          server
          (length front)
          net
          (arriving server (control_wire Protocol.pass_req) ∷ events)
        ≡ auth_loop link false
            (front ++ (password ∷ rest))
            typed
            server
            (length front + 1)
            (after_send net (response password))
            events
  unfolding auth_loop
  one_request front rest password net events few text size =
      ground (arith, request_answered front rest password net few text size)

  accepted_enters :
      (passwords : List (List ℕ)) (attempt : ℕ) (net : Net) (rest : List Event)
      → auth_loop link false passwords typed server attempt net
          (arriving server (control_wire Protocol.pass_accept) ∷ rest)
        ≡ entered_with attempt net rest
  unfolding auth_loop auth_step
  accepted_enters passwords attempt net rest =
      ground
        (arith, recv_control server Protocol.pass_accept (inr (inl refl)), is_same_peer_refl server)

  client_says :
      (front todo later : List (List ℕ)) (net : Net) (rest : List Event)
      → length front + length todo ≤ 3
      → All HasNoNul todo
      → All (λ p. length p ≤ 255) todo
      → auth_loop link false (front ++ (todo ++ later)) typed server (length front) net (
          map (arriving server) (map (λ p. control_wire Protocol.pass_req) todo)
          ++ (arriving server (control_wire Protocol.pass_accept) ∷ rest))
        ≡ entered_with (length front + length todo) (after_all net (map response todo)) rest
  client_says front [] later net rest few texts sizes =
      let whole : length front ≡ length front + 0 = omega arith in
      accepted_enters (front ++ later) (length front) net rest
      ∙ ap (λ n. entered_with n net rest) whole
  client_says front (password ∷ todo) later net rest few texts sizes =
      let front' : List (List ℕ) = front ++ (password ∷ []) in
      let size : length front' ≡ length front + 1 = length-append front (password ∷ []) in
      let same : front' ++ (todo ++ later) ≡ front ++ (password ∷ (todo ++ later)) =
        append_assoc front (password ∷ []) (todo ++ later) in
      let counted : length front' + length todo ≡ length front + suc (length todo) =
        omega (arith, size) in
      one_request front (todo ++ later) password net _ (omega arith) texts.0 sizes.0
      ∙ ap
          (λ l.
            auth_loop link false l typed server (length front + 1)
              (after_send net (response password))
              (map (arriving server) (map (λ p. control_wire Protocol.pass_req) todo)
                ++ (arriving server (control_wire Protocol.pass_accept) ∷ rest)))
          (sym same)
      ∙ ap
          (λ n.
            auth_loop link false (front' ++ (todo ++ later)) typed server n
              (after_send net (response password))
              (map (arriving server) (map (λ p. control_wire Protocol.pass_req) todo)
                ++ (arriving server (control_wire Protocol.pass_accept) ∷ rest)))
          (sym size)
      ∙ client_says front' todo later (after_send net (response password)) rest
          (omega (arith, size)) texts.1 sizes.1
      ∙ ap
          (λ n.
            entered_with n (after_all (after_send net (response password)) (map response todo))
              rest)
          counted

asked_again-after_all :
    (link : Link) (delivers : Delivers link) (password : List ℕ) (peer : Peer) (net : Net)
    (wrong : List (List ℕ))
    → asked_again link delivers password peer net wrong
      ≡ after_all net (map (λ p. control_wire Protocol.pass_req) wrong)
asked_again-after_all link delivers password peer net [] = refl
asked_again-after_all link delivers password peer net (p ∷ wrong) =
    asked_again-after_all link delivers password peer
      (after_send net (control_wire Protocol.pass_req)) wrong

-- What the server sends for some passwords, the last of which is right.
abbrev pub asks : List (List ℕ) → List (List ℕ)
asks passwords =
    map (λ p. control_wire Protocol.pass_req) passwords ++ (control_wire Protocol.pass_accept ∷ [])

asks_lem :
    (net : Net) (wrong : List (List ℕ)) (password : List ℕ)
    → after_all net (asks (wrong ++ (password ∷ [])))
      ≡ after_send
          (after_all
            (after_send net (control_wire Protocol.pass_req))
            (map (λ p. control_wire Protocol.pass_req) wrong))
          (control_wire Protocol.pass_accept)
asks_lem net [] password = refl
asks_lem net (p ∷ wrong) password =
    asks_lem (after_send net (control_wire Protocol.pass_req)) wrong password

submissions :
    (client : Peer) (passwords : List (List ℕ))
    → map (arriving client) (map response passwords) ≡ map (submission client) passwords
submissions client [] = refl
submissions client (p ∷ passwords) =
    ap (λ l. submission client p ∷ l) (submissions client passwords)

-- JOIN_REQ is answered by the first PASS_REQ.
join_answered :
    (link : Link) (delivers : Delivers link) (password : List ℕ) (client : Peer) (stop : Bool)
    (net : Net) (events : List Event)
    → serve_auth link password stop net (datagram client (control_wire Protocol.join_req)) events
      ≡ server_loop link password client stop 1
          (after_send net (control_wire Protocol.pass_req))
          events
unfolding serve_auth
join_answered link delivers password client stop net events = ground (
  arith,
  recv_control client Protocol.join_req (inl (inl refl)),
  send_control_lem link delivers net Protocol.pass_req (inl (inr refl)),
)

-- On links that deliver, with passwords of at most 255 bytes and no NUL on the command line, of which at most
-- two wrong ones stand before the right one, and with no stop requested of the server: each side, given what the other side sends, sends
-- what the other side is given. The server goes on to the transfer with the client as its peer,
-- and the client goes on to receive the file.
pub password_dialogue :
    (server_link client_link : Link) (typed : Keyboard) (client server : Peer) (net net' : Net)
    (wrong later : List (List ℕ)) (password : List ℕ) (rest rest' : List Event)
    → Delivers server_link
    → Delivers client_link
    → All (λ p. p ≢ password) wrong
    → length wrong ≤ 2
    → All HasNoNul (wrong ++ (password ∷ []))
    → All (λ p. length p ≤ 255) (wrong ++ (password ∷ []))
    → (serve_auth server_link password false net
          (datagram client (control_wire Protocol.join_req))
          (map (arriving client) (map response (wrong ++ (password ∷ []))) ++ rest)
        ≡ authenticated (after_all net (asks (wrong ++ (password ∷ [])))) rest)
      × (auth_loop client_link false
            (wrong ++ (password ∷ later))
            typed
            server
            0
            net'
            (map (arriving server) (asks (wrong ++ (password ∷ []))) ++ rest')
          ≡ entered_with
              (length (wrong ++ (password ∷ [])))
              (after_all net' (map response (wrong ++ (password ∷ []))))
              rest')
password_dialogue server_link client_link typed client server net net' wrong later password rest
      rest' server_delivers client_delivers bad few texts sizes =
    let passwords : List (List ℕ) = wrong ++ (password ∷ []) in
    let count : length passwords ≡ length wrong + 1 = length-append wrong (password ∷ []) in
    (
      join_answered server_link server_delivers password client false net _
          ∙ ap
              (λ l.
                server_loop server_link password client false 1
                  (after_send net (control_wire Protocol.pass_req)) (l ++ rest))
              (submissions client passwords)
          ∙ auth_loop_accepts server_link server_delivers password client false
              (after_send net (control_wire Protocol.pass_req)) wrong [] rest bad few sizes
          ∙ ap (λ n. authenticated (after_send n (control_wire Protocol.pass_accept)) rest)
              (asked_again-after_all server_link server_delivers password client
                (after_send net (control_wire Protocol.pass_req)) wrong)
          ∙ ap (λ n. authenticated n rest) (sym (asks_lem net wrong password)),
      ap (λ l. auth_loop client_link false (wrong ++ (password ∷ later)) typed server 0 net' l)
            (arrivals_last server (map (λ p. control_wire Protocol.pass_req) passwords)
              (control_wire Protocol.pass_accept) rest')
          ∙ ap
              (λ l. auth_loop client_link false l typed server 0 net' (
                map (arriving server) (map (λ p. control_wire Protocol.pass_req) passwords)
                ++ (arriving server (control_wire Protocol.pass_accept) ∷ rest')))
              (sym (append_assoc wrong (password ∷ []) later))
          ∙ client_says client_link client_delivers typed server [] passwords later net' rest'
              (omega (arith, count)) texts sizes
          ∙ ap (λ n. entered_with n (after_all net' (map response passwords)) rest') (omega arith),
    )
