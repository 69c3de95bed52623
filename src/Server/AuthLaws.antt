-- ===== src/Server/AuthLaws.antt =====
-- What the password dialogue of src/server.c guarantees.
use udp_secure_transfer.Prelude.{ℕ, zero, suc, ◌+◌, ◌≤◌, ◌<◌, ◌≡◌, refl, ◌≢◌, inl, inr, arith}
use udp_secure_transfer.Prelude.{◌∙◌, Bool, false}
use udp_secure_transfer.Prelude.{List, [], ◌∷◌, ◌++◌, map, length, take_all}
use udp_secure_transfer.Prelude.{bytes_eq, bytes_eq_iff, ◌==◌, if◌then◌else◌}
use udp_secure_transfer.Prelude.{All, ◌-◌}
use udp_secure_transfer.Protocol
use udp_secure_transfer.Protocol.{Packet, Peer}
use udp_secure_transfer.Protocol.Recv.{Link, Net, datagram}
use udp_secure_transfer.Protocol.RoundTrip
use udp_secure_transfer.Protocol.Delivery.{Delivers, after_send, is_same_peer_refl}
use udp_secure_transfer.Protocol.Delivery.{send_control_lem, recv_pass_resp}
use udp_secure_transfer.Server.Auth.{again, accepted, aborted, password_ok, auth_step}
use udp_secure_transfer.Protocol.Logged.{Event}
use udp_secure_transfer.Server.Auth.{AuthResult, authenticated, failed, waiting, auth_loop}
use udp_secure_transfer.Server.Auth.{three_attempts_failed, stopped_early}

-- A PASS_RESP datagram with a password, from the session's peer, with no signal pending.
abbrev pub submission : Peer → List ℕ → Event
submission peer guess = record {
  stopped = false;
  arrival = datagram peer (RoundTrip.payload_wire Protocol.pass_resp guess);
}

module _ (link : Link) (delivers : Delivers link) (password : List ℕ) (peer : Peer) where
  abbrev answer : ℕ → Net → Net
  answer type net = after_send net (RoundTrip.control_wire type)

  auth_step-submission :
      (attempt : ℕ) (net : Net) (guess : List ℕ)
      → length guess ≤ 255
      → auth_step link password peer attempt net (submission peer guess).arrival ≡ (
          if bytes_eq guess password
          then accepted (answer Protocol.pass_accept net)
          else if attempt == 3
          then aborted three_attempts_failed (answer Protocol.reject net)
          else again (attempt + 1) (answer Protocol.pass_req net))
  unfolding auth_step password_ok
  auth_step-submission attempt net guess h = ground (
    arith,
    recv_pass_resp peer guess h,
    is_same_peer_refl peer,
    take_all guess,
    take_all password,
    bytes_eq_iff guess password,
    send_control_lem link delivers net Protocol.pass_accept (inr (inl refl)),
    send_control_lem link delivers net Protocol.reject (inr (inr refl)),
    send_control_lem link delivers net Protocol.pass_req (inl (inr refl)),
  )

  -- What the loop should come to for the guesses in turn, `left` attempts being allowed.
  unfoldable pub verdict : Bool → ℕ → Net → List (List ℕ) → List Event → AuthResult
  verdict stop left net [] rest = auth_loop link password peer stop (4 - left) net rest
  verdict stop zero net (guess ∷ guesses) rest = waiting net
  verdict stop (suc left) net (guess ∷ guesses) rest =
      if bytes_eq guess password
      then if stop
        then failed stopped_early (answer Protocol.pass_accept net)
        else authenticated (answer Protocol.pass_accept net) (map (submission peer) guesses ++ rest)
      else if left == 0
      then failed three_attempts_failed (answer Protocol.reject net)
      else verdict stop left (answer Protocol.pass_req net) guesses rest

  auth_loop-verdict :
      (stop : Bool) (left : ℕ) (net : Net) (guesses : List (List ℕ)) (rest : List Event)
      → 1 ≤ left
      → left ≤ 3
      → All (λ g. length g ≤ 255) guesses
      → auth_loop link password peer stop (4 - left) net (map (submission peer) guesses ++ rest)
        ≡ verdict stop left net guesses rest
  unfolding auth_loop verdict
  auth_loop-verdict stop left net [] rest lo hi ok = refl
  auth_loop-verdict stop zero net (guess ∷ guesses) rest lo hi ok = absurd (omega arith)
  auth_loop-verdict stop (suc left) net (guess ∷ guesses) rest lo hi ok = ground (
    arith,
    auth_step-submission (4 - suc left) net guess ok.0,
    auth_loop-verdict stop left (answer Protocol.pass_req net) guesses rest,
  )

  -- The traffic after as many PASS_REQ as there are guesses.
  abbrev pub asked_again : Net → List (List ℕ) → Net
  asked_again net [] = net
  asked_again net (guess ∷ guesses) = asked_again (answer Protocol.pass_req net) guesses

  verdict_right :
      (stop : Bool) (left : ℕ) (net : Net) (wrong later : List (List ℕ)) (rest : List Event)
      → All (λ g. g ≢ password) wrong
      → length wrong < left
      → verdict stop left net (wrong ++ password ∷ later) rest ≡ (
          if stop
          then failed stopped_early (answer Protocol.pass_accept (asked_again net wrong))
          else authenticated
              (answer Protocol.pass_accept (asked_again net wrong))
              (map (submission peer) later ++ rest))
  unfolding verdict
  verdict_right stop zero net wrong later rest bad h = absurd (omega arith)
  verdict_right stop (suc left) net [] later rest bad h =
      rw ((bytes_eq_iff password password).1 refl) refl
  verdict_right stop (suc left) net (guess ∷ wrong) later rest bad h = ground (
    arith,
    bytes_eq_iff guess password,
    verdict_right stop left (answer Protocol.pass_req net) wrong later rest,
  )

  -- On a link that delivers, with PASS_RESP packets of at most 255 bytes from the session's
  -- peer: at most two wrong passwords, then the right one. The server answers each wrong one
  -- with PASS_REQ and the right one with PASS_ACCEPT. Then it goes on to the transfer with the
  -- events that are left, or, if a stop is requested by then, gives up.
  pub auth_loop_accepts :
      (stop : Bool) (net : Net) (wrong later : List (List ℕ)) (rest : List Event)
      → All (λ g. g ≢ password) wrong
      → length wrong ≤ 2
      → All (λ g. length g ≤ 255) (wrong ++ password ∷ later)
      → auth_loop link password peer stop 1 net
          (map (submission peer) (wrong ++ password ∷ later) ++ rest)
        ≡ (if stop
            then failed stopped_early (answer Protocol.pass_accept (asked_again net wrong))
            else authenticated
                (answer Protocol.pass_accept (asked_again net wrong))
                (map (submission peer) later ++ rest))
  auth_loop_accepts stop net wrong later rest bad few sizes =
      auth_loop-verdict stop 3 net (wrong ++ password ∷ later) rest (omega arith) (omega arith)
        sizes
      ∙ verdict_right stop 3 net wrong later rest bad (omega arith)

  -- On a link that delivers, with three wrong passwords of at most 255 bytes from the session's
  -- peer: the server answers PASS_REQ, PASS_REQ and REJECT, and gives up whatever comes after.
  pub auth_loop_rejects :
      (stop : Bool) (net : Net) (first second third : List ℕ) (rest : List Event)
      → All (λ g. g ≢ password) (first ∷ second ∷ third ∷ [])
      → All (λ g. length g ≤ 255) (first ∷ second ∷ third ∷ [])
      → auth_loop link password peer stop 1 net
          (map (submission peer) (first ∷ second ∷ third ∷ []) ++ rest)
        ≡ failed three_attempts_failed
            (answer Protocol.reject (answer Protocol.pass_req (answer Protocol.pass_req net)))
  auth_loop_rejects stop net first second third rest bad sizes =
      auth_loop-verdict stop 3 net (first ∷ second ∷ third ∷ []) rest (omega arith) (omega arith)
        sizes
      ∙ unfold verdict in
        ground (
          arith,
          bytes_eq_iff first password,
          bytes_eq_iff second password,
          bytes_eq_iff third password,
        )
