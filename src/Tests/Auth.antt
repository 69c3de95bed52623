-- ===== src/Tests/Auth.antt =====
-- The password dialogue.
use udp_secure_transfer.Protocol.Recv.{datagram}
use udp_secure_transfer.Server.Auth.{serve_auth}
use udp_secure_transfer.Client.Auth.{Keyboard, entered_with, auth_loop as client_loop}
use udp_secure_transfer.Session.Plain.{arriving, after_all}
use udp_secure_transfer.Session.Auth.{response, asks, password_dialogue}
use udp_secure_transfer.Tests.Fixtures.{server}
use udp_secure_transfer.Prelude.{
  ◌+◌, ◌≤◌, ◌≡◌, ◌≢◌, arith, true, false, none, List, [], ◌∷◌, ◌++◌, map, length,
}
use udp_secure_transfer.Protocol
use udp_secure_transfer.Protocol.RoundTrip.{control_wire}
use udp_secure_transfer.Protocol.Recv.{no_traffic}
use udp_secure_transfer.Protocol.Logged.{Event}
use udp_secure_transfer.Protocol.Delivery.{after_send}
use udp_secure_transfer.Server.Auth.{auth_loop, authenticated, failed, three_attempts_failed}
use udp_secure_transfer.Server.AuthLaws.{submission, asked_again, auth_loop_accepts}
use udp_secure_transfer.Server.AuthLaws.{auth_loop_rejects}
use udp_secure_transfer.Server.AuthSafety.{Entry, auth_loop_sound}
use udp_secure_transfer.Server.AuthBounds.{net_of, auth_loop_answers}
use udp_secure_transfer.Tests.Fixtures.{client, wire_link, wire_link-Delivers, secret, guess}

abbrev no_keys : Keyboard
no_keys k = none

guess_wrong : guess ≢ secret
guess_wrong e = ground (arith, e)

abbrev guesses : List Event
guesses = map (submission client) (guess ∷ secret ∷ []) ++ []

auth_loop_accepts_example :
    auth_loop wire_link secret client false 1 no_traffic guesses
    ≡ authenticated
        (after_send
          (asked_again wire_link wire_link-Delivers secret client no_traffic (guess ∷ []))
          (control_wire Protocol.pass_accept))
        []
auth_loop_accepts_example =
    auth_loop_accepts wire_link wire_link-Delivers secret client false no_traffic (guess ∷ []) [] []
      (guess_wrong, tt) (omega arith) (omega arith, (omega arith, tt))

auth_loop_rejects_example :
    auth_loop wire_link secret client true 1 no_traffic
      (map (submission client) (guess ∷ guess ∷ guess ∷ []) ++ [])
    ≡ failed three_attempts_failed (
        after_send
          (after_send
            (after_send no_traffic (control_wire Protocol.pass_req))
            (control_wire Protocol.pass_req))
          (control_wire Protocol.reject))
auth_loop_rejects_example =
    auth_loop_rejects wire_link wire_link-Delivers secret client true no_traffic guess guess guess
      [] (guess_wrong, (guess_wrong, (guess_wrong, tt)))
      (omega arith, (omega arith, (omega arith, tt)))

auth_loop_sound_example : Entry wire_link secret client guesses []
auth_loop_sound_example =
    auth_loop_sound wire_link secret client false 1 no_traffic
      (after_send (asked_again wire_link wire_link-Delivers secret client no_traffic (guess ∷ []))
        (control_wire Protocol.pass_accept))
      guesses [] auth_loop_accepts_example

auth_loop_answers_example :
    length (net_of (auth_loop wire_link secret client true 1 no_traffic guesses)).sent + 1 ≤ 4
auth_loop_answers_example =
    auth_loop_answers wire_link secret client true 1 no_traffic guesses (omega arith)

password_dialogue_example :
    (serve_auth wire_link secret false no_traffic
        (datagram client (control_wire Protocol.join_req))
        (map (arriving client) (map response ((guess ∷ []) ++ (secret ∷ []))) ++ [])
      ≡ authenticated (after_all no_traffic (asks ((guess ∷ []) ++ (secret ∷ [])))) [])
    × (client_loop wire_link false
          ((guess ∷ []) ++ (secret ∷ (guess ∷ [])))
          no_keys
          server
          0
          no_traffic
          (map (arriving server) (asks ((guess ∷ []) ++ (secret ∷ []))) ++ [])
        ≡ entered_with
            (length ((guess ∷ []) ++ (secret ∷ [])))
            (after_all no_traffic (map response ((guess ∷ []) ++ (secret ∷ []))))
            [])
password_dialogue_example =
    password_dialogue wire_link wire_link no_keys client server no_traffic no_traffic (guess ∷ [])
      (guess ∷ []) secret [] [] wire_link-Delivers wire_link-Delivers (guess_wrong, tt)
      (omega arith) (ground arith, (ground arith, tt)) (omega arith, (omega arith, tt))
