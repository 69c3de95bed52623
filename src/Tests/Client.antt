-- ===== src/Tests/Client.antt =====
-- The client's side of the password dialogue: one request, then the acceptance.
use udp_secure_transfer.Prelude.{ℕ, ◌+◌, ◌≤◌, ◌≡◌, refl, arith, false, none, List, [], ◌∷◌, length}
use udp_secure_transfer.Protocol
use udp_secure_transfer.Protocol.RoundTrip.{payload_wire}
use udp_secure_transfer.Protocol.Recv.{recv_packet, Net, no_traffic}
use udp_secure_transfer.Protocol.Logged.{Event, recv_expected, send_logged}
use udp_secure_transfer.Protocol.Delivery.{after_send}
use udp_secure_transfer.Protocol.Bytes.{get_u16, get_u32, put_u16, put_u32}
use udp_secure_transfer.Protocol.Parse.{parse_packet, is_same_peer}
use udp_secure_transfer.Protocol.Build.{build_pass_resp_packet, strlen}
use udp_secure_transfer.Session.Plain.{arriving}
use udp_secure_transfer.Client.Auth.{auth_step, get_password, auth_loop, entered_with, Keyboard}
use udp_secure_transfer.Client.AuthSafety.{traffic, Admission, auth_loop_limit}
use udp_secure_transfer.Client.AuthSafety.{auth_loop_admitted}
use udp_secure_transfer.Tests.Fixtures.{server, wire_link, secret, guess}

abbrev passwords : List (List ℕ)
passwords = secret ∷ guess ∷ guess ∷ []

abbrev no_keyboard : Keyboard
no_keyboard k = none

abbrev accepted_at_once : List Event
accepted_at_once =
    arriving server (0 ∷ 2 ∷ 0 ∷ 0 ∷ 0 ∷ 0 ∷ []) ∷ arriving server (0 ∷ 4 ∷ 0 ∷ 0 ∷ 0 ∷ 0 ∷ []) ∷ []

abbrev after_secret : Net
after_secret = after_send no_traffic (payload_wire Protocol.pass_resp secret)

enters :
    auth_loop wire_link false passwords no_keyboard server 0 no_traffic accepted_at_once
    ≡ entered_with 1 after_secret []
unfolding auth_loop auth_step recv_expected recv_packet parse_packet get_u16 get_u32 is_same_peer
    get_password build_pass_resp_packet strlen send_logged put_u16 put_u32 payload_wire
enters = refl

auth_loop_limit_example :
    length
        (traffic (
          auth_loop wire_link false passwords no_keyboard server 0 no_traffic
            accepted_at_once)).sent
      + 0
    ≤ 3
auth_loop_limit_example =
    auth_loop_limit wire_link false passwords no_keyboard server 0 no_traffic accepted_at_once
      (omega arith)

auth_loop_admitted_example :
    Admission wire_link false passwords no_keyboard server accepted_at_once []
auth_loop_admitted_example =
    auth_loop_admitted wire_link false passwords no_keyboard server 0 1 no_traffic after_secret
      accepted_at_once [] enters
