-- ===== src/Protocol/Recv.antt =====
-- send_all_packet and recv_packet_timeout of src/protocol.c. What the system calls return is an
-- argument: a link says what each `sendto` returns, lists say what `select` and `recvfrom` do.
use udp_secure_transfer.Prelude.{ℕ, ◌+◌, Bool, true, false, Option, none, some, List, [], ◌∷◌, ◌++◌}
use udp_secure_transfer.Prelude.{length, take, ◌==◌, if◌then◌else◌}
use mathlib.Core.Option
use udp_secure_transfer.Protocol.{Packet, Peer, recv_buffer}
use udp_secure_transfer.Protocol.Parse.{ParseResult, parsed, parse_fail, parse_packet}

-- What the `k`-th call of `sendto` returns for a datagram; `none` is a negative value.
abbrev pub Link : Type 0
Link = ℕ → List ℕ → Option ℕ

-- The calls of `sendto` so far, and the datagrams that they sent whole, oldest first.
pub record Net : Type 0 where
  pub calls : ℕ
  pub sent : List (List ℕ)

abbrev pub no_traffic : Net
no_traffic = record { calls = 0; sent = [] }

-- `true` is the return value 0.
unfoldable pub send_all_packet : Link → Net → List ℕ → Bool × Net
send_all_packet link net wire = elim (link net.calls wire) [
  | none ↦ (false, record net { calls = net.calls + 1 })
  | some sent ↦
      if sent == length wire
      then (true, record { calls = net.calls + 1; sent = net.sent ++ (wire ∷ []) })
      else (false, record net { calls = net.calls + 1 })
]

-- What a wait for a datagram comes to.
pub data Arrival : Type 0 where
  datagram : Peer → List ℕ → Arrival
  timeout : Arrival
  failure : Arrival

-- `got` is the return value 0; the other two are -1, with "timeout" or another text in `error`.
pub data RecvStatus : Type 0 where
  got : Packet → Peer → RecvStatus
  fail_timeout : RecvStatus
  fail_error : RecvStatus

-- The datagram was accepted or refused by parse_packet.
pub of_parse : Peer → ParseResult → RecvStatus
of_parse from (parsed p) = got p from
of_parse from (parse_fail e) = fail_error

-- `recvfrom` gives at most the buffer's 2048 bytes of a datagram.
unfoldable pub recv_packet : Arrival → RecvStatus
unfolding of_parse
recv_packet (datagram from bytes) = of_parse from (parse_packet (some (take recv_buffer bytes)))
recv_packet timeout = fail_timeout
recv_packet failure = fail_error

-- What `select` returns, with the milliseconds that it took; EINTR is `interrupted`.
pub data SelectResult : Type 0 where
  ready : ℕ → SelectResult
  expired : SelectResult
  interrupted : ℕ → SelectResult
  select_error : ℕ → SelectResult

-- What `recvfrom` returns.
pub data RecvfromResult : Type 0 where
  received : Peer → List ℕ → RecvfromResult
  recv_interrupted : RecvfromResult
  recv_error : RecvfromResult

-- The second loop: `recvfrom` is called again while a signal interrupts it.
recvfrom_loop : List RecvfromResult → Option Arrival
recvfrom_loop [] = none
recvfrom_loop (received from bytes ∷ rest) = some (datagram from bytes)
recvfrom_loop (recv_interrupted ∷ rest) = recvfrom_loop rest
recvfrom_loop (recv_error ∷ rest) = some failure

-- The first loop: each turn calls `select` with the whole of `timeout_ms`. `waited` adds up the
-- time; `none` means that the lists end while the call still waits.
select_loop : ℕ → ℕ → List SelectResult → List RecvfromResult → Option (Arrival × ℕ)
select_loop timeout_ms waited [] recvs = none
select_loop timeout_ms waited (ready ms ∷ rest) recvs =
    Option.map (λ a. (a, waited + ms)) (recvfrom_loop recvs)
select_loop timeout_ms waited (expired ∷ rest) recvs = some (timeout, waited + timeout_ms)
select_loop timeout_ms waited (interrupted ms ∷ rest) recvs =
    select_loop timeout_ms (waited + ms) rest recvs
select_loop timeout_ms waited (select_error ms ∷ rest) recvs = some (failure, waited + ms)

unfoldable pub recv_packet_timeout :
    ℕ → List SelectResult → List RecvfromResult → Option (RecvStatus × ℕ)
unfolding select_loop recvfrom_loop recv_packet
recv_packet_timeout timeout_ms selects recvs =
    Option.map (λ w. (recv_packet w.0, w.1)) (select_loop timeout_ms 0 selects recvs)
