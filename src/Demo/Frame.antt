-- ===== src/Demo/Frame.antt =====
-- demo_send_frame and demo_recv_frame of src/demo_util.c.
use udp_secure_transfer.Prelude.{ℕ, ◌+◌, ◌/◌, Bool, ◌&&◌, Option, none, some, List, [], ◌++◌}
use udp_secure_transfer.Prelude.{length, take, drop, ltb, if◌then◌else◌}
use udp_secure_transfer.Protocol.Bytes.{put_u16, put_u32, get_u16, get_u32}
use udp_secure_transfer.Demo.Stream.{Socket, Outgoing, Incoming, write_all, read_all}

abbrev pub demo_header_size : ℕ
demo_header_size = 6

abbrev pub demo_max_payload : ℕ
demo_max_payload = 4096

-- `payload` is `payload[0..length)`.
pub record DemoFrame : Type 0 where
  pub type : ℕ
  pub length : ℕ
  pub payload : List ℕ

-- `buf[0..DEMO_HEADER_SIZE + length)`, for a payload that is not NULL.
abbrev pub frame_bytes : ℕ → List ℕ → List ℕ
frame_bytes type payload = (put_u16 type ++ put_u32 (length payload)) ++ payload

-- The two writes of `fragment_mode`.
write_halves : Socket → Outgoing → List ℕ → List ℕ → Option Outgoing
write_halves socket s front back = elim (write_all (length front) socket s front) [
  | none ↦ none
  | some s' ↦ write_all (length back) socket s' back
]

unfoldable pub send_frame : Socket → Outgoing → ℕ → List ℕ → Bool → Option Outgoing
unfolding write_halves
send_frame socket s type payload fragment_mode =
    let buf = frame_bytes type payload in
    let first = demo_header_size + length payload / 2 in
    let halves = write_halves socket s (take first buf) (drop first buf) in
    let whole = write_all (length buf) socket s buf in
    if ltb demo_max_payload (length payload)
    then none
    else if fragment_mode && ltb 0 (length payload)
    then halves
    else whole

recv_payload : Socket → Incoming → ℕ → ℕ → Option (DemoFrame × Incoming)
recv_payload socket s type size = elim (read_all size socket s [] size) [
  | none ↦ none
  | some (s', payload) ↦ some (record { type = type; length = size; payload = payload }, s')
]

-- `none` is -1.
unfoldable pub recv_frame : Socket → Incoming → Option (DemoFrame × Incoming)
unfolding recv_payload
recv_frame socket s = elim (read_all demo_header_size socket s [] demo_header_size) [
  | none ↦ none
  | some (s', header) ↦
      let size = get_u32 (drop 2 header) in
      let more = recv_payload socket s' (get_u16 header) size in
      if ltb demo_max_payload size then none else more
]
