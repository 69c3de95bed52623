-- ===== src/Protocol/Build.antt =====
-- The build_*_packet functions of src/protocol.c. A result `none` is the return value -1, and
-- `some wire` is `out[0..*out_len)` after the return value 0. The output pointers are present: at
-- every call they are addresses of variables. An input pointer may be NULL, which is `none`.
use udp_secure_transfer.Prelude.{ℕ, ◌+◌, Bool, not, ◌&&◌, ◌||◌, Option, none, some}
use udp_secure_transfer.Prelude.{List, [], ◌∷◌, ◌++◌, take, ltb, leb, ◌==◌, if◌then◌else◌}
use udp_secure_transfer.Protocol.{header_size, data_header_size, feedback_payload_size}
use udp_secure_transfer.Protocol.{feedback_header_size, data_chunk_size, digest_size, max_password}
use udp_secure_transfer.Protocol.{join_req, pass_resp, data_packet, terminate, ack, nack}
use udp_secure_transfer.Protocol.Bytes.{put_u16, put_u32}

unfoldable pub packet_type_valid : ℕ → Bool
packet_type_valid type = leb join_req type && leb type nack

unfoldable pub build_control_packet : ℕ → ℕ → Option (List ℕ)
unfolding packet_type_valid
build_control_packet type cap =
    if ltb cap header_size
      || not (packet_type_valid type)
      || type == pass_resp
      || type == data_packet
      || type == terminate
    then none
    else some (put_u16 type ++ put_u32 0)

-- `strlen`: the number of bytes before the first NUL. The last NUL of a C string is not listed.
unfoldable pub strlen : List ℕ → ℕ
strlen [] = 0
strlen (c ∷ text) = if c == 0 then 0 else strlen text + 1

unfoldable pub build_pass_resp_packet : Option (List ℕ) → ℕ → Option (List ℕ)
unfolding strlen
build_pass_resp_packet none cap = none
build_pass_resp_packet (some password) cap =
    let len = strlen password in
    if ltb max_password len || ltb cap (header_size + len)
    then none
    else some (put_u16 pass_resp ++ put_u32 len ++ take len password)

-- `memcpy` copies the first `data_len` bytes of the block.
data_body : Option (List ℕ) → ℕ → List ℕ
data_body none data_len = []
data_body (some bytes) data_len = take data_len bytes

is_null : {A : Type 0} → Option A → Bool
is_null none = Bool.true
is_null (some a) = Bool.false

unfoldable pub build_data_packet : ℕ → Option (List ℕ) → ℕ → ℕ → Option (List ℕ)
unfolding data_body is_null
build_data_packet packet_id bytes data_len cap =
    if is_null bytes && ltb 0 data_len
      || ltb data_chunk_size data_len
      || ltb cap (data_header_size + data_len)
    then none
    else some
        (put_u16 data_packet ++ put_u32 data_len ++ put_u32 packet_id ++ data_body bytes data_len)

unfoldable pub build_feedback_packet : ℕ → ℕ → ℕ → ℕ → Option (List ℕ)
build_feedback_packet type ack_id window_size cap =
    if not (type == ack) && not (type == nack) || ltb cap feedback_header_size
    then none
    else some
        (put_u16 type ++ put_u32 feedback_payload_size ++ put_u32 ack_id ++ put_u32 window_size)

-- The digest parameter is an array of 20 bytes.
unfoldable pub build_terminate_packet : Option (List ℕ) → ℕ → Option (List ℕ)
build_terminate_packet none cap = none
build_terminate_packet (some digest) cap =
    if ltb cap (header_size + digest_size)
    then none
    else some (put_u16 terminate ++ put_u32 digest_size ++ take digest_size digest)
