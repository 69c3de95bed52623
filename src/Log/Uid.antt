-- ===== src/Log/Uid.antt =====
-- compute_packet_uid of src/logger.c.
use udp_secure_transfer.Prelude.{ℕ, ◌/◌, ◌%◌, ◌&&◌, Option}
use udp_secure_transfer.Prelude.{none, some, List, [], ◌∷◌, ◌++◌, length, take, ltb, ◌==◌}
use udp_secure_transfer.Prelude.{if◌then◌else◌, codes}
use udp_secure_transfer.Protocol
use udp_secure_transfer.Protocol.Config.Numbers.{digits}
use udp_secure_transfer.Sha1.{Sha1Context, sha1_init, sha1_update, sha1_final}
use udp_secure_transfer.Log.{hex_digit, LogInt, unset, nonnegative, negative}

-- `"%d"`
unfoldable pub print_int : LogInt → List ℕ
print_int unset = codes "-2147483647"
print_int (nonnegative n) = digits 10 n
print_int (negative n) = 45 ∷ digits 10 n

-- `"pkt:%u:%d:"`: at most 22 characters, which fit.
abbrev pub uid_header : ℕ → LogInt → List ℕ
uid_header packet_type packet_id =
    codes "pkt:" ++ (digits 10 packet_type ++ (58 ∷ (print_int packet_id ++ 58 ∷ [])))

-- The hexadecimal digits of bytes.
unfoldable pub hex_bytes : List ℕ → List ℕ
hex_bytes [] = []
hex_bytes (b ∷ bytes) = hex_digit (b / 16 % 16) ∷ hex_digit (b % 16) ∷ hex_bytes bytes

bytes_of : Option (List ℕ) → List ℕ
bytes_of none = []
bytes_of (some wire) = wire

-- What the second update takes in. An `attempt` of 0 or less is 0 here.
add_wire : Sha1Context → ℕ → ℕ → List ℕ → Sha1Context
add_wire ctx packet_type attempt wire =
    if packet_type == Protocol.pass_resp && ltb 0 (length wire)
    then sha1_update ctx wire
    else if ltb 0 (length (take 32 wire))
    then sha1_update ctx (take 32 wire)
    else if ltb 0 attempt
    then sha1_update ctx (codes ":a" ++ digits 10 attempt)
    else ctx

-- The text in `out`; a NULL `wire` is `none`, and `wire_len` is the length of one that is not.
unfoldable pub compute_packet_uid : ℕ → ℕ → LogInt → ℕ → Option (List ℕ) → List ℕ
unfolding bytes_of add_wire
compute_packet_uid out_size packet_type packet_id attempt wire =
    let ctx = sha1_update sha1_init (uid_header packet_type packet_id) in
    let digest = sha1_final (add_wire ctx packet_type attempt (bytes_of wire)) in
    if ltb out_size 17 then [] else hex_bytes (take 8 digest)
