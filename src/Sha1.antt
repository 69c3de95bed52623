-- ===== src/Sha1.antt =====
-- src/sha1_util.c and include/sha1_util.h: the digest that both ends compute over the file.
-- A context's `buffer` is `buffer[0..buffer_len)`; the 64 bytes of the C array beyond it are
-- never read. Blocks are lists of bytes, and every length is that of its list.
pub mod Transform
pub mod Stream
pub mod Padding
pub mod File
mod Tests
use udp_secure_transfer.Prelude.{ℕ, zero, suc, ◌+◌, ◌-◌, ◌*◌, ◌/◌, ◌^◌, Option, none, some}
use udp_secure_transfer.Prelude.{List, [], ◌∷◌, ◌++◌, length, take, drop, u8, u64, bit_and, bit_or}
use udp_secure_transfer.Prelude.{Bool, true, false, ltb, ◌==◌, if◌then◌else◌, get_or, replicate}
use Transform.{Registers, sha1_transform}

pub record Sha1Context : Type 0 where
  pub state : Registers
  pub bit_count : ℕ
  pub buffer : List ℕ

abbrev pub initial : Registers
initial = record {
  h0 = 0x67452301;
  h1 = 0xefcdab89;
  h2 = 0x98badcfe;
  h3 = 0x10325476;
  h4 = 0xc3d2e1f0;
}

unfoldable pub sha1_init : Sha1Context
sha1_init = record { state = initial; bit_count = 0; buffer = [] }

-- The bytes of the `while` of sha1_update: `copy_len` of them are copied in each round. The fuel
-- is the number of bytes: a round with room in the buffer copies one at least.
pub update_loop : ℕ → Registers → List ℕ → List ℕ → Registers × List ℕ
update_loop zero state buffer bytes = (state, buffer)
update_loop (suc fuel) state buffer bytes =
    let room = 64 - length buffer in
    let copy_len = if ltb (length bytes) room then length bytes else room in
    let filled = buffer ++ take copy_len bytes in
    let full = update_loop fuel (sha1_transform state filled) [] (drop copy_len bytes) in
    let more = update_loop fuel state filled (drop copy_len bytes) in
    if length bytes == 0 then (state, buffer) else if length filled == 64 then full else more

unfoldable pub sha1_update : Sha1Context → List ℕ → Sha1Context
unfolding update_loop
sha1_update ctx bytes =
    let (state, buffer) = update_loop (length bytes) ctx.state ctx.buffer bytes in
    record {
      state = state;
      bit_count = u64 (ctx.bit_count + u64 (length bytes * 8));
      buffer = buffer;
    }

-- `while (ctx->buffer_len != 56U)`: at most 63 zero bytes bring the buffer there.
pub pad_zeros : ℕ → Sha1Context → Sha1Context
pad_zeros zero ctx = ctx
pad_zeros (suc fuel) ctx =
    let more = pad_zeros fuel (sha1_update ctx (0x00 ∷ [])) in
    if length ctx.buffer == 56 then ctx else more

-- `(uint8_t)((value >> shift) & 0xffU)`
abbrev byte_of : ℕ → ℕ → ℕ
byte_of value shift = u8 (bit_and (value / 2 ^ shift) 0xff)

pub length_bytes : ℕ → List ℕ
length_bytes bit_count =
    byte_of bit_count 56
    ∷ byte_of bit_count 48
    ∷ byte_of bit_count 40
    ∷ byte_of bit_count 32
    ∷ byte_of bit_count 24
    ∷ byte_of bit_count 16
    ∷ byte_of bit_count 8
    ∷ byte_of bit_count 0
    ∷ []

word_bytes : ℕ → List ℕ
word_bytes h = byte_of h 24 ∷ byte_of h 16 ∷ byte_of h 8 ∷ byte_of h 0 ∷ []

pub digest_bytes : Registers → List ℕ
unfolding word_bytes
digest_bytes r =
    word_bytes r.h0 ++ word_bytes r.h1 ++ word_bytes r.h2 ++ word_bytes r.h3 ++ word_bytes r.h4

-- The digest; the final `memset` leaves a context that no caller reads.
unfoldable pub sha1_final : Sha1Context → List ℕ
unfolding pad_zeros length_bytes digest_bytes sha1_update
sha1_final ctx =
    let padded = pad_zeros 64 (sha1_update ctx (0x80 ∷ [])) in
    let ended = sha1_update padded (length_bytes ctx.bit_count) in digest_bytes ended.state

-- A file that can be opened: the bytes that `fread` gives before the end or an error, and what
-- `ferror` says then.
pub record FileBytes : Type 0 where
  pub bytes : List ℕ
  pub read_error : Bool

-- The blocks that `fread(buf, 1, size, fp)` returns until it returns 0.
unfoldable pub fread_all : ℕ → ℕ → List ℕ → List (List ℕ)
fread_all zero size bytes = []
fread_all (suc fuel) size bytes =
    let rest = fread_all fuel size (drop size bytes) in
    if length bytes == 0 then [] else take size bytes ∷ rest

abbrev pub fread_blocks : ℕ → List ℕ → List (List ℕ)
fread_blocks size bytes = fread_all (length bytes) size bytes

pub update_all : Sha1Context → List (List ℕ) → Sha1Context
update_all ctx [] = ctx
update_all ctx (block ∷ blocks) = update_all (sha1_update ctx block) blocks

-- `none` is -1: the file cannot be opened, or reading fails.
unfoldable pub sha1_file : Option FileBytes → Option (List ℕ)
unfolding update_all fread_all sha1_final sha1_init
sha1_file none = none
sha1_file (some file) =
    let ctx = update_all sha1_init (fread_blocks 4096 file.bytes) in
    if file.read_error then none else some (sha1_final ctx)

-- The digest of a block of memory: init, one update, final.
unfoldable pub sha1 : List ℕ → List ℕ
unfolding sha1_init sha1_update sha1_final
sha1 message = sha1_final (sha1_update sha1_init message)
