-- ===== src/Protocol/Config/Ranges.antt =====
-- The settings that src/protocol.c reads are always in their ranges.
use udp_secure_transfer.Prelude.{ℕ, ◌≤◌, ◌≡◌, arith, Option, none, some, List, Option-cases}
use udp_secure_transfer.Prelude.{inl, inr}
use udp_secure_transfer.Protocol.Config.{number_between, parse_port, env_number, env_timeout_ms}
use udp_secure_transfer.Protocol.Config.{env_reliable_window_size, env_reliable_timeout_ms}

number_between-bounds :
    (lo hi : ℕ) (text : List ℕ) (n : ℕ) → number_between lo hi text ≡ some n → (lo ≤ n) × (n ≤ hi)
unfolding number_between
number_between-bounds lo hi text n h = ground arith

env_number-bounds :
    (lo hi d : ℕ) (text : Option (List ℕ))
    → lo ≤ d
    → d ≤ hi
    → (lo ≤ env_number lo hi d text) × (env_number lo hi d text ≤ hi)
unfolding env_number
env_number-bounds lo hi d none l h = omega arith
env_number-bounds lo hi d (some text) l h = elim (Option-cases (number_between lo hi text)) [
  | inl e ↦ ground arith
  | inr (n, e) ↦ ground (arith, number_between-bounds lo hi text n e)
]

-- Whatever the environment holds, the waits are between 200 ms and 2 minutes and between 50 ms and
-- 10 s, and the window has 2 to 64 packets.
pub env-bounds :
    (text : Option (List ℕ))
    → ((200 ≤ env_timeout_ms text) × (env_timeout_ms text ≤ 120000))
      × ((2 ≤ env_reliable_window_size text) × (env_reliable_window_size text ≤ 64))
      × ((50 ≤ env_reliable_timeout_ms text) × (env_reliable_timeout_ms text ≤ 10000))
unfolding env_timeout_ms env_reliable_window_size env_reliable_timeout_ms
env-bounds text = (
  env_number-bounds 200 120000 10000 text (omega arith) (omega arith),
  env_number-bounds 2 64 4 text (omega arith) (omega arith),
  env_number-bounds 50 10000 400 text (omega arith) (omega arith),
)

pub parse_port-bounds :
    (text : Option (List ℕ)) (port : ℕ) → parse_port text ≡ some port → (1 ≤ port) × (port ≤ 65535)
unfolding parse_port
parse_port-bounds none port h = absurd (ground arith)
parse_port-bounds (some text) port h = ground (arith, number_between-bounds 1 65535 text port)
