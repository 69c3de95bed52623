-- ===== src/Demo/Stream.antt =====
-- demo_write_all and demo_read_all of src/demo_util.c, on a socket that takes and gives what it
-- likes.
use udp_secure_transfer.Prelude.{ℕ, zero, suc, ◌+◌, ◌-◌, ◌≤◌, ◌≡◌, refl, arith}
use udp_secure_transfer.Prelude.{Option, none, some, List, [], ◌∷◌, ◌++◌, length, take, drop, ◌==◌}
use udp_secure_transfer.Prelude.{if◌then◌else◌, append_assoc, append-nil, take-append-drop}
use udp_secure_transfer.Prelude.{length-drop, length-take, ap, sym, ◌∙◌, take-append, drop-append}

-- What the k-th call of `send` or `recv` returns for a length; `none` is a negative value.
abbrev pub Socket : Type 0
Socket = ℕ → ℕ → Option ℕ

-- The calls so far, and the bytes that went out.
pub record Outgoing : Type 0 where
  pub calls : ℕ
  pub sent : List ℕ

-- One turn of the loop of demo_write_all: `none` is -1.
write_some : Socket → Outgoing → List ℕ → Option (Outgoing × List ℕ)
write_some socket s buf = elim (socket s.calls (length buf)) [
  | none ↦ none
  | some n ↦
      if n == 0
      then none
      else some (record { calls = s.calls + 1; sent = s.sent ++ take n buf }, drop n buf)
]

-- `while (len > 0)`. Each turn takes a byte at least, so `length buf` turns are enough.
unfoldable pub write_all : ℕ → Socket → Outgoing → List ℕ → Option Outgoing
unfolding write_some
write_all fuel socket s [] = some s
write_all zero socket s (b ∷ buf) = none
write_all (suc fuel) socket s (b ∷ buf) = elim (write_some socket s (b ∷ buf)) [
  | none ↦ none
  | some (s', rest) ↦ write_all fuel socket s' rest
]

-- The calls so far, and the bytes of the peer that have not been read.
pub record Incoming : Type 0 where
  pub calls : ℕ
  pub pending : List ℕ

-- One turn of the loop of demo_read_all for `len` bytes: at most those that are there. Without
-- one, `recv` returns 0.
read_some : Socket → Incoming → ℕ → Option (Incoming × List ℕ)
read_some socket s len = elim (socket s.calls len) [
  | none ↦ none
  | some n ↦
      let bytes = take n s.pending in
      if length bytes == 0
      then none
      else some (record { calls = s.calls + 1; pending = drop n s.pending }, bytes)
]

-- `while (len > 0)`, with the bytes read so far in `acc`. Each turn reads a byte at least, so
-- `len` turns are enough.
unfoldable pub read_all : ℕ → Socket → Incoming → List ℕ → ℕ → Option (Incoming × List ℕ)
unfolding read_some
read_all fuel socket s acc zero = some (s, acc)
read_all zero socket s acc (suc len) = none
read_all (suc fuel) socket s acc (suc len) = elim (read_some socket s (suc len)) [
  | none ↦ none
  | some (s', bytes) ↦ read_all fuel socket s' (acc ++ bytes) (suc len - length bytes)
]

-- `send` and `recv` on a connection that stays up: for a length above 0 they return a number from
-- 1 to that length.
pub record Flows (socket : Socket) : Type 0 where
  pub amount : ℕ → ℕ → ℕ
  pub moves : (k len : ℕ) → socket k len ≡ some (amount k len)
  pub some_bytes : (k len : ℕ) → 1 ≤ len → 1 ≤ amount k len
  pub no_more : (k len : ℕ) → amount k len ≤ len

module _ (socket : Socket) (flows : Flows socket) where
  -- The outgoing side after all bytes of a buffer, however many calls that took.
  pub record IsWritten (s : Outgoing) (buf : List ℕ) (result : Option Outgoing) : Type 0 where
    pub after : Outgoing
    pub returns : result ≡ some after
    pub sent : after.sent ≡ s.sent ++ buf

  write_turn :
      (fuel n : ℕ) (s : Outgoing) (b : ℕ) (buf : List ℕ)
      → socket s.calls (length (b ∷ buf)) ≡ some n
      → 1 ≤ n
      → write_all (suc fuel) socket s (b ∷ buf)
        ≡ write_all fuel socket
            (record { calls = s.calls + 1; sent = s.sent ++ take n (b ∷ buf) })
            (drop n (b ∷ buf))
  unfolding write_all
  write_turn fuel n s b buf moved positive = ground arith

  pub write_all-IsWritten :
      (fuel : ℕ) (s : Outgoing) (buf : List ℕ)
      → length buf ≤ fuel
      → IsWritten s buf (write_all fuel socket s buf)
  write_all-IsWritten fuel s [] h = record {
    after = s;
    returns = unfold write_all in refl;
    sent = sym (append-nil s.sent);
  }
  write_all-IsWritten zero s (b ∷ buf) h = absurd (omega arith)
  write_all-IsWritten (suc fuel) s (b ∷ buf) h =
      let whole : List ℕ = b ∷ buf in
      let n = flows.amount s.calls (length whole) in
      let positive : 1 ≤ n = flows.some_bytes s.calls (length whole) (omega arith) in
      let next : Outgoing = record { calls = s.calls + 1; sent = s.sent ++ take n whole } in
      let w = write_all-IsWritten fuel next (drop n whole) (omega (arith, length-drop n whole)) in
      record {
        after = w.after;
        returns =
            write_turn fuel n s b buf (flows.moves s.calls (length whole)) positive ∙ w.returns;
        sent =
            w.sent
            ∙ append_assoc s.sent (take n whole) (drop n whole)
            ∙ ap (λ l. s.sent ++ l) (take-append-drop n whole);
      }

  -- The incoming side after the bytes of a message have been read.
  pub record IsRead (message later acc : List ℕ) (result : Option (Incoming × List ℕ))
      : Type 0 where
    pub after : Incoming
    pub returns : result ≡ some (after, acc ++ message)
    pub left : after.pending ≡ later

  read_turn :
      (fuel n calls b : ℕ) (message later acc : List ℕ)
      → socket calls (length (b ∷ message)) ≡ some n
      → 1 ≤ n
      → n ≤ length (b ∷ message)
      → read_all
          (suc fuel)
          socket
          (record { calls = calls; pending = (b ∷ message) ++ later })
          acc
          (length (b ∷ message))
        ≡ read_all fuel socket
            (record { calls = calls + 1; pending = drop n (b ∷ message) ++ later })
            (acc ++ take n (b ∷ message))
            (length (drop n (b ∷ message)))
  unfolding read_all
  read_turn fuel n calls b message later acc moved positive bounded = ground (
    arith,
    take-append n (b ∷ message) later,
    drop-append n (b ∷ message) later,
    length-drop n (b ∷ message),
    length-take n (b ∷ message),
  )

  pub read_all-IsRead :
      (fuel : ℕ) (calls : ℕ) (message later acc : List ℕ)
      → length message ≤ fuel
      → IsRead message later acc (
          read_all fuel socket
            (record { calls = calls; pending = message ++ later })
            acc
            (length message))
  read_all-IsRead fuel calls [] later acc h = record {
    after = record { calls = calls; pending = later };
    returns = unfold read_all in ap (λ l. some (_, l)) (sym (append-nil acc));
    left = refl;
  }
  read_all-IsRead zero calls (b ∷ message) later acc h = absurd (omega arith)
  read_all-IsRead (suc fuel) calls (b ∷ message) later acc h =
      let whole : List ℕ = b ∷ message in
      let n = flows.amount calls (length whole) in
      let positive : 1 ≤ n = flows.some_bytes calls (length whole) (omega arith) in
      let bounded : n ≤ length whole = flows.no_more calls (length whole) in
      let r =
        read_all-IsRead fuel (calls + 1) (drop n whole) later (acc ++ take n whole)
          (omega (arith, length-drop n whole)) in
      record {
        after = r.after;
        returns =
            read_turn fuel n calls b message later acc (flows.moves calls (length whole)) positive
              bounded
            ∙ r.returns
            ∙ ap (λ l. some (r.after, l))
                (append_assoc acc (take n whole) (drop n whole)
                  ∙ ap (λ l. acc ++ l) (take-append-drop n whole));
        left = r.left;
      }
