-- ===== src/Server/Reliable/Order.antt =====
-- What the simulated reordering of src/server.c does to the order of the first transmissions.
use udp_secure_transfer.Prelude.{
  ℕ, zero, suc, ◌+◌, ◌-◌, ◌≤◌, ◌<◌, ◌≡◌, refl, arith, ap, sym, ◌∙◌, All,
}
use udp_secure_transfer.Prelude.{true, false, some, List, [], ◌∷◌, ◌++◌, map, length}
use udp_secure_transfer.Prelude.{take, get_elem?, set, append_assoc, append-nil}
use udp_secure_transfer.Prelude.{length-append, All-append, take_of_le, ◌⊎◌, inl, inr}
use native.Mathlib.Decide.{dec_lt}
use udp_secure_transfer.Protocol.{Peer}
use udp_secure_transfer.Protocol.Recv.{Link, Net}
use udp_secure_transfer.Protocol.Delivery.{Delivers, after_send, send_logged_lem}
use udp_secure_transfer.Server.Reliable.{Clock, ReliableChunk, Sender, ChunksSent, put_back}
use udp_secure_transfer.Server.Reliable.{send_reliable_chunk, release_delayed_chunks, send_at}
use udp_secure_transfer.Server.Reliable.Window.{Transfer, send_next, fill, start}

-- A chunk that has not been sent, and that is not to be dropped or doubled; it may be one that is
-- to be held back.
pub record IsFresh (chunk : ReliableChunk) : Type 0 where
  pub unsent : chunk.send_count ≡ 0
  pub unacked : chunk.acked ≡ false
  pub kept : chunk.drop_first_send ≡ false
  pub single : chunk.dup_first_send ≡ false
  pub not_held : chunk.reorder_pending ≡ false

abbrev pub IsSettled : ReliableChunk → Type 0
IsSettled chunk = chunk.reorder_pending ≡ false

get_behind :
    (front : List ReliableChunk) (chunk : ReliableChunk) (rest : List ReliableChunk)
    → get_elem? (front ++ (chunk ∷ rest)) (length front) ≡ some chunk
get_behind [] chunk rest = refl
get_behind (c ∷ front) chunk rest = get_behind front chunk rest

set_behind :
    (front : List ReliableChunk) (chunk new : ReliableChunk) (rest : List ReliableChunk)
    → set (front ++ (chunk ∷ rest)) (length front) new ≡ front ++ (new ∷ rest)
set_behind [] chunk new rest = refl
set_behind (c ∷ front) chunk new rest = ap (λ l. c ∷ l) (set_behind front chunk new rest)

module _ (link : Link) (delivers : Delivers link) (clock : Clock) where
  -- A chunk that is sent or held back, and then released.
  abbrev release_one : Sender → ReliableChunk → List ReliableChunk → ChunksSent
  release_one s chunk rest =
      let sent = send_reliable_chunk link clock s chunk in
      release_delayed_chunks link clock 1 sent.sender (sent.chunk ∷ rest)

  out : Sender → ReliableChunk → ReliableChunk
  out s chunk = record chunk {
    send_count = 1;
    reorder_first_send = false;
    reorder_pending = false;
    last_send = clock s.ticks;
  }

  fresh_out :
      (s : Sender) (chunk : ReliableChunk) (rest : List ReliableChunk)
      → IsFresh chunk
      → release_one s chunk rest ≡ record {
        ok = true;
        chunks = out s chunk ∷ rest;
        sender = record { net = after_send s.net chunk.wire; ticks = s.ticks + 1 };
      }
  unfolding out send_reliable_chunk release_delayed_chunks
  fresh_out s chunk rest f = ground (arith, f, send_logged_lem link delivers s.net chunk.wire)

  skips_settled :
      (front : List ReliableChunk) (count : ℕ) (s : Sender) (rest : List ReliableChunk)
      → All IsSettled front
      → release_delayed_chunks link clock (length front + count) s (front ++ rest)
        ≡ record (release_delayed_chunks link clock count s rest) {
          chunks = front ++ (release_delayed_chunks link clock count s rest).chunks;
        }
  unfolding release_delayed_chunks
  skips_settled [] count s rest ok = ground arith
  skips_settled (c ∷ front) count s rest ok =
      let first : release_delayed_chunks link clock (suc (length front + count)) s
            (c ∷ (front ++ rest))
          ≡ put_back c
              (release_delayed_chunks link clock (length front + count) s (front ++ rest)) =
        ground (arith, ok.0) in
      let number : suc (length front) + count ≡ suc (length front + count) = omega arith in
      rw number (first ∙ ap (put_back c) (skips_settled front count s rest ok.1))

  sent_at_front :
      (s : Sender) (front : List ReliableChunk) (chunk : ReliableChunk) (rest : List ReliableChunk)
      → send_at link clock s (front ++ (chunk ∷ rest)) (length front) ≡ record {
        ok = (send_reliable_chunk link clock s chunk).ok;
        chunks = front ++ ((send_reliable_chunk link clock s chunk).chunk ∷ rest);
        sender = (send_reliable_chunk link clock s chunk).sender;
      }
  unfolding send_at
  sent_at_front s front chunk rest =
      let sent = send_reliable_chunk link clock s chunk in
      ground (arith, get_behind front chunk rest, set_behind front chunk sent.chunk rest)

  module _ (window timeout : ℕ) (peer : Peer) where
    -- The window is at `front`, and `todo` has not been sent.
    abbrev at : ℕ → Sender → List ReliableChunk → List ReliableChunk → Transfer
    at base s front todo = record {
      chunks = front ++ todo;
      base = base;
      next_to_send = length front;
      sender = s;
    }

    send_next_fresh :
        (base : ℕ) (s : Sender) (front : List ReliableChunk) (chunk : ReliableChunk)
        (rest : List ReliableChunk)
        → All IsSettled front
        → IsFresh chunk
        → send_next link clock window timeout peer (at base s front (chunk ∷ rest)) ≡ record {
          ok = true;
          transfer =
              at base
                (record { net = after_send s.net chunk.wire; ticks = s.ticks + 1 })
                (front ++ (out s chunk ∷ []))
                rest;
        }
    send_next_fresh base s front chunk rest ok f =
        let sent = send_reliable_chunk link clock s chunk in
        let goes : sent.ok ≡ true =
          unfold send_reliable_chunk in
          ground (arith, f, send_logged_lem link delivers s.net chunk.wire) in
        let skips = skips_settled front 1 sent.sender (sent.chunk ∷ rest) ok in
        let released = fresh_out s chunk rest f in
        unfold send_next in
        ground (
          arith,
          sent_at_front s front chunk rest,
          goes,
          skips,
          released,
          append_assoc front (out s chunk ∷ []) rest,
          length-append front (out s chunk ∷ []),
        )

    out-IsSettled : (s : Sender) (chunk : ReliableChunk) → IsSettled (out s chunk)
    unfolding out
    out-IsSettled s chunk = refl

    fill_more :
        (fuel base : ℕ) (s : Sender) (front : List ReliableChunk) (chunk : ReliableChunk)
        (todo : List ReliableChunk)
        → All IsSettled front
        → IsFresh chunk
        → length front < base + window
        → fill link clock window timeout peer (suc fuel) (at base s front (chunk ∷ todo))
          ≡ fill link clock window timeout peer fuel (
              at base
                (record { net = after_send s.net chunk.wire; ticks = s.ticks + 1 })
                (front ++ (out s chunk ∷ []))
                todo)
    unfolding fill
    fill_more fuel base s front chunk todo ok f room =
        ground
          (arith, send_next_fresh base s front chunk todo ok f, length-append front (chunk ∷ todo))

    fill_full :
        (fuel base : ℕ) (s : Sender) (front todo : List ReliableChunk)
        → (length todo ≡ 0) ⊎ (base + window ≤ length front)
        → (fill link clock window timeout peer fuel (at base s front todo)).transfer
          ≡ at base s front todo
    unfolding fill
    fill_full zero base s front todo h = refl
    fill_full (suc fuel) base s front todo h = ground (arith, length-append front todo)

    wires_cons :
        (n : ℕ) (sent : List (List ℕ)) (chunk : ReliableChunk) (todo : List ReliableChunk)
        → (sent ++ (chunk.wire ∷ [])) ++ map (λ c. c.wire) (take n todo)
          ≡ sent ++ map (λ c. c.wire) (take (suc n) (chunk ∷ todo))
    wires_cons n sent chunk todo =
        append_assoc sent (chunk.wire ∷ []) (map (λ c. c.wire) (take n todo))

    fill_fresh :
        (fuel base : ℕ) (s : Sender) (front todo : List ReliableChunk)
        → All IsSettled front
        → All IsFresh todo
        → length todo ≤ fuel
        → (fill link clock window timeout peer fuel (at base s front todo)).transfer.sender.net.sent
          ≡ s.net.sent ++ map (λ c. c.wire) (take (base + window - length front) todo)
    fill_fresh fuel base s front [] ok f h =
        ap (λ t. t.sender.net.sent) (fill_full fuel base s front [] (inl refl))
        ∙ sym (append-nil s.net.sent)
        ∙ ap (λ l. s.net.sent ++ map (λ c. c.wire) l)
            (sym (take_of_le (base + window - length front) [] (omega arith)))
    fill_fresh zero base s front (chunk ∷ todo) ok f h = absurd (omega arith)
    fill_fresh (suc fuel) base s front (chunk ∷ todo) ok f h =
        elim (dec_lt (length front) (base + window)) [
          | no full ↦
              let none_left : base + window - length front ≡ 0 = omega arith in
              rw none_left (
                ap (λ t. t.sender.net.sent)
                  (fill_full (suc fuel) base s front (chunk ∷ todo) (inr (omega arith)))
                ∙ sym (append-nil s.net.sent))
          | yes room ↦
              let front' : List ReliableChunk = front ++ (out s chunk ∷ []) in
              let size : length front' ≡ length front + 1 =
                length-append front (out s chunk ∷ []) in
              let left : base + window - length front ≡ suc (base + window - length front') =
                omega (arith, size) in
              rw left (
                ap (λ t. t.transfer.sender.net.sent)
                  (fill_more fuel base s front chunk todo ok f.0 room)
                ∙ fill_fresh fuel base
                    (record { net = after_send s.net chunk.wire; ticks = s.ticks + 1 }) front' todo
                    (All-append IsSettled front (out s chunk ∷ []) ok (out-IsSettled s chunk, tt))
                    f.1 (omega arith)
                ∙ wires_cons (base + window - length front') s.net.sent chunk todo)
        ]

    -- On a link that delivers, and for chunks of which none is to be dropped or doubled: the first
    -- time that the window is filled, the datagrams of as many chunks as it holds go out in the
    -- order of the chunks, whichever chunks are to be held back for reordering.
    pub fill_in_order :
        (net : Net) (chunks : List ReliableChunk)
        → All IsFresh chunks
        → (fill link clock window timeout peer
            (length chunks)
            (start chunks net)).transfer.sender.net.sent
          ≡ net.sent ++ map (λ c. c.wire) (take window chunks)
    fill_in_order net chunks f =
        let whole : 0 + window - 0 ≡ window = omega arith in
        fill_fresh (length chunks) 0 (record { net = net; ticks = 0 }) [] chunks tt f (omega arith)
        ∙ ap (λ n. net.sent ++ map (λ c. c.wire) (take n chunks)) whole
