-- ===== src/Client/Transfer/Verified.antt =====
-- The whole receive loop of src/client.c: an output file is always a verified one.
use udp_secure_transfer.Prelude.{ℕ, ◌≡◌, refl, arith, ap, sym, ◌∙◌, List, [], ◌∷◌}
use udp_secure_transfer.Prelude.{◌++◌, concat, append_assoc, append-nil, u32, ◌+◌}
use udp_secure_transfer.Protocol.{Peer}
use udp_secure_transfer.Protocol.Logged.{Event, recv_expected}
use udp_secure_transfer.Sha1.Padding.{fips_sha1}
use udp_secure_transfer.Client.Transfer.{Disk, Receiver, fresh, TransferStep, continues, committed}
use udp_secure_transfer.Client.Transfer.{removed, transfer_step, transfer_loop, output}
use udp_secure_transfer.Client.Transfer.Safety.{
  IsData, Carry, IsTerminate, step-IsData, step-IsTerminate,
}

-- Some first events carry blocks with consecutive ids from `packet_id` on, `content` is the blocks
-- put together behind `out`, and the next event brings its digest.
pub record Verified (server : Peer) (packet_id : ℕ) (out : List ℕ) (events : List Event)
    (content : List ℕ) : Type 0 where
  pub blocks : List (List ℕ)
  pub before : List Event
  pub final : Event
  pub after : List Event
  pub split : events ≡ before ++ (final ∷ after)
  pub carry : Carry server packet_id before blocks
  pub whole : content ≡ out ++ concat blocks
  pub verified : IsTerminate server (fips_sha1 content) final

module _ (disk : Disk) (server : Peer) where
  first_block :
      (packet_id : ℕ) (out content block : List ℕ) (e : Event) (events : List Event)
      → IsData server packet_id block e
      → Verified server (u32 (packet_id + 1)) (out ++ block) events content
      → Verified server packet_id out (e ∷ events) content
  first_block packet_id out content block e events d v = record {
    blocks = block ∷ v.blocks;
    before = e ∷ v.before;
    final = v.final;
    after = v.after;
    split = ap (λ l. e ∷ l) v.split;
    carry = (d, v.carry);
    whole = v.whole ∙ append_assoc out block (concat v.blocks);
    verified = v.verified;
  }

  turn_Verified :
      (r : Receiver) (e : Event) (events : List Event) (content : List ℕ) (s : TransferStep)
      → transfer_step disk server r e.arrival ≡ s
      → ((r' : Receiver)
          → transfer_loop disk server r' events ≡ output content
          → Verified server r'.expected_packet_id r'.out events content)
      → transfer_loop disk server r (e ∷ events) ≡ output content
      → Verified server r.expected_packet_id r.out (e ∷ events) content
  turn_Verified r e events content (continues r') step later h =
      let goes : transfer_loop disk server r' events ≡ output content =
        unfold transfer_loop in ground arith in
      let (block, d, next, grown) =
        step-IsData disk server r r' e (recv_expected e.arrival) refl
          (unfold transfer_step in step) in
      first_block r.expected_packet_id r.out content block e events d
        (rw (next, grown) at (later r' goes))
  turn_Verified r e events content (committed c) step later h =
      let same : c ≡ content = unfold transfer_loop in ground arith in
      let (kept, t) =
        step-IsTerminate disk server r c e (recv_expected e.arrival) refl
          (unfold transfer_step in step) in
      record {
        blocks = [];
        before = [];
        final = e;
        after = events;
        split = refl;
        carry = tt;
        whole = sym same ∙ kept ∙ sym (append-nil r.out);
        verified = rw same at t;
      }
  turn_Verified r e events content (removed reason) step later h =
      absurd (unfold transfer_loop in ground arith)

  loop_Verified :
      (events : List Event) (r : Receiver) (content : List ℕ)
      → transfer_loop disk server r events ≡ output content
      → Verified server r.expected_packet_id r.out events content
  loop_Verified [] r content h = absurd (unfold transfer_loop in ground arith)
  loop_Verified (e ∷ events) r content h =
      turn_Verified r e events content (transfer_step disk server r e.arrival) refl
        (λ r' g. loop_Verified events r' content g) h

  -- Whatever the file system does and whatever arrives from whom: if the client commits an output
  -- file, its content is the payloads of DATA packets of the server with the ids 0, 1, 2 and so
  -- on, in the order of the events, and the next event is a TERMINATE packet of the server with
  -- the SHA-1 digest of that content.
  pub transfer_loop-Verified :
      (events : List Event) (content : List ℕ)
      → transfer_loop disk server fresh events ≡ output content
      → Verified server 0 [] events content
  transfer_loop-Verified events content h = loop_Verified events fresh content h
