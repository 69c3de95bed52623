-- ===== src/Tests/Quic.antt =====
-- Two frames that come in the wrong order, and a sort by chunk_cmp.
use udp_secure_transfer.Prelude.{
  ℕ, ◌+◌, ◌≤◌, ◌≡◌, refl, arith, true, false, some, List, [], ◌∷◌, ◌++◌,
}
use udp_secure_transfer.Prelude.{map, concat, if◌then◌else◌, Bool-cases, inl, inr}
use mathlib.Core.List.{Perm, Pairwise, eq-or-mem_of_mem-cons, not-mem-nil}
use mathlib.Core.List.Perm
use mathlib.Core.Logic.{∥∥₁_elim}
use udp_secure_transfer.Protocol.Recv.{no_traffic}
use udp_secure_transfer.Sha1.Padding.{fips_sha1}
use udp_secure_transfer.Quic.Packet.{Fits, encode_packet, decode_packet}
use udp_secure_transfer.Quic.Packet.{decode-encode_packet}
use udp_secure_transfer.Quic.Sorted.{StreamChunk, Sorts, in_order, numbered}
use udp_secure_transfer.Quic.Client.{quic_receive, output}
use udp_secure_transfer.Quic.Reassembly.{IsFrame, stream_packet, close_packet, turn_of}
use udp_secure_transfer.Quic.Reassembly.{quic_reassembles}
use udp_secure_transfer.Prelude.{zero, suc, codes, length}
use udp_secure_transfer.Sha1.{fread_all, fread_blocks}
use udp_secure_transfer.Quic.Packet.{packet_wire, quic_close}
use udp_secure_transfer.Quic.Server.{
  Inbox, QuicServer, goes_on, plain_packet, serve_quic, quic_initial,
}
use udp_secure_transfer.Quic.Server.{quic_handshake_ack}
use udp_secure_transfer.Quic.Served.{Acknowledges, ack_packet}
use udp_secure_transfer.Quic.Session.{after_quic, wire_of, quic_transfer}
use udp_secure_transfer.Tests.Fixtures.{wire_link, wire_link-Delivers, files, files-Works}

put : StreamChunk → List StreamChunk → List StreamChunk
put c [] = c ∷ []
put c (x ∷ l) = let rest = put c l in if in_order c x then c ∷ (x ∷ l) else x ∷ rest

insertion_sort : List StreamChunk → List StreamChunk
insertion_sort [] = []
insertion_sort (c ∷ l) = put c (insertion_sort l)

in_order_total : (a b : StreamChunk) → in_order a b ≡ false → in_order b a ≡ true
unfolding in_order
in_order_total a b h = ground (arith, h)

in_order_trans :
    (a b c : StreamChunk) → in_order a b ≡ true → in_order b c ≡ true → in_order a c ≡ true
unfolding in_order
in_order_trans a b c h h' = ground (arith, h, h')

put_perm : (c : StreamChunk) (l : List StreamChunk) → Perm (put c l) (c ∷ l)
unfolding put
put_perm c [] = Perm.refl (c ∷ [])
put_perm c (x ∷ l) = elim (Bool-cases (in_order c x)) [
  | inl e ↦ rw e (Perm.refl (c ∷ (x ∷ l)))
  | inr e ↦ rw e (Perm.trans (Perm.cons x (put_perm c l)) (Perm.swap c x l))
]

put_ordered :
    (c : StreamChunk) (l : List StreamChunk)
    → Pairwise (λ a b. in_order a b ≡ true) l
    → Pairwise (λ a b. in_order a b ≡ true) (put c l)
unfolding put
put_ordered c [] p = Pairwise.cons (λ a m. absurd (not-mem-nil m)) Pairwise.nil
put_ordered c (x ∷ l) (Pairwise.cons h p) = elim (Bool-cases (in_order c x)) [
  | inl e ↦ rw e (
      Pairwise.cons
        (λ a m.
          ∥∥₁_elim (eq-or-mem_of_mem-cons m) (hlevel)
            (λ q. elim q [ inl q ↦ rw q e | inr m' ↦ in_order_trans c x a e (h a m') ]))
        (Pairwise.cons h p))
  | inr e ↦ rw e (
      Pairwise.cons
        (λ a m.
          ∥∥₁_elim (eq-or-mem_of_mem-cons ((Perm.mem_iff (put_perm c l)).0 m)) (hlevel)
            (λ q. elim q [ inl q ↦ rw q (in_order_total c x e) | inr m' ↦ h a m' ]))
        (put_ordered c l p))
]

sort_permutes : (chunks : List StreamChunk) → Perm (insertion_sort chunks) chunks
unfolding insertion_sort
sort_permutes [] = Perm.refl []
sort_permutes (c ∷ l) = Perm.trans (put_perm c (insertion_sort l)) (Perm.cons c (sort_permutes l))

sort_orders :
    (chunks : List StreamChunk) → Pairwise (λ a b. in_order a b ≡ true) (insertion_sort chunks)
unfolding insertion_sort
sort_orders [] = Pairwise.nil
sort_orders (c ∷ l) = put_ordered c (insertion_sort l) (sort_orders l)

insertion_sort-Sorts : Sorts insertion_sort
insertion_sort-Sorts = record { permutes = sort_permutes; orders = sort_orders }

abbrev frame : ℕ → StreamChunk
frame n = record { stream_id = 1; seq = n; payload = (n + 64) ∷ [] }

frame-IsFrame : (n : ℕ) → n ≤ 2 → IsFrame (frame n)
frame-IsFrame n h = record { stream = omega arith; number = omega arith; bounded = omega arith }

quic_reassembles_example :
    quic_receive wire_link files insertion_sort [] no_traffic (
      map turn_of (map (stream_packet 7) (frame 2 ∷ frame 1 ∷ []))
      ++ (turn_of (close_packet 7 (fips_sha1 (concat ((65 ∷ []) ∷ (66 ∷ []) ∷ [])))) ∷ []))
    ≡ output (concat ((65 ∷ []) ∷ (66 ∷ []) ∷ [])) true
quic_reassembles_example =
    quic_reassembles wire_link files insertion_sort 7 1 1 ((65 ∷ []) ∷ (66 ∷ []) ∷ [])
      (frame 2 ∷ frame 1 ∷ []) no_traffic [] wire_link-Delivers files-Works insertion_sort-Sorts
      (omega arith) (Perm.swap (frame 1) (frame 2) [])
      (frame-IsFrame 2 (omega arith), (frame-IsFrame 1 (omega arith), tt)) (omega arith)

sample-Fits : Fits (stream_packet 7 (frame 2))
sample-Fits = record {
  stream = omega arith;
  connection = omega arith;
  number = omega arith;
  acked = omega arith;
  whole = refl;
  bounded = omega arith;
}

decode-encode_packet_example :
    (wire : List ℕ) × (encode_packet (stream_packet 7 (frame 2)) ≡ some wire)
    × (decode_packet (wire ++ (9 ∷ [])) ≡ some (stream_packet 7 (frame 2)))
decode-encode_packet_example = decode-encode_packet (stream_packet 7 (frame 2)) (9 ∷ []) sample-Fits

-- What the server receives for a file of two bytes.
inbox : Inbox
inbox zero = some (wire_of quic_initial 7 (codes "client-hello"))
inbox (suc zero) = some (wire_of quic_handshake_ack 7 [])
inbox (suc (suc k)) = some (packet_wire (ack_packet 7 (1 + k)))

one_block : length (fread_blocks 1200 (codes "ab")) ≡ 1
unfolding fread_all
one_block = refl

all_acked : Acknowledges inbox 7 2 1 (length (fread_blocks 1200 (codes "ab")))
unfolding inbox
all_acked zero h = refl
all_acked (suc i) h = absurd (omega (arith, one_block))

abbrev waiting : QuicServer
waiting = record { net = no_traffic; received = 0 }

first_wire : inbox 0 ≡ some (wire_of quic_initial 7 (codes "client-hello"))
unfolding inbox
first_wire = refl

second_wire : inbox 1 ≡ some (wire_of quic_handshake_ack 7 [])
unfolding inbox
second_wire = refl

quic_transfer_example :
    (serve_quic wire_link inbox false 2 (some (codes "ab")) (fips_sha1 (codes "ab")) waiting
      ≡ goes_on (after_quic 7 (fips_sha1 (codes "ab")) (fread_blocks 1200 (codes "ab")) waiting))
    × (quic_receive wire_link files insertion_sort [] no_traffic (
          map turn_of (map (stream_packet 7) (numbered 1 1 (fread_blocks 1200 (codes "ab"))))
          ++ (turn_of (plain_packet quic_close 7 (fips_sha1 (codes "ab"))) ∷ []))
        ≡ output (codes "ab") true)
quic_transfer_example =
    quic_transfer wire_link wire_link inbox files insertion_sort 7 (codes "ab")
      (codes "client-hello") waiting no_traffic wire_link-Delivers wire_link-Delivers files-Works
      insertion_sort-Sorts (omega arith) (omega arith) (omega (arith, one_block)) first_wire
      second_wire all_acked
