-- ===== src/Client/Reliable/Data.antt =====
-- A DATA packet at the reliable receiver of src/client.c.
use udp_secure_transfer.Prelude.{ℕ, ◌<◌, ◌≡◌, refl, ◌≢◌, inl, inr}
use udp_secure_transfer.Prelude.{arith, ap, sym, true, false, Option, some, List}
use udp_secure_transfer.Prelude.{length, set, take_all}
use udp_secure_transfer.Prelude.{get_or-set_self, get_or-set_ne, Bool-cases}
use udp_secure_transfer.Protocol.{Packet}
use udp_secure_transfer.Client.Reliable.{BufferedChunk, empty_slot, slot, Heap}
use udp_secure_transfer.Client.Reliable.{store_chunk}
use udp_secure_transfer.Client.Reliable.Slots.{Allocates}

-- The packet is block `p.packet_id` of the file.
pub record IsBlockOf (block : ℕ → List ℕ) (n : ℕ) (p : Packet) : Type 0 where
  pub in_range : p.packet_id < n
  pub payload : p.payload ≡ some (block p.packet_id)
  pub size : p.payload_length ≡ length (block p.packet_id)

-- The buffer after store_chunk: the block is in its slot, the other slots are as they were.
pub record Stored (block : ℕ → List ℕ) (p : Packet) (chunks : List BufferedChunk)
    (result : Option (List BufferedChunk)) : Type 0 where
  pub stored : List BufferedChunk
  pub returns : result ≡ some stored
  pub here : (slot stored p.packet_id).present ≡ true
  pub bytes : (slot stored p.packet_id).bytes ≡ block p.packet_id
  pub size : (slot stored p.packet_id).length ≡ length (block p.packet_id)
  pub others : (i : ℕ) → i ≢ p.packet_id → slot stored i ≡ slot chunks i

module _ (heap : Heap) (allocates : Allocates heap) (block : ℕ → List ℕ) (n : ℕ) (p : Packet)
    (honest : IsBlockOf block n p) where
  abbrev id : ℕ
  id = p.packet_id

  abbrev filled : BufferedChunk
  filled = record { bytes = block id; length = length (block id); present = true }

  store_new :
      (chunks : List BufferedChunk)
      → (slot chunks id).present ≡ false
      → store_chunk heap chunks p ≡ some (set chunks id filled)
  unfolding store_chunk
  store_new chunks free = ground (
    arith,
    honest.payload,
    honest.size,
    take_all (block id),
    allocates.mallocs 1,
    allocates.mallocs p.payload_length,
  )

  store_old :
      (chunks : List BufferedChunk)
      → (slot chunks id).present ≡ true
      → store_chunk heap chunks p ≡ some chunks
  unfolding store_chunk
  store_old chunks used = ground arith

  pub store-Stored :
      (chunks : List BufferedChunk)
      → id < length chunks
      → ((slot chunks id).present ≡ true
          → ((slot chunks id).bytes ≡ block id) × ((slot chunks id).length ≡ length (block id)))
      → Stored block p chunks (store_chunk heap chunks p)
  store-Stored chunks room same = elim (Bool-cases (slot chunks id).present) [
    | inl used ↦ record {
      stored = chunks;
      returns = store_old chunks used;
      here = used;
      bytes = (same used).0;
      size = (same used).1;
      others = λ i h. refl;
    }
    | inr free ↦
        let at_id : slot (set chunks id filled) id ≡ filled =
          get_or-set_self chunks id filled empty_slot room in
        record {
          stored = set chunks id filled;
          returns = store_new chunks free;
          here = ap (λ s. s.present) at_id;
          bytes = ap (λ s. s.bytes) at_id;
          size = ap (λ s. s.length) at_id;
          others = λ i h. get_or-set_ne chunks id i filled empty_slot (λ q. h (sym q));
        }
  ]
