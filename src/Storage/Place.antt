-- ===== src/Storage/Place.antt =====
-- Where the slots of a slab of native/runtime/managed_storage.cpp lie, and that its 16-bit fields hold what
-- is written to them.
use neri.Prelude.{ℕ, zero, suc, ◌+◌, ◌*◌, ◌/◌, ◌%◌, ◌≤◌, ◌<◌, ◌≡◌, arith, true, false}
use neri.Storage.Slab.{Slab, slot_stride, block_bytes, cast_u16, entry_of}

pub stride_bound : (category : ℕ) → slot_stride category ≤ 256
stride_bound zero = omega arith
stride_bound (suc zero) = omega arith
stride_bound (suc (suc zero)) = omega arith
stride_bound (suc (suc (suc zero))) = omega arith
stride_bound (suc (suc (suc (suc zero)))) = omega arith
stride_bound (suc (suc (suc (suc (suc zero))))) = omega arith
stride_bound (suc (suc (suc (suc (suc (suc c)))))) = omega arith

-- The slots lie at multiples of 16.
pub slot_place :
    (category offset index : ℕ)
    → offset % 16 ≡ 0
    → (offset + index * slot_stride category) / 16 * 16 ≡ offset + index * slot_stride category
slot_place zero o i h = omega arith
slot_place (suc zero) o i h = omega arith
slot_place (suc (suc zero)) o i h = omega arith
slot_place (suc (suc (suc zero))) o i h = omega arith
slot_place (suc (suc (suc (suc zero)))) o i h = omega arith
slot_place (suc (suc (suc (suc (suc zero))))) o i h = omega arith
slot_place (suc (suc (suc (suc (suc (suc c)))))) o i h = omega arith

-- The slots begin at a multiple of 16 and end within the block.
pub record Placed (s : Slab) : Type 0 where
  pub aligned : s.object_offset % 16 ≡ 0
  pub inside : s.object_offset + s.capacity * slot_stride s.category ≤ block_bytes

product_le : (a b c : ℕ) → a ≤ b → a * c ≤ b * c
product_le a b c h = grind arith

-- The place of a slot, as a number of 16 bytes.
pub place_bound :
    (s : Slab) (index : ℕ)
    → Placed s
    → index < s.capacity
    → (s.object_offset + index * slot_stride s.category) / 16 ≤ 1024
place_bound s index p h =
    omega (arith, p.inside, product_le index s.capacity (slot_stride s.category) (omega arith))

entry_parts :
    (bytes place : ℕ)
    → bytes ≤ 256
    → place ≤ 1024
    → (bytes % 65536 ≡ bytes)
      × ((1 + place * 4) % 65536 % 2 ≡ 1)
      × ((1 + place * 4) % 65536 / 2 % 2 ≡ 0)
      × ((1 + place * 4) % 65536 / 4 ≡ place)
entry_parts bytes place b p = (omega arith, omega arith, omega arith, omega arith)

-- The entry that `allocate` writes, of numbers that fit, is read back as they are.
pub written_entry :
    (bytes place : ℕ)
    → bytes ≤ 256
    → place ≤ 1024
    → entry_of (cast_u16 bytes) (cast_u16 (1 + place * 4))
      ≡ record { bytes = bytes; allocated = true; marked = false; place = place }
written_entry bytes place b p = ground (arith, entry_parts bytes place b p)
