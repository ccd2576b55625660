-- ===== src/Storage/Slab.antt =====
-- One slab of native/runtime/managed_storage.{h,cpp}: its table of entries, the slots that are taken
-- from it and its part of a sweep. Addresses are offsets from the start of the slab.
use neri.Prelude.{
  ℕ, zero, suc, ◌+◌, ◌-◌, ◌*◌, ◌/◌, ◌%◌, ◌^◌, List, [], ◌∷◌, Option, none, some, Bool, false, ◌||◌,
  not, ◌==◌, if◌then◌else◌, ltb, leb, get_elem?, get_or, set,
}

-- An entry, of two 16-bit numbers: `bytes`, and the flags, which are shown as their two bits and what
-- stands from bit 2 on, the place: the object's offset / 16.
pub record Entry : Type 0 where
  pub bytes : ℕ
  pub allocated : Bool
  pub marked : Bool
  pub place : ℕ

-- The table has the entries up to `bump`; those behind are not written yet.
pub record Slab : Type 0 where
  pub category : ℕ
  pub capacity : ℕ
  pub bump : ℕ
  pub live : ℕ
  pub free_slot : ℕ
  pub object_offset : ℕ
  pub table : List Entry

abbrev pub no_slot : ℕ
no_slot = 65535

abbrev pub block_bytes : ℕ
block_bytes = 16384

-- sizeof(slab) and sizeof(entry) where a pointer takes eight bytes.
abbrev pub slab_size : ℕ
slab_size = 48

abbrev pub entry_size : ℕ
entry_size = 4

abbrev pub slot_bytes : List ℕ
slot_bytes = 16 ∷ 32 ∷ 48 ∷ 64 ∷ 128 ∷ 256 ∷ []

-- `static_cast<std::uint16_t>`.
abbrev pub cast_u16 : ℕ → ℕ
cast_u16 n = n % 2 ^ 16

-- The entry with these flags: `allocated_bit` is 1 and `marked_bit` is 2.
abbrev pub entry_of : (bytes flags : ℕ) → Entry
entry_of bytes flags = record {
  bytes = bytes;
  allocated = not (flags % 2 == 0);
  marked = not (flags / 2 % 2 == 0);
  place = flags / 4;
}

-- The value rounded up to a multiple of 16.
abbrev pub align_up : ℕ → ℕ
align_up value = (value + 15) / 16 * 16

-- The loop of `size_class` from an index on.
unfoldable pub first_fit : List ℕ → (bytes index : ℕ) → ℕ
first_fit [] bytes index = index
first_fit (size ∷ sizes) bytes index =
    if leb bytes size then index else first_fit sizes bytes (index + 1)

unfoldable pub size_class : ℕ → ℕ
size_class bytes = first_fit slot_bytes bytes 0

-- `slot_stride` without the address sanitizer.
abbrev pub slot_stride : ℕ → ℕ
slot_stride category = get_or slot_bytes category 0

-- What a slab with a capacity takes.
abbrev pub extent : (stride capacity : ℕ) → ℕ
extent stride capacity = align_up (slab_size + capacity * entry_size) + capacity * stride

-- The loop that lowers the capacity until the slab fits in its block.
unfoldable pub lower : (stride capacity : ℕ) → ℕ
lower stride zero = zero
lower stride (suc capacity) =
    let rest = lower stride capacity in
    if ltb block_bytes (extent stride (suc capacity)) then rest else suc capacity

unfoldable pub slab_capacity : ℕ → ℕ
slab_capacity stride = lower stride ((block_bytes - slab_size) / (entry_size + stride))

-- The slab that `allocate` starts when none of the category is available.
unfoldable pub new_slab : ℕ → Slab
new_slab category =
    let capacity = slab_capacity (slot_stride category) in
    record {
      category = category;
      capacity = capacity;
      bump = 0;
      live = 0;
      free_slot = no_slot;
      object_offset = align_up (slab_size + capacity * entry_size);
      table = [];
    }

unfoldable pub has_space : Slab → Bool
has_space s = not (s.free_slot == no_slot) || ltb s.bump s.capacity

-- A write to the table; the first entry behind it is added.
abbrev pub write : List Entry → ℕ → Entry → List Entry
write [] i e = e ∷ []
write (x ∷ xs) zero e = e ∷ xs
write (x ∷ xs) (suc i) e = x ∷ write xs i e

-- The index of the slot that `allocate` takes.
unfoldable pub slot_index : Slab → ℕ
slot_index s = if s.free_slot == no_slot then s.bump else s.free_slot

abbrev pub entry_bytes : Option Entry → ℕ
entry_bytes none = no_slot
entry_bytes (some e) = e.bytes

-- The slab after `allocate` has taken a slot of it.
unfoldable pub take_slot : Slab → (bytes : ℕ) → Slab
take_slot s bytes =
    let index = slot_index s in
    record s {
      bump = if s.free_slot == no_slot then cast_u16 (s.bump + 1) else s.bump;
      free_slot =
          if s.free_slot == no_slot then s.free_slot else entry_bytes (get_elem? s.table index);
      live = cast_u16 (s.live + 1);
      table = write s.table index (
          entry_of (cast_u16 bytes)
            (cast_u16 (1 + (s.object_offset + index * slot_stride s.category) / 16 * 4)));
    }

-- The turn of the sweep over one entry.
unfoldable pub sweep_entry : Slab → ℕ → Slab
sweep_entry s index = elim (get_elem? s.table index) [
  | none ↦ s
  | some e ↦
      if not e.allocated
      then s
      else if e.marked
      then record s { table = set s.table index (record e { marked = false }) }
      else record s {
        table =
            set s.table index
              (record { bytes = s.free_slot; allocated = false; marked = false; place = 0 });
        free_slot = cast_u16 index;
        live = s.live - 1;
      }
]

-- The sweep of a slab, `left` of its entries from `index` on.
unfoldable pub sweep_entries : (left index : ℕ) → Slab → Slab
sweep_entries zero index s = s
sweep_entries (suc left) index s = sweep_entries left (index + 1) (sweep_entry s index)

unfoldable pub sweep_slab : Slab → Slab
sweep_slab s = sweep_entries s.bump 0 s
