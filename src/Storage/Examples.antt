-- ===== src/Storage/Examples.antt =====
-- Slabs of native/runtime/managed_storage.cpp with slots of 16 bytes.
use neri.Prelude.{ℕ, ◌+◌, ◌*◌, ◌≤◌, ◌<◌, ◌≡◌, refl, true, length, get_elem?, arith}
use neri.Storage.Slab.{
  Slab, new_slab, take_slot, slot_index, has_space, slab_capacity, lower, sweep_slab, size_class,
  slot_stride, slot_bytes, slab_size, entry_size, block_bytes,
}
use neri.Storage.Sound.{Sound, Taken, take_slot_lem}
use neri.Storage.Sweep.{Swept, sweep_slab_lem}
use neri.Storage.Layout.{new_slab_lem, new_slab-Placed, size_class_lem}

abbrev fresh : Slab
fresh = new_slab 0

fresh_space : has_space fresh ≡ true
unfolding has_space new_slab slab_capacity lower
fresh_space = refl

fits : 12 ≤ slot_stride (Slab.category fresh)
unfolding new_slab
fits = omega arith

take_slot_lem_example : Taken fresh 12 (slot_index fresh) (take_slot fresh 12)
take_slot_lem_example =
    take_slot_lem fresh 12 (new_slab_lem 0).0 (new_slab-Placed 0) fits fresh_space

-- One object is in the slab.
abbrev one : Slab
one = take_slot fresh 12

one-Sound : Sound one
unfolding Taken
one-Sound = (take_slot_lem fresh 12 (new_slab_lem 0).0 (new_slab-Placed 0) fits fresh_space).0

sweep_slab_lem_example :
    Sound (sweep_slab one)
    × ((k : ℕ) → Swept (get_elem? one.table k) (get_elem? (Slab.table (sweep_slab one)) k))
sweep_slab_lem_example = sweep_slab_lem one one-Sound

new_slab_lem_example :
    Sound (new_slab 3)
    × (1 ≤ Slab.capacity (new_slab 3))
    × (slab_size + Slab.capacity (new_slab 3) * entry_size ≤ Slab.object_offset (new_slab 3))
    × (Slab.object_offset (new_slab 3) + Slab.capacity (new_slab 3) * slot_stride 3 ≤ block_bytes)
new_slab_lem_example = new_slab_lem 3

size_class_lem_example :
    (size_class 50 < length slot_bytes → 50 ≤ slot_stride (size_class 50))
    × ((c : ℕ) → c < size_class 50 → slot_stride c < 50)
size_class_lem_example = size_class_lem 50
