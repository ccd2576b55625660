-- ===== src/Storage/Layout.antt =====
-- The layout of a slab and the size classes of native/runtime/managed_storage.cpp.
use neri.Prelude.{
  ℕ, zero, suc, ◌+◌, ◌-◌, ◌*◌, ◌/◌, ◌≤◌, ◌<◌, ◌≡◌, refl, sym, subst, List, [], ◌∷◌, arith,
  Bool-cases, inl, inr, leb, get_or, length,
}
use neri.Storage.Slab.{
  Slab, slot_stride, extent, lower, slab_capacity, new_slab, block_bytes, slab_size, entry_size,
  slot_bytes, size_class, first_fit,
}
use neri.Storage.Place.{Placed, stride_bound}
use neri.Storage.Sound.{Sound}

lower_fits : (stride n : ℕ) → extent stride (lower stride n) ≤ block_bytes
unfolding lower
lower_fits stride zero = omega arith
lower_fits stride (suc n) = ground (arith, lower_fits stride n)

lower_le : (stride n : ℕ) → lower stride n ≤ n
unfolding lower
lower_le stride zero = omega arith
lower_le stride (suc n) = ground (arith, lower_le stride n)

lower_positive : (stride n : ℕ) → stride ≤ 256 → 1 ≤ n → 1 ≤ lower stride n
unfolding lower
lower_positive stride zero h p = absurd (omega arith)
lower_positive stride (suc zero) h p = ground arith
lower_positive stride (suc (suc n)) h p =
    ground (arith, lower_positive stride (suc n) h (omega arith))

quotient_le : (d : ℕ) → (block_bytes - slab_size) / d ≤ block_bytes - slab_size
quotient_le zero = grind arith
quotient_le (suc d) = grind arith

-- A new slab is sound, has at least one slot, its table ends before its first object, and its slots
-- end within the block.
pub new_slab_lem :
    (category : ℕ)
    → Sound (new_slab category)
      × (1 ≤ Slab.capacity (new_slab category))
      × (slab_size + Slab.capacity (new_slab category) * entry_size
          ≤ Slab.object_offset (new_slab category))
      × (Slab.object_offset (new_slab category)
            + Slab.capacity (new_slab category) * slot_stride category
          ≤ block_bytes)
unfolding new_slab slab_capacity
new_slab_lem category =
    let stride = slot_stride category in
    let n = (block_bytes - slab_size) / (entry_size + stride) in
    (
      record {
        filled = refl;
        bounded = omega arith;
        numbered = ground (arith, lower_le stride n, quotient_le (entry_size + stride));
        counted = refl;
        free = [];
        linked = refl;
        exact = λ k. refl;
      },
      lower_positive stride n (stride_bound category) (grind (arith, stride_bound category)),
      omega arith,
      lower_fits stride n,
    )

pub new_slab-Placed : (category : ℕ) → Placed (new_slab category)
unfolding new_slab slab_capacity
new_slab-Placed category = record {
  aligned = omega arith;
  inside =
      lower_fits (slot_stride category)
        ((block_bytes - slab_size) / (entry_size + slot_stride category));
}

-- What the loop of `size_class` finds: a distance into the sizes.
Fit : List ℕ → (bytes distance : ℕ) → Type 0
Fit sizes bytes distance =
    (distance < length sizes → bytes ≤ get_or sizes distance 0)
    × ((c : ℕ) → c < distance → get_or sizes c 0 < bytes)

further :
    (size bytes distance : ℕ) (sizes : List ℕ)
    → size < bytes
    → Fit sizes bytes distance
    → Fit (size ∷ sizes) bytes (suc distance)
unfolding Fit
further size bytes distance sizes h f = (λ l. f.0 (omega arith), λ c. below c)
  where
    below : (c : ℕ) → c < suc distance → get_or (size ∷ sizes) c 0 < bytes
    below zero l = h
    below (suc c) l = f.1 c (omega arith)

first_fit_lem :
    (sizes : List ℕ) (bytes index : ℕ)
    → (distance : ℕ) × (first_fit sizes bytes index ≡ index + distance) × Fit sizes bytes distance
unfolding first_fit Fit
first_fit_lem [] bytes index =
    (0, omega arith, (λ l. absurd (omega arith), λ c l. absurd (omega arith)))
first_fit_lem (size ∷ sizes) bytes index = elim (Bool-cases (leb bytes size)) [
  | inl e ↦ (0, ground (arith, e), (λ _. ground (arith, e), λ c l. absurd (omega arith)))
  | inr e ↦
      let rest = first_fit_lem sizes bytes (index + 1) in
      (
        suc rest.0,
        ground (arith, e, rest.1),
        further size bytes rest.0 sizes (ground (arith, e)) rest.2,
      )
]

-- The size class of a small object has slots that are large enough for it, and no class before has;
-- an object without a class is larger than every slot.
pub size_class_lem :
    (bytes : ℕ)
    → (size_class bytes < length slot_bytes → bytes ≤ slot_stride (size_class bytes))
      × ((c : ℕ) → c < size_class bytes → slot_stride c < bytes)
unfolding size_class Fit
size_class_lem bytes =
    let found = first_fit_lem slot_bytes bytes 0 in
    let same : size_class bytes ≡ found.0 = omega (arith, found.1) in
    subst
      (λ n.
        (n < length slot_bytes → bytes ≤ slot_stride n) × ((c : ℕ) → c < n → slot_stride c < bytes))
      (sym same) found.2
