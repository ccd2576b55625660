-- ===== src/Storage/Sound.antt =====
-- The free list of a slab of native/runtime/managed_storage.cpp, and the slots that `allocate` takes.
use neri.Prelude.{
  ℕ, zero, suc, ◌+◌, ◌*◌, ◌/◌, ◌≤◌, ◌<◌, ◌≡◌, refl, sym, ap, ◌∙◌, subst, List, [], ◌∷◌, Option,
  none, some, true, false, ◌==◌, ==_iff, if◌then◌else◌, length, get_elem?, arith, Bool-cases, ◌⊎◌,
  inl, inr,
}
use neri.Storage.Slab.{
  Entry, Slab, no_slot, slot_stride, has_space, write, slot_index, entry_bytes, take_slot, cast_u16,
  entry_of,
}
use neri.Storage.Place.{Placed, stride_bound, slot_place, place_bound, written_entry}

abbrev pub occurrences : ℕ → List ℕ → ℕ
occurrences k [] = 0
occurrences k (x ∷ xs) = (if x == k then 1 else 0) + occurrences k xs

-- The slots of a list are linked by their entries from a first one on.
abbrev pub Linked : List Entry → List ℕ → ℕ → Type 0
Linked table [] slot = slot ≡ no_slot
Linked table (i ∷ is) slot =
    (slot ≡ i) × ((e : Entry) × (get_elem? table i ≡ some e) × Linked table is e.bytes)

abbrev pub vacant : Option Entry → ℕ
vacant none = 0
vacant (some e) = if e.allocated then 0 else 1

abbrev pub taken_slots : List Entry → ℕ
taken_slots [] = 0
taken_slots (e ∷ es) = (if e.allocated then 1 else 0) + taken_slots es

-- The free list has the vacant slots, each once, and the counters agree with the table.
pub record Sound (s : Slab) : Type 0 where
  pub filled : length s.table ≡ s.bump
  pub bounded : s.bump ≤ s.capacity
  pub numbered : s.capacity < no_slot
  pub counted : s.live ≡ taken_slots s.table
  pub free : List ℕ
  pub linked : Linked s.table free s.free_slot
  pub exact : (k : ℕ) → occurrences k free ≡ vacant (get_elem? s.table k)

pub get_below : (es : List Entry) (i : ℕ) (e : Entry) → get_elem? es i ≡ some e → i < length es
get_below [] i e h = ground arith
get_below (x ∷ xs) zero e h = omega arith
get_below (x ∷ xs) (suc i) e h = omega (arith, get_below xs i e h)

pub length-write :
    (es : List Entry) (i : ℕ) (e : Entry)
    → i ≤ length es
    → length (write es i e) ≡ (if i == length es then length es + 1 else length es)
length-write [] zero e h = omega arith
length-write [] (suc i) e h = absurd (omega arith)
length-write (x ∷ xs) zero e h = ground arith
length-write (x ∷ xs) (suc i) e h = ground (arith, length-write xs i e (omega arith))

pub get-write :
    (es : List Entry) (i k : ℕ) (e : Entry)
    → i ≤ length es
    → get_elem? (write es i e) k ≡ (if i == k then some e else get_elem? es k)
get-write [] zero zero e h = refl
get-write [] zero (suc k) e h = ground arith
get-write [] (suc i) k e h = absurd (omega arith)
get-write (x ∷ xs) zero zero e h = refl
get-write (x ∷ xs) zero (suc k) e h = ground arith
get-write (x ∷ xs) (suc i) zero e h = ground arith
get-write (x ∷ xs) (suc i) (suc k) e h = ground (arith, get-write xs i k e (omega arith))

pub taken-write :
    (es : List Entry) (i : ℕ) (e : Entry)
    → i ≤ length es
    → vacant (get_elem? es i) ≡ 1 ⊎ (i ≡ length es)
    → e.allocated ≡ true
    → taken_slots (write es i e) ≡ taken_slots es + 1
taken-write [] zero e h v a = ground arith
taken-write [] (suc i) e h v a = absurd (omega arith)
taken-write (x ∷ xs) zero e h v a = ground arith
taken-write (x ∷ xs) (suc i) e h v a = ground (arith, taken-write xs i e (omega arith))

-- A write to a slot that is not in the list keeps the links.
pub Linked-write :
    (table other : List Entry) (is : List ℕ) (slot i : ℕ)
    → ((k : ℕ) → (i == k) ≡ false → get_elem? other k ≡ get_elem? table k)
    → occurrences i is ≡ 0
    → Linked table is slot
    → Linked other is slot
Linked-write table other [] slot i h o l = l
Linked-write table other (j ∷ js) slot i h o l =
    let rest = l.1 in
    (
      l.0,
      (
        rest.0,
        h j (ground arith) ∙ rest.1,
        Linked-write table other js (Entry.bytes rest.0) i h (ground arith) rest.2,
      ),
    )

-- The entry that `allocate` writes.
abbrev pub new_entry : Slab → ℕ → ℕ → Entry
new_entry s index bytes = record {
  bytes = bytes;
  allocated = true;
  marked = false;
  place = (s.object_offset + index * slot_stride s.category) / 16;
}

-- The slab with a slot taken at an index, and what is left of the free list.
abbrev pub placed_at : Slab → (index bytes bump free_slot : ℕ) → Slab
placed_at s index bytes bump free_slot = record s {
  bump = bump;
  free_slot = free_slot;
  live = s.live + 1;
  table = write s.table index (new_entry s index bytes);
}

placed_at-Sound :
    (s : Slab) (index bytes bump free_slot : ℕ) (free : List ℕ)
    → Sound s
    → index ≤ s.bump
    → bump ≡ (if index == s.bump then s.bump + 1 else s.bump)
    → index < s.capacity
    → vacant (get_elem? s.table index) ≡ 1 ⊎ (index ≡ length s.table)
    → Linked s.table free free_slot
    → ((k : ℕ) → occurrences k free ≡ (if index == k then 0 else vacant (get_elem? s.table k)))
    → Sound (placed_at s index bytes bump free_slot)
placed_at-Sound s index bytes bump free_slot free f h b l v links o =
    let e = new_entry s index bytes in
    let below : index ≤ length s.table = omega (arith, f.filled) in
    record {
      filled = ground (arith, f.filled, length-write s.table index e below);
      bounded = ground (arith, f.bounded, b, l);
      numbered = f.numbered;
      counted = omega (arith, f.counted, taken-write s.table index e below v refl);
      free = free;
      linked =
          Linked-write s.table (write s.table index e) free free_slot index
            (λ k d. get-write s.table index k e below ∙ ground (arith, d)) (ground (arith, o index))
            links;
      exact = λ k. ground (arith, o k, get-write s.table index k e below);
    }

pub get_above : (es : List Entry) (k : ℕ) → length es ≤ k → get_elem? es k ≡ none
get_above [] k h = refl
get_above (x ∷ xs) zero h = absurd (omega arith)
get_above (x ∷ xs) (suc k) h = get_above xs k (omega arith)

-- A fresh slot.
bumped-Sound :
    (s : Slab) (bytes : ℕ)
    → Sound s
    → s.free_slot ≡ no_slot
    → s.bump < s.capacity
    → Sound (placed_at s s.bump bytes (s.bump + 1) s.free_slot)
bumped-Sound s bytes f n l =
    placed_at-Sound s s.bump bytes (s.bump + 1) s.free_slot f.free f (omega arith) (ground arith) l
      (inr (sym f.filled)) f.linked (λ k. ground (arith, f.exact k, f.filled, get_above s.table k))

-- The slot at the head of the free list.
reused-Sound :
    (s : Slab) (bytes : ℕ) (free : List ℕ)
    → Sound s
    → (s.free_slot == no_slot) ≡ false
    → Linked s.table free s.free_slot
    → ((k : ℕ) → occurrences k free ≡ vacant (get_elem? s.table k))
    → Sound (placed_at s s.free_slot bytes s.bump (entry_bytes (get_elem? s.table s.free_slot)))
      × (s.free_slot < s.bump)
      × (vacant (get_elem? s.table s.free_slot) ≡ 1)
reused-Sound s bytes [] f n l o = absurd (ground (arith, n, l))
reused-Sound s bytes (i ∷ is) f n l o =
    let next = l.1 in
    let here : get_elem? s.table s.free_slot ≡ some next.0 =
      ap (λ m. get_elem? s.table m) l.0 ∙ next.1 in
    let below : s.free_slot < s.bump =
      omega (arith, get_below s.table s.free_slot next.0 here, f.filled) in
    let open_ : vacant (get_elem? s.table s.free_slot) ≡ 1 =
      ground (arith, o s.free_slot, l.0, here) in
    (
      placed_at-Sound s s.free_slot bytes s.bump _ is f (omega arith) (ground (arith, below))
          (omega (arith, f.bounded)) (inl open_)
          (subst (λ m. Linked s.table is m) (ap entry_bytes (sym here)) next.2)
          (λ k. ground (arith, o k, l.0, here)),
      below,
      open_,
    )

-- What a slot that was taken satisfies: it lies within the capacity and was not in use, its entry has the
-- size and, of the object's offset, the place, no other entry changes, and the slab stays sound and placed.
unfoldable pub Taken : Slab → (bytes index : ℕ) → Slab → Type 0
Taken s bytes index after =
    Sound after
    × Placed after
    × (index < s.capacity)
    × (get_elem? s.table index ≡ none ⊎ (vacant (get_elem? s.table index) ≡ 1))
    × (get_elem? after.table index ≡ some (new_entry s index bytes))
    × (Entry.place (new_entry s index bytes) * 16
        ≡ s.object_offset + index * slot_stride s.category)
    × ((k : ℕ) → (index == k) ≡ false → get_elem? after.table k ≡ get_elem? s.table k)

placed_at-Taken :
    (s : Slab) (index bytes bump free_slot : ℕ)
    → Placed s
    → index ≤ length s.table
    → index < s.capacity
    → get_elem? s.table index ≡ none ⊎ (vacant (get_elem? s.table index) ≡ 1)
    → Sound (placed_at s index bytes bump free_slot)
    → Taken s bytes index (placed_at s index bytes bump free_slot)
unfolding Taken
placed_at-Taken s index bytes bump free_slot p h l v f =
    let e = new_entry s index bytes in
    (
      f,
      record { aligned = p.aligned; inside = p.inside },
      l,
      v,
      get-write s.table index index e h ∙ ground arith,
      slot_place s.category s.object_offset index p.aligned,
      λ k d. get-write s.table index k e h ∙ ground (arith, d),
    )

taken-le : (es : List Entry) → taken_slots es ≤ length es
taken-le [] = omega arith
taken-le (e ∷ es) = ground (arith, taken-le es)

counters_fit :
    (s : Slab)
    → Sound s
    → (cast_u16 (s.live + 1) ≡ s.live + 1)
      × (s.bump < s.capacity → cast_u16 (s.bump + 1) ≡ s.bump + 1)
counters_fit s f =
    let live : s.live < no_slot =
      omega (arith, f.counted, f.filled, f.bounded, f.numbered, taken-le s.table) in
    (omega arith, λ l. omega (arith, f.numbered))

-- The table that `allocate` writes.
written_table :
    (s : Slab) (index bytes : ℕ)
    → Placed s
    → bytes ≤ slot_stride s.category
    → index < s.capacity
    → write s.table index (
        entry_of
          (cast_u16 bytes)
          (cast_u16 (1 + (s.object_offset + index * slot_stride s.category) / 16 * 4)))
      ≡ write s.table index (new_entry s index bytes)
written_table s index bytes p b l =
    ap (λ e. write s.table index e)
      (written_entry bytes ((s.object_offset + index * slot_stride s.category) / 16)
        (omega (arith, stride_bound s.category)) (place_bound s index p l))

take_bumped :
    (s : Slab) (bytes : ℕ)
    → Sound s
    → Placed s
    → bytes ≤ slot_stride s.category
    → (s.free_slot == no_slot) ≡ true
    → s.bump < s.capacity
    → (slot_index s ≡ s.bump)
      × (take_slot s bytes ≡ placed_at s s.bump bytes (s.bump + 1) s.free_slot)
unfolding take_slot slot_index
take_bumped s bytes f p b e l =
    let fit = counters_fit s f in
    (ground (arith, e), rw (e, slot_index, fit.0, fit.1 l, written_table s s.bump bytes p b l) refl)

take_reused :
    (s : Slab) (bytes : ℕ)
    → Sound s
    → Placed s
    → bytes ≤ slot_stride s.category
    → (s.free_slot == no_slot) ≡ false
    → s.free_slot < s.capacity
    → (slot_index s ≡ s.free_slot)
      × (take_slot s bytes
          ≡ placed_at s s.free_slot bytes s.bump (entry_bytes (get_elem? s.table s.free_slot)))
unfolding take_slot slot_index
take_reused s bytes f p b e l =
    let fit = counters_fit s f in
    (ground (arith, e), rw (e, slot_index, fit.0, written_table s s.free_slot bytes p b l) refl)

-- In a sound slab whose slots lie within its block, a slot that `allocate` takes for an object that fits
-- lies within the capacity and was not in use. Its entry has exactly the size, the two flags and the
-- place, of which the object's offset is 16 times: the 16-bit fields lose nothing. No other entry changes,
-- the free list stays exact, and the slots stay within the block.
pub take_slot_lem :
    (s : Slab) (bytes : ℕ)
    → Sound s
    → Placed s
    → bytes ≤ slot_stride s.category
    → has_space s ≡ true
    → Taken s bytes (slot_index s) (take_slot s bytes)
unfolding has_space
take_slot_lem s bytes f p b h = elim (Bool-cases (s.free_slot == no_slot)) [
  | inl e ↦
      let room : s.bump < s.capacity = ground (arith, h, e) in
      let same = take_bumped s bytes f p b e room in
      subst (λ i. Taken s bytes i (take_slot s bytes)) (sym same.0)
        (subst (λ q. Taken s bytes s.bump q) (sym same.1)
          (placed_at-Taken s s.bump bytes (s.bump + 1) s.free_slot p (omega (arith, f.filled)) room
            (inl (get_above s.table s.bump (omega (arith, f.filled))))
            (bumped-Sound s bytes f ((==_iff s.free_slot no_slot).0 e) room)))
  | inr e ↦
      let used = reused-Sound s bytes f.free f e f.linked f.exact in
      let below : s.free_slot < s.capacity = omega (arith, f.bounded, used.1) in
      let same = take_reused s bytes f p b e below in
      subst (λ i. Taken s bytes i (take_slot s bytes)) (sym same.0)
        (subst (λ q. Taken s bytes s.free_slot q) (sym same.1)
          (placed_at-Taken s s.free_slot bytes s.bump _ p (omega (arith, f.filled, used.1)) below
            (inr used.2) used.0))
]
