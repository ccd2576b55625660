-- ===== src/Storage/Sweep.antt =====
-- The sweep of a slab of native/runtime/managed_storage.cpp.
use neri.Prelude.{
  ℕ, zero, suc, ◌+◌, ◌-◌, ◌≤◌, ◌<◌, ◌≡◌, refl, sym, ◌∙◌, subst, List, [], ◌∷◌, Option, none, some,
  true, false, ◌&&◌, ◌==◌, ==_iff, if◌then◌else◌, length, get_elem?, set, arith, Option-cases,
  Bool-cases, ◌⊎◌, inl, inr, length-set, ltb,
}
use neri.Storage.Slab.{Entry, Slab, cast_u16, sweep_entry, sweep_entries, sweep_slab}
use neri.Storage.Sound.{Sound, Linked-write, occurrences, vacant, taken_slots, get_below, get_above}

get-set :
    (es : List Entry) (i k : ℕ) (e : Entry)
    → i < length es
    → get_elem? (set es i e) k ≡ (if i == k then some e else get_elem? es k)
get-set [] i k e h = absurd (omega arith)
get-set (x ∷ xs) zero zero e h = refl
get-set (x ∷ xs) zero (suc k) e h = ground arith
get-set (x ∷ xs) (suc i) zero e h = ground arith
get-set (x ∷ xs) (suc i) (suc k) e h = ground (arith, get-set xs i k e (omega arith))

taken-set :
    (es : List Entry) (i : ℕ) (old e : Entry)
    → get_elem? es i ≡ some old
    → taken_slots (set es i e) + (if old.allocated then 1 else 0)
      ≡ taken_slots es + (if e.allocated then 1 else 0)
taken-set [] i old e h = ground arith
taken-set (x ∷ xs) zero old e h = ground arith
taken-set (x ∷ xs) (suc i) old e h = omega (arith, taken-set xs i old e h)

-- What the sweep makes of an entry: a marked object stays, without its mark; any other slot is vacant.
abbrev pub Swept : Option Entry → Option Entry → Type 0
Swept none after = after ≡ none
Swept (some e) after =
    ((e.allocated && e.marked) ≡ true → after ≡ some (record e { marked = false }))
    × ((e.allocated && e.marked) ≡ false → vacant after ≡ 1)

-- The table after one turn.
Turned : Slab → ℕ → Slab → Type 0
Turned s i after =
    Sound after
    × (after.bump ≡ s.bump)
    × Swept (get_elem? s.table i) (get_elem? after.table i)
    × ((k : ℕ) → (i == k) ≡ false → get_elem? after.table k ≡ get_elem? s.table k)

kept_lem :
    (s : Slab) (i : ℕ) (e : Entry)
    → Sound s
    → get_elem? s.table i ≡ some e
    → e.allocated ≡ true
    → e.marked ≡ true
    → Turned s i (record s { table = set s.table i (record e { marked = false }) })
unfolding Turned
kept_lem s i e f h a m =
    let k = record e { marked = false } in
    let below = get_below s.table i e h in
    (
      record {
        filled = length-set s.table i k ∙ f.filled;
        bounded = f.bounded;
        numbered = f.numbered;
        counted = omega (arith, f.counted, taken-set s.table i e k h);
        free = f.free;
        linked =
            Linked-write s.table (set s.table i k) f.free s.free_slot i
              (λ n d. get-set s.table i n k below ∙ ground (arith, d))
              (ground (arith, f.exact i, h, a)) f.linked;
        exact = λ n. ground (arith, f.exact n, f.exact i, get-set s.table i n k below, h, a);
      },
      refl,
      ground (arith, h, a, m, get-set s.table i i k below),
      λ n d. get-set s.table i n k below ∙ ground (arith, d),
    )

reclaimed_lem :
    (s : Slab) (i : ℕ) (e : Entry)
    → Sound s
    → get_elem? s.table i ≡ some e
    → e.allocated ≡ true
    → e.marked ≡ false
    → Turned s i (record s {
      table =
          set s.table i
            (record { bytes = s.free_slot; allocated = false; marked = false; place = 0 });
      free_slot = i;
      live = s.live - 1;
    })
unfolding Turned
reclaimed_lem s i e f h a m =
    let k : Entry = record { bytes = s.free_slot; allocated = false; marked = false; place = 0 } in
    let below = get_below s.table i e h in
    let unlinked : occurrences i f.free ≡ 0 = ground (arith, f.exact i, h, a) in
    (
      record {
        filled = length-set s.table i k ∙ f.filled;
        bounded = f.bounded;
        numbered = f.numbered;
        counted = ground (arith, f.counted, taken-set s.table i e k h, a);
        free = i ∷ f.free;
        linked = (
          refl,
          (
            k,
            get-set s.table i i k below ∙ ground arith,
            Linked-write s.table (set s.table i k) f.free s.free_slot i
                (λ n d. get-set s.table i n k below ∙ ground (arith, d)) unlinked f.linked,
          ),
        );
        exact = λ n. ground (arith, f.exact n, f.exact i, get-set s.table i n k below, h, a);
      },
      refl,
      ground (arith, h, a, m, get-set s.table i i k below),
      λ n d. get-set s.table i n k below ∙ ground (arith, d),
    )

sweep_entry_cases {ℓ} :
    (P : Slab → Type ℓ) (s : Slab) (i : ℕ)
    → (get_elem? s.table i ≡ none ⊎ (vacant (get_elem? s.table i) ≡ 1) → P s)
    → ((e : Entry)
        → get_elem? s.table i ≡ some e
        → e.allocated ≡ true
        → e.marked ≡ true
        → P (record s { table = set s.table i (record e { marked = false }) }))
    → ((e : Entry)
        → get_elem? s.table i ≡ some e
        → e.allocated ≡ true
        → e.marked ≡ false
        → P (record s {
          table =
              set s.table i
                (record { bytes = s.free_slot; allocated = false; marked = false; place = 0 });
          free_slot = cast_u16 i;
          live = s.live - 1;
        }))
    → P (sweep_entry s i)
unfolding sweep_entry
sweep_entry_cases P s i same kept gone = elim (Option-cases (get_elem? s.table i)) [
  | inl h ↦ ground (arith, h, same (inl h))
  | inr (e, h) ↦ elim (Bool-cases e.allocated) [
    | inr a ↦ ground (arith, h, a, same (inr (ground (arith, h, a))))
    | inl a ↦ elim (Bool-cases e.marked) [
      | inl m ↦ ground (arith, h, a, m, kept e h a m)
      | inr m ↦ ground (arith, h, a, m, gone e h a m)
    ]
  ]
]

Swept-same : (o : Option Entry) → o ≡ none ⊎ (vacant o ≡ 1) → Swept o o
Swept-same none h = refl
Swept-same (some e) h = (λ a. ground (arith, h, a), λ a. ground (arith, h, a))

-- The slab with a slot reclaimed, with a first free slot.
abbrev reclaimed : Slab → (i free_slot : ℕ) → Slab
reclaimed s i free_slot = record s {
  table =
      set s.table i (record { bytes = s.free_slot; allocated = false; marked = false; place = 0 });
  free_slot = free_slot;
  live = s.live - 1;
}

index_fits :
    (s : Slab) (i : ℕ) (e : Entry) → Sound s → get_elem? s.table i ≡ some e → cast_u16 i ≡ i
index_fits s i e f h = omega (arith, get_below s.table i e h, f.filled, f.bounded, f.numbered)

sweep_entry_lem : (s : Slab) (i : ℕ) → Sound s → Turned s i (sweep_entry s i)
unfolding Turned
sweep_entry_lem s i f =
    sweep_entry_cases (λ q. Turned s i q) s i
      (λ h. (f, refl, Swept-same (get_elem? s.table i) h, λ k d. refl))
      (λ e h a m. kept_lem s i e f h a m)
      (λ e h a m.
        subst (λ n. Turned s i (reclaimed s i n)) (sym (index_fits s i e f h))
          (reclaimed_lem s i e f h a m))

sweep_entries_lem :
    (left index : ℕ) (s : Slab)
    → Sound s
    → Sound (sweep_entries left index s)
      × ((k : ℕ)
          → (k < index ⊎ (index + left ≤ k)
              → get_elem? (Slab.table (sweep_entries left index s)) k ≡ get_elem? s.table k)
            × (index ≤ k
                → k < index + left
                → Swept
                    (get_elem? s.table k)
                    (get_elem? (Slab.table (sweep_entries left index s)) k)))
unfolding sweep_entries Turned
sweep_entries_lem zero index s f = (f, λ k. (λ _. refl, λ a b. absurd (omega arith)))
sweep_entries_lem (suc left) index s f =
    let turn = sweep_entry_lem s index f in
    let more = sweep_entries_lem left (index + 1) (sweep_entry s index) turn.0 in
    (
      more.0,
      λ k. (
        λ o. elim o [
          | inl a ↦ (more.1 k).0 (inl (omega arith)) ∙ turn.3 k (ground arith)
          | inr a ↦ (more.1 k).0 (inr (omega arith)) ∙ turn.3 k (ground arith)
        ],
        λ a b. elim (Bool-cases (index == k)) [
          | inl e ↦
              let same = (==_iff index k).0 e in
              let here : get_elem?
                    (Slab.table (sweep_entries left (index + 1) (sweep_entry s index))) index
                  ≡ get_elem? (Slab.table (sweep_entry s index)) index =
                (more.1 index).0 (inl (omega arith)) in
              subst
                (λ n.
                  Swept (get_elem? s.table n) (
                    get_elem? (Slab.table (sweep_entries left (index + 1) (sweep_entry s index)))
                      n))
                same (subst (λ o. Swept (get_elem? s.table index) o) (sym here) turn.2)
          | inr e ↦
              subst
                (λ o.
                  Swept o (
                    get_elem? (Slab.table (sweep_entries left (index + 1) (sweep_entry s index)))
                      k))
                (turn.3 k e) ((more.1 k).1 (ground (arith, a, e)) (omega arith))
        ],
      ),
    )

-- A sweep leaves each marked object of the slab, without its mark, makes every other slot vacant, and
-- the free list stays exact.
pub sweep_slab_lem :
    (s : Slab)
    → Sound s
    → Sound (sweep_slab s)
      × ((k : ℕ) → Swept (get_elem? s.table k) (get_elem? (Slab.table (sweep_slab s)) k))
unfolding sweep_slab
sweep_slab_lem s f =
    let all = sweep_entries_lem s.bump 0 s f in
    (
      all.0,
      λ k. elim (lt_or k s.bump) [
        | inl l ↦ (all.1 k).1 (omega arith) (omega arith)
        | inr g ↦
            let behind = get_above s.table k (omega (arith, f.filled)) in
            let same = (all.1 k).0 (inr (omega arith)) ∙ behind in
            subst (λ o. Swept o (get_elem? (Slab.table (sweep_entries s.bump 0 s)) k)) (sym behind)
              same
      ],
    )
  where
    lt_or : (a b : ℕ) → (a < b) ⊎ (b ≤ a)
    lt_or a b = elim (Bool-cases (ltb a b)) [
      | inl h ↦ inl (ground (arith, h))
      | inr h ↦ inr (ground (arith, h))
    ]
