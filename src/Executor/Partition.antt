-- ===== src/Executor/Partition.antt =====
-- native/runtime/task_executor.cpp, `coordinate`: the ranges that a group is cut into. The numbers
-- are 64-bit; a range ends at most at the count, so that nothing wraps.
use native.Mathlib.Nat.{div-add-mod, mod-lt}
use neri.Prelude.{
  ℕ, zero, suc, ◌+◌, ◌-◌, ◌*◌, ◌/◌, ◌%◌, ◌≤◌, ◌<◌, ◌≡◌, refl, List, [], ◌∷◌, arith, min, ltb,
  if◌then◌else◌, length, ◌==◌, Bool, ◌&&◌, ◌||◌, not, ap, max,
}

-- A half-open range with its result span: the first slot and the number of slots.
pub record Range : Type 0 where
  pub begin : ℕ
  pub stop : ℕ
  pub first_slot : ℕ
  pub slot_count : ℕ

-- The number of chunks: at most four for each invocation that may be active.
unfoldable pub chunk_count : ℕ → ℕ → ℕ
chunk_count count limit = min count (limit * 4)

-- The loop over the chunks, `left` of them from `index` on.
unfoldable pub cut : (width remainder references : ℕ) → (left index begin : ℕ) → List Range
cut width remainder references zero index begin = []
cut width remainder references (suc left) index begin =
    let stop = begin + width + (if ltb index remainder then 1 else 0) in
    record {
      begin = begin;
      stop = stop;
      first_slot = begin * references;
      slot_count = (stop - begin) * references;
    }
    ∷ cut width remainder references left (index + 1) stop

-- The ranges of a group; a group of no elements has none.
unfoldable pub ranges : ℕ → ℕ → ℕ → List Range
ranges count limit references =
    let chunks = chunk_count count limit in
    if count == 0 then [] else cut (count / chunks) (count % chunks) references chunks 0 0

-- The guard of `neri_task_parallel_for` refuses the call: `size_max` is SIZE_MAX, and a reference
-- takes eight bytes.
unfoldable pub invalid_call :
    (size_max count parallelism references : ℕ) → (no_body no_results : Bool) → Bool
invalid_call size_max count parallelism references no_body no_results =
    parallelism == 0
    || no_body
    || (not (references == 0)
        && not (count == 0)
        && (no_results || ltb (size_max / 8 / references) count))

-- The workers of a fresh pool, the caller included.
unfoldable pub pool_limit : (count parallelism hardware : ℕ) → ℕ
pool_limit count parallelism hardware = min (min parallelism (max 1 hardware)) (max 1 count)

-- The ranges follow one another from `from` to `to`, none is empty, and each has the slots of its
-- elements.
abbrev pub Tiles : ℕ → ℕ → ℕ → List Range → Type 0
Tiles references from to [] = from ≡ to
Tiles references from to (r ∷ rs) =
    (r.begin ≡ from)
    × (r.begin < r.stop)
    × (r.first_slot ≡ from * references)
    × (r.slot_count ≡ (r.stop - from) * references)
    × Tiles references r.stop to rs

-- Every range has `width` elements or one more.
abbrev pub Balanced : ℕ → List Range → Type 0
Balanced width [] = Unit
Balanced width (r ∷ rs) =
    (r.begin + width ≤ r.stop) × (r.stop ≤ r.begin + width + 1) × Balanced width rs

cut-Tiles :
    (width remainder references left index begin to : ℕ)
    → 1 ≤ width
    → to ≡ begin + left * width + (min remainder (index + left) - min remainder index)
    → Tiles references begin to (cut width remainder references left index begin)
unfolding cut
cut-Tiles w r k zero index begin to h e = omega arith
cut-Tiles w r k (suc left) index begin to h e = (
  refl,
  ground arith,
  refl,
  refl,
  cut-Tiles w r k left (index + 1) (begin + w + (if ltb index r then 1 else 0)) to h (ground arith),
)

cut-Balanced :
    (width remainder references left index begin : ℕ)
    → Balanced width (cut width remainder references left index begin)
unfolding cut
cut-Balanced w r k zero index begin = tt
cut-Balanced w r k (suc left) index begin = (
  ground arith,
  ground arith,
  cut-Balanced w r k left (index + 1) (begin + w + (if ltb index r then 1 else 0)),
)

length-cut :
    (width remainder references left index begin : ℕ)
    → length (cut width remainder references left index begin) ≡ left
unfolding cut
length-cut w r k zero index begin = refl
length-cut w r k (suc left) index begin =
    ap suc (length-cut w r k left (index + 1) (begin + w + (if ltb index r then 1 else 0)))

cut-count :
    (count chunks : ℕ)
    → 0 < chunks
    → chunks ≤ count
    → (1 ≤ count / chunks)
      × (count
          ≡ 0
            + chunks * (count / chunks)
            + (min (count % chunks) (0 + chunks) - min (count % chunks) 0))
cut-count count chunks h k = (grind arith, grind (arith, div-add-mod count chunks, mod-lt count h))

-- A group with elements is cut.
ranges_some :
    (count limit references : ℕ)
    → 0 < count
    → ranges count limit references
      ≡ cut
          (count / chunk_count count limit)
          (count % chunk_count count limit)
          references
          (chunk_count count limit)
          0
          0
unfolding ranges
ranges_some count limit references h = ground arith

-- The ranges of a group cover the elements from 0 to the count, each once and in order, with their
-- result slots; there are as many as chunks, and no two lengths differ by more than one.
pub ranges_cover :
    (count limit references : ℕ)
    → 1 ≤ limit
    → Tiles references 0 count (ranges count limit references)
      × (length (ranges count limit references) ≡ chunk_count count limit)
      × Balanced (count / chunk_count count limit) (ranges count limit references)
unfolding chunk_count ranges
ranges_cover zero limit references h = (refl, omega arith, tt)
ranges_cover (suc n) limit references h =
    let chunks = chunk_count (suc n) limit in
    let facts = cut-count (suc n) chunks (omega arith) (omega arith) in
    rw (ranges_some (suc n) limit references (omega arith)) (
      cut-Tiles (suc n / chunks) (suc n % chunks) references chunks 0 0 (suc n) facts.0 facts.1,
      length-cut (suc n / chunks) (suc n % chunks) references chunks 0 0,
      cut-Balanced (suc n / chunks) (suc n % chunks) references chunks 0 0,
    )
