-- ===== src/Prelude/Maps.antt =====
-- Maps and sets of numbers, as `std::map` and `std::set` keep them: in the order of the keys.
use Prim.Native.Nat.{ℕ, ◌+◌, ◌<◌, ◌≤◌}
use mathlib.Core.Path.{◌≡◌, refl, sym, ap, subst}
use mathlib.Core.Logic.{◌⊎◌, inl, inr}
use mathlib.Core.Bool.{Bool, true, false, ◌&&◌, ◌||◌}
use mathlib.Core.List.{List, [], ◌∷◌, ◌++◌}
use mathlib.Core.Option.{Option, none, some}
use native.Mathlib.Omega.{arith}
use neri.Prelude.Tests.{ltb, ◌==◌, if◌then◌else◌, ==_iff, Bool-cases}
use neri.Prelude.Lists.{length}

abbrev pub member : ℕ → List ℕ → Bool
member k [] = false
member k (x ∷ xs) = x == k || member k xs

-- `set::insert`.
abbrev pub insert : ℕ → List ℕ → List ℕ
insert k [] = k ∷ []
insert k (x ∷ xs) = if ltb k x then k ∷ x ∷ xs else if k == x then x ∷ xs else x ∷ insert k xs

-- `set_intersection`.
abbrev pub intersect : List ℕ → List ℕ → List ℕ
intersect [] ys = []
intersect (x ∷ xs) ys = if member x ys then x ∷ intersect xs ys else intersect xs ys

-- The numbers grow, from the first bound up to but not including the second.
abbrev pub Increasing : ℕ → ℕ → List ℕ → Type 0
Increasing low high [] = Unit
Increasing low high (x ∷ xs) = (low ≤ x) × (x < high) × Increasing (x + 1) high xs

pub Increasing-low :
    (low low2 high : ℕ) (xs : List ℕ)
    → low2 ≤ low
    → Increasing low high xs
    → Increasing low2 high xs
Increasing-low low low2 high [] h i = tt
Increasing-low low low2 high (x ∷ xs) h i = (omega arith, i.1, i.2)

pub member-insert : (k i : ℕ) (xs : List ℕ) → member k (insert i xs) ≡ (i == k || member k xs)
member-insert k i [] = ground arith
member-insert k i (x ∷ xs) = ground (arith, member-insert k i xs)

pub member-intersect :
    (k : ℕ) (xs ys : List ℕ) → member k (intersect xs ys) ≡ (member k xs && member k ys)
member-intersect k [] ys = refl
member-intersect k (x ∷ xs) ys = elim (Bool-cases (x == k)) [
  | inl e ↦ ground (arith, member-intersect k xs ys, (==_iff x k).0 e)
  | inr e ↦ ground (arith, member-intersect k xs ys, e)
]

pub member-append : (k : ℕ) (xs ys : List ℕ) → member k (xs ++ ys) ≡ (member k xs || member k ys)
member-append k [] ys = refl
member-append k (x ∷ xs) ys = ground (arith, member-append k xs ys)

module _ {ℓ} {A : Type ℓ} where
  -- `map::find`.
  abbrev pub map_find : ℕ → List (ℕ × A) → Option A
  map_find k [] = none
  map_find k ((i, a) ∷ rest) = if i == k then some a else map_find k rest

  -- `map[k] = a`.
  abbrev pub map_set : ℕ → A → List (ℕ × A) → List (ℕ × A)
  map_set k a [] = (k, a) ∷ []
  map_set k a ((i, b) ∷ rest) =
      if ltb k i
      then (k, a) ∷ (i, b) ∷ rest
      else if k == i
      then (k, a) ∷ rest
      else (i, b) ∷ map_set k a rest

  abbrev pub keys : List (ℕ × A) → List ℕ
  keys [] = []
  keys ((i, a) ∷ rest) = i ∷ keys rest

module _ {ℓ} {A : Type ℓ} where
  pub map_find-set :
      (k i : ℕ) (a : A) (m : List (ℕ × A))
      → map_find k (map_set i a m) ≡ (if i == k then some a else map_find k m)
  map_find-set k i a [] = refl
  map_find-set k i a ((j, b) ∷ rest) = ground (arith, map_find-set k i a rest)

pub Increasing-insert :
    (low high k : ℕ) (xs : List ℕ)
    → low ≤ k
    → k < high
    → Increasing low high xs
    → Increasing low high (insert k xs)
Increasing-insert low high k [] h l i = (h, l, tt)
Increasing-insert low high k (x ∷ xs) h l (a, b, c) = elim (Bool-cases (ltb k x)) [
  | inl e ↦ ground (arith, h, l, a, b, c, e)
  | inr e ↦ elim (Bool-cases (k == x)) [
    | inl q ↦ ground (arith, h, l, a, b, c, e, q)
    | inr q ↦
        ground
          (arith, h, a, b, e, q, Increasing-insert (x + 1) high k xs (ground (arith, e, q)) l c)
  ]
]

pub Increasing-intersect :
    (low high : ℕ) (xs ys : List ℕ) → Increasing low high xs → Increasing low high (intersect xs ys)
Increasing-intersect low high [] ys i = tt
Increasing-intersect low high (x ∷ xs) ys (a, b, c) =
    let rest = Increasing-intersect (x + 1) high xs ys c in
    ground (arith, a, b, rest, Increasing-low (x + 1) low high (intersect xs ys) (omega arith) rest)

-- What is in a set of numbers from a bound on is not below it.
pub member_low :
    (k low high : ℕ) (xs : List ℕ) → Increasing low high xs → member k xs ≡ true → low ≤ k
member_low k low high [] i m = absurd (ground arith)
member_low k low high (x ∷ xs) (a, b, c) m = ground (arith, a, m, member_low k (x + 1) high xs c)

pub member_high :
    (k low high : ℕ) (xs : List ℕ) → Increasing low high xs → member k xs ≡ true → k < high
member_high k low high [] i m = absurd (ground arith)
member_high k low high (x ∷ xs) (a, b, c) m = ground (arith, b, m, member_high k (x + 1) high xs c)

abbrev pub Subset : List ℕ → List ℕ → Type 0
Subset xs ys = (k : ℕ) → member k xs ≡ true → member k ys ≡ true

-- A set within another is the same or shorter.
pub subset_shorter :
    (low high : ℕ) (xs ys : List ℕ)
    → Increasing low high xs
    → Increasing low high ys
    → ((k : ℕ) → member k xs ≡ true → member k ys ≡ true)
    → (xs ≡ ys) ⊎ (length xs < length ys)
subset_shorter low high [] [] i j s = inl refl
subset_shorter low high [] (y ∷ ys) i j s = inr (omega arith)
subset_shorter low high (x ∷ xs) [] i j s = absurd (ground (arith, s x))
subset_shorter low high (x ∷ xs) (y ∷ ys) (a, b, c) (d, e, f) s = elim (Bool-cases (x == y)) [
  | inl q ↦
      let same = (==_iff x y).0 q in
      elim (subset_shorter (x + 1) high xs ys c
        (subst (λ n. Increasing (n + 1) high ys) (sym same) f)
        (λ k m. ground (arith, s k, m, same, member_low k (x + 1) high xs c m))) [
          | inl z ↦ inl (ground (arith, same, z))
          | inr z ↦ inr (omega (arith, z))
        ]
  | inr q ↦ elim (Bool-cases (ltb x y)) [
    | inl z ↦ absurd (ground (arith, s x, q, z, member_low x (y + 1) high ys f))
    | inr z ↦
        elim (subset_shorter (y + 1) high (x ∷ xs) ys (ground (arith, q, z), b, c) f
          (λ k m. ground (arith, s k, m, q, z, member_low k (x + 1) high xs c))) [
            | inl w ↦ inr (omega (arith, ap length w))
            | inr w ↦ inr (omega (arith, w))
          ]
  ]
]

module _ {ℓ} {A : Type ℓ} where
  pub member-keys_set :
      (k i : ℕ) (a : A) (m : List (ℕ × A))
      → member k (keys (map_set i a m)) ≡ (i == k || member k (keys m))
  member-keys_set k i a [] = refl
  member-keys_set k i a ((j, b) ∷ m) =
      ground (arith, ==_iff i j, ==_iff i k, ==_iff j k, member-keys_set k i a m)

  pub map_find-keys :
      (k : ℕ) (a : A) (m : List (ℕ × A)) → map_find k m ≡ some a → member k (keys m) ≡ true
  map_find-keys k a [] e = absurd (ground (arith, e))
  map_find-keys k a ((j, b) ∷ m) e = ground (arith, e, map_find-keys k a m)
