-- ===== src/Ir/Domain.antt =====
-- The contiguous wire domains of native/include/neri/ir_domains.h: an enum whose values are
-- consecutive, with the conversions between a value and its wire number.
use neri.Prelude.{ℕ, zero, suc, ◌+◌, ◌≤◌, ◌<◌, ◌≡◌, List, [], ◌∷◌, arith, length, get_or}

-- `cast` is the `static_cast` that follows a range check, and `wire` the enumerator's value.
pub record Domain (T : Type 0) : Type 0 where
  pub first : ℕ
  pub last : ℕ
  pub cast : ℕ → T
  pub wire : T → ℕ
  pub first-le : (t : T) → first ≤ wire t
  pub le-last : (t : T) → wire t ≤ last
  pub cast-wire : (t : T) → cast (wire t) ≡ t
  pub wire-cast : (n : ℕ) → first ≤ n → n ≤ last → wire (cast n) ≡ n

-- The wire numbers of a list of enumerators count up from `k`.
abbrev pub Numbered : {T : Type 0} → (T → ℕ) → ℕ → List T → Type 0
Numbered w k [] = Unit
Numbered w k (t ∷ ts) = (w t ≡ k) × Numbered w (suc k) ts

pub Numbered-get_or :
    {T : Type 0} (w : T → ℕ) (d : T) (k : ℕ) (ts : List T) (i : ℕ)
    → Numbered w k ts
    → i < length ts
    → w (get_or ts i d) ≡ i + k
Numbered-get_or w d k [] i h l = absurd (omega arith)
Numbered-get_or w d k (t ∷ ts) zero h l = omega arith
Numbered-get_or w d k (t ∷ ts) (suc i) h l =
    omega (arith, Numbered-get_or w d (suc k) ts i h.1 (omega arith))
