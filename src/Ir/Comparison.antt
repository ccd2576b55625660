-- ===== src/Ir/Comparison.antt =====
-- `enum neri_ir_comparison_v1` of native/include/neri/ir_domains.h.
use neri.Prelude.{ℕ, ◌-◌, ◌≤◌, ◌≡◌, refl, List, [], ◌∷◌, arith, get_or}
use neri.Ir.Domain.{Domain, Numbered, Numbered-get_or}

pub data Comparison : Type 0 where
  equal not_equal less less_or_equal greater greater_or_equal : Comparison

-- The enumerator's value.
unfoldable pub wire : Comparison → ℕ
wire Comparison.equal = 1
wire Comparison.not_equal = 2
wire Comparison.less = 3
wire Comparison.less_or_equal = 4
wire Comparison.greater = 5
wire Comparison.greater_or_equal = 6

tags : List Comparison
tags =
    Comparison.equal ∷ Comparison.not_equal ∷ Comparison.less ∷ Comparison.less_or_equal
    ∷ Comparison.greater ∷ Comparison.greater_or_equal ∷ []

unfoldable pub cast : ℕ → Comparison
unfolding tags
cast n = get_or tags (n - 1) Comparison.equal

pub cast-wire : (t : Comparison) → cast (wire t) ≡ t
unfolding cast wire
cast-wire Comparison.equal = refl
cast-wire Comparison.not_equal = refl
cast-wire Comparison.less = refl
cast-wire Comparison.less_or_equal = refl
cast-wire Comparison.greater = refl
cast-wire Comparison.greater_or_equal = refl

pub wire_bounds : (t : Comparison) → (1 ≤ wire t) × (wire t ≤ 6)
unfolding wire
wire_bounds Comparison.equal = omega arith
wire_bounds Comparison.not_equal = omega arith
wire_bounds Comparison.less = omega arith
wire_bounds Comparison.less_or_equal = omega arith
wire_bounds Comparison.greater = omega arith
wire_bounds Comparison.greater_or_equal = omega arith

numbered : Numbered wire 1 tags
unfolding wire tags
numbered = omega arith

pub wire-cast : (n : ℕ) → 1 ≤ n → n ≤ 6 → wire (cast n) ≡ n
unfolding cast
wire-cast n h k =
    omega (arith, Numbered-get_or wire Comparison.equal 1 tags (n - 1) numbered (omega arith))

abbrev pub domain : Domain Comparison
domain = record {
  first = 1;
  last = 6;
  cast = cast;
  wire = wire;
  first-le = λ t. (wire_bounds t).0;
  le-last = λ t. (wire_bounds t).1;
  cast-wire = cast-wire;
  wire-cast = wire-cast;
}
