-- ===== src/Ir/TerminatorTag.antt =====
-- `enum neri_ir_terminator_tag_v1` of native/include/neri/ir_domains.h.
use neri.Prelude.{ℕ, ◌-◌, ◌≤◌, ◌≡◌, refl, List, [], ◌∷◌, arith, get_or}
use neri.Ir.Domain.{Domain, Numbered, Numbered-get_or}

pub data TerminatorTag : Type 0 where
  branch conditional_branch return panic : TerminatorTag

-- The enumerator's value.
unfoldable pub wire : TerminatorTag → ℕ
wire TerminatorTag.branch = 1
wire TerminatorTag.conditional_branch = 2
wire TerminatorTag.return = 3
wire TerminatorTag.panic = 4

tags : List TerminatorTag
tags =
    TerminatorTag.branch ∷ TerminatorTag.conditional_branch ∷ TerminatorTag.return
    ∷ TerminatorTag.panic ∷ []

unfoldable pub cast : ℕ → TerminatorTag
unfolding tags
cast n = get_or tags (n - 1) TerminatorTag.branch

pub cast-wire : (t : TerminatorTag) → cast (wire t) ≡ t
unfolding cast wire
cast-wire TerminatorTag.branch = refl
cast-wire TerminatorTag.conditional_branch = refl
cast-wire TerminatorTag.return = refl
cast-wire TerminatorTag.panic = refl

pub wire_bounds : (t : TerminatorTag) → (1 ≤ wire t) × (wire t ≤ 4)
unfolding wire
wire_bounds TerminatorTag.branch = omega arith
wire_bounds TerminatorTag.conditional_branch = omega arith
wire_bounds TerminatorTag.return = omega arith
wire_bounds TerminatorTag.panic = omega arith

numbered : Numbered wire 1 tags
unfolding wire tags
numbered = omega arith

pub wire-cast : (n : ℕ) → 1 ≤ n → n ≤ 4 → wire (cast n) ≡ n
unfolding cast
wire-cast n h k =
    omega (arith, Numbered-get_or wire TerminatorTag.branch 1 tags (n - 1) numbered (omega arith))

abbrev pub domain : Domain TerminatorTag
domain = record {
  first = 1;
  last = 4;
  cast = cast;
  wire = wire;
  first-le = λ t. (wire_bounds t).0;
  le-last = λ t. (wire_bounds t).1;
  cast-wire = cast-wire;
  wire-cast = wire-cast;
}
