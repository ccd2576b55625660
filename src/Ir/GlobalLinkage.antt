-- ===== src/Ir/GlobalLinkage.antt =====
-- `enum neri_ir_global_linkage_v1` of native/include/neri/ir_domains.h.
use neri.Prelude.{ℕ, ◌-◌, ◌≤◌, ◌≡◌, refl, List, [], ◌∷◌, arith, get_or}
use neri.Ir.Domain.{Domain, Numbered, Numbered-get_or}

pub data GlobalLinkage : Type 0 where
  internal exported : GlobalLinkage

-- The enumerator's value.
unfoldable pub wire : GlobalLinkage → ℕ
wire GlobalLinkage.internal = 1
wire GlobalLinkage.exported = 2

tags : List GlobalLinkage
tags = GlobalLinkage.internal ∷ GlobalLinkage.exported ∷ []

unfoldable pub cast : ℕ → GlobalLinkage
unfolding tags
cast n = get_or tags (n - 1) GlobalLinkage.internal

pub cast-wire : (t : GlobalLinkage) → cast (wire t) ≡ t
unfolding cast wire
cast-wire GlobalLinkage.internal = refl
cast-wire GlobalLinkage.exported = refl

pub wire_bounds : (t : GlobalLinkage) → (1 ≤ wire t) × (wire t ≤ 2)
unfolding wire
wire_bounds GlobalLinkage.internal = omega arith
wire_bounds GlobalLinkage.exported = omega arith

numbered : Numbered wire 1 tags
unfolding wire tags
numbered = omega arith

pub wire-cast : (n : ℕ) → 1 ≤ n → n ≤ 2 → wire (cast n) ≡ n
unfolding cast
wire-cast n h k =
    omega (arith, Numbered-get_or wire GlobalLinkage.internal 1 tags (n - 1) numbered (omega arith))

abbrev pub domain : Domain GlobalLinkage
domain = record {
  first = 1;
  last = 2;
  cast = cast;
  wire = wire;
  first-le = λ t. (wire_bounds t).0;
  le-last = λ t. (wire_bounds t).1;
  cast-wire = cast-wire;
  wire-cast = wire-cast;
}
