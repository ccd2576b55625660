-- ===== src/Ir/ConstantTag.antt =====
-- `enum neri_ir_constant_tag_v1` of native/include/neri/ir_domains.h.
use neri.Prelude.{ℕ, ◌-◌, ◌≤◌, ◌≡◌, refl, List, [], ◌∷◌, arith, get_or}
use neri.Ir.Domain.{Domain, Numbered, Numbered-get_or}

pub data ConstantTag : Type 0 where
  bool byte int float optional_none optional_some string_global string_utf8 : ConstantTag

-- The enumerator's value.
unfoldable pub wire : ConstantTag → ℕ
wire ConstantTag.bool = 1
wire ConstantTag.byte = 2
wire ConstantTag.int = 3
wire ConstantTag.float = 4
wire ConstantTag.optional_none = 5
wire ConstantTag.optional_some = 6
wire ConstantTag.string_global = 7
wire ConstantTag.string_utf8 = 8

tags : List ConstantTag
tags =
    ConstantTag.bool ∷ ConstantTag.byte ∷ ConstantTag.int ∷ ConstantTag.float
    ∷ ConstantTag.optional_none ∷ ConstantTag.optional_some ∷ ConstantTag.string_global
    ∷ ConstantTag.string_utf8 ∷ []

unfoldable pub cast : ℕ → ConstantTag
unfolding tags
cast n = get_or tags (n - 1) ConstantTag.bool

pub cast-wire : (t : ConstantTag) → cast (wire t) ≡ t
unfolding cast wire
cast-wire ConstantTag.bool = refl
cast-wire ConstantTag.byte = refl
cast-wire ConstantTag.int = refl
cast-wire ConstantTag.float = refl
cast-wire ConstantTag.optional_none = refl
cast-wire ConstantTag.optional_some = refl
cast-wire ConstantTag.string_global = refl
cast-wire ConstantTag.string_utf8 = refl

pub wire_bounds : (t : ConstantTag) → (1 ≤ wire t) × (wire t ≤ 8)
unfolding wire
wire_bounds ConstantTag.bool = omega arith
wire_bounds ConstantTag.byte = omega arith
wire_bounds ConstantTag.int = omega arith
wire_bounds ConstantTag.float = omega arith
wire_bounds ConstantTag.optional_none = omega arith
wire_bounds ConstantTag.optional_some = omega arith
wire_bounds ConstantTag.string_global = omega arith
wire_bounds ConstantTag.string_utf8 = omega arith

numbered : Numbered wire 1 tags
unfolding wire tags
numbered = omega arith

pub wire-cast : (n : ℕ) → 1 ≤ n → n ≤ 8 → wire (cast n) ≡ n
unfolding cast
wire-cast n h k =
    omega (arith, Numbered-get_or wire ConstantTag.bool 1 tags (n - 1) numbered (omega arith))

abbrev pub domain : Domain ConstantTag
domain = record {
  first = 1;
  last = 8;
  cast = cast;
  wire = wire;
  first-le = λ t. (wire_bounds t).0;
  le-last = λ t. (wire_bounds t).1;
  cast-wire = cast-wire;
  wire-cast = wire-cast;
}
