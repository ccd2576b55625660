-- ===== src/Ir/ImportKind.antt =====
-- `enum neri_ir_import_kind_v1` of native/include/neri/ir_domains.h.
use neri.Prelude.{ℕ, ◌-◌, ◌≤◌, ◌≡◌, refl, List, [], ◌∷◌, arith, get_or}
use neri.Ir.Domain.{Domain, Numbered, Numbered-get_or}

pub data ImportKind : Type 0 where
  runtime c_abi : ImportKind

-- The enumerator's value.
unfoldable pub wire : ImportKind → ℕ
wire ImportKind.runtime = 1
wire ImportKind.c_abi = 2

tags : List ImportKind
tags = ImportKind.runtime ∷ ImportKind.c_abi ∷ []

unfoldable pub cast : ℕ → ImportKind
unfolding tags
cast n = get_or tags (n - 1) ImportKind.runtime

pub cast-wire : (t : ImportKind) → cast (wire t) ≡ t
unfolding cast wire
cast-wire ImportKind.runtime = refl
cast-wire ImportKind.c_abi = refl

pub wire_bounds : (t : ImportKind) → (1 ≤ wire t) × (wire t ≤ 2)
unfolding wire
wire_bounds ImportKind.runtime = omega arith
wire_bounds ImportKind.c_abi = omega arith

numbered : Numbered wire 1 tags
unfolding wire tags
numbered = omega arith

pub wire-cast : (n : ℕ) → 1 ≤ n → n ≤ 2 → wire (cast n) ≡ n
unfolding cast
wire-cast n h k =
    omega (arith, Numbered-get_or wire ImportKind.runtime 1 tags (n - 1) numbered (omega arith))

abbrev pub domain : Domain ImportKind
domain = record {
  first = 1;
  last = 2;
  cast = cast;
  wire = wire;
  first-le = λ t. (wire_bounds t).0;
  le-last = λ t. (wire_bounds t).1;
  cast-wire = cast-wire;
  wire-cast = wire-cast;
}
