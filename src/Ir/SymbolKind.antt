-- ===== src/Ir/SymbolKind.antt =====
-- `enum neri_ir_symbol_kind_v1` of native/include/neri/ir_domains.h.
use neri.Prelude.{ℕ, ◌-◌, ◌≤◌, ◌≡◌, refl, List, [], ◌∷◌, arith, get_or}
use neri.Ir.Domain.{Domain, Numbered, Numbered-get_or}

pub data SymbolKind : Type 0 where
  class field method function parameter local library_function intrinsic global : SymbolKind
  native_record : SymbolKind

-- The enumerator's value.
unfoldable pub wire : SymbolKind → ℕ
wire SymbolKind.class = 1
wire SymbolKind.field = 2
wire SymbolKind.method = 3
wire SymbolKind.function = 4
wire SymbolKind.parameter = 5
wire SymbolKind.local = 6
wire SymbolKind.library_function = 7
wire SymbolKind.intrinsic = 8
wire SymbolKind.global = 9
wire SymbolKind.native_record = 10

tags : List SymbolKind
tags =
    SymbolKind.class ∷ SymbolKind.field ∷ SymbolKind.method ∷ SymbolKind.function
    ∷ SymbolKind.parameter ∷ SymbolKind.local ∷ SymbolKind.library_function ∷ SymbolKind.intrinsic
    ∷ SymbolKind.global ∷ SymbolKind.native_record ∷ []

unfoldable pub cast : ℕ → SymbolKind
unfolding tags
cast n = get_or tags (n - 1) SymbolKind.class

pub cast-wire : (t : SymbolKind) → cast (wire t) ≡ t
unfolding cast wire
cast-wire SymbolKind.class = refl
cast-wire SymbolKind.field = refl
cast-wire SymbolKind.method = refl
cast-wire SymbolKind.function = refl
cast-wire SymbolKind.parameter = refl
cast-wire SymbolKind.local = refl
cast-wire SymbolKind.library_function = refl
cast-wire SymbolKind.intrinsic = refl
cast-wire SymbolKind.global = refl
cast-wire SymbolKind.native_record = refl

pub wire_bounds : (t : SymbolKind) → (1 ≤ wire t) × (wire t ≤ 10)
unfolding wire
wire_bounds SymbolKind.class = omega arith
wire_bounds SymbolKind.field = omega arith
wire_bounds SymbolKind.method = omega arith
wire_bounds SymbolKind.function = omega arith
wire_bounds SymbolKind.parameter = omega arith
wire_bounds SymbolKind.local = omega arith
wire_bounds SymbolKind.library_function = omega arith
wire_bounds SymbolKind.intrinsic = omega arith
wire_bounds SymbolKind.global = omega arith
wire_bounds SymbolKind.native_record = omega arith

numbered : Numbered wire 1 tags
unfolding wire tags
numbered = omega arith

pub wire-cast : (n : ℕ) → 1 ≤ n → n ≤ 10 → wire (cast n) ≡ n
unfolding cast
wire-cast n h k =
    omega (arith, Numbered-get_or wire SymbolKind.class 1 tags (n - 1) numbered (omega arith))

abbrev pub domain : Domain SymbolKind
domain = record {
  first = 1;
  last = 10;
  cast = cast;
  wire = wire;
  first-le = λ t. (wire_bounds t).0;
  le-last = λ t. (wire_bounds t).1;
  cast-wire = cast-wire;
  wire-cast = wire-cast;
}
