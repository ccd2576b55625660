-- ===== src/Ir/FunctionKind.antt =====
-- `enum neri_ir_function_kind_v1` of native/include/neri/ir_domains.h.
use neri.Prelude.{ℕ, ◌-◌, ◌≤◌, ◌≡◌, refl, List, [], ◌∷◌, arith, get_or}
use neri.Ir.Domain.{Domain, Numbered, Numbered-get_or}

pub data FunctionKind : Type 0 where
  function static_method instance_method constructor default_adapter : FunctionKind

-- The enumerator's value.
unfoldable pub wire : FunctionKind → ℕ
wire FunctionKind.function = 1
wire FunctionKind.static_method = 2
wire FunctionKind.instance_method = 3
wire FunctionKind.constructor = 4
wire FunctionKind.default_adapter = 5

tags : List FunctionKind
tags =
    FunctionKind.function ∷ FunctionKind.static_method ∷ FunctionKind.instance_method
    ∷ FunctionKind.constructor ∷ FunctionKind.default_adapter ∷ []

unfoldable pub cast : ℕ → FunctionKind
unfolding tags
cast n = get_or tags (n - 1) FunctionKind.function

pub cast-wire : (t : FunctionKind) → cast (wire t) ≡ t
unfolding cast wire
cast-wire FunctionKind.function = refl
cast-wire FunctionKind.static_method = refl
cast-wire FunctionKind.instance_method = refl
cast-wire FunctionKind.constructor = refl
cast-wire FunctionKind.default_adapter = refl

pub wire_bounds : (t : FunctionKind) → (1 ≤ wire t) × (wire t ≤ 5)
unfolding wire
wire_bounds FunctionKind.function = omega arith
wire_bounds FunctionKind.static_method = omega arith
wire_bounds FunctionKind.instance_method = omega arith
wire_bounds FunctionKind.constructor = omega arith
wire_bounds FunctionKind.default_adapter = omega arith

numbered : Numbered wire 1 tags
unfolding wire tags
numbered = omega arith

pub wire-cast : (n : ℕ) → 1 ≤ n → n ≤ 5 → wire (cast n) ≡ n
unfolding cast
wire-cast n h k =
    omega (arith, Numbered-get_or wire FunctionKind.function 1 tags (n - 1) numbered (omega arith))

abbrev pub domain : Domain FunctionKind
domain = record {
  first = 1;
  last = 5;
  cast = cast;
  wire = wire;
  first-le = λ t. (wire_bounds t).0;
  le-last = λ t. (wire_bounds t).1;
  cast-wire = cast-wire;
  wire-cast = wire-cast;
}
