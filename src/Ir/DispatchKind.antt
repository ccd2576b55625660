-- ===== src/Ir/DispatchKind.antt =====
-- `enum neri_ir_dispatch_kind_v1` of native/include/neri/ir_domains.h.
use neri.Prelude.{ℕ, ◌-◌, ◌≤◌, ◌≡◌, refl, List, [], ◌∷◌, arith, get_or}
use neri.Ir.Domain.{Domain, Numbered, Numbered-get_or}

pub data DispatchKind : Type 0 where
  static direct virtual : DispatchKind

-- The enumerator's value.
unfoldable pub wire : DispatchKind → ℕ
wire DispatchKind.static = 1
wire DispatchKind.direct = 2
wire DispatchKind.virtual = 3

tags : List DispatchKind
tags = DispatchKind.static ∷ DispatchKind.direct ∷ DispatchKind.virtual ∷ []

unfoldable pub cast : ℕ → DispatchKind
unfolding tags
cast n = get_or tags (n - 1) DispatchKind.static

pub cast-wire : (t : DispatchKind) → cast (wire t) ≡ t
unfolding cast wire
cast-wire DispatchKind.static = refl
cast-wire DispatchKind.direct = refl
cast-wire DispatchKind.virtual = refl

pub wire_bounds : (t : DispatchKind) → (1 ≤ wire t) × (wire t ≤ 3)
unfolding wire
wire_bounds DispatchKind.static = omega arith
wire_bounds DispatchKind.direct = omega arith
wire_bounds DispatchKind.virtual = omega arith

numbered : Numbered wire 1 tags
unfolding wire tags
numbered = omega arith

pub wire-cast : (n : ℕ) → 1 ≤ n → n ≤ 3 → wire (cast n) ≡ n
unfolding cast
wire-cast n h k =
    omega (arith, Numbered-get_or wire DispatchKind.static 1 tags (n - 1) numbered (omega arith))

abbrev pub domain : Domain DispatchKind
domain = record {
  first = 1;
  last = 3;
  cast = cast;
  wire = wire;
  first-le = λ t. (wire_bounds t).0;
  le-last = λ t. (wire_bounds t).1;
  cast-wire = cast-wire;
  wire-cast = wire-cast;
}
