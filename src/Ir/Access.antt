-- ===== src/Ir/Access.antt =====
-- `enum neri_ir_access_v1` of native/include/neri/ir_domains.h.
use neri.Prelude.{ℕ, ◌-◌, ◌≤◌, ◌≡◌, refl, List, [], ◌∷◌, arith, get_or}
use neri.Ir.Domain.{Domain, Numbered, Numbered-get_or}

pub data Access : Type 0 where
  public private protected internal : Access

-- The enumerator's value.
unfoldable pub wire : Access → ℕ
wire Access.public = 1
wire Access.private = 2
wire Access.protected = 3
wire Access.internal = 4

tags : List Access
tags = Access.public ∷ Access.private ∷ Access.protected ∷ Access.internal ∷ []

unfoldable pub cast : ℕ → Access
unfolding tags
cast n = get_or tags (n - 1) Access.public

pub cast-wire : (t : Access) → cast (wire t) ≡ t
unfolding cast wire
cast-wire Access.public = refl
cast-wire Access.private = refl
cast-wire Access.protected = refl
cast-wire Access.internal = refl

pub wire_bounds : (t : Access) → (1 ≤ wire t) × (wire t ≤ 4)
unfolding wire
wire_bounds Access.public = omega arith
wire_bounds Access.private = omega arith
wire_bounds Access.protected = omega arith
wire_bounds Access.internal = omega arith

numbered : Numbered wire 1 tags
unfolding wire tags
numbered = omega arith

pub wire-cast : (n : ℕ) → 1 ≤ n → n ≤ 4 → wire (cast n) ≡ n
unfolding cast
wire-cast n h k =
    omega (arith, Numbered-get_or wire Access.public 1 tags (n - 1) numbered (omega arith))

abbrev pub domain : Domain Access
domain = record {
  first = 1;
  last = 4;
  cast = cast;
  wire = wire;
  first-le = λ t. (wire_bounds t).0;
  le-last = λ t. (wire_bounds t).1;
  cast-wire = cast-wire;
  wire-cast = wire-cast;
}
