-- ===== src/Verifier/Bases.antt =====
-- The base classes that `is_same_or_base` of native/codegen/ir_verifier.cpp walks along.
use neri.Prelude.{ℕ, zero, suc, ◌≡◌, subst, some, true, arith, Option-cases, Bool-cases, inl, inr}
use neri.Ir.Model.{SymbolId, ClassDeclaration, IrModule}
use neri.Verifier.Types.{same_symbol}
use neri.Verifier.Equality.{same_symbol_eq}
use neri.Verifier.Lookup.{find_class, same_or_base_within, is_same_or_base}

-- The second class is the first or one of its bases.
pub data Derives (m : IrModule) : SymbolId → SymbolId → Type 0 where
  itself : (s : SymbolId) → Derives m s s
  based :
      (s b t : SymbolId) (c : ClassDeclaration)
      → find_class m s ≡ some c
      → c.base ≡ some b
      → Derives m b t
      → Derives m s t

pub Derives-trans :
    (m : IrModule) (s t u : SymbolId) → Derives m s t → Derives m t u → Derives m s u
Derives-trans m _ t u (itself _) d = d
Derives-trans m _ t u (based s b _ c f e r) d = based s b u c f e (Derives-trans m b t u r d)

same_or_base_within-Derives :
    (remaining : ℕ) (m : IrModule) (s t : SymbolId)
    → same_or_base_within remaining m s t ≡ true
    → Derives m s t
unfolding same_or_base_within
same_or_base_within-Derives zero m s t h = absurd (ground (arith, h))
same_or_base_within-Derives (suc remaining) m s t h = elim (Bool-cases (same_symbol s t)) [
  | inl e ↦ subst (λ u. Derives m s u) (same_symbol_eq s t e) (itself s)
  | inr e ↦ elim (Option-cases (find_class m s)) [
    | inl f ↦ absurd (ground (arith, h, e, f))
    | inr (c, f) ↦ elim (Option-cases c.base) [
      | inl g ↦ absurd (ground (arith, h, e, f, g))
      | inr (b, g) ↦
          based s b t c f g
            (same_or_base_within-Derives remaining m b t (ground (arith, h, e, f, g)))
    ]
  ]
]

pub is_same_or_base-Derives :
    (m : IrModule) (s t : SymbolId) → is_same_or_base m s t ≡ true → Derives m s t
unfolding is_same_or_base
is_same_or_base-Derives m s t h = same_or_base_within-Derives _ m s t h
