-- ===== src/Verifier/Body/Scopes.antt =====
-- The parents of debug scopes that `verify_function` of native/codegen/ir_verifier.cpp accepts.
use mathlib.Core.List.{Memᴰ}
use mathlib.Core.List.Memᴰ
use neri.Prelude.{
  ℕ, ◌≤◌, ◌<◌, ◌≡◌, refl, sym, subst, List, [], ◌∷◌, true, not, ◌&&◌, ◌||◌, ◌==◌, some, ==_iff, leb,
  arith, Bool-cases, ◌⊎◌, inl, inr, member, insert, member-insert,
}
use neri.Ir.Model.{DebugScope, IrModule}
use neri.Transport.Reader.{ErrorKind, ok}
use neri.Verifier.Check.{◌>>◌, fail_if, then_ok, fail_if_ok}
use neri.Verifier.Lookup.{verify_location}
use neri.Verifier.Body.Debug.{check_scopes}

module _ (m : IrModule) (every : List DebugScope) where
  -- A scope of the function with this number, which is at most the bound.
  abbrev Numbered : (id bound : ℕ) → Type 0
  Numbered id bound = (t : DebugScope) × Memᴰ t every × (t.id ≡ id) × (id ≤ bound)

  scopes_from :
      (ss : List DebugScope) (previous : ℕ) (known result : List ℕ)
      → ((s : DebugScope) → Memᴰ s ss → Memᴰ s every)
      → ((k : ℕ) → member k known ≡ true → Numbered k previous)
      → check_scopes m previous known ss ≡ ok result
      → (s : DebugScope) → Memᴰ s ss
      → (0 < s.id) × ((s.parent_id ≡ 0) ⊎ Numbered s.parent_id s.id)
  unfolding check_scopes
  scopes_from [] previous known result w n h s k = absurd (Memᴰ.not-nil k)
  scopes_from (a ∷ ss) previous known result w n h s k =
      let bad =
        a.id == 0
        || leb a.id previous
        || member a.id known
        || (not (a.parent_id == 0) && not (member a.parent_id (insert a.id known))) in
      let last =
        then_ok (verify_location m (some a.location) >> fail_if bad ErrorKind.malformed_module)
          (check_scopes m a.id (insert a.id known) ss) result h in
      let checks =
        then_ok (verify_location m (some a.location)) (fail_if bad ErrorKind.malformed_module) tt
          last.0 in
      let passed = fail_if_ok bad ErrorKind.malformed_module checks.1 in
      let later : previous < a.id = ground (arith, passed) in
      let next : (j : ℕ) → member j (insert a.id known) ≡ true → Numbered j a.id = λ j q.
        elim (Bool-cases (a.id == j)) [
          | inl z ↦
              (a, w a (Memᴰ.head refl), (==_iff a.id j).0 z, omega (arith, (==_iff a.id j).0 z))
          | inr z ↦
              let (t, x, y, u) = n j (ground (arith, q, z, member-insert j a.id known)) in
              (t, x, y, omega (arith, u, later))
        ] in
      elim (Memᴰ.cases_cons k) [
        | inl z ↦
            subst
              (λ y.
                (0 < DebugScope.id y)
                × ((DebugScope.parent_id y ≡ 0)
                    ⊎ Numbered (DebugScope.parent_id y) (DebugScope.id y)))
              (sym z)
              (
                omega (arith, later),
                elim (Bool-cases (a.parent_id == 0)) [
                  | inl y ↦ inl ((==_iff a.parent_id 0).0 y)
                  | inr y ↦ inr (next a.parent_id (ground (arith, passed, y)))
                ],
              )
        | inr z ↦
            scopes_from ss a.id (insert a.id known) result (λ x y. w x (Memᴰ.tail y)) next last.1 s
              z
      ]

-- Accepted debug scopes have numbers above 0, and the parent of each is absent or a scope of the
-- function whose number is at most its own: it is an earlier scope, or the scope itself.
pub scopes_known :
    (m : IrModule) (scopes : List DebugScope) (known : List ℕ)
    → check_scopes m 0 [] scopes ≡ ok known
    → (s : DebugScope) → Memᴰ s scopes
    → (0 < s.id)
      × ((s.parent_id ≡ 0)
          ⊎ ((t : DebugScope) × Memᴰ t scopes × (t.id ≡ s.parent_id) × (s.parent_id ≤ s.id)))
scopes_known m scopes known h =
    scopes_from m scopes scopes 0 [] known (λ s k. k) (λ k q. absurd (ground (arith, q))) h
