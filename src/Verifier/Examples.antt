-- ===== src/Verifier/Examples.antt =====
-- Runs of the checks of native/codegen/ir_verifier.cpp on small functions.
use neri.Prelude.{
  ℕ, zero, suc, ◌+◌, ◌≡◌, refl, ◌↔◌, List, [], ◌∷◌, some, true, false, arith, ◌==◌, member,
  Increasing,
}
use neri.Transport.Reader.{ok}
use neri.Ir.TypeTag.{TypeTag}
use neri.Verifier.Types.{plain, applied, same_type}
use neri.Verifier.Equality.{same_type_iff}
use neri.Verifier.Flow.Dominance.{Dominators, dominators, rounds, round, visit, meet, first_sets}
use neri.Verifier.Flow.Sound.{Dominates}
use neri.Verifier.Flow.Exact.{dominators_exact}
use neri.Verifier.Flow.Budget.{dominators_total}
use neri.Verifier.Flow.Breadth.{canonical_order, first_occurrences, targets}
use neri.Verifier.Flow.Order.{
  Search, Reach, search, turn, first_search, edges_out, verify_canonical_cfg, search_ends,
}

-- The edges 0 → 1, 0 → 2, 1 → 3, 2 → 3, 3 → 1.
abbrev after : ℕ → List ℕ
after zero = 1 ∷ 2 ∷ []
after (suc zero) = 3 ∷ []
after (suc (suc zero)) = 3 ∷ []
after (suc (suc (suc zero))) = 1 ∷ []
after b = []

abbrev before : ℕ → List ℕ
before (suc zero) = 0 ∷ 3 ∷ []
before (suc (suc zero)) = 0 ∷ []
before (suc (suc (suc zero))) = 1 ∷ 2 ∷ []
before b = []

abbrev blocks : List ℕ
blocks = 0 ∷ 1 ∷ 2 ∷ 3 ∷ []

abbrev sets : Dominators
sets = (0, 0 ∷ []) ∷ (1, 0 ∷ 1 ∷ []) ∷ (2, 0 ∷ 2 ∷ []) ∷ (3, 0 ∷ 3 ∷ []) ∷ []

computed : dominators 0 before blocks ≡ ok sets
unfolding dominators rounds round visit meet first_sets
computed = refl

before_closed : (b p : ℕ) → member p (before b) ≡ true → member p blocks ≡ true
before_closed zero p h = absurd (ground arith)
before_closed (suc zero) p h = ground (arith, h)
before_closed (suc (suc zero)) p h = ground (arith, h)
before_closed (suc (suc (suc zero))) p h = ground (arith, h)
before_closed (suc (suc (suc (suc b)))) p h = absurd (ground arith)

after_closed : (b p : ℕ) → member p (after b) ≡ true → member p blocks ≡ true
after_closed zero p h = ground (arith, h)
after_closed (suc zero) p h = ground (arith, h)
after_closed (suc (suc zero)) p h = ground (arith, h)
after_closed (suc (suc (suc zero))) p h = ground (arith, h)
after_closed (suc (suc (suc (suc b)))) p h = absurd (ground arith)

in_order : Increasing 0 4 blocks
in_order = ground arith

have_before :
    (id : ℕ)
    → member id blocks ≡ true
    → (id == 0) ≡ false
    → (p : ℕ) × (ps : List ℕ) × (before id ≡ p ∷ ps)
have_before zero m n = absurd (ground (arith, n))
have_before (suc zero) m n = (0, 3 ∷ [], refl)
have_before (suc (suc zero)) m n = (0, [], refl)
have_before (suc (suc (suc zero))) m n = (1, 2 ∷ [], refl)
have_before (suc (suc (suc (suc b)))) m n = absurd (ground (arith, m))

dominators_exact_example : (true ≡ true) ↔ Dominates 0 before 0 3
dominators_exact_example =
    dominators_exact 0 before blocks sets before_closed refl computed 0 3 refl refl

dominators_total_example : (d : Dominators) × (dominators 0 before blocks ≡ ok d)
dominators_total_example =
    dominators_total 0 before blocks 4 in_order refl before_closed have_before

accepted : verify_canonical_cfg 0 after blocks blocks ≡ ok tt
unfolding verify_canonical_cfg search turn
accepted = refl

canonical_order_example :
    (blocks ≡ first_occurrences [] (0 ∷ targets after blocks))
    × ((k : ℕ) → member k blocks ≡ true → Reach 0 after k)
canonical_order_example = canonical_order 0 after blocks blocks accepted

search_ends_example :
    (s : Search) × (search (edges_out after blocks + 2) after (first_search 0) ≡ some s)
search_ends_example = search_ends 0 after blocks 4 in_order refl after_closed

same_type_iff_example :
    (same_type (applied TypeTag.pointer (plain TypeTag.int)) (plain TypeTag.int) ≡ true)
    ↔ (applied TypeTag.pointer (plain TypeTag.int) ≡ plain TypeTag.int)
same_type_iff_example =
    same_type_iff (applied TypeTag.pointer (plain TypeTag.int)) (plain TypeTag.int)
