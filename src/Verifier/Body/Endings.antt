-- ===== src/Verifier/Body/Endings.antt =====
-- What the context has of every terminator that the loop of `verify_blocks_and_uses` in
-- native/codegen/ir_verifier.cpp has visited.
use mathlib.Core.List.{Memᴰ}
use mathlib.Core.List.Memᴰ
use neri.Prelude.{
  ℕ, ◌≡◌, refl, sym, ap, ◌∙◌, subst, List, [], ◌∷◌, some, true, ◌||◌, not, ◌==◌, if◌then◌else◌,
  length, bit_or, member, arith, Bool-cases, some_eq, ◌⊎◌, inl, inr,
}
use neri.Ir.Model.{Edge, Terminator, Function}
use neri.Ir.TerminatorTag.{TerminatorTag}
use neri.Ir.TypeTag.{TypeTag}
use neri.Transport.Reader.{ErrorKind, Result, ok}
use neri.Verifier.Check.{◌>>=◌, ◌>>◌, fail_if, found, bind_ok, then_ok, fail_if_ok, ok_eq, found_ok}
use neri.Verifier.Types.{same_type, is_none, is_void, plain}
use neri.Verifier.Lookup.{verify_location}
use neri.Verifier.Context.{FunctionContext, definition_type, has_value}
use neri.Verifier.Effect.{Within, Within-bit_or}
use neri.Verifier.Effect
use neri.Verifier.Body.Blocks.{
  register_use, verify_edge, only_edge, branch, conditional_edges, conditional_branch, two_edges,
  returned_value, return_value, panic, terminator_case, visit_terminator,
}
use neri.Verifier.Body.Extends.{
  use_of, Extends, Extends-refl, Extends-trans, register_use-Extends, RecordedEdge,
  verify_edge-Extends,
}

no_member : (e : Edge) (es : List Edge) → (length es == 0) ≡ true → Memᴰ e es → ⊥
no_member e [] h m = Memᴰ.not-nil m
no_member e (f ∷ es) h m = absurd (ground (arith, h))

two_members :
    (e a b : Edge) (es : List Edge) → two_edges es ≡ some (a, b) → Memᴰ e es → (e ≡ a) ⊎ (e ≡ b)
unfolding two_edges
two_members e a b [] h m = absurd (ground (arith, h))
two_members e a b (f ∷ []) h m = absurd (ground (arith, h))
two_members e a b (f ∷ g ∷ []) h m =
    let both = some_eq (f, g) (a, b) h in
    elim (Memᴰ.cases_cons m) [
      | inl x ↦ inl (x ∙ ap (λ p. p.0) both)
      | inr x ↦ elim (Memᴰ.cases_cons x) [
        | inl y ↦ inr (y ∙ ap (λ p. p.1) both)
        | inr y ↦ absurd (Memᴰ.not-nil y)
      ]
    ]
two_members e a b (f ∷ g ∷ k ∷ es) h m = absurd (ground (arith, h))

module _ (all : List ℕ) where
  -- What the context has of a terminator.
  pub record RecordedEnding (d : FunctionContext) (block n : ℕ) (t : Terminator) : Type 0 where
    pub edges : (e : Edge) → Memᴰ e t.edges → RecordedEdge all d block n e
    pub condition : (v : ℕ) → t.condition ≡ some v → Memᴰ (use_of v block n) d.uses
    pub returned : (v : ℕ) → t.return_value ≡ some v → Memᴰ (use_of v block n) d.uses

  pub edge_kept :
      (d e : FunctionContext) (block n : ℕ) (x : Edge)
      → Extends all d e
      → RecordedEdge all d block n x
      → RecordedEdge all e block n x
  edge_kept d e block n x g r =
      (g.edges_kept x.target block r.0, λ v m. g.uses_kept (use_of v block n) (r.1 v m))

  pub ending_kept :
      (d e : FunctionContext) (block n : ℕ) (t : Terminator)
      → Extends all d e
      → RecordedEnding d block n t
      → RecordedEnding e block n t
  ending_kept d e block n t g r = record {
    edges = λ x m. edge_kept d e block n x g (r.edges x m);
    condition = λ v h. g.uses_kept (use_of v block n) (r.condition v h);
    returned = λ v h. g.uses_kept (use_of v block n) (r.returned v h);
  }

  module _ (c d : FunctionContext) (block n : ℕ) where
    only_edge-Extends :
        (es : List Edge)
        → member block all ≡ true
        → only_edge c block n es ≡ ok d
        → Extends all c d × ((e : Edge) → Memᴰ e es → RecordedEdge all d block n e)
    only_edge-Extends [] k h = absurd (ground (arith, h))
    only_edge-Extends (f ∷ es) k h =
        let checks =
          then_ok (fail_if (not (length es == 0)) ErrorKind.invalid_control_flow)
            (verify_edge c block f n) d h in
        let edge = verify_edge-Extends all c d block f n k checks.1 in
        let none_left : (length es == 0) ≡ true =
          ground (arith, fail_if_ok (not (length es == 0)) _ checks.0) in
        (
          edge.0,
          λ e m. elim (Memᴰ.cases_cons m) [
            | inl x ↦ subst (λ y. RecordedEdge all d block n y) (sym x) edge.1
            | inr x ↦ absurd (no_member e es none_left x)
          ],
        )

    branch-Extends :
        (t : Terminator)
        → member block all ≡ true
        → branch c block n t ≡ ok d
        → Extends all c d × RecordedEnding d block n t
    unfolding branch
    branch-Extends t k h =
        let checks =
          then_ok
            (fail_if (has_value t.condition || has_value t.return_value)
              ErrorKind.invalid_control_flow)
            (only_edge c block n t.edges) d h in
        let unset = fail_if_ok (has_value t.condition || has_value t.return_value) _ checks.0 in
        let edges = only_edge-Extends t.edges k checks.1 in
        (
          edges.0,
          record {
            edges = edges.1;
            condition = λ v e. absurd (ground (arith, e, unset));
            returned = λ v e. absurd (ground (arith, e, unset));
          },
        )

    conditional_edges-Extends :
        (v : ℕ) (a b : Edge)
        → member block all ≡ true
        → conditional_edges c block n v (a, b) ≡ ok d
        → Extends all c d
          × Memᴰ (use_of v block n) d.uses
          × RecordedEdge all d block n a
          × RecordedEdge all d block n b
    unfolding conditional_edges
    conditional_edges-Extends v a b k h =
        let (x, p, q) = bind_ok (register_use c v block n) _ d h in
        let (t, r, s) = bind_ok (definition_type x v) _ d q in
        let checks =
          then_ok (fail_if (not (same_type t (plain TypeTag.bool))) ErrorKind.invalid_type)
            (verify_edge x block a n >>= λ y. verify_edge y block b n) d s in
        let (y, u, w) =
          bind_ok (verify_edge x block a n) (λ y. verify_edge y block b n) d checks.1 in
        let one = register_use-Extends all c x v block n p in
        let two = verify_edge-Extends all x y block a n k u in
        let three = verify_edge-Extends all y d block b n k w in
        let rest = Extends-trans all x y d two.0 three.0 in
        (
          Extends-trans all c x d one.0 rest,
          rest.uses_kept (use_of v block n) one.1,
          edge_kept y d block n a three.0 two.1,
          three.1,
        )

    conditional_branch-Extends :
        (t : Terminator)
        → member block all ≡ true
        → conditional_branch c block n t ≡ ok d
        → Extends all c d × RecordedEnding d block n t
    unfolding conditional_branch
    conditional_branch-Extends t k h =
        let checks =
          then_ok (fail_if (has_value t.return_value) ErrorKind.invalid_control_flow)
            (found (two_edges t.edges) ErrorKind.invalid_control_flow >>= λ edges.
              found t.condition ErrorKind.invalid_control_flow >>= λ condition.
              conditional_edges c block n condition edges)
            d h in
        let unset = fail_if_ok (has_value t.return_value) _ checks.0 in
        let (edges, p, q) = bind_ok (found (two_edges t.edges) _) _ d checks.1 in
        let (v, r, s) = bind_ok (found t.condition _) _ d q in
        let parts = conditional_edges-Extends v edges.0 edges.1 k s in
        (
          parts.0,
          record {
            edges = λ e m.
                elim (two_members e edges.0 edges.1 t.edges (found_ok (two_edges t.edges) _ edges p)
                  m) [
                    | inl x ↦ subst (λ y. RecordedEdge all d block n y) (sym x) parts.2
                    | inr x ↦ subst (λ y. RecordedEdge all d block n y) (sym x) parts.3
                  ];
            condition = λ w e.
                subst (λ y. Memᴰ (use_of y block n) d.uses)
                  (some_eq v w (sym (found_ok t.condition _ v r) ∙ e)) parts.1;
            returned = λ w e. absurd (ground (arith, e, unset));
          },
        )

    returned_value-Extends :
        (v : ℕ)
        → returned_value c block n v ≡ ok d
        → Extends all c d × Memᴰ (use_of v block n) d.uses
    unfolding returned_value
    returned_value-Extends v h =
        let (x, p, q) = bind_ok (register_use c v block n) _ d h in
        let (t, r, s) = bind_ok (definition_type x v) _ d q in
        let checks = then_ok _ (ok x) d s in
        subst (λ y. Extends all c y × Memᴰ (use_of v block n) y.uses) (ok_eq x d checks.1)
          (register_use-Extends all c x v block n p)

    return_value-Extends :
        (t : Terminator)
        → return_value c block n t ≡ ok d
        → Extends all c d × RecordedEnding d block n t
    unfolding return_value
    return_value-Extends t h =
        let end : Result FunctionContext =
          if is_void (Function.result_type c.function)
          then (fail_if (has_value t.return_value) ErrorKind.invalid_type >> ok c)
          else (found t.return_value ErrorKind.invalid_type >>= λ value.
              returned_value c block n value) in
        let checks =
          then_ok
            (fail_if (not (length t.edges == 0) || has_value t.condition)
              ErrorKind.invalid_control_flow)
            end d h in
        let unset = fail_if_ok (not (length t.edges == 0) || has_value t.condition) _ checks.0 in
        let no_edge : (e : Edge) → Memᴰ e t.edges → RecordedEdge all d block n e =
          λ e m. absurd (no_member e t.edges (ground (arith, unset)) m) in
        elim (Bool-cases (is_void (Function.result_type c.function))) [
          | inl z ↦
              let void : (fail_if (has_value t.return_value) ErrorKind.invalid_type >> ok c)
                  ≡ ok d =
                ground (arith, z, checks.1) in
              let none_back = then_ok (fail_if (has_value t.return_value) _) (ok c) d void in
              let empty = fail_if_ok (has_value t.return_value) _ none_back.0 in
              (
                subst (λ y. Extends all c y) (ok_eq c d none_back.1) (Extends-refl all c),
                record {
                  edges = no_edge;
                  condition = λ v e. absurd (ground (arith, e, unset));
                  returned = λ v e. absurd (ground (arith, e, empty));
                },
              )
          | inr z ↦
              let full : (found t.return_value ErrorKind.invalid_type >>= λ value.
              returned_value c block n value)
                  ≡ ok d =
                ground (arith, z, checks.1) in
              let (v, p, q) =
                bind_ok (found t.return_value ErrorKind.invalid_type)
                  (λ value. returned_value c block n value) d full in
              let parts = returned_value-Extends v q in
              (
                parts.0,
                record {
                  edges = no_edge;
                  condition = λ w e. absurd (ground (arith, e, unset));
                  returned = λ w e.
                      subst (λ y. Memᴰ (use_of y block n) d.uses)
                        (some_eq v w (sym (found_ok t.return_value _ v p) ∙ e)) parts.1;
                },
              )
        ]

    panic-Extends :
        (t : Terminator) → panic c t ≡ ok d → Extends all c d × RecordedEnding d block n t
    unfolding panic
    panic-Extends t h =
        let more : FunctionContext = record c {
          required_effects = bit_or c.required_effects Effect.may_panic;
        } in
        let test =
          not (length t.edges == 0)
          || has_value t.condition
          || has_value t.return_value
          || length t.panic_code == 0
          || length t.panic_message == 0
          || is_none t.location in
        let checks = then_ok (fail_if test ErrorKind.invalid_control_flow) (ok more) d h in
        let unset = fail_if_ok test _ checks.0 in
        let both = Within-bit_or c.required_effects Effect.may_panic in
        let grown : Extends all c more = record {
          index_same = refl;
          function_same = refl;
          definitions_same = refl;
          blocks_same = refl;
          uses_kept = λ u m. m;
          edges_kept = λ b p m. m;
          effects_kept = both.0;
          closed_kept = λ x. x;
        } in
        (
          subst (λ y. Extends all c y) (ok_eq more d checks.1) grown,
          record {
            edges = λ e m. absurd (no_member e t.edges (ground (arith, unset)) m);
            condition = λ v e. absurd (ground (arith, e, unset));
            returned = λ v e. absurd (ground (arith, e, unset));
          },
        )

    case-Extends :
        (tag : TerminatorTag) (t : Terminator)
        → member block all ≡ true
        → terminator_case tag c block n t ≡ ok d
        → Extends all c d × RecordedEnding d block n t
    case-Extends TerminatorTag.branch t k h = branch-Extends t k h
    case-Extends TerminatorTag.conditional_branch t k h = conditional_branch-Extends t k h
    case-Extends TerminatorTag.return t k h = return_value-Extends t h
    case-Extends TerminatorTag.panic t k h = panic-Extends t h

    pub visit_terminator-Extends :
        (t : Terminator)
        → member block all ≡ true
        → visit_terminator c block n t ≡ ok d
        → Extends all c d × RecordedEnding d block n t
    unfolding visit_terminator
    visit_terminator-Extends t k h =
        case-Extends t.tag t k
          (then_ok (verify_location c.index t.location) (terminator_case t.tag c block n t) d h).1
