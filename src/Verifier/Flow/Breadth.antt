-- ===== src/Verifier/Flow/Breadth.antt =====
-- The order that `verify_canonical_cfg` of native/codegen/ir_verifier.cpp asks for, told without a queue.
use neri.Prelude.{
  ℕ, zero, suc, ◌+◌, ◌≡◌, refl, sym, ◌∙◌, subst, List, [], ◌∷◌, ◌++◌, some, true, not, ◌==◌,
  if◌then◌else◌, length, bytes_eq, bytes_eq→eq, arith, insert, member, member-insert, some_eq,
  append-nil, append_assoc, Bool-cases, Option-cases, inl, inr,
}
use neri.Transport.Reader.{ErrorKind, ok}
use neri.Verifier.Check.{◌>>◌, fail_if, then_ok, fail_if_ok}
use neri.Verifier.Flow.Sound.{List-cases}
use neri.Verifier.Flow.Order.{
  Search, unseen, turn, search, edges_out, first_search, verify_canonical_cfg, Reach,
  canonical_cfg_reached,
}

-- The successors of blocks, block after block.
abbrev pub targets : (ℕ → List ℕ) → List ℕ → List ℕ
targets after [] = []
targets after (id ∷ ids) = after id ++ targets after ids

-- The elements of a list that are not in the set, each where it occurs first.
unfoldable pub first_occurrences : (seen : List ℕ) → List ℕ → List ℕ
first_occurrences seen [] = []
first_occurrences seen (x ∷ xs) =
    let more = first_occurrences (insert x seen) xs in
    let rest = first_occurrences seen xs in if member x seen then rest else x ∷ more

kept :
    (low seen : List ℕ) (x : ℕ)
    → ((k : ℕ) → member k low ≡ true → member k seen ≡ true)
    → (k : ℕ) → member k low ≡ true
    → member k (insert x seen) ≡ true
kept low seen x h k m = ground (arith, h k m, member-insert k x seen)

-- Elements of a set may be left out ahead.
skip_unseen :
    (low seen ys zs : List ℕ)
    → ((k : ℕ) → member k low ≡ true → member k seen ≡ true)
    → first_occurrences seen (unseen low ys ++ zs) ≡ first_occurrences seen (ys ++ zs)
unfolding first_occurrences
skip_unseen low seen [] zs h = refl
skip_unseen low seen (y ∷ ys) zs h = elim (Bool-cases (member y low)) [
  | inl e ↦ ground (arith, e, h y e, skip_unseen low seen ys zs h)
  | inr e ↦ elim (Bool-cases (member y seen)) [
    | inl q ↦ ground (arith, e, q, skip_unseen low seen ys zs h)
    | inr q ↦ ground (arith, e, q, skip_unseen low (insert y seen) ys zs (kept low seen y h))
  ]
]

append_unseen :
    (low seen xs ys zs : List ℕ)
    → ((k : ℕ) → member k low ≡ true → member k seen ≡ true)
    → first_occurrences seen ((xs ++ unseen low ys) ++ zs)
      ≡ first_occurrences seen (xs ++ (ys ++ zs))
unfolding first_occurrences
append_unseen low seen [] ys zs h = skip_unseen low seen ys zs h
append_unseen low seen (x ∷ xs) ys zs h = elim (Bool-cases (member x seen)) [
  | inl q ↦ ground (arith, q, append_unseen low seen xs ys zs h)
  | inr q ↦ ground (arith, q, append_unseen low (insert x seen) xs ys zs (kept low seen x h))
]

module _ (after : ℕ → List ℕ) where
  -- What a run of the loop adds, and in which order.
  search_order :
      (fuel : ℕ) (s t : Search)
      → search fuel after s ≡ some t
      → (new : List ℕ) × (t.discovered ≡ s.discovered ++ new)
        × (new ≡ first_occurrences s.seen (s.pending ++ targets after new))
  unfolding search turn first_occurrences
  search_order zero s t e = absurd (ground (arith, e))
  search_order (suc fuel) s t e = elim (List-cases s.pending) [
    | inl q ↦
        let same : s ≡ t = some_eq s t (ground (arith, e, q)) in
        (
          [],
          subst (λ x. Search.discovered x ≡ s.discovered ++ []) same
              (sym (append-nil s.discovered)),
          ground (arith, q),
        )
    | inr (current, rest, q) ↦ elim (Bool-cases (member current s.seen)) [
      | inl k ↦
          let more = search_order fuel (record s { pending = rest }) t (ground (arith, e, q, k)) in
          (more.0, more.1, more.2 ∙ ground (arith, q, k))
      | inr k ↦
          let seen = insert current s.seen in
          let next : Search = record {
            discovered = s.discovered ++ (current ∷ []);
            seen = seen;
            pending = rest ++ unseen seen (after current);
          } in
          let more = search_order fuel next t (ground (arith, e, q, k)) in
          let tail =
            more.2
            ∙ append_unseen seen seen rest (after current) (targets after more.0) (λ _ m. m) in
          (
            current ∷ more.0,
            more.1 ∙ append_assoc s.discovered (current ∷ []) more.0,
            ground (arith, q, k, tail),
          )
    ]
  ]

-- A function that passes has its blocks in breadth-first order: they are the entry and the successors
-- of its blocks, block after block, each where it occurs first. So edges lead from the entry to every
-- block.
pub canonical_order :
    (entry : ℕ) (after : ℕ → List ℕ) (all ids : List ℕ)
    → verify_canonical_cfg entry after all ids ≡ ok tt
    → (ids ≡ first_occurrences [] (entry ∷ targets after ids))
      × ((k : ℕ) → member k ids ≡ true → Reach entry after k)
unfolding verify_canonical_cfg
canonical_order entry after all ids e =
    elim (Option-cases (search (edges_out after all + 2) after (first_search entry))) [
      | inl q ↦ absurd (ground (arith, e, q))
      | inr (s, q) ↦
          let checks : (fail_if (not (length s.discovered == length all))
                  ErrorKind.invalid_control_flow
                >> fail_if (not (bytes_eq ids s.discovered)) ErrorKind.invalid_control_flow)
              ≡ ok tt =
            ground (arith, e, q) in
          let second =
            then_ok
              (fail_if (not (length s.discovered == length all)) ErrorKind.invalid_control_flow)
              (fail_if (not (bytes_eq ids s.discovered)) ErrorKind.invalid_control_flow) tt
              checks in
          let equal =
            bytes_eq→eq ids s.discovered
              (ground (arith, fail_if_ok (not (bytes_eq ids s.discovered)) _ second.1)) in
          let order = search_order after (edges_out after all + 2) (first_search entry) s q in
          (
            subst (λ ks. ks ≡ first_occurrences [] (entry ∷ targets after ks))
                (sym (equal ∙ order.1)) order.2,
            canonical_cfg_reached entry after all ids e,
          )
    ]
