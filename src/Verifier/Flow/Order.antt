-- ===== src/Verifier/Flow/Order.antt =====
-- `verify_canonical_cfg` of native/codegen/ir_verifier.cpp: the search from the entry block, on fuel.
-- `after` gives the successors of a block, none for a block without an entry in the map.
use neri.Prelude.{
  ℕ, zero, suc, ◌+◌, ◌≤◌, ◌<◌, ◌≡◌, refl, ap, subst, List, [], ◌∷◌, ◌++◌, Option, none, some, true,
  false, not, ◌==◌, ==_iff, if◌then◌else◌, length, bytes_eq, bytes_eq→eq, arith, insert, member,
  member-insert, member-append, Bool-cases, Option-cases, inl, inr, Increasing, member_low,
  length-append,
}
use neri.Transport.Reader.{ErrorKind, Result, ok}
use neri.Verifier.Check.{◌>>◌, fail, fail_if, then_ok, fail_if_ok}
use neri.Verifier.Flow.Sound.{List-cases}

-- The vector `discovered`, the set `seen` and the queue `pending`.
pub record Search : Type 0 where
  pub discovered : List ℕ
  pub seen : List ℕ
  pub pending : List ℕ

-- The successors that the inner loop pushes.
abbrev pub unseen : List ℕ → List ℕ → List ℕ
unseen seen [] = []
unseen seen (s ∷ ss) = if member s seen then unseen seen ss else s ∷ unseen seen ss

-- One turn of the loop, for the block at the head of the queue.
unfoldable pub turn : (ℕ → List ℕ) → Search → ℕ → List ℕ → Search
turn after s current rest =
    let seen = insert current s.seen in
    if member current s.seen then record s { pending = rest } else record {
      discovered = s.discovered ++ (current ∷ []);
      seen = seen;
      pending = rest ++ unseen seen (after current);
    }

unfoldable pub search : (fuel : ℕ) → (ℕ → List ℕ) → Search → Option Search
search zero after s = none
search (suc fuel) after s = elim s.pending [
  | [] ↦ some s
  | current ∷ rest ↦ search fuel after (turn after s current rest)
]

-- The number of edges out of some blocks.
abbrev pub edges_out : (ℕ → List ℕ) → List ℕ → ℕ
edges_out after [] = 0
edges_out after (id ∷ ids) = length (after id) + edges_out after ids

-- The number of edges out of the blocks that have not been seen.
abbrev pub edges_left : (ℕ → List ℕ) → (seen ids : List ℕ) → ℕ
edges_left after seen [] = 0
edges_left after seen (id ∷ ids) =
    (if member id seen then 0 else length (after id)) + edges_left after seen ids

abbrev pub first_search : ℕ → Search
first_search entry = record { discovered = []; seen = []; pending = entry ∷ [] }

-- The checks at the end, of the blocks in the order of the function; `all` are their numbers in order.
-- The case without an answer does not occur.
unfoldable pub verify_canonical_cfg :
    (entry : ℕ) (after : ℕ → List ℕ) (all ids : List ℕ) → Result (Unit {0})
verify_canonical_cfg entry after all ids =
    elim (search (edges_out after all + 2) after (first_search entry)) [
      | none ↦ fail ErrorKind.invalid_control_flow
      | some s ↦
          fail_if (not (length s.discovered == length all)) ErrorKind.invalid_control_flow
          >> fail_if (not (bytes_eq ids s.discovered)) ErrorKind.invalid_control_flow
    ]

-- The blocks that edges lead to from the entry.
pub data Reach (entry : ℕ) (after : ℕ → List ℕ) : ℕ → Type 0 where
  start : Reach entry after entry
  along : {b : ℕ} (c : ℕ) → Reach entry after b → member c (after b) ≡ true → Reach entry after c

member-unseen : (k : ℕ) (seen ss : List ℕ) → member k (unseen seen ss) ≡ true → member k ss ≡ true
member-unseen k seen [] h = h
member-unseen k seen (s ∷ ss) h = ground (arith, h, member-unseen k seen ss)

length-unseen : (seen ss : List ℕ) → length (unseen seen ss) ≤ length ss
length-unseen seen [] = omega arith
length-unseen seen (s ∷ ss) = ground (arith, length-unseen seen ss)

module _ (entry : ℕ) (after : ℕ → List ℕ) where
  abbrev Reached : List ℕ → Type 0
  Reached ks = (k : ℕ) → member k ks ≡ true → Reach entry after k

  turn-Reached :
      (s : Search) (current : ℕ) (rest : List ℕ)
      → Reached s.discovered
      → Reached (current ∷ rest)
      → Reached (Search.discovered (turn after s current rest))
        × Reached (Search.pending (turn after s current rest))
  unfolding turn
  turn-Reached s current rest d p = elim (Bool-cases (member current s.seen)) [
    | inl e ↦ ground (arith, e, d, tail_reached)
    | inr e ↦ ground (arith, e, d, tail_reached, found, pushed)
  ]
    where
      tail_reached : Reached rest
      tail_reached k m = p k (ground (arith, m))

      found : Reached (s.discovered ++ (current ∷ []))
      found k m = elim (Bool-cases (current == k)) [
        | inl q ↦ p k (ground (arith, q))
        | inr q ↦ d k (ground (arith, m, q, member-append k s.discovered (current ∷ [])))
      ]

      pushed : Reached (rest ++ unseen (insert current s.seen) (after current))
      pushed k m = elim (Bool-cases (member k rest)) [
        | inl q ↦ tail_reached k q
        | inr q ↦ along k (p current (ground arith)) (
            member-unseen k (insert current s.seen) (after current) (
              ground (
                arith,
                m,
                q,
                member-append k rest (unseen (insert current s.seen) (after current)),
              )))
      ]

  search-Reached :
      (fuel : ℕ) (s t : Search)
      → Reached s.discovered
      → Reached s.pending
      → search fuel after s ≡ some t
      → Reached t.discovered
  unfolding search
  search-Reached zero s t d p e = absurd (ground arith)
  search-Reached (suc fuel) s t d p e = elim (List-cases s.pending) [
    | inl q ↦ (λ k m. d k (ground (arith, e, q, m)))
    | inr (current, rest, q) ↦
        let both = turn-Reached s current rest d (subst (λ ks. Reached ks) q p) in
        search-Reached fuel (turn after s current rest) t both.0 both.1 (ground (arith, e, q))
  ]

-- A function that passes has only blocks that edges lead to from its entry.
pub canonical_cfg_reached :
    (entry : ℕ) (after : ℕ → List ℕ) (all ids : List ℕ)
    → verify_canonical_cfg entry after all ids ≡ ok tt
    → (k : ℕ) → member k ids ≡ true
    → Reach entry after k
unfolding verify_canonical_cfg
canonical_cfg_reached entry after all ids e k m =
    elim (Option-cases (search (edges_out after all + 2) after (first_search entry))) [
      | inl q ↦ absurd (ground (arith, e, q))
      | inr (s, q) ↦
          let checks : (fail_if (not (length s.discovered == length all))
                  ErrorKind.invalid_control_flow
                >> fail_if (not (bytes_eq ids s.discovered)) ErrorKind.invalid_control_flow)
              ≡ ok tt =
            ground (arith, e, q) in
          let second =
            then_ok
              (fail_if (not (length s.discovered == length all)) ErrorKind.invalid_control_flow)
              (fail_if (not (bytes_eq ids s.discovered)) ErrorKind.invalid_control_flow) tt
              checks in
          let equal : bytes_eq ids s.discovered ≡ true =
            ground (arith, fail_if_ok (not (bytes_eq ids s.discovered)) _ second.1) in
          search-Reached entry after (edges_out after all + 2) (first_search entry) s
            (λ x y. absurd (ground arith))
            (λ x y. subst (λ z. Reach entry after z) ((==_iff entry x).0 (ground (arith, y))) start)
            q k (subst (λ ks. member k ks ≡ true) (bytes_eq→eq ids s.discovered equal) m)
    ]

edges_left-other :
    (after : ℕ → List ℕ) (current : ℕ) (seen ids : List ℕ)
    → member current ids ≡ false
    → edges_left after (insert current seen) ids ≡ edges_left after seen ids
edges_left-other after current seen [] m = refl
edges_left-other after current seen (id ∷ ids) m = ground (
  arith,
  m,
  member-insert id current seen,
  ==_iff current id,
  edges_left-other after current seen ids,
)

edges_left-insert :
    (after : ℕ → List ℕ) (current low high : ℕ) (seen ids : List ℕ)
    → Increasing low high ids
    → member current ids ≡ true
    → member current seen ≡ false
    → edges_left after (insert current seen) ids + length (after current)
      ≡ edges_left after seen ids
edges_left-insert after current low high seen [] o m n = absurd (ground arith)
edges_left-insert after current low high seen (id ∷ ids) (a, b, c) m n =
    elim (Bool-cases (id == current)) [
      | inl e ↦
          let same = (==_iff id current).0 e in
          let alone : member current ids ≡ false = elim (Bool-cases (member current ids)) [
            | inl x ↦ absurd (ground (arith, same, member_low current (id + 1) high ids c x))
            | inr x ↦ x
          ] in
          ground (
            arith,
            n,
            same,
            member-insert id current seen,
            edges_left-other after current seen ids alone,
          )
      | inr e ↦ ground (
        arith,
        m,
        e,
        member-insert id current seen,
        edges_left-insert after current (id + 1) high seen ids c (ground (arith, m, e)) n,
      )
    ]

edges_left-start :
    (after : ℕ → List ℕ) (ids : List ℕ) → edges_left after [] ids ≡ edges_out after ids
edges_left-start after [] = refl
edges_left-start after (id ∷ ids) = omega (arith, edges_left-start after ids)

module _ (after : ℕ → List ℕ) (all : List ℕ) (high : ℕ) where
  search_total :
      (fuel : ℕ) (s : Search)
      → Increasing 0 high all
      → ((b p : ℕ) → member p (after b) ≡ true → member p all ≡ true)
      → ((k : ℕ) → member k s.pending ≡ true → member k all ≡ true)
      → length s.pending + edges_left after s.seen all < fuel
      → (t : Search) × (search fuel after s ≡ some t)
  unfolding search turn
  search_total zero s order closed p h = absurd (omega arith)
  search_total (suc fuel) s order closed p h = elim (List-cases s.pending) [
    | inl q ↦ (s, ground (arith, q))
    | inr (current, rest, q) ↦
        let known : member current all ≡ true = p current (ground (arith, q)) in
        let below : (k : ℕ) → member k rest ≡ true → member k all ≡ true =
          λ k m. p k (ground (arith, q, m)) in
        elim (Bool-cases (member current s.seen)) [
          | inl e ↦
              let more =
                search_total fuel (record s { pending = rest }) order closed below
                  (omega (arith, ap length q, h)) in
              (more.0, ground (arith, q, e, more.1))
          | inr e ↦
              let seen = insert current s.seen in
              let pushed = unseen seen (after current) in
              let next : Search = record {
                discovered = s.discovered ++ (current ∷ []);
                seen = seen;
                pending = rest ++ pushed;
              } in
              let more =
                search_total fuel next order closed
                  (λ k m. elim (Bool-cases (member k rest)) [
                    | inl x ↦ below k x
                    | inr x ↦ closed current k (
                        member-unseen k seen (after current)
                          (ground (arith, m, x, member-append k rest pushed)))
                  ])
                  (omega (
                    arith,
                    ap length q,
                    h,
                    length-append rest pushed,
                    length-unseen seen (after current),
                    edges_left-insert after current 0 high s.seen all order known e,
                  )) in
              (more.0, ground (arith, q, e, more.1))
        ]
  ]

-- The search ends: with one turn for the entry and one for each edge it has an answer.
pub search_ends :
    (entry : ℕ) (after : ℕ → List ℕ) (all : List ℕ) (high : ℕ)
    → Increasing 0 high all
    → member entry all ≡ true
    → ((b p : ℕ) → member p (after b) ≡ true → member p all ≡ true)
    → (s : Search) × (search (edges_out after all + 2) after (first_search entry) ≡ some s)
search_ends entry after all high order m closed =
    search_total after all high (edges_out after all + 2) (first_search entry) order closed
      (λ k h. subst (λ x. member x all ≡ true) ((==_iff entry k).0 (ground (arith, h))) m)
      (omega (arith, edges_left-start after all))
