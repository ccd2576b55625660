-- ===== src/Verifier/Flow/Sound.antt =====
-- What the sets of `verify_dominance` of native/codegen/ir_verifier.cpp are.
use neri.Prelude.{
  ℕ, ◌≡◌, refl, sym, ap, ◌∙◌, subst, List, [], ◌∷◌, true, false, ◌==◌, ==_iff, bytes_eq,
  bytes_eq→eq, arith, intersect, insert, member, member-intersect, map_set, Bool-cases, ◌⊎◌, inl,
  inr,
}
use neri.Transport.Reader.{ok}
use neri.Verifier.Check.{bind_ok, ok_eq}
use neri.Verifier.Flow.Dominance.{Dominators, at, meet, Round, visit, round}

-- The walks along the edges from the entry to a block, with the blocks that they visit.
pub data Walk (entry : ℕ) (before : ℕ → List ℕ) : ℕ → List ℕ → Type 0 where
  here : Walk entry before entry (entry ∷ [])
  step :
      {b : ℕ} {visited : List ℕ} (c : ℕ)
      → Walk entry before b visited
      → member b (before c) ≡ true
      → Walk entry before c (c ∷ visited)

-- Every walk from the entry to the second block visits the first.
abbrev pub Dominates : (entry : ℕ) → (ℕ → List ℕ) → ℕ → ℕ → Type 0
Dominates entry before d b =
    (visited : List ℕ) → Walk entry before b visited → member d visited ≡ true

pub member-meet :
    (k : ℕ) (d : Dominators) (set ps : List ℕ)
    → (member k (meet d set ps) ≡ true
        → (member k set ≡ true) × ((p : ℕ) → member p ps ≡ true → member k (at d p) ≡ true))
      × (member k set ≡ true
          → ((p : ℕ) → member p ps ≡ true → member k (at d p) ≡ true)
          → member k (meet d set ps) ≡ true)
unfolding meet
member-meet k d set [] = (λ h. (h, λ p q. absurd (ground arith)), λ h o. h)
member-meet k d set (p ∷ ps) =
    let rest = member-meet k d (intersect set (at d p)) ps in
    let both = member-intersect k set (at d p) in
    (
      λ h.
          let all = rest.0 h in
          (
            ground (arith, all.0, both),
            λ q m. elim (Bool-cases (p == q)) [
              | inl e ↦
                  subst (λ x. member k (at d x) ≡ true) ((==_iff p q).0 e)
                    (ground (arith, all.0, both))
              | inr e ↦ all.1 q (ground (arith, m, e))
            ],
          ),
      λ h o. rest.1 (ground (arith, h, both, o p (ground arith))) (λ q m. o q (ground (arith, m))),
    )

pub List-cases {ℓ} :
    {A : Type ℓ} (xs : List A) → (xs ≡ []) ⊎ ((x : A) × (rest : List A) × (xs ≡ x ∷ rest))
List-cases [] = inl refl
List-cases (x ∷ xs) = inr (x, xs, refl)

module _ (entry : ℕ) (before : ℕ → List ℕ) where
  -- The set of a block is the one that its predecessors give.
  unfoldable pub Stable : Dominators → ℕ → Type 0
  Stable d id =
      (p : ℕ) × (ps : List ℕ) × (before id ≡ p ∷ ps) × (insert id (meet d (at d p) ps) ≡ at d id)

  -- What one turn does: nothing, or a new set for its block.
  pub visit_cases {ℓ} :
      (P : Round → Type ℓ) (r s : Round) (id : ℕ)
      → visit entry before r id ≡ ok s
      → ((id == entry) ≡ true ⊎ Stable r.sets id → P r)
      → ((p : ℕ) (ps : List ℕ)
          → (id == entry) ≡ false
          → before id ≡ p ∷ ps
          → P (record {
            sets = map_set id (insert id (meet r.sets (at r.sets p) ps)) r.sets;
            changed = true;
          }))
      → P s
  unfolding visit Stable
  visit_cases P r s id e same new = elim (Bool-cases (id == entry)) [
    | inl a ↦ subst P (ok_eq r s (ground (arith, a, e))) (same (inl a))
    | inr a ↦ elim (List-cases (before id)) [
      | inl b ↦ absurd (ground (arith, a, b, e))
      | inr (p, ps, b) ↦
          elim (Bool-cases (bytes_eq (insert id (meet r.sets (at r.sets p) ps)) (at r.sets id))) [
            | inl c ↦
                subst P (ok_eq r s (ground (arith, a, b, c, e)))
                  (same (inr (p, ps, b, bytes_eq→eq _ _ c)))
            | inr c ↦ subst P (ok_eq _ s (ground (arith, a, b, c, e))) (new p ps a b)
          ]
    ]
  ]

  -- A property of the sets that each turn keeps holds after a round.
  pub round_keeps {ℓ} :
      (P : Dominators → Type ℓ) (ids : List ℕ)
      → ((r s : Round) (id : ℕ)
          → member id ids ≡ true
          → visit entry before r id ≡ ok s
          → P r.sets
          → P s.sets)
      → (r s : Round) → round entry before ids r ≡ ok s
      → P r.sets
      → P s.sets
  unfolding round
  round_keeps P [] keeps r s e p = subst (λ x. P (Round.sets x)) (ok_eq r s e) p
  round_keeps P (id ∷ ids) keeps r s e p =
      let turn = bind_ok (visit entry before r id) (λ m. round entry before ids m) s e in
      round_keeps P ids (λ a b i m. keeps a b i (ground (arith, m))) turn.0 s turn.2
        (keeps r turn.0 id (ground arith) turn.1 p)

  round_changed :
      (ids : List ℕ) (r s : Round)
      → round entry before ids r ≡ ok s
      → r.changed ≡ true
      → s.changed ≡ true
  unfolding round
  round_changed [] r s e c = subst (λ x. Round.changed x ≡ true) (ok_eq r s e) c
  round_changed (id ∷ ids) r s e c =
      let turn = bind_ok (visit entry before r id) (λ m. round entry before ids m) s e in
      round_changed ids turn.0 s turn.2
        (visit_cases (λ x. x.changed ≡ true) r turn.0 id turn.1 (λ _. c) (λ p ps a b. refl))

  -- After a round that changes nothing, the sets are those before it, and each is stable.
  pub round-Stable :
      (ids : List ℕ) (r s : Round)
      → round entry before ids r ≡ ok s
      → s.changed ≡ false
      → (s.sets ≡ r.sets)
        × ((id : ℕ) → member id ids ≡ true → (id == entry) ≡ false → Stable r.sets id)
  unfolding round
  round-Stable [] r s e c =
      (ap (λ x. Round.sets x) (sym (ok_eq r s e)), λ id m. absurd (ground arith))
  round-Stable (id ∷ ids) r s e c =
      let turn = bind_ok (visit entry before r id) (λ m. round entry before ids m) s e in
      let rest = round-Stable ids turn.0 s turn.2 c in
      let first =
        visit_cases
          (λ x. x.changed ≡ false → (x.sets ≡ r.sets) × ((id == entry) ≡ false → Stable r.sets id))
          r turn.0 id turn.1
          (λ o _. (refl, λ n. elim o [ inl a ↦ absurd (ground (arith, a, n)) | inr st ↦ st ]))
          (λ p ps a b d. absurd (ground (arith, d))) in
      let unchanged : Round.changed turn.0 ≡ false = elim (Bool-cases (Round.changed turn.0)) [
        | inl t ↦ absurd (ground (arith, c, round_changed ids turn.0 s turn.2 t))
        | inr t ↦ t
      ] in
      let now = first unchanged in
      (
        rest.0 ∙ now.0,
        λ i m n. elim (Bool-cases (id == i)) [
          | inl q ↦
              subst (λ x. Stable r.sets x) ((==_iff id i).0 q)
                (now.1 (ground (arith, q, n, (==_iff id i).0 q)))
          | inr q ↦ subst (λ d. Stable d i) now.0 (rest.1 i (ground (arith, m, q)) n)
        ],
      )
