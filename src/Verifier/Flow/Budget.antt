-- ===== src/Verifier/Flow/Budget.antt =====
-- The loop of `verify_dominance` of native/codegen/ir_verifier.cpp ends within its budget.
use neri.Prelude.{
  ℕ, zero, suc, ◌+◌, ◌*◌, ◌≤◌, ◌<◌, ◌≡◌, refl, sym, ap, ◌∙◌, subst, List, [], ◌∷◌, true, false,
  ◌==◌, ==_iff, if◌then◌else◌, length, bytes_eq, bytes_eq_self, arith, insert, intersect, member,
  member-insert, map_set, Bool-cases, ◌⊎◌, inl, inr, Increasing, Increasing-insert,
  Increasing-intersect, Subset, subset_shorter, member_low, member_high,
}
use neri.Transport.Reader.{ok}
use neri.Verifier.Check.{bind_ok, ok_eq}
use neri.Verifier.Flow.Dominance.{
  Dominators, at, first_sets, meet, Round, visit, round, rounds, dominators,
}
use neri.Verifier.Flow.Sound.{member-meet, List-cases}
use neri.Verifier.Flow.Exact.{at-set, at-first}

-- The number of elements of the sets.
abbrev pub weight : Dominators → List ℕ → ℕ
weight d [] = 0
weight d (id ∷ ids) = length (at d id) + weight d ids

weight-other :
    (d : Dominators) (i : ℕ) (s ids : List ℕ)
    → member i ids ≡ false
    → weight (map_set i s d) ids ≡ weight d ids
weight-other d i s [] m = refl
weight-other d i s (id ∷ ids) m = ground (arith, at-set d i id s, m, weight-other d i s ids)

weight-set :
    (d : Dominators) (i low high : ℕ) (s ids : List ℕ)
    → Increasing low high ids
    → member i ids ≡ true
    → weight (map_set i s d) ids + length (at d i) ≡ weight d ids + length s
weight-set d i low high s [] o m = absurd (ground arith)
weight-set d i low high s (id ∷ ids) (a, b, c) m = elim (Bool-cases (id == i)) [
  | inl e ↦
      let same = (==_iff id i).0 e in
      let alone : member i ids ≡ false = elim (Bool-cases (member i ids)) [
        | inl x ↦ absurd (ground (arith, same, member_low i (id + 1) high ids c x))
        | inr x ↦ x
      ] in
      ground (arith, at-set d i id s, weight-other d i s ids alone, same)
  | inr e ↦
      ground
        (arith, at-set d i id s, m, e, weight-set d i (id + 1) high s ids c (ground (arith, m, e)))
]

module _ (entry : ℕ) (before : ℕ → List ℕ) (all : List ℕ) (high : ℕ) where
  -- What every round keeps besides: the sets are in order, and none lacks what its predecessors give.
  record Shrinking (d : Dominators) : Type 0 where
    sorted : (id : ℕ) → member id all ≡ true → Increasing 0 high (at d id)
    post :
        (id p : ℕ) (ps : List ℕ)
        → member id all ≡ true
        → (id == entry) ≡ false
        → before id ≡ p ∷ ps
        → Subset (insert id (meet d (at d p) ps)) (at d id)

  Increasing-meet :
      (d : Dominators) (set ps : List ℕ) → Increasing 0 high set → Increasing 0 high (meet d set ps)
  unfolding meet
  Increasing-meet d set [] i = i
  Increasing-meet d set (p ∷ ps) i =
      Increasing-meet d (intersect set (at d p)) ps (Increasing-intersect 0 high set (at d p) i)

  -- Smaller sets give a smaller set.
  meet_monotone :
      (d e : Dominators) (p id : ℕ) (ps : List ℕ)
      → ((b : ℕ) → Subset (at e b) (at d b))
      → Subset (insert id (meet e (at e p) ps)) (insert id (meet d (at d p) ps))
  meet_monotone d e p id ps s k m = elim (Bool-cases (id == k)) [
    | inl q ↦ ground (arith, q, member-insert k id (meet d (at d p) ps))
    | inr q ↦
        let inside : member k (meet e (at e p) ps) ≡ true =
          ground (arith, q, m, member-insert k id (meet e (at e p) ps)) in
        let all_of = (member-meet k e (at e p) ps).0 inside in
        ground (
          arith,
          member-insert k id (meet d (at d p) ps),
          (member-meet k d (at d p) ps).1 (s p k all_of.0) (λ x y. s x k (all_of.1 x y)),
        )
  ]

  -- What a turn does to the sets and to their number of elements.
  Less : Round → Round → Type 0
  Less r s =
      Shrinking s.sets
      × (weight s.sets all ≤ weight r.sets all)
      × (s.changed ≡ true → r.changed ≡ true ⊎ (weight s.sets all < weight r.sets all))

  written_Less :
      Increasing 0 high all
      → ((b p : ℕ) → member p (before b) ≡ true → member p all ≡ true)
      → (r : Round) (id p : ℕ) (ps : List ℕ) → member id all ≡ true
      → (id == entry) ≡ false
      → before id ≡ p ∷ ps
      → bytes_eq (insert id (meet r.sets (at r.sets p) ps)) (at r.sets id) ≡ false
      → id < high
      → Shrinking r.sets
      → Less r (record {
        sets = map_set id (insert id (meet r.sets (at r.sets p) ps)) r.sets;
        changed = true;
      })
  unfolding Less
  written_Less order closed r id p ps m a b c l f =
      let set = insert id (meet r.sets (at r.sets p) ps) in
      let d = r.sets in
      let e = map_set id set d in
      let mine = f.sorted p (closed id p (ground (arith, b))) in
      let ordered =
        Increasing-insert 0 high id (meet d (at d p) ps) (omega arith) l
          (Increasing-meet d (at d p) ps mine) in
      let within = f.post id p ps m a b in
      let shorter : length set < length (at d id) =
        elim (subset_shorter 0 high set (at d id) ordered (f.sorted id m) within) [
          | inl q ↦
              absurd (ground (arith, c, subst (λ x. bytes_eq set x ≡ true) q (bytes_eq_self set)))
          | inr q ↦ q
        ] in
      let smaller : (t : ℕ) → Subset (at e t) (at d t) = λ t k h. elim (Bool-cases (id == t)) [
        | inl q ↦
            let same = (==_iff id t).0 q in
            subst (λ n. member k (at d n) ≡ true) same
              (within k (ground (arith, h, q, at-set d id t set)))
        | inr q ↦ ground (arith, h, q, at-set d id t set)
      ] in
      let less = weight-set d id 0 high set all order m in
      (
        record {
          sorted = λ t n. elim (Bool-cases (id == t)) [
            | inl q ↦ ground (arith, ordered, q, at-set d id t set)
            | inr q ↦ ground (arith, f.sorted t n, q, at-set d id t set)
          ];
          post = λ t q qs n u v k w. elim (Bool-cases (id == t)) [
            | inl z ↦
                let same = (==_iff id t).0 z in
                let heads : p ∷ ps ≡ q ∷ qs = sym b ∙ ap before same ∙ v in
                let kept : member k (insert t (meet d (at d q) qs)) ≡ true =
                  meet_monotone d e q t qs smaller k w in
                ground (arith, z, same, heads, kept, at-set d id t set)
            | inr z ↦ ground (
              arith,
              f.post t q qs n u v k (meet_monotone d e q t qs smaller k w),
              z,
              at-set d id t set,
            )
          ];
        },
        omega (arith, less, shorter),
        λ _. inr (omega (arith, less, shorter)),
      )

  visit-Less :
      Increasing 0 high all
      → ((b p : ℕ) → member p (before b) ≡ true → member p all ≡ true)
      → ((id : ℕ) → member id all ≡ true → id < high)
      → (r s : Round) (id : ℕ) → member id all ≡ true
      → visit entry before r id ≡ ok s
      → Shrinking r.sets
      → Less r s
  unfolding Less visit
  visit-Less order closed bound r s id m e f = elim (Bool-cases (id == entry)) [
    | inl a ↦ same_Less r s (ok_eq r s (ground (arith, a, e))) f
    | inr a ↦ elim (List-cases (before id)) [
      | inl b ↦ absurd (ground (arith, a, b, e))
      | inr (p, ps, b) ↦
          elim (Bool-cases (bytes_eq (insert id (meet r.sets (at r.sets p) ps)) (at r.sets id))) [
            | inl c ↦ same_Less r s (ok_eq r s (ground (arith, a, b, c, e))) f
            | inr c ↦
                subst (λ x. Less r x) (ok_eq _ s (ground (arith, a, b, c, e)))
                  (written_Less order closed r id p ps m a b c (bound id m) f)
          ]
    ]
  ]
    where
      same_Less : (r s : Round) → r ≡ s → Shrinking r.sets → Less r s
      same_Less r s q f = subst (λ x. Less r x) q (f, omega arith, λ c. inl c)

  round-Less :
      (ids : List ℕ)
      → Increasing 0 high all
      → ((b p : ℕ) → member p (before b) ≡ true → member p all ≡ true)
      → ((id : ℕ) → member id all ≡ true → id < high)
      → Subset ids all
      → (r s : Round) → round entry before ids r ≡ ok s
      → Shrinking r.sets
      → Less r s
  unfolding Less round
  round-Less [] order closed bound within r s e f =
      subst (λ x. Less r x) (ok_eq r s e) (f, omega arith, λ c. inl c)
  round-Less (id ∷ ids) order closed bound within r s e f =
      let turn = bind_ok (visit entry before r id) (λ m. round entry before ids m) s e in
      let one = visit-Less order closed bound r turn.0 id (within id (ground arith)) turn.1 f in
      let rest =
        round-Less ids order closed bound (λ k m. within k (ground (arith, m))) turn.0 s turn.2
          one.0 in
      (
        rest.0,
        omega (arith, one.1, rest.1),
        λ c. elim (rest.2 c) [
          | inl t ↦ elim (one.2 t) [ inl x ↦ inl x | inr x ↦ inr (omega (arith, x, rest.1)) ]
          | inr t ↦ inr (omega (arith, t, one.1))
        ],
      )

  -- A round over blocks that have predecessors throws nothing.
  round_total :
      (ids : List ℕ)
      → ((id : ℕ)
          → member id ids ≡ true
          → (id == entry) ≡ false
          → (p : ℕ) × (ps : List ℕ) × (before id ≡ p ∷ ps))
      → (r : Round) → (s : Round) × (round entry before ids r ≡ ok s)
  unfolding round visit
  round_total [] some_before r = (r, refl)
  round_total (id ∷ ids) some_before r = elim (Bool-cases (id == entry)) [
    | inl a ↦
        let rest = round_total ids (λ k m. some_before k (ground (arith, m))) r in
        (rest.0, ground (arith, a, rest.1))
    | inr a ↦
        let (p, ps, b) = some_before id (ground arith) a in
        let set = insert id (meet r.sets (at r.sets p) ps) in
        let after : Round =
          if bytes_eq set (at r.sets id)
          then r
          else record { sets = map_set id set r.sets; changed = true } in
        let rest = round_total ids (λ k m. some_before k (ground (arith, m))) after in
        (rest.0, ground (arith, a, b, rest.1))
  ]

  rounds_total :
      (n : ℕ) (d : Dominators)
      → Increasing 0 high all
      → ((b p : ℕ) → member p (before b) ≡ true → member p all ≡ true)
      → ((id : ℕ) → member id all ≡ true → id < high)
      → ((id : ℕ)
          → member id all ≡ true
          → (id == entry) ≡ false
          → (p : ℕ) × (ps : List ℕ) × (before id ≡ p ∷ ps))
      → Shrinking d
      → weight d all < n
      → (e : Dominators) × (rounds entry before n all d ≡ ok e)
  unfolding rounds Less
  rounds_total zero d order closed bound some_before f h = absurd (omega arith)
  rounds_total (suc n) d order closed bound some_before f h =
      let r : Round = record { sets = d; changed = false } in
      let turn = round_total all some_before r in
      let less = round-Less all order closed bound (λ k m. m) r turn.0 turn.1 f in
      elim (Bool-cases (Round.changed turn.0)) [
        | inr c ↦ (Round.sets turn.0, ground (arith, turn.1, c))
        | inl c ↦
            let fewer : weight (Round.sets turn.0) all < weight d all = elim (less.2 c) [
              | inl x ↦ absurd (ground (arith, x))
              | inr x ↦ x
            ] in
            let rest =
              rounds_total n (Round.sets turn.0) order closed bound some_before less.0
                (omega (arith, fewer, h)) in
            (rest.0, ground (arith, turn.1, c, rest.1))
      ]

  first-Shrinking :
      Increasing 0 high all → member entry all ≡ true → Shrinking (first_sets entry all all)
  first-Shrinking order m = record {
    sorted = λ id n. elim (Bool-cases (id == entry)) [
      | inl e ↦
          ground (arith, n, e, at-first entry id all all, member_high entry 0 high all order m)
      | inr e ↦ ground (arith, n, e, order, at-first entry id all all)
    ];
    post = λ id p ps n a b k w. elim (Bool-cases (id == k)) [
      | inl q ↦ ground (arith, n, a, at-first entry id all all, (==_iff id k).0 q)
      | inr q ↦
          let d = first_sets entry all all in
          let inside : member k (meet d (at d p) ps) ≡ true =
            ground (arith, q, w, member-insert k id (meet d (at d p) ps)) in
          let mine = ((member-meet k d (at d p) ps).0 inside).0 in
          let there : member k all ≡ true = elim (Bool-cases (entry == k)) [
            | inl x ↦ subst (λ y. member y all ≡ true) ((==_iff entry k).0 x) m
            | inr x ↦ ground (arith, mine, x, at-first entry p all all)
          ] in
          ground (arith, n, a, there, at-first entry id all all)
    ];
  }

  weight_bound :
      (d : Dominators) (ids : List ℕ) (n : ℕ)
      → ((id : ℕ) → length (at d id) ≤ n)
      → weight d ids ≤ length ids * n
  weight_bound d [] n h = omega arith
  weight_bound d (id ∷ ids) n h = grind (arith, h id, weight_bound d ids n h)

some_length : (k : ℕ) (xs : List ℕ) → member k xs ≡ true → 1 ≤ length xs
some_length k [] m = absurd (ground arith)
some_length k (x ∷ xs) m = omega arith

-- The loop never exceeds its budget: when every block but the entry has a predecessor, the sets of
-- dominators are computed, whatever the edges.
pub dominators_total :
    (entry : ℕ) (before : ℕ → List ℕ) (all : List ℕ) (high : ℕ)
    → Increasing 0 high all
    → member entry all ≡ true
    → ((b p : ℕ) → member p (before b) ≡ true → member p all ≡ true)
    → ((id : ℕ)
        → member id all ≡ true
        → (id == entry) ≡ false
        → (p : ℕ) × (ps : List ℕ) × (before id ≡ p ∷ ps))
    → (d : Dominators) × (dominators entry before all ≡ ok d)
unfolding dominators
dominators_total entry before all high order m closed some_before =
    let d = first_sets entry all all in
    let small : (id : ℕ) → length (at d id) ≤ length all =
      λ id. ground (arith, at-first entry id all all, some_length entry all m) in
    rounds_total entry before all high (length all * length all + 1) d order closed
      (λ id k. member_high id 0 high all order k) some_before
      (first-Shrinking entry before all high order m)
      (omega (arith, weight_bound entry before all high d all (length all) small))
