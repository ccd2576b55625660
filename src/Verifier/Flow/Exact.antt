-- ===== src/Verifier/Flow/Exact.antt =====
-- The sets at the end of `verify_dominance` of native/codegen/ir_verifier.cpp are the dominators.
use neri.Prelude.{
  ℕ, zero, suc, ◌+◌, ◌*◌, ◌≡◌, refl, sym, subst, ◌↔◌, List, [], ◌∷◌, true, false, ◌==◌, ==_iff,
  if◌then◌else◌, length, arith, insert, member, member-insert, map_set, map_find-set, Bool-cases,
  inl, inr,
}
use neri.Transport.Reader.{ok}
use neri.Verifier.Check.{bind_ok, ok_eq}
use neri.Verifier.Flow.Dominance.{
  Dominators, at, first_sets, meet, Round, visit, round, rounds, dominators,
}
use neri.Verifier.Flow.Sound.{
  Walk, here, step, Dominates, member-meet, Stable, visit_cases, round_keeps, round-Stable,
}

pub at-set :
    (d : Dominators) (i k : ℕ) (s : List ℕ) → at (map_set i s d) k ≡ (if i == k then s else at d k)
at-set d i k s = ground (arith, map_find-set k i s d)

pub at-first :
    (entry k : ℕ) (all ids : List ℕ)
    → at (first_sets entry all ids) k
      ≡ (if member k ids then (if k == entry then entry ∷ [] else all) else [])
unfolding first_sets
at-first entry k all [] = refl
at-first entry k all (id ∷ ids) = elim (Bool-cases (id == k)) [
  | inl e ↦ ground (arith, e, (==_iff id k).0 e)
  | inr e ↦ ground (arith, e, at-first entry k all ids)
]

module _ (entry : ℕ) (before : ℕ → List ℕ) (all : List ℕ) where
  -- What every round keeps: the set of the entry, no set for a number that is no block, and no
  -- dominator is missing.
  record Bounds (d : Dominators) : Type 0 where
    start : member entry all ≡ true → at d entry ≡ entry ∷ []
    outside : (b : ℕ) → member b all ≡ false → at d b ≡ []
    complete :
        (a b : ℕ)
        → member a all ≡ true
        → member b all ≡ true
        → Dominates entry before a b
        → member a (at d b) ≡ true

  first-Bounds : Bounds (first_sets entry all all)
  first-Bounds = record {
    start = λ m. ground (arith, m, at-first entry entry all all);
    outside = λ b m. ground (arith, m, at-first entry b all all);
    complete = λ a b m n o. elim (Bool-cases (b == entry)) [
      | inl e ↦
          let walked =
            o (entry ∷ [])
              (subst (λ c. Walk entry before c (entry ∷ [])) (sym ((==_iff b entry).0 e)) here) in
          ground (arith, n, e, walked, at-first entry b all all)
      | inr e ↦ ground (arith, m, n, e, at-first entry b all all)
    ];
  }

  -- A dominator of a block, other than the block, dominates its predecessors.
  Dominates-before :
      (a b p : ℕ)
      → (b == a) ≡ false
      → member p (before b) ≡ true
      → Dominates entry before a b
      → Dominates entry before a p
  Dominates-before a b p n m o visited w = ground (arith, n, o (b ∷ visited) (step b w m))

  visit-Bounds :
      ((b p : ℕ) → member p (before b) ≡ true → member p all ≡ true)
      → (r s : Round) (id : ℕ) → member id all ≡ true
      → visit entry before r id ≡ ok s
      → Bounds r.sets
      → Bounds s.sets
  visit-Bounds closed r s id m e f =
      visit_cases entry before (λ x. Bounds x.sets) r s id e (λ _. f)
        (λ p ps a b.
          let set = insert id (meet r.sets (at r.sets p) ps) in
          let first : member p (before id) ≡ true = ground (arith, b) in
          let others : (q : ℕ) → member q ps ≡ true → member q (before id) ≡ true =
            λ q h. ground (arith, b, h) in
          record {
            start = λ h. ground (arith, f.start h, a, at-set r.sets id entry set);
            outside = λ c h. elim (Bool-cases (id == c)) [
              | inl q ↦ absurd (ground (arith, h, m, (==_iff id c).0 q))
              | inr q ↦ ground (arith, f.outside c h, q, at-set r.sets id c set)
            ];
            complete = λ c t k l o. elim (Bool-cases (id == t)) [
              | inr q ↦ ground (arith, f.complete c t k l o, q, at-set r.sets id t set)
              | inl q ↦
                  let same = (==_iff id t).0 q in
                  let kept : member c set ≡ true = elim (Bool-cases (id == c)) [
                    | inl z ↦ ground (arith, z, member-insert c id (meet r.sets (at r.sets p) ps))
                    | inr z ↦
                        let below : (x : ℕ)
                            → member x (before id) ≡ true
                            → member c (at r.sets x) ≡ true =
                          λ x y. f.complete c x k (closed id x y) (
                            Dominates-before c id x z y
                              (subst (λ n. Dominates entry before c n) (sym same) o)) in
                        ground (
                          arith,
                          member-insert c id (meet r.sets (at r.sets p) ps),
                          (member-meet c r.sets (at r.sets p) ps).1 (below p first)
                              (λ x y. below x (others x y)),
                        )
                  ] in
                  ground (arith, kept, q, at-set r.sets id t set)
            ];
          })

  visit-all :
      ((b p : ℕ) → member p (before b) ≡ true → member p all ≡ true)
      → (r s : Round) → round entry before all r ≡ ok s
      → Bounds r.sets
      → Bounds s.sets
  visit-all closed = round_keeps entry before Bounds all (λ r s id m. visit-Bounds closed r s id m)

  rounds-Stable :
      (n : ℕ) (d e : Dominators)
      → ((b p : ℕ) → member p (before b) ≡ true → member p all ≡ true)
      → rounds entry before n all d ≡ ok e
      → Bounds d
      → Bounds e
        × ((id : ℕ) → member id all ≡ true → (id == entry) ≡ false → Stable entry before e id)
  unfolding rounds
  rounds-Stable zero d e closed h f = absurd (ground arith)
  rounds-Stable (suc n) d e closed h f =
      let r : Round = record { sets = d; changed = false } in
      let turn =
        bind_ok (round entry before all r)
          (λ s. if s.changed then rounds entry before n all s.sets else ok s.sets) e h in
      let s = turn.0 in
      let kept = visit-all closed r s turn.1 f in
      elim (Bool-cases s.changed) [
        | inl c ↦ rounds-Stable n s.sets e closed (ground (arith, turn.2, c)) kept
        | inr c ↦
            let same = ok_eq s.sets e (ground (arith, turn.2, c)) in
            let stable = round-Stable entry before all r s turn.1 c in
            subst
              (λ x.
                Bounds x
                × ((id : ℕ)
                    → member id all ≡ true
                    → (id == entry) ≡ false
                    → Stable entry before x id))
              same
              (
                kept,
                λ id m k. subst (λ x. Stable entry before x id) (sym stable.0) (stable.1 id m k),
              )
      ]

  visited_dominator :
      (d : Dominators)
      → Bounds d
      → member entry all ≡ true
      → ((id : ℕ) → member id all ≡ true → (id == entry) ≡ false → Stable entry before d id)
      → {b : ℕ} {visited : List ℕ} → Walk entry before b visited
      → (a : ℕ) → member a (at d b) ≡ true
      → member a visited ≡ true
  unfolding Stable
  visited_dominator d f m st here a h = ground (arith, f.start m, h)
  visited_dominator d f m st (step {b} {visited} c w q) a h = elim (Bool-cases (c == entry)) [
    | inl z ↦
        let set = subst (λ n. at d n ≡ entry ∷ []) (sym ((==_iff c entry).0 z)) (f.start m) in
        ground (arith, set, h, z)
    | inr z ↦ elim (Bool-cases (member c all)) [
      | inr o ↦ absurd (ground (arith, f.outside c o, h))
      | inl o ↦ elim (Bool-cases (c == a)) [
        | inl y ↦ ground (arith, y)
        | inr y ↦
            let (p, ps, k, l) = st c o z in
            let inside : member a (meet d (at d p) ps) ≡ true =
              ground (arith, member-insert a c (meet d (at d p) ps), l, y, h) in
            let each_one = (member-meet a d (at d p) ps).0 inside in
            let there : member a (at d b) ≡ true = elim (Bool-cases (p == b)) [
              | inl x ↦ subst (λ n. member a (at d n) ≡ true) ((==_iff p b).0 x) each_one.0
              | inr x ↦ each_one.1 b (ground (arith, k, q, x))
            ] in
            ground (arith, visited_dominator d f m st w a there)
      ]
    ]
  ]

-- A block in the set of another dominates it.
pub dominators_visited :
    (entry : ℕ) (before : ℕ → List ℕ) (all : List ℕ) (d : Dominators)
    → ((b p : ℕ) → member p (before b) ≡ true → member p all ≡ true)
    → member entry all ≡ true
    → dominators entry before all ≡ ok d
    → (a b : ℕ) → member a (at d b) ≡ true
    → Dominates entry before a b
unfolding dominators
dominators_visited entry before all d closed m e a b h visited w =
    let (f, st) =
      rounds-Stable entry before all (length all * length all + 1) (first_sets entry all all) d
        closed e (first-Bounds entry before all) in
    visited_dominator entry before all d f m st w a h

-- The sets that the loop ends with are the dominators: of two blocks, the first is in the set of the
-- second exactly when every walk from the entry to the second visits the first.
pub dominators_exact :
    (entry : ℕ) (before : ℕ → List ℕ) (all : List ℕ) (d : Dominators)
    → ((b p : ℕ) → member p (before b) ≡ true → member p all ≡ true)
    → member entry all ≡ true
    → dominators entry before all ≡ ok d
    → (a b : ℕ) → member a all ≡ true
    → member b all ≡ true
    → (member a (at d b) ≡ true) ↔ Dominates entry before a b
unfolding dominators
dominators_exact entry before all d closed m e a b k l =
    let (f, st) =
      rounds-Stable entry before all (length all * length all + 1) (first_sets entry all all) d
        closed e (first-Bounds entry before all) in
    (λ h visited w. visited_dominator entry before all d f m st w a h, λ o. f.complete a b k l o)
