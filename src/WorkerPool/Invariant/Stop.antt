-- ===== src/WorkerPool/Invariant/Stop.antt =====
-- Lemmas on `cancel` and `stop` of native/runtime/worker_pool.cpp.
use neri.Prelude.{
  ℕ, zero, suc, ◌≤◌, ◌≡◌, refl, sym, ◌∙◌, subst, List, [], ◌∷◌, none, some, true, false, ◌==◌,
  ==_iff, if◌then◌else◌, arith, Option-cases, Bool-cases, ◌⊎◌, inl, inr,
}
use neri.WorkerPool.State.{set_channel-notified, Job, Pool, kind_cancelled, find, put, is_empty}
use neri.WorkerPool.Queue.{tickets, finish, stop, stop_jobs, stop_job}
use neri.WorkerPool.Client.{cancel}
use neri.WorkerPool.Invariant.Maps.{count, count-unlink, find_id, find-put}
use neri.WorkerPool.Invariant.Places.{Core, WellFormed, Core-flags, waits}
use neri.WorkerPool.Invariant.Finish.{finish_waiting, Core-written}

-- The pool in which a job that is not done has been cancelled.
abbrev pub marked : Job → Job
marked j = record j { cancelled = true }

abbrev pub after_cancel : Pool → Job → Pool
after_cancel p j =
    if j.active
    then record p { jobs = put (marked j) p.jobs }
    else finish (record p { jobs = put (marked j) p.jobs }) (marked j) kind_cancelled

marked-Core :
    (p : Pool) (j : Job)
    → Core p
    → find j.id p.jobs ≡ some j
    → Core (record p { jobs = put (marked j) p.jobs })
marked-Core p j c e =
    Core-written p (marked j) j p.queued p.completed p.workers p.stopping p.channel c e refl c.fifo
      (λ k. ground (arith, c.placed k, c.placed j.id, e)) refl c.released

after_cancel-Core :
    (p : Pool) (j : Job)
    → Core p
    → find j.id p.jobs ≡ some j
    → j.done ≡ false
    → Core (after_cancel p j)
after_cancel-Core p j c e d = elim (Bool-cases j.active) [
  | inl a ↦ ground (arith, a, marked-Core p j c e)
  | inr a ↦
      let q = record p { jobs = put (marked j) p.jobs } in
      let there : find j.id q.jobs ≡ some (marked j) =
        find-put j.id (marked j) p.jobs j e ∙ ground arith in
      ground (arith, a, finish_waiting q (marked j) kind_cancelled (marked-Core p j c e) there a d)
]

-- What a cancellation leaves of the queue.
after_cancel_queue :
    (p : Pool) (j : Job) (k : ℕ)
    → Core p
    → find j.id p.jobs ≡ some j
    → (count k (Pool.queued (after_cancel p j)) ≤ count k p.queued)
      × (count j.id (Pool.queued (after_cancel p j)) ≡ 0)
unfolding finish
after_cancel_queue p j k c e = ground (
  arith,
  c.placed k,
  c.placed j.id,
  count-unlink k p.queued j.id,
  count-unlink j.id p.queued j.id,
)

-- A turn of the loop of `stop`.
Turn : Pool → Pool → ℕ → Type 0
Turn p q t =
    Core q
    × (q.stopping ≡ p.stopping)
    × ((k : ℕ) → (count k q.queued ≤ count k p.queued) × (count t q.queued ≡ 0))

stop_job_same :
    (p : Pool) (t : ℕ)
    → (find t p.jobs ≡ none) ⊎ ((j : Job) × (find t p.jobs ≡ some j) × (j.done ≡ true))
    → stop_job p t ≡ p
unfolding stop_job
stop_job_same p t (inl e) = ground arith
stop_job_same p t (inr (j, e, d)) = ground arith

stop_job_marked :
    (p : Pool) (t : ℕ) (j : Job)
    → find t p.jobs ≡ some j
    → j.done ≡ false
    → stop_job p t ≡ after_cancel p j
unfolding stop_job finish
stop_job_marked p t j e d = ground arith

after_cancel_stopping : (p : Pool) (j : Job) → Pool.stopping (after_cancel p j) ≡ p.stopping
unfolding finish
after_cancel_stopping p j = ground arith

stop_job_lem : (p : Pool) (t : ℕ) → Core p → Turn p (stop_job p t) t
unfolding Turn
stop_job_lem p t c = elim (Option-cases (find t p.jobs)) [
  | inl e ↦
      subst (λ q. Turn p q t) (sym (stop_job_same p t (inl e)))
        (c, refl, λ k. (omega arith, ground (arith, c.placed t, e)))
  | inr (j, e) ↦ elim (Bool-cases j.done) [
    | inl d ↦
        subst (λ q. Turn p q t) (sym (stop_job_same p t (inr (j, e, d))))
          (c, refl, λ k. (omega arith, ground (arith, c.placed t, e, d)))
    | inr d ↦
        let same = find_id t p.jobs j e in
        let here = subst (λ n. find n p.jobs ≡ some j) (sym same) e in
        subst (λ q. Turn p q t) (sym (stop_job_marked p t j e d))
          (
            after_cancel-Core p j c here d,
            after_cancel_stopping p j,
            λ k. (
              (after_cancel_queue p j k c here).0,
              subst (λ n. count n (Pool.queued (after_cancel p j)) ≡ 0) same
                  (after_cancel_queue p j k c here).1,
            ),
          )
  ]
]

-- The loop of `stop` removes each ticket that it visits from the queue.
stop_jobs_lem :
    (ts : List ℕ) (p : Pool)
    → Core p
    → Core (stop_jobs p ts)
      × (Pool.stopping (stop_jobs p ts) ≡ p.stopping)
      × ((k : ℕ)
          → (count k (Pool.queued (stop_jobs p ts)) ≤ count k p.queued)
            × (1 ≤ count k ts → count k (Pool.queued (stop_jobs p ts)) ≡ 0))
unfolding stop_jobs Turn
stop_jobs_lem [] p c = (c, refl, λ k. (omega arith, λ h. absurd (omega arith)))
stop_jobs_lem (t ∷ ts) p c =
    let turn = stop_job_lem p t c in
    let more = stop_jobs_lem ts (stop_job p t) turn.0 in
    (
      more.0,
      more.1 ∙ turn.1,
      λ k. (
        omega (arith, (more.2 k).0, (turn.2 k).0),
        λ h. elim (Bool-cases (t == k)) [
          | inl e ↦
              let same = (==_iff t k).0 e in
              let gone = subst (λ n. count n (Pool.queued (stop_job p t)) ≡ 0) same (turn.2 k).1 in
              omega (arith, (more.2 k).0, gone)
          | inr e ↦ (more.2 k).1 (ground (arith, h, e))
        ],
      ),
    )

-- A ticket that no job has is not among the tickets.
counted_ticket : (k : ℕ) (js : List Job) → 1 ≤ waits (find k js) → 1 ≤ count k (tickets js)
counted_ticket k [] h = absurd (omega arith)
counted_ticket k (j ∷ js) h = ground (arith, h, counted_ticket k js)

zero_or : (n : ℕ) → (n ≡ 0) ⊎ (1 ≤ n)
zero_or zero = inl refl
zero_or (suc n) = inr (omega arith)

nothing_counted : (xs : List ℕ) → ((k : ℕ) → count k xs ≡ 0) → xs ≡ []
nothing_counted [] h = refl
nothing_counted (x ∷ xs) h = absurd (ground (arith, h x))

-- The loop of `stop` over all jobs leaves no job queued.
stop_jobs_queue : (p : Pool) → Core p → Pool.queued (stop_jobs p (tickets p.jobs)) ≡ []
stop_jobs_queue p c = nothing_counted (Pool.queued (stop_jobs p (tickets p.jobs))) (λ k.
    let all = (stop_jobs_lem (tickets p.jobs) p c).2 k in
    elim (zero_or (waits (find k p.jobs))) [
      | inl e ↦ omega (arith, all.0, (c.placed k).0, e)
      | inr h ↦ all.1 (counted_ticket k p.jobs h)
    ])

pub stop_lem : (p : Pool) → WellFormed p → WellFormed (stop p)
unfolding stop
stop_lem p f =
    let q = record p { stopping = true } in
    let c = Core-flags p true p.channel f.core in
    let all = stop_jobs_lem (tickets p.jobs) q c in
    record {
      core = Core-flags (stop_jobs q (tickets p.jobs)) _ _ all.0;
      shut = λ h. stop_jobs_queue q c;
      closed = λ h. all.1;
      signal = set_channel-notified _ _;
    }

pub is_empty-put : (j : Job) (js : List Job) → is_empty (put j js) ≡ is_empty js
is_empty-put j [] = refl
is_empty-put j (i ∷ is) = ground arith

after_cancel_lem :
    (p : Pool) (j : Job)
    → WellFormed p
    → find j.id p.jobs ≡ some j
    → j.done ≡ false
    → WellFormed (after_cancel p j)
unfolding finish
after_cancel_lem p j f e d = record {
  core = after_cancel-Core p j f.core e d;
  shut = λ h. ground (arith, f.shut, h);
  closed = λ h. ground (arith, f.closed, h);
  signal = ground (arith, f.signal, is_empty-put (marked j) p.jobs);
}

cancel_cases {ℓ} :
    (P : Pool → Type ℓ) (p : Pool) (t : ℕ)
    → P p
    → ((j : Job) → find t p.jobs ≡ some j → j.done ≡ false → P (after_cancel p j))
    → P (cancel p t).1
unfolding cancel finish
cancel_cases P p t kept gone = elim (Option-cases (find t p.jobs)) [
  | inl e ↦ ground (arith, kept, e)
  | inr (j, e) ↦ elim (Bool-cases j.done) [
    | inl d ↦ ground (arith, kept, e, d)
    | inr d ↦ ground (arith, kept, gone j e d, e, d)
  ]
]

pub cancel_lem : (p : Pool) (t : ℕ) → WellFormed p → WellFormed (cancel p t).1
cancel_lem p t f =
    cancel_cases (λ q. WellFormed q) p t f
      (λ j e d.
        after_cancel_lem p j f (subst (λ n. find n p.jobs ≡ some j) (sym (find_id t p.jobs j e)) e)
          d)
