-- ===== src/WorkerPool/Invariant/Work.antt =====
-- Lemmas on the calls of the workers of native/runtime/worker_pool.cpp.
use neri.Prelude.{
  ℕ, zero, suc, ◌≤◌, ◌≡◌, refl, sym, ap, ◌∙◌, subst, List, [], ◌∷◌, Option, none, some, Bool, true,
  false, ◌&&◌, ◌||◌, not, if◌then◌else◌, length, arith, Option-cases, Bool-cases, inl, inr,
  get_elem?, set,
}
use neri.WorkerPool.State.{
  set_channel-notified, Status, ok, invalid, stopped, Job, Worker, Pool, kind_success,
  kind_cancelled, find, put, is_empty, is_none,
}
use neri.WorkerPool.Queue.{unlink, finish, all_unavailable}
use neri.WorkerPool.Work.{ready, write_worker, handed, receive, answered, replied, reply, fail}
use neri.WorkerPool.Invariant.Maps.{count, count-unlink, find_id, find-put, Increasing-unlink}
use neri.WorkerPool.Invariant.Places.{Core, WellFormed, runs, holders-set, living-set, Released-set}
use neri.WorkerPool.Invariant.Finish.{finish_running, Core-written, Core-worker, held}
use neri.WorkerPool.Invariant.Failure.{failure_lem, head_counted, List-cases}
use neri.WorkerPool.Invariant.Stop.{is_empty-put}

-- A worker with the same flags is available like the one before.
pub unavailable-set :
    (ws : List Worker) (i : ℕ) (w v : Worker)
    → get_elem? ws i ≡ some w
    → v.failed ≡ w.failed
    → v.exited ≡ w.exited
    → all_unavailable (set ws i v) ≡ all_unavailable ws
unavailable-set [] i w v e f x = refl
unavailable-set (y ∷ ys) zero w v e f x = ground arith
unavailable-set (y ∷ ys) (suc i) w v e f x = ground (arith, unavailable-set ys i w v e f x)

pub ready_lem :
    (p : Pool) (i : ℕ) (w : Worker)
    → WellFormed p
    → get_elem? p.workers i ≡ some w
    → WellFormed (ready p i w).1
unfolding ready
ready_lem p i w f e = elim (Bool-cases (w.failed || w.ready)) [
  | inl a ↦ ground (arith, f, a)
  | inr a ↦ elim (Bool-cases p.stopping) [
    | inl b ↦ ground (arith, f, a, b)
    | inr b ↦ ground (arith, a, b, marked_ready p i w f e)
  ]
]
  where
    marked_ready :
        (p : Pool) (i : ℕ) (w : Worker)
        → WellFormed p
        → get_elem? p.workers i ≡ some w
        → WellFormed (write_worker p i (record w { ready = true }))
    marked_ready p i w f e =
        let v = record w { ready = true } in
        record {
          core = Core-worker p i w v f.core e refl refl;
          shut = f.shut;
          closed = λ h. f.closed (sym (unavailable-set p.workers i w v e refl refl) ∙ h);
          signal = f.signal;
        }

-- A worker takes the job at the head of the queue.
handed_lem :
    (p : Pool) (i : ℕ) (w : Worker) (j : Job)
    → WellFormed p
    → get_elem? p.workers i ≡ some w
    → w.current ≡ none
    → w.exited ≡ false
    → find j.id p.jobs ≡ some j
    → 1 ≤ count j.id p.queued
    → WellFormed (handed p i w j)
handed_lem p i w j f e n x here h =
    let v = record w { current = some j.id } in
    let k = record j { active = true } in
    let c = f.core in
    record {
      core =
          Core-written p k j (unlink p.queued j.id) p.completed (set p.workers i v) p.stopping
            p.channel c here refl (Increasing-unlink 1 p.next_job p.queued j.id c.fifo)
            (λ t. ground (
              arith,
              c.placed t,
              c.placed j.id,
              count-unlink t p.queued j.id,
              holders-set t p.workers i w v e,
              here,
              n,
            ))
            (ground (arith, living-set p.workers i w v e))
            (Released-set p.workers i v (λ y. absurd (ground (arith, y, x))) c.released);
      shut = λ s. ground (arith, f.shut s);
      closed = λ s. f.closed (sym (unavailable-set p.workers i w v e refl refl) ∙ s);
      signal = ground (arith, f.signal, is_empty-put k p.jobs);
    }

-- A predicate of the pool after a call that may have to wait.
abbrev pub After {ℓ} : (Pool → Type ℓ) → Option (Status × ℕ × Pool) → Type ℓ
After P none = Unit
After P (some r) = P r.2

-- The answers of `receive`, and what holds when it hands out a job.
pub receive_cases {ℓ} :
    (Q : Option (Status × ℕ × Pool) → Type ℓ) (p : Pool) (i : ℕ) (w : Worker)
    → Q none
    → Q (some (invalid, 0, p))
    → Q (some (stopped, 0, p))
    → ((t : ℕ) (rest : List ℕ) (j : Job)
        → w.current ≡ none
        → p.queued ≡ t ∷ rest
        → find t p.jobs ≡ some j
        → Q (some (ok, length j.input, handed p i w j)))
    → Q (receive p i w)
unfolding receive
receive_cases Q p i w waiting refused over gone =
    elim (Bool-cases (not w.ready || w.failed || not (is_none w.current))) [
      | inl a ↦ ground (arith, a, refused)
      | inr a ↦ elim (Bool-cases p.stopping) [
        | inl b ↦ ground (arith, a, b, over)
        | inr b ↦ elim (List-cases p.queued) [
          | inl q ↦ ground (arith, a, b, q, waiting)
          | inr (t, rest, q) ↦ elim (Option-cases (find t p.jobs)) [
            | inl e ↦ ground (arith, a, b, q, e, refused)
            | inr (j, e) ↦ ground (arith, a, b, q, e, gone t rest j (nothing_held w a) q e)
          ]
        ]
      ]
    ]
  where
    nothing_held :
        (w : Worker)
        → (not w.ready || w.failed || not (is_none w.current)) ≡ false
        → w.current ≡ none
    nothing_held w a = ground (arith, a)

pub receive_lem :
    (p : Pool) (i : ℕ) (w : Worker)
    → WellFormed p
    → get_elem? p.workers i ≡ some w
    → w.exited ≡ false
    → After (λ q. WellFormed q) (receive p i w)
receive_lem p i w f e x = receive_cases (After (λ q. WellFormed q)) p i w tt f f (λ t rest j n q h.
    let same = find_id t p.jobs j h in
    handed_lem p i w j f e n x (subst (λ m. find m p.jobs ≡ some j) (sym same) h)
      (subst (λ m. 1 ≤ count m p.queued) (sym same) (head_counted t p.queued rest q)))

-- A reply is written to the job in hand.
answered-Core :
    (p : Pool) (j : Job) (bytes : List ℕ)
    → Core p
    → find j.id p.jobs ≡ some j
    → Core (record p { jobs = put (answered j bytes) p.jobs })
answered-Core p j bytes c e =
    Core-written p (answered j bytes) j p.queued p.completed p.workers p.stopping p.channel c e refl
      c.fifo (λ k. ground (arith, c.placed k, c.placed j.id, e)) refl c.released

replied_lem :
    (p : Pool) (i : ℕ) (w : Worker) (j : Job) (bytes : List ℕ)
    → WellFormed p
    → get_elem? p.workers i ≡ some w
    → w.current ≡ some j.id
    → find j.id p.jobs ≡ some j
    → WellFormed (replied p i w j bytes)
unfolding finish
replied_lem p i w j bytes f e n here =
    let v = record w { current = none } in
    let k = answered j bytes in
    let q = record p { jobs = put k p.jobs } in
    let running = runs_lem j (
      subst (λ o. 1 ≤ runs o) here
        (subst (λ m. 1 ≤ m) (f.core.placed j.id).2 (held j.id p.workers i w e n))) in
    record {
      core =
          finish_running q k (if j.cancelled then kind_cancelled else kind_success) i w v
            (answered-Core p j bytes f.core here) (find-put j.id k p.jobs j here ∙ ground arith)
            running.0 running.1 e n refl refl;
      shut = λ s. ground (arith, f.shut s);
      closed = λ s. f.closed (sym (unavailable-set p.workers i w v e refl refl) ∙ s);
      signal = set_channel-notified _ _;
    }
  where
    runs_lem : (j : Job) → 1 ≤ runs (some j) → (j.active ≡ true) × (j.done ≡ false)
    runs_lem j h = (ground arith, ground arith)

reply_cases {ℓ} :
    (P : Pool → Type ℓ) (p : Pool) (i : ℕ) (w : Worker) (no_bytes out_of_memory : Bool)
    (bytes : List ℕ)
    → P p
    → ((t : ℕ) (j : Job) → w.current ≡ some t → find t p.jobs ≡ some j → P (replied p i w j bytes))
    → P (reply p i w no_bytes out_of_memory bytes).1
unfolding reply
reply_cases P p i w no_bytes out_of_memory bytes kept gone = elim (Option-cases w.current) [
  | inl n ↦ ground (arith, n, kept)
  | inr (t, n) ↦ elim (Option-cases (find t p.jobs)) [
    | inl e ↦ ground (arith, n, e, kept)
    | inr (j, e) ↦ ground (arith, n, e, kept, gone t j n e)
  ]
]

pub reply_lem :
    (p : Pool) (i : ℕ) (w : Worker) (no_bytes out_of_memory : Bool) (bytes : List ℕ)
    → WellFormed p
    → get_elem? p.workers i ≡ some w
    → WellFormed (reply p i w no_bytes out_of_memory bytes).1
reply_lem p i w no_bytes out_of_memory bytes f e =
    reply_cases (λ q. WellFormed q) p i w no_bytes out_of_memory bytes f
      (λ t j n h.
        let same = find_id t p.jobs j h in
        replied_lem p i w j bytes f e (n ∙ ap (λ m. some m) (sym same))
          (subst (λ m. find m p.jobs ≡ some j) (sym same) h))

pub fail_lem :
    (p : Pool) (i : ℕ) (w : Worker) (no_detail : Bool) (detail : List ℕ)
    → WellFormed p
    → get_elem? p.workers i ≡ some w
    → WellFormed (fail p i w no_detail detail).1
unfolding fail
fail_lem p i w no_detail detail f e = elim (Bool-cases (not (is_empty detail) && no_detail)) [
  | inl a ↦ ground (arith, a, f)
  | inr a ↦ ground (arith, a, failure_lem p i w detail f e)
]
