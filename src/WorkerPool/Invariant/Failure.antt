-- ===== src/WorkerPool/Invariant/Failure.antt =====
-- Lemmas on `stop_if_unavailable` and `failure` of native/runtime/worker_pool.cpp.
use neri.Prelude.{
  ℕ, zero, suc, ◌≤◌, ◌≡◌, refl, sym, ap, ◌∙◌, subst, List, [], ◌∷◌, none, some, true, false, length,
  arith, get_elem?, set, Option-cases, Bool-cases, ◌⊎◌, inl, inr,
}
use neri.WorkerPool.State.{
  set_channel-notified, notified, Job, Worker, Pool, Kind, kind_failed, find, poll_ready,
}
use neri.WorkerPool.Queue.{
  unlink, finish, finish_ticket, finish_current, drain, stop_if_unavailable, failure, mark_failed,
  all_unavailable,
}
use neri.WorkerPool.Invariant.Maps.{count, find_id}
use neri.WorkerPool.Invariant.Places.{Core, WellFormed, Core-flags}
use neri.WorkerPool.Invariant.Finish.{
  finish_waiting, finish_running, Core-worker, waits_job, runs_job, held,
}

finish_ticket_found :
    (p : Pool) (t : ℕ) (j : Job) (result : Kind)
    → find t p.jobs ≡ some j
    → finish_ticket p t result ≡ finish p j result
unfolding finish_ticket
finish_ticket_found p t j result e = ground arith

finish_current-none :
    (p : Pool) (i : ℕ) (v : Worker) (result : Kind)
    → v.current ≡ none
    → finish_current p i v result ≡ record p { workers = set p.workers i v }
unfolding finish_current
finish_current-none p i v result e = ground arith

finish_current-some :
    (p : Pool) (i : ℕ) (v : Worker) (result : Kind) (t : ℕ) (j : Job)
    → v.current ≡ some t
    → find t p.jobs ≡ some j
    → finish_current p i v result
      ≡ record (finish p j result) { workers = set p.workers i (record v { current = none }) }
unfolding finish_current finish_ticket finish
finish_current-some p i v result t j e f = ground arith

pub finish_ticket_waiting :
    (p : Pool) (t : ℕ) (result : Kind)
    → Core p
    → 1 ≤ count t p.queued
    → Core (finish_ticket p t result) × (Pool.queued (finish_ticket p t result) ≡ unlink p.queued t)
unfolding finish
finish_ticket_waiting p t result c h =
    let found = waits_job (find t p.jobs) (subst (λ n. 1 ≤ n) (c.placed t).0 h) in
    let j = found.0 in
    let same = find_id t p.jobs j found.1 in
    subst (λ q. Core q × (Pool.queued q ≡ unlink p.queued t))
      (sym (finish_ticket_found p t j result found.1))
      (
        finish_waiting p j result c (subst (λ n. find n p.jobs ≡ some j) (sym same) found.1) found.2
            found.3,
        ground arith,
      )

pub finish_current-Core :
    (p : Pool) (i : ℕ) (w v : Worker) (result : Kind)
    → Core p
    → get_elem? p.workers i ≡ some w
    → v.current ≡ w.current
    → v.exited ≡ w.exited
    → Core (finish_current p i v result)
finish_current-Core p i w v result c e k x = elim (Option-cases v.current) [
  | inl n ↦
      subst (λ q. Core q) (sym (finish_current-none p i v result n)) (Core-worker p i w v c e k x)
  | inr (t, n) ↦
      let found =
        runs_job (find t p.jobs)
          (subst (λ n. 1 ≤ n) (c.placed t).2 (held t p.workers i w e (sym k ∙ n))) in
      let j = found.0 in
      let same = find_id t p.jobs j found.1 in
      subst (λ q. Core q) (sym (finish_current-some p i v result t j n found.1))
        (finish_running p j result i w (record v { current = none }) c
          (subst (λ n. find n p.jobs ≡ some j) (sym same) found.1) found.2 found.3 e
          (sym k ∙ n ∙ ap (λ m. some m) (sym same)) refl x)
]

pub List-cases {ℓ} :
    {A : Type ℓ} (xs : List A) → (xs ≡ []) ⊎ ((x : A) × (rest : List A) × (xs ≡ x ∷ rest))
List-cases [] = inl refl
List-cases (x ∷ xs) = inr (x, xs, refl)

finish_ticket_stopping :
    (p : Pool) (t : ℕ) (result : Kind) → Pool.stopping (finish_ticket p t result) ≡ p.stopping
unfolding finish_ticket finish
finish_ticket_stopping p t result = ground arith

pub drain_nil : (fuel : ℕ) (p : Pool) → p.queued ≡ [] → drain fuel p ≡ p
unfolding drain
drain_nil zero p e = refl
drain_nil (suc fuel) p e = ground arith

pub drain_cons :
    (fuel : ℕ) (p : Pool) (t : ℕ) (rest : List ℕ)
    → p.queued ≡ t ∷ rest
    → drain (suc fuel) p ≡ drain fuel (finish_ticket p t kind_failed)
unfolding drain
drain_cons fuel p t rest e = ground arith

pub head_counted : (t : ℕ) (xs rest : List ℕ) → xs ≡ t ∷ rest → 1 ≤ count t xs
head_counted t xs rest e = rw e (ground arith)

pub head_unlinked : (t : ℕ) (xs rest : List ℕ) → xs ≡ t ∷ rest → unlink xs t ≡ rest
head_unlinked t xs rest e = rw e (ground arith)

empty_list {ℓ} : {A : Type ℓ} (xs : List A) → length xs ≤ 0 → xs ≡ []
empty_list [] h = refl
empty_list (x ∷ xs) h = absurd (omega arith)

-- With fuel for each queued job, the loop empties the queue.
drain_lem :
    (fuel : ℕ) (p : Pool)
    → Core p
    → length p.queued ≤ fuel
    → Core (drain fuel p)
      × (Pool.queued (drain fuel p) ≡ [])
      × (Pool.stopping (drain fuel p) ≡ p.stopping)
unfolding drain
drain_lem zero p c h = (c, empty_list p.queued h, refl)
drain_lem (suc fuel) p c h = elim (List-cases p.queued) [
  | inl e ↦
      subst (λ q. Core q × (Pool.queued q ≡ []) × (Pool.stopping q ≡ p.stopping))
        (sym (drain_nil (suc fuel) p e)) (c, e, refl)
  | inr (t, rest, e) ↦
      let turn = finish_ticket_waiting p t kind_failed c (head_counted t p.queued rest e) in
      let fewer = turn.1 ∙ head_unlinked t p.queued rest e in
      let more =
        drain_lem fuel (finish_ticket p t kind_failed) turn.0
          (omega (arith, ap length fewer, ap length e)) in
      subst (λ q. Core q × (Pool.queued q ≡ []) × (Pool.stopping q ≡ p.stopping))
        (sym (drain_cons fuel p t rest e))
        (more.0, more.1, more.2 ∙ finish_ticket_stopping p t kind_failed)
]

-- Everything but the closing of the pool holds, and its closing follows.
pub stop_if_unavailable_lem :
    (p : Pool)
    → Core p
    → (p.stopping ≡ true → p.queued ≡ [])
    → (all_unavailable p.workers ≡ false → poll_ready p ≡ true → notified p.channel ≡ true)
    → WellFormed (stop_if_unavailable p)
unfolding stop_if_unavailable
stop_if_unavailable_lem p c shut signal = elim (Bool-cases (all_unavailable p.workers)) [
  | inl e ↦
      let all =
        drain_lem (length p.queued) (record p { stopping = true }) (Core-flags p true p.channel c)
          (omega arith) in
      rw e (record {
        core = Core-flags (drain (length p.queued) (record p { stopping = true })) _ _ all.0;
        shut = λ _. all.1;
        closed = λ _. all.2;
        signal = set_channel-notified _ _;
      })
  | inr e ↦
      rw e (record { core = c; shut = shut; closed = λ a. ground (arith, a, e); signal = signal e })
]

-- What `finish_current` leaves of the closing and the signal.
pub finish_current_rest :
    (p : Pool) (i : ℕ) (v : Worker) (result : Kind)
    → (p.stopping ≡ true → p.queued ≡ [])
    → (poll_ready p ≡ true → notified p.channel ≡ true)
    → (Pool.stopping (finish_current p i v result) ≡ true
        → Pool.queued (finish_current p i v result) ≡ [])
      × (poll_ready (finish_current p i v result) ≡ true
          → notified (Pool.channel (finish_current p i v result)) ≡ true)
unfolding finish_current finish_ticket finish
finish_current_rest p i v result shut signal = ground arith

pub failure_lem :
    (p : Pool) (i : ℕ) (w : Worker) (text : List ℕ)
    → WellFormed p
    → get_elem? p.workers i ≡ some w
    → WellFormed (failure p i w text)
unfolding failure
failure_lem p i w text f e =
    let v = mark_failed w text in
    let rest = finish_current_rest p i v kind_failed f.shut f.signal in
    stop_if_unavailable_lem (finish_current p i v kind_failed)
      (finish_current-Core p i w v kind_failed f.core e (ground arith) (ground arith)) rest.0
      (λ _. rest.1)
