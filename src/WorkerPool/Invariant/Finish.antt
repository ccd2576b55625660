-- ===== src/WorkerPool/Invariant/Finish.antt =====
-- Lemmas on the writes to a job of native/runtime/worker_pool.cpp.
use neri.Prelude.{
  ℕ, zero, suc, ◌≤◌, ◌≡◌, refl, sym, ◌∙◌, subst, List, [], ◌∷◌, Option, none, some, Bool, true,
  false, ◌==◌, if◌then◌else◌, arith, get_elem?, set,
}
use neri.WorkerPool.State.{Channel, Job, Worker, Pool, Kind, find, put}
use neri.WorkerPool.Queue.{append, unlink, finish, kept_output}
use neri.WorkerPool.Invariant.Maps.{
  count, Increasing, count-append, count-unlink, find-put, tickets-put, total-put, length-put,
  Increasing-unlink,
}
use neri.WorkerPool.Invariant.Places.{
  Core, Released, waits, runs, ended, holders, living, holders-set, living-set, Released-set,
  Released-at,
}

-- The pool after one job, the queues and the workers are written.
abbrev pub written :
    Pool → Job → (queued completed : List ℕ) → List Worker → (stopping : Bool) → Channel → Pool
written p j queued completed workers stopping channel = record p {
  jobs = put j p.jobs;
  queued = queued;
  completed = completed;
  workers = workers;
  stopping = stopping;
  channel = channel;
}

pub Core-written :
    (p : Pool) (j old : Job) (queued completed : List ℕ) (workers : List Worker) (b : Bool)
    (s : Channel)
    → Core p
    → find j.id p.jobs ≡ some old
    → j.reservation ≡ old.reservation
    → Increasing 1 p.next_job queued
    → ((k : ℕ)
        → (count k queued ≡ waits (if j.id == k then some j else find k p.jobs))
          × (count k completed ≡ ended (if j.id == k then some j else find k p.jobs))
          × (holders k workers ≡ runs (if j.id == k then some j else find k p.jobs)))
    → living workers ≡ living p.workers
    → Released workers
    → Core (written p j queued completed workers b s)
Core-written p j old queued completed workers b s c e r f places l rel = record {
  numbered = c.numbered;
  ordered = subst (λ ts. Increasing 1 p.next_job ts) (sym (tickets-put j p.jobs)) c.ordered;
  fifo = f;
  placed = λ k. rw (find-put k j p.jobs old e) (places k);
  booked = c.booked ∙ sym (total-put j p.jobs old e r);
  within = c.within;
  outstanding =
      subst (λ n. n ≤ p.options.max_outstanding) (sym (length-put j p.jobs)) c.outstanding;
  counted = c.counted ∙ sym l;
  released = rel;
}

finish_places :
    (p : Pool) (j : Job) (result : Kind) (k : ℕ)
    → Core p
    → find j.id p.jobs ≡ some j
    → j.active ≡ false
    → j.done ≡ false
    → let now = record j { kind = result; done = true; output = kept_output result j.output } in
      (count k (if j.active then p.queued else unlink p.queued j.id)
        ≡ waits (if j.id == k then some now else find k p.jobs))
      × (count k (append p.completed j.id) ≡ ended (if j.id == k then some now else find k p.jobs))
      × (holders k p.workers ≡ runs (if j.id == k then some now else find k p.jobs))
finish_places p j result k c e a d = ground (
  arith,
  c.placed k,
  c.placed j.id,
  count-unlink k p.queued j.id,
  count-append k p.completed j.id,
)

-- A job that waits is finished.
pub finish_waiting :
    (p : Pool) (j : Job) (result : Kind)
    → Core p
    → find j.id p.jobs ≡ some j
    → j.active ≡ false
    → j.done ≡ false
    → Core (finish p j result)
unfolding finish
finish_waiting p j result c e a d =
    Core-written p (record j { kind = result; done = true; output = kept_output result j.output }) j
      (if j.active then p.queued else unlink p.queued j.id) (append p.completed j.id) p.workers
      p.stopping _ c e refl (rw a (Increasing-unlink 1 p.next_job p.queued j.id c.fifo))
      (λ k. finish_places p j result k c e a d) refl c.released

pub waits_job :
    (o : Option Job)
    → 1 ≤ waits o
    → (j : Job) × (o ≡ some j) × (j.active ≡ false) × (j.done ≡ false)
waits_job none h = ground arith
waits_job (some j) h = (j, refl, ground arith, ground arith)

pub runs_job :
    (o : Option Job) → 1 ≤ runs o → (j : Job) × (o ≡ some j) × (j.active ≡ true) × (j.done ≡ false)
runs_job none h = ground arith
runs_job (some j) h = (j, refl, ground arith, ground arith)

pub held :
    (t : ℕ) (ws : List Worker) (i : ℕ) (w : Worker)
    → get_elem? ws i ≡ some w
    → w.current ≡ some t
    → 1 ≤ holders t ws
held t [] i w e c = ground arith
held t (x ∷ xs) zero w e c = ground arith
held t (x ∷ xs) (suc i) w e c = omega (arith, held t xs i w e c)

-- A worker's own fields are written.
pub Core-worker :
    (p : Pool) (i : ℕ) (w v : Worker)
    → Core p
    → get_elem? p.workers i ≡ some w
    → v.current ≡ w.current
    → v.exited ≡ w.exited
    → Core (record p { workers = set p.workers i v })
Core-worker p i w v c e k x = record {
  numbered = c.numbered;
  ordered = c.ordered;
  fifo = c.fifo;
  placed = λ t. ground (arith, c.placed t, holders-set t p.workers i w v e, k);
  booked = c.booked;
  within = c.within;
  outstanding = c.outstanding;
  counted = ground (arith, c.counted, living-set p.workers i w v e, x);
  released =
      Released-set p.workers i v (λ y. k ∙ Released-at p.workers i w e c.released (sym x ∙ y))
        c.released;
}

running_places :
    (p : Pool) (j : Job) (result : Kind) (i : ℕ) (w v : Worker) (k : ℕ)
    → Core p
    → find j.id p.jobs ≡ some j
    → j.active ≡ true
    → j.done ≡ false
    → get_elem? p.workers i ≡ some w
    → w.current ≡ some j.id
    → v.current ≡ none
    → let now = record j { kind = result; done = true; output = kept_output result j.output } in
      (count k (if j.active then p.queued else unlink p.queued j.id)
        ≡ waits (if j.id == k then some now else find k p.jobs))
      × (count k (append p.completed j.id) ≡ ended (if j.id == k then some now else find k p.jobs))
      × (holders k (set p.workers i v) ≡ runs (if j.id == k then some now else find k p.jobs))
running_places p j result i w v k c e a d h u n = ground (
  arith,
  c.placed k,
  c.placed j.id,
  count-append k p.completed j.id,
  holders-set k p.workers i w v h,
)

-- A job in hand is finished, and its worker has nothing in hand.
pub finish_running :
    (p : Pool) (j : Job) (result : Kind) (i : ℕ) (w v : Worker)
    → Core p
    → find j.id p.jobs ≡ some j
    → j.active ≡ true
    → j.done ≡ false
    → get_elem? p.workers i ≡ some w
    → w.current ≡ some j.id
    → v.current ≡ none
    → v.exited ≡ w.exited
    → Core (record (finish p j result) { workers = set p.workers i v })
unfolding finish
finish_running p j result i w v c e a d h u n x =
    Core-written p (record j { kind = result; done = true; output = kept_output result j.output }) j
      (if j.active then p.queued else unlink p.queued j.id) (append p.completed j.id)
      (set p.workers i v) p.stopping _ c e refl (rw a c.fifo)
      (λ k. running_places p j result i w v k c e a d h u n)
      (ground (arith, living-set p.workers i w v h))
      (Released-set p.workers i v (λ y. n) c.released)
