-- ===== src/WorkerPool/Invariant/Places.antt =====
-- Where the pool of native/runtime/worker_pool.cpp keeps each job: in the queue, in the hands of a
-- worker, or among the completions.
use neri.Prelude.{
  ℕ, zero, suc, ◌+◌, ◌≤◌, ◌≡◌, refl, List, [], ◌∷◌, Option, none, some, Bool, true, ◌==◌,
  if◌then◌else◌, length, arith, get_elem?, set,
}
use neri.WorkerPool.State.{Channel, notified, Job, Worker, Pool, find, poll_ready}
use neri.WorkerPool.Queue.{tickets, all_unavailable}
use neri.WorkerPool.Invariant.Maps.{count, Increasing, total}

-- Whether the job that was found waits, is in hand, or is done.
abbrev pub waits : Option Job → ℕ
waits none = 0
waits (some j) = if j.done then 0 else if j.active then 0 else 1

abbrev pub runs : Option Job → ℕ
runs none = 0
runs (some j) = if j.done then 0 else if j.active then 1 else 0

abbrev pub ended : Option Job → ℕ
ended none = 0
ended (some j) = if j.done then 1 else 0

-- Whether a ticket is the one in hand.
abbrev pub holds : ℕ → Option ℕ → ℕ
holds k none = 0
holds k (some t) = if t == k then 1 else 0

abbrev pub holders : ℕ → List Worker → ℕ
holders k [] = 0
holders k (w ∷ ws) = holds k w.current + holders k ws

-- The workers that have not left.
abbrev pub living : List Worker → ℕ
living [] = 0
living (w ∷ ws) = (if w.exited then 0 else 1) + living ws

-- A worker that has left has no job in hand.
abbrev pub Released : List Worker → Type 0
Released [] = Unit
Released (w ∷ ws) = (w.exited ≡ true → w.current ≡ none) × Released ws

abbrev pub Placed : List Job → (queued completed : List ℕ) → List Worker → Type 0
Placed jobs queued completed workers =
    (k : ℕ)
    → (count k queued ≡ waits (find k jobs))
      × (count k completed ≡ ended (find k jobs))
      × (holders k workers ≡ runs (find k jobs))

-- What holds of a pool at each write.
pub record Core (p : Pool) : Type 0 where
  pub numbered : 1 ≤ p.next_job
  pub ordered : Increasing 1 p.next_job (tickets p.jobs)
  pub fifo : Increasing 1 p.next_job p.queued
  pub placed : Placed p.jobs p.queued p.completed p.workers
  pub booked : p.reserved ≡ total p.jobs
  pub within : p.reserved ≤ p.options.max_reserved_bytes
  pub outstanding : length p.jobs ≤ p.options.max_outstanding
  pub counted : p.alive ≡ living p.workers
  pub released : Released p.workers

-- What holds besides at the end of a call.
pub record WellFormed (p : Pool) : Type 0 where
  pub core : Core p
  pub shut : p.stopping ≡ true → p.queued ≡ []
  pub closed : all_unavailable p.workers ≡ true → p.stopping ≡ true
  pub signal : poll_ready p ≡ true → notified p.channel ≡ true

pub holders-set :
    (k : ℕ) (ws : List Worker) (i : ℕ) (w v : Worker)
    → get_elem? ws i ≡ some w
    → holders k (set ws i v) + holds k w.current ≡ holders k ws + holds k v.current
holders-set k [] i w v e = ground arith
holders-set k (x ∷ xs) zero w v e = ground arith
holders-set k (x ∷ xs) (suc i) w v e = omega (arith, holders-set k xs i w v e)

pub living-set :
    (ws : List Worker) (i : ℕ) (w v : Worker)
    → get_elem? ws i ≡ some w
    → living (set ws i v) + (if w.exited then 0 else 1) ≡ living ws + (if v.exited then 0 else 1)
living-set [] i w v e = ground arith
living-set (x ∷ xs) zero w v e = ground arith
living-set (x ∷ xs) (suc i) w v e = omega (arith, living-set xs i w v e)

pub Released-set :
    (ws : List Worker) (i : ℕ) (v : Worker)
    → (v.exited ≡ true → v.current ≡ none)
    → Released ws
    → Released (set ws i v)
Released-set [] i v h r = tt
Released-set (x ∷ xs) zero v h r = (h, r.1)
Released-set (x ∷ xs) (suc i) v h r = (r.0, Released-set xs i v h r.1)

-- Once nobody lives, everybody is unavailable, and no ticket is in hand.
pub all_gone : (ws : List Worker) → living ws ≡ 0 → all_unavailable ws ≡ true
all_gone [] e = refl
all_gone (w ∷ ws) e = ground (arith, all_gone ws)

pub none_held : (k : ℕ) (ws : List Worker) → Released ws → living ws ≡ 0 → holders k ws ≡ 0
none_held k [] r e = refl
none_held k (w ∷ ws) r e = grind (arith, none_held k ws)

pub Released-at :
    (ws : List Worker) (i : ℕ) (w : Worker)
    → get_elem? ws i ≡ some w
    → Released ws
    → w.exited ≡ true
    → w.current ≡ none
Released-at [] i w e r x = ground arith
Released-at (v ∷ vs) zero w e r x = grind arith
Released-at (v ∷ vs) (suc i) w e r x = Released-at vs i w e r.1 x

-- The flags are written.
pub Core-flags :
    (p : Pool) (b : Bool) (s : Channel) → Core p → Core (record p { stopping = b; channel = s })
Core-flags p b s c = record {
  numbered = c.numbered;
  ordered = c.ordered;
  fifo = c.fifo;
  placed = c.placed;
  booked = c.booked;
  within = c.within;
  outstanding = c.outstanding;
  counted = c.counted;
  released = c.released;
}
