-- ===== src/WorkerPool/Guarantees.antt =====
-- The pool of native/runtime/worker_pool.cpp in every order of its calls.
use neri.Prelude.{
  ℕ, zero, suc, ◌+◌, ◌≤◌, ◌≡◌, ◌≢◌, refl, sym, ◌∙◌, subst, List, [], ◌∷◌, Option, none, some, true,
  false, if◌then◌else◌, length, arith, Bool-cases, inl, inr, replicate, Bool,
}
use neri.WorkerPool.State.{
  Status, ok, empty, Job, Worker, Pool, Options, find, put, poll_ready, is_empty, is_none,
  kind_success, Channel, silent, sent, arrived, notified, readable, set_channel, arrive,
}
use neri.WorkerPool.Queue.{all_unavailable, finish}
use neri.WorkerPool.Client.{poll, take_output, opened, open_status}
use neri.WorkerPool.Work.{receive, reply, handed, answered}
use neri.WorkerPool.Invariant.{
  WellFormed, count, total, holders, living, Released, waits, runs, ended, all_gone, none_held,
  List-cases, head_counted, receive_cases, find_id, Increasing, find-put, waits_job,
}
use neri.WorkerPool.Settings.{Reachable-options}
use neri.WorkerPool.Run.{Reachable, start, next, Step-WellFormed}

abbrev idle : Worker
idle = record { current = none; ready = false; exited = false; failed = false; error = [] }

holders-idle : (k n : ℕ) → holders k (replicate n idle) ≡ 0
holders-idle k zero = refl
holders-idle k (suc n) = omega (arith, holders-idle k n)

living-idle : (n : ℕ) → living (replicate n idle) ≡ n
living-idle zero = refl
living-idle (suc n) = omega (arith, living-idle n)

Released-idle : (n : ℕ) → Released (replicate n idle)
Released-idle zero = tt
Released-idle (suc n) = (λ _. refl, Released-idle n)

some_worker :
    (o : Options) (config_length : ℕ) → open_status o config_length ≡ ok → 1 ≤ o.worker_count
unfolding open_status
some_worker o n h = ground (arith, h)

opened-WellFormed :
    (o : Options) (config_length : ℕ) → open_status o config_length ≡ ok → WellFormed (opened o)
unfolding opened open_status
opened-WellFormed o config_length h = record {
  core = record {
    numbered = omega arith;
    ordered = tt;
    fifo = tt;
    placed = λ k. (refl, refl, holders-idle k o.worker_count);
    booked = refl;
    within = omega arith;
    outstanding = omega arith;
    counted = sym (living-idle o.worker_count);
    released = Released-idle o.worker_count;
  };
  shut = λ _. refl;
  closed = some_available o.worker_count (some_worker o config_length h);
  signal = ground (arith, some_worker o config_length h);
}
  where
    some_available : (n : ℕ) → 1 ≤ n → all_unavailable (replicate n idle) ≡ true → false ≡ true
    some_available zero l e = absurd (omega arith)
    some_available (suc n) l e = e

Reachable-WellFormed :
    (o : Options) (config_length : ℕ) (p : Pool)
    → open_status o config_length ≡ ok
    → Reachable o p
    → WellFormed p
Reachable-WellFormed o n _ h start = opened-WellFormed o n h
Reachable-WellFormed o n _ h (next p q r s) = Step-WellFormed p q s (Reachable-WellFormed o n p h r)

-- In every order of calls, each outstanding ticket is in exactly one place, once: in the queue, in
-- the hands of one worker, or among the completions; a ticket that is not outstanding is in none.
pub one_place :
    (o : Options) (config_length : ℕ) (p : Pool) (ticket : ℕ)
    → open_status o config_length ≡ ok
    → Reachable o p
    → count ticket p.queued + holders ticket p.workers + count ticket p.completed
      ≡ (if is_none (find ticket p.jobs) then 0 else 1)
one_place o n p t h r = ground (arith, (Reachable-WellFormed o n p h r).core.placed t)

-- In every order of calls, the memory that the pool counts as reserved is the sum of the
-- reservations of its outstanding jobs, and neither it nor their number exceeds the options that it
-- was opened with.
pub within_options :
    (o : Options) (config_length : ℕ) (p : Pool)
    → open_status o config_length ≡ ok
    → Reachable o p
    → (p.reserved ≡ total p.jobs)
      × (p.reserved ≤ o.max_reserved_bytes)
      × (length p.jobs ≤ o.max_outstanding)
within_options o n p h r =
    let c = (Reachable-WellFormed o n p h r).core in
    let same = Reachable-options o p r in
    (
      c.booked,
      subst (λ q. p.reserved ≤ q.max_reserved_bytes) same c.within,
      subst (λ q. length p.jobs ≤ q.max_outstanding) same c.outstanding,
    )

ended_job : (o : Option Job) → 1 ≤ ended o → (j : Job) × (o ≡ some j)
ended_job none h = ground arith
ended_job (some j) h = (j, refl)

-- What a poll answers: nothing yet, exactly when it is not ready.
poll_ready_lem :
    (p : Pool)
    → WellFormed p
    → (poll_ready p ≡ true → (poll p).0 ≢ empty) × (poll_ready p ≡ false → (poll p).0 ≡ empty)
unfolding poll
poll_ready_lem p f = elim (List-cases p.completed) [
  | inl e ↦ (λ r. ground (arith, r, e), λ r. ground (arith, r, e))
  | inr (t, rest, e) ↦
      let found =
        ended_job (find t p.jobs)
          (subst (λ n. 1 ≤ n) (f.core.placed t).1 (head_counted t p.completed rest e)) in
      (λ r. ground (arith, r, e, found.1), λ r. ground (arith, r, e, found.1))
]

arrive-readable : (c : Channel) → notified c ≡ true → readable (arrive c) ≡ true
arrive-readable silent h = h
arrive-readable sent h = refl
arrive-readable arrived h = refl

reset-unreadable :
    (ready : Bool) (c : Channel) → ready ≡ false → readable (set_channel ready c) ≡ false
reset-unreadable true c h = absurd (ground (arith, h))
reset-unreadable false silent h = refl
reset-unreadable false sent h = refl
reset-unreadable false arrived h = refl

-- A poll that answers "empty" resets the channel.
poll_resets :
    (p : Pool)
    → poll_ready p ≡ false
    → Pool.channel (poll p).2 ≡ set_channel (poll_ready p) p.channel
unfolding poll
poll_resets p r = elim (List-cases p.completed) [
  | inl e ↦ ground (arith, r, e)
  | inr (t, rest, e) ↦ absurd (ground (arith, r, e))
]

-- In every order of calls and of arrivals of the channel's bytes: whenever a poll would not answer
-- "empty", the channel has sent a notification, so that its descriptor is readable at the latest once the
-- byte has arrived, and the owner that waits for it misses neither a completion nor the end of the pool.
-- After a poll that answers "empty" the descriptor is not readable until a byte arrives.
pub readiness :
    (o : Options) (config_length : ℕ) (p : Pool)
    → open_status o config_length ≡ ok
    → Reachable o p
    → ((poll p).0 ≢ empty → (notified p.channel ≡ true) × (readable (arrive p.channel) ≡ true))
      × ((poll p).0 ≡ empty → readable (Pool.channel (poll p).2) ≡ false)
readiness o n p h r =
    let f = Reachable-WellFormed o n p h r in
    let lem = poll_ready_lem p f in
    elim (Bool-cases (poll_ready p)) [
      | inl e ↦ (λ _. (f.signal e, arrive-readable p.channel (f.signal e)), λ s. absurd (lem.0 e s))
      | inr e ↦ (
        λ s. absurd (s (lem.1 e)),
        λ _.
            subst (λ c. readable c ≡ false) (sym (poll_resets p e))
              (reset-unreadable (poll_ready p) p.channel e),
      )
    ]

nothing_open :
    (js : List Job)
    → ((k : ℕ) → waits (find k js) + runs (find k js) ≡ 0)
    → is_empty js ≡ false
    → (k : ℕ) × (ended (find k js) ≡ 1)
nothing_open [] h e = absurd (ground (arith, e))
nothing_open (j ∷ js) h e = (j.id, ground (arith, h j.id))

some_counted : (k : ℕ) (xs : List ℕ) → 1 ≤ count k xs → is_empty xs ≡ false
some_counted k [] h = ground arith
some_counted k (x ∷ xs) h = refl

-- In every order of calls, once all workers have left, a poll does not answer "empty", and no
-- outstanding job waits or is in hand.
pub workers_gone :
    (o : Options) (config_length : ℕ) (p : Pool)
    → open_status o config_length ≡ ok
    → Reachable o p
    → p.alive ≡ 0
    → ((poll p).0 ≢ empty) × ((k : ℕ) → waits (find k p.jobs) + runs (find k p.jobs) ≡ 0)
workers_gone o n p h r a =
    let f = Reachable-WellFormed o n p h r in
    let gone = sym f.core.counted ∙ a in
    let empty_queue = f.shut (f.closed (all_gone p.workers gone)) in
    let settled : (k : ℕ) → waits (find k p.jobs) + runs (find k p.jobs) ≡ 0 = λ k.
      ground (arith, f.core.placed k, none_held k p.workers f.core.released gone, empty_queue) in
    let ready : poll_ready p ≡ true = elim (Bool-cases (is_empty p.jobs)) [
      | inl e ↦ ground (arith, e, a)
      | inr e ↦
          let done = nothing_open p.jobs settled e in
          ground (
            arith,
            some_counted done.0 p.completed (omega (arith, (f.core.placed done.0).1, done.1)),
          )
    ] in
    ((poll_ready_lem p f).0 ready, settled)

least : (k low high : ℕ) (xs : List ℕ) → Increasing low high xs → 1 ≤ count k xs → low ≤ k
least k low high [] i h = absurd (omega arith)
least k low high (x ∷ xs) i h = ground (arith, i, h, least k (x + 1) high xs)

from_head :
    (id t high : ℕ) (xs rest : List ℕ)
    → id ≡ t
    → xs ≡ t ∷ rest
    → Increasing 1 high xs
    → Increasing id high xs
from_head id t high xs rest same e i =
    let j = subst (λ ys. Increasing 1 high ys) e i in
    subst (λ ys. Increasing id high ys) (sym e) (omega (arith, same), j.1, j.2)

-- Of the job that an answer hands out: it was waiting, the answer has its input's size and the pool
-- that gives it to the worker, and no job that was waiting has a lower ticket.
unfoldable pub Oldest : Pool → ℕ → Worker → Option (Status × ℕ × Pool) → Type 0
Oldest p i w none = Unit
Oldest p i w (some r) =
    r.0 ≡ ok
    → (j : Job) × (find j.id p.jobs ≡ some j)
      × (waits (some j) ≡ 1)
      × (r.1 ≡ length j.input)
      × (r.2 ≡ handed p i w j)
      × ((k : ℕ) → 1 ≤ waits (find k p.jobs) → j.id ≤ k)

-- In every order of calls, a worker that is handed a job is handed the waiting job with the lowest
-- ticket: jobs are started in the order in which they were submitted.
pub receive-Oldest :
    (o : Options) (config_length : ℕ) (p : Pool) (i : ℕ) (w : Worker)
    → open_status o config_length ≡ ok
    → Reachable o p
    → Oldest p i w (receive p i w)
unfolding Oldest
receive-Oldest o n p i w h r =
    let c = (Reachable-WellFormed o n p h r).core in
    receive_cases (λ a. Oldest p i w a) p i w tt (λ e. ground (arith, e)) (λ e. ground (arith, e))
      (λ t rest j free q e _.
        let same = find_id t p.jobs j e in
        let waiting = (c.placed t).0 in
        (
          j,
          subst (λ m. find m p.jobs ≡ some j) (sym same) e,
          ground (
            arith,
            waits_job (find t p.jobs) (subst (λ m. 1 ≤ m) waiting (head_counted t p.queued rest q)),
            e,
          ),
          refl,
          refl,
          λ k l.
              least k j.id p.next_job p.queued
                (from_head j.id t p.next_job p.queued rest same q c.fifo)
                (subst (λ m. 1 ≤ m) (sym (c.placed k).0) l),
        ))

-- What the job in hand becomes with a reply that is not empty.
abbrev replied_job : Job → List ℕ → Job
replied_job j bytes = record j { kind = kind_success; done = true; output = bytes }

reply_job :
    (p : Pool) (i : ℕ) (w : Worker) (t : ℕ) (j : Job) (bytes : List ℕ)
    → w.failed ≡ false
    → w.current ≡ some t
    → find t p.jobs ≡ some j
    → j.cancelled ≡ false
    → is_empty bytes ≡ false
    → length bytes ≤ p.options.max_output_bytes
    → Pool.jobs (reply p i w false false bytes).1
      ≡ put (replied_job j bytes) (put (answered j bytes) p.jobs)
unfolding reply finish
reply_job p i w t j bytes f n e c b l = ground arith

put_found :
    (t : ℕ) (j k : Job) (js : List Job) (old : Job)
    → j.id ≡ t
    → k.id ≡ t
    → find t js ≡ some old
    → find t (put j (put k js)) ≡ some j
put_found t j k js old a b e =
    let inner = find-put t k js old (subst (λ m. find m js ≡ some old) (sym b) e) in
    ground (
      arith,
      inner,
      find-put t j (put k js) k
          (subst (λ m. find m (put k js) ≡ some k) (sym a) (inner ∙ ground (arith, b))),
    )

take_done :
    (q : Pool) (t capacity : ℕ) (j : Job)
    → find t q.jobs ≡ some j
    → j.done ≡ true
    → length j.output ≤ capacity
    → ((take_output q t capacity false).0 ≡ ok) × ((take_output q t capacity false).1 ≡ j.output)
unfolding take_output
take_done q t capacity j e d l = ground arith

-- The bytes that a worker replies with, when there are some, they are within the limit and the job
-- has not been cancelled, are the bytes that the owner takes for its ticket, if they fit.
pub take_reply :
    (p : Pool) (i : ℕ) (w : Worker) (t : ℕ) (j : Job) (bytes : List ℕ) (capacity : ℕ)
    → w.failed ≡ false
    → w.current ≡ some t
    → find t p.jobs ≡ some j
    → j.cancelled ≡ false
    → is_empty bytes ≡ false
    → length bytes ≤ p.options.max_output_bytes
    → length bytes ≤ capacity
    → ((take_output (reply p i w false false bytes).1 t capacity false).0 ≡ ok)
      × ((take_output (reply p i w false false bytes).1 t capacity false).1 ≡ bytes)
take_reply p i w t j bytes capacity f n e c b l m =
    let same = find_id t p.jobs j e in
    take_done (reply p i w false false bytes).1 t capacity (replied_job j bytes)
      (subst (λ js. find t js ≡ some (replied_job j bytes))
        (sym (reply_job p i w t j bytes f n e c b l))
        (put_found t (replied_job j bytes) (answered j bytes) p.jobs j same same e))
      refl m
