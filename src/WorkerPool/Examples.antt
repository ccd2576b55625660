-- ===== src/WorkerPool/Examples.antt =====
-- Runs of the pool of native/runtime/worker_pool.cpp with two workers.
use neri.Prelude.{
  ℕ, ◌+◌, ◌≤◌, ◌≡◌, ◌≢◌, refl, [], ◌∷◌, none, some, true, false, length, if◌then◌else◌, arith,
}
use neri.WorkerPool.State.{
  ok, empty, Worker, Pool, Options, Job, find, is_none, kind_success, notified, readable, arrive,
}
use neri.WorkerPool.Queue.{stop, stop_jobs, stop_if_unavailable, drain}
use neri.WorkerPool.Client.{opened, open_status, submit, poll, take_output}
use neri.WorkerPool.Work.{ready, receive, reply, end_run, handed, settle, leave}
use neri.WorkerPool.Invariant.{count, holders, total, waits, runs}
use neri.WorkerPool.Run.{Reachable, start, next, readies, submits, leaves, stops}
use neri.WorkerPool.Guarantees.{
  one_place, within_options, readiness, workers_gone, receive-Oldest, take_reply, Oldest,
}

abbrev two : Options
two = record {
  worker_count = 2;
  max_outstanding = 4;
  max_input_bytes = 8;
  max_output_bytes = 8;
  max_reserved_bytes = 64;
}

abbrev fresh : Worker
fresh = record { current = none; ready = false; exited = false; failed = false; error = [] }

abbrev ready_worker : Worker
ready_worker = record fresh { ready = true }

-- The first worker is ready, and a job has been submitted.
abbrev first : Pool
first = (ready (opened two) 0 fresh).1

abbrev second : Pool
second = (submit first false false false (7 ∷ 8 ∷ [])).2

two_open : open_status two 3 ≡ ok
unfolding open_status
two_open = refl

second-Reachable : Reachable two second
unfolding opened
second-Reachable =
    next first second (next (opened two) first start (readies (opened two) 0 fresh (refl, refl)))
      (submits first false false false (7 ∷ 8 ∷ []))

one_place_example :
    count 1 second.queued + holders 1 second.workers + count 1 second.completed
    ≡ (if is_none (find 1 second.jobs) then 0 else 1)
one_place_example = one_place two 3 second 1 two_open second-Reachable

within_options_example :
    (second.reserved ≡ total second.jobs)
    × (second.reserved ≤ two.max_reserved_bytes)
    × (length second.jobs ≤ two.max_outstanding)
within_options_example = within_options two 3 second two_open second-Reachable

readiness_example :
    ((poll second).0 ≢ empty
      → (notified second.channel ≡ true) × (readable (arrive second.channel) ≡ true))
    × ((poll second).0 ≡ empty → readable (Pool.channel (poll second).2) ≡ false)
readiness_example = readiness two 3 second two_open second-Reachable

receive-Oldest_example : Oldest second 0 ready_worker (receive second 0 ready_worker)
receive-Oldest_example = receive-Oldest two 3 second 0 ready_worker two_open second-Reachable

-- The first worker has the job in hand.
abbrev job_in_hand : Job
job_in_hand = record {
  id = 1;
  reservation = 10;
  kind = kind_success;
  active = true;
  cancelled = false;
  done = false;
  input = 7 ∷ 8 ∷ [];
  output = [];
}

abbrev waiting_job : Job
waiting_job = record job_in_hand { active = false }

abbrev busy : Pool
busy = handed second 0 ready_worker waiting_job

abbrev busy_worker : Worker
busy_worker = record ready_worker { current = some 1 }

busy_job : find 1 busy.jobs ≡ some job_in_hand
unfolding opened ready submit
busy_job = refl

busy_limit : busy.options.max_output_bytes ≡ 8
unfolding opened ready submit
busy_limit = refl

take_reply_example :
    ((take_output (reply busy 0 busy_worker false false (5 ∷ 6 ∷ 7 ∷ [])).1 1 3 false).0 ≡ ok)
    × ((take_output (reply busy 0 busy_worker false false (5 ∷ 6 ∷ 7 ∷ [])).1 1 3 false).1
        ≡ 5 ∷ 6 ∷ 7 ∷ [])
take_reply_example =
    take_reply busy 0 busy_worker 1 job_in_hand (5 ∷ 6 ∷ 7 ∷ []) 3 refl refl busy_job refl refl
      (omega (arith, busy_limit)) (omega arith)

-- The pool is stopped, and both workers leave.
abbrev over : Pool
over = stop (opened two)

abbrev one_left : Pool
one_left = end_run over 0 fresh true

abbrev none_left : Pool
none_left = end_run one_left 1 fresh true

none_left-Reachable : Reachable two none_left
unfolding opened stop stop_jobs end_run settle leave stop_if_unavailable drain
none_left-Reachable =
    next one_left none_left
      (next over one_left (next (opened two) over start (stops (opened two)))
        (leaves over 0 fresh true (refl, refl)))
      (leaves one_left 1 fresh true (refl, refl))

none_left_alive : none_left.alive ≡ 0
unfolding opened stop stop_jobs end_run settle leave stop_if_unavailable drain
none_left_alive = refl

workers_gone_example :
    ((poll none_left).0 ≢ empty)
    × ((k : ℕ) → waits (find k none_left.jobs) + runs (find k none_left.jobs) ≡ 0)
workers_gone_example = workers_gone two 3 none_left two_open none_left-Reachable none_left_alive
