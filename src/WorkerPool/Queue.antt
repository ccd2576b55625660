-- ===== src/WorkerPool/Queue.antt =====
-- The helpers of native/runtime/worker_pool.cpp that both sides call under the mutex: the queues,
-- `finish`, `stop_if_unavailable`, `failure` and `stop`.
use neri.Prelude.{
  ℕ, zero, suc, List, [], ◌∷◌, ◌++◌, none, some, Bool, true, ◌&&◌, ◌||◌, ◌==◌, if◌then◌else◌,
  length, set, take, map,
}
use neri.WorkerPool.State.{
  Job, Worker, Pool, Kind, kind_success, kind_failed, kind_cancelled, find, put, set_readiness,
}

-- `append`: the job becomes the tail.
abbrev pub append : List ℕ → ℕ → List ℕ
append queue ticket = queue ++ (ticket ∷ [])

-- `unlink`.
abbrev pub unlink : List ℕ → ℕ → List ℕ
unlink [] ticket = []
unlink (t ∷ ts) ticket = if t == ticket then ts else t ∷ unlink ts ticket

-- The output of a job that ends with a kind.
abbrev pub kept_output : Kind → List ℕ → List ℕ
kept_output kind_success bytes = bytes
kept_output kind_failed bytes = []
kept_output kind_cancelled bytes = []

unfoldable pub finish : Pool → Job → Kind → Pool
finish p j result = set_readiness (record p {
  queued = if j.active then p.queued else unlink p.queued j.id;
  jobs = put (record j { kind = result; done = true; output = kept_output result j.output }) p.jobs;
  completed = append p.completed j.id;
})

-- Whether every worker has failed or left.
abbrev pub all_unavailable : List Worker → Bool
all_unavailable [] = true
all_unavailable (w ∷ ws) = (w.failed || w.exited) && all_unavailable ws

-- `finish` of the job with a ticket.
unfoldable pub finish_ticket : Pool → ℕ → Kind → Pool
finish_ticket p ticket result = elim (find ticket p.jobs) [ none ↦ p | some j ↦ finish p j result ]

-- The loop over the queue's head, on fuel.
unfoldable pub drain : ℕ → Pool → Pool
drain zero p = p
drain (suc fuel) p = elim p.queued [
  | [] ↦ p
  | ticket ∷ rest ↦ drain fuel (finish_ticket p ticket kind_failed)
]

unfoldable pub stop_if_unavailable : Pool → Pool
stop_if_unavailable p =
    if all_unavailable p.workers
    then set_readiness (drain (length p.queued) (record p { stopping = true }))
    else p

-- The bytes of the array that a worker keeps its failure in.
abbrev pub error_size : ℕ
error_size = 4096

abbrev pub mark_failed : Worker → List ℕ → Worker
mark_failed w text =
    if w.failed then w else record w { failed = true; error = take error_size text }

-- The end of the job in hand, if there is one.
unfoldable pub finish_current : Pool → ℕ → Worker → Kind → Pool
finish_current p i w result = elim w.current [
  | none ↦ record p { workers = set p.workers i w }
  | some ticket ↦ record (finish_ticket p ticket result) {
    workers = set p.workers i (record w { current = none });
  }
]

unfoldable pub failure : Pool → ℕ → Worker → List ℕ → Pool
failure p i w text = stop_if_unavailable (finish_current p i (mark_failed w text) kind_failed)

-- One turn of the loop of `stop`.
unfoldable pub stop_job : Pool → ℕ → Pool
stop_job p ticket = elim (find ticket p.jobs) [
  | none ↦ p
  | some j ↦
      if j.done
      then p
      else (let marked = record j { cancelled = true } in
          let q = record p { jobs = put marked p.jobs } in
          if j.active then q else finish q marked kind_cancelled)
]

unfoldable pub stop_jobs : Pool → List ℕ → Pool
stop_jobs p [] = p
stop_jobs p (ticket ∷ tickets) = stop_jobs (stop_job p ticket) tickets

abbrev pub tickets : List Job → List ℕ
tickets js = map (λ j. Job.id j) js

unfoldable pub stop : Pool → Pool
stop p = set_readiness (stop_jobs (record p { stopping = true }) (tickets p.jobs))
