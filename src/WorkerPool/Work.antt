-- ===== src/WorkerPool/Work.antt =====
-- The calls of a worker's thread in native/runtime/worker_pool.cpp, and the end of `run`. `i` is the
-- worker's place in the pool and `w` the worker.
use neri.Prelude.{
  ℕ, ◌-◌, List, [], ◌∷◌, Option, none, some, Bool, true, false, ◌&&◌, ◌||◌, not, if◌then◌else◌,
  length, ltb, set, codes, get_elem?,
}
use neri.WorkerPool.State.{
  Status, ok, stopped, invalid, limit, no_memory, Job, Worker, Pool, kind_success, kind_cancelled,
  find, put, is_empty, is_none,
}
use neri.WorkerPool.Queue.{unlink, finish, finish_current, failure, stop_if_unavailable}

abbrev pub write_worker : Pool → ℕ → Worker → Pool
write_worker p i w = record p { workers = set p.workers i w }

unfoldable pub ready : Pool → ℕ → Worker → Status × Pool
ready p i w =
    if w.failed || w.ready
    then (invalid, p)
    else if p.stopping
    then (stopped, p)
    else (ok, write_worker p i (record w { ready = true }))

-- The pool in which the worker has the job in hand.
abbrev pub handed : Pool → ℕ → Worker → Job → Pool
handed p i w j = record p {
  workers = set p.workers i (record w { current = some j.id });
  queued = unlink p.queued j.id;
  jobs = put (record j { active = true }) p.jobs;
}

-- `receive` after its wait: none while the pool does not stop and no job is queued.
unfoldable pub receive : Pool → ℕ → Worker → Option (Status × ℕ × Pool)
receive p i w =
    if not w.ready || w.failed || not (is_none w.current)
    then some (invalid, 0, p)
    else if p.stopping
    then some (stopped, 0, p)
    else elim p.queued [
      | [] ↦ none
      | ticket ∷ rest ↦ elim (find ticket p.jobs) [
        | none ↦ some (invalid, 0, p)
        | some j ↦ some (ok, length j.input, handed p i w j)
      ]
    ]

unfoldable pub read_input : Pool → Worker → (capacity : ℕ) → (no_out : Bool) → Status × List ℕ
read_input p w capacity no_out = elim w.current [
  | none ↦ (invalid, [])
  | some ticket ↦ elim (find ticket p.jobs) [
    | none ↦ (invalid, [])
    | some j ↦
        if w.failed
        then (invalid, [])
        else if ltb capacity (length j.input)
        then (limit, [])
        else if not (is_empty j.input) && no_out
        then (invalid, [])
        else (ok, j.input)
  ]
]

-- The job with the bytes of a reply; a cancelled job keeps its own.
abbrev pub answered : Job → List ℕ → Job
answered j bytes = record j {
  output = if not j.cancelled && not (is_empty bytes) then bytes else j.output;
}

abbrev pub replied : Pool → ℕ → Worker → Job → List ℕ → Pool
replied p i w j bytes =
    write_worker
      (finish (record p { jobs = put (answered j bytes) p.jobs }) (answered j bytes)
        (if j.cancelled then kind_cancelled else kind_success))
      i (record w { current = none })

unfoldable pub reply : Pool → ℕ → Worker → (no_bytes out_of_memory : Bool) → List ℕ → Status × Pool
reply p i w no_bytes out_of_memory bytes =
    if not (is_empty bytes) && no_bytes then (invalid, p) else elim w.current [
      | none ↦ (invalid, p)
      | some ticket ↦ elim (find ticket p.jobs) [
        | none ↦ (invalid, p)
        | some j ↦
            if w.failed
            then (invalid, p)
            else if ltb p.options.max_output_bytes (length bytes)
            then (limit, p)
            else if not j.cancelled && not (is_empty bytes) && out_of_memory
            then (no_memory, p)
            else (ok, replied p i w j bytes)
      ]
    ]

abbrev pub current_cancelled : Pool → Worker → Bool
current_cancelled p w = elim w.current [
  | none ↦ false
  | some ticket ↦ elim (find ticket p.jobs) [ none ↦ false | some j ↦ j.cancelled ]
]

unfoldable pub cancelled : Pool → Worker → Bool
cancelled p w = p.stopping || w.failed || current_cancelled p w

unfoldable pub fail : Pool → ℕ → Worker → (no_detail : Bool) → List ℕ → Status × Pool
fail p i w no_detail detail =
    if not (is_empty detail) && no_detail then (invalid, p) else (ok, failure p i w detail)

-- The end of `run` up to the write of `exited`.
unfoldable pub settle : Pool → ℕ → Worker → (initialized : Bool) → Pool
settle p i w initialized =
    if not initialized
    then failure p i w (codes "worker runtime initialization failed")
    else if not w.ready && not p.stopping
    then failure p i w (codes "worker exited before ready")
    else if not (is_none w.current)
    then (if current_cancelled p w
        then finish_current p i w kind_cancelled
        else failure p i w (codes "worker exited with an active job"))
    else if not p.stopping && not w.failed
    then failure p i w (codes "worker exited before stop")
    else p

unfoldable pub leave : Pool → ℕ → Pool
leave p i = elim (get_elem? p.workers i) [
  | none ↦ p
  | some w ↦
      stop_if_unavailable
        (record (write_worker p i (record w { exited = true })) { alive = p.alive - 1 })
]

unfoldable pub end_run : Pool → ℕ → Worker → (initialized : Bool) → Pool
end_run p i w initialized = leave (settle p i w initialized) i
