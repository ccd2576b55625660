-- ===== src/WorkerPool/Client.antt =====
-- The calls of the owner in native/runtime/worker_pool.cpp. A null pointer and an exhausted memory
-- are arguments; `lookup`, which finds the pool of a handle, comes before each call.
use neri.Prelude.{
  ℕ, ◌+◌, ◌-◌, ◌*◌, List, [], ◌∷◌, ◌++◌, Option, none, some, Bool, true, false, ◌&&◌, ◌||◌, not,
  ◌==◌, if◌then◌else◌, length, ltb, leb, replicate,
}
use neri.WorkerPool.State.{
  silent, Status, ok, empty, stopped, full, invalid, limit, no_memory, Job, Worker, Pool, Options,
  Kind, kind_success, kind_cancelled, find, put, erase, is_empty, poll_ready, set_readiness,
}
use neri.WorkerPool.Queue.{append, unlink, finish}

abbrev pub mib : ℕ
mib = 1048576

-- The guards on the options and the configuration when a pool is opened.
unfoldable pub open_status : Options → (config_length : ℕ) → Status
open_status o config_length =
    if o.worker_count == 0
      || ltb 64 o.worker_count
      || o.max_outstanding == 0
      || ltb 65536 o.max_outstanding
      || ltb (128 * mib) o.max_input_bytes
      || ltb (128 * mib) o.max_output_bytes
      || ltb (1024 * mib) o.max_reserved_bytes
      || ltb mib config_length
    then limit
    else ok

-- A pool whose threads have all been started.
unfoldable pub opened : Options → Pool
opened o = record {
  options = o;
  workers =
      replicate o.worker_count
        (record { current = none; ready = false; exited = false; failed = false; error = [] });
  jobs = [];
  next_job = 1;
  queued = [];
  completed = [];
  reserved = 0;
  alive = o.worker_count;
  stopping = false;
  channel = silent;
}

-- UINT64_MAX.
abbrev pub last_ticket : ℕ
last_ticket = 18446744073709551615

-- The job that `submit` makes.
abbrev pub new_job : Pool → List ℕ → Job
new_job p bytes = record {
  id = p.next_job;
  reservation = length bytes + p.options.max_output_bytes;
  kind = kind_success;
  active = false;
  cancelled = false;
  done = false;
  input = bytes;
  output = [];
}

abbrev pub accepted : Pool → List ℕ → Pool
accepted p bytes = record p {
  jobs = p.jobs ++ (new_job p bytes ∷ []);
  queued = append p.queued p.next_job;
  reserved = p.reserved + (length bytes + p.options.max_output_bytes);
  next_job = p.next_job + 1;
}

unfoldable pub submit : Pool → (no_out no_bytes out_of_memory : Bool) → List ℕ → Status × ℕ × Pool
submit p no_out no_bytes out_of_memory bytes =
    let size = length bytes in
    let reservation = size + p.options.max_output_bytes in
    let most = p.options.max_reserved_bytes in
    if no_out || (not (size == 0) && no_bytes)
    then (invalid, 0, p)
    else if p.stopping || p.alive == 0
    then (stopped, 0, p)
    else if ltb p.options.max_input_bytes size
    then (limit, 0, p)
    else if leb p.options.max_outstanding (length p.jobs)
        || ltb most reservation
        || ltb (most - reservation) p.reserved
    then (full, 0, p)
    else if p.next_job == last_ticket
    then (limit, 0, p)
    else if out_of_memory
    then (no_memory, 0, p)
    else (ok, p.next_job, accepted p bytes)

-- neri_worker_completion_v1: the ticket, the size of the output and the kind.
pub record Completion : Type 0 where
  pub ticket : ℕ
  pub output_size : ℕ
  pub result : Kind

-- `poll` after its wait, which ends when `poll_ready` holds or the time is over.
unfoldable pub poll : Pool → Status × Option Completion × Pool
poll p = elim p.completed [
  | [] ↦ (if poll_ready p then stopped else empty, none, set_readiness p)
  | ticket ∷ rest ↦ elim (find ticket p.jobs) [
    | none ↦ (invalid, none, p)
    | some j ↦ (
      ok,
      some (record { ticket = j.id; output_size = length j.output; result = j.kind }),
      set_readiness p,
    )
  ]
]

abbrev pub taken : Pool → Job → Pool
taken p j = set_readiness (record p {
  completed = unlink p.completed j.id;
  reserved = p.reserved - j.reservation;
  jobs = erase j.id p.jobs;
})

unfoldable pub take_output : Pool → (ticket capacity : ℕ) → (no_out : Bool) → Status × List ℕ × Pool
take_output p ticket capacity no_out = elim (find ticket p.jobs) [
  | none ↦ (invalid, [], p)
  | some j ↦
      if not j.done
      then (empty, [], p)
      else if ltb capacity (length j.output)
      then (limit, [], p)
      else if not (is_empty j.output) && no_out
      then (invalid, [], p)
      else (ok, j.output, taken p j)
]

unfoldable pub cancel : Pool → ℕ → Status × Pool
cancel p ticket = elim (find ticket p.jobs) [
  | none ↦ (invalid, p)
  | some j ↦
      if j.done
      then (ok, p)
      else (let marked = record j { cancelled = true } in
          let q = record p { jobs = put marked p.jobs } in
          (ok, if j.active then q else finish q marked kind_cancelled))
]

-- neri_worker_close_report_v1: the number of failures and the text of the first.
pub record Report : Type 0 where
  pub failures : ℕ
  pub first_error : List ℕ

-- The loop of `join` over the workers, all of whose threads have ended.
unfoldable pub report : List Worker → Report → Report
report [] r = r
report (w ∷ ws) r = report ws (
    if w.failed
    then record {
      failures = r.failures + 1;
      first_error = if r.failures == 0 then w.error else r.first_error;
    }
    else r)
