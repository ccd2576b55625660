-- ===== src/WorkerPool/Settings.antt =====
-- The calls of native/runtime/worker_pool.cpp do not write the options of a pool.
use neri.Prelude.{
  ℕ, zero, suc, ◌-◌, ◌≡◌, refl, ap, ◌∙◌, subst, List, [], ◌∷◌, Bool, true, arith, length, inl, inr,
  Option-cases, get_elem?,
}
use neri.WorkerPool.State.{Worker, Pool, Options, Kind, kind_failed, kind_cancelled}
use neri.WorkerPool.Queue.{
  finish, finish_ticket, drain, stop_if_unavailable, finish_current, failure, stop_job, stop_jobs,
  stop, tickets, mark_failed,
}
use neri.WorkerPool.Client.{submit, poll, take_output, cancel, opened}
use neri.WorkerPool.Work.{ready, receive, reply, fail, settle, leave, end_run, write_worker}
use neri.WorkerPool.Invariant.{
  After, receive_cases, drain_nil, drain_cons, List-cases, settle_cases,
}
use neri.WorkerPool.Run.{
  Step, Reachable, start, next, submits, polls, takes, cancels, stops, readies, receives, replies,
  fails, leaves, arrives,
}

-- The options are those of another pool.
abbrev Kept : Pool → Pool → Type 0
Kept p q = q.options ≡ p.options

finish_ticket-Kept : (p : Pool) (t : ℕ) (k : Kind) → Kept p (finish_ticket p t k)
unfolding finish_ticket finish
finish_ticket-Kept p t k = ground arith

drain-Kept : (fuel : ℕ) (p : Pool) → Kept p (drain fuel p)
unfolding drain
drain-Kept zero p = refl
drain-Kept (suc fuel) p = elim (List-cases p.queued) [
  | inl e ↦ ap (λ q. Pool.options q) (drain_nil (suc fuel) p e)
  | inr (t, rest, e) ↦
      ap (λ q. Pool.options q) (drain_cons fuel p t rest e)
      ∙ drain-Kept fuel (finish_ticket p t kind_failed)
      ∙ finish_ticket-Kept p t kind_failed
]

stop_if_unavailable-Kept : (p : Pool) → Kept p (stop_if_unavailable p)
unfolding stop_if_unavailable
stop_if_unavailable-Kept p =
    ground (arith, drain-Kept (length p.queued) (record p { stopping = true }))

finish_current-Kept : (p : Pool) (i : ℕ) (w : Worker) (k : Kind) → Kept p (finish_current p i w k)
unfolding finish_current finish_ticket finish
finish_current-Kept p i w k = ground arith

failure-Kept : (p : Pool) (i : ℕ) (w : Worker) (text : List ℕ) → Kept p (failure p i w text)
unfolding failure
failure-Kept p i w text =
    stop_if_unavailable-Kept (finish_current p i (mark_failed w text) kind_failed)
    ∙ finish_current-Kept p i (mark_failed w text) kind_failed

stop_job-Kept : (p : Pool) (t : ℕ) → Kept p (stop_job p t)
unfolding stop_job finish
stop_job-Kept p t = ground arith

stop_jobs-Kept : (ts : List ℕ) (p : Pool) → Kept p (stop_jobs p ts)
unfolding stop_jobs
stop_jobs-Kept [] p = refl
stop_jobs-Kept (t ∷ ts) p = stop_jobs-Kept ts (stop_job p t) ∙ stop_job-Kept p t

stop-Kept : (p : Pool) → Kept p (stop p)
unfolding stop
stop-Kept p = stop_jobs-Kept (tickets p.jobs) (record p { stopping = true })

submit-Kept : (p : Pool) (a b m : Bool) (bytes : List ℕ) → Kept p (submit p a b m bytes).2
unfolding submit
submit-Kept p a b m bytes = ground arith

poll-Kept : (p : Pool) → Kept p (poll p).2
unfolding poll
poll-Kept p = ground arith

take-Kept : (p : Pool) (t n : ℕ) (a : Bool) → Kept p (take_output p t n a).2
unfolding take_output
take-Kept p t n a = ground arith

cancel-Kept : (p : Pool) (t : ℕ) → Kept p (cancel p t).1
unfolding cancel finish
cancel-Kept p t = ground arith

ready-Kept : (p : Pool) (i : ℕ) (w : Worker) → Kept p (ready p i w).1
unfolding ready
ready-Kept p i w = ground arith

receive-Kept : (p : Pool) (i : ℕ) (w : Worker) → After (λ q. Kept p q) (receive p i w)
receive-Kept p i w =
    receive_cases (After (λ q. Kept p q)) p i w tt refl refl (λ t rest j a b e. refl)

reply-Kept :
    (p : Pool) (i : ℕ) (w : Worker) (a m : Bool) (bytes : List ℕ) → Kept p (reply p i w a m bytes).1
unfolding reply finish
reply-Kept p i w a m bytes = ground arith

fail-Kept :
    (p : Pool) (i : ℕ) (w : Worker) (a : Bool) (detail : List ℕ) → Kept p (fail p i w a detail).1
unfolding fail
fail-Kept p i w a detail = ground (arith, failure-Kept p i w detail)

leave-Kept : (p : Pool) (i : ℕ) → Kept p (leave p i)
unfolding leave
leave-Kept p i = elim (Option-cases (get_elem? p.workers i)) [
  | inl e ↦ ground (arith, e)
  | inr (w, e) ↦ ground (
    arith,
    e,
    stop_if_unavailable-Kept
        (record (write_worker p i (record w { exited = true })) { alive = p.alive - 1 }),
  )
]

end_run-Kept : (p : Pool) (i : ℕ) (w : Worker) (b : Bool) → Kept p (end_run p i w b)
unfolding end_run
end_run-Kept p i w b =
    leave-Kept (settle p i w b) i
    ∙ settle_cases (λ q. Kept p q) p i w b (λ text. failure-Kept p i w text)
        (finish_current-Kept p i w kind_cancelled) (λ _. refl)

Step-Kept : (p q : Pool) → Step p q → Kept p q
Step-Kept _ _ (submits p a b m bytes) = submit-Kept p a b m bytes
Step-Kept _ _ (polls p) = poll-Kept p
Step-Kept _ _ (takes p t n a) = take-Kept p t n a
Step-Kept _ _ (cancels p t) = cancel-Kept p t
Step-Kept _ _ (stops p) = stop-Kept p
Step-Kept _ _ (readies p i w h) = ready-Kept p i w
Step-Kept _ _ (receives p i w r h e) = subst (λ o. After (λ q. Kept p q) o) e (receive-Kept p i w)
Step-Kept _ _ (replies p i w a m bytes h) = reply-Kept p i w a m bytes
Step-Kept _ _ (fails p i w a detail h) = fail-Kept p i w a detail
Step-Kept _ _ (leaves p i w b h) = end_run-Kept p i w b
Step-Kept _ _ (arrives p) = refl

pub Reachable-options : (o : Options) (p : Pool) → Reachable o p → p.options ≡ o
unfolding opened
Reachable-options o _ start = refl
Reachable-options o _ (next p q r s) = Step-Kept p q s ∙ Reachable-options o p r
