-- ===== src/WorkerPool/Run.antt =====
-- The runs of the pool of native/runtime/worker_pool.cpp: each step is one call under the mutex, of
-- the owner or of a worker's thread, or the arrival of a notification's byte, in any order, whatever the
-- call answers.
use neri.Prelude.{ℕ, ◌≡◌, refl, subst, List, some, Bool, false, arith, get_elem?, true}
use neri.WorkerPool.State.{
  Status, Worker, Pool, Options, set_readiness, Channel, silent, sent, arrived, notified, arrive,
  set_channel-notified,
}
use neri.WorkerPool.Queue.{stop}
use neri.WorkerPool.Client.{submit, poll, take_output, cancel, opened}
use neri.WorkerPool.Work.{ready, receive, reply, fail, end_run}
use neri.WorkerPool.Invariant.{
  WellFormed, Core-flags, After, submit_lem, take_lem, cancel_lem, stop_lem, ready_lem, receive_lem,
  reply_lem, fail_lem, end_run_lem,
}

-- The worker at a place, whose thread has not left.
abbrev pub Running : Pool → ℕ → Worker → Type 0
Running p i w = (get_elem? p.workers i ≡ some w) × (w.exited ≡ false)

pub data Step : Pool → Pool → Type 0 where
  submits :
      (p : Pool) (no_out no_bytes out_of_memory : Bool) (bytes : List ℕ)
      → Step p (submit p no_out no_bytes out_of_memory bytes).2
  polls : (p : Pool) → Step p (poll p).2
  takes :
      (p : Pool) (ticket capacity : ℕ) (no_out : Bool)
      → Step p (take_output p ticket capacity no_out).2
  cancels : (p : Pool) (ticket : ℕ) → Step p (cancel p ticket).1
  stops : (p : Pool) → Step p (stop p)
  readies : (p : Pool) (i : ℕ) (w : Worker) → Running p i w → Step p (ready p i w).1
  receives :
      (p : Pool) (i : ℕ) (w : Worker) (r : Status × ℕ × Pool)
      → Running p i w
      → receive p i w ≡ some r
      → Step p r.2
  replies :
      (p : Pool) (i : ℕ) (w : Worker) (no_bytes out_of_memory : Bool) (bytes : List ℕ)
      → Running p i w
      → Step p (reply p i w no_bytes out_of_memory bytes).1
  fails :
      (p : Pool) (i : ℕ) (w : Worker) (no_detail : Bool) (detail : List ℕ)
      → Running p i w
      → Step p (fail p i w no_detail detail).1
  leaves :
      (p : Pool) (i : ℕ) (w : Worker) (initialized : Bool)
      → Running p i w
      → Step p (end_run p i w initialized)
  arrives : (p : Pool) → Step p (record p { channel = arrive p.channel })

-- The pools that calls can lead to, from the opening on.
pub data Reachable (o : Options) : Pool → Type 0 where
  start : Reachable o (opened o)
  next : (p q : Pool) → Reachable o p → Step p q → Reachable o q

arrive-notified : (c : Channel) → notified c ≡ true → notified (arrive c) ≡ true
arrive-notified silent h = h
arrive-notified sent h = refl
arrive-notified arrived h = refl

poll_lem : (p : Pool) → WellFormed p → WellFormed (poll p).2
unfolding poll
poll_lem p f = ground (arith, f, again p f)
  where
    again : (p : Pool) → WellFormed p → WellFormed (set_readiness p)
    again p f = record {
      core = Core-flags p p.stopping _ f.core;
      shut = f.shut;
      closed = f.closed;
      signal = set_channel-notified _ _;
    }

pub Step-WellFormed : (p q : Pool) → Step p q → WellFormed p → WellFormed q
Step-WellFormed _ _ (submits p a b m bytes) f = submit_lem p a b m bytes f
Step-WellFormed _ _ (polls p) f = poll_lem p f
Step-WellFormed _ _ (takes p t n a) f = take_lem p t n a f
Step-WellFormed _ _ (cancels p t) f = cancel_lem p t f
Step-WellFormed _ _ (stops p) f = stop_lem p f
Step-WellFormed _ _ (readies p i w h) f = ready_lem p i w f h.0
Step-WellFormed _ _ (receives p i w r h e) f =
    subst (λ o. After (λ q. WellFormed q) o) e (receive_lem p i w f h.0 h.1)
Step-WellFormed _ _ (replies p i w a m bytes h) f = reply_lem p i w a m bytes f h.0
Step-WellFormed _ _ (fails p i w a detail h) f = fail_lem p i w a detail f h.0
Step-WellFormed _ _ (leaves p i w b h) f = end_run_lem p i w b f h.0 h.1
Step-WellFormed _ _ (arrives p) f = record {
  core = Core-flags p p.stopping _ f.core;
  shut = f.shut;
  closed = f.closed;
  signal = λ r. arrive-notified p.channel (f.signal r);
}
