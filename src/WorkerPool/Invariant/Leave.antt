-- ===== src/WorkerPool/Invariant/Leave.antt =====
-- Lemmas on the end of `run` of native/runtime/worker_pool.cpp.
use neri.Prelude.{
  ℕ, zero, suc, ◌-◌, ◌≡◌, refl, sym, ap, ◌∙◌, subst, List, [], ◌∷◌, Option, none, some, Bool, true,
  false, ◌&&◌, not, length, arith, Option-cases, Bool-cases, inl, inr, get_elem?, set, codes,
}
use neri.WorkerPool.State.{Worker, Pool, Kind, kind_failed, kind_cancelled, is_none}
use neri.WorkerPool.Queue.{
  finish, finish_ticket, finish_current, drain, stop_if_unavailable, failure, all_unavailable,
  mark_failed,
}
use neri.WorkerPool.Work.{settle, leave, end_run, write_worker}
use neri.WorkerPool.Invariant.Places.{
  WellFormed, holders-set, living-set, Released-set, all_gone, ended,
}
use neri.WorkerPool.Invariant.Failure.{
  failure_lem, stop_if_unavailable_lem, finish_current-Core, finish_current_rest, drain_nil,
  drain_cons, List-cases,
}
use neri.WorkerPool.Invariant.Work.{unavailable-set}

set_at :
    (ws : List Worker) (i : ℕ) (w v : Worker)
    → get_elem? ws i ≡ some w
    → get_elem? (set ws i v) i ≡ some v
set_at [] i w v e = ground arith
set_at (x ∷ xs) zero w v e = refl
set_at (x ∷ xs) (suc i) w v e = set_at xs i w v e

finish_ticket-workers :
    (p : Pool) (t : ℕ) (result : Kind) → Pool.workers (finish_ticket p t result) ≡ p.workers
unfolding finish_ticket finish
finish_ticket-workers p t result = ground arith

drain-workers : (fuel : ℕ) (p : Pool) → Pool.workers (drain fuel p) ≡ p.workers
unfolding drain
drain-workers zero p = refl
drain-workers (suc fuel) p = elim (List-cases p.queued) [
  | inl e ↦ ap (λ q. Pool.workers q) (drain_nil (suc fuel) p e)
  | inr (t, rest, e) ↦
      ap (λ q. Pool.workers q) (drain_cons fuel p t rest e)
      ∙ drain-workers fuel (finish_ticket p t kind_failed)
      ∙ finish_ticket-workers p t kind_failed
]

stop_if_unavailable-workers : (p : Pool) → Pool.workers (stop_if_unavailable p) ≡ p.workers
unfolding stop_if_unavailable
stop_if_unavailable-workers p =
    ground (arith, drain-workers (length p.queued) (record p { stopping = true }))

-- The worker at a place has no job in hand and has not left.
abbrev Free : Pool → ℕ → Type 0
Free p i = (w : Worker) × (get_elem? p.workers i ≡ some w) × (w.current ≡ none) × (w.exited ≡ false)

finish_current-Free :
    (p : Pool) (i : ℕ) (w v : Worker) (result : Kind)
    → get_elem? p.workers i ≡ some w
    → v.exited ≡ false
    → Free (finish_current p i v result) i
unfolding finish_current
finish_current-Free p i w v result e x = elim (Option-cases v.current) [
  | inl n ↦ (v, ground (arith, n, set_at p.workers i w v e), n, x)
  | inr (t, n) ↦
      let u = record v { current = none } in
      (u, ground (arith, n, set_at p.workers i w u e), refl, x)
]

failure-Free :
    (p : Pool) (i : ℕ) (w : Worker) (text : List ℕ)
    → get_elem? p.workers i ≡ some w
    → w.exited ≡ false
    → Free (failure p i w text) i
unfolding failure
failure-Free p i w text e x =
    let q = finish_current p i (mark_failed w text) kind_failed in
    let free = finish_current-Free p i w (mark_failed w text) kind_failed e (ground (arith, x)) in
    (
      free.0,
      subst (λ ws. get_elem? ws i ≡ some free.0) (sym (stop_if_unavailable-workers q)) free.1,
      free.2,
      free.3,
    )

finish_current_flags :
    (p : Pool) (i : ℕ) (w : Worker) (result : Kind)
    → get_elem? p.workers i ≡ some w
    → (Pool.stopping (finish_current p i w result) ≡ p.stopping)
      × (all_unavailable (Pool.workers (finish_current p i w result)) ≡ all_unavailable p.workers)
unfolding finish_current finish_ticket finish
finish_current_flags p i w result e = (
  ground arith,
  ground (
    arith,
    unavailable-set p.workers i w w e refl refl,
    unavailable-set p.workers i w (record w { current = none }) e refl refl,
  ),
)

finish_current_lem :
    (p : Pool) (i : ℕ) (w : Worker) (result : Kind)
    → WellFormed p
    → get_elem? p.workers i ≡ some w
    → WellFormed (finish_current p i w result)
finish_current_lem p i w result f e =
    let rest = finish_current_rest p i w result f.shut f.signal in
    let flags = finish_current_flags p i w result e in
    record {
      core = finish_current-Core p i w w result f.core e refl refl;
      shut = rest.0;
      closed = λ h. flags.0 ∙ f.closed (sym flags.1 ∙ h);
      signal = rest.1;
    }

pub settle_cases {ℓ} :
    (P : Pool → Type ℓ) (p : Pool) (i : ℕ) (w : Worker) (initialized : Bool)
    → ((text : List ℕ) → P (failure p i w text))
    → P (finish_current p i w kind_cancelled)
    → (w.current ≡ none → P p)
    → P (settle p i w initialized)
unfolding settle
settle_cases P p i w initialized failed ended kept = elim (Bool-cases initialized) [
  | inr a ↦ ground (arith, a, failed (codes "worker runtime initialization failed"))
  | inl a ↦ elim (Bool-cases (not w.ready && not p.stopping)) [
    | inl b ↦ ground (arith, a, b, failed (codes "worker exited before ready"))
    | inr b ↦ elim (Bool-cases (not (is_none w.current))) [
      | inl d ↦ ground (arith, a, b, d, failed (codes "worker exited with an active job"), ended)
      | inr d ↦ ground (
        arith,
        a,
        b,
        d,
        failed (codes "worker exited before stop"),
        kept (none_in_hand w.current d),
      )
    ]
  ]
]
  where
    none_in_hand : (o : Option ℕ) → not (is_none o) ≡ false → o ≡ none
    none_in_hand none d = refl
    none_in_hand (some t) d = ground (arith, d)

settle_lem :
    (p : Pool) (i : ℕ) (w : Worker) (initialized : Bool)
    → WellFormed p
    → get_elem? p.workers i ≡ some w
    → w.exited ≡ false
    → WellFormed (settle p i w initialized) × Free (settle p i w initialized) i
settle_lem p i w initialized f e x =
    settle_cases (λ q. WellFormed q × Free q i) p i w initialized
      (λ text. (failure_lem p i w text f e, failure-Free p i w text e x))
      (finish_current_lem p i w kind_cancelled f e, finish_current-Free p i w w kind_cancelled e x)
      (λ n. (f, (w, e, n, x)))

leave_lem : (p : Pool) (i : ℕ) → WellFormed p → Free p i → WellFormed (leave p i)
unfolding leave
leave_lem p i f (w, e, n, x) =
    let v = record w { exited = true } in
    let q = record (write_worker p i v) { alive = p.alive - 1 } in
    let alive = living-set p.workers i w v e in
    subst (λ r. WellFormed r) (left p i w e)
      (stop_if_unavailable_lem q
        (record {
          numbered = f.core.numbered;
          ordered = f.core.ordered;
          fifo = f.core.fifo;
          placed = λ t. ground (arith, f.core.placed t, holders-set t p.workers i w v e);
          booked = f.core.booked;
          within = f.core.within;
          outstanding = f.core.outstanding;
          counted = ground (arith, f.core.counted, alive, x);
          released = Released-set p.workers i v (λ _. n) f.core.released;
        })
        f.shut (λ h. ground (arith, f.signal, f.core.counted, alive, x, h, all_gone q.workers)))
  where
    left :
        (p : Pool) (i : ℕ) (w : Worker)
        → get_elem? p.workers i ≡ some w
        → stop_if_unavailable
            (record (write_worker p i (record w { exited = true })) { alive = p.alive - 1 })
          ≡ leave p i
    left p i w e = ground arith

pub end_run_lem :
    (p : Pool) (i : ℕ) (w : Worker) (initialized : Bool)
    → WellFormed p
    → get_elem? p.workers i ≡ some w
    → w.exited ≡ false
    → WellFormed (end_run p i w initialized)
unfolding end_run
end_run_lem p i w initialized f e x =
    let settled = settle_lem p i w initialized f e x in
    leave_lem (settle p i w initialized) i settled.0 settled.1
