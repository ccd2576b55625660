-- ===== src/WorkerPool/Invariant/Client.antt =====
-- Lemmas on the owner's calls of native/runtime/worker_pool.cpp: `submit` and `take`.
use neri.Prelude.{
  ℕ, ◌+◌, ◌-◌, ◌≤◌, ◌<◌, ◌≡◌, sym, subst, List, [], ◌∷◌, some, Bool, true, false, ◌&&◌, ◌||◌, not,
  ◌==◌, length, arith, Option-cases, Bool-cases, inl, inr, length-append, ltb, leb,
}
use neri.WorkerPool.State.{Job, Pool, find, set_channel-notified}
use neri.WorkerPool.Queue.{tickets}
use neri.WorkerPool.Client.{submit, accepted, new_job, take_output, taken}
use neri.WorkerPool.Invariant.Maps.{
  Increasing, count-append, count-unlink, find_id, find_below, find-append, find-erase,
  tickets-append, tickets-erase, total-append, total-erase, length-erase, Increasing-append,
  Increasing-unlink,
}
use neri.WorkerPool.Invariant.Places.{Core, WellFormed}

accepted-Core :
    (p : Pool) (bytes : List ℕ)
    → Core p
    → length p.jobs < p.options.max_outstanding
    → p.reserved + (length bytes + p.options.max_output_bytes) ≤ p.options.max_reserved_bytes
    → Core (accepted p bytes)
accepted-Core p bytes c room space =
    let fresh = find_below p.next_job 1 p.next_job p.jobs c.ordered (omega arith) in
    record {
      numbered = omega (arith, c.numbered);
      ordered =
          subst (λ ts. Increasing 1 (p.next_job + 1) ts)
            (sym (tickets-append p.jobs (new_job p bytes)))
            (Increasing-append 1 p.next_job (tickets p.jobs) c.numbered c.ordered);
      fifo = Increasing-append 1 p.next_job p.queued c.numbered c.fifo;
      placed = λ k.
          rw (find-append k p.jobs (new_job p bytes) fresh)
            (ground (arith, c.placed k, count-append k p.queued p.next_job, fresh));
      booked = omega (arith, c.booked, total-append p.jobs (new_job p bytes));
      within = space;
      outstanding = omega (arith, length-append p.jobs (new_job p bytes ∷ []));
      counted = c.counted;
      released = c.released;
    }

taken-Core :
    (p : Pool) (j : Job) → Core p → find j.id p.jobs ≡ some j → j.done ≡ true → Core (taken p j)
taken-Core p j c e d = record {
  numbered = c.numbered;
  ordered =
      subst (λ ts. Increasing 1 p.next_job ts) (sym (tickets-erase j.id p.jobs))
        (Increasing-unlink 1 p.next_job (tickets p.jobs) j.id c.ordered);
  fifo = c.fifo;
  placed = λ k.
      rw (find-erase k j.id 1 p.next_job p.jobs c.ordered)
        (ground (arith, c.placed k, c.placed j.id, count-unlink k p.completed j.id));
  booked = omega (arith, c.booked, total-erase j.id p.jobs j e);
  within = omega (arith, c.within);
  outstanding = omega (arith, c.outstanding, length-erase j.id p.jobs j e);
  counted = c.counted;
  released = c.released;
}

accepted_lem :
    (p : Pool) (bytes : List ℕ)
    → WellFormed p
    → (p.stopping || p.alive == 0) ≡ false
    → (leb p.options.max_outstanding (length p.jobs)
        || ltb p.options.max_reserved_bytes (length bytes + p.options.max_output_bytes)
        || ltb
            (p.options.max_reserved_bytes - (length bytes + p.options.max_output_bytes))
            p.reserved)
      ≡ false
    → WellFormed (accepted p bytes)
accepted_lem p bytes f running room = record {
  core = accepted-Core p bytes f.core (ground arith) (ground arith);
  shut = λ h. ground (arith, h, running);
  closed = f.closed;
  signal = ground (arith, f.signal, running);
}

submit_cases {ℓ} :
    (P : Pool → Type ℓ) (p : Pool) (no_out no_bytes out_of_memory : Bool) (bytes : List ℕ)
    → P p
    → ((p.stopping || p.alive == 0) ≡ false
        → (leb p.options.max_outstanding (length p.jobs)
            || ltb p.options.max_reserved_bytes (length bytes + p.options.max_output_bytes)
            || ltb
                (p.options.max_reserved_bytes - (length bytes + p.options.max_output_bytes))
                p.reserved)
          ≡ false
        → P (accepted p bytes))
    → P (submit p no_out no_bytes out_of_memory bytes).2
unfolding submit
submit_cases P p no_out no_bytes out_of_memory bytes refused held =
    elim (Bool-cases (no_out || (not (length bytes == 0) && no_bytes))) [
      | inl a ↦ rw a refused
      | inr a ↦ rw a (elim (Bool-cases (p.stopping || p.alive == 0)) [
        | inl b ↦ rw b refused
        | inr b ↦
            rw b
              (elim (Bool-cases (
                leb p.options.max_outstanding (length p.jobs)
                || ltb p.options.max_reserved_bytes (length bytes + p.options.max_output_bytes)
                || ltb (p.options.max_reserved_bytes - (length bytes + p.options.max_output_bytes))
                    p.reserved)) [
                      | inl d ↦ ground (arith, d, refused)
                      | inr d ↦ ground (arith, d, refused, held b d)
                    ])
      ])
    ]

pub submit_lem :
    (p : Pool) (no_out no_bytes out_of_memory : Bool) (bytes : List ℕ)
    → WellFormed p
    → WellFormed (submit p no_out no_bytes out_of_memory bytes).2
submit_lem p no_out no_bytes out_of_memory bytes f =
    submit_cases (λ q. WellFormed q) p no_out no_bytes out_of_memory bytes f
      (accepted_lem p bytes f)

taken_lem :
    (p : Pool) (j : Job)
    → WellFormed p
    → find j.id p.jobs ≡ some j
    → j.done ≡ true
    → WellFormed (taken p j)
taken_lem p j f e d = record {
  core = taken-Core p j f.core e d;
  shut = f.shut;
  closed = f.closed;
  signal = set_channel-notified _ _;
}

take_cases {ℓ} :
    (P : Pool → Type ℓ) (p : Pool) (ticket capacity : ℕ) (no_out : Bool)
    → P p
    → ((j : Job) → find ticket p.jobs ≡ some j → j.done ≡ true → P (taken p j))
    → P (take_output p ticket capacity no_out).2
unfolding take_output
take_cases P p ticket capacity no_out kept gone = elim (Option-cases (find ticket p.jobs)) [
  | inl e ↦ ground (arith, kept, e)
  | inr (j, e) ↦ elim (Bool-cases j.done) [
    | inl d ↦ ground (arith, kept, gone j e d, e, d)
    | inr d ↦ ground (arith, kept, e, d)
  ]
]

pub take_lem :
    (p : Pool) (ticket capacity : ℕ) (no_out : Bool)
    → WellFormed p
    → WellFormed (take_output p ticket capacity no_out).2
take_lem p ticket capacity no_out f =
    take_cases (λ q. WellFormed q) p ticket capacity no_out f
      (λ j e d.
        taken_lem p j f (subst (λ n. find n p.jobs ≡ some j) (sym (find_id ticket p.jobs j e)) e) d)
