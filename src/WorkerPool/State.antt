-- ===== src/WorkerPool/State.antt =====
-- The state of native/runtime/worker_pool.cpp: `job`, `worker` and `pool`. A pointer to a job is its
-- ticket, the key of the map of jobs; an intrusive list of jobs is the sequence of their tickets.
use neri.Prelude.{
  ℕ, List, [], ◌∷◌, Option, none, some, Bool, true, false, ◌&&◌, ◌||◌, not, ◌==◌, ◌≡◌, refl,
  if◌then◌else◌, arith,
}

-- NERI_WORKER_OK_V1 and the statuses after it.
pub data Status : Type 0 where
  ok empty stopped full invalid limit startup_failed no_memory unavailable : Status

-- NERI_WORKER_SUCCESS_V1, NERI_WORKER_FAILED_V1 and NERI_WORKER_CANCELLED_V1.
pub data Kind : Type 0 where
  kind_success kind_failed kind_cancelled : Kind

pub record Job : Type 0 where
  pub id : ℕ
  pub reservation : ℕ
  pub kind : Kind
  pub active : Bool
  pub cancelled : Bool
  pub done : Bool
  pub input : List ℕ
  pub output : List ℕ

-- The job in hand is given by its ticket.
pub record Worker : Type 0 where
  pub current : Option ℕ
  pub ready : Bool
  pub exited : Bool
  pub failed : Bool
  pub error : List ℕ

pub record Options : Type 0 where
  pub worker_count : ℕ
  pub max_outstanding : ℕ
  pub max_input_bytes : ℕ
  pub max_output_bytes : ℕ
  pub max_reserved_bytes : ℕ

-- `readiness_channel` of native/platform/readiness_channel.cpp after `open`: its `notified_`, and of the
-- byte of a notification whether it can be read yet. A pipe has it at once, a socket once it arrives.
pub data Channel : Type 0 where
  silent sent arrived : Channel

-- `notified_`.
abbrev pub notified : Channel → Bool
notified silent = false
notified sent = true
notified arrived = true

-- Whether the descriptor is ready for reading.
abbrev pub readable : Channel → Bool
readable silent = false
readable sent = false
readable arrived = true

-- `readiness_channel::set`: a byte in transit is kept, as it cannot be read back yet. An error of the
-- system, which ends the process, and an empty pipe, which does not go with a notification, are left out.
abbrev pub set_channel : (ready : Bool) → Channel → Channel
set_channel true silent = sent
set_channel true sent = sent
set_channel true arrived = arrived
set_channel false silent = silent
set_channel false sent = sent
set_channel false arrived = silent

-- The arrival of the byte.
abbrev pub arrive : Channel → Channel
arrive silent = silent
arrive sent = arrived
arrive arrived = arrived

pub set_channel-notified :
    (ready : Bool) (c : Channel) → ready ≡ true → notified (set_channel ready c) ≡ true
set_channel-notified true silent h = refl
set_channel-notified true sent h = refl
set_channel-notified true arrived h = refl
set_channel-notified false c h = absurd (ground (arith, h))

-- The jobs stand in the order of their tickets, as in the map.
pub record Pool : Type 0 where
  pub options : Options
  pub workers : List Worker
  pub jobs : List Job
  pub next_job : ℕ
  pub queued : List ℕ
  pub completed : List ℕ
  pub reserved : ℕ
  pub alive : ℕ
  pub stopping : Bool
  pub channel : Channel

-- `jobs.find`.
abbrev pub find : ℕ → List Job → Option Job
find ticket [] = none
find ticket (j ∷ js) = if j.id == ticket then some j else find ticket js

-- A write to the job that has the ticket of `j`.
abbrev pub put : Job → List Job → List Job
put j [] = []
put j (k ∷ ks) = if k.id == j.id then j ∷ ks else k ∷ put j ks

-- `jobs.erase`.
abbrev pub erase : ℕ → List Job → List Job
erase ticket [] = []
erase ticket (j ∷ js) = if j.id == ticket then js else j ∷ erase ticket js

abbrev pub is_empty {ℓ} : {A : Type ℓ} → List A → Bool
is_empty [] = true
is_empty (x ∷ xs) = false

abbrev pub is_none {ℓ} : {A : Type ℓ} → Option A → Bool
is_none none = true
is_none (some a) = false

-- Whether a completion or the end of the pool can be polled.
abbrev pub poll_ready : Pool → Bool
poll_ready p = not (is_empty p.completed) || (is_empty p.jobs && (p.stopping || p.alive == 0))

-- `readiness.set(poll_ready(p))`.
abbrev pub set_readiness : Pool → Pool
set_readiness p = record p { channel = set_channel (poll_ready p) p.channel }
