-- ===== src/WorkerPool/Invariant/Maps.antt =====
-- The map of jobs and the queues of native/runtime/worker_pool.cpp under their writes.
use neri.Prelude.{
  ℕ, ◌+◌, ◌-◌, ◌≤◌, ◌<◌, ◌≡◌, refl, List, [], ◌∷◌, ◌++◌, none, some, ◌==◌, if◌then◌else◌, length,
  arith,
}
pub use neri.Prelude.{Increasing, Increasing-low}
use neri.WorkerPool.State.{Job, find, put, erase}
use neri.WorkerPool.Queue.{append, unlink, tickets}

-- How often a ticket stands in a queue.
abbrev pub count : ℕ → List ℕ → ℕ
count k [] = 0
count k (x ∷ xs) = (if x == k then 1 else 0) + count k xs

-- The sum of the reservations.
abbrev pub total : List Job → ℕ
total [] = 0
total (j ∷ js) = j.reservation + total js

pub count-append :
    (k : ℕ) (xs : List ℕ) (t : ℕ) → count k (append xs t) ≡ count k xs + (if t == k then 1 else 0)
count-append k [] t = omega arith
count-append k (x ∷ xs) t = omega (arith, count-append k xs t)

pub count-unlink :
    (k : ℕ) (xs : List ℕ) (t : ℕ) → count k (unlink xs t) ≡ count k xs - (if t == k then 1 else 0)
count-unlink k [] t = omega arith
count-unlink k (x ∷ xs) t = ground (arith, count-unlink k xs t)

pub Increasing-high :
    (low high high2 : ℕ) (xs : List ℕ)
    → high ≤ high2
    → Increasing low high xs
    → Increasing low high2 xs
Increasing-high low high high2 [] h i = tt
Increasing-high low high high2 (x ∷ xs) h i =
    (i.0, omega arith, Increasing-high (x + 1) high high2 xs h i.2)

pub Increasing-append :
    (low t : ℕ) (xs : List ℕ) → low ≤ t → Increasing low t xs → Increasing low (t + 1) (append xs t)
Increasing-append low t [] h i = (h, omega arith, tt)
Increasing-append low t (x ∷ xs) h i =
    (i.0, omega arith, Increasing-append (x + 1) t xs (omega arith) i.2)

pub Increasing-unlink :
    (low high : ℕ) (xs : List ℕ) (t : ℕ)
    → Increasing low high xs
    → Increasing low high (unlink xs t)
Increasing-unlink low high [] t i = tt
Increasing-unlink low high (x ∷ xs) t i =
    ground (arith, Increasing-low (x + 1) low high xs, Increasing-unlink (x + 1) high xs t)

pub find_id : (t : ℕ) (js : List Job) (j : Job) → find t js ≡ some j → j.id ≡ t
find_id t [] j e = ground arith
find_id t (i ∷ is) j e = ground (arith, find_id t is j)

pub find-put :
    (k : ℕ) (j : Job) (js : List Job) (old : Job)
    → find j.id js ≡ some old
    → find k (put j js) ≡ (if j.id == k then some j else find k js)
find-put k j [] old e = ground arith
find-put k j (i ∷ is) old e = ground (arith, find-put k j is old)

pub tickets-put : (j : Job) (js : List Job) → tickets (put j js) ≡ tickets js
tickets-put j [] = refl
tickets-put j (i ∷ is) = ground (arith, tickets-put j is)

pub total-put :
    (j : Job) (js : List Job) (old : Job)
    → find j.id js ≡ some old
    → j.reservation ≡ old.reservation
    → total (put j js) ≡ total js
total-put j [] old e r = ground arith
total-put j (i ∷ is) old e r = ground (arith, total-put j is old)

pub length-put : (j : Job) (js : List Job) → length (put j js) ≡ length js
length-put j [] = refl
length-put j (i ∷ is) = ground (arith, length-put j is)

pub find_below :
    (k low high : ℕ) (js : List Job)
    → Increasing low high (tickets js)
    → high ≤ k
    → find k js ≡ none
find_below k low high [] i h = refl
find_below k low high (j ∷ js) i h = ground (arith, find_below k (j.id + 1) high js i.2 h)

pub find_above :
    (k low high : ℕ) (js : List Job) → Increasing low high (tickets js) → k < low → find k js ≡ none
find_above k low high [] i h = refl
find_above k low high (j ∷ js) i h = ground (arith, find_above k (j.id + 1) high js i.2)

pub find-append :
    (k : ℕ) (js : List Job) (j : Job)
    → find j.id js ≡ none
    → find k (js ++ (j ∷ [])) ≡ (if j.id == k then some j else find k js)
find-append k [] j e = refl
find-append k (i ∷ is) j e = ground (arith, find-append k is j)

pub tickets-append : (js : List Job) (j : Job) → tickets (js ++ (j ∷ [])) ≡ append (tickets js) j.id
tickets-append [] j = refl
tickets-append (i ∷ is) j = rw (tickets-append is j)

pub total-append : (js : List Job) (j : Job) → total (js ++ (j ∷ [])) ≡ total js + j.reservation
total-append [] j = omega arith
total-append (i ∷ is) j = omega (arith, total-append is j)

pub find-erase :
    (k t low high : ℕ) (js : List Job)
    → Increasing low high (tickets js)
    → find k (erase t js) ≡ (if t == k then none else find k js)
find-erase k t low high [] i = ground arith
find-erase k t low high (j ∷ js) i =
    ground (arith, find-erase k t (j.id + 1) high js, find_above k (j.id + 1) high js)

pub tickets-erase : (t : ℕ) (js : List Job) → tickets (erase t js) ≡ unlink (tickets js) t
tickets-erase t [] = refl
tickets-erase t (j ∷ js) = ground (arith, tickets-erase t js)

pub total-erase :
    (t : ℕ) (js : List Job) (j : Job)
    → find t js ≡ some j
    → total js ≡ total (erase t js) + j.reservation
total-erase t [] j e = ground arith
total-erase t (i ∷ is) j e = ground (arith, total-erase t is j)

pub length-erase :
    (t : ℕ) (js : List Job) (j : Job) → find t js ≡ some j → length js ≡ length (erase t js) + 1
length-erase t [] j e = ground arith
length-erase t (i ∷ is) j e = ground (arith, length-erase t is j)
