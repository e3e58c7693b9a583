-- ===== src/ThreadPool/Shutdown/Count.antt =====
-- Stop tasks in the queue, and threads that have returned.
use asabru_commons.Base.{
  ℕ, zero, suc, ◌+◌, ◌≤◌, ◌≡◌, ◌≢◌, refl, some, List, [], ◌∷◌, ◌++◌, length, get_elem?, set,
  replicate, arith,
}
use asabru_commons.ThreadPool.{Task, execute, stop, Thread, waiting, running, returned, dispatch}

module _ {A : Type 0} where
  abbrev pub stops : List (Task A) → ℕ
  stops [] = 0
  stops (execute a ∷ q) = stops q
  stops (stop ∷ q) = suc (stops q)

  abbrev pub returns : List (Thread A) → ℕ
  returns [] = 0
  returns (returned ∷ ts) = suc (returns ts)
  returns (waiting ∷ ts) = returns ts
  returns (running a ∷ ts) = returns ts

  abbrev pub IsStops : List (Task A) → Type 0
  IsStops [] = Unit
  IsStops (execute a ∷ q) = ⊥
  IsStops (stop ∷ q) = IsStops q

  -- No task to execute stands behind a stop task.
  abbrev pub IsShaped : List (Task A) → Type 0
  IsShaped [] = Unit
  IsShaped (execute a ∷ q) = IsShaped q
  IsShaped (stop ∷ q) = IsStops q

  -- The first `i` threads have returned.
  abbrev pub IsJoined : ℕ → List (Thread A) → Type 0
  IsJoined zero ts = Unit
  IsJoined (suc i) [] = ⊥
  IsJoined (suc i) (t ∷ ts) = (t ≡ returned) × IsJoined i ts

  pub returns-set_waiting :
      (ts : List (Thread A)) (i : ℕ) (t : Thread A)
      → t ≢ returned
      → get_elem? ts i ≡ some t
      → returns (set ts i waiting) ≡ returns ts
  returns-set_waiting [] i t h e = refl
  returns-set_waiting (x ∷ ts) zero t h e = ground arith
  returns-set_waiting (x ∷ ts) (suc i) t h e = ground (arith, returns-set_waiting ts i t h e)

  pub returns-set-dispatch :
      (ts : List (Thread A)) (i : ℕ) (task : Task A)
      → get_elem? ts i ≡ some waiting
      → returns (set ts i (dispatch task)) ≡ returns ts + stops (task ∷ [])
  unfolding dispatch
  returns-set-dispatch [] i task e = absurd (cc)
  returns-set-dispatch (x ∷ ts) zero (execute a) e = ground arith
  returns-set-dispatch (x ∷ ts) zero stop e = ground arith
  returns-set-dispatch (x ∷ ts) (suc i) task e = ground (arith, returns-set-dispatch ts i task e)

  -- A thread that has not returned is behind the joined ones.
  pub IsJoined-set :
      (k : ℕ) (ts : List (Thread A)) (i : ℕ) (t u : Thread A)
      → t ≢ returned
      → get_elem? ts i ≡ some t
      → IsJoined k ts
      → IsJoined k (set ts i u)
  IsJoined-set zero ts i t u h e j = tt
  IsJoined-set (suc k) [] i t u h e j = j
  IsJoined-set (suc k) (x ∷ ts) zero t u h e j = absurd (h (ground arith))
  IsJoined-set (suc k) (x ∷ ts) (suc i) t u h e j = (j.0, IsJoined-set k ts i t u h e j.1)

  pub IsJoined-suc :
      (k : ℕ) (ts : List (Thread A))
      → get_elem? ts k ≡ some returned
      → IsJoined k ts
      → IsJoined (suc k) ts
  IsJoined-suc zero [] e j = cc
  IsJoined-suc zero (x ∷ ts) e j = (ground arith, tt)
  IsJoined-suc (suc k) [] e j = j
  IsJoined-suc (suc k) (x ∷ ts) e j = (j.0, IsJoined-suc k ts e j.1)

  pub IsJoined-returns :
      (k : ℕ) (ts : List (Thread A)) → length ts ≡ k → IsJoined k ts → returns ts ≡ k
  IsJoined-returns zero [] e j = refl
  IsJoined-returns zero (x ∷ ts) e j = absurd (omega arith)
  IsJoined-returns (suc k) [] e j = elim j [ ]
  IsJoined-returns (suc k) (x ∷ ts) e j = ground (arith, IsJoined-returns k ts (omega arith) j.1)

  pub IsJoined-le : (k : ℕ) (ts : List (Thread A)) → IsJoined k ts → k ≤ length ts
  IsJoined-le zero ts j = omega arith
  IsJoined-le (suc k) [] j = elim j [ ]
  IsJoined-le (suc k) (t ∷ ts) j = omega (arith, IsJoined-le k ts j.1)

  pub stops-append : (q r : List (Task A)) → stops (q ++ r) ≡ stops q + stops r
  stops-append [] r = omega arith
  stops-append (execute a ∷ q) r = stops-append q r
  stops-append (stop ∷ q) r = omega (arith, stops-append q r)

  pub IsStops-append_stop : (q : List (Task A)) → IsStops q → IsStops (q ++ stop ∷ [])
  IsStops-append_stop [] h = tt
  IsStops-append_stop (execute a ∷ q) h = h
  IsStops-append_stop (stop ∷ q) h = IsStops-append_stop q h

  pub IsShaped-append_stop : (q : List (Task A)) → IsShaped q → IsShaped (q ++ stop ∷ [])
  IsShaped-append_stop [] h = tt
  IsShaped-append_stop (execute a ∷ q) h = IsShaped-append_stop q h
  IsShaped-append_stop (stop ∷ q) h = IsStops-append_stop q h

  pub IsShaped-append_execute :
      (q : List (Task A)) (a : A) → stops q ≡ 0 → IsShaped (q ++ execute a ∷ [])
  IsShaped-append_execute [] a h = tt
  IsShaped-append_execute (execute b ∷ q) a h = IsShaped-append_execute q a h
  IsShaped-append_execute (stop ∷ q) a h = absurd (omega arith)

  pub IsStops-IsShaped : (q : List (Task A)) → IsStops q → IsShaped q
  IsStops-IsShaped [] h = tt
  IsStops-IsShaped (execute a ∷ q) h = elim h [ ]
  IsStops-IsShaped (stop ∷ q) h = h

  pub IsStops-nil : (q : List (Task A)) → IsStops q → stops q ≡ 0 → q ≡ []
  IsStops-nil [] h e = refl
  IsStops-nil (execute a ∷ q) h e = elim h [ ]
  IsStops-nil (stop ∷ q) h e = absurd (omega arith)

pub returns-replicate : (A : Type 0) (n : ℕ) → returns {A = A} (replicate n waiting) ≡ 0
returns-replicate A zero = refl
returns-replicate A (suc n) = returns-replicate A n
