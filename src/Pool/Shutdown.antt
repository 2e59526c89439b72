-- ===== src/Pool/Shutdown.antt =====
-- httpserver.c: the shutdown. Once `term` is set, the accept loop ends, `main` posts the semaphore for
-- each worker and joins them all, and a worker that gets past `sem_wait` returns.
pub mod Measure
pub mod Enough
pub mod Ends
use cse130_asgn.Base.{ℕ, zero, suc, ◌+◌, ◌<◌, Bool, true, false, ◌≡◌}
use cse130_asgn.Pool.{Pool, WorkStep}

-- Where `main` is behind its accept loop: with so many calls of `sem_post`, or of `pthread_join`, to
-- go.
pub data Phase : Type 0 where
  posting joining : ℕ → Phase

pub record Ending : Type 0 where
  pub pool : Pool
  pub phase : Phase
  -- the workers that have returned
  pub exited : ℕ

-- Whether a step of a worker is one behind `sem_wait`.
abbrev pub past_wait : {capacity : ℕ} {p q : Pool} → WorkStep capacity p q → Bool
past_wait (WorkStep.wait k t e f) = false
past_wait _ = true

-- `term` is set. Workers are alike: `main` joins one that has returned and was not joined yet.
pub data TermStep (capacity threads : ℕ) : Ending → Ending → Type 0 where
  post :
      {e : Ending} (k : ℕ)
      → e.phase ≡ posting (suc k)
      → TermStep capacity threads e
          (record e { pool = record e.pool { tokens = e.pool.tokens + 1 }; phase = posting k })
  start_joins :
      {e : Ending}
      → e.phase ≡ posting 0
      → TermStep capacity threads e (record e { phase = joining threads })
  join :
      {e : Ending} (k : ℕ)
      → e.phase ≡ joining (suc k)
      → threads < e.exited + suc k
      → TermStep capacity threads e (record e { phase = joining k })
  leave :
      {e : Ending} (k t : ℕ)
      → e.pool.waiting ≡ suc k
      → e.pool.tokens ≡ suc t
      → TermStep capacity threads e
          (record e { pool = record e.pool { waiting = k; tokens = t }; exited = e.exited + 1 })
  work :
      {e : Ending} {q : Pool} (step : WorkStep capacity e.pool q)
      → past_wait step ≡ true
      → TermStep capacity threads e (record e { pool = q })

-- So many steps, from one state to another.
pub data TermRun (capacity threads : ℕ) (start : Ending) : ℕ → Ending → Type 0 where
  no_step : TermRun capacity threads start 0 start
  and_step :
      {n : ℕ} {e f : Ending}
      → TermRun capacity threads start n e
      → TermStep capacity threads e f
      → TermRun capacity threads start (suc n) f

-- The accept loop has ended in a state of the pool.
abbrev pub stopped : Pool → ℕ → Ending
stopped p threads = record { pool = p; phase = posting threads; exited = 0 }
