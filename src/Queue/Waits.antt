-- ===== src/Queue/Waits.antt =====
-- queue.c: the threads that sleep on the one condition variable of a queue. A call that has to wait
-- sleeps in `pthread_cond_wait`; woken, it takes the mutex again at some time, and tests again. A call
-- that passes signals the variable before it gives the mutex back.
pub mod Awake
use cse130_asgn.Base.{ℕ, zero, suc, ◌+◌, true, Option, some, done, ◌≡◌}
use cse130_asgn.Queue.{Queue, waits, passed, queue_push, queue_pop}

module _ {ℓ} (A : Type ℓ) where
  -- A queue with the threads that sleep, and those that were woken and have not tested again.
  pub record Room : Type ℓ where
    pub queue : Queue A
    pub pop_sleepers : ℕ
    pub push_sleepers : ℕ
    pub pop_woken : ℕ
    pub push_woken : ℕ

module _ {ℓ} {A : Type ℓ} where
  -- `pthread_cond_signal`: it wakes one of the threads that sleep, whatever it sleeps for.
  pub data Signal : Room A → Room A → Type ℓ where
    nobody : {r : Room A} → r.pop_sleepers ≡ 0 → r.push_sleepers ≡ 0 → Signal r r
    wake_pop :
        {r : Room A} (k : ℕ)
        → r.pop_sleepers ≡ suc k
        → Signal r (record r { pop_sleepers = k; pop_woken = r.pop_woken + 1 })
    wake_push :
        {r : Room A} (k : ℕ)
        → r.push_sleepers ≡ suc k
        → Signal r (record r { push_sleepers = k; push_woken = r.push_woken + 1 })

  -- What one thread does while it holds the mutex; and a wake-up without a signal, which
  -- `pthread_cond_wait` allows.
  pub data WaitStep : Room A → Room A → Type ℓ where
    push :
        {r s : Room A} (x : A) (q : Queue A)
        → queue_push (some r.queue) x ≡ done (passed q)
        → Signal (record r { queue = q }) s
        → WaitStep r s
    push_sleeps :
        {r : Room A} (x : A)
        → queue_push (some r.queue) x ≡ done waits
        → WaitStep r (record r { push_sleepers = r.push_sleepers + 1 })
    push_again :
        {r s : Room A} (k : ℕ) (x : A) (q : Queue A)
        → r.push_woken ≡ suc k
        → queue_push (some r.queue) x ≡ done (passed q)
        → Signal (record r { queue = q; push_woken = k }) s
        → WaitStep r s
    push_sleeps_again :
        {r : Room A} (k : ℕ) (x : A)
        → r.push_woken ≡ suc k
        → queue_push (some r.queue) x ≡ done waits
        → WaitStep r (record r { push_sleepers = r.push_sleepers + 1; push_woken = k })
    pop :
        {r s : Room A} (x : Option A) (q : Queue A)
        → queue_pop (some r.queue) true ≡ done (passed (x, q))
        → Signal (record r { queue = q }) s
        → WaitStep r s
    pop_sleeps :
        {r : Room A}
        → queue_pop (some r.queue) true ≡ done waits
        → WaitStep r (record r { pop_sleepers = r.pop_sleepers + 1 })
    pop_again :
        {r s : Room A} (k : ℕ) (x : Option A) (q : Queue A)
        → r.pop_woken ≡ suc k
        → queue_pop (some r.queue) true ≡ done (passed (x, q))
        → Signal (record r { queue = q; pop_woken = k }) s
        → WaitStep r s
    pop_sleeps_again :
        {r : Room A} (k : ℕ)
        → r.pop_woken ≡ suc k
        → queue_pop (some r.queue) true ≡ done waits
        → WaitStep r (record r { pop_sleepers = r.pop_sleepers + 1; pop_woken = k })
    spurious : {r s : Room A} → Signal r s → WaitStep r s

  -- Nobody waits at a queue that was just made.
  abbrev pub at_rest : Queue A → Room A
  at_rest q = record {
    queue = q;
    pop_sleepers = 0;
    push_sleepers = 0;
    pop_woken = 0;
    push_woken = 0;
  }

  -- The runs from there in which no `queue_push` goes to sleep.
  pub data Unblocked (q : Queue A) : Room A → Type ℓ where
    rest : Unblocked q (at_rest q)
    then_step : {r s : Room A} → Unblocked q r → WaitStep r s → s.push_sleepers ≡ 0 → Unblocked q s
