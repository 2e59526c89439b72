-- ===== src/Queue.antt =====
-- queue.c: the blocking queue of pointers, generic in what it holds.
-- Each call is one critical section of `head_mutex`. One that finds the queue full, or empty,
-- releases the mutex in `pthread_cond_wait`, changes nothing, and tests again when it is woken: the
-- model's `waits`. The mutexes and the condition carry no data, and are left out of the record.
pub mod Spec
pub mod Represents
pub mod Refine
pub mod Waits
use cse130_asgn.Base.{
  ℕ, ◌+◌, ◌-◌, ◌%◌, Bool, true, false, ◌||◌, not, List, [], ◌∷◌, Option, none, some, Outcome, done,
  fault, ◌>>=◌, ltb, ◌==◌, if◌then◌else◌, length, get_elem?, set, replicate,
}

-- A slot is `none` until something is stored in it.
pub record Queue {ℓ} (A : Type ℓ) : Type ℓ where
  pub head : ℕ
  pub tail : ℕ
  pub len : ℕ
  pub capacity : ℕ
  pub buf : List (Option A)

-- What a call does: it returns false on a null argument, it waits, or it passes.
pub data Attempt {ℓ} (B : Type ℓ) : Type ℓ where
  rejected : Attempt B
  waits : Attempt B
  passed : B → Attempt B

-- `int` division by zero is a fault.
unfoldable pub wrap : ℕ → ℕ → Outcome ℕ
wrap a n = if n == 0 then fault else done (a % n)

module _ {ℓ} {A : Type ℓ} where
  -- The flags say whether the two calls of `malloc` succeed.
  unfoldable pub queue_new : Bool → Bool → ℕ → Option (Queue A)
  queue_new true true size =
      some (record { head = 0; tail = 0; len = 0; capacity = size; buf = replicate size none })
  queue_new _ _ size = none

  -- `q->buf[spot] = elem`
  put_slot : List (Option A) → ℕ → A → Outcome (List (Option A))
  put_slot buf spot x = if ltb spot (length buf) then done (set buf spot (some x)) else fault

  push_at : Queue A → A → Outcome (Attempt (Queue A))
  push_at q x = do
    next ← wrap (q.head + 1) q.capacity
    buf ← put_slot q.buf q.head x
    done (passed (record q { head = next; buf = buf; len = q.len + 1 }))

  -- `none` is a null queue.
  unfoldable pub queue_push : Option (Queue A) → A → Outcome (Attempt (Queue A))
  unfolding put_slot push_at wrap
  queue_push none x = done rejected
  queue_push (some q) x = if q.len == q.capacity then done waits else push_at q x

  -- `*elem = q->buf[spot]`; a slot that was never stored to gives `none`.
  get_slot : List (Option A) → ℕ → Outcome (Option A)
  get_slot buf spot = elim (get_elem? buf spot) [ none ↦ fault | some x ↦ done x ]

  pop_at : Queue A → Outcome (Attempt (Option A × Queue A))
  pop_at q = do
    next ← wrap (q.tail + 1) q.capacity
    x ← get_slot q.buf q.tail
    done (passed (x, record q { tail = next; len = q.len - 1 }))

  -- The flag says whether `elem` is a pointer to store through.
  unfoldable pub queue_pop : Option (Queue A) → Bool → Outcome (Attempt (Option A × Queue A))
  unfolding get_slot pop_at wrap
  queue_pop none elem = done rejected
  queue_pop (some q) false = done rejected
  queue_pop (some q) true = if q.len == 0 then done waits else pop_at q
