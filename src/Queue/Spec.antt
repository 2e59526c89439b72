-- ===== src/Queue/Spec.antt =====
-- queue.c: the bounded queue, and calls in the order in which they take the mutex.
use cse130_asgn.Base.{
  ℕ, List, [], ◌∷◌, ◌++◌, Option, none, some, true, Outcome, done, ◌>>=◌, ◌==◌, if◌then◌else◌,
  length,
}
use cse130_asgn.Queue.{Queue, Attempt, rejected, waits, passed, queue_push, queue_pop}

pub data Op {ℓ} (A : Type ℓ) : Type ℓ where
  put : A → Op A
  get : Op A

pub data Reply {ℓ} (A : Type ℓ) : Type ℓ where
  refused : Reply A
  blocked : Reply A
  stored : Reply A
  took : A → Reply A

-- The items, the oldest first.
module _ {ℓ} {A : Type ℓ} where
  unfoldable pub push : ℕ → List A → A → Attempt (List A)
  push capacity xs x = if length xs == capacity then waits else passed (xs ++ x ∷ [])

  unfoldable pub pop : List A → Attempt (Option A × List A)
  pop [] = waits
  pop (x ∷ xs) = passed (some x, xs)

  unfoldable pub run : ℕ → List A → List (Op A) → List (Reply A)
  run capacity xs [] = []
  run capacity xs (put x ∷ ops) =
      if length xs == capacity
      then blocked ∷ run capacity xs ops
      else stored ∷ run capacity (xs ++ x ∷ []) ops
  run capacity [] (get ∷ ops) = blocked ∷ run capacity [] ops
  run capacity (x ∷ xs) (get ∷ ops) = took x ∷ run capacity xs ops

  -- The same calls of the ring, one after the other: a call that waits leaves the queue as it is.
  reply :
      {B : Type ℓ}
      → Outcome (Attempt B)
      → Queue A
      → (B → Queue A × Reply A)
      → Outcome (Queue A × Reply A)
  reply m q f = do
    r ← m
    elim r [ rejected ↦ done (q, refused) | waits ↦ done (q, blocked) | passed b ↦ done (f b) ]

  took_slot : Option A → Reply A
  took_slot none = refused
  took_slot (some x) = took x

  pub call : Queue A → Op A → Outcome (Queue A × Reply A)
  call q (put x) = reply (queue_push (some q) x) q (λ q'. (q', stored))
  call q get = reply (queue_pop (some q) true) q (λ p. (p.1, took_slot p.0))

  unfoldable pub calls : Queue A → List (Op A) → Outcome (List (Reply A))
  unfolding call reply took_slot
  calls q [] = done []
  calls q (op ∷ ops) = do (q', r) ← call q op; rs ← calls q' ops; done (r ∷ rs)
