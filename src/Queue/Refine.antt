-- ===== src/Queue/Refine.antt =====
-- queue.c: the ring against the bounded queue of the items that it holds.
use native.Mathlib.Nat.{mod-add-mod}
use cse130_asgn.Base.{
  ℕ, suc, ◌+◌, ◌-◌, ◌%◌, ◌<◌, true, Bool-cases, inl, inr, List, [], ◌∷◌, ◌++◌, Option, some,
  Outcome, done, ◌==◌, if◌then◌else◌, get_elem?, set, length, ==_ne, ◌≡◌, ◌≢◌, refl, sym, ◌∙◌, ap,
  arith, ℕ_discrete, length-append, length-set, get_elem?-set_self, get_elem?-set_ne,
  get_elem?-append, get_elem?-append_left,
}
use cse130_asgn.Queue.{
  Queue, Attempt, waits, passed, queue_push, queue_pop, push_at, pop_at, put_slot, get_slot, wrap,
}
use cse130_asgn.Queue.Spec
use cse130_asgn.Queue.Represents.{Represents, mod_low, wrap_in, slots_distinct, next_slot}

module _ {ℓ} {A : Type ℓ} where
  -- The queue that `push_at` leaves.
  abbrev pushed : Queue A → A → Queue A
  pushed q x = record q {
    head = (q.head + 1) % q.capacity;
    buf = set q.buf q.head (some x);
    len = q.len + 1;
  }

  push_at-pushed :
      (q : Queue A) (xs : List A) (x : A)
      → Represents q xs
      → push_at q x ≡ done (passed (pushed q x))
  unfolding push_at put_slot wrap
  push_at-pushed q xs x r = ground arith

  pushed-Represents :
      (q : Queue A) (xs : List A) (x : A)
      → Represents q xs
      → q.len ≢ q.capacity
      → Represents (pushed q x) (xs ++ x ∷ [])
  pushed-Represents q xs x r room = record {
    slots = length-set q.buf q.head (some x) ∙ r.slots;
    tail_in = r.tail_in;
    head_eq =
        ap (λ (n : ℕ). (n + 1) % q.capacity) r.head_eq
        ∙ mod-add-mod (q.tail + q.len) q.capacity 1
        ∙ ap (λ (n : ℕ). n % q.capacity) (omega arith);
    len_in = omega (arith, r.len_in);
    size = omega (arith, length-append xs (x ∷ []), r.size);
    item = λ i lt. item_at i lt;
  }
    where
      spot : ℕ → ℕ
      spot i = (q.tail + i) % q.capacity

      old_slot :
          (i : ℕ)
          → i < q.len
          → get_elem? (set q.buf q.head (some x)) (spot i) ≡ get_elem? q.buf (spot i)
      old_slot i lt = get_elem?-set_ne q.buf q.head (spot i) (some x) (λ e.
          slots_distinct q.capacity q.tail i q.len r.tail_in lt (omega (arith, r.len_in))
            (sym r.head_eq ∙ e))

      new_slot : get_elem? (set q.buf q.head (some x)) (spot q.len) ≡ some (some x)
      new_slot =
          rw (← r.head_eq) (
            get_elem?-set_self q.buf q.head (some x) (omega (arith, r.slots, r.head_eq, r.tail_in)))

      item_at :
          (i : ℕ)
          → i < q.len + 1
          → get_elem? (set q.buf q.head (some x)) (spot i) ≡ some (get_elem? (xs ++ x ∷ []) i)
      item_at i lt = elim (ℕ_discrete i q.len) [
        | yes e ↦ rw e (new_slot ∙ ap some (sym (get_elem?-append xs x [] q.len (sym r.size))))
        | no n ↦
            old_slot i (omega arith)
            ∙ r.item i (omega arith)
            ∙ ap some (sym (get_elem?-append_left xs (x ∷ []) i (omega (arith, r.size))))
      ]

  -- The queue that `pop_at` leaves.
  abbrev popped : Queue A → Queue A
  popped q = record q { tail = (q.tail + 1) % q.capacity; len = q.len - 1 }

  pop_at-popped :
      (q : Queue A) (x : A) (xs : List A)
      → Represents q (x ∷ xs)
      → pop_at q ≡ done (passed (some x, popped q))
  unfolding pop_at get_slot wrap
  pop_at-popped q x xs r = ground (arith, oldest)
    where
      first_spot : q.tail ≡ (q.tail + 0) % q.capacity
      first_spot = omega (arith, mod_low q.capacity (q.tail + 0) (omega (arith, r.tail_in)))

      oldest : get_elem? q.buf q.tail ≡ some (some x)
      oldest = ap (get_elem? q.buf) first_spot ∙ r.item 0 (omega (arith, r.size))

  popped-Represents :
      (q : Queue A) (x : A) (xs : List A) → Represents q (x ∷ xs) → Represents (popped q) xs
  popped-Represents q x xs r = record {
    slots = r.slots;
    tail_in = wrap_in q.capacity (q.tail + 1) (omega (arith, r.tail_in));
    head_eq =
        r.head_eq
        ∙ ap (λ (n : ℕ). n % q.capacity) (omega (arith, r.size))
        ∙ sym (next_slot q.capacity q.tail (q.len - 1));
    len_in = omega (arith, r.len_in);
    size = omega (arith, r.size);
    item = λ i lt. rw (next_slot q.capacity q.tail i) (r.item (suc i) (omega arith));
  }

  queue_push_test :
      (q : Queue A) (x : A)
      → queue_push (some q) x ≡ (if q.len == q.capacity then done waits else push_at q x)
  unfolding queue_push
  queue_push_test q x = refl

  queue_pop_empty : (q : Queue A) → q.len ≡ 0 → queue_pop (some q) true ≡ done waits
  unfolding queue_pop
  queue_pop_empty q e = ground arith

  queue_pop_ready : (q : Queue A) → q.len ≢ 0 → queue_pop (some q) true ≡ pop_at q
  unfolding queue_pop
  queue_pop_ready q n = ground arith

  -- A ring with room takes the item.
  pub queue_push_room :
      (q : Queue A) (xs : List A) (x : A)
      → Represents q xs
      → length xs < q.capacity
      → (q' : Queue A) × (queue_push (some q) x ≡ done (passed q'))
        × Represents q' (xs ++ x ∷ [])
        × (q'.capacity ≡ q.capacity)
  queue_push_room q xs x r lt =
      let room : q.len ≢ q.capacity = λ e. absurd (omega (arith, r.size)) in
      (
        pushed q x,
        rw (queue_push_test, ==_ne q.len q.capacity room, push_at-pushed q xs x r) refl,
        pushed-Represents q xs x r room,
        refl,
      )

  -- How a call of queue.c answers a call of the bounded queue.
  pub data PushRefines (capacity : ℕ)
      : Outcome (Attempt (Queue A)) → Attempt (List A) → Type ℓ where
    push_waits : PushRefines capacity (done waits) waits
    push_passes :
        {q : Queue A} {xs : List A}
        → Represents q xs
        → q.capacity ≡ capacity
        → PushRefines capacity (done (passed q)) (passed xs)

  pub data PopRefines (capacity : ℕ)
      : Outcome (Attempt (Option A × Queue A)) → Attempt (Option A × List A) → Type ℓ where
    pop_waits : PopRefines capacity (done waits) waits
    pop_passes :
        {x : Option A} {q : Queue A} {xs : List A}
        → Represents q xs
        → q.capacity ≡ capacity
        → PopRefines capacity (done (passed (x, q))) (passed (x, xs))

  -- On a ring that represents some items, `queue_push` waits exactly when the queue is full, and else
  -- appends the item: no access is out of bounds, and the invariant is kept.
  pub queue_push-refines :
      (q : Queue A) (xs : List A) (x : A)
      → Represents q xs
      → PushRefines q.capacity (queue_push (some q) x) (Spec.push q.capacity xs x)
  unfolding Spec.push
  queue_push-refines q xs x r = rw r.size (elim (Bool-cases (q.len == q.capacity)) [
    | inl full ↦ rw (full, queue_push_test, full) push_waits
    | inr room ↦
        rw (room, queue_push_test, room, push_at-pushed q xs x r)
          (push_passes (pushed-Represents q xs x r (λ e. ground arith)) refl)
  ])

  -- On a ring that represents some items, `queue_pop` waits exactly when the queue is empty, and else
  -- takes the oldest item: no access is out of bounds, and the invariant is kept.
  pub queue_pop-refines :
      (q : Queue A) (xs : List A)
      → Represents q xs
      → PopRefines q.capacity (queue_pop (some q) true) (Spec.pop xs)
  unfolding Spec.pop
  queue_pop-refines q [] r = rw (queue_pop_empty q (sym r.size)) pop_waits
  queue_pop-refines q (x ∷ xs) r =
      rw (queue_pop_ready q (omega (arith, r.size)), pop_at-popped q x xs r)
        (pop_passes (popped-Represents q x xs r) refl)

  -- From a ring that represents some items, no interleaving of calls, by any number of threads, tells
  -- the ring from the bounded queue. The list has the calls in the order in which they take the mutex; a call that waits is in it again
  -- when it is woken.
  pub calls-run :
      (ops : List (Spec.Op A)) (q : Queue A) (xs : List A)
      → Represents q xs
      → Spec.calls q ops ≡ done (Spec.run q.capacity xs ops)
  unfolding Spec.calls Spec.run
  calls-run [] q xs r = refl
  calls-run (Spec.Op.put x ∷ ops) q xs r = rw r.size (elim (Bool-cases (q.len == q.capacity)) [
    | inl full ↦ rw (full, queue_push_test, full, calls-run ops q xs r)
    | inr room ↦ rw (
      room,
      queue_push_test,
      room,
      push_at-pushed q xs x r,
      calls-run ops (pushed q x) (xs ++ x ∷ []) (pushed-Represents q xs x r (λ e. ground arith)),
    )
  ])
  calls-run (Spec.Op.get ∷ ops) q [] r = rw (queue_pop_empty q (sym r.size), calls-run ops q [] r)
  calls-run (Spec.Op.get ∷ ops) q (x ∷ xs) r = rw (
    queue_pop_ready q (omega (arith, r.size)),
    pop_at-popped q x xs r,
    calls-run ops (popped q) xs (popped-Represents q x xs r),
  )
