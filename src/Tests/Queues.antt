-- ===== src/Tests/Queues.antt =====
-- The queue.
use cse130_asgn.Base.{
  ℕ, zero, suc, ◌≤◌, ◌<◌, ◌+◌, ◌%◌, get_elem?, [], ◌∷◌, some, none, true, done, ◌≡◌, refl, arith,
}
use cse130_asgn.Queue.{Queue, queue_push, queue_pop, passed}
use cse130_asgn.Queue.Spec
use cse130_asgn.Queue.Represents.{Represents}
use cse130_asgn.Queue.Waits.{Unblocked, rest, then_step, WaitStep, wake_pop}
use cse130_asgn.Queue.Waits.Awake.{queue_pop_awake}
use cse130_asgn.Queue.Refine.{
  PushRefines, PopRefines, queue_push-refines, queue_pop-refines, calls-run,
}

-- A new queue of two slots.
abbrev two_slots : Queue ℕ
two_slots = record { head = 0; tail = 0; len = 0; capacity = 2; buf = none ∷ none ∷ [] }

two_slots-Represents : Represents two_slots []
two_slots-Represents = record {
  slots = refl;
  tail_in = omega arith;
  head_eq = refl;
  len_in = omega arith;
  size = refl;
  item = λ i lt. absurd (omega arith);
}

queue_push-refines_example : PushRefines 2 (queue_push (some two_slots) 7) (passed (7 ∷ []))
unfolding Spec.push
queue_push-refines_example = queue_push-refines two_slots [] 7 two_slots-Represents

-- The queue with 7 in it.
abbrev one_item : Queue ℕ
one_item = record { head = 1; tail = 0; len = 1; capacity = 2; buf = some 7 ∷ none ∷ [] }

one_item-Represents : Represents one_item (7 ∷ [])
one_item-Represents = record {
  slots = refl;
  tail_in = omega arith;
  head_eq = refl;
  len_in = omega arith;
  size = refl;
  item = λ i lt. first i lt;
}
  where
    first : (i : ℕ) → i < 1 → get_elem? one_item.buf ((0 + i) % 2) ≡ some (get_elem? (7 ∷ []) i)
    first zero lt = refl
    first (suc i) lt = absurd (omega arith)

queue_pop-refines_example : PopRefines 2 (queue_pop (some one_item) true) (passed (some 7, []))
unfolding Spec.pop
queue_pop-refines_example = queue_pop-refines one_item (7 ∷ []) one_item-Represents

calls-run_example :
    Spec.calls two_slots
      (Spec.put 7 ∷ Spec.put 8 ∷ Spec.put 9 ∷ Spec.get ∷ Spec.put 9 ∷ Spec.get ∷ [])
    ≡ done (Spec.stored ∷ Spec.stored ∷ Spec.blocked ∷ Spec.took 7 ∷ Spec.stored ∷ Spec.took 8 ∷ [])
unfolding Spec.run
calls-run_example =
    calls-run (Spec.put 7 ∷ Spec.put 8 ∷ Spec.put 9 ∷ Spec.get ∷ Spec.put 9 ∷ Spec.get ∷ [])
      two_slots [] two_slots-Represents

-- Two threads sleep in `queue_pop`, and an item comes.
one_woken : Unblocked two_slots (record {
  queue = one_item;
  pop_sleepers = 1;
  push_sleepers = 0;
  pop_woken = 1;
  push_woken = 0;
})
unfolding queue_push queue_pop
one_woken =
    then_step
      (then_step (then_step rest (WaitStep.pop_sleeps refl) refl) (WaitStep.pop_sleeps refl) refl)
      (WaitStep.push 7 one_item refl (wake_pop 1 refl)) refl

queue_pop_awake_example : one_item.len ≤ 1
queue_pop_awake_example = queue_pop_awake one_woken (omega arith)
