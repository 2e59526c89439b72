-- ===== src/Queue/Waits/Awake.antt =====
-- queue.c: no wake-up is lost while `queue_push` does not sleep.
use cse130_asgn.Base.{suc, ◌+◌, ◌≤◌, ◌<◌, true, Option, some, done, ◌≡◌, refl, arith}
use cse130_asgn.Queue.{
  Queue, waits, passed, queue_push, queue_pop, push_at, pop_at, put_slot, get_slot, wrap,
}
use cse130_asgn.Queue.Waits.{
  Room, Signal, WaitStep, nobody, wake_pop, wake_push, Unblocked, rest, then_step,
}

module _ {ℓ} {A : Type ℓ} where
  -- While a thread sleeps in `queue_pop`, there is a thread that was woken for each item.
  record Attended (r : Room A) : Type ℓ where
    quiet : r.push_sleepers ≡ 0
    awake : 0 < r.pop_sleepers → r.queue.len ≤ r.pop_woken

  queue_push_len :
      (q q' : Queue A) (x : A) → queue_push (some q) x ≡ done (passed q') → q'.len ≡ q.len + 1
  unfolding queue_push push_at put_slot wrap
  queue_push_len q q' x h = ground arith

  queue_pop_len :
      (q q' : Queue A) (x : Option A)
      → queue_pop (some q) true ≡ done (passed (x, q'))
      → q.len ≡ suc q'.len
  unfolding queue_pop pop_at get_slot wrap
  queue_pop_len q q' x h = ground arith

  queue_pop_waits : (q : Queue A) → queue_pop (some q) true ≡ done waits → q.len ≡ 0
  unfolding queue_pop pop_at get_slot wrap
  queue_pop_waits q h = ground arith

  Signal-Attended :
      {r s : Room A}
      → Signal r s
      → r.push_sleepers ≡ 0
      → (0 < r.pop_sleepers → r.queue.len ≤ r.pop_woken + 1)
      → Attended s
  Signal-Attended (nobody e f) quiet near = record {
    quiet = quiet;
    awake = λ lt. absurd (omega arith);
  }
  Signal-Attended (wake_pop k e) quiet near = record {
    quiet = quiet;
    awake = λ lt. near (omega arith);
  }
  Signal-Attended (wake_push k e) quiet near = absurd (omega arith)

  step-Attended : {r s : Room A} → Attended r → WaitStep r s → s.push_sleepers ≡ 0 → Attended s
  step-Attended {r} a (WaitStep.push x q h g) quiet =
      Signal-Attended g a.quiet (λ lt. omega (arith, queue_push_len r.queue q x h, a.awake lt))
  step-Attended a (WaitStep.push_sleeps x h) quiet = absurd (omega arith)
  step-Attended {r} a (WaitStep.push_again k x q e h g) quiet =
      Signal-Attended g a.quiet (λ lt. omega (arith, queue_push_len r.queue q x h, a.awake lt))
  step-Attended a (WaitStep.push_sleeps_again k x e h) quiet = absurd (omega arith)
  step-Attended {r} a (WaitStep.pop x q h g) quiet =
      Signal-Attended g a.quiet (λ lt. omega (arith, queue_pop_len r.queue q x h, a.awake lt))
  step-Attended {r} a (WaitStep.pop_sleeps h) quiet = record {
    quiet = a.quiet;
    awake = λ lt. omega (arith, queue_pop_waits r.queue h);
  }
  step-Attended {r} a (WaitStep.pop_again k x q e h g) quiet =
      Signal-Attended g a.quiet (λ lt. omega (arith, queue_pop_len r.queue q x h, a.awake lt))
  step-Attended {r} a (WaitStep.pop_sleeps_again k e h) quiet = record {
    quiet = a.quiet;
    awake = λ lt. omega (arith, queue_pop_waits r.queue h);
  }
  step-Attended a (WaitStep.spurious g) quiet =
      Signal-Attended g a.quiet (λ lt. omega (arith, a.awake lt))

  Unblocked-Attended : {q : Queue A} {r : Room A} → Unblocked q r → Attended r
  Unblocked-Attended rest = record { quiet = refl; awake = λ lt. absurd (omega arith) }
  Unblocked-Attended (then_step run step quiet) = step-Attended (Unblocked-Attended run) step quiet

  -- From a queue at which nobody waits, in any order of calls, of signals to any of the threads that
  -- sleep and of wake-ups without a signal, as long as no `queue_push` goes to sleep: while a thread
  -- sleeps in `queue_pop`, for each item in the queue there is a thread that has been woken and is
  -- about to test again. No item stays in the queue while all who want it sleep.
  pub queue_pop_awake :
      {q : Queue A} {r : Room A} → Unblocked q r → 0 < r.pop_sleepers → r.queue.len ≤ r.pop_woken
  queue_pop_awake run lt = (Unblocked-Attended run).awake lt
