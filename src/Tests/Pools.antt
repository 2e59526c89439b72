-- ===== src/Tests/Pools.antt =====
-- The worker pool.
use cse130_asgn.Base.{[], ◌∷◌, none, some, ◌≡◌, ◌≢◌, refl}
use cse130_asgn.Queue.{passed}
use cse130_asgn.Queue.Spec
use cse130_asgn.Pool.{
  Request, accepting, queueing, Pool, AcceptStep, WorkStep, Step, Reachable, start_pool,
}
use cse130_asgn.Pool.Sound.{Sound, Reachable-Sound}
use cse130_asgn.Pool.Room.{pushes_pass}

abbrev first : Request
first = record { place = 0; fd = none }

abbrev second : Request
second = record { place = 1; fd = none }

-- Two requests, and one worker, which has taken the token of a first connection.
abbrev woken : Pool
woken = record {
  free = second ∷ [];
  jobs = record { place = 0; fd = some 9 } ∷ [];
  tokens = 0;
  waiting = 0;
  popping = 1;
  running = [];
  closed = [];
  blocked = [];
  main = accepting;
  dropped = [];
}

woken-Reachable : Reachable 2 (start_pool (first ∷ second ∷ []) 1) woken
unfolding Spec.push Spec.pop
woken-Reachable =
    Reachable.then_step
      (Reachable.then_step
        (Reachable.then_step
          (Reachable.then_step
            (Reachable.then_step Reachable.at_start (Step.by_main (AcceptStep.accept 9 refl)))
            (Step.by_main (AcceptStep.take_free 9 first (second ∷ []) refl refl)))
          (Step.by_main (AcceptStep.post (record { place = 0; fd = some 9 }) refl)))
        (Step.by_main (
          AcceptStep.queue (record { place = 0; fd = some 9 })
            (record { place = 0; fd = some 9 } ∷ []) refl refl)))
      (Step.by_worker (WorkStep.wait 0 0 refl refl))

Reachable-Sound_example : Sound 2 woken
Reachable-Sound_example = Reachable-Sound 2 (first ∷ second ∷ []) 1 woken refl woken-Reachable

-- The same before the first connection is queued.
abbrev handing_over : Pool
handing_over = record woken {
  jobs = [];
  tokens = 1;
  waiting = 1;
  popping = 0;
  main = queueing (record { place = 0; fd = some 9 });
}

handing_over-Reachable : Reachable 2 (start_pool (first ∷ second ∷ []) 1) handing_over
unfolding Spec.pop
handing_over-Reachable =
    Reachable.then_step
      (Reachable.then_step
        (Reachable.then_step Reachable.at_start (Step.by_main (AcceptStep.accept 9 refl)))
        (Step.by_main (AcceptStep.take_free 9 first (second ∷ []) refl refl)))
      (Step.by_main (AcceptStep.post (record { place = 0; fd = some 9 }) refl))

pushes_pass_example :
    ((r : Request) → handing_over.main ≡ queueing r → Spec.push 2 [] r ≡ passed (r ∷ []))
    × (((r : Request) → handing_over.blocked ≢ [] → Spec.push 2 [] r ≡ passed (r ∷ []))
        × ((r : Request)
            → handing_over.closed ≢ []
            → Spec.push 2 (second ∷ []) r ≡ passed (second ∷ r ∷ [])))
pushes_pass_example = pushes_pass (first ∷ second ∷ []) 1 handing_over handing_over-Reachable
