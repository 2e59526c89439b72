-- ===== src/Tests/Shutdowns.antt =====
-- The shutdown of the worker pool.
use cse130_asgn.Base.{◌≤◌, [], ◌∷◌, none, refl, ◌⊎◌}
use cse130_asgn.Pool.{Request, Pool, Reachable, start_pool}
use cse130_asgn.Pool.Shutdown.{Ending, TermStep, TermRun, no_step, and_step, stopped}
use cse130_asgn.Pool.Shutdown.Ends.{IsOver, shutdown_ends}

abbrev only : Request
only = record { place = 0; fd = none }

-- One request and one worker, stopped before the first connection.
abbrev at_rest : Pool
at_rest = start_pool (only ∷ []) 1

-- The semaphore is posted, and the worker returns.
abbrev left_alone : Ending
left_alone = record (stopped at_rest 1) {
  pool = record at_rest { tokens = 0; waiting = 0 };
  phase = cse130_asgn.Pool.Shutdown.posting 0;
  exited = 1;
}

shutdown_ends_example : (2 ≤ 7) × (IsOver 1 left_alone ⊎ ((f : Ending) × TermStep 1 1 left_alone f))
shutdown_ends_example =
    shutdown_ends (only ∷ []) 1 at_rest Reachable.at_start refl 2 left_alone
      (and_step (and_step no_step (TermStep.post 0 refl)) (TermStep.leave 0 0 refl refl))
