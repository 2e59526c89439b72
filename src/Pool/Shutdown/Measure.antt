-- ===== src/Pool/Shutdown/Measure.antt =====
-- httpserver.c: what the shutdown keeps, and what each of its steps uses up.
use cse130_asgn.Base.{ℕ, ◌+◌, ◌*◌, ◌≤◌, List, length, ◌≡◌, refl, arith}
use cse130_asgn.Pool.{Request, Pool, Step, WorkStep, AcceptStep, Reachable, start_pool}
use cse130_asgn.Pool.Sound.{held, length_out}
use cse130_asgn.Pool.Shutdown.{Phase, posting, joining, Ending}

-- The workers that have not returned.
abbrev pub workers_in : Pool → ℕ
workers_in p = p.waiting + p.popping + length p.running + length p.closed + length p.blocked

abbrev pub posts_left : Phase → ℕ
posts_left (posting k) = k
posts_left (joining k) = 0

abbrev pub joins_left : ℕ → Phase → ℕ
joins_left threads (posting k) = threads
joins_left threads (joining k) = k

pub record Stopping (capacity threads : ℕ) (e : Ending) : Type 0 where
  -- A worker behind `sem_wait` has a job.
  pub jobs_enough : e.pool.popping ≤ length e.pool.jobs + length e.pool.blocked
  -- There is a token for each worker, or will be.
  pub tokens_enough : workers_in e.pool ≤ e.pool.tokens + posts_left e.phase
  pub workers_eq : workers_in e.pool + e.exited ≡ threads
  pub joined_le : threads ≤ e.exited + joins_left threads e.phase
  -- No more requests than the queues hold.
  pub in_room :
      length e.pool.free
        + length e.pool.jobs
        + length e.pool.running
        + length e.pool.closed
        + length e.pool.blocked
        + held e.pool.main
      ≤ capacity

-- The workers of the pool before the shutdown.
WorkStep-workers : {capacity : ℕ} {p q : Pool} → WorkStep capacity p q → workers_in q ≡ workers_in p
WorkStep-workers (WorkStep.wait k t e f) = omega arith
WorkStep-workers (WorkStep.pop_open k fd r jobs e popped o) = omega arith
WorkStep-workers (WorkStep.pop_closed k r jobs e popped o) = omega arith
WorkStep-workers (WorkStep.finish r before after e) = omega (arith, length_out before r after e)
WorkStep-workers (WorkStep.give_back r before after free e push) =
    omega (arith, length_out before r after e)
WorkStep-workers (WorkStep.block r before after e) = omega (arith, length_out before r after e)
WorkStep-workers (WorkStep.queue_again r before after jobs e push) =
    omega (arith, length_out before r after e)

AcceptStep-workers :
    {capacity : ℕ} {p q : Pool} → AcceptStep capacity p q → workers_in q ≡ workers_in p
AcceptStep-workers (AcceptStep.accept fd e) = refl
AcceptStep-workers (AcceptStep.take_free fd r free e popped) = refl
AcceptStep-workers (AcceptStep.post r e) = refl
AcceptStep-workers (AcceptStep.queue r jobs e push) = refl

pub Reachable-workers :
    {capacity : ℕ} (requests : List Request) (threads : ℕ) {p : Pool}
    → Reachable capacity (start_pool requests threads) p
    → workers_in p ≡ threads
Reachable-workers requests threads Reachable.at_start = omega arith
Reachable-workers requests threads (Reachable.then_step r (Step.by_main s)) =
    omega (arith, AcceptStep-workers s, Reachable-workers requests threads r)
Reachable-workers requests threads (Reachable.then_step r (Step.by_worker s)) =
    omega (arith, WorkStep-workers s, Reachable-workers requests threads r)

-- The steps that are left at most.
abbrev pub phase_left : ℕ → Phase → ℕ
phase_left threads (posting k) = k + 1 + threads
phase_left threads (joining k) = k

abbrev pub steps_left : ℕ → Ending → ℕ
steps_left threads e =
    phase_left threads e.phase
    + e.pool.waiting
    + e.pool.popping * 4
    + length e.pool.running * 3
    + length e.pool.closed * 2
    + length e.pool.blocked * 2
