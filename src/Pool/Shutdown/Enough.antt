-- ===== src/Pool/Shutdown/Enough.antt =====
-- httpserver.c: the steps of the shutdown keep its invariant and are bounded, and it does not stop
-- before its end.
use cse130_asgn.Base.{ℕ, suc, ◌≤◌, true, length, ◌≡◌, ap, arith}
use cse130_asgn.Pool.{Pool, WorkStep}
use cse130_asgn.Pool.Sound.{push_room, pop_first, length_out, length_in}
use cse130_asgn.Pool.Shutdown.{Ending, past_wait, TermStep}
use cse130_asgn.Pool.Shutdown.Measure.{Stopping, posts_left, joins_left, phase_left, steps_left}

module _ (capacity threads : ℕ) where
  work-Stopping :
      {e : Ending} {q : Pool} (s : WorkStep capacity e.pool q)
      → past_wait s ≡ true
      → Stopping capacity threads e
      → Stopping capacity threads (record e { pool = q })
        × (suc (steps_left threads (record e { pool = q })) ≤ steps_left threads e)
  work-Stopping (WorkStep.wait k t a b) w i = cc
  work-Stopping {e} (WorkStep.pop_open k fd r jobs a popped o) w i =
      let l = ap length (pop_first e.pool.jobs r jobs popped) in
      (
        record {
          jobs_enough = omega (arith, l, i.jobs_enough);
          tokens_enough = omega (arith, i.tokens_enough);
          workers_eq = omega (arith, i.workers_eq);
          joined_le = i.joined_le;
          in_room = omega (arith, l, i.in_room);
        },
        omega arith,
      )
  work-Stopping {e} (WorkStep.pop_closed k r jobs a popped o) w i =
      let l = ap length (pop_first e.pool.jobs r jobs popped) in
      (
        record {
          jobs_enough = omega (arith, l, i.jobs_enough);
          tokens_enough = omega (arith, i.tokens_enough);
          workers_eq = omega (arith, i.workers_eq);
          joined_le = i.joined_le;
          in_room = omega (arith, l, i.in_room);
        },
        omega arith,
      )
  work-Stopping (WorkStep.finish r before after a) w i =
      let l = length_out before r after a in
      (
        record {
          jobs_enough = i.jobs_enough;
          tokens_enough = omega (arith, l, i.tokens_enough);
          workers_eq = omega (arith, l, i.workers_eq);
          joined_le = i.joined_le;
          in_room = omega (arith, l, i.in_room);
        },
        omega (arith, l),
      )
  work-Stopping {e} (WorkStep.give_back r before after free a push) w i =
      let l = length_out before r after a in
      let m = length_in e.pool.free r (push_room capacity e.pool.free r free push) in
      (
        record {
          jobs_enough = i.jobs_enough;
          tokens_enough = omega (arith, l, i.tokens_enough);
          workers_eq = omega (arith, l, i.workers_eq);
          joined_le = i.joined_le;
          in_room = omega (arith, l, m, i.in_room);
        },
        omega (arith, l),
      )
  work-Stopping (WorkStep.block r before after a) w i =
      let l = length_out before r after a in
      (
        record {
          jobs_enough = omega (arith, i.jobs_enough);
          tokens_enough = omega (arith, l, i.tokens_enough);
          workers_eq = omega (arith, l, i.workers_eq);
          joined_le = i.joined_le;
          in_room = omega (arith, l, i.in_room);
        },
        omega (arith, l),
      )
  work-Stopping {e} (WorkStep.queue_again r before after jobs a push) w i =
      let l = length_out before r after a in
      let m = length_in e.pool.jobs r (push_room capacity e.pool.jobs r jobs push) in
      (
        record {
          jobs_enough = omega (arith, l, m, i.jobs_enough);
          tokens_enough = omega (arith, l, i.tokens_enough);
          workers_eq = omega (arith, l, i.workers_eq);
          joined_le = i.joined_le;
          in_room = omega (arith, l, m, i.in_room);
        },
        omega (arith, l),
      )

  -- Each step of the shutdown keeps the invariant, and uses a step up.
  pub TermStep-Stopping :
      {e f : Ending}
      → Stopping capacity threads e
      → TermStep capacity threads e f
      → Stopping capacity threads f × (suc (steps_left threads f) ≤ steps_left threads e)
  TermStep-Stopping i (TermStep.post k a) = (
    record {
      jobs_enough = i.jobs_enough;
      tokens_enough = omega (arith, ap posts_left a, i.tokens_enough);
      workers_eq = i.workers_eq;
      joined_le = omega (arith, ap (joins_left threads) a, i.joined_le);
      in_room = i.in_room;
    },
    omega (arith, ap (phase_left threads) a),
  )
  TermStep-Stopping i (TermStep.start_joins a) = (
    record {
      jobs_enough = i.jobs_enough;
      tokens_enough = omega (arith, ap posts_left a, i.tokens_enough);
      workers_eq = i.workers_eq;
      joined_le = omega arith;
      in_room = i.in_room;
    },
    omega (arith, ap (phase_left threads) a),
  )
  TermStep-Stopping i (TermStep.join k a lt) = (
    record {
      jobs_enough = i.jobs_enough;
      tokens_enough = omega (arith, ap posts_left a, i.tokens_enough);
      workers_eq = i.workers_eq;
      joined_le = omega (arith, lt);
      in_room = i.in_room;
    },
    omega (arith, ap (phase_left threads) a),
  )
  TermStep-Stopping i (TermStep.leave k t a b) = (
    record {
      jobs_enough = i.jobs_enough;
      tokens_enough = omega (arith, i.tokens_enough);
      workers_eq = omega (arith, i.workers_eq);
      joined_le = omega (arith, i.joined_le);
      in_room = i.in_room;
    },
    omega arith,
  )
  TermStep-Stopping i (TermStep.work step past) = work-Stopping step past i
