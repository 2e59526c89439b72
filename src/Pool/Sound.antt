-- ===== src/Pool/Sound.antt =====
-- httpserver.c: the invariant of the worker pool.
use mathlib.Core.Path.{subst}
use cse130_asgn.Base.{
  ℕ, suc, ◌+◌, List, [], ◌∷◌, ◌++◌, none, some, length, ◌≡◌, ◌≢◌, refl, sym, ap, arith,
  length-append, All, All-append, All-append_left, All-append_right,
}
use cse130_asgn.Queue.{passed}
use cse130_asgn.Queue.Spec
use cse130_asgn.Pool.{
  Request, Main, starting, queueing, Pool, AcceptStep, WorkStep, Step, Reachable, start_pool,
}

-- The request that the accept loop holds, and the one that it has posted.
abbrev pub held : Main → ℕ
held (starting r) = 1
held (queueing r) = 1
held _ = 0

abbrev pub posted : Main → ℕ
posted (queueing r) = 1
posted _ = 0

abbrev pub IsOpen : Request → Type 0
IsOpen r = r.fd ≢ none

abbrev pub MainOpen : Main → Type 0
MainOpen (starting r) = IsOpen r
MainOpen (queueing r) = IsOpen r
MainOpen _ = Unit

pub record Sound (capacity : ℕ) (p : Pool) : Type 0 where
  -- Each token, and each worker that has taken one, has a job in the queue or on its way there.
  pub tokens_eq : p.tokens + p.popping ≡ length p.jobs + length p.blocked + posted p.main
  -- The requests are where they are once, and all there.
  pub all_there :
      length p.free
        + length p.jobs
        + length p.running
        + length p.closed
        + length p.blocked
        + held p.main
      ≡ capacity
  pub none_dropped : p.dropped ≡ []
  pub jobs_open : All IsOpen p.jobs
  pub running_open : All IsOpen p.running
  pub blocked_open : All IsOpen p.blocked
  pub main_open : MainOpen p.main

pub push_room :
    (capacity : ℕ) (xs : List Request) (x : Request) (ys : List Request)
    → Spec.push capacity xs x ≡ passed ys
    → ys ≡ xs ++ x ∷ []
unfolding Spec.push
push_room capacity xs x ys h = ground arith

pub pop_first :
    (xs : List Request) (x : Request) (ys : List Request)
    → Spec.pop xs ≡ passed (some x, ys)
    → xs ≡ x ∷ ys
unfolding Spec.pop
pop_first [] x ys h = cc
pop_first (y ∷ xs) x ys h = cc

pub length_out :
    {xs : List Request} (before : List Request) (x : Request) (after : List Request)
    → xs ≡ before ++ x ∷ after
    → length xs ≡ suc (length (before ++ after))
length_out before x after e =
    omega (arith, ap length e, length-append before (x ∷ after), length-append before after)

pub length_in :
    {ys : List Request} (xs : List Request) (x : Request)
    → ys ≡ xs ++ x ∷ []
    → length ys ≡ suc (length xs)
length_in xs x e = omega (arith, ap length e, length-append xs (x ∷ []))

-- A list without one of its elements.
All-out :
    {xs : List Request} (before : List Request) (x : Request) (after : List Request)
    → xs ≡ before ++ x ∷ after
    → All IsOpen xs
    → IsOpen x × All IsOpen (before ++ after)
All-out before x after e h =
    let h' : All IsOpen (before ++ x ∷ after) = subst (All IsOpen) e h in
    let rest : All IsOpen (x ∷ after) = All-append_right IsOpen before (x ∷ after) h' in
    (rest.0, All-append IsOpen before after (All-append_left IsOpen before (x ∷ after) h') rest.1)

All-in :
    (xs : List Request) {ys : List Request} (x : Request)
    → ys ≡ xs ++ x ∷ []
    → All IsOpen xs
    → IsOpen x
    → All IsOpen ys
All-in xs x e h o = subst (All IsOpen) (sym e) (All-append IsOpen xs (x ∷ []) h (o, tt))

All-first :
    {xs ys : List Request} (x : Request) → xs ≡ x ∷ ys → All IsOpen xs → IsOpen x × All IsOpen ys
All-first x e h = subst (All IsOpen) e h

module _ (capacity : ℕ) where
  AcceptStep-Sound : {p q : Pool} → Sound capacity p → AcceptStep capacity p q → Sound capacity q
  AcceptStep-Sound s (AcceptStep.accept fd e) = record {
    tokens_eq = omega (arith, s.tokens_eq, ap posted e);
    all_there = omega (arith, s.all_there, ap held e);
    none_dropped = s.none_dropped;
    jobs_open = s.jobs_open;
    running_open = s.running_open;
    blocked_open = s.blocked_open;
    main_open = tt;
  }
  AcceptStep-Sound {p} s (AcceptStep.take_free fd r free e popped) = record {
    tokens_eq = omega (arith, s.tokens_eq, ap posted e);
    all_there = omega (arith, s.all_there, ap held e, ap length (pop_first p.free r free popped));
    none_dropped = s.none_dropped;
    jobs_open = s.jobs_open;
    running_open = s.running_open;
    blocked_open = s.blocked_open;
    main_open = λ z. cc;
  }
  AcceptStep-Sound s (AcceptStep.post r e) = record {
    tokens_eq = omega (arith, s.tokens_eq, ap posted e);
    all_there = omega (arith, s.all_there, ap held e);
    none_dropped = s.none_dropped;
    jobs_open = s.jobs_open;
    running_open = s.running_open;
    blocked_open = s.blocked_open;
    main_open = subst MainOpen e s.main_open;
  }
  AcceptStep-Sound {p} s (AcceptStep.queue r jobs e push) = record {
    tokens_eq = omega (
      arith,
      s.tokens_eq,
      ap posted e,
      length_in p.jobs r (push_room capacity p.jobs r jobs push),
    );
    all_there =
        omega (
          arith,
          s.all_there,
          ap held e,
          length_in p.jobs r (push_room capacity p.jobs r jobs push),
        );
    none_dropped = s.none_dropped;
    jobs_open =
        All-in p.jobs r (push_room capacity p.jobs r jobs push) s.jobs_open
          (subst MainOpen e s.main_open);
    running_open = s.running_open;
    blocked_open = s.blocked_open;
    main_open = tt;
  }

  WorkStep-Sound : {p q : Pool} → Sound capacity p → WorkStep capacity p q → Sound capacity q
  WorkStep-Sound s (WorkStep.wait k t e f) = record {
    tokens_eq = omega (arith, s.tokens_eq);
    all_there = omega (arith, s.all_there);
    none_dropped = s.none_dropped;
    jobs_open = s.jobs_open;
    running_open = s.running_open;
    blocked_open = s.blocked_open;
    main_open = s.main_open;
  }
  WorkStep-Sound {p} s (WorkStep.pop_open k fd r jobs e popped open_fd) = record {
    tokens_eq = omega (arith, s.tokens_eq, ap length (pop_first p.jobs r jobs popped));
    all_there = omega (arith, s.all_there, ap length (pop_first p.jobs r jobs popped));
    none_dropped = s.none_dropped;
    jobs_open = (All-first r (pop_first p.jobs r jobs popped) s.jobs_open).1;
    running_open = ((All-first r (pop_first p.jobs r jobs popped) s.jobs_open).0, s.running_open);
    blocked_open = s.blocked_open;
    main_open = s.main_open;
  }
  WorkStep-Sound {p} s (WorkStep.pop_closed k r jobs e popped none_fd) =
      absurd ((All-first r (pop_first p.jobs r jobs popped) s.jobs_open).0 none_fd)
  WorkStep-Sound s (WorkStep.finish r before after e) = record {
    tokens_eq = omega (arith, s.tokens_eq);
    all_there = omega (arith, s.all_there, length_out before r after e);
    none_dropped = s.none_dropped;
    jobs_open = s.jobs_open;
    running_open = (All-out before r after e s.running_open).1;
    blocked_open = s.blocked_open;
    main_open = s.main_open;
  }
  WorkStep-Sound {p} s (WorkStep.give_back r before after free e push) = record {
    tokens_eq = omega (arith, s.tokens_eq);
    all_there = omega (
      arith,
      s.all_there,
      length_out before r after e,
      length_in p.free r (push_room capacity p.free r free push),
    );
    none_dropped = s.none_dropped;
    jobs_open = s.jobs_open;
    running_open = s.running_open;
    blocked_open = s.blocked_open;
    main_open = s.main_open;
  }
  WorkStep-Sound s (WorkStep.block r before after e) = record {
    tokens_eq = omega (arith, s.tokens_eq);
    all_there = omega (arith, s.all_there, length_out before r after e);
    none_dropped = s.none_dropped;
    jobs_open = s.jobs_open;
    running_open = (All-out before r after e s.running_open).1;
    blocked_open = ((All-out before r after e s.running_open).0, s.blocked_open);
    main_open = s.main_open;
  }
  WorkStep-Sound {p} s (WorkStep.queue_again r before after jobs e push) = record {
    tokens_eq = omega (
      arith,
      s.tokens_eq,
      length_out before r after e,
      length_in p.jobs r (push_room capacity p.jobs r jobs push),
    );
    all_there = omega (
      arith,
      s.all_there,
      length_out before r after e,
      length_in p.jobs r (push_room capacity p.jobs r jobs push),
    );
    none_dropped = s.none_dropped;
    jobs_open =
        All-in p.jobs r (push_room capacity p.jobs r jobs push) s.jobs_open
          (All-out before r after e s.blocked_open).0;
    running_open = s.running_open;
    blocked_open = (All-out before r after e s.blocked_open).1;
    main_open = s.main_open;
  }

  Step-Sound : {p q : Pool} → Sound capacity p → Step capacity p q → Sound capacity q
  Step-Sound s (Step.by_main step) = AcceptStep-Sound s step
  Step-Sound s (Step.by_worker step) = WorkStep-Sound s step

  start-Sound :
      (requests : List Request) (threads : ℕ)
      → length requests ≡ capacity
      → Sound capacity (start_pool requests threads)
  start-Sound requests threads e = record {
    tokens_eq = refl;
    all_there = omega (arith, e);
    none_dropped = refl;
    jobs_open = tt;
    running_open = tt;
    blocked_open = tt;
    main_open = tt;
  }

  -- In every state that the server reaches from its start, with as many requests as the queues hold,
  -- the tokens match the jobs, all the requests are there, and none was dropped.
  pub Reachable-Sound :
      (requests : List Request) (threads : ℕ) (p : Pool)
      → length requests ≡ capacity
      → Reachable capacity (start_pool requests threads) p
      → Sound capacity p
  Reachable-Sound requests threads p e Reachable.at_start = start-Sound requests threads e
  Reachable-Sound requests threads p e (Reachable.then_step r step) =
      Step-Sound (Reachable-Sound requests threads _ e r) step
