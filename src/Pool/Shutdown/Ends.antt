-- ===== src/Pool/Shutdown/Ends.antt =====
-- httpserver.c: the shutdown goes on until `main` has joined every worker.
use cse130_asgn.Base.{
  ℕ, zero, suc, ◌+◌, ◌*◌, ◌≤◌, ◌<◌, List, [], ◌∷◌, ◌++◌, some, Option-cases, length, ◌≡◌, refl, ap,
  arith, ◌⊎◌, inl, inr, ==_ne,
}
use cse130_asgn.Queue.{passed}
use cse130_asgn.Queue.Spec
use cse130_asgn.Pool.{Request, Pool, WorkStep, Reachable, start_pool}
use cse130_asgn.Pool.Sound.{Sound, posted, Reachable-Sound}
use cse130_asgn.Pool.Shutdown.{
  Phase, posting, joining, Ending, TermStep, TermRun, no_step, and_step, stopped,
}
use cse130_asgn.Pool.Shutdown.Measure.{Stopping, posts_left, steps_left, Reachable-workers}
use cse130_asgn.Pool.Shutdown.Enough.{TermStep-Stopping}

-- All workers have returned and are joined, and none of them holds a request.
pub record IsOver (threads : ℕ) (e : Ending) : Type 0 where
  pub joined : e.phase ≡ joining 0
  pub returned : e.exited ≡ threads
  pub none_running : e.pool.running ≡ []
  pub none_closed : e.pool.closed ≡ []
  pub none_blocked : e.pool.blocked ≡ []

list_cases : (xs : List Request) → (xs ≡ []) ⊎ ((x : Request) × (ys : List Request) × (xs ≡ x ∷ ys))
list_cases [] = inl refl
list_cases (x ∷ xs) = inr (x, xs, refl)

ℕ_cases : (n : ℕ) → (n ≡ 0) ⊎ ((k : ℕ) × (n ≡ suc k))
ℕ_cases zero = inl refl
ℕ_cases (suc n) = inr (n, refl)

push_passed :
    (capacity : ℕ) (xs : List Request) (r : Request)
    → length xs < capacity
    → Spec.push capacity xs r ≡ passed (xs ++ r ∷ [])
unfolding Spec.push
push_passed capacity xs r lt = rw (==_ne (length xs) capacity (omega arith)) refl

pop_passed :
    (xs : List Request) (x : Request) (ys : List Request)
    → xs ≡ x ∷ ys
    → Spec.pop xs ≡ passed (some x, ys)
unfolding Spec.pop
pop_passed xs x ys e = rw e refl

module _ (capacity threads : ℕ) (e : Ending) (i : Stopping capacity threads e) where
  abbrev Goes : Type 0
  Goes = (f : Ending) × TermStep capacity threads e f

  pop_goes :
      (k : ℕ) (r : Request) (jobs : List Request)
      → e.pool.popping ≡ suc k
      → e.pool.jobs ≡ r ∷ jobs
      → Goes
  pop_goes k r jobs a b = elim (Option-cases r.fd) [
    | inl closed ↦
        (_, TermStep.work (WorkStep.pop_closed k r jobs a (pop_passed _ r jobs b) closed) refl)
    | inr (fd, opened) ↦
        (_, TermStep.work (WorkStep.pop_open k fd r jobs a (pop_passed _ r jobs b) opened) refl)
  ]

  again_goes : (r : Request) (rest : List Request) → e.pool.blocked ≡ r ∷ rest → Goes
  again_goes r rest a = (
    _,
    TermStep.work
        (WorkStep.queue_again r [] rest _ a
          (push_passed capacity e.pool.jobs r (omega (arith, ap length a, i.in_room))))
        refl,
  )

  closed_goes : (r : Request) (rest : List Request) → e.pool.closed ≡ r ∷ rest → Goes
  closed_goes r rest a = (
    _,
    TermStep.work
        (WorkStep.give_back r [] rest _ a
          (push_passed capacity e.pool.free r (omega (arith, ap length a, i.in_room))))
        refl,
  )

  running_goes : (r : Request) (rest : List Request) → e.pool.running ≡ r ∷ rest → Goes
  running_goes r rest a = (_, TermStep.work (WorkStep.finish r [] rest a) refl)

  popping_goes : (k : ℕ) → e.pool.popping ≡ suc k → Goes
  popping_goes k a = elim (list_cases e.pool.jobs) [
    | inr (r, jobs, b) ↦ pop_goes k r jobs a b
    | inl no_jobs ↦ elim (list_cases e.pool.blocked) [
      | inr (r, rest, b) ↦ again_goes r rest b
      | inl no_blocked ↦
          absurd (omega (arith, i.jobs_enough, ap length no_jobs, ap length no_blocked))
    ]
  ]

  waiting_goes : (k : ℕ) → posts_left e.phase ≡ 0 → e.pool.waiting ≡ suc k → Goes
  waiting_goes k no_posts a = elim (ℕ_cases e.pool.tokens) [
    | inl no_tokens ↦ absurd (omega (arith, i.tokens_enough))
    | inr (t, b) ↦ (_, TermStep.leave k t a b)
  ]

  -- No worker is left but those that have returned.
  last_joins :
      (k : ℕ)
      → e.phase ≡ joining k
      → e.pool.waiting ≡ 0
      → e.pool.popping ≡ 0
      → e.pool.running ≡ []
      → e.pool.closed ≡ []
      → e.pool.blocked ≡ []
      → IsOver threads e ⊎ Goes
  last_joins zero j a b c d f = inl (record {
    joined = j;
    returned = omega (arith, i.workers_eq, ap length c, ap length d, ap length f);
    none_running = c;
    none_closed = d;
    none_blocked = f;
  })
  last_joins (suc k) j a b c d f =
      inr
        (_, TermStep.join k j (omega (arith, i.workers_eq, ap length c, ap length d, ap length f)))

  joining_goes : (k : ℕ) → e.phase ≡ joining k → IsOver threads e ⊎ Goes
  joining_goes k j = elim (ℕ_cases e.pool.waiting) [
    | inr (n, a) ↦ inr (waiting_goes n (ap posts_left j) a)
    | inl a ↦ elim (ℕ_cases e.pool.popping) [
      | inr (n, b) ↦ inr (popping_goes n b)
      | inl b ↦ elim (list_cases e.pool.running) [
        | inr (r, rest, c) ↦ inr (running_goes r rest c)
        | inl c ↦ elim (list_cases e.pool.closed) [
          | inr (r, rest, d) ↦ inr (closed_goes r rest d)
          | inl d ↦ elim (list_cases e.pool.blocked) [
            | inr (r, rest, f) ↦ inr (again_goes r rest f)
            | inl f ↦ last_joins k j a b c d f
          ]
        ]
      ]
    ]
  ]

  Stopping-goes : (ph : Phase) → e.phase ≡ ph → IsOver threads e ⊎ Goes
  Stopping-goes (posting zero) j = inr (_, TermStep.start_joins j)
  Stopping-goes (posting (suc k)) j = inr (_, TermStep.post k j)
  Stopping-goes (joining k) j = joining_goes k j

module _ (requests : List Request) (threads : ℕ) (p : Pool)
    (reached : Reachable (length requests) (start_pool requests threads) p)
    (not_posted : posted p.main ≡ 0) where
  sound : Sound (length requests) p
  sound = Reachable-Sound (length requests) requests threads p refl reached

  stopped-Stopping : Stopping (length requests) threads (stopped p threads)
  stopped-Stopping = record {
    jobs_enough = omega (arith, sound.tokens_eq);
    tokens_enough = omega (arith, Reachable-workers requests threads reached);
    workers_eq = omega (arith, Reachable-workers requests threads reached);
    joined_le = omega arith;
    in_room = omega (arith, sound.all_there);
  }

  run-Stopping :
      {n : ℕ} {e : Ending}
      → TermRun (length requests) threads (stopped p threads) n e
      → Stopping (length requests) threads e
        × (n + steps_left threads e ≤ steps_left threads (stopped p threads))
  run-Stopping no_step = (stopped-Stopping, omega arith)
  run-Stopping (and_step r s) =
      let (i, left) = run-Stopping r in
      let (i', less) = TermStep-Stopping (length requests) threads i s in (i', omega arith)

  -- From any state in which the accept loop can end, of a pool with as many requests as its queues
  -- hold: however the threads are interleaved and whatever `handle_request` returns, the shutdown takes
  -- at most six steps a worker and one more, and it does not get stuck before `main` has joined all
  -- workers and none of them holds a request.
  pub shutdown_ends :
      (n : ℕ) (e : Ending)
      → TermRun (length requests) threads (stopped p threads) n e
      → (n ≤ threads * 6 + 1)
        × (IsOver threads e ⊎ ((f : Ending) × TermStep (length requests) threads e f))
  shutdown_ends n e r =
      let (i, left) = run-Stopping r in
      (
        omega (arith, left, Reachable-workers requests threads reached),
        Stopping-goes (length requests) threads e i e.phase refl,
      )
