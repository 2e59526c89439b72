-- ===== src/Pool.antt =====
-- httpserver.c: the accept loop of `main` and the loop of `request_workers`, as the steps that the
-- threads take, in any interleaving, until the server is told to stop.
-- A step is one operation on what the threads share: a queue, the semaphore, or a request that one
-- thread holds. Workers are alike, so the state counts those that are at a place, or lists the
-- requests that they hold there. The two queues are the bounded queues of `Queue.Spec`.
pub mod Sound
pub mod Room
pub mod Shutdown
use cse130_asgn.Base.{ℕ, suc, ◌+◌, List, [], ◌∷◌, ◌++◌, Option, none, some, ◌≡◌}
use cse130_asgn.Queue.{Attempt, passed}
use cse130_asgn.Queue.Spec

-- A place in the request pool, and its descriptor; -1 is `none`.
pub record Request : Type 0 where
  pub place : ℕ
  pub fd : Option ℕ

-- Where the accept loop is: in `accept`; with a connection, before `queue_pop`; with a free request
-- that is initialised, before `sem_post`; and before `queue_push`.
pub data Main : Type 0 where
  accepting : Main
  taking : ℕ → Main
  starting : Request → Main
  queueing : Request → Main

pub record Pool : Type 0 where
  pub free : List Request
  pub jobs : List Request
  -- the value of `q_size`
  pub tokens : ℕ
  -- workers in `sem_wait`, and those behind it, in `queue_pop`
  pub waiting : ℕ
  pub popping : ℕ
  -- requests in `handle_request`; those closed, before `queue_push(finished_reqs, …)`; those that
  -- would block, before `queue_push(jobs, …)`
  pub running : List Request
  pub closed : List Request
  pub blocked : List Request
  pub main : Main
  -- requests that a worker popped and left alone, as their descriptor was -1
  pub dropped : List Request

-- The accept loop. `capacity` is `num_concurent_req`, the capacity of both queues. A `poll` that times
-- out and an `accept` that fails change nothing.
pub data AcceptStep (capacity : ℕ) : Pool → Pool → Type 0 where
  accept :
      {p : Pool} (fd : ℕ)
      → p.main ≡ accepting
      → AcceptStep capacity p (record p { main = taking fd })
  take_free :
      {p : Pool} (fd : ℕ) (r : Request) (free : List Request)
      → p.main ≡ taking fd
      → Spec.pop p.free ≡ passed (some r, free)
      → AcceptStep capacity p
          (record p { free = free; main = starting (record r { fd = some fd }) })
  post :
      {p : Pool} (r : Request)
      → p.main ≡ starting r
      → AcceptStep capacity p (record p { tokens = p.tokens + 1; main = queueing r })
  queue :
      {p : Pool} (r : Request) (jobs : List Request)
      → p.main ≡ queueing r
      → Spec.push capacity p.jobs r ≡ passed jobs
      → AcceptStep capacity p (record p { jobs = jobs; main = accepting })

-- The loop of a worker.
pub data WorkStep (capacity : ℕ) : Pool → Pool → Type 0 where
  wait :
      {p : Pool} (k t : ℕ)
      → p.waiting ≡ suc k
      → p.tokens ≡ suc t
      → WorkStep capacity p (record p { waiting = k; tokens = t; popping = p.popping + 1 })
  pop_open :
      {p : Pool} (k fd : ℕ) (r : Request) (jobs : List Request)
      → p.popping ≡ suc k
      → Spec.pop p.jobs ≡ passed (some r, jobs)
      → r.fd ≡ some fd
      → WorkStep capacity p (record p { popping = k; jobs = jobs; running = r ∷ p.running })
  pop_closed :
      {p : Pool} (k : ℕ) (r : Request) (jobs : List Request)
      → p.popping ≡ suc k
      → Spec.pop p.jobs ≡ passed (some r, jobs)
      → r.fd ≡ none
      → WorkStep capacity p
          (record p { popping = k; waiting = p.waiting + 1; jobs = jobs; dropped = r ∷ p.dropped })
  -- `handle_request` returns true, and the connection is closed.
  finish :
      {p : Pool} (r : Request) (before after : List Request)
      → p.running ≡ before ++ r ∷ after
      → WorkStep capacity p
          (record p { running = before ++ after; closed = record r { fd = none } ∷ p.closed })
  give_back :
      {p : Pool} (r : Request) (before after free : List Request)
      → p.closed ≡ before ++ r ∷ after
      → Spec.push capacity p.free r ≡ passed free
      → WorkStep capacity p
          (record p { closed = before ++ after; free = free; waiting = p.waiting + 1 })
  -- `handle_request` returns false, and the semaphore is posted.
  block :
      {p : Pool} (r : Request) (before after : List Request)
      → p.running ≡ before ++ r ∷ after
      → WorkStep capacity p
          (record p { running = before ++ after; blocked = r ∷ p.blocked; tokens = p.tokens + 1 })
  queue_again :
      {p : Pool} (r : Request) (before after jobs : List Request)
      → p.blocked ≡ before ++ r ∷ after
      → Spec.push capacity p.jobs r ≡ passed jobs
      → WorkStep capacity p
          (record p { blocked = before ++ after; jobs = jobs; waiting = p.waiting + 1 })

pub data Step (capacity : ℕ) : Pool → Pool → Type 0 where
  by_main : {p q : Pool} → AcceptStep capacity p q → Step capacity p q
  by_worker : {p q : Pool} → WorkStep capacity p q → Step capacity p q

-- The states that the server can reach from its start, with its requests free and its workers
-- waiting.
pub data Reachable (capacity : ℕ) (start : Pool) : Pool → Type 0 where
  at_start : Reachable capacity start start
  then_step :
      {p q : Pool} → Reachable capacity start p → Step capacity p q → Reachable capacity start q

abbrev pub start_pool : List Request → ℕ → Pool
start_pool requests threads = record {
  free = requests;
  jobs = [];
  tokens = 0;
  waiting = threads;
  popping = 0;
  running = [];
  closed = [];
  blocked = [];
  main = accepting;
  dropped = [];
}
