-- ===== src/Startup/Threads.antt =====
-- httpserver.c: what `main` has set up for the threads before it starts them.
use cse130_asgn.Base.{
  ℕ, zero, suc, ◌+◌, ◌*◌, ◌≤◌, ◌<◌, Bool, true, List, [], ◌∷◌, ◌++◌, append-nil, append_assoc,
  Option, some, pos, done, length, ◌≡◌, refl, sym, ap, ◌∙◌, arith, length-append,
}
use cse130_asgn.Queue.{Queue, passed, queue_new, queue_push}
use cse130_asgn.Queue.Represents.{Represents, queue_new-Represents}
use cse130_asgn.Queue.Refine.{queue_push_room}
use cse130_asgn.Pool.{Request}
use cse130_asgn.Log.{create_log}
use cse130_asgn.Server.{max_header}
use cse130_asgn.Server.States.{Slot, int_max, create_state_buffer}
use cse130_asgn.Server.States.Carved.{
  slots_from, create_state_buffer-slots_from, slot_at, get_elem?-slots_from,
}
use cse130_asgn.Startup.{
  Host, Options, Shared, pool_state, fill_free, init_workers, num_threads, times_ten, new_queue,
  rounds, set_up,
}

-- The requests of the pool from the `i`-th on, each with the state at its place.
abbrev pub requests_from : Host → ℕ → ℕ → List Request
requests_from host zero i = []
requests_from host (suc n) i =
    record { place = i; fd = host.old_fds i } ∷ requests_from host n (suc i)

pub length-requests_from : (host : Host) (n i : ℕ) → length (requests_from host n i) ≡ n
length-requests_from host zero i = refl
length-requests_from host (suc n) i = ap suc (length-requests_from host n (suc i))

-- The calls of the C library give what they are asked for.
pub record Provides (host : Host) : Type 0 where
  pub state_ptrs : host.state_ptrs ≡ true
  pub state_buf : host.state_buf ≡ true
  pub req_pool : host.req_pool ≡ true
  pub free_queue : host.free_queue ≡ (true, true)
  pub taken_queue : host.taken_queue ≡ (true, true)
  pub semaphore : host.semaphore ≡ true
  pub threads : host.threads ≡ true
  pub starts : (i : ℕ) → host.starts i ≡ true

-- What the threads start with: `t` workers, ten requests for each, all of them in the queue of free
-- requests, and an empty queue of jobs, both queues with room for all requests.
pub record Ready (host : Host) (t : ℕ) (s : Shared) : Type 0 where
  pub workers : s.workers ≡ t
  pub no_tokens : s.q_size ≡ 0
  pub states : s.states ≡ slots_from (t * 10) 0
  pub pool : s.req_pool ≡ requests_from host (t * 10) 0
  pub free : Queue Request
  pub free_eq : s.free_req_queue ≡ some free
  pub free_all : Represents free s.req_pool
  pub free_room : free.capacity ≡ length s.req_pool
  pub taken : Queue Request
  pub taken_eq : s.taken_req_queue ≡ some taken
  pub taken_none : Represents taken []
  pub taken_room : taken.capacity ≡ length s.req_pool

module _ (host : Host) (p : Provides host) where
  request : ℕ → Request
  request j = record { place = j; fd = host.old_fds j }

  fill_round :
      (states : List Slot) (n i : ℕ) (q q1 : Queue Request) (rs : List Request)
      (last : Option (Queue Request))
      → pool_state host states i ≡ some (slot_at i)
      → queue_push (some q) (request i) ≡ done (passed q1)
      → fill_free host states n (suc i) (some q1) ≡ done (rs, last)
      → fill_free host states (suc n) i (some q) ≡ done (request i ∷ rs, last)
  unfolding fill_free request
  fill_round states n i q q1 rs last at pushes fills = rw (at, fill_free, pushes, fills) refl

  pool_state-slot_at :
      (total i : ℕ) → i < total → pool_state host (slots_from total 0) i ≡ some (slot_at i)
  unfolding pool_state
  pool_state-slot_at total i lt =
      rw p.req_pool
        (get_elem?-slots_from total 0 i lt ∙ ap (λ (k : ℕ). some (slot_at k)) (omega arith))

  fill_free-Represents :
      (total n i : ℕ) (q : Queue Request) (xs : List Request)
      → i + n ≡ total
      → Represents q xs
      → length xs + n ≤ q.capacity
      → (q' : Queue Request) × (fill_free host (slots_from total 0) n i (some q)
          ≡ done (requests_from host n i, some q'))
        × Represents q' (xs ++ requests_from host n i)
        × (q'.capacity ≡ q.capacity)
  unfolding fill_free request
  fill_free-Represents total zero i q xs e r room = (q, refl, rw (append-nil xs) r, refl)
  fill_free-Represents total (suc n) i q xs e r room =
      let (q1, pushes, r1, same) = queue_push_room q xs (request i) r (omega arith) in
      let (q2, fills, r2, same') =
        fill_free-Represents total n (suc i) q1 (xs ++ request i ∷ []) (omega arith) r1
          (omega (arith, same, length-append xs (request i ∷ []))) in
      (
        q2,
        fill_round (slots_from total 0) n i q q1 _ _ (pool_state-slot_at total i (omega arith))
            pushes fills,
        rw (← append_assoc xs (request i ∷ []) (requests_from host n (suc i))) r2,
        same' ∙ same,
      )

  init_workers_all : (n i : ℕ) → init_workers host n i ≡ done n
  unfolding init_workers
  init_workers_all zero i = refl
  init_workers_all (suc n) i = rw (init_workers_all n (suc i), p.threads, p.starts i) refl

  times_ten_small :
      (t : ℕ)
      → max_header * (t * 10) ≤ int_max + max_header
      → times_ten (pos t) ≡ done (pos (t * 10))
  unfolding times_ten
  times_ten_small t h = ground arith

  states_made :
      (n : ℕ)
      → max_header * n ≤ int_max + max_header
      → create_state_buffer host.state_ptrs host.state_buf n ≡ done (slots_from n 0)
  states_made n bound = rw (p.state_ptrs, p.state_buf) (create_state_buffer-slots_from n bound)

  queue_made :
      (given : Bool × Bool) (n : ℕ) (q : Queue Request)
      → given ≡ (true, true)
      → queue_new true true n ≡ some q
      → new_queue given (pos n) ≡ some q
  unfolding new_queue
  queue_made given n q e made = rw (e, made) refl

  -- `set_up` with a number of threads for which the products of ints do not overflow.
  pub set_up-Ready :
      (o : Options) (t : ℕ)
      → num_threads host o ≡ pos t
      → 0 < t
      → max_header * (t * 10) ≤ int_max + max_header
      → (s : Shared) × (set_up host o ≡ done s) × Ready host t s
  unfolding set_up
  set_up-Ready o t threads lt bound =
      let n = t * 10 in
      let (empty, made, re, ce) = queue_new-Represents Request n (omega arith) in
      let (q, fills, rq, cq) =
        fill_free-Represents n n 0 empty [] (omega arith) re (omega (arith, ce)) in
      (
        record {
          logger = create_log (host.log_fd o.logfile) host.log_memory 4096;
          states = slots_from n 0;
          req_pool = requests_from host n 0;
          free_req_queue = some q;
          taken_req_queue = some empty;
          q_size = 0;
          workers = t;
        },
        rw
            (
              threads,
              times_ten_small t bound,
              rounds,
              states_made n bound,
              queue_made host.free_queue n empty p.free_queue made,
              queue_made host.taken_queue n empty p.taken_queue made,
              fills,
              init_workers_all t 0,
              p.semaphore,
            )
            refl,
        record {
          workers = refl;
          no_tokens = refl;
          states = refl;
          pool = refl;
          free = q;
          free_eq = refl;
          free_all = rq;
          free_room = cq ∙ ce ∙ sym (length-requests_from host n 0);
          taken = empty;
          taken_eq = refl;
          taken_none = re;
          taken_room = ce ∙ sym (length-requests_from host n 0);
        },
      )
