-- ===== src/Startup.antt =====
-- httpserver.c: `main` up to its accept loop: the port, the options, and what the threads share.

pub mod Port
pub mod Threads
pub mod Ends
use cse130_asgn.Base.{
  ℕ, zero, suc, ◌+◌, ◌-◌, ◌*◌, Bool, true, false, ◌||◌, List, [], ◌∷◌, ◌++◌, Option, none, some,
  ◌⊎◌, inl, inr, ℤ, pos, negsuc, Outcome, done, fault, spin, ◌>>=◌, ltb, ◌==◌, if◌then◌else◌,
  length, get_elem?,
}
use cse130_asgn.Memory.{Memory}
use cse130_asgn.StrView.{create_view, parse_to_int, is_negative}
use cse130_asgn.Bind.{Sockets, create_listen_socket}
use cse130_asgn.Queue.{Queue, Attempt, rejected, waits, passed, queue_new, queue_push}
use cse130_asgn.Server.States.{Slot, int_max, create_state_buffer}
use cse130_asgn.Log.{Logger, create_log}
use cse130_asgn.Pool.{Request}

-- A string of `argv`, as its bytes without the NUL.
abbrev pub Arg : Type 0
Arg = List ℕ

-- What `errx` and `dprintf` are given to print, and the status that the process exits with.
pub data Message : Type 0 where
  nothing : Message
  invalid_port : Option Arg → Message
  bad_port error_opening error_binding error_listening : ℕ → Message
  usage : Option Arg → Message

pub record Exit : Type 0 where
  pub status : ℕ
  pub message : Message

abbrev pub bad_exit : ℕ
bad_exit = 1

abbrev pub exits : {A : Type 0} → Message → Exit ⊎ A
exits m = inl (record { status = bad_exit; message = m })

abbrev pub uint16_max : ℕ
uint16_max = 65535

-- `while(*port_str_end != '\0')`, over the memory from `p` on.
pub find_nul : Memory → ℕ → Outcome ℕ
find_nul [] p = fault
find_nul (c ∷ cs) p = let rest = find_nul cs (p + 1) in if c == 0 then done p else rest

-- The comparisons are of a signed long.
port_of : List Arg → ℕ → Exit ⊎ ℕ
port_of argv port_long =
    if is_negative port_long || port_long == 0 || ltb uint16_max port_long
    then exits (invalid_port (get_elem? argv 1))
    else inr port_long

port_text : List Arg → Option Arg → Outcome (Exit ⊎ ℕ)
unfolding port_of
port_text argv none = fault
port_text argv (some port_str) = do
  port_str_end ← find_nul (port_str ++ 0 ∷ []) 0
  port_long ← parse_to_int (port_str ++ 0 ∷ []) (create_view (some 0) (some port_str_end))
  done (port_of argv port_long)

unfoldable pub read_port : List Arg → Outcome (Exit ⊎ ℕ)
unfolding port_text
read_port argv =
    let last = port_text argv (get_elem? argv (length argv - 1)) in
    if ltb (length argv) 2 then done (exits nothing) else last

-- `switch(socketdes)`
socket_switch : ℕ → ℤ → Exit ⊎ ℤ
socket_switch port (negsuc zero) = exits (bad_port port)
socket_switch port (negsuc (suc zero)) = exits (error_opening port)
socket_switch port (negsuc (suc (suc zero))) = exits (error_binding port)
socket_switch port (negsuc (suc (suc (suc zero)))) = exits (error_listening port)
socket_switch port code = inr code

unfoldable pub open_port : (net : Sockets) → ℕ → net.World → (Exit ⊎ ℤ) × net.World
unfolding socket_switch
open_port net port w =
    let (code, w') = create_listen_socket net port w in (socket_switch port code, w')

-- What `getopt` with "l:t:" returns until it returns -1, and `optarg`.
pub data Opt : Type 0 where
  opt_l opt_t : Option Arg → Opt
  opt_other : Opt

pub record Options : Type 0 where
  pub logfile : Option Arg
  pub nthreads : Option Arg

unfoldable pub read_options : List Arg → List Opt → Options → Exit ⊎ Options
read_options argv [] o = inr o
read_options argv (opt_l (some arg) ∷ opts) o =
    read_options argv opts (record o { logfile = some arg })
read_options argv (opt_t (some arg) ∷ opts) o =
    read_options argv opts (record o { nthreads = some arg })
read_options argv (_ ∷ opts) o = exits (usage (get_elem? argv 0))

-- What the calls of the C library give: the options, the number in a text, the descriptor of the log,
-- the memory that `malloc` gives or whether it gives any, and whether `sem_open` succeeds.
pub record Host : Type 0 where
  pub getopt : List Arg → List Opt
  pub atoi : Arg → ℤ
  pub log_fd : Option Arg → Option ℕ
  pub log_memory : Memory
  pub state_ptrs : Bool
  pub state_buf : Bool
  pub req_pool : Bool
  -- the descriptors in the fresh memory of `req_pool`
  pub old_fds : ℕ → Option ℕ
  pub free_queue : Bool × Bool
  pub taken_queue : Bool × Bool
  pub semaphore : Bool
  pub threads : Bool
  -- whether the call of `pthread_create` for a thread succeeds, which the code does not ask
  pub starts : ℕ → Bool

-- What the accept loop and the workers start with.
pub record Shared : Type 0 where
  pub logger : Option Logger
  pub states : List Slot
  pub req_pool : List Request
  pub free_req_queue : Option (Queue Request)
  pub taken_req_queue : Option (Queue Request)
  pub q_size : ℕ
  pub workers : ℕ

-- `req_pool + i` and `state_buffer[i]`
pool_state : Host → List Slot → ℕ → Option Slot
pool_state host states i = if host.req_pool then get_elem? states i else none

-- The loop that fills the queue of free requests, with `n` rounds to go from `i` on. A call of
-- `queue_push` that waits is never woken.
pub fill_free :
    Host
    → List Slot
    → ℕ
    → ℕ
    → Option (Queue Request)
    → Outcome (List Request × Option (Queue Request))
unfolding pool_state
fill_free host states zero i q = done ([], q)
fill_free host states (suc n) i q = elim (pool_state host states i) [
  | none ↦ fault
  | some s ↦
      let r : Request = record { place = s.place; fd = host.old_fds i } in
      let again : Option (Queue Request) → Outcome (List Request × Option (Queue Request)) =
        (λ q1. fill_free host states n (suc i) q1 >>= λ p. done (r ∷ p.0, p.1)) in
      queue_push q r >>= λ a. elim a [
        | rejected ↦ again q
        | waits ↦ spin
        | passed q1 ↦ again (some q1)
      ]
]

-- The rounds of a loop `for(int i = 0; i < n; ++i)`.
rounds : ℤ → ℕ
rounds (pos n) = n
rounds (negsuc n) = 0

-- A block of a negative size is none that `malloc` can give.
new_queue : Bool × Bool → ℤ → Option (Queue Request)
new_queue given (pos n) = queue_new given.0 given.1 n
new_queue given (negsuc n) = queue_new given.0 false 0

-- `num_threads * 10`, a product of ints; one that overflows is a fault.
times_ten : ℤ → Outcome ℤ
times_ten (pos n) = if ltb int_max (n * 10) then fault else done (pos (n * 10))
times_ten (negsuc n) = if ltb (int_max + 1) (n * 10 + 10) then fault else done (negsuc (n * 10 + 9))

-- How many of the threads from the `i`-th on run; `n` are still to be created.
pub init_workers : Host → ℕ → ℕ → Outcome ℕ
init_workers host zero i = done 0
init_workers host (suc n) i = do
  rest ← init_workers host n (suc i)
  if host.threads then done (if host.starts i then suc rest else rest) else fault

unfoldable pub num_threads : Host → Options → ℤ
num_threads host o = elim o.nthreads [ none ↦ pos 1 | some t ↦ host.atoi t ]

unfoldable pub set_up : Host → Options → Outcome Shared
unfolding rounds new_queue times_ten num_threads
set_up host o = do
  n ← times_ten (num_threads host o)
  states ← create_state_buffer host.state_ptrs host.state_buf (rounds n)
  (requests, free) ← fill_free host states (rounds n) 0 (new_queue host.free_queue n)
  workers ← init_workers host (rounds (num_threads host o)) 0
  let shared : Shared = record {
    logger = create_log (host.log_fd o.logfile) host.log_memory 4096;
    states = states;
    req_pool = requests;
    free_req_queue = free;
    taken_req_queue = new_queue host.taken_queue n;
    q_size = 0;
    workers = workers;
  }
  if host.semaphore then done shared else fault

module _ (net : Sockets) (host : Host) where
  from_options : List Arg → ℤ → net.World → Outcome ((Exit ⊎ (ℤ × Shared)) × net.World)
  from_options argv fd w =
      elim (read_options argv (host.getopt argv) (record { logfile = none; nthreads = none })) [
        | inl e ↦ done (inl e, w)
        | inr o ↦ set_up host o >>= λ s. done (inr (fd, s), w)
      ]

  from_socket : List Arg → Exit ⊎ ℤ → net.World → Outcome ((Exit ⊎ (ℤ × Shared)) × net.World)
  unfolding from_options
  from_socket argv (inl e) w = done (inl e, w)
  from_socket argv (inr fd) w = from_options argv fd w

  from_port : List Arg → Exit ⊎ ℕ → net.World → Outcome ((Exit ⊎ (ℤ × Shared)) × net.World)
  unfolding from_socket
  from_port argv (inl e) w = done (inl e, w)
  from_port argv (inr port) w =
      let (opened, w') = open_port net port w in from_socket argv opened w'

  -- `main` up to the loop: the process ends, or the loop starts with the listening socket and what
  -- is shared.
  unfoldable pub main_start : List Arg → net.World → Outcome ((Exit ⊎ (ℤ × Shared)) × net.World)
  unfolding from_port
  main_start argv w = read_port argv >>= λ port. from_port argv port w
