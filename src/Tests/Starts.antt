-- ===== src/Tests/Starts.antt =====
-- The start of the server: the socket, the states, and `main` up to its loop.
use cse130_asgn.Base.{
  ℕ, ◌+◌, ◌*◌, ◌/◌, ◌%◌, true, List, [], ◌∷◌, Option, none, some, inr, ◌⊎◌, pos, codes, ◌≡◌, refl,
}
use cse130_asgn.Bind.{Sockets, SockAddr, create_listen_socket}
use cse130_asgn.Bind.Ends.{Kernel, ListenEnds, create_listen_socket-ListenEnds}
use cse130_asgn.Server.States.Carved.{Carved}
use cse130_asgn.Startup.{Arg, Exit, Host, Options, opt_t}

-- The sockets that are open, and what the last one is bound to and listens with.
record Machine : Type 0 where
  open_fds : List ℕ
  address : Option SockAddr
  queue : Option ℕ

abbrev net : Sockets
net = record {
  World = Machine;
  htons = λ n. n % 256 * 256 + n / 256;
  ignore_sigpipe = λ m. m;
  socket = λ m. (some 3, record m { open_fds = 3 ∷ m.open_fds });
  bind = λ fd a m. (true, record m { address = some a });
  listen = λ fd n m. (true, record m { queue = some n });
}

abbrev kernel : Kernel net
kernel = record {
  open_fds = λ m. m.open_fds;
  address = λ fd m. m.address;
  listening = λ fd m. m.queue;
  ignore_sigpipe_opens = λ m. refl;
  socket_none = λ m h. cc;
  socket_some = λ m fd h. opened m.open_fds fd h;
  bind_opens = λ fd a m. refl;
  bind_true = λ fd a m h. refl;
  listen_opens = λ fd n m. refl;
  listen_address = λ fd n m. refl;
  listen_true = λ fd n m h. refl;
}
  where
    opened : (fds : List ℕ) (fd : ℕ) → some 3 ≡ some fd → 3 ∷ fds ≡ fd ∷ fds
    opened fds fd h = cc

abbrev fresh : Machine
fresh = record { open_fds = []; address = none; queue = none }

create_listen_socket-ListenEnds_example :
    ListenEnds net kernel 8080 fresh (create_listen_socket net 8080 fresh)
create_listen_socket-ListenEnds_example = create_listen_socket-ListenEnds net kernel 8080 fresh

-- `httpserver -t 2 8080`
abbrev front : List Arg
front = codes "httpserver" ∷ codes "-t" ∷ codes "2" ∷ []

abbrev libc : Host
libc = record {
  getopt = λ argv. opt_t (some (codes "2")) ∷ [];
  atoi = λ text. pos 2;
  log_fd = λ file. some 1;
  log_memory = [];
  state_ptrs = true;
  state_buf = true;
  req_pool = true;
  old_fds = λ i. none;
  free_queue = (true, true);
  taken_queue = (true, true);
  semaphore = true;
  threads = true;
  starts = λ i. true;
}

abbrev two_threads : Options
two_threads = record { logfile = none; nthreads = some (codes "2") }

abbrev chose : Options → Exit ⊎ Options
chose o = inr o
