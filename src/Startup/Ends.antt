-- ===== src/Startup/Ends.antt =====
-- httpserver.c: how `main` gets to its accept loop, or ends before it.
use cse130_asgn.Base.{
  ℕ, zero, suc, ◌+◌, ◌*◌, ◌≤◌, ◌<◌, List, none, inl, inr, ◌⊎◌, ℤ, pos, negsuc, Outcome, done, ◌≡◌,
}
use cse130_asgn.Bind.{Sockets}
use cse130_asgn.Bind.Ends.{Kernel, ListenEnds}
use cse130_asgn.Server.{max_header}
use cse130_asgn.Server.States.{int_max}
use cse130_asgn.Pool.{start_pool}
use cse130_asgn.Pool.Sound.{Sound}
use cse130_asgn.Startup.{
  Arg, Message, bad_port, error_opening, error_binding, error_listening, exits, Exit, Options, Host,
  Shared, read_options, num_threads,
}
use cse130_asgn.Startup.Port.{port_named}
use cse130_asgn.Startup.Threads.{Ready}

-- The number of threads that the options ask for: one or more, and not so many that a product of
-- ints overflows.
pub record SomeThreads (host : Host) (o : Options) : Type 0 where
  pub count : ℕ
  pub asked : num_threads host o ≡ pos count
  pub some_asked : 0 < count
  pub in_int : max_header * (count * 10) ≤ int_max + max_header

-- The options that `main` starts from.
abbrev pub no_options : Options
no_options = record { logfile = none; nthreads = none }

-- What `main` prints for a negative result of `create_listen_socket`.
abbrev pub socket_message : ℕ → ℕ → Message
socket_message zero port = bad_port port
socket_message (suc zero) port = error_opening port
socket_message (suc (suc zero)) port = error_binding port
socket_message (suc (suc (suc n))) port = error_listening port

module _ (net : Sockets) (k : Kernel net) (host : Host) (argv : List Arg) (text : List ℕ)
    (w : net.World) where
  -- How the start ends, in a world, for a text that is to be the port.
  pub data StartEnds : Outcome ((Exit ⊎ (ℤ × Shared)) × net.World) → Type 0 where
    -- Nothing has been opened.
    no_port : (e : Exit) → port_named argv text ≡ inl e → StartEnds (done (inl e, w))
    no_socket :
        {w' : net.World} (port code : ℕ)
        → port_named argv text ≡ inr port
        → ListenEnds net k port w (negsuc code, w')
        → StartEnds (done (exits (socket_message code port), w'))
    bad_option :
        {w' : net.World} (port fd : ℕ) (e : Exit)
        → port_named argv text ≡ inr port
        → ListenEnds net k port w (pos fd, w')
        → read_options argv (host.getopt argv) no_options ≡ inl e
        → StartEnds (done (inl e, w'))
    -- The pool of workers starts in a state that is sound.
    serves :
        {w' : net.World} (port fd t : ℕ) (o : Options) (s : Shared)
        → port_named argv text ≡ inr port
        → ListenEnds net k port w (pos fd, w')
        → read_options argv (host.getopt argv) no_options ≡ inr o
        → num_threads host o ≡ pos t
        → Ready host t s
        → Sound (t * 10) (start_pool s.req_pool s.workers)
        → StartEnds (done (inr (pos fd, s), w'))
