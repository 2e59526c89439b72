-- ===== src/Bind.antt =====
-- bind.c: `create_listen_socket`, over the calls of the operating system that it makes.
pub mod Ends
use cse130_asgn.Base.{ℕ, Bool, true, false, Option, none, some, ℤ, pos, negsuc, ◌==◌, if◌then◌else◌}

-- `struct sockaddr_in`: its two fields that a socket is bound to, in network order.
pub record SockAddr : Type 0 where
  pub s_addr : ℕ
  pub sin_port : ℕ

-- The calls, on an abstract world; a negative result is `none`, or `false`.
pub record Sockets : Type 1 where
  pub World : Type 0
  pub htons : ℕ → ℕ
  -- `signal(SIGPIPE, SIG_IGN)`
  pub ignore_sigpipe : World → World
  -- `socket(AF_INET, SOCK_STREAM, 0)`
  pub socket : World → Option ℕ × World
  pub bind : ℕ → SockAddr → World → Bool × World
  pub listen : ℕ → ℕ → World → Bool × World

abbrev pub inaddr_any : ℕ
inaddr_any = 0

-- The length of the queue of connections.
abbrev pub backlog : ℕ
backlog = 500

module _ (net : Sockets) where
  open net use {World, htons, ignore_sigpipe, socket, bind, listen}

  listen_on : ℕ → World → ℤ × World
  listen_on fd w = let (ok, w') = listen fd backlog w in (if ok then pos fd else negsuc 3, w')

  bind_to : ℕ → ℕ → World → ℤ × World
  unfolding listen_on
  bind_to port fd w =
      let (ok, w') = bind fd (record { s_addr = htons inaddr_any; sin_port = htons port }) w in
      let listening = listen_on fd w' in if ok then listening else (negsuc 2, w')

  open_socket : ℕ → World → ℤ × World
  unfolding bind_to
  open_socket port w =
      let (fd, w') = socket w in elim fd [ none ↦ (negsuc 1, w') | some fd ↦ bind_to port fd w' ]

  unfoldable pub create_listen_socket : ℕ → World → ℤ × World
  unfolding open_socket
  create_listen_socket port w =
      let w' = ignore_sigpipe w in
      let opened = open_socket port w' in if port == 0 then (negsuc 0, w') else opened
