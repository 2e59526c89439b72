-- ===== src/Bind/Ends.antt =====
-- bind.c: how `create_listen_socket` ends, by what the operating system has open afterwards.
use cse130_asgn.Base.{
  ℕ, Bool, true, false, Bool-cases, Option-cases, inl, inr, Option, none, some, ℤ, pos, negsuc,
  ◌==◌, List, ◌∷◌, ◌≡◌, ◌≢◌, ap, ◌∙◌, arith,
}
use cse130_asgn.Bind.{
  Sockets, SockAddr, inaddr_any, backlog, create_listen_socket, open_socket, bind_to,
}

-- What the calls do to the process's sockets.
pub record Kernel (net : Sockets) : Type 0 where
  pub open_fds : net.World → List ℕ
  pub address : ℕ → net.World → Option SockAddr
  -- the length of the queue of connections of a socket that listens
  pub listening : ℕ → net.World → Option ℕ
  pub ignore_sigpipe_opens : (w : net.World) → open_fds (net.ignore_sigpipe w) ≡ open_fds w
  pub socket_none :
      (w : net.World) → (net.socket w).0 ≡ none → open_fds (net.socket w).1 ≡ open_fds w
  pub socket_some :
      (w : net.World) (fd : ℕ)
      → (net.socket w).0 ≡ some fd
      → open_fds (net.socket w).1 ≡ fd ∷ open_fds w
  pub bind_opens :
      (fd : ℕ) (a : SockAddr) (w : net.World) → open_fds (net.bind fd a w).1 ≡ open_fds w
  pub bind_true :
      (fd : ℕ) (a : SockAddr) (w : net.World)
      → (net.bind fd a w).0 ≡ true
      → address fd (net.bind fd a w).1 ≡ some a
  pub listen_opens : (fd n : ℕ) (w : net.World) → open_fds (net.listen fd n w).1 ≡ open_fds w
  pub listen_address : (fd n : ℕ) (w : net.World) → address fd (net.listen fd n w).1 ≡ address fd w
  pub listen_true :
      (fd n : ℕ) (w : net.World)
      → (net.listen fd n w).0 ≡ true
      → listening fd (net.listen fd n w).1 ≡ some n

-- The address that the socket is to be bound to, and the calls, each in the world behind the ones
-- before it.
abbrev pub any_port : (net : Sockets) → ℕ → SockAddr
any_port net port = record { s_addr = net.htons inaddr_any; sin_port = net.htons port }

abbrev pub socket_call : (net : Sockets) → net.World → Option ℕ × net.World
socket_call net w = net.socket (net.ignore_sigpipe w)

abbrev pub bind_call : (net : Sockets) → ℕ → ℕ → net.World → Bool × net.World
bind_call net port fd w = net.bind fd (any_port net port) (socket_call net w).1

abbrev pub listen_call : (net : Sockets) → ℕ → ℕ → net.World → Bool × net.World
listen_call net port fd w = net.listen fd backlog (bind_call net port fd w).1

-- The result and the world of a call for `port` that starts in `w`: each ending with the results of
-- the calls that lead to it.
pub data ListenEnds (net : Sockets) (k : Kernel net) (port : ℕ) (w : net.World)
    : ℤ × net.World → Type 0 where
  no_port :
      port ≡ 0
      → k.open_fds (net.ignore_sigpipe w) ≡ k.open_fds w
      → ListenEnds net k port w (negsuc 0, net.ignore_sigpipe w)
  not_opened :
      port ≢ 0
      → (socket_call net w).0 ≡ none
      → k.open_fds (socket_call net w).1 ≡ k.open_fds w
      → ListenEnds net k port w (negsuc 1, (socket_call net w).1)
  -- The socket is left open.
  not_bound :
      (fd : ℕ)
      → port ≢ 0
      → (socket_call net w).0 ≡ some fd
      → (bind_call net port fd w).0 ≡ false
      → k.open_fds (bind_call net port fd w).1 ≡ fd ∷ k.open_fds w
      → ListenEnds net k port w (negsuc 2, (bind_call net port fd w).1)
  not_listening :
      (fd : ℕ)
      → port ≢ 0
      → (socket_call net w).0 ≡ some fd
      → (bind_call net port fd w).0 ≡ true
      → (listen_call net port fd w).0 ≡ false
      → k.open_fds (listen_call net port fd w).1 ≡ fd ∷ k.open_fds w
      → ListenEnds net k port w (negsuc 3, (listen_call net port fd w).1)
  listens :
      (fd : ℕ)
      → port ≢ 0
      → (socket_call net w).0 ≡ some fd
      → (bind_call net port fd w).0 ≡ true
      → (listen_call net port fd w).0 ≡ true
      → k.open_fds (listen_call net port fd w).1 ≡ fd ∷ k.open_fds w
      → k.address fd (listen_call net port fd w).1 ≡ some (any_port net port)
      → k.listening fd (listen_call net port fd w).1 ≡ some backlog
      → ListenEnds net k port w (pos fd, (listen_call net port fd w).1)

module _ (net : Sockets) (k : Kernel net) (port : ℕ) (w : net.World) where
  bind_to-ListenEnds :
      (fd : ℕ)
      → port ≢ 0
      → (socket_call net w).0 ≡ some fd
      → k.open_fds (socket_call net w).1 ≡ fd ∷ k.open_fds w
      → ListenEnds net k port w (bind_to net port fd (socket_call net w).1)
  unfolding bind_to
  bind_to-ListenEnds fd p made h =
      let opens = k.bind_opens fd (any_port net port) (socket_call net w).1 ∙ h in
      let opens2 = k.listen_opens fd backlog (bind_call net port fd w).1 ∙ opens in
      elim (Bool-cases (bind_call net port fd w).0) [
        | inl bound ↦ elim (Bool-cases (listen_call net port fd w).0) [
          | inl ok ↦
              rw (bound, ok)
                (listens fd p made bound ok opens2
                  (k.listen_address fd backlog _
                    ∙ k.bind_true fd (any_port net port) (socket_call net w).1 bound)
                  (k.listen_true fd backlog _ ok))
          | inr failed ↦ rw (bound, failed) (not_listening fd p made bound failed opens2)
        ]
        | inr failed ↦ rw failed (not_bound fd p made failed opens)
      ]

  open_socket-ListenEnds :
      port ≢ 0 → ListenEnds net k port w (open_socket net port (net.ignore_sigpipe w))
  unfolding open_socket
  open_socket-ListenEnds p =
      let quiet = k.ignore_sigpipe_opens w in
      elim (Option-cases (socket_call net w).0) [
        | inl refused ↦
            rw (refused, open_socket) (not_opened p refused (k.socket_none _ refused ∙ quiet))
        | inr (fd, made) ↦
            rw (made, open_socket)
              (bind_to-ListenEnds fd p made (k.socket_some _ fd made ∙ ap (◌∷◌ fd) quiet))
      ]

  -- Whatever the calls return, `create_listen_socket` returns -1 for port 0, with no call of `socket`;
  -- -2 if `socket` fails; -3 if `bind` fails and -4 if `listen` fails, with the socket left open; and
  -- else the descriptor of a socket that listens on the port, on every address.
  pub create_listen_socket-ListenEnds : ListenEnds net k port w (create_listen_socket net port w)
  unfolding create_listen_socket
  create_listen_socket-ListenEnds = elim (Bool-cases (port == 0)) [
    | inl zero_port ↦ rw zero_port (no_port (ground arith) (k.ignore_sigpipe_opens w))
    | inr other ↦ rw other (open_socket-ListenEnds (λ e. ground arith))
  ]
