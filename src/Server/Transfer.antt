-- ===== src/Server/Transfer.antt =====
-- server.c: `my_read`, `read_get_body` and `send_res`, which move bytes between descriptors and the
-- two buffers.
pub mod Send
pub mod Chunk
use cse130_asgn.Base.{
  ℕ, zero, suc, ◌+◌, ◌-◌, Bool, true, false, not, ◌&&◌, ◌||◌, List, [], ◌∷◌, Option, none, some,
  Outcome, done, fault, spin, ◌>>=◌, ◌==◌, if◌then◌else◌, take, drop, ◌≡◌, ◌≢◌, refl,
}
use cse130_asgn.Memory.{Memory, blit, between}
use cse130_asgn.Helpers.{buf_left}
use cse130_asgn.Os.{Os, Errno, eagain, enoent, other_errno}
use cse130_asgn.Server.{
  Status, Stage, finished, send_res as to_send_res, read_file, State, is_ok, is_get,
}

pub data ReadRet : Type 0 where
  read_ok read_error read_again read_end : ReadRet

abbrev pub is_eagain : Errno → Bool
is_eagain eagain = true
is_eagain _ = false

pub only_eagain : (e : Errno) → is_eagain e ≡ true → e ≡ eagain
only_eagain eagain h = refl
only_eagain enoent h = cc
only_eagain other_errno h = cc

pub not_eagain : (e : Errno) → is_eagain e ≡ false → e ≢ eagain
not_eagain eagain h = cc
not_eagain enoent h = λ q. cc
not_eagain other_errno h = λ q. cc

module _ (os : Os) where
  open os use {World, errno, read, write}

  read_result : Option (List ℕ) → World → Memory → ℕ → Outcome (ReadRet × Memory × ℕ × World)
  read_result none w mem buf_end =
      done (if is_eagain (errno w) then read_again else read_error, mem, buf_end, w)
  read_result (some []) w mem buf_end = done (read_end, mem, buf_end, w)
  read_result (some (b ∷ bs)) w mem buf_end = do
    (mem', end) ← blit mem buf_end (b ∷ bs)
    done (read_ok, mem', end, w)

  -- Reads at `buf_end`, which it moves. A descriptor of -1 is not read here.
  unfoldable pub my_read : ℕ → Memory → ℕ → ℕ → World → Outcome (ReadRet × Memory × ℕ × World)
  unfolding read_result
  my_read fd mem buf_end len w = let (r, w') = read fd len w in read_result r w' mem buf_end

  -- The last `else if` leaves the stage alone at `READ_AGAIN`.
  got_body : State → ReadRet → State
  got_body st read_error = record st { stage = finished }
  got_body st read_end = record st { stage = finished }
  got_body st read_ok = record st { stage = to_send_res }
  got_body st read_again = st

  -- A descriptor of -1 fails the assertion.
  read_body_from : Option ℕ → State → World → Outcome (State × World)
  read_body_from none st w = fault
  read_body_from (some fd) st w = do
    (ret, mem, end, w') ←
        my_read fd st.res.buf st.res.buf_end (buf_left 0 st.res.buf_end st.res.buf_len) w
    done (got_body (record st { res = record st.res { buf = mem; buf_end = end } }) ret, w')

  unfoldable pub read_get_body : State → World → Outcome (State × World)
  unfolding read_body_from got_body
  read_get_body st w =
      if not (is_get st.req.method) || not (is_ok st.status)
      then done (record st { stage = to_send_res }, w)
      else read_body_from st.req.get_fd st w

-- How the loop of `send_res` ends.
pub data SendRet : Type 0 where
  sent again broken : SendRet

abbrev pub after_sending : State → Stage
after_sending st =
    if not (is_get st.req.method) || not (is_ok st.status) then finished else read_file

-- `if(bytes_flushed <= 0)`
abbrev pub after_write {ℓ} : {A : Type ℓ} → Option ℕ → A → (ℕ → A) → A
after_write none stop next = stop
after_write (some zero) stop next = stop
after_write (some (suc k)) stop next = next (suc k)

module _ (os : Os) where
  open os use {World, errno, write}

  -- The loop, with the place of `flushed` and the world that it leaves.
  pub send_loop : ℕ → ℕ → Memory → ℕ → ℕ → World → Outcome (SendRet × ℕ × World)
  send_loop zero fd buf buf_end flushed w = spin
  send_loop (suc fuel) fd buf buf_end flushed w =
      let (n, w') = write fd (between buf flushed buf_end) w in
      let stop = done (if is_eagain (errno w') then again else broken, flushed, w') in
      let wrote = after_write n stop (λ k. send_loop fuel fd buf buf_end (flushed + k) w') in
      if flushed == buf_end then done (sent, flushed, w) else wrote

  unfoldable pub send_end : State → SendRet × ℕ × World → Bool × State × World
  send_end st (sent, flushed, w) = (
    true,
    record st { res = record st.res { buf_end = 0; flushed = 0 }; stage = after_sending st },
    w,
  )
  send_end st (again, flushed, w) =
      (false, record st { res = record st.res { flushed = flushed } }, w)
  send_end st (broken, flushed, w) =
      (true, record st { res = record st.res { flushed = flushed }; stage = finished }, w)

  -- Every round but the last flushes a byte or more, which bounds the rounds.
  unfoldable pub send_res : ℕ → State → World → Outcome (Bool × State × World)
  unfolding send_end
  send_res fd st w = do
    r ←
        send_loop (suc (st.res.buf_end - st.res.flushed)) fd st.res.buf st.res.buf_end
          st.res.flushed w
    done (send_end st r)
