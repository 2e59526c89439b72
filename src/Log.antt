-- ===== src/Log.antt =====
-- log.c: the buffered log, as one thread runs it. `buf_head` is an offset into `buf`; the locks carry
-- no data, and are left out.
pub mod Pour
pub mod Flush
pub mod Kept
use cse130_asgn.Base.{
  ℕ, zero, suc, ◌+◌, ◌-◌, Bool, true, false, ◌&&◌, not, List, [], ◌∷◌, Option, none, some, Outcome,
  done, spin, ◌>>=◌, ltb, ◌==◌, if◌then◌else◌, length,
}
use cse130_asgn.Memory.{Memory, store, blit, between}
use cse130_asgn.Os.{Os}

pub record Logger : Type 0 where
  pub buf : Memory
  pub buf_head : ℕ
  pub buffer_size : ℕ
  pub logfd : ℕ

-- `open` or standard output has given `fd`; a negative one gives no logger.
unfoldable pub create_log : Option ℕ → Memory → ℕ → Option Logger
create_log none fresh size = none
create_log (some fd) fresh size =
    some (record { buf = fresh; buf_head = 0; buffer_size = size; logfd = fd })

abbrev set_head : Logger → ℕ → Logger
set_head l h = record l { buf_head = h }

-- `while(l->buf_head != log_end && string_ish != str_end)`: the string that is left.
pub pour : Logger → List ℕ → Outcome (Logger × List ℕ)
pour l [] = done (l, [])
pour l (c ∷ cs) =
    let next = (do
      buf ← store l.buf l.buf_head c
      pour (record l { buf = buf; buf_head = l.buf_head + 1 }) cs) in
    if l.buf_head == l.buffer_size then done (l, c ∷ cs) else next

module _ (os : Os) where
  open os use {World, write}

  -- The loop takes `code` off the end of what is left, and writes from the start of the buffer again.
  -- A result of 0 or below leaves it.
  pub flush_loop : ℕ → Logger → World → Outcome (Logger × World)
  flush_loop zero l w = spin
  flush_loop (suc fuel) l w =
      let (code, w') = write l.logfd (between l.buf 0 l.buf_head) w in
      let wrote = (elim code as (λ _. Outcome (Logger × World)) [
        | none ↦ done (l, w')
        | some zero ↦ done (l, w')
        | some (suc k) ↦ flush_loop fuel (set_head l (l.buf_head - suc k)) w'
      ]) in
      if l.buf_head == 0 then done (l, w) else wrote

  unfoldable pub flush_logger : Logger → World → Outcome (Logger × World)
  flush_logger l w = flush_loop (suc l.buf_head) l w

  -- The loop around it, with `flushed_partial`.
  pub pour_loop : ℕ → Logger → List ℕ → Bool → World → Outcome (Logger × Bool × World)
  pour_loop fuel l [] partial w = done (l, partial, w)
  pour_loop zero l (c ∷ cs) partial w = spin
  pour_loop (suc fuel) l (c ∷ cs) partial w = do
    (l1, rest) ← pour l (c ∷ cs)
    let full = (do (l2, w2) ← flush_logger l1 w; pour_loop fuel l2 rest true w2)
    let more = pour_loop fuel l1 rest partial w
    if l1.buf_head == l.buffer_size then full else more

  -- The string is a list of `str_len` bytes. With room for it, it is copied to where `buf_head` was.
  unfoldable pub log_buf : ℕ → Logger → List ℕ → World → Outcome (Logger × World)
  log_buf fuel l str w =
      let copied = (do
        (buf, head) ← blit l.buf l.buf_head str
        done (record l { buf = buf; buf_head = head }, w)) in
      let poured = (do
        (l1, partial, w1) ← pour_loop fuel l str false w
        let flushed = flush_logger l1 w1
        if partial && not (l1.buf_head == 0) then flushed else done (l1, w1)) in
      if ltb (l.buf_head + length str) l.buffer_size then copied else poured

  unfoldable pub destroy_log : Logger → World → Outcome World
  destroy_log l w = do (l', w') ← flush_logger l w; done (os.close l'.logfd w')
