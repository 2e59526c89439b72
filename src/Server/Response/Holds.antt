-- ===== src/Server/Response/Holds.antt =====
-- server.c: a response buffer that holds a text from its start on, with `buf_end` behind it, as
-- the steps of `build_header` need and leave it.
use cse130_asgn.Base.{
  ℕ, ◌+◌, ◌-◌, ◌^◌, ◌≤◌, ◌<◌, List, ◌++◌, Outcome, done, ◌>>=◌, length, ◌≡◌, refl, ◌∙◌, arith,
}
use cse130_asgn.Memory.{Memory}
use cse130_asgn.Memory.Filled.{Filled, Fills}
use cse130_asgn.Helpers.Room.{buf_left_lem}
use cse130_asgn.Helpers.{buf_left}
use cse130_asgn.Server.{ResState}
use cse130_asgn.Server.Text.{copy_to}
use cse130_asgn.Server.Text.Runs.{copy_to-Fills}

-- A response buffer that holds a text from its start on, and nothing else changed.
pub record Holds (before : ResState) (text : List ℕ) (res : ResState) : Type 0 where
  pub filled : Filled before.buf_len text res.buf res.buf_end
  pub same_flushed : res.flushed ≡ before.flushed
  pub same_len : res.buf_len ≡ before.buf_len

-- It runs to its end, and leaves such a buffer.
pub record Yields (before : ResState) (text : List ℕ) (m : Outcome ResState) : Type 0 where
  pub res : ResState
  pub runs : m ≡ done res
  pub holds : Holds before text res

module _ {before : ResState} {text : List ℕ} {res : ResState} where
  pub fits_room :
      Holds before text res
      → before.buf_len < 2 ^ 64
      → length text ≤ before.buf_len
      → buf_left 0 res.buf_end res.buf_len ≡ before.buf_len - length text
  fits_room h small le =
      buf_left_lem res.buf_end res.buf_len (omega (arith, h.filled.end_eq, h.same_len))
        (omega (arith, h.same_len))
      ∙ omega (arith, h.filled.end_eq, h.same_len)

  -- A step that fills the buffer further, and what comes after it.
  pub fill_then :
      {m : Outcome (Memory × ℕ)} {t u : List ℕ} (k : Memory × ℕ → Outcome ResState)
      → Holds before text res
      → Fills before.buf_len t m
      → ((mem : Memory) (end : ℕ)
          → Holds before t (record res { buf = mem; buf_end = end })
          → Yields before u (k (mem, end)))
      → Yields before u (m >>= k)
  fill_then k h f next =
      let y =
        next f.mem f.end
          (record { filled = f.filled; same_flushed = h.same_flushed; same_len = h.same_len }) in
      record { res = y.res; runs = rw f.runs y.runs; holds = y.holds }

  -- A string that fits is appended.
  pub append_then :
      (str : List ℕ) {u : List ℕ} (k : Memory × ℕ → Outcome ResState)
      → Holds before text res
      → before.buf_len < 2 ^ 64
      → length text + length str ≤ before.buf_len
      → ((mem : Memory) (end : ℕ)
          → Holds before (text ++ str) (record res { buf = mem; buf_end = end })
          → Yields before u (k (mem, end)))
      → Yields before u (copy_to res.buf res.buf_end str (buf_left 0 res.buf_end res.buf_len) >>= k)
  append_then str k h small fit = fill_then k h (
      copy_to-Fills str (buf_left 0 res.buf_end res.buf_len) h.filled
        (omega (arith, fits_room h small (omega arith))) fit)

pub done_Yields :
    {before : ResState} {u : List ℕ} {res : ResState}
    → Holds before u res
    → Yields before u (done res)
done_Yields {res} h = record { res = res; runs = refl; holds = h }
