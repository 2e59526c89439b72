-- ===== src/Log/Flush.antt =====
-- log.c: `flush_logger`, with a `write` that takes all that it is given.
use cse130_asgn.Base.{
  ℕ, suc, ◌-◌, ◌<◌, List, [], ◌∷◌, ◌++◌, append-nil, some, Outcome, done, length, ◌≡◌, refl, sym,
  ap, ◌∙◌, arith, take_all, take-append, ==_ne,
}
use cse130_asgn.Memory.{Memory, between}
use cse130_asgn.Os.{Os, Output, WholeWrites}
use cse130_asgn.Log.Pour.{Holds}
use cse130_asgn.Log.{Logger, flush_loop, flush_logger}

-- A call has logged a string: what is written and what the buffer holds make up what they made up
-- before it, and the string.
pub record Logs (os : Os) (out : Output os) (size fd : ℕ) (before : List ℕ)
    (r : Outcome (Logger × os.World)) : Type 0 where
  pub l : Logger
  pub w : os.World
  pub text : List ℕ
  pub runs : r ≡ done (l, w)
  pub holds : Holds size fd text l
  pub short : length text < size
  pub bytes : out.sent fd w ++ text ≡ before

module _ (os : Os) (out : Output os) (size fd : ℕ) (all : WholeWrites os fd) where
  written : List ℕ → os.World → os.World
  written text w = (os.write fd text w).1

  sent_whole :
      (text : List ℕ) (w : os.World)
      → 0 < length text
      → out.sent fd (os.write fd text w).1 ≡ out.sent fd w ++ text
  sent_whole text w h =
      (out.write_some fd text w (length text) (all.whole text w h)).1
      ∙ ap (λ bs. out.sent fd w ++ bs) (take_all (length text) text (omega arith))

  buffered : (text : List ℕ) (l : Logger) → Holds size fd text l → between l.buf 0 l.buf_head ≡ text
  buffered text l h =
      rw (h.filled.mem_eq, h.filled.end_eq)
        (take-append text h.filled.slack (length text - 0) (omega arith))

  emptied :
      (text : List ℕ) (l : Logger)
      → Holds size fd text l
      → Holds size fd [] (record l { buf_head = 0 })
  emptied text l h = record {
    filled = record { slack = l.buf; mem_eq = refl; end_eq = refl; size_eq = h.filled.size_eq };
    size_eq = h.size_eq;
    fd_eq = h.fd_eq;
  }

  flush_whole :
      (n : ℕ) (buf : Memory) (w : os.World)
      → (os.write fd (between buf 0 (suc n)) w).0 ≡ some (suc n)
      → flush_loop os
          (suc (suc n))
          (record { buf = buf; buf_head = suc n; buffer_size = size; logfd = fd })
          w
        ≡ done (
          record { buf = buf; buf_head = 0; buffer_size = size; logfd = fd },
          written (between buf 0 (suc n)) w,
        )
  unfolding flush_loop written
  flush_whole n buf w e =
      let z : suc n - suc n ≡ 0 = omega arith in rw (e, z, ==_ne (suc n) 0 (omega arith)) refl

  flush_at :
      (text : List ℕ) (n : ℕ) (l : Logger) (w : os.World)
      → length text ≡ suc n
      → Holds size fd text l
      → flush_logger os l w ≡ done (record l { buf_head = 0 }, written text w)
  unfolding flush_logger
  flush_at text n l w len h =
      let b : between l.buf 0 (suc n) ≡ text =
        ap (λ k. between l.buf 0 k) (omega (arith, h.filled.end_eq)) ∙ buffered text l h in
      let whole : (os.write fd (between l.buf 0 (suc n)) w).0 ≡ some (suc n) =
        rw (b, all.whole text w (omega arith), len) refl in
      rw (h.fd_eq, h.size_eq, h.filled.end_eq, len)
        (flush_whole n l.buf w whole
          ∙ ap
              (λ t.
                done (
                  record { buf = l.buf; buf_head = 0; buffer_size = size; logfd = fd },
                  written t w,
                ))
              b)

  -- `flush_logger` writes what the buffer holds, and leaves it empty.
  pub flush_out :
      (text : List ℕ) (l : Logger) (w : os.World)
      → Holds size fd text l
      → (l' : Logger) × (w' : os.World) × (flush_logger os l w ≡ done (l', w'))
        × Holds size fd [] l'
        × (out.sent fd w' ≡ out.sent fd w ++ text)
  unfolding flush_logger flush_loop written
  flush_out [] l w h = (l, w, rw h.filled.end_eq refl, h, sym (append-nil (out.sent fd w)))
  flush_out (c ∷ cs) l w h = (
    record l { buf_head = 0 },
    (os.write fd (c ∷ cs) w).1,
    flush_at (c ∷ cs) (length cs) l w refl h,
    emptied (c ∷ cs) l h,
    sent_whole (c ∷ cs) w (omega arith),
  )

  pub flush_logger-Logs :
      (text : List ℕ) (l : Logger) (w : os.World)
      → 0 < size
      → Holds size fd text l
      → Logs os out size fd (out.sent fd w ++ text) (flush_logger os l w)
  flush_logger-Logs text l w pos h =
      let (l', w', run, empty, bytes) = flush_out text l w h in
      record {
        l = l';
        w = w';
        text = [];
        runs = run;
        holds = empty;
        short = pos;
        bytes = append-nil (out.sent fd w') ∙ bytes;
      }
