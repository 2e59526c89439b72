-- ===== src/Server/Transfer/Chunk.antt =====
-- server.c: `read_get_body` and the next part of a file.
use cse130_asgn.Base.{
  ℕ, ◌-◌, ◌^◌, ◌<◌, true, List, [], ◌∷◌, ◌++◌, append-nil, Option, none, some, Option-cases,
  Bool-cases, Outcome, done, length, ◌≡◌, ◌≢◌, inl, inr, refl, sym, ap, ◌∙◌, arith,
}
use cse130_asgn.Memory.{Memory}
use cse130_asgn.Memory.Filled.{Filled, length-slack, blit-Fills}
use cse130_asgn.Helpers.{buf_left}
use cse130_asgn.Helpers.Room.{buf_left_lem}
use cse130_asgn.Os.{Os, Input, eagain}
use cse130_asgn.Server.{State, is_ok, is_get, finished, send_res}
use cse130_asgn.Server.Transfer.{my_read, read_get_body, is_eagain, only_eagain, not_eagain}

-- A state with the response buffer and its end replaced.
abbrev pub with_res : State → Memory → ℕ → State
with_res st mem end = record st { res = record st.res { buf = mem; buf_end = end } }

module _ (os : Os) (inp : Input os) (fd : ℕ) (st : State) (text : List ℕ) (w : os.World) where
  -- Some bytes of the file are put behind what the buffer holds, and are to be sent; there are no
  -- more, or the read has failed for another reason than EAGAIN, and the request is finished; or it
  -- would block, and nothing has happened. Each ending says what `read` has returned.
  pub data ChunkEnds (r : Outcome (State × os.World)) : Type 0 where
    chunk :
        (bs : List ℕ) (mem : Memory) (end : ℕ) (w' : os.World)
        → r ≡ done (record (with_res st mem end) { stage = send_res }, w')
        → os.read fd (st.res.buf_len - st.res.buf_end) w ≡ (some bs, w')
        → 0 < length bs
        → inp.arrived fd w' ≡ inp.arrived fd w ++ bs
        → Filled st.res.buf_len (text ++ bs) mem end
        → ChunkEnds r
    over :
        (w' : os.World)
        → r ≡ done (record st { stage = finished }, w')
        → os.read fd (st.res.buf_len - st.res.buf_end) w ≡ (some [], w')
        → inp.arrived fd w' ≡ inp.arrived fd w
        → ChunkEnds r
    failed :
        (w' : os.World)
        → r ≡ done (record st { stage = finished }, w')
        → os.read fd (st.res.buf_len - st.res.buf_end) w ≡ (none, w')
        → os.errno w' ≢ eagain
        → inp.arrived fd w' ≡ inp.arrived fd w
        → ChunkEnds r
    later :
        (w' : os.World)
        → r ≡ done (st, w')
        → os.read fd (st.res.buf_len - st.res.buf_end) w ≡ (none, w')
        → os.errno w' ≡ eagain
        → inp.arrived fd w' ≡ inp.arrived fd w
        → ChunkEnds r

  -- For a GET that is OK, on every result of `read`: the response buffer is never left; what was read
  -- goes behind what it holds, and is to be sent; at the end of the file, and after an error that is not
  -- EAGAIN, the request is finished; and at EAGAIN nothing happens.
  pub read_get_body-ChunkEnds :
      is_get st.req.method ≡ true
      → is_ok st.status ≡ true
      → st.req.get_fd ≡ some fd
      → st.res.buf_len < 2 ^ 64
      → Filled st.res.buf_len text st.res.buf st.res.buf_end
      → ChunkEnds (read_get_body os st w)
  unfolding read_get_body my_read
  read_get_body-ChunkEnds getting fine open_fd small f =
      elim (Option-cases (os.read fd space w).0) [
        | inl nothing ↦ elim (Bool-cases (is_eagain (os.errno (os.read fd space w).1))) [
          | inl blocked ↦
              later (os.read fd space w).1 (rw (getting, fine, open_fd, nothing, blocked) refl)
                (as_read none nothing) (only_eagain _ blocked) (inp.read_none fd space w nothing)
          | inr bad ↦
              failed (os.read fd space w).1 (rw (getting, fine, open_fd, nothing, bad) refl)
                (as_read none nothing) (not_eagain _ bad) (inp.read_none fd space w nothing)
        ]
        | inr ([], took) ↦
            over (os.read fd space w).1 (rw (getting, fine, open_fd, took) refl)
              (as_read (some []) took)
              ((inp.read_some fd space w [] took).1 ∙ append-nil (inp.arrived fd w))
        | inr (b ∷ bs, took) ↦
            let (few, come) = inp.read_some fd space w (b ∷ bs) took in
            let g = blit-Fills (b ∷ bs) f (omega (arith, f.end_eq, length-slack f, space_eq)) in
            chunk (b ∷ bs) g.mem g.end (os.read fd space w).1
              (rw (getting, fine, open_fd, took, g.runs) refl) (as_read (some (b ∷ bs)) took)
              (omega arith) come g.filled
      ]
    where
      space : ℕ
      space = buf_left 0 st.res.buf_end st.res.buf_len

      space_eq : space ≡ st.res.buf_len - st.res.buf_end
      space_eq =
          buf_left_lem st.res.buf_end st.res.buf_len (omega (arith, f.end_eq, length-slack f)) small

      as_read :
          (r : Option (List ℕ))
          → (os.read fd space w).0 ≡ r
          → os.read fd (st.res.buf_len - st.res.buf_end) w ≡ (r, (os.read fd space w).1)
      as_read r h =
          ap (λ n. os.read fd n w) (sym space_eq) ∙ ap (λ o. (o, (os.read fd space w).1)) h
