-- ===== src/Server/Answer/Whole.antt =====
-- server.c: `send_res` and `read_get_body`, with a socket that never refuses and a file.
use cse130_asgn.Base.{
  ℕ, zero, suc, ◌+◌, ◌-◌, ◌^◌, ◌≤◌, ◌<◌, true, List, [], ◌∷◌, ◌++◌, append-nil, append_assoc, some,
  done, length, take, drop, ◌≡◌, ◌≢◌, refl, sym, ap, ◌∙◌, arith, ℕ_discrete, length-take,
  length-drop, take-append,
}
use cse130_asgn.Memory.{Memory, between, blit}
use cse130_asgn.Memory.Filled.{Filled, length-slack, blit-Fills}
use cse130_asgn.Memory.Between.{between-split, between_same, length-between}
use cse130_asgn.Helpers.{buf_left}
use cse130_asgn.Helpers.Room.{buf_left_lem}
use cse130_asgn.Os.{Os, Output}
use cse130_asgn.Server.{State, is_ok, is_get, finished, send_res as to_send_res}
use cse130_asgn.Server.Transfer.{
  SendRet, send_loop, send_res, send_end, after_sending, my_read, read_get_body,
}
use cse130_asgn.Server.Transfer.Send.{loop_done, loop_step}
use cse130_asgn.Server.Transfer.Chunk.{with_res}
use cse130_asgn.Server.Answer.{Serving}

pub between-Filled :
    {size : ℕ} {text : List ℕ} {mem : Memory} {p : ℕ}
    → Filled size text mem p
    → between mem 0 p ≡ text
between-Filled {text} {p} f =
    rw f.mem_eq (take-append text f.slack (p - 0) (omega (arith, f.end_eq)))

module _ (os : Os) (out : Output os) (socket file : ℕ) (sv : Serving os out socket file) where
  -- The loop sends all that is left, and leaves the file alone.
  send_loop_all :
      (fuel : ℕ) (buf : Memory) (buf_end flushed : ℕ) (w : os.World)
      → flushed ≤ buf_end
      → buf_end ≤ length buf
      → buf_end - flushed < fuel
      → (w' : os.World) × (send_loop os fuel socket buf buf_end flushed w
          ≡ done (SendRet.sent, buf_end, w'))
        × (out.sent socket w' ≡ out.sent socket w ++ between buf flushed buf_end)
        × (sv.rest w' ≡ sv.rest w)
  send_loop_all zero buf buf_end flushed w le inside lt = absurd (omega arith)
  send_loop_all (suc fuel) buf buf_end flushed w le inside lt = elim (ℕ_discrete flushed buf_end) [
    | yes e ↦ (
      w,
      loop_done os out socket buf buf_end fuel flushed w e ∙ rw e refl,
      rw (e, between_same buf buf_end) (sym (append-nil (out.sent socket w))),
      refl,
    )
    | no n ↦
        let left = between buf flushed buf_end in
        let some_left : 0 < length left =
          omega
            (arith, length-take (buf_end - flushed) (drop flushed buf), length-drop flushed buf) in
        let (k, took) = sv.takes left w some_left in
        let (few, grew) = out.write_some socket left w (suc k) took in
        let fits : flushed + suc k ≤ buf_end =
          omega (arith, few, length-between buf flushed buf_end) in
        let (w', runs, bytes, same) =
          send_loop_all fuel buf buf_end (flushed + suc k) (os.write socket left w).1 fits inside
            (omega arith) in
        (
          w',
          loop_step os out socket buf buf_end fuel flushed w n ∙ rw (took, runs) refl,
          bytes
              ∙ rw grew (append_assoc (out.sent socket w) (take (suc k) left) _)
              ∙ ap (λ bs. out.sent socket w ++ bs)
                  (sym (between-split buf flushed (suc k) buf_end fits)),
          same ∙ sv.write_rest left w,
        )
  ]

  -- The buffer is empty again, and the stage is the one after it.
  abbrev pub emptied : State → State
  emptied st = record st {
    res = record st.res { buf_end = 0; flushed = 0 };
    stage = after_sending st;
  }

  pub send_res_all :
      (st : State) (text : List ℕ) (w : os.World)
      → st.res.flushed ≡ 0
      → Filled st.res.buf_len text st.res.buf st.res.buf_end
      → (w' : os.World) × (send_res os socket st w ≡ done (true, emptied st, w'))
        × (out.sent socket w' ≡ out.sent socket w ++ text)
        × (sv.rest w' ≡ sv.rest w)
  unfolding send_res send_end
  send_res_all st text w start f =
      let (w', runs, bytes, same) =
        send_loop_all (suc (st.res.buf_end - st.res.flushed)) st.res.buf st.res.buf_end
          st.res.flushed w (omega arith) (omega (arith, f.end_eq, length-slack f, f.size_eq))
          (omega arith) in
      (
        w',
        rw runs refl,
        bytes ∙ ap (λ bs. out.sent socket w ++ bs) (rw start (between-Filled f)),
        same,
      )

  -- From an empty buffer, at the end of the file or with a part of it.
  pub read_get_body_over :
      (st : State) (w : os.World)
      → is_get st.req.method ≡ true
      → is_ok st.status ≡ true
      → st.req.get_fd ≡ some file
      → sv.rest w ≡ []
      → (w' : os.World) × (read_get_body os st w ≡ done (record st { stage = finished }, w'))
        × (out.sent socket w' ≡ out.sent socket w)
  unfolding read_get_body my_read
  read_get_body_over st w getting fine open_fd over =
      let space = buf_left 0 st.res.buf_end st.res.buf_len in
      (
        (os.read file space w).1,
        rw (getting, fine, open_fd, sv.read_over space w over) refl,
        sv.read_sends space w,
      )

  pub read_get_body_part :
      (st : State) (w : os.World)
      → is_get st.req.method ≡ true
      → is_ok st.status ≡ true
      → st.req.get_fd ≡ some file
      → 0 < st.res.buf_len
      → st.res.buf_len < 2 ^ 64
      → Filled st.res.buf_len [] st.res.buf st.res.buf_end
      → sv.rest w ≢ []
      → (bs : List ℕ) × (mem : Memory) × (end : ℕ) × (w' : os.World) × (read_get_body os st w
          ≡ done (record (with_res st mem end) { stage = to_send_res }, w'))
        × (0 < length bs)
        × Filled st.res.buf_len bs mem end
        × (sv.rest w ≡ bs ++ sv.rest w')
        × (out.sent socket w' ≡ out.sent socket w)
  unfolding read_get_body my_read
  read_get_body_part st w getting fine open_fd room small f more =
      let space = buf_left 0 st.res.buf_end st.res.buf_len in
      let all : space ≡ st.res.buf_len =
        buf_left_lem st.res.buf_end st.res.buf_len (omega (arith, f.end_eq)) small
        ∙ omega (arith, f.end_eq) in
      let (bs, took, some_bytes, few, split) = sv.read_part space w (omega (arith, all)) more in
      let g = blit-Fills bs f (omega (arith, all)) in
      (
        bs,
        g.mem,
        g.end,
        (os.read file space w).1,
        got bs g.mem g.end some_bytes took g.runs,
        some_bytes,
        g.filled,
        split,
        sv.read_sends space w,
      )
    where
      got :
          (bs : List ℕ) (mem : Memory) (end : ℕ)
          → 0 < length bs
          → (os.read file (buf_left 0 st.res.buf_end st.res.buf_len) w).0 ≡ some bs
          → blit st.res.buf st.res.buf_end bs ≡ done (mem, end)
          → read_get_body os st w
            ≡ done (
              record (with_res st mem end) { stage = to_send_res },
              (os.read file (buf_left 0 st.res.buf_end st.res.buf_len) w).1,
            )
      got [] mem end lt took runs = absurd (omega arith)
      got (b ∷ bs) mem end lt took runs = rw (getting, fine, open_fd, took, runs) refl
