-- ===== src/Server/Transfer/Send.antt =====
-- server.c: the loop of `send_res`, with a `write` that takes any part of what it is given.
use cse130_asgn.Base.{
  ℕ, zero, suc, ◌+◌, ◌-◌, ◌≤◌, ◌<◌, Bool, true, false, List, ◌++◌, append-nil, append_assoc,
  Option-cases, Outcome, done, if◌then◌else◌, take, ◌≡◌, ◌≢◌, inl, inr, refl, sym, ap, ◌∙◌, arith,
  ℕ_discrete, ==_ne,
}
use cse130_asgn.Memory.{Memory, between}
use cse130_asgn.Memory.Between.{between-split, between_same, length-between}
use cse130_asgn.Os.{Os, Output, eagain}
use cse130_asgn.Server.{State, finished}
use cse130_asgn.Server.Transfer.{
  SendRet, again, broken, send_loop, send_end, send_res, after_sending, after_write, is_eagain,
}

module _ (os : Os) (out : Output os) (fd : ℕ) (buf : Memory) (buf_end : ℕ) where
  -- How the loop may end, started at `flushed` in `w`: the bytes that went out, and those that are
  -- still to be sent, make up those that were to be sent.
  record LoopEnds (flushed : ℕ) (w : os.World) (r : Outcome (SendRet × ℕ × os.World)) : Type 0 where
    ret : SendRet
    place : ℕ
    world : os.World
    runs : r ≡ done (ret, place, world)
    place_in : (flushed ≤ place) × (place ≤ buf_end)
    bytes :
        out.sent fd world ++ between buf place buf_end
        ≡ out.sent fd w ++ between buf flushed buf_end
    all : ret ≡ SendRet.sent → place ≡ buf_end
    blocked : ret ≡ again → os.errno world ≡ eagain

  pub stop_ret : os.World → SendRet
  stop_ret w = if is_eagain (os.errno w) then again else broken

  pub loop_done :
      (fuel flushed : ℕ) (w : os.World)
      → flushed ≡ buf_end
      → send_loop os (suc fuel) fd buf buf_end flushed w ≡ done (SendRet.sent, flushed, w)
  unfolding send_loop
  loop_done fuel flushed w e = ground arith

  pub loop_step :
      (fuel flushed : ℕ) (w : os.World)
      → flushed ≢ buf_end
      → send_loop os (suc fuel) fd buf buf_end flushed w
        ≡ after_write
            (os.write fd (between buf flushed buf_end) w).0
            (done (
              stop_ret (os.write fd (between buf flushed buf_end) w).1,
              flushed,
              (os.write fd (between buf flushed buf_end) w).1,
            ))
            (λ k.
              send_loop os fuel fd buf buf_end
                (flushed + k)
                (os.write fd (between buf flushed buf_end) w).1)
  unfolding send_loop stop_ret
  loop_step fuel flushed w n = rw (==_ne flushed buf_end n)

  stop_ret-sent : (w : os.World) → stop_ret w ≢ SendRet.sent
  unfolding stop_ret
  stop_ret-sent w e = ground arith

  stop_ret-again : (w : os.World) → stop_ret w ≡ again → os.errno w ≡ eagain
  unfolding stop_ret
  stop_ret-again w e = ground arith

  -- `write` took nothing.
  stopped :
      (flushed : ℕ) (w w' : os.World)
      → flushed ≤ buf_end
      → out.sent fd w' ≡ out.sent fd w
      → LoopEnds flushed w (done (stop_ret w', flushed, w'))
  stopped flushed w w' h e = record {
    ret = stop_ret w';
    place = flushed;
    world = w';
    runs = refl;
    place_in = omega arith;
    bytes = ap (λ bs. bs ++ between buf flushed buf_end) e;
    all = λ q. absurd (stop_ret-sent w' q);
    blocked = stop_ret-again w';
  }

  -- `write` took the first `k` bytes.
  went_on :
      (flushed k : ℕ) (w w' : os.World) (r : Outcome (SendRet × ℕ × os.World))
      → flushed + k ≤ buf_end
      → out.sent fd w' ≡ out.sent fd w ++ take k (between buf flushed buf_end)
      → LoopEnds (flushed + k) w' r
      → LoopEnds flushed w r
  went_on flushed k w w' r h e l = record {
    ret = l.ret;
    place = l.place;
    world = l.world;
    runs = l.runs;
    place_in = omega (arith, l.place_in);
    bytes =
        l.bytes
        ∙ ap (λ bs. bs ++ between buf (flushed + k) buf_end) e
        ∙ append_assoc (out.sent fd w) (take k (between buf flushed buf_end))
            (between buf (flushed + k) buf_end)
        ∙ ap (λ bs. out.sent fd w ++ bs) (sym (between-split buf flushed k buf_end h));
    all = l.all;
    blocked = l.blocked;
  }

  send_loop-LoopEnds :
      (fuel flushed : ℕ) (w : os.World)
      → flushed ≤ buf_end
      → buf_end - flushed < fuel
      → LoopEnds flushed w (send_loop os fuel fd buf buf_end flushed w)
  send_loop-LoopEnds zero flushed w h lt = absurd (omega arith)
  send_loop-LoopEnds (suc fuel) flushed w h lt = elim (ℕ_discrete flushed buf_end) [
    | yes e ↦ rw (loop_done fuel flushed w e) (record {
      ret = SendRet.sent;
      place = flushed;
      world = w;
      runs = refl;
      place_in = omega arith;
      bytes = refl;
      all = λ q. e;
      blocked = λ q. cc;
    })
    | no n ↦ elim (Option-cases (os.write fd (between buf flushed buf_end) w).0) [
      | inl refused ↦
          rw (loop_step fuel flushed w n, refused)
            (stopped flushed w _ h (out.write_none fd (between buf flushed buf_end) w refused))
      | inr (zero, took) ↦
          rw (loop_step fuel flushed w n, took)
            (stopped flushed w _ h (
              (out.write_some fd (between buf flushed buf_end) w zero took).1
              ∙ append-nil (out.sent fd w)))
      | inr (suc k, took) ↦
          let (few, grew) = out.write_some fd (between buf flushed buf_end) w (suc k) took in
          rw (loop_step fuel flushed w n, took)
            (went_on flushed (suc k) w _ _ (omega (arith, length-between buf flushed buf_end)) grew
              (send_loop-LoopEnds fuel (flushed + suc k) _
                (omega (arith, length-between buf flushed buf_end)) (omega arith)))
    ]
  ]

-- The bytes of the response that are still to be sent.
abbrev pub pending : State → List ℕ
pending st = between st.res.buf st.res.flushed st.res.buf_end

module _ (os : Os) (out : Output os) (fd : ℕ) (st : State) (w : os.World) where
  -- The three ways in which `send_res` returns: all is sent, the buffer is empty again and the stage
  -- is the one after it; the socket would block and the state remembers what is left; it is broken.
  pub data SendEnds (r : Outcome (Bool × State × os.World)) : Type 0 where
    all_out :
        (w' : os.World)
        → r
          ≡ done (
            true,
            record st {
              res = record st.res { buf_end = 0; flushed = 0 };
              stage = after_sending st;
            },
            w',
          )
        → out.sent fd w' ≡ out.sent fd w ++ pending st
        → SendEnds r
    would_block :
        (place : ℕ) (w' : os.World)
        → r ≡ done (false, record st { res = record st.res { flushed = place } }, w')
        → (st.res.flushed ≤ place) × (place ≤ st.res.buf_end)
        → out.sent fd w' ++ between st.res.buf place st.res.buf_end ≡ out.sent fd w ++ pending st
        → os.errno w' ≡ eagain
        → SendEnds r
    gave_up :
        (place : ℕ) (w' : os.World)
        → r
          ≡ done (true, record st { res = record st.res { flushed = place }; stage = finished }, w')
        → out.sent fd w' ++ between st.res.buf place st.res.buf_end ≡ out.sent fd w ++ pending st
        → SendEnds r

  at_end :
      {place : ℕ} {w' : os.World}
      → place ≡ st.res.buf_end
      → out.sent fd w' ++ between st.res.buf place st.res.buf_end ≡ out.sent fd w ++ pending st
      → out.sent fd w' ≡ out.sent fd w ++ pending st
  at_end {w'} e h =
      sym (append-nil (out.sent fd w'))
      ∙ ap (λ bs. out.sent fd w' ++ bs) (sym (between_same st.res.buf st.res.buf_end))
      ∙ (rw e at h)

  ended :
      (l : LoopEnds os out fd st.res.buf st.res.buf_end st.res.flushed w (
        send_loop os
          (suc (st.res.buf_end - st.res.flushed))
          fd
          st.res.buf
          st.res.buf_end
          st.res.flushed
          w))
      → (ret : SendRet) → l.ret ≡ ret
      → SendEnds (done (send_end os st (ret, l.place, l.world)))
  unfolding send_end
  ended l SendRet.sent e = all_out l.world refl (at_end (l.all e) l.bytes)
  ended l again e = would_block l.place l.world refl l.place_in l.bytes (l.blocked e)
  ended l broken e = gave_up l.place l.world refl l.bytes

  -- However `write` splits the buffer up and whenever it refuses, `send_res` returns, and what has gone
  -- out with what is left to send is what there was to send: no byte is lost, doubled or reordered.
  pub send_res-SendEnds : st.res.flushed ≤ st.res.buf_end → SendEnds (send_res os fd st w)
  unfolding send_res
  send_res-SendEnds h =
      let l =
        send_loop-LoopEnds os out fd st.res.buf st.res.buf_end
          (suc (st.res.buf_end - st.res.flushed)) st.res.flushed w h (omega arith) in
      rw l.runs (ended l l.ret refl)
