-- ===== src/Server/Read/Fill.antt =====
-- server.c: the loop of `read_rl` that fills the request buffer.
use cse130_asgn.Base.{
  ℕ, zero, suc, ◌+◌, ◌-◌, ◌^◌, ◌≤◌, ◌<◌, true, false, ltb, List, [], ◌∷◌, ◌++◌, append-nil,
  append_assoc, Option, none, some, Option-cases, Outcome, done, ◌>>=◌, codes, Bool-cases, length,
  drop, ◌≡◌, ◌≢◌, inl, inr, refl, sym, ap, ◌∙◌, arith, length-append,
}
use cse130_asgn.Memory.{Memory, blit}
use cse130_asgn.Memory.Filled.{Filled, length-slack, blit-Fills}
use cse130_asgn.Helpers.Room.{buf_left_lem}
use cse130_asgn.Helpers.{find_delim, buf_left}
use cse130_asgn.Helpers.Delim.Pair.{FoundAt, find_delim-FoundAt}
use cse130_asgn.Helpers.Delim.Total.{find_delim-Ends}
use cse130_asgn.Os.{Os, Input, eagain}
use cse130_asgn.Server.{State, bad_request, internal_error, finished, fail}
use cse130_asgn.Server.Transfer.{my_read, is_eagain, only_eagain, not_eagain}
use cse130_asgn.Server.Read.{LineRet, line_at, returns, set_buf, rl_loop, after_read}

module _ (os : Os) (inp : Input os) (fd : ℕ) (st : State) (text : List ℕ) (w : os.World) where
  -- There is no line in the buffer, and room for two bytes or more.
  pub record Asks (mem : Memory) (end : ℕ) : Type 0 where
    pub no_line : find_delim mem st.req.parsed_end end (codes "\r\n") ≡ done none
    pub room : end + 2 ≤ st.req.buf_len

  -- The rounds of the loop that have read something: before each of them there was no line in the
  -- buffer, and room for two bytes or more, and the read was for all of the room.
  pub data Rounds : Memory → ℕ → os.World → Type 0 where
    no_round : Rounds st.req.buf st.req.buf_end w
    round :
        {mem mem' : Memory} {end end' : ℕ} {w1 w2 : os.World} (bs : List ℕ)
        → Rounds mem end w1
        → Asks mem end
        → os.read fd (st.req.buf_len - end) w1 ≡ (some bs, w2)
        → 0 < length bs
        → blit mem end bs ≡ done (mem', end')
        → Rounds mem' end' w2

  -- The buffer holds what it held before, and what has come in since; nothing is lost.
  pub record Received (mem : Memory) (end : ℕ) (w' : os.World) : Type 0 where
    pub rounds : Rounds mem end w'
    pub got : List ℕ
    pub come : inp.arrived fd w' ≡ inp.arrived fd w ++ got
    pub filled : Filled st.req.buf_len (text ++ got) mem end

  -- What a last read that brings nothing returns, with no line in the buffer and with room.
  pub record Stops (mem : Memory) (end : ℕ) (result : Option (List ℕ)) (w' : os.World)
      : Type 0 where
    pub world : os.World
    pub received : Received mem end world
    pub asks : Asks mem end
    pub call : os.read fd (st.req.buf_len - end) world ≡ (result, w')
    pub come : inp.arrived fd w' ≡ inp.arrived fd world

  -- The five ways in which the loop ends: at the end of a line, which stands in the buffer; with no
  -- line in it and too little room; at EAGAIN; at the end of the input; and with another error of
  -- `read`.
  pub data LoopEnds (r : Outcome (LineRet × State × os.World)) : Type 0 where
    whole_line :
        (mem : Memory) (end : ℕ) (w' : os.World) (p : ℕ)
        → r ≡ done (line_at p, set_buf st mem end, w')
        → Received mem end w'
        → FoundAt 13 10 (drop st.req.parsed_end mem) st.req.parsed_end p
        → p ≤ end
        → LoopEnds r
    too_long :
        (mem : Memory) (end : ℕ) (w' : os.World)
        → r ≡ done (returns true, fail (set_buf st mem end) bad_request, w')
        → Received mem end w'
        → find_delim mem st.req.parsed_end end (codes "\r\n") ≡ done none
        → st.req.buf_len < end + 2
        → LoopEnds r
    would_block :
        (mem : Memory) (end : ℕ) (w' : os.World)
        → r ≡ done (returns false, set_buf st mem end, w')
        → Stops mem end none w'
        → os.errno w' ≡ eagain
        → LoopEnds r
    closed :
        (mem : Memory) (end : ℕ) (w' : os.World)
        → r ≡ done (returns true, record (set_buf st mem end) { stage = finished }, w')
        → Stops mem end (some []) w'
        → LoopEnds r
    broken :
        (mem : Memory) (end : ℕ) (w' : os.World)
        → r ≡ done (returns true, fail (set_buf st mem end) internal_error, w')
        → Stops mem end none w'
        → os.errno w' ≢ eagain
        → LoopEnds r

  end_in :
      {mem : Memory} {end : ℕ} {w' : os.World}
      → Received mem end w'
      → (end ≤ st.req.buf_len) × (length mem ≡ st.req.buf_len)
  end_in r = (omega (arith, r.filled.end_eq, length-slack r.filled), r.filled.size_eq)

  -- The line is looked for in what is there; `next` is the loop.
  after_search :
      (fuel : ℕ) (mem : Memory) (end : ℕ) (w' : os.World)
      → st.req.parsed_end ≤ end
      → Received mem end w'
      → (find_delim mem st.req.parsed_end end (codes "\r\n") ≡ done none
          → LoopEnds (rl_loop os fuel fd (set_buf st mem end) w' none))
      → LoopEnds (
          find_delim mem st.req.parsed_end end (codes "\r\n") >>= λ line_end.
          rl_loop os fuel fd (set_buf st mem end) w' line_end)
  unfolding rl_loop
  after_search fuel mem end w' le r next =
      let (fits, size) = end_in r in
      elim (find_delim-Ends 13 10 mem st.req.parsed_end end le (omega arith)) [
        | inl absent ↦ rw absent (next absent)
        | inr (p, found) ↦
            let (at, le') =
              find_delim-FoundAt 13 10 (omega arith) mem st.req.parsed_end end p le found in
            whole_line mem end w' p (rw found refl) r at le'
      ]

  -- Each round but the last reads a byte or more: a round for each byte of room, and one more, are
  -- enough.
  pub rl_loop-LoopEnds :
      (fuel : ℕ) (mem : Memory) (end : ℕ) (w' : os.World)
      → st.req.buf_len < 2 ^ 64
      → st.req.parsed_end ≤ end
      → st.req.buf_len < fuel + end
      → Received mem end w'
      → find_delim mem st.req.parsed_end end (codes "\r\n") ≡ done none
      → LoopEnds (rl_loop os fuel fd (set_buf st mem end) w' none)
  unfolding rl_loop my_read after_read
  rl_loop-LoopEnds zero mem end w' small le enough r no_line = absurd (omega (arith, end_in r))
  rl_loop-LoopEnds (suc fuel) mem end w' small le enough r no_line =
      elim (Bool-cases (ltb space 2)) [
        | inl tight ↦ too_long mem end w' (rw tight refl) r no_line (ground (arith, space_eq))
        | inr room ↦ elim (Option-cases (os.read fd space w').0) [
          | inl none_read ↦
              let stops = stopped none room none_read (inp.read_none fd space w' none_read) in
              elim (Bool-cases (is_eagain (os.errno (os.read fd space w').1))) [
                | inl later ↦
                    would_block mem end (os.read fd space w').1 (rw (room, none_read, later) refl)
                      stops (only_eagain _ later)
                | inr bad ↦
                    broken mem end (os.read fd space w').1 (rw (room, none_read, bad) refl) stops
                      (not_eagain _ bad)
              ]
          | inr ([], took) ↦ closed mem end (os.read fd space w').1 (rw (room, took) refl) (
              stopped (some []) room took
                ((inp.read_some fd space w' [] took).1 ∙ append-nil (inp.arrived fd w')))
          | inr (b ∷ bs, took) ↦
              let (few, come) = inp.read_some fd space w' (b ∷ bs) took in
              let f =
                blit-Fills (b ∷ bs) r.filled
                  (omega (arith, r.filled.end_eq, space_eq, (end_in r).0)) in
              let r' : Received f.mem f.end (os.read fd space w').1 = record {
                rounds =
                    round (b ∷ bs) r.rounds (asks room) (as_read (some (b ∷ bs)) took) (omega arith)
                      f.runs;
                got = r.got ++ b ∷ bs;
                come =
                    come
                    ∙ (ap (λ xs. xs ++ b ∷ bs) r.come
                        ∙ append_assoc (inp.arrived fd w) r.got (b ∷ bs));
                filled = rw (← append_assoc text r.got (b ∷ bs)) f.filled;
              } in
              rw (room, took, f.runs)
                (after_search fuel f.mem f.end (os.read fd space w').1
                  (omega (arith, longer b bs f.filled.end_eq)) r'
                  (rl_loop-LoopEnds fuel f.mem f.end (os.read fd space w').1 small
                    (omega (arith, longer b bs f.filled.end_eq))
                    (omega (arith, longer b bs f.filled.end_eq)) r'))
        ]
      ]
    where
      longer :
          (b : ℕ) (bs : List ℕ) {n : ℕ}
          → n ≡ length ((text ++ r.got) ++ b ∷ bs)
          → n ≡ end + suc (length bs)
      longer b bs e = omega (arith, e, length-append (text ++ r.got) (b ∷ bs), r.filled.end_eq)

      space : ℕ
      space = buf_left 0 end st.req.buf_len

      space_eq : space ≡ st.req.buf_len - end
      space_eq = buf_left_lem end st.req.buf_len (end_in r).0 small

      asks : ltb space 2 ≡ false → Asks mem end
      asks room = record { no_line = no_line; room = ground (arith, space_eq) }

      as_read :
          (res : Option (List ℕ))
          → (os.read fd space w').0 ≡ res
          → os.read fd (st.req.buf_len - end) w' ≡ (res, (os.read fd space w').1)
      as_read res h =
          ap (λ n. os.read fd n w') (sym space_eq) ∙ ap (λ o. (o, (os.read fd space w').1)) h

      stopped :
          (res : Option (List ℕ))
          → ltb space 2 ≡ false
          → (os.read fd space w').0 ≡ res
          → inp.arrived fd (os.read fd space w').1 ≡ inp.arrived fd w'
          → Stops mem end res (os.read fd space w').1
      stopped res room h same = record {
        world = w';
        received = r;
        asks = asks room;
        call = as_read res h;
        come = same;
      }

  -- With a round for each byte of room and one more, the search for the line and the loop behind it
  -- end in one of the five ways: at a line in the buffer, with room for less than two bytes, at EAGAIN,
  -- at the end of the input, or at another error of `read`. It reads only where there is no line in the
  -- buffer and room for two bytes. The request buffer is never left, and every byte that came in is in
  -- it, in order.
  pub rl_search-LoopEnds :
      (fuel : ℕ)
      → st.req.buf_len < 2 ^ 64
      → st.req.parsed_end ≤ st.req.buf_end
      → st.req.buf_len < fuel + st.req.buf_end
      → Filled st.req.buf_len text st.req.buf st.req.buf_end
      → LoopEnds (
          find_delim st.req.buf st.req.parsed_end st.req.buf_end (codes "\r\n") >>= λ line_end.
          rl_loop os fuel fd st w line_end)
  rl_search-LoopEnds fuel small le enough f =
      let r : Received st.req.buf st.req.buf_end w = record {
        rounds = no_round;
        got = [];
        come = sym (append-nil (inp.arrived fd w));
        filled = rw (append-nil text) f;
      } in
      after_search fuel st.req.buf st.req.buf_end w le r
        (rl_loop-LoopEnds fuel st.req.buf st.req.buf_end w small le enough r)
