-- ===== src/Server/Read.antt =====
-- server.c: `read_rl` and `read_hf`, which read a line of the request from the socket.
-- The loops take fuel.
pub mod Fill
pub mod Round
use cse130_asgn.Base.{
  ℕ, zero, suc, ◌-◌, Bool, true, false, ◌||◌, Option, none, some, Outcome, done, spin, ◌>>=◌, codes,
  ltb, if◌then◌else◌,
}
use cse130_asgn.Memory.{Memory}
use cse130_asgn.Helpers.{find_delim, buf_left}
use cse130_asgn.StrView.{create_view, is_empty_view}
use cse130_asgn.Os.{Os}
use cse130_asgn.Server.{
  is_get, is_head, is_put, bad_request, internal_error, build_header, read_body, finished, State,
  fail,
}
use cse130_asgn.Server.Transfer.{ReadRet, read_ok, read_again, read_end, read_error, my_read}
use cse130_asgn.Server.Parse.{parse_rl, parse_hf}
use cse130_asgn.Server.Files.{open_get_file}

-- How the reading loop ends: with the end of a line, or with what the function returns.
pub data LineRet : Type 0 where
  line_at : ℕ → LineRet
  returns : Bool → LineRet

abbrev pub set_buf : State → Memory → ℕ → State
set_buf st mem end = record st { req = record st.req { buf = mem; buf_end = end } }

abbrev pub set_parsed : State → ℕ → State
set_parsed st p = record st { req = record st.req { parsed_end = p } }

abbrev pub request_room : State → ℕ
request_room st = buf_left 0 st.req.buf_end st.req.buf_len

module _ (os : Os) where
  open os use {World}

  -- What `my_read` returned; `next` is the rest of the loop after `READ_OK`.
  after_read :
      ReadRet
      → State
      → World
      → (State → Outcome (LineRet × State × World))
      → Outcome (LineRet × State × World)
  after_read read_ok st w next = next st
  after_read read_again st w next = done (returns false, st, w)
  after_read read_end st w next = done (returns true, record st { stage = finished }, w)
  after_read read_error st w next = done (returns true, fail st internal_error, w)

  -- `while(line_end == NULL)` of `read_rl`.
  pub rl_loop : ℕ → ℕ → State → World → Option ℕ → Outcome (LineRet × State × World)
  rl_loop fuel fd st w (some line_end) = done (line_at line_end, st, w)
  rl_loop zero fd st w none = spin
  rl_loop (suc fuel) fd st w none =
      let space = request_room st in
      let filled = (do
        (ret, mem, end, w') ← my_read os fd st.req.buf st.req.buf_end space w
        after_read ret (set_buf st mem end) w' (λ st'. do
          line_end ← find_delim st'.req.buf st'.req.parsed_end st'.req.buf_end (codes "\r\n")
          rl_loop fuel fd st' w' line_end)) in
      if ltb space 2 then done (returns true, fail st bad_request, w) else filled

  finish_rl : LineRet × State × World → Outcome (Bool × State × World)
  finish_rl (returns b, st, w) = done (b, st, w)
  finish_rl (line_at line_end, st, w) = do
    st' ← parse_rl st (create_view (some st.req.parsed_end) (some (line_end - 2)))
    done (true, set_parsed st' line_end, w)

  unfoldable pub read_rl : ℕ → ℕ → State → World → Outcome (Bool × State × World)
  unfolding finish_rl
  read_rl fuel fd st w = do
    line_end ← find_delim st.req.buf st.req.parsed_end st.req.buf_end (codes "\r\n")
    r ← rl_loop fuel fd st w line_end
    finish_rl r

  -- The loop of `read_hf` takes the room that was measured before it in every round.
  pub hf_loop : ℕ → ℕ → ℕ → State → World → Option ℕ → Outcome (LineRet × State × World)
  hf_loop fuel space fd st w (some line_end) = done (line_at line_end, st, w)
  hf_loop zero space fd st w none = spin
  hf_loop (suc fuel) space fd st w none = do
    (ret, mem, end, w') ← my_read os fd st.req.buf st.req.buf_end space w
    after_read ret (set_buf st mem end) w' (λ st'. do
      line_end ← find_delim st'.req.buf st'.req.parsed_end st'.req.buf_end (codes "\r\n")
      hf_loop fuel space fd st' w' line_end)

  -- The empty line: a file to send is opened, and the stage is set whether it could be or not.
  end_of_headers : State → World → Outcome (State × World)
  end_of_headers st w = do
    (st', w') ←
        (let opened = (do (_, st1, w1) ← open_get_file os st w; done (st1, w1)) in
          if is_head st.req.method || is_get st.req.method then opened else done (st, w))
    done (record st' { stage = if is_put st'.req.method then read_body else build_header }, w')

  finish_hf : LineRet × State × World → Outcome (Bool × State × World)
  finish_hf (returns b, st, w) = done (b, st, w)
  finish_hf (line_at line_end, st, w) =
      let hf = create_view (some st.req.parsed_end) (some (line_end - 2)) in
      let last = (do (st', w') ← end_of_headers st w; done (true, set_parsed st' line_end, w')) in
      let field = (do st' ← parse_hf st hf; done (true, set_parsed st' line_end, w)) in
      if is_empty_view hf then last else field

  -- Too little room sets the failure, and does not return.
  unfoldable pub read_hf : ℕ → ℕ → State → World → Outcome (Bool × State × World)
  unfolding finish_hf end_of_headers
  read_hf fuel fd st w = do
    let space = request_room st
    let st1 = if ltb space 2 then fail st bad_request else st
    line_end ← find_delim st1.req.buf st1.req.parsed_end st1.req.buf_end (codes "\r\n")
    r ← hf_loop fuel space fd st1 w line_end
    finish_hf r
