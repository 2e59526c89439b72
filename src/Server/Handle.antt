-- ===== src/Server/Handle.antt =====
-- server.c: `cleanup` and `handle_request`, the loop over the stages of a request.
use cse130_asgn.Base.{
  ℕ, zero, suc, Bool, true, false, Option, none, some, Outcome, done, spin, ◌>>=◌, if◌then◌else◌,
}
use cse130_asgn.Os.{Os}
use cse130_asgn.Server.{
  Stage, request_line, header_fields, read_body, build_header as stage_build_header, send_header,
  read_file, send_res as stage_send_res, finished, State,
}
use cse130_asgn.Server.Read.{read_rl, read_hf}
use cse130_asgn.Server.Body.{read_request_body}
use cse130_asgn.Server.Response.{build_header}
use cse130_asgn.Server.Transfer.{read_get_body, send_res}
use cse130_asgn.Server.LogLine.{send_log}
use cse130_asgn.Log.{Logger}

module _ (os : Os) where
  open os use {World, close}

  unfoldable pub close_if : Option ℕ → World → World
  close_if none w = w
  close_if (some fd) w = close fd w

  unfoldable pub cleanup : State → World → World
  unfolding close_if
  cleanup st w = close_if st.req.get_fd (close_if st.req.put_fd w)

  -- One round of the loop: whether the handler lets the loop go on, and the state that it leaves.
  unfoldable pub run_stage : Stage → ℕ → ℕ → State → World → Outcome (Bool × State × World)
  run_stage request_line fuel fd st w = read_rl os fuel fd st w
  run_stage header_fields fuel fd st w = read_hf os fuel fd st w
  run_stage read_body fuel fd st w = read_request_body os fuel fd st w
  run_stage stage_build_header fuel fd st w = do
    (st', w') ← build_header os st w
    done (true, st', w')
  run_stage send_header fuel fd st w = done (true, st, w)
  run_stage read_file fuel fd st w = do (st', w') ← read_get_body os st w; done (true, st', w')
  run_stage stage_send_res fuel fd st w = send_res os fd st w
  run_stage finished fuel fd st w = done (true, st, w)

  abbrev pub is_finished : Stage → Bool
  is_finished finished = true
  is_finished _ = false

  unfoldable pub finish : ℕ → Logger → State → World → Outcome (Bool × State × Logger × World)
  finish fuel l st w = do (l', w') ← send_log os fuel l st w; done (true, st, l', cleanup st w')

  -- The fuel bounds the rounds of this loop, and of the loops of the handlers.
  unfoldable pub handle_request :
      ℕ → ℕ → State → Logger → World → Outcome (Bool × State × Logger × World)
  unfolding finish
  handle_request zero fd st l w = spin
  handle_request (suc fuel) fd st l w =
      let last = finish fuel l st w in
      let round = (do
        (more, st', w') ← run_stage st.stage fuel fd st w
        let rest = handle_request fuel fd st' l w'
        if more then rest else done (false, st', l, w')) in
      if is_finished st.stage then last else round
