-- ===== src/Server/LogLine/Logged.antt =====
-- server.c: `send_log` as a whole, from the views of a request to the log.
use cse130_asgn.Base.{ℕ, ◌≤◌, ◌<◌, List, ◌++◌, length, take, ◌≡◌, ◌∙◌, ap, take-append}
use cse130_asgn.Os.{Os, Output, WholeWrites, SizedArrays}
use cse130_asgn.Log.{Logger}
use cse130_asgn.Log.Pour.{Holds}
use cse130_asgn.Log.Flush.{Logs}
use cse130_asgn.Log.Kept.{log_buf-Logs}
use cse130_asgn.Server.{State, max_log}
use cse130_asgn.Server.Text.Views.{Shows}
use cse130_asgn.Server.LogLine.{send_log}
use cse130_asgn.Server.LogLine.Text.{line_text, log_line-Fills}

module _ (os : Os) (out : Output os) (sized : SizedArrays os) (size fd : ℕ)
    (all : WholeWrites os fd) where
  -- With the views of the method, of the path and of the id showing those texts, a line that fits in
  -- MAX_LOG, a `write` that takes all that it is given and a round for each byte of the line, `send_log`
  -- ends, and what is written and what the log holds make up what they made up before, and the line.
  pub send_log-Logs :
      (fuel : ℕ) (l : Logger) (st : State) (w : os.World) (meth uri id text : List ℕ)
      → Shows st.req.buf st.req.method_view meth
      → Shows st.req.buf st.req.uri uri
      → Shows st.req.buf st.req.id id
      → length (line_text meth uri st.status id) ≤ max_log
      → length (line_text meth uri st.status id) ≤ fuel
      → length text < size
      → Holds size fd text l
      → Logs os out size fd
          (out.sent fd w ++ (text ++ line_text meth uri st.status id))
          (send_log os fuel l st w)
  unfolding send_log
  send_log-Logs fuel l st w meth uri id text hm hu hid fit rounds short h =
      let f =
        log_line-Fills st.req st.status meth uri id (os.local_array max_log w) hm hu hid
          (sized.local_size max_log w) fit in
      let line : take f.end f.mem ≡ line_text meth uri st.status id =
        ap (take f.end) f.filled.mem_eq
        ∙ take-append (line_text meth uri st.status id) f.filled.slack f.end f.filled.end_eq in
      rw (f.runs, line)
        (log_buf-Logs os out size fd all fuel (line_text meth uri st.status id) text l w short
          rounds h)
