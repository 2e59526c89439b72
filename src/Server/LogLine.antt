-- ===== src/Server/LogLine.antt =====
-- server.c: `send_log`, which puts a line for a request into a local buffer and hands it to the log.
pub mod Text
pub mod Logged
use cse130_asgn.Base.{ℕ, ◌+◌, Outcome, ◌>>=◌, codes, take, if◌then◌else◌}
use cse130_asgn.Memory.{Memory}
use cse130_asgn.Helpers.{my_utoa, sub_size}
use cse130_asgn.StrView.{is_empty_view}
use cse130_asgn.Os.{Os}
use cse130_asgn.Server.{ReqState, State, Status, status_code, max_log}
use cse130_asgn.Server.Text.{copy_to, add_seperator, copy_view_to}
use cse130_asgn.Log.{Logger, log_buf}

-- The last field.
put_id : ReqState → Memory → ℕ → Outcome (Memory × ℕ)
put_id req res out =
    if is_empty_view req.id
    then copy_to res out (codes "0") (sub_size max_log out)
    else copy_view_to req.buf req.id res out max_log

-- The buffer with the line in it, and the place behind the line.
unfoldable pub log_line : ReqState → Status → Memory → Outcome (Memory × ℕ)
unfolding put_id
log_line req status res0 = do
  (res1, out1) ← copy_view_to req.buf req.method_view res0 0 max_log
  (res2, out2) ← add_seperator res1 out1 max_log
  (res3, out3) ← copy_view_to req.buf req.uri res2 out2 max_log
  (res4, out4) ← add_seperator res3 out3 max_log
  (res5, n) ← my_utoa (status_code status) res4 out4
  (res6, out6) ← add_seperator res5 (out4 + n) max_log
  (res7, out7) ← put_id req res6 out6
  copy_to res7 out7 (codes "\n") (sub_size max_log out7)

module _ (os : Os) where
  unfoldable pub send_log : ℕ → Logger → State → os.World → Outcome (Logger × os.World)
  send_log fuel l st w = do
    (res, out) ← log_line st.req st.status (os.local_array max_log w)
    log_buf os fuel l (take out res) w
