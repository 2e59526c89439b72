-- ===== src/Server/Answer/Rounds.antt =====
-- server.c: the rounds of `handle_request` that send a file.
use mathlib.Core.Path.{subst}
use cse130_asgn.Base.{
  ℕ, zero, suc, ◌+◌, ◌-◌, ◌*◌, ◌^◌, ◌≤◌, ◌<◌, true, false, List, [], ◌∷◌, ◌++◌, append-nil,
  append_assoc, some, done, length, ◌≡◌, ◌≢◌, ◌⊎◌, inl, inr, refl, sym, ap, ◌∙◌, arith,
  length-append, length-eq-zero,
}
use cse130_asgn.Memory.Filled.{Filled}
use cse130_asgn.Os.{Os, Output}
use cse130_asgn.Log.{Logger}
use cse130_asgn.Server.{State, Stage, is_ok, is_get, finished, read_file, send_res as to_send_res}
use cse130_asgn.Server.Transfer.{read_get_body, send_res}
use cse130_asgn.Server.Transfer.Chunk.{with_res}
use cse130_asgn.Server.Handle.{run_stage, handle_request, is_finished}
use cse130_asgn.Server.Answer.{Serving}
use cse130_asgn.Server.Answer.Whole.{emptied, send_res_all, read_get_body_over, read_get_body_part}

module _ (os : Os) (socket : ℕ) (st : State) (l : Logger) (w : os.World) where
  -- A round of the loop at a stage that is not the last.
  pub handle_request_round :
      (fuel : ℕ) (stage : Stage) (st' : State) (w' : os.World)
      → st.stage ≡ stage
      → is_finished os stage ≡ false
      → run_stage os stage fuel socket st w ≡ done (true, st', w')
      → handle_request os (suc fuel) socket st l w ≡ handle_request os fuel socket st' l w'
  unfolding handle_request
  handle_request_round fuel stage st' w' e going runs =
      let here = subst (λ s. run_stage os s fuel socket st w ≡ done (true, st', w')) (sym e) runs in
      let on = subst (λ s. is_finished os s ≡ false) (sym e) going in rw (on, here) refl

  pub read_file_round :
      (fuel : ℕ) (st' : State) (w' : os.World)
      → st.stage ≡ read_file
      → read_get_body os st w ≡ done (st', w')
      → handle_request os (suc fuel) socket st l w ≡ handle_request os fuel socket st' l w'
  unfolding run_stage
  read_file_round fuel st' w' e runs =
      handle_request_round fuel read_file st' w' e refl (rw runs refl)

  pub send_res_round :
      (fuel : ℕ) (st' : State) (w' : os.World)
      → st.stage ≡ to_send_res
      → send_res os socket st w ≡ done (true, st', w')
      → handle_request os (suc fuel) socket st l w ≡ handle_request os fuel socket st' l w'
  unfolding run_stage
  send_res_round fuel st' w' e runs = handle_request_round fuel to_send_res st' w' e refl runs

module _ (os : Os) (out : Output os) (socket : ℕ) where
  -- With `total` rounds the loop comes to `FINISHED`, with `fuel` rounds or more to go; these bytes
  -- went out, and what the log line is made of is as it was.
  pub record Finishes (total fuel : ℕ) (bytes : List ℕ) (st : State) (l : Logger) (w : os.World)
      : Type 0 where
    pub left : ℕ
    pub end : State
    pub world : os.World
    pub runs : handle_request os total socket st l w ≡ handle_request os left socket end l world
    pub enough : fuel ≤ left
    pub at_end : end.stage ≡ finished
    pub sent : out.sent socket world ≡ out.sent socket w ++ bytes
    pub same_req : end.req ≡ st.req
    pub same_status : end.status ≡ st.status

nil_cases : (xs : List ℕ) → (xs ≡ []) ⊎ (xs ≢ [])
nil_cases [] = inl refl
nil_cases (x ∷ xs) = inr (λ e. cc)

-- A GET that is OK, of this file, between two parts of it: the response buffer is empty.
pub record Sending (file : ℕ) (st : State) : Type 0 where
  pub getting : is_get st.req.method ≡ true
  pub fine : is_ok st.status ≡ true
  pub open_fd : st.req.get_fd ≡ some file
  pub room : 0 < st.res.buf_len
  pub small : st.res.buf_len < 2 ^ 64
  pub start : st.res.flushed ≡ 0
  pub filled : Filled st.res.buf_len [] st.res.buf st.res.buf_end
  pub stage : st.stage ≡ read_file

module _ (os : Os) (out : Output os) (socket file : ℕ) (sv : Serving os out socket file) where
  file_over :
      (total fuel : ℕ) (st : State) (l : Logger) (w : os.World)
      → Sending file st
      → fuel ≤ total
      → sv.rest w ≡ []
      → Finishes os out socket (suc total) fuel (sv.rest w) st l w
  file_over total fuel st l w s enough over =
      let (w', runs, same) =
        read_get_body_over os out socket file sv st w s.getting s.fine s.open_fd over in
      record {
        left = total;
        end = record st { stage = finished };
        world = w';
        runs = read_file_round os socket st l w total _ w' s.stage runs;
        enough = enough;
        at_end = refl;
        sent = same ∙ rw over (sym (append-nil (out.sent socket w)));
        same_req = refl;
        same_status = refl;
      }

  -- Once the buffer is sent, the next part is read.
  pub emptied-Sending :
      (st : State) (text : List ℕ)
      → is_get st.req.method ≡ true
      → is_ok st.status ≡ true
      → st.req.get_fd ≡ some file
      → 0 < st.res.buf_len
      → st.res.buf_len < 2 ^ 64
      → Filled st.res.buf_len text st.res.buf st.res.buf_end
      → Sending file (emptied os out socket file sv st)
  emptied-Sending st text getting fine open_fd room small f = record {
    getting = getting;
    fine = fine;
    open_fd = open_fd;
    room = room;
    small = small;
    start = refl;
    filled = record { slack = st.res.buf; mem_eq = refl; end_eq = refl; size_eq = f.size_eq };
    stage = rw (getting, fine) refl;
  }

  -- Two rounds for each byte that is left of the file, and one more, send the rest of it.
  pub file_rounds :
      (total n fuel : ℕ) (st : State) (l : Logger) (w : os.World)
      → Sending file st
      → length (sv.rest w) ≤ n
      → n * 2 + 1 + fuel ≤ total
      → Finishes os out socket total fuel (sv.rest w) st l w
  file_rounds zero n fuel st l w s le enough = absurd (omega arith)
  file_rounds (suc zero) n fuel st l w s le enough =
      file_over zero fuel st l w s (omega arith) (length-eq-zero (sv.rest w) (omega arith))
  file_rounds (suc (suc total)) n fuel st l w s le enough = elim (nil_cases (sv.rest w)) [
    | inl over ↦ file_over (suc total) fuel st l w s (omega arith) over
    | inr more ↦
        let (bs, mem, end, w1, reads, some_bytes, f1, split, quiet) =
          read_get_body_part os out socket file sv st w s.getting s.fine s.open_fd s.room s.small
            s.filled more in
        let st1 = record (with_res st mem end) { stage = to_send_res } in
        let (w2, sends, grew, same) = send_res_all os out socket file sv st1 bs w1 s.start f1 in
        let next =
          file_rounds total (n - 1) fuel (emptied os out socket file sv st1) l w2
            (emptied-Sending st1 bs s.getting s.fine s.open_fd s.room s.small f1)
            (omega (arith, ap length split, length-append bs (sv.rest w1), ap length same))
            (omega (arith, ap length split, length-append bs (sv.rest w1))) in
        record {
          left = next.left;
          end = next.end;
          world = next.world;
          runs =
              read_file_round os socket st l w (suc total) st1 w1 s.stage reads
              ∙ send_res_round os socket st1 l w1 total _ w2 refl sends
              ∙ next.runs;
          enough = next.enough;
          at_end = next.at_end;
          sent =
              next.sent
              ∙ ap (λ bs. out.sent socket w2 ++ bs) same
              ∙ rw (grew, quiet, split) (append_assoc (out.sent socket w) bs (sv.rest w1));
          same_req = next.same_req;
          same_status = next.same_status;
        }
  ]
