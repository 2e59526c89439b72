-- ===== src/Server/Answer/Delivered.antt =====
-- server.c: what `handle_request` sends for a request that it has read.
use cse130_asgn.Base.{
  ℕ, zero, suc, ◌+◌, ◌*◌, ◌^◌, ◌≤◌, ◌<◌, Bool, true, false, ◌&&◌, ◌||◌, not, Bool-cases, List, [],
  ◌++◌, append_assoc, some, done, length, if◌then◌else◌, ◌≡◌, inl, inr, refl, sym, ap, ◌∙◌, arith,
}
use cse130_asgn.Memory.Filled.{Filled}
use cse130_asgn.Os.{Os, Output}
use cse130_asgn.Log.{Logger}
use cse130_asgn.Server.{
  State, Status, Method, get, head, put, none_yet, unknown, ResState, max_header, is_ok, is_get,
  is_head, finished, read_file, build_header as stage_build_header, send_res as to_send_res,
}
use cse130_asgn.Server.Text.{get_status_name}
use cse130_asgn.Server.Response.{body_size, file_size}
use cse130_asgn.Server.Response.Refusal.{name_short}
use cse130_asgn.Server.Response.Build.{
  IsFresh, static_body, is_static, response_text, build_header-Built,
}
use cse130_asgn.Server.Transfer.{after_sending}
use cse130_asgn.Server.Handle.{run_stage, handle_request}
use cse130_asgn.Server.Answer.{Serving}
use cse130_asgn.Server.Answer.Whole.{emptied, send_res_all}
use cse130_asgn.Server.Answer.Rounds.{
  Finishes, handle_request_round, send_res_round, emptied-Sending, file_rounds,
}

-- What the client is to get, if these are the contents of the file that was opened for it.
abbrev pub answer : State → List ℕ → List ℕ
answer st contents =
    if is_ok st.status && (is_get st.req.method || is_head st.req.method)
    then response_text st.status (length contents) (if is_get st.req.method then contents else [])
    else response_text st.status (length (get_status_name st.status) + 1)
        (if is_static st.status st.req.method then static_body st.status else [])

-- The head, and the static body where there is one, with this length.
abbrev head_text : State → ℕ → List ℕ
head_text st size =
    response_text st.status size
      (if is_static st.status st.req.method then static_body st.status else [])

response_text-append :
    (s : Status) (size : ℕ) (body : List ℕ)
    → response_text s size [] ++ body ≡ response_text s size body
response_text-append s size body = simp append_assoc

Filled-size :
    {a b : ℕ} {text : List ℕ} {mem : List ℕ} {p : ℕ}
    → b ≡ a
    → Filled a text mem p
    → Filled b text mem p
Filled-size e f = record {
  slack = f.slack;
  mem_eq = f.mem_eq;
  end_eq = f.end_eq;
  size_eq = f.size_eq ∙ sym e;
}

both_true : (a b : Bool) → (a && b) ≡ true → (a ≡ true) × (b ≡ true)
both_true true b h = (refl, h)
both_true false b h = cc

plain_static :
    (s : Status) (m : Method)
    → is_ok s ≡ true
    → (is_get m || is_head m) ≡ true
    → is_static s m ≡ false
plain_static s get fine h = rw fine refl
plain_static s head fine h = rw fine refl
plain_static s put fine h = cc
plain_static s none_yet fine h = cc
plain_static s unknown fine h = cc

-- Without a GET that is OK, `send_res` is the last stage.
not_sent :
    (st : State)
    → (is_ok st.status && (is_get st.req.method || is_head st.req.method)) ≡ false
    → after_sending st ≡ finished
not_sent st h = ends (is_get st.req.method) (is_ok st.status) (is_head st.req.method) h
  where
    ends :
        (getting fine heading : Bool)
        → (fine && (getting || heading)) ≡ false
        → (if not getting || not fine then finished else read_file) ≡ finished
    ends false fine heading h = refl
    ends true false heading h = refl
    ends true true heading h = cc

module _ (os : Os) (out : Output os) (socket file : ℕ) (sv : Serving os out socket file)
    (st : State) (l : Logger) (w : os.World) where
  -- The head, and a static body, are built and sent.
  record HeadSent (total : ℕ) (bytes : List ℕ) (w1 : os.World) : Type 0 where
    res : ResState
    world : os.World
    runs :
        handle_request os (suc (suc total)) socket st l w
        ≡ handle_request os total socket
            (emptied os out socket file sv (record st { res = res; stage = to_send_res }))
            l
            world
    sent : out.sent socket world ≡ out.sent socket w ++ bytes
    same_rest : sv.rest world ≡ sv.rest w1
    same_len : res.buf_len ≡ max_header
    filled : Filled res.buf_len bytes res.buf res.buf_end

  head_rounds :
      (total size : ℕ) (w1 : os.World)
      → st.stage ≡ stage_build_header
      → IsFresh st
      → st.res.flushed ≡ 0
      → body_size os st.req st.status w ≡ done (size, w1)
      → size < 2 ^ 64
      → out.sent socket w1 ≡ out.sent socket w
      → HeadSent total (head_text st size) w1
  unfolding run_stage
  head_rounds total size w1 stage fresh start sized small quiet =
      let b = build_header-Built os st w size w1 fresh sized small in
      let st1 = record st { res = b.res; stage = to_send_res } in
      let filled = Filled-size b.holds.same_len b.holds.filled in
      let (w2, sends, grew, same) =
        send_res_all os out socket file sv st1 (head_text st size) w1 (b.holds.same_flushed ∙ start)
          filled in
      record {
        res = b.res;
        world = w2;
        runs =
            handle_request_round os socket st l w (suc total) stage_build_header st1 w1 stage refl
              (rw b.runs refl)
            ∙ send_res_round os socket st1 l w1 total _ w2 refl sends;
        sent = grew ∙ ap (λ bs. bs ++ head_text st size) quiet;
        same_rest = same;
        same_len = b.holds.same_len ∙ fresh.res_len;
        filled = filled;
      }

  -- No file follows.
  head_only :
      (total fuel : ℕ) (bytes : List ℕ) (w1 : os.World)
      → HeadSent total bytes w1
      → after_sending st ≡ finished
      → fuel ≤ total
      → Finishes os out socket (suc (suc total)) fuel bytes st l w
  head_only total fuel bytes w1 h last enough = record {
    left = total;
    end = emptied os out socket file sv (record st { res = h.res; stage = to_send_res });
    world = h.world;
    runs = h.runs;
    enough = enough;
    at_end = last;
    sent = h.sent;
    same_req = refl;
    same_status = refl;
  }

  -- The file follows.
  head_and_file :
      (total fuel : ℕ) (w1 : os.World)
      → HeadSent total (response_text st.status (length sv.contents) []) w1
      → is_get st.req.method ≡ true
      → is_ok st.status ≡ true
      → st.req.get_fd ≡ some file
      → sv.rest w1 ≡ sv.contents
      → length sv.contents * 2 + 1 + fuel ≤ total
      → Finishes os out socket
          (suc (suc total))
          fuel
          (response_text st.status (length sv.contents) sv.contents)
          st
          l
          w
  head_and_file total fuel w1 h getting fine open_fd all enough =
      let st1 = record st { res = h.res; stage = to_send_res } in
      let left : sv.rest h.world ≡ sv.contents = h.same_rest ∙ all in
      let next =
        file_rounds os out socket file sv total (length sv.contents) fuel
          (emptied os out socket file sv st1) l h.world
          (emptied-Sending os out socket file sv st1
            (response_text st.status (length sv.contents) []) getting fine open_fd
            (omega (arith, h.same_len)) (omega (arith, h.same_len)) h.filled)
          (omega (arith, ap length left)) enough in
      record {
        left = next.left;
        end = next.end;
        world = next.world;
        runs = h.runs ∙ next.runs;
        enough = next.enough;
        at_end = next.at_end;
        sent =
            next.sent
            ∙ rw (left, h.sent)
                (append_assoc (out.sent socket w) (response_text st.status (length sv.contents) [])
                    sv.contents
                  ∙ ap (λ bs. out.sent socket w ++ bs)
                      (response_text-append st.status (length sv.contents) sv.contents));
        same_req = next.same_req;
        same_status = next.same_status;
      }

  -- The sizes that `build_response_header_fields` takes.
  file_sized :
      is_ok st.status ≡ true
      → (is_get st.req.method || is_head st.req.method) ≡ true
      → st.req.get_fd ≡ some file
      → body_size os st.req st.status w
        ≡ done (length sv.contents, os.seek_start file (os.seek_end file w).1)
  unfolding body_size file_size
  file_sized fine method open_fd = rw (fine, method, open_fd, file_size, sv.seek_size w) refl

  name_sized :
      (is_ok st.status && (is_get st.req.method || is_head st.req.method)) ≡ false
      → body_size os st.req st.status w ≡ done (length (get_status_name st.status) + 1, w)
  unfolding body_size
  name_sized other = rw other refl

  plain_head :
      (total size : ℕ) (w1 : os.World)
      → is_static st.status st.req.method ≡ false
      → HeadSent total (head_text st size) w1
      → HeadSent total (response_text st.status size []) w1
  plain_head total size w1 plain h = rw plain at h

  -- From `BUILD_HEADER` on, with an empty response buffer, a socket that takes a byte or more in each
  -- call, and the file open that a GET or HEAD that is OK names: with two rounds for each byte of the
  -- file and three more, `handle_request` comes to `FINISHED`, and has sent the status line, the
  -- length, and for a GET that is OK the whole file, for a HEAD that is OK nothing, and else the name
  -- of the status.
  pub handle_request-Finishes :
      (total fuel : ℕ)
      → st.stage ≡ stage_build_header
      → IsFresh st
      → st.res.flushed ≡ 0
      → ((is_ok st.status && (is_get st.req.method || is_head st.req.method)) ≡ true
          → st.req.get_fd ≡ some file)
      → length sv.contents < 2 ^ 64
      → length sv.contents * 2 + 3 + fuel ≤ total
      → Finishes os out socket total fuel (answer st sv.contents) st l w
  handle_request-Finishes zero fuel stage fresh start opened small enough = absurd (omega arith)
  handle_request-Finishes (suc zero) fuel stage fresh start opened small enough =
      absurd (omega arith)
  handle_request-Finishes (suc (suc total)) fuel stage fresh start opened small enough =
      elim (Bool-cases (is_ok st.status && (is_get st.req.method || is_head st.req.method))) [
        | inl allowed ↦
            let (fine, method) = both_true _ _ allowed in
            let sent_head =
              plain_head total (length sv.contents) (os.seek_start file (os.seek_end file w).1)
                (plain_static st.status st.req.method fine method)
                (head_rounds total (length sv.contents) _ stage fresh start
                  (file_sized fine method (opened allowed)) small (sv.seek_sends w)) in
            elim (Bool-cases (is_get st.req.method)) [
              | inl getting ↦
                  rw (allowed, getting)
                    (head_and_file total fuel _ sent_head getting fine (opened allowed)
                      (sv.seek_back w) (omega arith))
              | inr heading ↦
                  rw (allowed, heading)
                    (head_only total fuel _ _ sent_head (rw heading refl) (omega arith))
            ]
        | inr other ↦ rw other (
            head_only total fuel _ w
              (head_rounds total (length (get_status_name st.status) + 1) w stage fresh start
                (name_sized other) (name_short st.status) refl)
              (not_sent st other) (omega arith))
      ]
