-- ===== src/Server/Served/Whole.antt =====
-- server.c: `handle_request`, from a GET or HEAD to the last byte of its answer.
use mathlib.Core.Path.{subst}
use cse130_asgn.Base.{
  ℕ, suc, ◌+◌, ◌-◌, ◌*◌, ◌^◌, ◌≤◌, ◌<◌, Bool, true, false, ◌&&◌, ◌||◌, List, [], ◌∷◌, ◌++◌,
  append_assoc, Option, some, done, codes, length, All, ◌≡◌, refl, sym, ap, ◌∙◌, arith,
  length-append,
}
use cse130_asgn.Os.{Os, Output, SizedArrays, OpenFlags, read_only}
use cse130_asgn.Log.{Logger}
use cse130_asgn.Server.{
  State, Status, is_get, is_head, is_put, header_fields, build_header, finished, max_header,
  max_path,
}
use cse130_asgn.Server.Text.Views.{nothing}
use cse130_asgn.Server.Files.{open_get_file}
use cse130_asgn.Server.Files.Found.{
  Found, there, missing, unreadable, no_file, locked, looked_up, open_get_file-LookedUp,
}
use cse130_asgn.Server.Read.{set_parsed, set_buf}
use cse130_asgn.Server.Read.Round.{ended, read_hf_last}
use cse130_asgn.Server.Response.Build.{IsFresh}
use cse130_asgn.Server.Handle.{run_stage, handle_request}
use cse130_asgn.Server.Answer.{Serving}
use cse130_asgn.Server.Answer.Rounds.{Finishes, handle_request_round}
use cse130_asgn.Server.Answer.Delivered.{answer, handle_request-Finishes}
use cse130_asgn.Server.Served.{
  Asked, method_of, word_of, Field, IsField, headers, request_line_of, request_text, id_after,
}
use cse130_asgn.Server.Served.Fields.{fields_rounds}
use cse130_asgn.Server.Served.Reply.{Views, Views-request, asks_file, no_put, reply, answer-reply}
use cse130_asgn.Server.Served.Line.{IsName, name-no_nul, uri_of, line_read, Waiting, line_round}

-- The calls that read the request and find the file send nothing.
pub record Quiet (os : Os) (out : Output os) (socket : ℕ) : Type 0 where
  pub reading :
      (len : ℕ) (w : os.World) → out.sent socket (os.read socket len w).1 ≡ out.sent socket w
  pub looking :
      (path : List ℕ) (w : os.World) → out.sent socket (os.lstat path w).1 ≡ out.sent socket w
  pub opening :
      (path : List ℕ) (flags : OpenFlags) (w : os.World)
      → out.sent socket (os.open_path path flags w).1 ≡ out.sent socket w

-- With `total` rounds the request comes to `FINISHED` with this status, with `fuel` rounds or more to
-- go, and these bytes have gone out; the views are those of the request.
pub record Served (os : Os) (out : Output os) (socket total fuel : ℕ) (bytes : List ℕ)
    (status : Status) (word uri id : List ℕ) (st : State) (l : Logger) (w : os.World) : Type 0 where
  pub left : ℕ
  pub end : State
  pub world : os.World
  pub runs : handle_request os total socket st l w ≡ handle_request os left socket end l world
  pub enough : fuel ≤ left
  pub at_end : end.stage ≡ finished
  pub status_end : end.status ≡ status
  pub sent : out.sent socket world ≡ out.sent socket w ++ bytes
  pub views : Views end.req word uri id

module _ (os : Os) (out : Output os) (socket file : ℕ) (quiet : Quiet os out socket) (name : List ℕ)
    (w : os.World) where
  looking_up :
      (status : Status) (w1 : os.World)
      → Found os file name w status w1
      → out.sent socket w1 ≡ out.sent socket w
  looking_up status w1 (there a b) =
      quiet.opening name read_only (os.lstat name w).1 ∙ quiet.looking name w
  looking_up status w1 (missing a b) = quiet.looking name w
  looking_up status w1 (unreadable a b) = quiet.looking name w
  looking_up status w1 (no_file a) = quiet.looking name w
  looking_up status w1 (locked a b) =
      quiet.opening name read_only (os.lstat name w).1 ∙ quiet.looking name w

module _ (os : Os) (out : Output os) (sized : SizedArrays os) (socket file : ℕ)
    (sv : Serving os out socket file) (quiet : Quiet os out socket) (st : State) (l : Logger)
    (w w0 w1 : os.World) (name : List ℕ) (a : Asked) (fs : List Field) (status : Status) where
  -- The state once the file is looked up.
  abbrev opened : State → Option ℕ → ℕ → State
  opened e fd p = set_parsed (record (looked_up os e status fd) { stage = build_header }) p

  -- The empty line: the file is looked up.
  last_round :
      (total : ℕ) (e : State) (pre post : List ℕ) (opens : Bool) (fd : Option ℕ)
      → e.stage ≡ header_fields
      → e.req.method ≡ method_of a
      → open_get_file os e w0 ≡ done (opens, looked_up os e status fd, w1)
      → e.req.buf ≡ pre ++ ended [] post
      → e.req.parsed_end ≡ length pre
      → length pre + 2 ≤ e.req.buf_end
      → e.req.buf_end + 2 ≤ e.req.buf_len
      → e.req.buf_len < 2 ^ 64
      → (p : ℕ) × (handle_request os (suc total) socket e l w0
          ≡ handle_request os total socket (opened e fd p) l w1)
  unfolding run_stage
  last_round total e pre post opens fd stage getting looked hb hs he room small = (
    e.req.parsed_end + length {A = ℕ} [] + 2,
    handle_request_round os socket e l w0 total header_fields _ w1 stage refl (
        read_hf_last os total socket e w0 pre [] post hb hs (omega arith) tt room small opens
          (looked_up os e status fd) w1 refl (ap (λ m. is_head m || is_get m) getting ∙ asks_file a)
          looked (ap is_put getting ∙ no_put a)),
  )

  -- The rounds before the head is built, and those after it.
  joined :
      (e : State) (fd : Option ℕ) (p total fuel : ℕ)
      → Found os file name w0 status w1
      → Waiting st
      → length fs + 2 + (length sv.contents * 2 + 3) + fuel ≤ total
      → handle_request os (suc (suc (length fs + (total - (length fs + 2))))) socket st l w
        ≡ handle_request os (total - (length fs + 2)) socket (opened e fd p) l w1
      → e.req.method ≡ method_of a
      → out.sent socket w0 ≡ out.sent socket w
      → Views (opened e fd p).req (word_of a) (uri_of name) (id_after [] fs)
      → Finishes os out socket
          (total - (length fs + 2))
          fuel
          (answer (opened e fd p) sv.contents)
          (opened e fd p)
          l
          w1
      → Served os out socket total fuel
          (reply a status sv.contents)
          status
          (word_of a)
          (uri_of name)
          (id_after [] fs)
          st
          l
          w
  joined e fd p total fuel found v enough before getting read_quiet views f = record {
    left = f.left;
    end = f.end;
    world = f.world;
    runs = ap (λ (n : ℕ). handle_request os n socket st l w) (omega arith) ∙ before ∙ f.runs;
    enough = f.enough;
    at_end = f.at_end;
    status_end = f.same_status;
    sent =
        f.sent
        ∙ ap (λ bs. out.sent socket w1 ++ bs) (answer-reply a (opened e fd p) sv.contents getting)
        ∙ ap (λ bs. bs ++ reply a status sv.contents)
            (looking_up os out socket file quiet name w0 status w1 found ∙ read_quiet);
    views = subst (λ r. Views r (word_of a) (uri_of name) (id_after [] fs)) (sym f.same_req) views;
  }

  -- A GET or HEAD on a fresh connection, with header fields that are not refused, that comes in one `read`, for
  -- a name of less than MAX_PATH bytes, on a socket that takes a byte or more in each call: with a round
  -- for the line, one for each field, one for the empty line, and two for each byte of the file and
  -- three more, `handle_request` comes to `FINISHED` with the status that `Found` gives, and has sent
  -- the response for it: for a regular file that can be opened, the status line, the length and the
  -- whole file, for a HEAD not the file; else the status line, the length and the name of the status.
  pub handle_request-Served :
      (total fuel : ℕ)
      → Waiting st
      → IsFresh st
      → st.res.flushed ≡ 0
      → IsName name
      → suc (length name) < max_path
      → All IsField fs
      → length (request_text a (uri_of name) fs []) + 2 ≤ max_header
      → os.read socket max_header w ≡ (some (request_text a (uri_of name) fs []), w0)
      → Found os file name w0 status w1
      → length sv.contents < 2 ^ 64
      → length fs + 2 + (length sv.contents * 2 + 3) + fuel ≤ total
      → Served os out socket total fuel
          (reply a status sv.contents)
          status
          (word_of a)
          (uri_of name)
          (id_after [] fs)
          st
          l
          w
  handle_request-Served total fuel v fresh start n short fields fits reads found small enough =
      let line = request_line_of a (uri_of name) in
      let total2 = total - (length fs + 2) in
      let g = line_round os socket l w w0 st a name fs n v fits reads in
      let st1 = line_read a (set_buf st g.mem g.end) name in
      let text_length = length-append line (13 ∷ 10 ∷ headers fs []) in
      let pre_length : length (ended line []) ≡ length line + 2 =
        length-append line (13 ∷ 10 ∷ []) in
      let b =
        fields_rounds os socket l w0 fs st1 (ended line []) g.slack fields refl
          (g.buf ∙ simp append_assoc) (omega (arith, v.start, pre_length))
          (omega (arith, pre_length, g.end_eq, text_length)) (omega (arith, g.end_eq, v.size))
          (omega (arith, v.size)) in
      let k = b.kept in
      let looked =
        open_get_file-LookedUp os sized b.end (word_of a ++ b' ' ∷ []) b'/' name
          (b' ' ∷ (codes "HTTP/1.1" ++ 13 ∷ 10 ∷ headers fs g.slack))
          (st.req.parsed_end + length (word_of a) + 1)
          (st.req.parsed_end + length (word_of a) + 1 + suc (length name)) k.uri
          (k.buf ∙ g.buf ∙ simp append_assoc)
          (omega (arith, v.start, length-append (word_of a) (b' ' ∷ []))) refl w0 file status w1
          found (k.status ∙ v.status) short (name-no_nul n) in
      let (p, last) =
        last_round total2 b.end b.pre g.slack looked.opens looked.fd k.stage k.method looked.runs
          b.buf b.parsed b.inside (omega (arith, k.buf_end, k.buf_len, g.end_eq, v.size))
          (omega (arith, k.buf_len, v.size)) in
      let f =
        handle_request-Finishes os out socket file sv (opened b.end looked.fd p) l w1 total2 fuel
          refl (still_fresh b.end looked.fd p k.res (k.buf_len ∙ v.size) fresh) (rw k.res start)
          (λ e. looked.opened (front _ _ e)) small (omega arith) in
      joined b.end looked.fd p total fuel found v enough
        (g.runs (length fs + total2)
          ∙ ap (λ (m : ℕ). handle_request os m socket st1 l w0) (omega arith)
          ∙ b.runs (suc total2)
          ∙ last)
        k.method (w0_sends reads)
        (Views-request a (opened b.end looked.fd p).req name (headers fs g.slack) (id_after [] fs)
          st.req.parsed_end (k.buf ∙ g.buf) v.start k.method_view k.uri (b.id [] (nothing v.no_id)))
        f
    where
      w0_sends :
          os.read socket max_header w ≡ (some (request_text a (uri_of name) fs []), w0)
          → out.sent socket w0 ≡ out.sent socket w
      w0_sends r = ap (λ q. out.sent socket q.1) (sym r) ∙ quiet.reading max_header w

      front : (a b : Bool) → (a && b) ≡ true → a ≡ true
      front true b h = refl
      front false b h = cc

      still_fresh :
          (e : State) (fd : Option ℕ) (p : ℕ)
          → e.res ≡ st.res
          → e.req.buf_len ≡ max_header
          → IsFresh st
          → IsFresh (opened e fd p)
      still_fresh e fd p same size f = record {
        res_len = rw same f.res_len;
        req_len = size;
        res_size = rw same f.res_size;
        res_end = rw same f.res_end;
      }
