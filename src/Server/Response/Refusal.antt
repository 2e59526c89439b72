-- ===== src/Server/Response/Refusal.antt =====
-- The answer to a request line that is refused: `init_parser_state`, `parse_rl` and `build_header`.
use cse130_asgn.Base.{
  ℕ, ◌+◌, ◌^◌, ◌<◌, false, List, [], ◌∷◌, ◌++◌, Option, none, some, done, ◌>>=◌, if◌then◌else◌,
  length, ◌≡◌, ◌≢◌, refl, ap, ◌∙◌, arith,
}
use mathlib.Core.Path.{subst}
use cse130_asgn.Os.{Os}
use cse130_asgn.StrView.{create_view}
use cse130_asgn.StrView.Trim.{Solid, Trimmed}
use cse130_asgn.Server.{
  State, Status, Method, ResState, build_header as stage_build_header, send_res, ok, created,
  bad_request, forbidden, not_found, internal_error, not_implemented, init_parser_state, max_header,
  is_ok,
}
use cse130_asgn.Server.Text.{get_status_name}
use cse130_asgn.Server.Parse.{parse_rl}
use cse130_asgn.Server.Parse.Spec.{method_named, request_of, no_method_status}
use cse130_asgn.Server.Parse.Line.{parse_rl-request_of}
use cse130_asgn.Server.Response.{build_header, body_size}
use cse130_asgn.Server.Response.Holds.{Holds}
use cse130_asgn.Server.Response.Build.{
  IsFresh, static_body, is_static, response_text, build_header-Built,
}

-- A reused connection, its buffers of MAX_HEADER bytes each, is fresh once it is initialised.
pub init_parser_state-IsFresh :
    (st : State)
    → st.res.buf_len ≡ max_header
    → st.req.buf_len ≡ max_header
    → length st.res.buf ≡ max_header
    → IsFresh (init_parser_state st)
unfolding init_parser_state
init_parser_state-IsFresh st hres hreq size = record {
  res_len = hres;
  req_len = hreq;
  res_size = size;
  res_end = refl;
}

module _ (st : State) (s : ℕ) (meth uri proto : List ℕ) where
  -- Reading the line leaves the response alone, and a refusal is never OK.
  same_res : (m : Option Method) → (request_of st s meth uri proto m).res ≡ st.res
  unfolding request_of
  same_res none = refl
  same_res (some m) = ground arith

  same_len : (m : Option Method) → (request_of st s meth uri proto m).req.buf_len ≡ st.req.buf_len
  unfolding request_of
  same_len none = refl
  same_len (some m) = ground arith

  request_of-IsFresh : (m : Option Method) → IsFresh st → IsFresh (request_of st s meth uri proto m)
  request_of-IsFresh m f = record {
    res_len = ap (λ r. r.buf_len) (same_res m) ∙ f.res_len;
    req_len = same_len m ∙ f.req_len;
    res_size = ap (λ r. length r.buf) (same_res m) ∙ f.res_size;
    res_end = ap (λ r. r.buf_end) (same_res m) ∙ f.res_end;
  }

  refused_status :
      (m : Option Method)
      → (request_of st s meth uri proto m).stage ≡ stage_build_header
      → is_ok (request_of st s meth uri proto m).status ≡ false
  unfolding request_of no_method_status
  refused_status none h = ground arith
  refused_status (some m) h = ground arith

body_size_refused :
    (os : Os) (st : State) (w : os.World)
    → is_ok st.status ≡ false
    → body_size os st.req st.status w ≡ done (length (get_status_name st.status) + 1, w)
unfolding body_size
body_size_refused os st w h = rw h refl

always_static :
    (status : Status) (m : Method)
    → is_ok status ≡ false
    → (if is_static status m then static_body status else []) ≡ static_body status
always_static status m h = rw h refl

pub name_short : (status : Status) → length (get_status_name status) + 1 < 2 ^ 64
unfolding get_status_name
name_short ok = omega arith
name_short created = omega arith
name_short bad_request = omega arith
name_short forbidden = omega arith
name_short not_found = omega arith
name_short internal_error = omega arith
name_short not_implemented = omega arith

module _ (os : Os) (st : State) (pre meth uri proto post : List ℕ) (s e : ℕ) (w : os.World)
    (hs : s ≡ length pre) (he : e ≡ s + length meth + 1 + (length uri + 1 + length proto))
    (hm : st.req.buf ≡ pre ++ (meth ++ b' ' ∷ (uri ++ b' ' ∷ (proto ++ post)))) where
  abbrev pub answered : State
  answered = request_of st s meth uri proto (method_named meth)

  -- On a fresh connection, a line of three words that is refused gets the response for its status: the
  -- status line, the length, and the name of the status.
  pub parse_rl-build_header :
      IsFresh st
      → Solid meth
      → meth ≢ []
      → Solid uri
      → uri ≢ []
      → Trimmed proto
      → answered.stage ≡ stage_build_header
      → (res : ResState) × ((parse_rl st (create_view (some s) (some e)) >>= λ st'.
            build_header os st' w)
          ≡ done (record answered { res = res; stage = send_res }, w))
        × Holds st.res
            (response_text answered.status
              (length (get_status_name answered.status) + 1)
              (static_body answered.status))
            res
  parse_rl-build_header f hmeth nmeth huri nuri t refused =
      let bad = refused_status st s meth uri proto (method_named meth) refused in
      let b =
        build_header-Built os answered w (length (get_status_name answered.status) + 1) w
          (request_of-IsFresh st s meth uri proto (method_named meth) f)
          (body_size_refused os answered w bad) (name_short answered.status) in
      (
        b.res,
        rw (parse_rl-request_of pre meth uri proto post s e hs he st hm hmeth nmeth huri nuri t)
            b.runs,
        subst
            (λ r.
              Holds r
                (response_text answered.status (length (get_status_name answered.status) + 1)
                  (static_body answered.status))
                b.res)
            (same_res st s meth uri proto (method_named meth))
            (subst
              (λ body.
                Holds answered.res
                  (response_text answered.status (length (get_status_name answered.status) + 1)
                    body)
                  b.res)
              (always_static answered.status answered.req.method bad) b.holds),
      )
