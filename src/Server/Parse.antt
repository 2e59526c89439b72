-- ===== src/Server/Parse.antt =====
-- server.c: `parse_rl` and `parse_hf`, which read one line of the request.
-- A line is a view of `req->buf`; the functions of the early returns are named for the part of the
-- line that they read.
pub mod Spec
pub mod Words
pub mod Line
pub mod Field
use cse130_asgn.Base.{
  ℕ, ◌+◌, ◌-◌, Bool, true, not, Option, none, some, Outcome, done, ◌>>=◌, codes, ltb, if◌then◌else◌,
}
use cse130_asgn.Helpers.{find_delim}
use cse130_asgn.StrView.{
  StringView, create_view, bounds, compare_vs, trim_whitespace, parse_to_int, is_negative,
}
use cse130_asgn.Server.{is_unknown, bad_request, Stage, build_header, header_fields, State, fail}
use cse130_asgn.Server.Validate.{is_same, validate_path, validate_proto, get_method}

abbrev set_stage : State → Stage → State
set_stage st stage = record st { stage = stage }

-- From `validate_proto` on.
parse_proto : State → ℕ → ℕ → Outcome State
parse_proto st uri_end rl_end = do
  proto ← trim_whitespace st.req.buf (create_view (some uri_end) (some rl_end))
  valid ← validate_proto st.req.buf proto
  done (if not valid then fail st bad_request else set_stage st header_fields)

-- From the search for the end of the URI on.
parse_uri : State → ℕ → ℕ → Outcome State
parse_uri st method_end rl_end = do
  found ← find_delim st.req.buf method_end rl_end (codes " ")
  elim found [
    | none ↦ done (fail st bad_request)
    | some uri_end ↦ do
      uri ← trim_whitespace st.req.buf (create_view (some method_end) (some uri_end))
      let st1 = record st { req = record st.req { uri = uri } }
      valid ← validate_path st.req.buf uri
      let rest = parse_proto st1 uri_end rl_end
      if not valid then done (fail st1 bad_request) else rest
  ]

-- From `method_end` on, with the start of the line.
parse_method : State → ℕ → ℕ → ℕ → Outcome State
parse_method st rl_start method_end rl_end = do
  view ← trim_whitespace st.req.buf (create_view (some rl_start) (some method_end))
  (method, status) ← get_method st.req.buf view st.status
  let st1 = record st {
    req = record st.req { method_view = view; method = method };
    status = status;
  }
  let rest = parse_uri st1 method_end rl_end
  if is_unknown method then done (set_stage st1 build_header) else rest

unfoldable pub parse_rl : State → StringView → Outcome State
unfolding parse_method parse_uri parse_proto
parse_rl st rl = do
  (rl_start, rl_end) ← bounds rl
  found ← find_delim st.req.buf rl_start rl_end (codes " ")
  elim found [
    | none ↦ done (fail st bad_request)
    | some method_end ↦ parse_method st rl_start method_end rl_end
  ]

-- `colon - 1`, with NULL - 1 as another pointer outside the buffer.
abbrev before_colon : Option ℕ → Option ℕ
before_colon none = none
before_colon (some p) = some (p - 1)

-- `colon == NULL || colon < hf.start+1`
abbrev no_key : Option ℕ → ℕ → Bool
no_key none start = true
no_key (some colon) start = ltb colon (start + 1)

-- The last part, for the value of a header field that is known by its key. A negative
-- `Content-Length` returns; the failure that `no_key` sets does not, and is passed in.
parse_value : State → StringView → StringView → Outcome State
parse_value st key value = do
  is_length ← compare_vs st.req.buf key (codes "Content-Length")
  let set_length = (do
    len ← parse_to_int st.req.buf value
    done (
        if is_negative len
        then fail st bad_request
        else record st { req = record st.req { body_len = len } }))
  let set_id = (do
    id ← trim_whitespace st.req.buf value
    done (record st { req = record st.req { id = id } }))
  let other = (do
    is_id ← compare_vs st.req.buf key (codes "RequestID")
    if is_same is_id then set_id else done st)
  if is_same is_length then set_length else other

unfoldable pub parse_hf : State → StringView → Outcome State
unfolding parse_value
parse_hf st hf = do
  (hf_start, hf_end) ← bounds hf
  colon ← find_delim st.req.buf hf_start hf_end (codes ":")
  let st1 = if no_key colon hf_start then fail st bad_request else st
  parse_value st1 (create_view (some hf_start) (before_colon colon))
      (create_view colon (some hf_end))
