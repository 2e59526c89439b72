-- ===== src/Server/Response/Build.antt =====
-- server.c: `build_header` on a fresh response buffer, and the text of a response.
use mathlib.Core.Path.{subst}
use cse130_asgn.Base.{
  ℕ, ◌^◌, ◌<◌, Bool, Bool-cases, not, ◌||◌, List, [], ◌++◌, append-nil, append_assoc, done, codes,
  length, ◌≡◌, inl, inr, refl, sym, arith, if◌then◌else◌,
}
use cse130_asgn.Helpers.Decimal.{decimal}
use cse130_asgn.Os.{Os}
use cse130_asgn.Server.{Status, Method, ResState, State, send_res, max_header, is_ok, is_put}
use cse130_asgn.Server.Text.{get_status_name}
use cse130_asgn.Server.Response.{
  body_size, build_response_request_line, add_static_body, put_content_length,
  build_response_header_fields, build_header,
}
use cse130_asgn.Server.Response.Holds.{Holds, Yields}
use cse130_asgn.Server.Response.Head.{
  status_line, with_length, build_response_request_line-Yields, put_content_length-Yields,
  add_static_body-Yields, length-status_line, length-with_length,
}

-- The name of the status and a line feed.
abbrev pub static_body : Status → List ℕ
static_body s = get_status_name s ++ codes "\n"

abbrev pub is_static : Status → Method → Bool
is_static s m = not (is_ok s) || is_put m

-- The whole response, but for the bytes of a file.
abbrev pub response_text : Status → ℕ → List ℕ → List ℕ
response_text s size body =
    status_line s ++ (codes "Content-Length: " ++ (decimal size ++ (codes "\r\n\r\n" ++ body)))

pub record IsFresh (st : State) : Type 0 where
  pub res_len : st.res.buf_len ≡ max_header
  pub req_len : st.req.buf_len ≡ max_header
  pub res_size : length st.res.buf ≡ max_header
  pub res_end : st.res.buf_end ≡ 0

fresh-Holds : (st : State) → IsFresh st → Holds st.res [] st.res
fresh-Holds st f = record {
  filled = record {
    slack = st.res.buf;
    mem_eq = refl;
    end_eq = f.res_end;
    size_eq = omega (arith, f.res_size, f.res_len);
  };
  same_flushed = refl;
  same_len = refl;
}

module _ (os : Os) (st : State) (w : os.World) (size : ℕ) (w' : os.World) where
  -- The response that `build_header` leaves: the state is the same but for `res->buf`, `res->buf_end`
  -- and the stage.
  pub record Built (body : List ℕ) : Type 0 where
    pub res : ResState
    pub runs : build_header os st w ≡ done (record st { res = res; stage = send_res }, w')
    pub holds : Holds st.res (response_text st.status size body) res

  with_body :
      (body : List ℕ) (res : ResState)
      → build_header os st w ≡ done (record st { res = res; stage = send_res }, w')
      → Holds st.res (with_length (status_line st.status) size ++ body) res
      → Built body
  with_body body res runs h = record {
    res = res;
    runs = runs;
    holds = subst (λ t. Holds st.res t res) (simp append_assoc) h;
  }

  -- On a fresh response buffer, for every status and method, and whatever the size of the body,
  -- `build_header` runs to its end, and leaves the response in the buffer and nothing else changed but
  -- the stage: the status line, the length, and the static body unless a file follows.
  pub build_header-Built :
      IsFresh st
      → body_size os st.req st.status w ≡ done (size, w')
      → size < 2 ^ 64
      → Built (if is_static st.status st.req.method then static_body st.status else [])
  unfolding build_header build_response_header_fields
  build_header-Built f sized lt = elim (Bool-cases (is_static st.status st.req.method)) [
    | inl static ↦ rw static (
        with_body (static_body st.status) y3.res
          (rw (y1.runs, sized, y2.runs, static, y3.runs) refl)
          (subst (λ t. Holds st.res t y3.res)
            (append_assoc (with_length (status_line st.status) size) (get_status_name st.status)
              (codes "\n"))
            y3.holds))
    | inr plain ↦ rw plain (
        with_body [] y2.res (rw (y1.runs, sized, y2.runs, plain) refl) (
          subst (λ t. Holds st.res t y2.res)
            (sym (append-nil (with_length (status_line st.status) size))) y2.holds))
  ]
    where
      y1 : Yields st.res (status_line st.status) (build_response_request_line st.res st.status)
      y1 = build_response_request_line-Yields st.status f.res_len (fresh-Holds st f)

      y2 :
          Yields st.res
            (with_length (status_line st.status) size)
            (put_content_length st.req y1.res size)
      y2 =
          put_content_length-Yields st.req f.res_len f.req_len size lt y1.holds
            (omega (arith, length-status_line st.status))

      y3 :
          Yields st.res
            ((with_length (status_line st.status) size ++ get_status_name st.status) ++ codes "\n")
            (add_static_body y2.res st.status)
      y3 = add_static_body-Yields st.status f.res_len y2.holds (
          omega
            (arith, length-status_line st.status, length-with_length (status_line st.status) size))
