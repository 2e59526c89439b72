-- ===== src/Server/Response.antt =====
-- server.c: `build_header` and the functions that it calls, which put the head of the response, and
-- the body of a response that is no file, into `res->buf`.
pub mod Holds
pub mod Head
pub mod Build
pub mod Refusal
use cse130_asgn.Base.{
  ℕ, ◌+◌, ◌-◌, Bool, true, false, ◌&&◌, ◌||◌, not, List, Option, none, some, Outcome, done, fault,
  ◌>>=◌, codes, if◌then◌else◌, length,
}
use cse130_asgn.Memory.{Memory}
use cse130_asgn.Helpers.{my_utoa, buf_left, sub_size}
use cse130_asgn.Os.{Os}
use cse130_asgn.Server.{
  Status, Method, ReqState, ResState, State, send_res, status_code, is_ok, is_get, is_put, is_head,
}
use cse130_asgn.Server.Text.{copy_to, copy_protocol, copy_code, copy_msg, get_status_name}

-- `res->buf` and `res->buf_end` after a copy.
abbrev put_back : ResState → Memory × ℕ → ResState
put_back res (mem, end) = record res { buf = mem; buf_end = end }

abbrev room : ResState → ℕ
room res = buf_left 0 res.buf_end res.buf_len

unfoldable pub build_response_request_line : ResState → Status → Outcome ResState
build_response_request_line res status = do
  p ← copy_protocol res.buf res.buf_end (room res)
  let res1 = put_back res p
  c ← copy_code status res1.buf res1.buf_end (room res1)
  let res2 = put_back res1 c
  m ← copy_msg status res2.buf res2.buf_end (room res2)
  let res3 = put_back res2 m
  e ← copy_to res3.buf res3.buf_end (codes "\r\n") (room res3)
  done (put_back res3 e)

-- The length of the body; a descriptor of -1 or a negative offset fails the assertion of `file_size`.
module _ (os : Os) where
  open os use {World}

  unfoldable pub file_size : Option ℕ → World → Outcome (ℕ × World)
  file_size none w = fault
  file_size (some fd) w =
      let (size, w') = os.seek_end fd w in
      elim size [ none ↦ fault | some n ↦ done (n, os.seek_start fd w') ]

  unfoldable pub body_size : ReqState → Status → World → Outcome (ℕ × World)
  body_size req status w =
      if is_ok status && (is_get req.method || is_head req.method)
      then file_size req.get_fd w
      else done (length (get_status_name status) + 1, w)

-- The first `copy_to` is given the whole length of the buffer, and the last one the request's.
unfoldable pub put_content_length : ReqState → ResState → ℕ → Outcome ResState
put_content_length req res size = do
  p ← copy_to res.buf res.buf_end (codes "Content-Length: ") res.buf_len
  let res1 = put_back res p
  (mem, code) ← my_utoa size res1.buf res1.buf_end
  let res2 = put_back res1 (mem, res1.buf_end + code)
  e ← copy_to res2.buf res2.buf_end (codes "\r\n\r\n") (sub_size req.buf_len res2.buf_end)
  done (put_back res2 e)

unfoldable pub add_static_body : ResState → Status → Outcome ResState
add_static_body res status = do
  p ← copy_to res.buf res.buf_end (get_status_name status) (room res)
  let res1 = put_back res p
  e ← copy_to res1.buf res1.buf_end (codes "\n") (room res1)
  done (put_back res1 e)

module _ (os : Os) where
  open os use {World}

  unfoldable pub build_response_header_fields :
      ReqState → ResState → Status → World → Outcome (ResState × World)
  unfolding body_size file_size
  build_response_header_fields req res status w = do
    (size, w') ← body_size os req status w
    res' ← put_content_length req res size
    done (res', w')

  unfoldable pub build_header : State → World → Outcome (State × World)
  build_header st w = do
    res1 ← build_response_request_line st.res st.status
    (res2, w') ← build_response_header_fields st.req res1 st.status w
    let static = add_static_body res2 st.status
    res3 ← if not (is_ok st.status) || is_put st.req.method then static else done res2
    done (record st { res = res3; stage = send_res }, w')
