-- ===== src/Server.antt =====
-- The state of one request: server_enums.h, reqres.h, and `struct State` of server.c.
-- The handlers of server.c are in the child modules.
pub mod Text
pub mod Response
pub mod Transfer
pub mod Validate
pub mod Parse
pub mod Files
pub mod Read
pub mod Body
pub mod LogLine
pub mod Handle
pub mod States
pub mod Answer
pub mod Served
use cse130_asgn.Base.{ℕ, Option, none, Bool, true, false}
use cse130_asgn.Memory.{Memory}
use cse130_asgn.StrView.{StringView, invalid_strview}

pub data Method : Type 0 where
  get put head none_yet unknown : Method

pub data Status : Type 0 where
  ok created bad_request forbidden not_found internal_error not_implemented : Status

pub data Stage : Type 0 where
  request_line header_fields read_body build_header send_header read_file send_res finished : Stage

abbrev pub max_log : ℕ
max_log = 500

abbrev pub max_path : ℕ
max_path = 300

abbrev pub read_len : ℕ
read_len = 10000

abbrev pub max_header : ℕ
max_header = 2050

-- `buf` is the buffer itself; the pointers into it are offsets. A descriptor of -1 is `none`.
pub record ReqState : Type 0 where
  pub buf : Memory
  pub buf_end : ℕ
  pub parsed_end : ℕ
  pub buf_len : ℕ
  pub body_len : ℕ
  pub id : StringView
  pub uri : StringView
  pub method_view : StringView
  pub method : Method
  pub put_fd : Option ℕ
  pub get_fd : Option ℕ

pub record ResState : Type 0 where
  pub buf : Memory
  pub buf_end : ℕ
  pub flushed : ℕ
  pub buf_len : ℕ

pub record State : Type 0 where
  pub req : ReqState
  pub res : ResState
  pub status : Status
  pub stage : Stage

-- The enumerators' values.
abbrev pub status_code : Status → ℕ
status_code ok = 200
status_code created = 201
status_code bad_request = 400
status_code forbidden = 403
status_code not_found = 404
status_code internal_error = 500
status_code not_implemented = 501

abbrev pub is_ok : Status → Bool
is_ok ok = true
is_ok _ = false

abbrev pub is_get : Method → Bool
is_get get = true
is_get _ = false

abbrev pub is_put : Method → Bool
is_put put = true
is_put _ = false

abbrev pub is_head : Method → Bool
is_head head = true
is_head _ = false

abbrev pub is_unknown : Method → Bool
is_unknown unknown = true
is_unknown _ = false

-- `*status = …; *stage = …` at the early returns.
abbrev pub fail : State → Status → State
fail st status = record st { status = status; stage = build_header }

-- Only the lengths and the contents of the buffers survive.
unfoldable pub init_parser_state : State → State
init_parser_state s = record {
  stage = request_line;
  status = ok;
  req = record {
    buf = s.req.buf;
    buf_end = 0;
    parsed_end = 0;
    buf_len = s.req.buf_len;
    body_len = 0;
    id = invalid_strview;
    uri = invalid_strview;
    method_view = invalid_strview;
    method = none_yet;
    put_fd = none;
    get_fd = none;
  };
  res = record { buf = s.res.buf; buf_end = 0; flushed = 0; buf_len = s.res.buf_len };
}
