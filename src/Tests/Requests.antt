-- ===== src/Tests/Requests.antt =====
-- Requests.
use cse130_asgn.Base.{
  ℕ, [], some, none, codes, done, ◌≡◌, refl, arith, replicate, length-replicate, ◌>>=◌,
}
use cse130_asgn.StrView.{create_view, is_empty_view, invalid_strview}
use cse130_asgn.StrView.Trim.{Solid-Trimmed}
use cse130_asgn.Server.{State, ReqState, max_log, ok, none_yet, get, request_line, header_fields}
use cse130_asgn.Server.Parse.{parse_rl}
use cse130_asgn.Server.Parse.Spec.{request_of}
use cse130_asgn.Server.Parse.Line.{parse_rl-request_of}
use cse130_asgn.Memory.Filled.{Fills}
use cse130_asgn.Helpers.{find_delim}
use cse130_asgn.Server.Read.{rl_loop}
use cse130_asgn.Server.Read.Fill.{LoopEnds, rl_search-LoopEnds}
use cse130_asgn.Server.Text.Views.{nothing, spans}
use cse130_asgn.Server.LogLine.{log_line}
use cse130_asgn.Server.LogLine.Text.{log_line-Fills}
use cse130_asgn.Tests.Host.{host, host-Input, idle}

-- A connection whose buffer holds a request line.
abbrev pub asked : State
asked = record {
  req = record {
    buf = codes "GET /a.b HTTP/1.1\r\n";
    buf_end = 19;
    parsed_end = 0;
    buf_len = 19;
    body_len = 0;
    id = invalid_strview;
    uri = invalid_strview;
    method_view = invalid_strview;
    method = none_yet;
    put_fd = none;
    get_fd = none;
  };
  res = record { buf = []; buf_end = 0; flushed = 0; buf_len = 0 };
  status = ok;
  stage = request_line;
}

parse_rl-request_of_example :
    parse_rl asked (create_view (some 0) (some 17))
    ≡ done (record asked {
      req = record asked.req {
        method_view = create_view (some 0) (some 3);
        method = get;
        uri = create_view (some 4) (some 8);
      };
      stage = header_fields;
    })
unfolding request_of cse130_asgn.Server.Validate.validate_path_char
    cse130_asgn.Server.Parse.Spec.method_named
parse_rl-request_of_example =
    parse_rl-request_of [] (codes "GET") (codes "/a.b") (codes "HTTP/1.1") (codes "\r\n") 0 17 refl
      refl asked refl (omega arith, (omega arith, (omega arith, tt))) (λ e. cc)
      (omega arith, (omega arith, (omega arith, (omega arith, tt)))) (λ e. cc)
      (Solid-Trimmed (codes "HTTP/1.1")
        (
          omega arith,
          (
            omega arith,
            (
              omega arith,
              (omega arith, (omega arith, (omega arith, (omega arith, (omega arith, tt))))),
            ),
          ),
        )
        (λ e. cc))

-- A connection with an empty buffer of 32 bytes.
abbrev silent : State
silent = record asked { req = record asked.req { buf = replicate 32 0; buf_end = 0; buf_len = 32 } }

rl_search-LoopEnds_example : LoopEnds host host-Input 4 silent [] idle (
    find_delim (replicate 32 0) 0 0 (codes "\r\n") >>= λ line_end.
    rl_loop host 33 4 silent idle line_end)
rl_search-LoopEnds_example =
    rl_search-LoopEnds host host-Input 4 silent [] idle 33 (omega arith) (omega arith) (omega arith)
      (record {
        slack = replicate 32 0;
        mem_eq = refl;
        end_eq = refl;
        size_eq = length-replicate {A = ℕ} 32 0;
      })

-- A request that was read.
abbrev answered : ReqState
answered = record asked.req {
  method_view = create_view (some 0) (some 3);
  uri = create_view (some 4) (some 8);
}

log_line-Fills_example :
    Fills max_log (codes "GET,/a.b,200,0\n") (log_line answered ok (replicate max_log 0))
unfolding cse130_asgn.Helpers.Decimal.decimal
log_line-Fills_example =
    log_line-Fills answered ok (codes "GET") (codes "/a.b") [] (replicate max_log 0)
      (spans [] (codes "GET") (codes " /a.b HTTP/1.1\r\n") refl refl refl (omega arith))
      (spans (codes "GET ") (codes "/a.b") (codes " HTTP/1.1\r\n") refl refl refl (omega arith))
      (nothing {v = invalid_strview} (unfold is_empty_view in refl))
      (length-replicate {A = ℕ} max_log 0) (omega arith)
