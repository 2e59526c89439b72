-- ===== src/Tests/Responses.antt =====
-- Responses: built, and sent through a socket that takes them in pieces.
use cse130_asgn.Base.{
  ℕ, [], none, some, done, ◌≡◌, codes, refl, arith, replicate, length-replicate, ◌>>=◌,
}
use cse130_asgn.StrView.{create_view, invalid_strview}
use cse130_asgn.Server.Transfer
use cse130_asgn.Server.{
  State, ResState, ok, bad_request, request_line, read_file, init_parser_state, get, build_header,
  not_found, send_res, max_header,
}
use cse130_asgn.Server.Response.{body_size}
use cse130_asgn.Server.Response.Build.{
  Built, IsFresh, response_text, static_body, build_header-Built,
}
use cse130_asgn.Server.Response.Holds.{Holds}
use cse130_asgn.Server.Response.Refusal.{answered, parse_rl-build_header}
use cse130_asgn.Server.Parse.{parse_rl}
use cse130_asgn.StrView.Trim.{Solid-Trimmed}
use cse130_asgn.Server.Response
use cse130_asgn.Server.Transfer.Send.{SendEnds, send_res-SendEnds}
use cse130_asgn.Server.Transfer.{read_get_body}
use cse130_asgn.Server.Transfer.Chunk.{ChunkEnds, read_get_body-ChunkEnds}
use cse130_asgn.Tests.Host.{host, host-Input, host-Output, idle}

-- A request for a file that is not there.
abbrev missing : State
missing = record {
  req = record {
    buf = [];
    buf_end = 0;
    parsed_end = 0;
    buf_len = max_header;
    body_len = 0;
    id = invalid_strview;
    uri = invalid_strview;
    method_view = invalid_strview;
    method = get;
    put_fd = none;
    get_fd = none;
  };
  res = record { buf = replicate max_header 0; buf_end = 0; flushed = 0; buf_len = max_header };
  status = not_found;
  stage = build_header;
}

missing-IsFresh : IsFresh missing
missing-IsFresh = record {
  res_len = refl;
  req_len = refl;
  res_size = length-replicate {A = ℕ} max_header 0;
  res_end = refl;
}

build_header-Built_example : Built host missing idle 10 idle (static_body not_found)
unfolding cse130_asgn.Server.Text.get_status_name
build_header-Built_example =
    build_header-Built host missing idle 10 idle missing-IsFresh (unfold body_size in refl)
      (omega arith)

-- Ten bytes to be sent.
abbrev ready : State
ready = record missing {
  res = record { buf = codes "Not Found\n"; buf_end = 10; flushed = 0; buf_len = 10 };
  stage = send_res;
}

send_res-SendEnds_example :
    SendEnds host host-Output 4 ready idle (Transfer.send_res host 4 ready idle)
send_res-SendEnds_example = send_res-SendEnds host host-Output 4 ready idle (omega arith)

-- A connection with a request line for a protocol that is not served.
abbrev old_protocol : State
old_protocol = record missing {
  req = record missing.req { buf = codes "GET /a HTTP/1.0\r\n" };
  status = ok;
  stage = request_line;
}

old_protocol-IsFresh : IsFresh old_protocol
old_protocol-IsFresh = record {
  res_len = refl;
  req_len = refl;
  res_size = length-replicate {A = ℕ} max_header 0;
  res_end = refl;
}

parse_rl-build_header_example :
    (res : ResState) × ((parse_rl old_protocol (create_view (some 0) (some 15)) >>= λ st'.
    Response.build_header host st' idle)
      ≡ done (
        record (answered host old_protocol []
            (codes "GET")
            (codes "/a")
            (codes "HTTP/1.0")
            (codes "\r\n")
            0
            15
            idle
            refl
            refl
            refl) { res = res; stage = send_res },
        idle,
      ))
    × Holds old_protocol.res (response_text bad_request 12 (codes "Bad Request\n")) res
unfolding cse130_asgn.Server.Text.get_status_name cse130_asgn.Server.Parse.Spec.request_of
    cse130_asgn.Server.Parse.Spec.method_named cse130_asgn.Server.Validate.validate_path_char
parse_rl-build_header_example =
    parse_rl-build_header host old_protocol [] (codes "GET") (codes "/a") (codes "HTTP/1.0")
      (codes "\r\n") 0 15 idle refl refl refl old_protocol-IsFresh
      (omega arith, (omega arith, (omega arith, tt))) (λ e. cc) (omega arith, (omega arith, tt))
      (λ e. cc)
      (Solid-Trimmed (codes "HTTP/1.0")
        (
          omega arith,
          (
            omega arith,
            (
              omega arith,
              (omega arith, (omega arith, (omega arith, (omega arith, (omega arith, tt))))),
            ),
          ),
        )
        (λ e. cc))
      refl

-- A GET whose header has gone out.
abbrev reading : State
reading = record missing {
  req = record missing.req { get_fd = some 5 };
  status = ok;
  stage = read_file;
}

read_get_body-ChunkEnds_example :
    ChunkEnds host host-Input 5 reading [] idle (read_get_body host reading idle)
read_get_body-ChunkEnds_example =
    read_get_body-ChunkEnds host host-Input 5 reading [] idle refl refl refl (omega arith) (record {
      slack = replicate max_header 0;
      mem_eq = refl;
      end_eq = refl;
      size_eq = length-replicate {A = ℕ} max_header 0;
    })
