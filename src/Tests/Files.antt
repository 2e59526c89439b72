-- ===== src/Tests/Files.antt =====
-- Header fields, and the files of requests.
use cse130_asgn.Base.{ℕ, [], some, codes, done, ◌≡◌, refl, arith, length-replicate}
use cse130_asgn.StrView.{create_view, invalid_strview, is_empty_view}
use cse130_asgn.StrView.Trim.{Solid-Trimmed}
use cse130_asgn.Os.{SizedArrays, Progress}
use cse130_asgn.Server.{State}
use cse130_asgn.Server.Files.{open_get_file, create_filename}
use cse130_asgn.Server.Files.Named.{Gets, open_get_file-Gets, Puts, create_filename-Puts}
use cse130_asgn.Server.Body.{flush_body}
use cse130_asgn.Server.Body.Store.{StoreEnds, flush_body-StoreEnds}
use cse130_asgn.Server.Parse.{parse_hf}
use cse130_asgn.Server.Parse.Field.{field_of, parse_hf-field_of}
use cse130_asgn.Tests.Host.{host, disk, disk_output, disk-WholeWrites, idle}
use cse130_asgn.Log.Flush.{Logs}
use cse130_asgn.Server.Text.Views.{nothing, spans}
use cse130_asgn.Server.LogLine.{send_log}
use cse130_asgn.Server.LogLine.Logged.{send_log-Logs}
use cse130_asgn.Tests.Logs.{small_log, small_log-Holds}
use cse130_asgn.Tests.Requests.{asked}

-- The request line, and a header field.
abbrev with_length : State
with_length = record asked {
  req = record asked.req {
    buf = codes "Content-Length: 12\r\n";
    buf_end = 20;
    uri = create_view (some 4) (some 8);
  };
}

parse_hf-field_of_example :
    parse_hf with_length (create_view (some 0) (some 18))
    ≡ done (record with_length { req = record with_length.req { body_len = 12 } })
unfolding field_of cse130_asgn.Helpers.is_numeric
parse_hf-field_of_example =
    parse_hf-field_of with_length [] (codes "Content-Length") 1 (codes "12") 0 (codes "\r\n") 0 18
      refl refl refl (Solid-Trimmed (codes "12") (omega arith, (omega arith, tt)) (λ e. cc))
      (
        omega arith,
        (
          omega arith,
          (
            omega arith,
            (
              omega arith,
              (
                omega arith,
                (
                  omega arith,
                  (
                    omega arith,
                    (
                      omega arith,
                      (
                        omega arith,
                        (
                          omega arith,
                          (omega arith, (omega arith, (omega arith, (omega arith, tt)))),
                        ),
                      ),
                    ),
                  ),
                ),
              ),
            ),
          ),
        ),
      )

-- The name of the file that is asked for.
abbrev pub named : State
named = record asked { req = record asked.req { uri = create_view (some 4) (some 8) } }

host-SizedArrays : SizedArrays host
host-SizedArrays = record { local_size = λ n w. length-replicate {A = ℕ} n 0 }

open_get_file-Gets_example :
    Gets host host-SizedArrays named
      (codes "GET ")
      b'/'
      (codes "a.b")
      (codes " HTTP/1.1\r\n")
      4
      8
      refl
      refl
      refl
      refl
      idle
      (open_get_file host named idle)
open_get_file-Gets_example =
    open_get_file-Gets host host-SizedArrays named (codes "GET ") b'/' (codes "a.b")
      (codes " HTTP/1.1\r\n") 4 8 refl refl refl refl idle
      (omega arith, (omega arith, (omega arith, tt)))

create_filename-Puts_example :
    Puts host host-SizedArrays named
      (codes "GET ")
      b'/'
      (codes "a.b")
      (codes " HTTP/1.1\r\n")
      4
      8
      refl
      refl
      refl
      refl
      idle
      (create_filename host named idle)
create_filename-Puts_example =
    create_filename-Puts host host-SizedArrays named (codes "GET ") b'/' (codes "a.b")
      (codes " HTTP/1.1\r\n") 4 8 refl refl refl refl idle
      (omega arith, (omega arith, (omega arith, tt)))

disk-Progress : Progress disk
disk-Progress = record { some_taken = λ fd bs w h e. ground arith }

flush_body-StoreEnds_example :
    StoreEnds disk disk_output 5
      (codes "hello...")
      5
      0
      (record asked { req = record asked.req { body_len = 9 } })
      idle
      (flush_body disk 6 5
        (codes "hello...")
        0
        5
        (record asked { req = record asked.req { body_len = 9 } })
        idle)
flush_body-StoreEnds_example =
    flush_body-StoreEnds disk disk_output 5 (codes "hello...") 5 disk-Progress 6 0
      (record asked { req = record asked.req { body_len = 9 } }) idle (omega arith) (omega arith)
      (omega arith) (omega arith) (omega arith)

-- A request that was answered, and a log of eight bytes.
abbrev logged : State
logged = record asked {
  req = record asked.req {
    method_view = create_view (some 0) (some 3);
    uri = create_view (some 4) (some 8);
  };
}

disk-SizedArrays : SizedArrays disk
disk-SizedArrays = record { local_size = λ n w. length-replicate {A = ℕ} n 0 }

send_log-Logs_example :
    Logs disk disk_output 8 7 (codes "abGET,/a.b,200,0\n") (send_log disk 20 small_log logged idle)
unfolding disk_output cse130_asgn.Helpers.Decimal.decimal
send_log-Logs_example =
    send_log-Logs disk disk_output disk-SizedArrays 8 7 disk-WholeWrites 20 small_log logged idle
      (codes "GET") (codes "/a.b") [] (codes "ab")
      (spans [] (codes "GET") (codes " /a.b HTTP/1.1\r\n") refl refl refl (omega arith))
      (spans (codes "GET ") (codes "/a.b") (codes " HTTP/1.1\r\n") refl refl refl (omega arith))
      (nothing {v = invalid_strview} (unfold is_empty_view in refl)) (omega arith) (omega arith)
      (omega arith) small_log-Holds
