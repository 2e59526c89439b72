-- ===== src/Tests/Logs.antt =====
-- The log.
use cse130_asgn.Base.{[], ◌∷◌, codes, done, ◌>>=◌, ◌≡◌, refl, arith}
use cse130_asgn.Log.{Logger, log_buf, flush_logger}
use cse130_asgn.Log.Pour.{Holds}
use cse130_asgn.Log.Flush.{Logs}
use cse130_asgn.Log.Kept.{log_buf-Logs, log_each, log_each-flush_logger}
use cse130_asgn.Tests.Host.{disk, disk_output, disk-WholeWrites, idle}

-- A log of eight bytes with "ab" in it.
abbrev pub small_log : Logger
small_log = record { buf = codes "ab......"; buf_head = 2; buffer_size = 8; logfd = 7 }

pub small_log-Holds : Holds 8 7 (codes "ab") small_log
small_log-Holds = record {
  filled = record { slack = codes "......"; mem_eq = refl; end_eq = refl; size_eq = refl };
  size_eq = refl;
  fd_eq = refl;
}

log_buf-Logs_example :
    Logs disk disk_output 8 7
      (codes "abGET,/index,200,0")
      (log_buf disk 16 small_log (codes "GET,/index,200,0") idle)
unfolding disk_output
log_buf-Logs_example =
    log_buf-Logs disk disk_output 8 7 disk-WholeWrites 16 (codes "GET,/index,200,0") (codes "ab")
      small_log idle (omega arith) (omega arith) small_log-Holds

log_each-flush_logger_example :
    (l' : Logger) × (w' : disk.World) × ((log_each disk 5 small_log
          (codes "hello" ∷ codes "c" ∷ [])
          idle
        >>= λ p. flush_logger disk p.0 p.1)
      ≡ done (l', w'))
    × (w'.out ≡ codes "abhelloc")
unfolding disk_output
log_each-flush_logger_example =
    log_each-flush_logger disk disk_output 8 7 disk-WholeWrites 5 (codes "hello" ∷ codes "c" ∷ [])
      (codes "ab") small_log idle (omega arith) (omega arith, (omega arith, tt)) small_log-Holds
