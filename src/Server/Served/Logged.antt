-- ===== src/Server/Served/Logged.antt =====
-- server.c: `handle_request`, from a GET or HEAD to the line in the log.
use cse130_asgn.Base.{ℕ, ◌<◌, true, List, ◌++◌, done, length, ◌≡◌}
use cse130_asgn.Os.{Os, Output}
use cse130_asgn.Log.{Logger}
use cse130_asgn.Log.Pour.{Holds}
use cse130_asgn.Server.{State, Status, finished}
use cse130_asgn.Server.Files.Found.{Found}
use cse130_asgn.Server.Handle.{handle_request}
use cse130_asgn.Server.Served.Apart.{Apart}
use cse130_asgn.Server.Served.Whole.{Served}

-- `handle_request` has returned true, in this state, with this logger and in the world `after`: `bytes`
-- have gone out through the socket since `w`, and what is written of the log and what it holds make up
-- what they made up at `w`, and `line`.
pub record Logged (os : Os) (out : Output os) (socket size fd total : ℕ) (bytes text line : List ℕ)
    (status : Status) (st : State) (l : Logger) (w : os.World) : Type 0 where
  pub end : State
  pub logger : Logger
  pub after : os.World
  pub kept : List ℕ
  pub runs : handle_request os total socket st l w ≡ done (true, end, logger, after)
  pub at_end : end.stage ≡ finished
  pub status_end : end.status ≡ status
  pub sent : out.sent socket after ≡ out.sent socket w ++ bytes
  pub holds : Holds size fd kept logger
  pub short : length kept < size
  pub line_kept : out.sent fd after ++ kept ≡ out.sent fd w ++ (text ++ line)
