-- ===== src/Server/Served/Apart.antt =====
-- server.c: a log file that is apart from the socket and the file that is sent, and the accounts of what
-- goes out that have both in them.
use cse130_asgn.Base.{ℕ, List, Option, none, some, ◌≡◌, refl, ◌∙◌}
use cse130_asgn.Os.{Os, Output, OpenFlags}
use cse130_asgn.Os.Beside.{beside, beside_same}
use cse130_asgn.Server.{State}
use cse130_asgn.Server.Handle.{close_if, cleanup}
use cse130_asgn.Server.Answer.{Serving}
use cse130_asgn.Server.Served.Whole.{Quiet}

-- The log file is another one than the socket and the file that is sent: what goes out through one of
-- log and socket is not changed by a `write` to the other, and no other call changes it.
pub record Apart (os : Os) (out : Output os) (socket file log : ℕ) : Type 0 where
  pub write_log :
      (bs : List ℕ) (w : os.World) → out.sent socket (os.write log bs w).1 ≡ out.sent socket w
  pub write_socket :
      (bs : List ℕ) (w : os.World) → out.sent log (os.write socket bs w).1 ≡ out.sent log w
  pub read_log : (d len : ℕ) (w : os.World) → out.sent log (os.read d len w).1 ≡ out.sent log w
  pub seek_log :
      (w : os.World) → out.sent log (os.seek_start file (os.seek_end file w).1) ≡ out.sent log w
  pub lstat_log : (path : List ℕ) (w : os.World) → out.sent log (os.lstat path w).1 ≡ out.sent log w
  pub open_log :
      (path : List ℕ) (flags : OpenFlags) (w : os.World)
      → out.sent log (os.open_path path flags w).1 ≡ out.sent log w
  pub closing : (d e : ℕ) (w : os.World) → out.sent d (os.close e w) ≡ out.sent d w

module _ (os : Os) (out : Output os) (socket file fd : ℕ)
    (apart : Apart os out socket file fd) where
  close_if_sent :
      (d : ℕ) (o : Option ℕ) (w : os.World) → out.sent d (close_if os o w) ≡ out.sent d w
  unfolding close_if
  close_if_sent d none w = refl
  close_if_sent d (some e) w = apart.closing d e w

  pub cleanup_sent : (d : ℕ) (e : State) (w : os.World) → out.sent d (cleanup os e w) ≡ out.sent d w
  unfolding cleanup
  cleanup_sent d e w = close_if_sent d e.req.get_fd _ ∙ close_if_sent d e.req.put_fd w

  -- The account of the socket that has the log's in it, and that of the log with the socket's.
  abbrev pub with_log : Output os
  with_log = beside os out fd socket apart.write_socket

  abbrev pub with_socket : Output os
  with_socket = beside os out socket fd apart.write_log

  abbrev pub serving_with_log : Serving os out socket file → Serving os with_log socket file
  serving_with_log sv = record {
    rest = sv.rest;
    contents = sv.contents;
    takes = sv.takes;
    write_rest = sv.write_rest;
    read_sends = λ len w.
        beside_same os out fd socket apart.write_socket (apart.read_log file len w)
          (sv.read_sends len w);
    read_over = sv.read_over;
    read_part = sv.read_part;
    seek_size = sv.seek_size;
    seek_back = sv.seek_back;
    seek_sends =
        λ w. beside_same os out fd socket apart.write_socket (apart.seek_log w) (sv.seek_sends w);
  }

  pub Quiet-with_log : Quiet os out socket → Quiet os with_log socket
  Quiet-with_log q = record {
    reading = λ len w.
        beside_same os out fd socket apart.write_socket (apart.read_log socket len w)
          (q.reading len w);
    looking = λ path w.
        beside_same os out fd socket apart.write_socket (apart.lstat_log path w) (q.looking path w);
    opening = λ path flags w.
        beside_same os out fd socket apart.write_socket (apart.open_log path flags w)
          (q.opening path flags w);
  }
