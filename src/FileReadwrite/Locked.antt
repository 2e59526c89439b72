-- ===== src/FileReadwrite/Locked.antt =====
-- file_readwrite.c: what `read_open` and `write_open` open, and the mutex that `write_open` leaves.
use cse130_asgn.Base.{
  ℕ, ℤ, ◌+◌, ◌<◌, true, false, List, ◌++◌, Option, none, some, Outcome, done, length, All, ◌≡◌, ◌≢◌,
  refl, arith,
}
use cse130_asgn.StrView.{create_view}
use cse130_asgn.Os.{enoent}
use cse130_asgn.Queue.{Attempt, waits, passed}
use cse130_asgn.FileReadwrite.{FileRwEx, Opens, Opened, read_open, is_positive}
use cse130_asgn.FileReadwrite.Copied.{write_name, copy_to_text}

-- The chars of a path.
abbrev pub path_max : ℕ
path_max = 4096

pub record PathArrays (os : Opens) : Type 0 where
  pub size : (w : os.World) → length (os.path_array w) ≡ path_max

module _ (os : Opens) (sized : PathArrays os) (pre text post : List ℕ) (s e : ℕ)
    (hs : s ≡ length pre) (he : e ≡ s + length text) (clean : All (λ c. c ≢ 0) text) where
  pub read_open_text :
      (w : os.World)
      → length text < path_max
      → read_open os (pre ++ (text ++ post)) (create_view (some s) (some e)) w
        ≡ done (os.open_read text w)
  unfolding read_open
  read_open_text w short =
      let (buf, copies, string) =
        copy_to_text pre text post s e (os.path_array w) hs he (omega (arith, sized.size w))
          clean in
      rw (copies, string) refl

  module _ (thread_id : ℤ) (p : FileRwEx) (w : os.World) where
    -- The two calls of `open`, and what the first one leaves.
    abbrev name : List ℕ
    name = write_name text thread_id

    abbrev first : Option ℕ × os.World
    first = os.open_write name w

    -- How `write_open` ends, with the mutex held or free before it.
    pub data WriteEnds : Outcome (Attempt (Opened os)) → Type 0 where
      blocked : p.mutex ≡ true → WriteEnds (done waits)
      there :
          (fd : ℕ)
          → first.0 ≡ some fd
          → WriteEnds (
              done (
                passed (record {
                  code = some fd;
                  created = none;
                  ex = record p { mutex = true };
                  world = first.1;
                })))
      refused :
          first.0 ≡ none
          → os.errno first.1 ≢ enoent
          → WriteEnds (
              done (
                passed (record {
                  code = none;
                  created = none;
                  ex = record p { mutex = true };
                  world = first.1;
                })))
      made :
          first.0 ≡ none
          → os.errno first.1 ≡ enoent
          → WriteEnds (
              done (
                passed (record {
                  code = (os.open_create name first.1).0;
                  created = some (is_positive os (os.open_create name first.1).0);
                  ex = record p { mutex = false };
                  world = (os.open_create name first.1).1;
                })))
