-- ===== src/Tests/Paths.antt =====
-- Files that are written under another name.
use cse130_asgn.Base.{ℕ, false, [], Option, some, Outcome, done, ◌>>=◌, replicate, codes, ◌≡◌, refl}
use cse130_asgn.StrView.{create_view}
use cse130_asgn.Os.{enoent}
use cse130_asgn.FileReadwrite.{
  FileRwEx, Opens, create_file_rw_ex, get_real_name, Row, open_row, renamed_row,
}
use cse130_asgn.FileReadwrite.Locked.{path_max}

-- A system where each file is there.
abbrev system : Opens
system = record {
  World = ℕ;
  errno = λ w. enoent;
  open_read = λ path w. (some 3, w);
  open_write = λ path w. (some 4, w);
  open_create = λ path w. (some 5, w);
  path_array = λ w. replicate path_max 0;
}

abbrev free : FileRwEx
free = record {
  max_open = 0;
  mutex = false;
  open_chars = [];
  open_arr = [];
  renamed_chars = [];
  renamed_arr = [];
}

-- A path takes the last of two rows, and gets the empty name of its row; then it is found.
abbrev twice : Outcome (Option Row × Option Row)
twice = do
  p ← create_file_rw_ex (replicate 6 1) (replicate 26 1) 2 2
  (first, p1) ← get_real_name (codes "/a") p (create_view (some 0) (some 2))
  (second, p2) ← get_real_name (codes "/a") p1 (create_view (some 0) (some 2))
  done (first, second)

real_name_twice : twice ≡ done (some (renamed_row 13), some (open_row 3))
unfolding cse130_asgn.FileReadwrite.create_file_rw_ex cse130_asgn.FileReadwrite.get_real_name
    cse130_asgn.FileReadwrite.copy_from cse130_asgn.FileReadwrite.copy_to cse130_asgn.Memory.store
    cse130_asgn.Memory.load cse130_asgn.StrView.bounds cse130_asgn.Server.Files.c_string
    cse130_asgn.StrView.compare_vs cse130_asgn.StrView.compare_vs_from
real_name_twice = refl
