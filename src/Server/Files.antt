-- ===== src/Server/Files.antt =====
-- server.c: `open_get_file` and `create_filename`, which open the file that a request names.
pub mod Found
pub mod Named
use cse130_asgn.Base.{
  ℕ, Bool, true, false, List, [], ◌∷◌, Option, none, some, Outcome, done, fault, ◌>>=◌, ◌==◌,
  if◌then◌else◌, drop,
}
use cse130_asgn.Memory.{Memory}
use cse130_asgn.StrView.{fill_str}
use cse130_asgn.Os.{Os, Errno, enoent, FileKind, regular, special, read_only, truncate, create}
use cse130_asgn.Server.{
  Status, created, bad_request, forbidden, not_found, internal_error, State, max_path,
}

-- The string that starts a memory, up to its NUL.
unfoldable pub c_string : Memory → Outcome (List ℕ)
c_string [] = fault
c_string (c ∷ cs) =
    let rest = (do text ← c_string cs; done (c ∷ text)) in if c == 0 then done [] else rest

abbrev pub is_enoent : Errno → Bool
is_enoent enoent = true
is_enoent _ = false

-- `*status = …`
abbrev pub set_status : State → Status → State
set_status st status = record st { status = status }

module _ (os : Os) where
  open os use {World, errno, open_path, lstat, local_array}

  abbrev pub set_get_fd : State → Option ℕ → State
  set_get_fd st fd = record st { req = record st.req { get_fd = fd } }

  abbrev pub set_put_fd : State → Option ℕ → State
  set_put_fd st fd = record st { req = record st.req { put_fd = fd } }

  -- `open(str, O_RDONLY)`
  pub open_regular : State → List ℕ → World → Bool × State × World
  open_regular st path w =
      let (fd, w') = open_path path read_only w in
      elim fd [
        | none ↦ (false, set_status (set_get_fd st none) forbidden, w')
        | some n ↦ (true, set_get_fd st (some n), w')
      ]

  -- What `lstat` says of the path.
  open_found : State → List ℕ → Option FileKind → World → Bool × State × World
  open_found st path none w =
      (false, set_status st (if is_enoent (errno w) then not_found else forbidden), w)
  open_found st path (some special) w = (false, set_status (set_get_fd st none) forbidden, w)
  open_found st path (some regular) w = open_regular st path w

  unfoldable pub open_get_file : State → World → Outcome (Bool × State × World)
  unfolding open_found open_regular
  open_get_file st w = do
    filled ← fill_str st.req.buf st.req.uri (local_array max_path w) max_path
    elim filled [
      | none ↦ done (false, set_status st bad_request, w)
      | some str ↦ do
        path ← c_string (drop 1 str)
        let (kind, w') = lstat path w
        done (open_found st path kind w')
    ]

  -- After both calls of `open`.
  opened : State → Option ℕ → World → Bool × State × World
  opened st none w = (false, set_status (set_put_fd st none) forbidden, w)
  opened st (some fd) w = (true, set_put_fd st (some fd), w)

  -- The first call of `open` has failed.
  create_missing : State → List ℕ → World → Bool × State × World
  create_missing st path w =
      let (fd, w') = open_path path create w in
      let made = opened (set_status st created) fd w' in
      if is_enoent (errno w) then made else opened st none w

  unfoldable pub create_filename : State → World → Outcome (Bool × State × World)
  unfolding create_missing opened
  create_filename st w = do
    filled ← fill_str st.req.buf st.req.uri (local_array max_path w) max_path
    elim filled [
      | none ↦ done (false, set_status st internal_error, w)
      | some str ↦ do
        path ← c_string (drop 1 str)
        let (fd, w') = open_path path truncate w
        done (elim fd [ none ↦ create_missing st path w' | some n ↦ opened st (some n) w' ])
    ]
