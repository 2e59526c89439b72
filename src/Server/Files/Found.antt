-- ===== src/Server/Files/Found.antt =====
-- server.c: what `open_get_file` makes of what the file system says of a name.
use cse130_asgn.Base.{
  ℕ, suc, ◌+◌, ◌<◌, Bool, true, false, List, ◌∷◌, ◌++◌, Option, none, some, done, length, All, ◌≡◌,
  ◌≢◌, refl, ap, ◌∙◌,
}
use cse130_asgn.StrView.{create_view}
use cse130_asgn.Os.{Os, SizedArrays, enoent, regular, special, read_only}
use cse130_asgn.Server.{State, Status, ok, forbidden, not_found, is_ok, max_path}
use cse130_asgn.Server.Files.{set_status, set_get_fd, open_get_file, open_found, is_enoent}
use cse130_asgn.Server.Files.Named.{
  filled, c_string-name, open_regular-none, open_regular-some, not_enoent_test,
}

-- What `lstat` and `open` say of the name, the status that it means, and the world behind the calls.
pub data Found (os : Os) (file : ℕ) (name : List ℕ) (w : os.World)
    : Status → os.World → Type 0 where
  there :
      (os.lstat name w).0 ≡ some regular
      → (os.open_path name read_only (os.lstat name w).1).0 ≡ some file
      → Found os file name w ok (os.open_path name read_only (os.lstat name w).1).1
  missing :
      (os.lstat name w).0 ≡ none
      → os.errno (os.lstat name w).1 ≡ enoent
      → Found os file name w not_found (os.lstat name w).1
  unreadable :
      (os.lstat name w).0 ≡ none
      → os.errno (os.lstat name w).1 ≢ enoent
      → Found os file name w forbidden (os.lstat name w).1
  no_file : (os.lstat name w).0 ≡ some special → Found os file name w forbidden (os.lstat name w).1
  locked :
      (os.lstat name w).0 ≡ some regular
      → (os.open_path name read_only (os.lstat name w).1).0 ≡ none
      → Found os file name w forbidden (os.open_path name read_only (os.lstat name w).1).1

-- The state that `open_get_file` leaves.
abbrev pub looked_up : (os : Os) → State → Status → Option ℕ → State
looked_up os e status fd = set_status (set_get_fd os e fd) status

module _ (os : Os) (sized : SizedArrays os) (e : State) (pre : List ℕ) (slash : ℕ)
    (name post : List ℕ) (s t : ℕ) (hu : e.req.uri ≡ create_view (some s) (some t))
    (hb : e.req.buf ≡ pre ++ ((slash ∷ name) ++ post)) (hs : s ≡ length pre)
    (ht : t ≡ s + suc (length name)) (w : os.World) (file : ℕ) where
  -- A name that is short enough: the status, and the descriptor if there is a file.
  pub record LookedUp (status : Status) (w1 : os.World) : Type 0 where
    pub opens : Bool
    pub fd : Option ℕ
    pub runs : open_get_file os e w ≡ done (opens, looked_up os e status fd, w1)
    pub opened : is_ok status ≡ true → fd ≡ some file

  pub open_get_file-LookedUp :
      (status : Status) (w1 : os.World)
      → Found os file name w status w1
      → e.status ≡ ok
      → suc (length name) < max_path
      → All (λ c. c ≢ 0) name
      → LookedUp status w1
  unfolding open_get_file open_found
  open_get_file-LookedUp status w1 (there a b) fine short clean =
      let f = filled os sized e pre slash name post s t hu hb hs ht w short in
      let w2 = (os.open_path name read_only (os.lstat name w).1).1 in
      let ran : open_get_file os e w ≡ done (true, set_get_fd os e (some file), w2) =
        rw (f, c_string-name name _ clean, a, open_regular-some os e name _ file b) refl in
      record {
        opens = true;
        fd = some file;
        runs = ran ∙ ap (λ c. done (true, looked_up os e c (some file), w2)) fine;
        opened = λ h. refl;
      }
  open_get_file-LookedUp status w1 (missing a b) fine short clean =
      let f = filled os sized e pre slash name post s t hu hb hs ht w short in
      let absent : is_enoent (os.errno (os.lstat name w).1) ≡ true = ap is_enoent b in
      record {
        opens = false;
        fd = e.req.get_fd;
        runs = rw (f, c_string-name name _ clean, a, absent) refl;
        opened = λ h. cc;
      }
  open_get_file-LookedUp status w1 (unreadable a b) fine short clean =
      let f = filled os sized e pre slash name post s t hu hb hs ht w short in
      let other : is_enoent (os.errno (os.lstat name w).1) ≡ false = not_enoent_test _ b in
      record {
        opens = false;
        fd = e.req.get_fd;
        runs = rw (f, c_string-name name _ clean, a, other) refl;
        opened = λ h. cc;
      }
  open_get_file-LookedUp status w1 (no_file a) fine short clean =
      let f = filled os sized e pre slash name post s t hu hb hs ht w short in
      record {
        opens = false;
        fd = none;
        runs = rw (f, c_string-name name _ clean, a) refl;
        opened = λ h. cc;
      }
  open_get_file-LookedUp status w1 (locked a b) fine short clean =
      let f = filled os sized e pre slash name post s t hu hb hs ht w short in
      record {
        opens = false;
        fd = none;
        runs = rw (f, c_string-name name _ clean, a, open_regular-none os e name _ b) refl;
        opened = λ h. cc;
      }
