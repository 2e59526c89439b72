-- ===== src/Server/Files/Named.antt =====
-- server.c: the file that `open_get_file` and `create_filename` open, and their answers.
use cse130_asgn.Base.{
  ℕ, suc, ◌+◌, ◌≤◌, ◌<◌, Bool, true, false, List, [], ◌∷◌, ◌++◌, none, some, Option-cases, Outcome,
  done, length, drop, ◌≡◌, ◌≢◌, refl, ap, arith, All, Bool-cases, inl, inr, dec_lt,
}
use cse130_asgn.Memory.{Memory}
use cse130_asgn.StrView.{create_view, fill_str}
use cse130_asgn.StrView.Fill.{fill_str_fits, fill_str_too_long}
use cse130_asgn.Os.{
  Os, SizedArrays, Errno, eagain, enoent, other_errno, regular, special, read_only, truncate,
  create,
}
use cse130_asgn.Server.{State, max_path, created, bad_request, forbidden, not_found, internal_error}
use cse130_asgn.Server.Files.{
  c_string, is_enoent, set_status, set_get_fd, set_put_fd, open_get_file, create_filename,
  open_found, open_regular, create_missing, opened,
}

pub c_string-name :
    (name rest : List ℕ) → All (λ c. c ≢ 0) name → c_string (name ++ 0 ∷ rest) ≡ done name
unfolding c_string
c_string-name [] rest h = refl
c_string-name (c ∷ name) rest h = ground (arith, c_string-name name rest h.1)

pub only_enoent : (e : Errno) → is_enoent e ≡ true → e ≡ enoent
only_enoent eagain h = cc
only_enoent enoent h = refl
only_enoent other_errno h = cc

pub not_enoent : (e : Errno) → is_enoent e ≡ false → e ≢ enoent
not_enoent eagain h = λ q. cc
not_enoent enoent h = cc
not_enoent other_errno h = λ q. cc

pub not_enoent_test : (e : Errno) → e ≢ enoent → is_enoent e ≡ false
not_enoent_test eagain h = refl
not_enoent_test enoent h = absurd (h refl)
not_enoent_test other_errno h = refl

module _ (os : Os) (st : State) (path : List ℕ) (w : os.World) where
  pub open_regular-none :
      (os.open_path path read_only w).0 ≡ none
      → open_regular os st path w
        ≡ (false, set_status (set_get_fd os st none) forbidden, (os.open_path path read_only w).1)
  unfolding open_regular
  open_regular-none h = rw (h, open_regular) refl

  pub open_regular-some :
      (fd : ℕ)
      → (os.open_path path read_only w).0 ≡ some fd
      → open_regular os st path w
        ≡ (true, set_get_fd os st (some fd), (os.open_path path read_only w).1)
  unfolding open_regular
  open_regular-some fd h = rw (h, open_regular) refl

-- The path: the text of the URI without its first byte, which is the slash.
module _ (os : Os) (sized : SizedArrays os) (st : State) (pre : List ℕ) (slash : ℕ)
    (name post : List ℕ) (s e : ℕ) (hu : st.req.uri ≡ create_view (some s) (some e))
    (hb : st.req.buf ≡ pre ++ ((slash ∷ name) ++ post)) (hs : s ≡ length pre)
    (he : e ≡ s + suc (length name)) where
  abbrev space : os.World → Memory
  space w = os.local_array max_path w

  pub filled :
      (w : os.World)
      → suc (length name) < max_path
      → fill_str st.req.buf st.req.uri (space w) max_path
        ≡ done (some (slash ∷ (name ++ 0 ∷ drop (suc (suc (length name))) (space w))))
  filled w short =
      rw (hu, hb)
        (fill_str_fits pre (slash ∷ name) post s e (space w) max_path hs he short
          (omega (arith, sized.local_size max_path w)))

  too_long :
      (w : os.World)
      → max_path ≤ suc (length name)
      → fill_str st.req.buf st.req.uri (space w) max_path ≡ done none
  too_long w long =
      rw (hu, hb) (fill_str_too_long pre (slash ∷ name) post s e (space w) max_path hs he long)

  -- What GET and HEAD find under the name: a regular file that can be opened, or one of the refusals.
  pub data Gets (w : os.World) (r : Outcome (Bool × State × os.World)) : Type 0 where
    too_long_uri :
        max_path ≤ suc (length name) → r ≡ done (false, set_status st bad_request, w) → Gets w r
    missing :
        (os.lstat name w).0 ≡ none
        → os.errno (os.lstat name w).1 ≡ enoent
        → r ≡ done (false, set_status st not_found, (os.lstat name w).1)
        → Gets w r
    unreadable :
        (os.lstat name w).0 ≡ none
        → os.errno (os.lstat name w).1 ≢ enoent
        → r ≡ done (false, set_status st forbidden, (os.lstat name w).1)
        → Gets w r
    no_file :
        (os.lstat name w).0 ≡ some special
        → r ≡ done (false, set_status (set_get_fd os st none) forbidden, (os.lstat name w).1)
        → Gets w r
    locked :
        (os.lstat name w).0 ≡ some regular
        → (os.open_path name read_only (os.lstat name w).1).0 ≡ none
        → r
          ≡ done (
            false,
            set_status (set_get_fd os st none) forbidden,
            (os.open_path name read_only (os.lstat name w).1).1,
          )
        → Gets w r
    got :
        (fd : ℕ)
        → (os.lstat name w).0 ≡ some regular
        → (os.open_path name read_only (os.lstat name w).1).0 ≡ some fd
        → r
          ≡ done (
            true,
            set_get_fd os st (some fd),
            (os.open_path name read_only (os.lstat name w).1).1,
          )
        → Gets w r

  -- With no NUL in the name, `open_get_file` looks up the URI without its slash and answers as `Gets`
  -- says, on every branch.
  pub open_get_file-Gets : (w : os.World) → All (λ c. c ≢ 0) name → Gets w (open_get_file os st w)
  unfolding open_get_file open_found
  open_get_file-Gets w clean = elim (dec_lt (suc (length name)) max_path) [
    | no long ↦ too_long_uri (omega arith) (rw (too_long w (omega arith)) refl)
    | yes short ↦ elim (Option-cases (os.lstat name w).0) [
      | inl nothing ↦ elim (Bool-cases (is_enoent (os.errno (os.lstat name w).1))) [
        | inl absent ↦
            missing nothing (only_enoent _ absent)
              (rw (filled w short, c_string-name name _ clean, nothing, absent) refl)
        | inr other ↦
            unreadable nothing (not_enoent _ other)
              (rw (filled w short, c_string-name name _ clean, nothing, other) refl)
      ]
      | inr (special, found) ↦
          no_file found (rw (filled w short, c_string-name name _ clean, found) refl)
      | inr (regular, found) ↦
          elim (Option-cases (os.open_path name read_only (os.lstat name w).1).0) [
            | inl refused ↦ locked found refused (
                rw
                  (
                    filled w short,
                    c_string-name name _ clean,
                    found,
                    open_regular-none os st name _ refused,
                  )
                  refl)
            | inr (fd, ok) ↦ got fd found ok (
                rw
                  (
                    filled w short,
                    c_string-name name _ clean,
                    found,
                    open_regular-some os st name _ fd ok,
                  )
                  refl)
          ]
    ]
  ]

  -- What PUT does to the file of that name: it is emptied, or made if it is not there, or refused.
  pub data Puts (w : os.World) (r : Outcome (Bool × State × os.World)) : Type 0 where
    too_long_name :
        max_path ≤ suc (length name) → r ≡ done (false, set_status st internal_error, w) → Puts w r
    emptied :
        (fd : ℕ)
        → (os.open_path name truncate w).0 ≡ some fd
        → r ≡ done (true, set_put_fd os st (some fd), (os.open_path name truncate w).1)
        → Puts w r
    made :
        (fd : ℕ) (w' : os.World)
        → os.open_path name truncate w ≡ (none, w')
        → os.errno w' ≡ enoent
        → (os.open_path name create w').0 ≡ some fd
        → r
          ≡ done (
            true,
            set_put_fd os (set_status st created) (some fd),
            (os.open_path name create w').1,
          )
        → Puts w r
    not_made :
        (w' : os.World)
        → os.open_path name truncate w ≡ (none, w')
        → os.errno w' ≡ enoent
        → (os.open_path name create w').0 ≡ none
        → r
          ≡ done
              (false, set_status (set_put_fd os st none) forbidden, (os.open_path name create w').1)
        → Puts w r
    unwritable :
        (w' : os.World)
        → os.open_path name truncate w ≡ (none, w')
        → os.errno w' ≢ enoent
        → r ≡ done (false, set_status (set_put_fd os st none) forbidden, w')
        → Puts w r

  -- With no NUL in the name, `create_filename` opens the URI without its slash and answers as `Puts`
  -- says, on every branch.
  pub create_filename-Puts :
      (w : os.World) → All (λ c. c ≢ 0) name → Puts w (create_filename os st w)
  unfolding create_filename create_missing opened
  create_filename-Puts w clean = elim (dec_lt (suc (length name)) max_path) [
    | no long ↦ too_long_name (omega arith) (rw (too_long w (omega arith)) refl)
    | yes short ↦ elim (Option-cases (os.open_path name truncate w).0) [
      | inr (fd, ok) ↦ emptied fd ok (rw (filled w short, c_string-name name _ clean, ok) refl)
      | inl refused ↦
          let w' = (os.open_path name truncate w).1 in
          let both : os.open_path name truncate w ≡ (none, w') = ap (λ o. (o, w')) refused in
          elim (Bool-cases (is_enoent (os.errno w'))) [
            | inr other ↦ unwritable w' both (not_enoent _ other) (
                rw (filled w short, c_string-name name _ clean, refused, other, create_missing)
                  refl)
            | inl absent ↦ elim (Option-cases (os.open_path name create w').0) [
              | inr (fd, ok) ↦ made fd w' both (only_enoent _ absent) ok (
                  rw
                    (
                      filled w short,
                      c_string-name name _ clean,
                      refused,
                      absent,
                      ok,
                      create_missing,
                    )
                    refl)
              | inl no_more ↦ not_made w' both (only_enoent _ absent) no_more (
                  rw
                    (
                      filled w short,
                      c_string-name name _ clean,
                      refused,
                      absent,
                      no_more,
                      create_missing,
                    )
                    refl)
            ]
          ]
    ]
  ]
