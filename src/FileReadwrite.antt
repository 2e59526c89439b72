-- ===== src/FileReadwrite.antt =====
-- file_readwrite.c: files that are written under another name until they are closed. The file is not
-- part of the build.
pub mod Copied
pub mod Locked
use cse130_asgn.Base.{
  ℕ, zero, suc, ℤ, pos, negsuc, ◌+◌, ◌-◌, ◌*◌, ◌/◌, ◌%◌, Bool, true, false, not, ◌||◌, List, [],
  ◌∷◌, Option, none, some, Outcome, done, fault, spin, ◌>>=◌, ltb, ◌==◌, if◌then◌else◌, length,
  get_elem?, drop,
}
use cse130_asgn.Memory.{Memory, load, store}
use cse130_asgn.StrView.{StringView, bounds, compare_vs}
use cse130_asgn.Os.{Errno}
use cse130_asgn.Queue.{Attempt, waits, passed}
use cse130_asgn.Server.Files.{c_string, is_enoent}
use cse130_asgn.Server.Validate.{is_same}

-- `struct FileRWEx`: the mutex is held or not; the pointers of the two arrays are offsets into the
-- blocks of chars behind them.
pub record FileRwEx : Type 0 where
  pub max_open : ℕ
  pub mutex : Bool
  pub open_chars : Memory
  pub open_arr : List ℕ
  pub renamed_chars : Memory
  pub renamed_arr : List ℕ

-- The loop over an array, with `n` rounds to go from `i` on: rows of `width` chars, each of them an
-- empty string.
pub fill_rows : Memory → ℕ → ℕ → ℕ → Outcome (Memory × List ℕ)
fill_rows chars width zero i = done (chars, [])
fill_rows chars width (suc n) i = do
  chars' ← store chars (i * width) 0
  (chars'', rows) ← fill_rows chars' width n (suc i)
  done (chars'', i * width ∷ rows)

-- The struct that the function fills, in fresh blocks of chars; a `return` is missing.
unfoldable pub create_file_rw_ex : Memory → Memory → ℕ → ℕ → Outcome FileRwEx
unfolding fill_rows
create_file_rw_ex fresh fresh2 max_open max_path = do
  (open_chars, open_arr) ← fill_rows fresh (max_path + 1) max_open 0
  (renamed_chars, renamed_arr) ← fill_rows fresh2 (max_path + 11) max_open 0
  done (record {
    max_open = max_open;
    mutex = false;
    open_chars = open_chars;
    open_arr = open_arr;
    renamed_chars = renamed_chars;
    renamed_arr = renamed_arr;
  })

-- `while(path.start != path.end)`, over the path's memory from `s` on.
unfoldable pub copy_from : Memory → ℕ → ℕ → Memory → ℕ → Outcome (Memory × ℕ)
copy_from [] s e buf p = if s == e then done (buf, p) else fault
copy_from (c ∷ cs) s e buf p =
    let next = (do buf' ← store buf p c; copy_from cs (s + 1) e buf' (p + 1)) in
    if s == e then done (buf, p) else next

-- A view of `mem` is copied to `buf` from `p` on.
copy_path : Memory → StringView → Memory → ℕ → Outcome (Memory × ℕ)
copy_path mem path buf p = do (s, e) ← bounds path; copy_from (drop s mem) s e buf p

unfoldable pub copy_to : Memory → StringView → Memory → ℕ → Outcome Memory
unfolding copy_path
copy_to mem path buf p = do (buf', p') ← copy_path mem path buf p; store buf' p' 0

-- `(thread_id % 10) + '0'`: the remainder of a negative number is not positive.
abbrev pub digit_char : ℤ → ℕ
digit_char (pos n) = n % 10 + b'0'
digit_char (negsuc n) = b'0' - suc n % 10

-- `-n`
abbrev pub minus : ℕ → ℤ
minus zero = pos 0
minus (suc n) = negsuc n

-- `thread_id /= 10`, which rounds towards zero.
abbrev pub tenth : ℤ → ℤ
tenth (pos n) = pos (n / 10)
tenth (negsuc n) = minus (suc n / 10)

abbrev pub is_zero : ℤ → Bool
is_zero (pos n) = n == 0
is_zero (negsuc n) = false

-- `while(thread_id != 0)`; an int has ten digits at most.
pub put_thread_id : ℕ → ℤ → Memory → ℕ → Outcome (Memory × ℕ)
put_thread_id zero thread_id buf p = spin
put_thread_id (suc fuel) thread_id buf p =
    let next = (do
      buf' ← store buf p (digit_char thread_id)
      put_thread_id fuel (tenth thread_id) buf' (p + 1)) in
    if is_zero thread_id then done (buf, p) else next

unfoldable pub copy_to_write : Memory → StringView → Memory → ℤ → Outcome Memory
unfolding copy_path
copy_to_write mem path buf thread_id = do
  (buf1, p1) ← copy_path mem path buf 0
  buf2 ← store buf1 p1 b'$'
  (buf3, p3) ← put_thread_id 11 thread_id buf2 (p1 + 1)
  store buf3 p3 0

-- `*buf != '\0'`
pub exists : Memory → ℕ → Outcome Bool
exists chars p = do c ← load chars p; done (not (c == 0))

-- What `get_real_name` returns: a row of one of the two arrays.
pub data Row : Type 0 where
  open_row renamed_row : ℕ → Row

-- A pointer of an array.
row_at : List ℕ → ℕ → Outcome ℕ
row_at rows i = elim (get_elem? rows i) [ none ↦ fault | some p ↦ done p ]

-- The name under which an open path is written, if it has one.
real_row : FileRwEx → ℕ → ℕ → Outcome Row
real_row p i open_p = do
  renamed_p ← row_at p.renamed_arr i
  there ← exists p.renamed_chars renamed_p
  done (if there then renamed_row renamed_p else open_row open_p)

-- The loop, with `n` rounds to go from `i` on: the row that is returned, or `first_empty`.
pub find_row : Memory → FileRwEx → StringView → ℕ → ℕ → Option ℕ → Outcome (Option Row × Option ℕ)
unfolding row_at real_row exists
find_row mem p path zero i first_empty = done (none, first_empty)
find_row mem p path (suc n) i first_empty = do
  open_p ← row_at p.open_arr i
  there ← exists p.open_chars open_p
  let empty = find_row mem p path n (suc i) (some i)
  let other = find_row mem p path n (suc i) first_empty
  let compared = (do
    str ← c_string (drop open_p p.open_chars)
    order ← compare_vs mem path str
    let found = (do r ← real_row p i open_p; done (some r, first_empty))
    if is_same order then found else other)
  if there then compared else empty

-- After the loop: the path takes the last empty row.
take_row : Memory → FileRwEx → StringView → Option ℕ → Outcome (Option Row × FileRwEx)
take_row mem p path none = done (none, p)
take_row mem p path (some i) = do
  open_p ← row_at p.open_arr i
  chars ← copy_to mem path p.open_chars open_p
  renamed_p ← row_at p.renamed_arr i
  done (some (renamed_row renamed_p), record p { open_chars = chars })

unfoldable pub get_real_name : Memory → FileRwEx → StringView → Outcome (Option Row × FileRwEx)
unfolding row_at take_row find_row exists
get_real_name mem p path = do
  (found, first_empty) ← find_row mem p path p.max_open 0 none
  let taken = take_row mem p path first_empty
  elim found [ none ↦ taken | some r ↦ done (some r, p) ]

-- The calls: `open` for reading; with O_WRONLY; with O_WRONLY | O_CREAT.
pub record Opens : Type 1 where
  pub World : Type 0
  pub errno : World → Errno
  pub open_read : List ℕ → World → Option ℕ × World
  pub open_write : List ℕ → World → Option ℕ × World
  pub open_create : List ℕ → World → Option ℕ × World
  -- what a local array of PATH_MAX chars holds
  pub path_array : World → Memory

module _ (os : Opens) where
  open os use {World, errno, open_read, open_write, open_create, path_array}

  unfoldable pub read_open : Memory → StringView → World → Outcome (Option ℕ × World)
  read_open mem path w = do
    cpath ← copy_to mem path (path_array w) 0
    str ← c_string cpath
    done (open_read str w)

  -- What a call of `write_open` leaves: `code`, `*created` if it is set, the struct, and the world.
  pub record Opened : Type 0 where
    pub code : Option ℕ
    pub created : Option Bool
    pub ex : FileRwEx
    pub world : World

  -- `code > 0`
  abbrev pub is_positive : Option ℕ → Bool
  is_positive none = false
  is_positive (some fd) = ltb 0 fd

  abbrev is_some : Option ℕ → Bool
  is_some none = false
  is_some (some fd) = true

  -- With the mutex held.
  open_held : FileRwEx → List ℕ → World → Opened
  open_held p str w =
      let (code, w1) = open_write str w in
      let (code2, w2) = open_create str w1 in
      if is_some code || not (is_enoent (errno w1))
      then record { code = code; created = none; ex = record p { mutex = true }; world = w1 }
      else record {
        code = code2;
        created = some (is_positive code2);
        ex = record p { mutex = false };
        world = w2;
      }

  -- `pthread_mutex_lock` takes a mutex that is free; a call that finds it held waits, has changed
  -- nothing that it shares, and tries again when it is given back.
  unfoldable pub write_open : Memory → FileRwEx → StringView → ℤ → World → Outcome (Attempt Opened)
  unfolding open_held
  write_open mem p path thread_id w = do
    actual_path ← copy_to_write mem path (path_array w) thread_id
    str ← c_string actual_path
    if p.mutex then done waits else done (passed (open_held p str w))
