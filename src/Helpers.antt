-- ===== src/Helpers.antt =====
-- helpers.c: character classes, printing a number, the space left in a buffer, and the search for
-- a delimiter. A char is its byte, 0 to 255; the classes below are ASCII, so its sign is immaterial.
pub mod Decimal
pub mod Delim
pub mod Room
use cse130_asgn.Base.{
  ℕ, zero, suc, ◌+◌, ◌-◌, ◌/◌, ◌%◌, ◌^◌, Bool, true, false, ◌&&◌, ◌||◌, List, [], ◌∷◌, Option, none,
  some, Outcome, done, fault, spin, ◌>>=◌, leb, ◌==◌, if◌then◌else◌, length, drop,
}
use cse130_asgn.Memory.{Memory, load, store}

abbrev pub size_mod : ℕ
size_mod = 2 ^ 64

unfoldable pub is_whitespace : ℕ → Bool
is_whitespace c = c == b' '

unfoldable pub is_alpha : ℕ → Bool
is_alpha c = (leb b'a' c && leb c b'z') || (leb b'A' c && leb c b'Z')

unfoldable pub is_numeric : ℕ → Bool
is_numeric c = leb b'0' c && leb c b'9'

-- The `do … while` of `my_utoa`: digits from the lowest up, one a round. The fuel is 20 rounds,
-- the digits of the largest uint64_t.
abbrev pub max_digits : ℕ
max_digits = 20

pub utoa_digits : ℕ → ℕ → Memory → ℕ → Outcome (Memory × ℕ)
utoa_digits zero i mem buf = spin
utoa_digits (suc fuel) i mem buf = do
  mem' ← store mem buf (i % 10 + b'0')
  let rest = utoa_digits fuel (i / 10) mem' (buf + 1)
  if i / 10 == 0 then done (mem', buf + 1) else rest

-- The `for` of `my_utoa`, with the rounds left and `j`.
pub utoa_reverse : ℕ → ℕ → ℕ → ℕ → Memory → Outcome Memory
utoa_reverse zero j len start mem = done mem
utoa_reverse (suc n) j len start mem = do
  c ← load mem (start + j)
  d ← load mem (start + (len - j - 1))
  mem' ← store mem (start + j) d
  mem'' ← store mem' (start + (len - j - 1)) c
  utoa_reverse n (j + 1) len start mem''

-- The memory afterwards, and the number of digits.
unfoldable pub my_utoa : ℕ → Memory → ℕ → Outcome (Memory × ℕ)
my_utoa i mem buf = do
  (mem', end) ← utoa_digits max_digits i mem buf
  let len = end - buf
  mem'' ← utoa_reverse (len / 2) 0 len buf mem'
  done (mem'', len)

-- `a - b` in size_t.
abbrev pub sub_size : ℕ → ℕ → ℕ
sub_size a b = (a + size_mod - b) % size_mod

-- `len - (end - start)` in size_t.
unfoldable pub buf_left : ℕ → ℕ → ℕ → ℕ
buf_left start end len = (len + start + size_mod - end) % size_mod

-- The loop of `find_delim` over the memory from `s` on; `ptr` is what is left of `delim`.
pub find_delim_from : Memory → ℕ → ℕ → List ℕ → List ℕ → Outcome (Option ℕ)
find_delim_from [] s e delim ptr = if s == e then done none else fault
find_delim_from (c ∷ cs) s e delim [] =
    let miss = find_delim_from cs (s + 1) e delim delim in
    if s == e then done none else if c == 0 then fault else miss
find_delim_from (c ∷ cs) s e delim (d ∷ []) =
    let miss = find_delim_from cs (s + 1) e delim delim in
    if s == e then done none else if c == d then done (some (s + 1)) else miss
find_delim_from (c ∷ cs) s e delim (d ∷ d' ∷ ds) =
    let hit = find_delim_from cs (s + 1) e delim (d' ∷ ds) in
    let miss = find_delim_from cs (s + 1) e delim delim in
    if s == e then done none else if c == d then hit else miss

-- `none` is NULL.
unfoldable pub find_delim : Memory → ℕ → ℕ → List ℕ → Outcome (Option ℕ)
unfolding find_delim_from
find_delim mem s e delim = find_delim_from (drop s mem) s e delim delim
