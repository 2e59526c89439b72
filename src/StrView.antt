-- ===== src/StrView.antt =====
-- strview.c and strview.h: views of a text in a buffer, from `start` up to `end`.
-- The memory that a view points into is an argument. A pointer is an offset into it, and `none` is
-- NULL or any other pointer outside it, which is never read through.
pub mod Compare
pub mod Trim
pub mod Number
pub mod Fill
use cse130_asgn.Base.{
  ℕ, zero, suc, ◌+◌, ◌-◌, ◌*◌, ◌%◌, ◌^◌, Bool, true, false, ◌||◌, List, [], ◌∷◌, Option, none, some,
  Outcome, done, fault, ◌>>=◌, ltb, leb, ◌==◌, if◌then◌else◌, drop,
}
use cse130_asgn.Memory.{Memory, load, store}
use cse130_asgn.Helpers.{is_numeric, size_mod}

pub record StringView : Type 0 where
  pub start : Option ℕ
  pub end : Option ℕ

abbrev pub invalid_strview : StringView
invalid_strview = record { start = none; end = none }

abbrev pub create_view : Option ℕ → Option ℕ → StringView
create_view s e = record { start = s; end = e }

abbrev empty_at : Option ℕ → Option ℕ → Bool
empty_at (some s) (some e) = leb e s
empty_at _ _ = true

unfoldable pub is_empty_view : StringView → Bool
is_empty_view a = empty_at a.start a.end

-- -1, 0 and 1.
pub data Sign : Type 0 where
  below same above : Sign

-- `ac > bc` of two chars, which are signed.
abbrev pub char_gt : ℕ → ℕ → Bool
char_gt a b = ltb ((b + 128) % 256) ((a + 128) % 256)

-- `s == e`
abbrev pub meets : ℕ → Option ℕ → Bool
meets s none = false
meets s (some e) = s == e

-- The loop of `compare_vs` over the memory from `s` on. The string ends with its list.
unfoldable pub compare_vs_from : Memory → ℕ → Option ℕ → List ℕ → Outcome Sign
compare_vs_from xs s e [] = done (if meets s e then same else above)
compare_vs_from [] s e (b ∷ bs) = if meets s e then done below else fault
compare_vs_from (c ∷ cs) s e (b ∷ bs) =
    let rest = compare_vs_from cs (s + 1) e bs in
    if meets s e
    then done below
    else if c == b
    then rest
    else done (if char_gt c b then above else below)

compare_null : Option ℕ → List ℕ → Outcome Sign
compare_null none [] = done same
compare_null none (b ∷ bs) = done below
compare_null (some e) [] = done above
compare_null (some e) (b ∷ bs) = fault

unfoldable pub compare_vs : Memory → StringView → List ℕ → Outcome Sign
unfolding compare_null
compare_vs mem a str = elim a.start [
  | none ↦ compare_null a.end str
  | some s ↦ compare_vs_from (drop s mem) s a.end str
]

-- The loop of `compare_vv` over the memories of both views, and what is returned where one is at its
-- end.
pub compare_ends : Bool → Bool → Outcome Sign → Outcome Sign
compare_ends true true next = done same
compare_ends true false next = done below
compare_ends false true next = done above
compare_ends false false next = next

pub compare_vv_from : Memory → ℕ → Option ℕ → Memory → ℕ → Option ℕ → Outcome Sign
compare_vv_from [] s e ys t f = compare_ends (meets s e) (meets t f) fault
compare_vv_from (c ∷ cs) s e [] t f = compare_ends (meets s e) (meets t f) fault
compare_vv_from (c ∷ cs) s e (d ∷ ds) t f =
    let rest = compare_vv_from cs (s + 1) e ds (t + 1) f in
    compare_ends (meets s e) (meets t f)
      (if c == d then rest else done (if char_gt c d then above else below))

-- `start == end`
abbrev pub ends_meet : Option ℕ → Option ℕ → Bool
ends_meet none none = true
ends_meet none (some e) = false
ends_meet (some s) e = meets s e

compare_starts : Memory → Option ℕ → Option ℕ → Memory → Option ℕ → Option ℕ → Outcome Sign
compare_starts mem (some s) e mem' (some t) f = compare_vv_from (drop s mem) s e (drop t mem') t f
compare_starts mem s e mem' t f = compare_ends (ends_meet s e) (ends_meet t f) fault

-- Two views, each with the memory that it points into.
pub compare_vv : Memory → StringView → Memory → StringView → Outcome Sign
unfolding compare_starts
compare_vv mem a mem' b = compare_starts mem a.start a.end mem' b.start b.end

-- The first loop of `trim_whitespace`, over the memory from `s` on: only a byte that is no space
-- stops it.
pub trim_start : Memory → ℕ → Outcome ℕ
trim_start [] s = fault
trim_start (c ∷ cs) s = let rest = trim_start cs (s + 1) in if c == b' ' then rest else done s

-- The second loop. At offset 0 it would read in front of the memory.
pub trim_end : Memory → ℕ → Outcome ℕ
trim_end mem zero = fault
trim_end mem (suc e) = do
  c ← load mem e
  let rest = trim_end mem e
  if c == b' ' then rest else done (suc e)

trim_between : Memory → Option ℕ → Option ℕ → Outcome StringView
trim_between mem (some s) (some e) = do
  s' ← trim_start (drop s mem) s
  e' ← trim_end mem e
  done (create_view (some s') (some (if ltb e' s' then s' else e')))
trim_between mem s e = done (create_view s e)

unfoldable pub trim_whitespace : Memory → StringView → Outcome StringView
unfolding is_empty_view trim_between
trim_whitespace mem a = if is_empty_view a then done a else trim_between mem a.start a.end

-- An ssize_t is its bit pattern, a number below 2 ^ 64; sums and products wrap, as they do in the
-- unoptimised build that the Makefile makes.
abbrev pub minus_one : ℕ
minus_one = size_mod - 1

abbrev pub is_negative : ℕ → Bool
is_negative n = leb (2 ^ 63) n

-- The loop of `parse_to_int` with the `n` bytes from `start` on still to read, the last one first.
pub parse_loop : Memory → ℕ → ℕ → ℕ → ℕ → Outcome ℕ
parse_loop mem start zero pow res = done res
parse_loop mem start (suc n) pow res = do
  c ← load mem (start + n)
  let rest = parse_loop mem start n (pow * 10 % size_mod) ((res + pow * (c - b'0')) % size_mod)
  if is_numeric c then rest else done minus_one

parse_between : Memory → Option ℕ → Option ℕ → Outcome ℕ
parse_between mem (some s) (some e) = parse_loop mem s (e - s) 1 0
parse_between mem s e = done minus_one

unfoldable pub parse_to_int : Memory → StringView → Outcome ℕ
unfolding parse_between is_empty_view
parse_to_int mem number = do
  a ← trim_whitespace mem number
  if is_empty_view a then done minus_one else parse_between mem a.start a.end

-- The two ends of a view, for code that subtracts or compares them. Those of `INVALID_STRVIEW` are
-- equal; a view with one of them is not made.
unfoldable pub bounds : StringView → Outcome (ℕ × ℕ)
bounds a = elim a.start [
  | none ↦ elim a.end [ none ↦ done (0, 0) | some e ↦ fault ]
  | some s ↦ elim a.end [ none ↦ fault | some e ↦ done (s, e) ]
]

-- The loop of `fill_str`, over the memory from `s` on.
pub fill_from : Memory → ℕ → ℕ → Memory → ℕ → Outcome (Memory × ℕ)
fill_from [] s e buf p = if ltb s e then fault else done (buf, p)
fill_from (c ∷ cs) s e buf p =
    let next = (do buf' ← store buf p c; fill_from cs (s + 1) e buf' (p + 1)) in
    if ltb s e then next else done (buf, p)

-- The buffer after the call; `none` is NULL.
fill_between : Memory → ℕ → ℕ → Memory → ℕ → Outcome (Option Memory)
fill_between mem s e buf max_len =
    if leb (s + max_len) e
    then done none
    else do (buf', p) ← fill_from (drop s mem) s e buf 0; buf'' ← store buf' p 0; done (some buf'')

unfoldable pub fill_str : Memory → StringView → Memory → ℕ → Outcome (Option Memory)
unfolding fill_between bounds
fill_str mem a buf max_len = do (s, e) ← bounds a; fill_between mem s e buf max_len
