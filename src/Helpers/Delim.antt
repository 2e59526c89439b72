-- ===== src/Helpers/Delim.antt =====
-- helpers.c: `find_delim` with a one-byte delimiter; the children are about one of two bytes.
pub mod Pair
pub mod Total
use cse130_asgn.Base.{
  ℕ, ◌+◌, List, [], ◌∷◌, ◌++◌, Option, none, some, done, ◌==◌, if◌then◌else◌, length, arith, ◌≡◌,
  ◌≢◌, All, drop-append,
}
use cse130_asgn.Memory.{Memory}
use cse130_asgn.Helpers.{find_delim_from, find_delim}

-- The place just behind the first `d` of a text that starts at `s`.
abbrev pub index_after : ℕ → List ℕ → ℕ → Option ℕ
index_after d [] s = none
index_after d (c ∷ cs) s = if c == d then some (s + 1) else index_after d cs (s + 1)

find_delim_from-index_after :
    (d : ℕ) (body post : Memory) (s e : ℕ)
    → e ≡ s + length body
    → find_delim_from (body ++ post) s e (d ∷ []) (d ∷ []) ≡ done (index_after d body s)
unfolding find_delim_from
find_delim_from-index_after d [] [] s e h = ground arith
find_delim_from-index_after d [] (x ∷ post) s e h = ground arith
find_delim_from-index_after d (c ∷ body) post s e h =
    ground (arith, find_delim_from-index_after d body post (s + 1) e)

-- Of a one-byte delimiter `find_delim` returns the end of the first occurrence between the two
-- pointers, and NULL if there is none; it reads nothing outside them.
pub find_delim-index_after :
    (d : ℕ) (pre body post : Memory) (s e : ℕ)
    → s ≡ length pre
    → e ≡ s + length body
    → find_delim (pre ++ (body ++ post)) s e (d ∷ []) ≡ done (index_after d body s)
unfolding find_delim
find_delim-index_after d pre body post s e hs he =
    rw (drop-append pre (body ++ post) s hs) (find_delim_from-index_after d body post s e he)

-- Behind a text without it, the delimiter is found.
pub index_after_first :
    (d : ℕ) (xs rest : List ℕ) (s : ℕ)
    → All (λ c. c ≢ d) xs
    → index_after d (xs ++ d ∷ rest) s ≡ some (s + length xs + 1)
index_after_first d [] rest s h = ground arith
index_after_first d (x ∷ xs) rest s h = ground (arith, index_after_first d xs rest (s + 1) h.1)
