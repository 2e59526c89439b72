-- ===== src/Tests/Text.antt =====
-- Numbers and delimiters.
use cse130_asgn.Base.{ℕ, ◌≢◌, ◌≤◌, [], ◌++◌, none, some, done, codes, ◌≡◌, refl, arith}
use cse130_asgn.Helpers.{my_utoa, find_delim}
use cse130_asgn.Helpers.Decimal.{decimal, my_utoa-decimal}
use cse130_asgn.Helpers.Delim.{find_delim-index_after}
use cse130_asgn.Helpers.Delim.Pair.{
  find_delim_first, find_delim_doubled, find_delim-FoundAt, FoundAt,
}

-- 1234 behind "n="
my_utoa-decimal_example : my_utoa 1234 (codes "n=" ++ codes "......") 2 ≡ done (codes "n=1234..", 4)
unfolding decimal
my_utoa-decimal_example =
    my_utoa-decimal 1234 (codes "n=") (codes "......") 2 (omega arith) refl (ground arith)

find_delim-index_after_example :
    find_delim (codes "GET /a HTTP/1.1") 0 15 (codes " ") ≡ done (some 4)
find_delim-index_after_example =
    find_delim-index_after b' ' [] (codes "GET /a HTTP/1.1") [] 0 15 refl refl

cr_ne_lf : ◌≢◌ {A = ℕ} 13 10
cr_ne_lf = omega arith

find_delim_first_example : find_delim (codes "xab\r\ncd") 1 7 (codes "\r\n") ≡ done (some 5)
find_delim_first_example =
    find_delim_first 13 10 cr_ne_lf (codes "x") (codes "ab") (codes "cd") 1 7 refl (omega arith)
      (omega arith, (omega arith, tt))

find_delim_doubled_example : find_delim (codes "ab\r\r\n") 0 5 (codes "\r\n") ≡ done none
find_delim_doubled_example =
    find_delim_doubled 13 10 cr_ne_lf [] (codes "ab") [] 0 5 refl refl
      (omega arith, (omega arith, tt))

find_delim-FoundAt_example : FoundAt 13 10 (codes "ab\r\ncd") 0 4 × (4 ≤ 6)
unfolding find_delim
find_delim-FoundAt_example =
    find_delim-FoundAt 13 10 cr_ne_lf (codes "ab\r\ncd") 0 6 4 (omega arith) refl
