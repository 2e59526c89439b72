-- ===== src/Server/Validate.antt =====
-- server.c: `burn_whitespace`, the checks of a request line's parts, and `get_method`.
use cse130_asgn.Base.{
  ℕ, ◌+◌, Bool, true, false, ◌||◌, not, List, [], ◌∷◌, Option, none, some, Outcome, done, fault,
  ◌>>=◌, codes, ltb, ◌==◌, if◌then◌else◌, drop,
}
use cse130_asgn.Memory.{Memory, load}
use cse130_asgn.Helpers.{is_whitespace, is_alpha, is_numeric}
use cse130_asgn.StrView.{StringView, Sign, same, compare_vs, bounds}
use cse130_asgn.Server.{Method, get, put, head, unknown, Status, not_implemented, bad_request}

-- Over the memory from `s` on.
pub burn_from : Memory → ℕ → ℕ → Outcome ℕ
burn_from [] s e = if s == e then done s else fault
burn_from (c ∷ cs) s e =
    let rest = burn_from cs (s + 1) e in
    if s == e then done s else if is_whitespace c then rest else done s

unfoldable pub burn_whitespace : Memory → ℕ → ℕ → Outcome ℕ
unfolding burn_from is_whitespace
burn_whitespace mem bufs bufe = burn_from (drop bufs mem) bufs bufe

unfoldable pub validate_path_char : ℕ → Bool
unfolding is_alpha is_numeric
validate_path_char c = is_alpha c || (is_numeric c || (c == b'.' || (c == b'-' || c == b'_')))

unfoldable pub validate_method_char : ℕ → Bool
unfolding is_alpha
validate_method_char c = is_alpha c

abbrev pub is_same : Sign → Bool
is_same same = true
is_same _ = false

unfoldable pub validate_proto : Memory → StringView → Outcome Bool
validate_proto mem proto = do
  (s, e) ← bounds proto
  let compared = (do r ← compare_vs mem proto (codes "HTTP/1.1"); done (is_same r))
  if ltb e (s + 8) then done false else compared

-- The loop `while(start != end)` with its test, over the memory from `s` on.
unfoldable pub all_from : (ℕ → Bool) → Memory → ℕ → ℕ → Outcome Bool
all_from test [] s e = if s == e then done true else fault
all_from test (c ∷ cs) s e =
    let rest = all_from test cs (s + 1) e in
    if s == e then done true else if test c then rest else done false

unfoldable pub validate_path : Memory → StringView → Outcome Bool
validate_path mem path = do
  (s, e) ← bounds path
  let body = (do
    c ← load mem s
    let rest = all_from validate_path_char (drop (s + 1) mem) (s + 1) e
    if not (c == b'/') then done false else rest)
  if ltb e (s + 2) then done false else body

unfoldable pub validate_method : Memory → StringView → Outcome Bool
validate_method mem method = do
  (s, e) ← bounds method
  if ltb (s + 8) e then done false else all_from validate_method_char (drop s mem) s e

-- `SUPPORTED_METHODS`, with the enumerator of each index.
abbrev pub supported_methods : List (List ℕ × Method)
supported_methods = (codes "GET", get) ∷ (codes "PUT", put) ∷ (codes "HEAD", head) ∷ []

-- The loop of `get_method`.
unfoldable pub find_method : Memory → StringView → List (List ℕ × Method) → Outcome (Option Method)
find_method mem view [] = done none
find_method mem view ((name, m) ∷ ms) =
    let rest = find_method mem view ms in
    do r ← compare_vs mem view name; if is_same r then done (some m) else rest

unfoldable pub unknown_method : Bool → Method × Status
unknown_method true = (unknown, not_implemented)
unknown_method false = (unknown, bad_request)

-- The status is set only where no method is found.
unfoldable pub get_method : Memory → StringView → Status → Outcome (Method × Status)
unfolding unknown_method
get_method mem method_str status = do
  found ← find_method mem method_str supported_methods
  elim found [
    | some m ↦ done (m, status)
    | none ↦ do valid ← validate_method mem method_str; done (unknown_method valid)
  ]
