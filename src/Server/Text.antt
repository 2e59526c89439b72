-- ===== src/Server/Text.antt =====
-- server.c: how a response and a log line are put into their buffers.
pub mod Runs
pub mod Views
use cse130_asgn.Base.{
  ℕ, zero, suc, ◌+◌, ◌-◌, Bool, ◌&&◌, ◌||◌, not, List, [], ◌∷◌, Option, none, some, Outcome, done,
  fault, ◌>>=◌, codes, ltb, leb, ◌==◌, if◌then◌else◌, length, drop,
}
use cse130_asgn.Memory.{Memory, store}
use cse130_asgn.Helpers.{my_utoa, sub_size}
use cse130_asgn.StrView.{StringView, is_empty_view}
use cse130_asgn.Server.{
  Status, ok, created, bad_request, forbidden, not_found, internal_error, not_implemented,
  status_code,
}

-- A C string is the list of its bytes, its NUL left off. `len` is a size_t, which is only counted down.
pub copy_to : Memory → ℕ → List ℕ → ℕ → Outcome (Memory × ℕ)
copy_to mem buf [] len = done (mem, buf)
copy_to mem buf (c ∷ cs) zero = done (mem, buf)
copy_to mem buf (c ∷ cs) (suc len) = do mem' ← store mem buf c; copy_to mem' (buf + 1) cs len

unfoldable pub copy_protocol : Memory → ℕ → ℕ → Outcome (Memory × ℕ)
copy_protocol mem buf len = copy_to mem buf (codes "HTTP/1.1 ") len

-- A failed assertion is a fault.
unfoldable pub copy_code : Status → Memory → ℕ → ℕ → Outcome (Memory × ℕ)
copy_code s mem buf len =
    let copied = (do
      (mem', res) ← my_utoa (status_code s) mem buf
      mem'' ← store mem' (buf + 3) b' '
      done (mem'', res + buf + 1)) in
    if ltb 4 len && (leb 100 (status_code s) && leb (status_code s) 999) then copied else fault

unfoldable pub get_status_name : Status → List ℕ
get_status_name ok = codes "OK"
get_status_name created = codes "Created"
get_status_name bad_request = codes "Bad Request"
get_status_name forbidden = codes "Forbidden"
get_status_name not_found = codes "Not Found"
get_status_name internal_error = codes "Internal Server Error"
get_status_name not_implemented = codes "Not Implemented"

unfoldable pub copy_msg : Status → Memory → ℕ → ℕ → Outcome (Memory × ℕ)
copy_msg status mem buf len = copy_to mem buf (get_status_name status) len

unfoldable pub add_seperator : Memory → ℕ → ℕ → Outcome (Memory × ℕ)
add_seperator mem buf end = copy_to mem buf (codes ",") (sub_size end buf)

-- The loop of `copy_view_to`, over the source's memory from `s` on.
pub copy_view_from : Memory → ℕ → ℕ → Memory → ℕ → ℕ → Outcome (Memory × ℕ)
copy_view_from [] s e mem buf bufend = if s == e || buf == bufend then done (mem, buf) else fault
copy_view_from (c ∷ cs) s e mem buf bufend =
    let next = (do mem' ← store mem buf c; copy_view_from cs (s + 1) e mem' (buf + 1) bufend) in
    if s == e || buf == bufend then done (mem, buf) else next

copy_between : Memory → Option ℕ → Option ℕ → Memory → ℕ → ℕ → Outcome (Memory × ℕ)
copy_between src (some s) (some e) mem buf bufend = copy_view_from (drop s src) s e mem buf bufend
copy_between src s e mem buf bufend = done (mem, buf)

unfoldable pub copy_view_to : Memory → StringView → Memory → ℕ → ℕ → Outcome (Memory × ℕ)
unfolding is_empty_view copy_between
copy_view_to src sv mem buf bufend =
    if is_empty_view sv then done (mem, buf) else copy_between src sv.start sv.end mem buf bufend
