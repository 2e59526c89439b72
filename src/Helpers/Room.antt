-- ===== src/Helpers/Room.antt =====
-- `buf_left` between the two ends of a buffer.
use cse130_asgn.Base.{ℕ, ◌-◌, ◌^◌, ◌≤◌, ◌<◌, ◌≡◌, arith}
use cse130_asgn.Helpers.{buf_left}

-- The room behind the pointer.
pub buf_left_lem : (end len : ℕ) → end ≤ len → len < 2 ^ 64 → buf_left 0 end len ≡ len - end
unfolding buf_left
buf_left_lem end len h small = omega arith
