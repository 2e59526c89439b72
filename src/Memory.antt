-- ===== src/Memory.antt =====
-- A C buffer as the list of its bytes, and a pointer into it as an offset. An access outside the
-- buffer is a `fault`. The children are about runs of stores and the bytes between two pointers.
pub mod Runs
pub mod Filled
pub mod Between
use cse130_asgn.Base.{
  ℕ, suc, zero, ◌+◌, ◌-◌, List, [], ◌∷◌, none, some, Outcome, done, fault, ◌>>=◌, length, get_elem?,
  set, take, drop, ltb, if◌then◌else◌,
}

abbrev pub Memory : Type 0
Memory = List ℕ

-- `*p`
unfoldable pub load : Memory → ℕ → Outcome ℕ
load mem p = elim (get_elem? mem p) [ none ↦ fault | some c ↦ done c ]

-- `*p = c`
unfoldable pub store : Memory → ℕ → ℕ → Outcome Memory
store mem p c = if ltb p (length mem) then done (set mem p c) else fault

-- `*(p++) = …` for each byte, as `read` fills a buffer: the memory and the pointer behind them.
unfoldable pub blit : Memory → ℕ → List ℕ → Outcome (Memory × ℕ)
unfolding store
blit mem p [] = done (mem, p)
blit mem p (c ∷ cs) = do mem' ← store mem p c; blit mem' (p + 1) cs

-- The bytes of the memory between two pointers, as `write` is given them.
abbrev pub between : Memory → ℕ → ℕ → List ℕ
between mem s e = take (e - s) (drop s mem)
