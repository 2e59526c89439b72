-- ===== src/Memory/Between.antt =====
-- The bytes between two pointers, and a pointer between them.
use cse130_asgn.Base.{
  ℕ, ◌+◌, ◌-◌, ◌≤◌, [], ◌++◌, length, take, drop, ◌≡◌, refl, sym, ap, ◌∙◌, arith, drop-drop,
  take-split, length-take, length-eq-zero,
}
use cse130_asgn.Memory.{Memory, between}

-- What is between two pointers splits at each pointer between them.
pub between-split :
    (mem : Memory) (s n e : ℕ)
    → s + n ≤ e
    → between mem s e ≡ take n (between mem s e) ++ between mem (s + n) e
between-split mem s n e h =
    take-split (e - s) n (e - (s + n)) (drop s mem) (omega arith)
    ∙ ap (λ xs. take n (between mem s e) ++ take (e - (s + n)) xs)
        (sym (drop-drop (s + n) s n mem refl))

pub between_same : (mem : Memory) (e : ℕ) → between mem e e ≡ []
between_same mem e =
    length-eq-zero (between mem e e) (omega (arith, length-take (e - e) (drop e mem)))

pub length-between : (mem : Memory) (s e : ℕ) → length (between mem s e) ≤ e - s
length-between mem s e = omega (arith, length-take (e - s) (drop s mem))
