-- ===== src/Helpers/Delim/Total.antt =====
-- helpers.c: how `find_delim` with a two-byte delimiter ends.
use cse130_asgn.Base.{
  ℕ, ◌+◌, ◌≤◌, [], ◌∷◌, none, some, Outcome, done, Option, length, arith, ◌≡◌, refl, inl, inr, ◌⊎◌,
  ℕ_discrete, drop, length-drop, ==_ne, ==_same,
}
use cse130_asgn.Memory.{Memory}
use cse130_asgn.Helpers.{find_delim_from, find_delim}

-- It runs to its end, and gives NULL or a place.
abbrev pub Ends : Outcome (Option ℕ) → Type 0
Ends m = (m ≡ done none) ⊎ ((p : ℕ) × (m ≡ done (some p)))

module _ (c d : ℕ) where
  -- From the start of the delimiter, and from its middle.
  scan-Ends :
      (xs : Memory) (s e : ℕ)
      → s ≤ e
      → e ≤ s + length xs
      → Ends (find_delim_from xs s e (c ∷ d ∷ []) (c ∷ d ∷ []))
        × Ends (find_delim_from xs s e (c ∷ d ∷ []) (d ∷ []))
  unfolding find_delim_from
  scan-Ends [] s e le h = (inl (ground arith), inl (ground arith))
  scan-Ends (x ∷ xs) s e le h = elim (ℕ_discrete s e) [
    | yes stop ↦ (inl (ground arith), inl (ground arith))
    | no more ↦
        let (again, next) = scan-Ends xs (s + 1) e (omega arith) (omega arith) in
        (
          elim (ℕ_discrete x c) [
            | yes hit ↦ rw (==_ne s e more, ==_same x c hit) next
            | no miss ↦ rw (==_ne s e more, ==_ne x c miss) again
          ],
          elim (ℕ_discrete x d) [
            | yes hit ↦ inr (s + 1, rw (==_ne s e more, ==_same x d hit) refl)
            | no miss ↦ rw (==_ne s e more, ==_ne x d miss) again
          ],
        )
  ]

  pub find_delim-Ends :
      (mem : Memory) (s e : ℕ) → s ≤ e → e ≤ length mem → Ends (find_delim mem s e (c ∷ d ∷ []))
  unfolding find_delim
  find_delim-Ends mem s e le h =
      (scan-Ends (drop s mem) s e le (omega (arith, length-drop s mem))).0
