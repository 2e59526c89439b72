-- ===== src/Helpers/Decimal/Value.antt =====
-- helpers.c: the number that a text of digits denotes, and the text of `my_utoa`.
use mathlib.Core.List.{reverse, reverse-cons}
use cse130_asgn.Base.{
  ℕ, zero, suc, ◌+◌, ◌-◌, ◌*◌, ◌/◌, ◌%◌, ◌^◌, ◌≤◌, ◌<◌, true, List, [], ◌∷◌, ◌++◌, ◌==◌, length,
  arith, ◌≡◌, refl, length-reverse, Bool-cases, inl, inr, All, All-reverse,
}
use cse130_asgn.Helpers.{is_numeric}
use cse130_asgn.Helpers.Decimal.{digits_up, decimal, tenth-lt_pow}

-- The number that a text of digits denotes, read from the left.
abbrev pub value_from : ℕ → List ℕ → ℕ
value_from acc [] = acc
value_from acc (c ∷ cs) = value_from (acc * 10 + (c - b'0')) cs

pub value_from-append :
    (acc : ℕ) (xs ys : List ℕ) → value_from acc (xs ++ ys) ≡ value_from (value_from acc xs) ys
value_from-append acc [] ys = refl
value_from-append acc (x ∷ xs) ys = value_from-append (acc * 10 + (x - b'0')) xs ys

value_from-digits_up : (n i : ℕ) → i < 10 ^ suc n → value_from 0 (reverse (digits_up n i)) ≡ i
unfolding digits_up
value_from-digits_up zero i h = omega arith
value_from-digits_up (suc n) i h = elim (Bool-cases (i / 10 == 0)) [
  | inl last ↦ rw last (ground arith)
  | inr more ↦ rw more (
      rw
        (
          reverse-cons (i % 10 + b'0') (digits_up n (i / 10)),
          value_from-append 0 (reverse (digits_up n (i / 10))) ((i % 10 + b'0') ∷ []),
          value_from-digits_up n (i / 10) (tenth-lt_pow n i h),
        )
        (omega arith))
]

digits_up-numeric : (n i : ℕ) → All (λ c. is_numeric c ≡ true) (digits_up n i)
unfolding digits_up is_numeric
digits_up-numeric zero i = (ground arith, tt)
digits_up-numeric (suc n) i = elim (Bool-cases (i / 10 == 0)) [
  | inl last ↦ rw last (ground arith, tt)
  | inr more ↦ rw more (ground arith, digits_up-numeric n (i / 10))
]

-- It is a text of digits.
pub decimal-numeric : (i : ℕ) → All (λ c. is_numeric c ≡ true) (decimal i)
unfolding decimal
decimal-numeric i = All-reverse (λ c. is_numeric c ≡ true) (digits_up 19 i) (digits_up-numeric 19 i)

length-digits_up : (n i : ℕ) → (0 < length (digits_up n i)) × (length (digits_up n i) ≤ n + 1)
unfolding digits_up
length-digits_up zero i = omega arith
length-digits_up (suc n) i = ground (arith, length-digits_up n (i / 10))

pub length-decimal : (i : ℕ) → (0 < length (decimal i)) × (length (decimal i) ≤ 20)
unfolding decimal
length-decimal i = omega (arith, length-digits_up 19 i, length-reverse (digits_up 19 i))

-- `decimal i` denotes `i`.
pub value_from-decimal : (i : ℕ) → i < 2 ^ 64 → value_from 0 (decimal i) ≡ i
unfolding decimal
value_from-decimal i h = value_from-digits_up 19 i (omega arith)
