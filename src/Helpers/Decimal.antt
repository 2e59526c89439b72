-- ===== src/Helpers/Decimal.antt =====
-- helpers.c: the decimal digits of a number, and `my_utoa`.
pub mod Value
use native.Mathlib.Nat.{pow-suc}
use mathlib.Core.List.{reverse, reverse-append, reverse-cons}
use cse130_asgn.Base.{
  ℕ, zero, suc, ◌+◌, ◌-◌, ◌*◌, ◌/◌, ◌%◌, ◌^◌, ◌≤◌, ◌<◌, List, [], ◌∷◌, ◌++◌, append_assoc, Outcome,
  done, ◌>>=◌, ◌==◌, if◌then◌else◌, length, drop, arith, ◌≡◌, refl, sym, ◌∙◌, ap, length-append,
  length-reverse, append-nil, length-eq-zero, Bool-cases, snoc-cases, inl, inr,
}
use cse130_asgn.Memory.{Memory, load, store}
use cse130_asgn.Memory.Runs.{load-append, store-append, wrote, wrote-cons, length-append_one}
use cse130_asgn.Helpers.{utoa_digits, utoa_reverse, my_utoa, max_digits}

-- The digits of `i`, the lowest first: at least one, and no more than `n + 1`.
digits_up : ℕ → ℕ → List ℕ
digits_up zero i = (i % 10 + b'0') ∷ []
digits_up (suc n) i =
    (i % 10 + b'0') ∷ (let rest = digits_up n (i / 10) in if i / 10 == 0 then [] else rest)

-- The digits of a uint64_t, the highest first.
unfoldable pub decimal : ℕ → List ℕ
unfolding digits_up
decimal i = reverse (digits_up 19 i)

tenth-lt_pow : (n i : ℕ) → i < 10 ^ suc (suc n) → i / 10 < 10 ^ suc n
tenth-lt_pow n i h = omega (arith, pow-suc 10 (suc n))

-- One round.
utoa_digits_step :
    (n i : ℕ) (out : Memory) (x : ℕ) (slack : Memory) (p : ℕ)
    → p ≡ length out
    → utoa_digits (suc n) i (out ++ x ∷ slack) p ≡ (
        if i / 10 == 0
        then done (out ++ (i % 10 + b'0') ∷ slack, p + 1)
        else utoa_digits n (i / 10) ((out ++ (i % 10 + b'0') ∷ []) ++ slack) (p + 1))
unfolding utoa_digits
utoa_digits_step n i out x slack p e =
    rw (store-append out x slack p e (i % 10 + b'0'), append_assoc out ((i % 10 + b'0') ∷ []) slack)
      refl

utoa_digits-digits_up :
    (n i : ℕ) (out slack : Memory) (p : ℕ)
    → i < 10 ^ suc n
    → p ≡ length out
    → length (digits_up n i) ≤ length slack
    → utoa_digits (suc n) i (out ++ slack) p ≡ wrote out slack p (digits_up n i)
unfolding digits_up
utoa_digits-digits_up zero i out [] p h e fit = absurd (omega arith)
utoa_digits-digits_up zero i out (x ∷ slack) p h e fit =
    utoa_digits_step 0 i out x slack p e
    ∙ ground (arith, append_assoc out ((i % 10 + b'0') ∷ []) slack)
utoa_digits-digits_up (suc n) i out [] p h e fit = absurd (omega arith)
utoa_digits-digits_up (suc n) i out (x ∷ slack) p h e fit = elim (Bool-cases (i / 10 == 0)) [
  | inl last ↦
      utoa_digits_step (suc n) i out x slack p e
      ∙ rw last (ground (arith, append_assoc out (d ∷ []) slack))
  | inr more ↦
      utoa_digits_step (suc n) i out x slack p e
      ∙ rw more (
          utoa_digits-digits_up n (i / 10) (out ++ d ∷ []) slack (p + 1) (tenth-lt_pow n i h)
            (length-append_one out d p e) (rw more at fits)
          ∙ wrote-cons out x slack p d (digits_up n (i / 10)))
]
  where
    d : ℕ
    d = i % 10 + b'0'

    fits : length (if i / 10 == 0 then [] else digits_up n (i / 10)) ≤ length slack
    fits = omega arith

module _ (pre : Memory) (x : ℕ) (m : List ℕ) (y : ℕ) (post : Memory) (q : ℕ)
    (e : q ≡ length pre + suc (length m)) where
  at_end : q ≡ length (pre ++ x ∷ m)
  at_end = omega (arith, length-append pre (x ∷ m))

  load_inside : load (pre ++ x ∷ (m ++ y ∷ post)) q ≡ done y
  load_inside =
      rw (← append_assoc pre (x ∷ m) (y ∷ post)) (load-append (pre ++ x ∷ m) y post q at_end)

  store_inside :
      (c : ℕ) → store (pre ++ x ∷ (m ++ y ∷ post)) q c ≡ done (pre ++ x ∷ (m ++ c ∷ post))
  store_inside c =
      rw (← append_assoc pre (x ∷ m) (y ∷ post), ← append_assoc pre (x ∷ m) (c ∷ post))
        (store-append (pre ++ x ∷ m) y post q at_end c)

-- One round swaps two bytes.
utoa_reverse_step :
    (n j len start : ℕ) (pre : Memory) (x : ℕ) (m : List ℕ) (y : ℕ) (post : Memory)
    → start + j ≡ length pre
    → start + (len - j - 1) ≡ length pre + suc (length m)
    → utoa_reverse (suc n) j len start (pre ++ x ∷ (m ++ y ∷ post))
      ≡ utoa_reverse n (j + 1) len start (pre ++ y ∷ (m ++ x ∷ post))
unfolding utoa_reverse
utoa_reverse_step n j len start pre x m y post hp hq = rw (
  load-append pre x (m ++ y ∷ post) (start + j) hp,
  load_inside pre x m y post (start + (len - j - 1)) hq,
  store-append pre x (m ++ y ∷ post) (start + j) hp y,
  store_inside pre y m y post (start + (len - j - 1)) hq x,
)

reverse-snoc : (m : List ℕ) (y : ℕ) → reverse (m ++ y ∷ []) ≡ y ∷ reverse m
reverse-snoc m y = reverse-append m (y ∷ [])

-- What the loop makes of the middle part, once its ends are swapped.
regroup :
    (pre : Memory) (x : ℕ) (m : List ℕ) (y : ℕ) (post : Memory)
    → (pre ++ y ∷ []) ++ (reverse m ++ x ∷ post) ≡ pre ++ (reverse (x ∷ (m ++ y ∷ [])) ++ post)
regroup pre x m y post = simp (reverse-cons x (m ++ y ∷ []), reverse-snoc, append_assoc)

-- Swapping the ends of the middle part `m`, inwards, reverses it. `n` rounds are left.
utoa_reverse-reverse :
    (n j len start : ℕ) (pre m post : Memory)
    → start + j ≡ length pre
    → len ≡ j + j + length m
    → length m / 2 ≡ n
    → utoa_reverse n j len start (pre ++ (m ++ post)) ≡ done (pre ++ (reverse m ++ post))
unfolding utoa_reverse
utoa_reverse-reverse zero j len start pre [] post hp hl hn = refl
utoa_reverse-reverse zero j len start pre (x ∷ []) post hp hl hn = refl
utoa_reverse-reverse zero j len start pre (x ∷ y ∷ m) post hp hl hn = absurd (omega arith)
utoa_reverse-reverse (suc n) j len start pre [] post hp hl hn = absurd (omega arith)
utoa_reverse-reverse (suc n) j len start pre (x ∷ m) post hp hl hn = elim (snoc-cases m) [
  | inl e ↦ absurd (omega (arith, ap length e))
  | inr (m', y, e) ↦
      rw (e, append_assoc m' (y ∷ []) post)
        (utoa_reverse_step n j len start pre x m' y post hp (omega (arith, len_m m' y e))
          ∙ rw (← append_assoc pre (y ∷ []) (m' ++ x ∷ post)) (
              utoa_reverse-reverse n (j + 1) len start (pre ++ y ∷ []) m' (x ∷ post)
                (omega (arith, length-append pre (y ∷ []))) (omega (arith, len_m m' y e))
                (omega (arith, len_m m' y e)))
          ∙ ap done (regroup pre x m' y post))
]
  where
    len_m : (m' : List ℕ) (y : ℕ) → m ≡ m' ++ y ∷ [] → length m ≡ suc (length m')
    len_m m' y e = ap length e ∙ omega (arith, length-append m' (y ∷ []))

mid_reverse :
    (n : ℕ) (out ds post : Memory) (p : ℕ)
    → n ≡ length ds
    → p ≡ length out
    → utoa_reverse (n / 2) 0 n p ((out ++ ds) ++ post) ≡ done ((out ++ reverse ds) ++ post)
mid_reverse n out ds post p e hp =
    rw (append_assoc, append_assoc)
      (utoa_reverse-reverse (n / 2) 0 n p out ds post (omega arith) (omega arith) (omega arith))

-- `my_utoa` never leaves its loop early, stays in the buffer if the digits fit, and leaves the
-- decimal digits of `i`, the highest first, behind what was written.
pub my_utoa-decimal :
    (i : ℕ) (out slack : Memory) (p : ℕ)
    → i < 2 ^ 64
    → p ≡ length out
    → length (decimal i) ≤ length slack
    → my_utoa i (out ++ slack) p
      ≡ done ((out ++ decimal i) ++ drop (length (decimal i)) slack, length (decimal i))
unfolding my_utoa decimal
my_utoa-decimal i out slack p h e fit =
    rw (utoa_digits-digits_up 19 i out slack p (omega arith) e (omega (arith, length-reverse ds)))
      (rw (mid_reverse (p + length ds - p) out ds _ p (omega arith) e, length-reverse ds, len) refl)
  where
    ds : List ℕ
    ds = digits_up 19 i

    len : p + length (digits_up 19 i) - p ≡ length (digits_up 19 i)
    len = omega arith
