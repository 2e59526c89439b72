-- ===== src/Helpers/Delim/Pair.antt =====
-- helpers.c: `find_delim` with a delimiter of two different bytes such as "\r\n".
use cse130_asgn.Base.{
  ℕ, suc, ◌+◌, ◌≤◌, ◌<◌, List, [], ◌∷◌, ◌++◌, none, some, done, length, arith, ◌≡◌, ◌≢◌, refl, sym,
  ◌∙◌, ap, drop, drop-append, All, inl, inr, ◌⊎◌, get_elem?, ℕ_discrete,
}
use cse130_asgn.Memory.{Memory}
use cse130_asgn.Helpers.{find_delim_from, find_delim}

-- A text with no `c` in it.
abbrev pub Free : ℕ → List ℕ → Type 0
Free c = All (λ x. x ≢ c)

-- The place of `c` and `d`, side by side in a text that starts at `s`, whose end is `p`.
pub record FoundAt (c d : ℕ) (xs : List ℕ) (s p : ℕ) : Type 0 where
  pub skipped : ℕ
  pub first_byte : get_elem? xs skipped ≡ some c
  pub second_byte : get_elem? xs (suc skipped) ≡ some d
  pub end_eq : p ≡ s + skipped + 2

FoundAt-cons :
    {c d : ℕ} {xs : List ℕ} {s p : ℕ} (x : ℕ) → FoundAt c d xs (s + 1) p → FoundAt c d (x ∷ xs) s p
FoundAt-cons x f = record {
  skipped = suc f.skipped;
  first_byte = f.first_byte;
  second_byte = f.second_byte;
  end_eq = omega (arith, f.end_eq);
}

module _ (c d : ℕ) (ne : c ≢ d) where
  abbrev pub both : List ℕ
  both = c ∷ d ∷ []

  -- One byte, at the start of the delimiter and in the middle of it.
  scan_other :
      (x : ℕ) (xs : Memory) (s e : ℕ)
      → s < e
      → x ≢ c
      → find_delim_from (x ∷ xs) s e both both ≡ find_delim_from xs (s + 1) e both both
  unfolding find_delim_from
  scan_other x xs s e h n = ground arith

  scan_first :
      (x : ℕ) (xs : Memory) (s e : ℕ)
      → s < e
      → x ≡ c
      → find_delim_from (x ∷ xs) s e both both ≡ find_delim_from xs (s + 1) e both (d ∷ [])
  unfolding find_delim_from
  scan_first x xs s e h q = ground arith

  scan_second :
      (x : ℕ) (xs : Memory) (s e : ℕ)
      → s < e
      → x ≡ d
      → find_delim_from (x ∷ xs) s e both (d ∷ []) ≡ done (some (s + 1))
  unfolding find_delim_from
  scan_second x xs s e h q = ground arith

  scan_again :
      (x : ℕ) (xs : Memory) (s e : ℕ)
      → s < e
      → x ≢ d
      → find_delim_from (x ∷ xs) s e both (d ∷ []) ≡ find_delim_from xs (s + 1) e both both
  unfolding find_delim_from
  scan_again x xs s e h n = ground arith

  scan_end : (xs : Memory) (s : ℕ) → find_delim_from xs s s both both ≡ done none
  unfolding find_delim_from
  scan_end [] s = ground arith
  scan_end (x ∷ xs) s = ground arith

  scan-Free :
      (xs rest : Memory) (s t e : ℕ)
      → t ≡ s + length xs
      → t ≤ e
      → Free c xs
      → find_delim_from (xs ++ rest) s e both both ≡ find_delim_from rest t e both both
  scan-Free [] rest s t e h le f = ap (λ k. find_delim_from rest k e both both) (omega arith)
  scan-Free (x ∷ xs) rest s t e h le f =
      scan_other x (xs ++ rest) s e (omega arith) f.0
      ∙ scan-Free xs rest (s + 1) t e (omega arith) le f.1

  -- Nothing is found from the end on, nor where the memory ends.
  scan_stop :
      (xs : Memory) (s e p : ℕ) (ptr : List ℕ)
      → (ptr ≡ both) ⊎ (ptr ≡ d ∷ [])
      → (s ≡ e) ⊎ (xs ≡ [])
      → find_delim_from xs s e both ptr ≢ done (some p)
  unfolding find_delim_from
  scan_stop xs s e p ptr (inl q) (inr n) h = ground arith
  scan_stop xs s e p ptr (inr q) (inr n) h = ground arith
  scan_stop [] s e p ptr (inl q) (inl n) h = ground arith
  scan_stop [] s e p ptr (inr q) (inl n) h = ground arith
  scan_stop (x ∷ xs) s e p ptr (inl q) (inl n) h = ground arith
  scan_stop (x ∷ xs) s e p ptr (inr q) (inl n) h = ground arith

  -- The two bytes side by side, and the first of them alone.
  scan_hit :
      (x y : ℕ) (ys : Memory) (s e : ℕ)
      → suc s < e
      → x ≡ c
      → y ≡ d
      → find_delim_from (x ∷ y ∷ ys) s e both both ≡ done (some (s + 2))
  scan_hit x y ys s e h q r =
      scan_first x (y ∷ ys) s e (omega arith) q
      ∙ scan_second y ys (s + 1) e (omega arith) r
      ∙ ap (λ k. done (some k)) (omega arith)

  scan_miss :
      (x y : ℕ) (ys : Memory) (s e : ℕ)
      → suc s < e
      → x ≡ c
      → y ≢ d
      → find_delim_from (x ∷ y ∷ ys) s e both both ≡ find_delim_from ys (s + 1 + 1) e both both
  scan_miss x y ys s e h q r =
      scan_first x (y ∷ ys) s e (omega arith) q ∙ scan_again y ys (s + 1) e (omega arith) r

  -- Where no first byte stands before it, the first occurrence is found: its end is returned.
  pub find_delim_first :
      (pre xs post : Memory) (s e : ℕ)
      → s ≡ length pre
      → s + length xs + 2 ≤ e
      → Free c xs
      → find_delim (pre ++ (xs ++ c ∷ d ∷ post)) s e both ≡ done (some (s + length xs + 2))
  unfolding find_delim
  find_delim_first pre xs post s e hs he f = rw (drop-append pre (xs ++ c ∷ d ∷ post) s hs) (
      scan-Free xs (c ∷ d ∷ post) s (s + length xs) e refl (omega arith) f
      ∙ scan_hit c d post (s + length xs) e (omega arith) refl refl)

  -- In a text with no first byte nothing is found, and nothing outside the text is read.
  pub find_delim_absent :
      (pre body post : Memory) (s e : ℕ)
      → s ≡ length pre
      → e ≡ s + length body
      → Free c body
      → find_delim (pre ++ (body ++ post)) s e both ≡ done none
  unfolding find_delim
  find_delim_absent pre body post s e hs he f =
      rw (drop-append pre (body ++ post) s hs)
        (scan-Free body post s e e he (omega arith) f ∙ scan_end post e)

  -- A text that ends in `c c d` does hold the delimiter `c d`, and it is not found.
  pub find_delim_doubled :
      (pre xs post : Memory) (s e : ℕ)
      → s ≡ length pre
      → e ≡ s + length xs + 3
      → Free c xs
      → find_delim (pre ++ (xs ++ c ∷ c ∷ d ∷ post)) s e both ≡ done none
  unfolding find_delim
  find_delim_doubled pre xs post s e hs he f = rw (drop-append pre (xs ++ c ∷ c ∷ d ∷ post) s hs) (
      scan-Free xs (c ∷ c ∷ d ∷ post) s (s + length xs) e refl (omega arith) f
      ∙ scan_miss c c (d ∷ post) (s + length xs) e (omega arith) refl ne
      ∙ scan_other d post (s + length xs + 1 + 1) e (omega arith) (λ q. ne (sym q))
      ∙ rw (end_eq) (scan_end post e))
    where
      end_eq : s + length xs + 1 + 1 + 1 ≡ e
      end_eq = omega arith

  scan_one : (x s e p : ℕ) → s < e → find_delim_from (x ∷ []) s e both both ≢ done (some p)
  unfolding find_delim_from
  scan_one x s e p lt h = ground arith

  found_here :
      (x y : ℕ) (ys : Memory) (s e p : ℕ)
      → suc s < e
      → x ≡ c
      → y ≡ d
      → done (some (s + 2)) ≡ done (some p)
      → FoundAt c d (x ∷ y ∷ ys) s p × (p ≤ e)
  found_here x y ys s e p lt q r h = (
    record { skipped = 0; first_byte = ap some q; second_byte = ap some r; end_eq = ground arith },
    ground arith,
  )

  scan-FoundAt :
      (xs : Memory) (s e p : ℕ)
      → s ≤ e
      → find_delim_from xs s e both both ≡ done (some p)
      → FoundAt c d xs s p × (p ≤ e)
  scan-FoundAt [] s e p le h = absurd (scan_stop [] s e p both (inl refl) (inr refl) h)
  scan-FoundAt (x ∷ []) s e p le h = elim (ℕ_discrete s e) [
    | yes q ↦ absurd (scan_stop (x ∷ []) s e p both (inl refl) (inl q) h)
    | no n ↦ absurd (scan_one x s e p (omega arith) h)
  ]
  scan-FoundAt (x ∷ y ∷ ys) s e p le h = elim (ℕ_discrete s e) [
    | yes q ↦ absurd (scan_stop (x ∷ y ∷ ys) s e p both (inl refl) (inl q) h)
    | no n ↦ elim (ℕ_discrete x c) [
      | no q ↦
          let f =
            scan-FoundAt (y ∷ ys) (s + 1) e p (omega arith)
              (sym (scan_other x (y ∷ ys) s e (omega arith) q) ∙ h) in
          (FoundAt-cons x f.0, f.1)
      | yes q ↦ elim (ℕ_discrete (s + 1) e) [
        | yes last ↦ absurd (
            scan_stop (y ∷ ys) (s + 1) e p (d ∷ []) (inr refl) (inl last)
              (sym (scan_first x (y ∷ ys) s e (omega arith) q) ∙ h))
        | no more ↦ elim (ℕ_discrete y d) [
          | yes r ↦
              found_here x y ys s e p (omega arith) q r
                (sym (scan_hit x y ys s e (omega arith) q r) ∙ h)
          | no r ↦
              let f =
                scan-FoundAt ys (s + 1 + 1) e p (omega arith)
                  (sym (scan_miss x y ys s e (omega arith) q r) ∙ h) in
              (FoundAt-cons x (FoundAt-cons y f.0), f.1)
        ]
      ]
    ]
  ]

  -- What is found is the delimiter: its two bytes stand just before the pointer that is returned,
  -- which lies between the two given ones.
  pub find_delim-FoundAt :
      (mem : Memory) (s e p : ℕ)
      → s ≤ e
      → find_delim mem s e both ≡ done (some p)
      → FoundAt c d (drop s mem) s p × (p ≤ e)
  unfolding find_delim
  find_delim-FoundAt mem s e p le h = scan-FoundAt (drop s mem) s e p le h
