-- ===== src/StrView/Trim/Blank.antt =====
-- strview.c: `trim_whitespace` of a view that spans only spaces.
use cse130_asgn.Base.{
  ℕ, zero, suc, ◌+◌, ◌-◌, ◌≤◌, ◌<◌, [], ◌∷◌, ◌++◌, append_assoc, some, done, fault, length, drop,
  ◌≡◌, ◌≢◌, refl, ap, ◌∙◌, arith, drop-append, length-append,
}
use cse130_asgn.Memory.{Memory}
use cse130_asgn.StrView.{create_view, trim_start, trim_end, trim_whitespace}
use cse130_asgn.StrView.Trim.{
  spaces, trim_start-spaces, trim_end-spaces, length-spaces, trim_end_at_last,
}

spaces_split :
    (a b k : ℕ) (rest : Memory) → k ≡ a + b → spaces k ++ rest ≡ spaces a ++ (spaces b ++ rest)
spaces_split zero b k rest h = let e : k ≡ b = omega arith in rw e
spaces_split (suc a) b zero rest h = absurd (omega arith)
spaces_split (suc a) b (suc k) rest h = ap (◌∷◌ b' ') (spaces_split a b k rest (omega arith))

module _ (front : Memory) (k x : ℕ) (post : Memory) (nx : x ≢ b' ') where
  abbrev pub blank_in : Memory
  blank_in = front ++ (spaces k ++ x ∷ post)

  split_at :
      (s : ℕ)
      → length front ≤ s
      → s ≤ length front + k
      → spaces k ++ x ∷ post
        ≡ spaces (s - length front) ++ (spaces (k - (s - length front)) ++ x ∷ post)
  split_at s lo hi =
      spaces_split (s - length front) (k - (s - length front)) k (x ∷ post) (omega arith)

  from_blank :
      (s : ℕ)
      → length front ≤ s
      → s ≤ length front + k
      → trim_start (drop s blank_in) s ≡ done (length front + k)
  from_blank s lo hi =
      rw
        (
          split_at s lo hi,
          ← append_assoc front (spaces a) (spaces b ++ x ∷ post),
          drop-append (front ++ spaces a) (spaces b ++ x ∷ post) s at_a,
        )
        (trim_start-spaces b x post s nx ∙ ap done (omega arith))
    where
      a : ℕ
      a = s - length front

      b : ℕ
      b = k - a

      at_a : s ≡ length (front ++ spaces a)
      at_a = omega (arith, length-append front (spaces a), length-spaces a)

  to_blank :
      (e : ℕ)
      → length front ≤ e
      → e ≤ length front + k
      → trim_end blank_in e ≡ trim_end blank_in (length front)
  to_blank e lo hi = rw (split_at e lo hi) (
      trim_end-spaces (e - length front) front (spaces (k - (e - length front)) ++ x ∷ post) e
        (omega arith))

  -- With a byte that is no space somewhere in front of the view, the result is an empty view at the
  -- first such byte behind it.
  pub trim_whitespace_blank :
      (before : Memory) (y s e : ℕ)
      → front ≡ before ++ y ∷ []
      → y ≢ b' '
      → length front ≤ s
      → s < e
      → e ≤ length front + k
      → trim_whitespace blank_in (create_view (some s) (some e))
        ≡ done (create_view (some (length front + k)) (some (length front + k)))
  unfolding trim_whitespace
  trim_whitespace_blank before y s e hf hy lo lt hi = ground (
    arith,
    from_blank s lo (omega arith),
    to_blank e (omega arith) hi ∙ trim_end_at_last front before y (spaces k ++ x ∷ post) hf hy,
  )

  -- With nothing but spaces in front of it in its memory, a byte before the memory is read.
  pub trim_whitespace-fault :
      (s e : ℕ)
      → front ≡ []
      → s < e
      → e ≤ k
      → trim_whitespace blank_in (create_view (some s) (some e)) ≡ fault
  unfolding trim_whitespace
  trim_whitespace-fault s e hf lt hi =
      ground (arith, from_blank s (omega (arith, front_zero)) (omega (arith, front_zero)), faults)
    where
      front_zero : length front ≡ 0
      front_zero = ap length hf

      faults : trim_end blank_in e ≡ fault
      faults =
          to_blank e (omega (arith, front_zero)) (omega (arith, front_zero))
          ∙ rw front_zero (unfold trim_end in refl)
