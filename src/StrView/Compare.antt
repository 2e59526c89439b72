-- ===== src/StrView/Compare.antt =====
-- strview.c: `compare_vs` and `compare_vv` of views of a text.
use cse130_asgn.Base.{
  ℕ, ◌+◌, List, [], ◌∷◌, ◌++◌, some, done, length, ◌==◌, if◌then◌else◌, ◌≡◌, ap, sym, ◌∙◌, ◌↔◌,
  arith, drop-append,
}
use cse130_asgn.StrView.{
  create_view, Sign, same, below, above, char_gt, compare_vs_from, compare_vs, compare_ends,
  compare_vv_from, compare_vv,
}

-- The order of `compare_vs` on texts: of signed chars, a proper prefix first.
unfoldable pub compare_text : List ℕ → List ℕ → Sign
compare_text [] [] = same
compare_text [] (b ∷ bs) = below
compare_text (a ∷ xs) [] = above
compare_text (a ∷ xs) (b ∷ bs) =
    if a == b then compare_text xs bs else if char_gt a b then above else below

compare_vs_from-compare_text :
    (xs post str : List ℕ) (s e : ℕ)
    → e ≡ s + length xs
    → compare_vs_from (xs ++ post) s (some e) str ≡ done (compare_text xs str)
unfolding compare_vs_from compare_text
compare_vs_from-compare_text [] post [] s e h = ground arith
compare_vs_from-compare_text [] [] (b ∷ bs) s e h = ground arith
compare_vs_from-compare_text [] (x ∷ post) (b ∷ bs) s e h = ground arith
compare_vs_from-compare_text (a ∷ xs) post [] s e h = ground arith
compare_vs_from-compare_text (a ∷ xs) post (b ∷ bs) s e h =
    ground (arith, compare_vs_from-compare_text xs post bs (s + 1) e)

-- `compare_vs` compares the text that the view spans, and reads nothing else.
pub compare_vs-compare_text :
    (pre text post str : List ℕ) (s e : ℕ)
    → s ≡ length pre
    → e ≡ s + length text
    → compare_vs (pre ++ (text ++ post)) (create_view (some s) (some e)) str
      ≡ done (compare_text text str)
unfolding compare_vs
compare_vs-compare_text pre text post str s e hs he =
    rw (drop-append pre (text ++ post) s hs) (compare_vs_from-compare_text text post str s e he)

-- It returns 0 exactly for the string itself.
pub compare_text-same : (xs ys : List ℕ) → (compare_text xs ys ≡ same) ↔ (xs ≡ ys)
unfolding compare_text
compare_text-same [] [] = ground arith
compare_text-same [] (y ∷ ys) = ground arith
compare_text-same (x ∷ xs) [] = ground arith
compare_text-same (x ∷ xs) (y ∷ ys) = ground (arith, compare_text-same xs ys)

-- `compare_vs` returns 0 exactly when the view spans the string itself.
pub compare_vs-same :
    (pre text post str : List ℕ) (s e : ℕ)
    → s ≡ length pre
    → e ≡ s + length text
    → (compare_vs (pre ++ (text ++ post)) (create_view (some s) (some e)) str ≡ done same)
      ↔ (text ≡ str)
compare_vs-same pre text post str s e hs he =
    rw (compare_vs-compare_text pre text post str s e hs he) (
      (λ h. (compare_text-same text str).0 (ground arith)),
      (λ h. ap done ((compare_text-same text str).1 h)),
    )

compare_vv_from-compare_text :
    (xs post ys after : List ℕ) (s e t f : ℕ)
    → e ≡ s + length xs
    → f ≡ t + length ys
    → compare_vv_from (xs ++ post) s (some e) (ys ++ after) t (some f) ≡ done (compare_text xs ys)
unfolding compare_vv_from compare_ends compare_text
compare_vv_from-compare_text [] [] [] after s e t f h h' = ground arith
compare_vv_from-compare_text [] (x ∷ post) [] [] s e t f h h' = ground arith
compare_vv_from-compare_text [] (x ∷ post) [] (y ∷ after) s e t f h h' = ground arith
compare_vv_from-compare_text [] [] (b ∷ bs) after s e t f h h' = ground arith
compare_vv_from-compare_text [] (x ∷ post) (b ∷ bs) after s e t f h h' = ground arith
compare_vv_from-compare_text (a ∷ xs) post [] [] s e t f h h' = ground arith
compare_vv_from-compare_text (a ∷ xs) post [] (y ∷ after) s e t f h h' = ground arith
compare_vv_from-compare_text (a ∷ xs) post (b ∷ bs) after s e t f h h' =
    ground (arith, compare_vv_from-compare_text xs post bs after (s + 1) e (t + 1) f)

-- `compare_vv` of a view and a view of a string is `compare_vs` of the view and the string.
pub compare_vv-compare_vs :
    (pre text post before str after : List ℕ) (s e t f : ℕ)
    → s ≡ length pre
    → e ≡ s + length text
    → t ≡ length before
    → f ≡ t + length str
    → compare_vv
        (pre ++ (text ++ post))
        (create_view (some s) (some e))
        (before ++ (str ++ after))
        (create_view (some t) (some f))
      ≡ compare_vs (pre ++ (text ++ post)) (create_view (some s) (some e)) str
unfolding compare_vv
compare_vv-compare_vs pre text post before str after s e t f hs he ht hf =
    rw (drop-append pre (text ++ post) s hs, drop-append before (str ++ after) t ht)
      (compare_vv_from-compare_text text post str after s e t f he hf
        ∙ sym (compare_vs-compare_text pre text post str s e hs he))
