-- ===== src/StrView/Fill.antt =====
-- strview.c: `fill_str` of a view of a text.
use cse130_asgn.Base.{
  ℕ, suc, ◌+◌, ◌≤◌, ◌<◌, false, List, [], ◌∷◌, ◌++◌, append_assoc, none, some, done, leb, length,
  drop, ◌≡◌, refl, arith, drop-append, drop-suc,
}
use cse130_asgn.Memory.{Memory}
use cse130_asgn.Memory.Runs.{store-append, wrote, wrote-nil, wrote-cons, length-append_one}
use cse130_asgn.StrView.{create_view, fill_from, fill_str}

fill_from-wrote :
    (text post : List ℕ) (s e : ℕ) (out slack : Memory) (p : ℕ)
    → e ≡ s + length text
    → p ≡ length out
    → length text ≤ length slack
    → fill_from (text ++ post) s e (out ++ slack) p ≡ wrote out slack p text
unfolding fill_from
fill_from-wrote [] [] s e out slack p he hp fit = ground (arith, wrote-nil out slack p)
fill_from-wrote [] (x ∷ post) s e out slack p he hp fit = ground (arith, wrote-nil out slack p)
fill_from-wrote (c ∷ text) post s e out [] p he hp fit = absurd (omega arith)
fill_from-wrote (c ∷ text) post s e out (x ∷ slack) p he hp fit = ground (
  arith,
  store-append out x slack p hp c,
  append_assoc out (c ∷ []) slack,
  fill_from-wrote text post (s + 1) e (out ++ c ∷ []) slack (p + 1) (omega arith)
      (length-append_one out c p hp) (omega arith),
  wrote-cons out x slack p c text,
)

module _ (pre text post : List ℕ) (s e : ℕ) (buf : Memory) (max_len : ℕ) (hs : s ≡ length pre)
    (he : e ≡ s + length text) where
  -- A text shorter than `max_len` is copied whole, with a NUL behind it; the rest of the buffer stays.
  pub fill_str_fits :
      length text < max_len
      → max_len ≤ length buf
      → fill_str (pre ++ (text ++ post)) (create_view (some s) (some e)) buf max_len
        ≡ done (some (text ++ 0 ∷ drop (suc (length text)) buf))
  unfolding fill_str
  fill_str_fits h fit =
      let (x, more) = drop-suc (length text) buf (omega arith) in
      rw
        (
          short,
          drop-append pre (text ++ post) s hs,
          fill_from-wrote text post s e [] buf 0 he refl (omega arith),
          more,
          store-append text x (drop (suc (length text)) buf) (0 + length text) (omega arith) 0,
        )
        refl
    where
      short : leb (s + max_len) e ≡ false
      short = ground arith

  -- A longer one is refused.
  pub fill_str_too_long :
      max_len ≤ length text
      → fill_str (pre ++ (text ++ post)) (create_view (some s) (some e)) buf max_len ≡ done none
  unfolding fill_str
  fill_str_too_long h = ground arith
