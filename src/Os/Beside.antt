-- ===== src/Os/Beside.antt =====
-- Two descriptors at once: an account of one of them that has the other one's in it. What is proved of
-- any account of what goes out then says of both what goes out through each.
use cse130_asgn.Base.{
  ℕ, ◌≤◌, List, [], ◌∷◌, ◌++◌, append_assoc, none, some, length, take, ◌==◌, ==_refl, ==_ne,
  ℕ_discrete, if◌then◌else◌, ◌≡◌, refl, sym, ◌∙◌, arith,
}
use mathlib.Core.Path.{subst}
use cse130_asgn.Os.{Os, Output}

-- Two texts with the same front, seen to be so by its length.
append-split :
    (xs ys : List ℕ) {us vs : List ℕ}
    → length xs ≡ length ys
    → xs ++ us ≡ ys ++ vs
    → (xs ≡ ys) × (us ≡ vs)
append-split [] [] h e = (refl, e)
append-split [] (y ∷ ys) h e = absurd (omega arith)
append-split (x ∷ xs) [] h e = absurd (omega arith)
append-split (x ∷ xs) (y ∷ ys) h e =
    let (a, b) = append-split xs ys (omega arith) (∷-tail e) in (cc, b)
  where
    ∷-tail : {u v : List ℕ} → x ∷ u ≡ y ∷ v → u ≡ v
    ∷-tail q = cc

module _ (os : Os) (out : Output os) (other fd : ℕ)
    (alone : (bs : List ℕ) (w : os.World)
      → out.sent other (os.write fd bs w).1 ≡ out.sent other w) where
  -- What has gone out through `fd`, with all that has gone out through `other` in front of it.
  abbrev both : os.World → List ℕ
  both w = length (out.sent other w) ∷ (out.sent other w ++ out.sent fd w)

  abbrev beside_sent : ℕ → os.World → List ℕ
  beside_sent d w = if d == fd then both w else out.sent d w

  both_same :
      {w w' : os.World} (bs : List ℕ)
      → out.sent other w' ≡ out.sent other w
      → out.sent fd w' ≡ out.sent fd w ++ bs
      → both w' ≡ both w ++ bs
  both_same {w} {w'} bs h e = rw (h, e) (simp append_assoc)

  beside_some :
      (d : ℕ) (bs : List ℕ) (w : os.World) (n : ℕ)
      → (os.write d bs w).0 ≡ some n
      → (n ≤ length bs) × (beside_sent d (os.write d bs w).1 ≡ beside_sent d w ++ take n bs)
  beside_some d bs w n h = elim (ℕ_discrete d fd) [
    | no ne ↦ rw (==_ne d fd ne) (out.write_some d bs w n h)
    | yes e ↦
        subst
          (λ d.
            (os.write d bs w).0 ≡ some n
            → (n ≤ length bs) × (beside_sent d (os.write d bs w).1 ≡ beside_sent d w ++ take n bs))
          (sym e)
          (λ g. rw (==_refl fd) (
            (out.write_some fd bs w n g).0,
            both_same (take n bs) (alone bs w) (out.write_some fd bs w n g).1,
          ))
          h
  ]

  beside_none :
      (d : ℕ) (bs : List ℕ) (w : os.World)
      → (os.write d bs w).0 ≡ none
      → beside_sent d (os.write d bs w).1 ≡ beside_sent d w
  beside_none d bs w h = elim (ℕ_discrete d fd) [
    | no ne ↦ rw (==_ne d fd ne) (out.write_none d bs w h)
    | yes e ↦
        subst
          (λ d. (os.write d bs w).0 ≡ none → beside_sent d (os.write d bs w).1 ≡ beside_sent d w)
          (sym e) (λ g. rw (==_refl fd, alone bs w, out.write_none fd bs w g) refl) h
  ]

  pub beside : Output os
  beside = record {
    sent = λ d w. beside_sent d w;
    write_some = λ d bs w n h. beside_some d bs w n h;
    write_none = λ d bs w h. beside_none d bs w h;
  }

  -- A call that sends nothing through either of them.
  pub beside_same :
      {w w' : os.World}
      → out.sent other w' ≡ out.sent other w
      → out.sent fd w' ≡ out.sent fd w
      → beside.sent fd w' ≡ beside.sent fd w
  unfolding beside
  beside_same h e = rw (==_refl fd, h, e) refl

  -- What the account says of each.
  pub beside-split :
      {w w' : os.World} (us vs : List ℕ)
      → beside.sent fd w' ++ us ≡ beside.sent fd w ++ vs
      → (out.sent other w' ≡ out.sent other w) × (out.sent fd w' ++ us ≡ out.sent fd w ++ vs)
  unfolding beside
  beside-split {w} {w'} us vs e =
      let g : both w' ++ us ≡ both w ++ vs = (rw (==_refl fd) at e) in
      append-split (out.sent other w') (out.sent other w) (same_length g) (
        sym (append_assoc (out.sent other w') (out.sent fd w') us)
        ∙ same_rest g
        ∙ append_assoc (out.sent other w) (out.sent fd w) vs)
    where
      same_length :
          both w' ++ us ≡ both w ++ vs → length (out.sent other w') ≡ length (out.sent other w)
      same_length q = cc

      same_rest :
          both w' ++ us ≡ both w ++ vs
          → (out.sent other w' ++ out.sent fd w') ++ us ≡ (out.sent other w ++ out.sent fd w) ++ vs
      same_rest q = cc
