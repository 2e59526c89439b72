-- ===== src/StrView/Trim.antt =====
-- strview.c: `trim_whitespace` of a text with spaces around it.
pub mod Blank
use mathlib.Core.Path.{subst}
use cse130_asgn.Base.{
  ℕ, zero, suc, ◌+◌, ◌≤◌, ◌<◌, List, [], ◌∷◌, ◌++◌, append_assoc, some, Outcome, done, fault, ◌>>=◌,
  length, drop, replicate, ltb, ◌==◌, if◌then◌else◌, ◌≡◌, ◌≢◌, refl, sym, ap, ◌∙◌, arith,
  drop-append, length-append, length-replicate, ==_ne, All, All-append_right, snoc-cases, inl, inr,
  snoc-cases,
}
use cse130_asgn.Memory.{Memory, load}
use cse130_asgn.Memory.Runs.{load-append}
use cse130_asgn.StrView.{create_view, trim_start, trim_end, trim_whitespace}

abbrev pub spaces : ℕ → List ℕ
spaces n = replicate n b' '

pub trim_start-spaces :
    (n : ℕ) (c : ℕ) (rest : Memory) (s : ℕ)
    → c ≢ b' '
    → trim_start (spaces n ++ c ∷ rest) s ≡ done (s + n)
unfolding trim_start
trim_start-spaces zero c rest s h = ground arith
trim_start-spaces (suc n) c rest s h = trim_start-spaces n c rest (s + 1) h ∙ ground arith

trim_end_step :
    (mem : Memory) (c : ℕ) (post : Memory) (e : ℕ)
    → e ≡ length mem
    → trim_end (mem ++ c ∷ post) (suc e)
      ≡ (if c == b' ' then trim_end (mem ++ c ∷ post) e else done (suc e))
unfolding trim_end
trim_end_step mem c post e h = rw (load-append mem c post e h)

trim_end_stop :
    (mem : Memory) (c : ℕ) (post : Memory) (e : ℕ)
    → e ≡ length mem + 1
    → c ≢ b' '
    → trim_end (mem ++ c ∷ post) e ≡ done e
trim_end_stop mem c post zero h n = absurd (omega arith)
trim_end_stop mem c post (suc e) h n =
    trim_end_step mem c post e (omega arith) ∙ rw (==_ne c b' ' n) refl

-- Spaces in front of the end are passed over.
pub trim_end-spaces :
    (n : ℕ) (mem post : Memory) (e : ℕ)
    → e ≡ length mem + n
    → trim_end (mem ++ (spaces n ++ post)) e ≡ trim_end (mem ++ (spaces n ++ post)) (length mem)
trim_end-spaces zero mem post e h = ap (trim_end (mem ++ post)) (omega arith)
trim_end-spaces (suc n) mem post e h = rw (← append_assoc mem (b' ' ∷ []) (spaces n ++ post)) (
    trim_end-spaces n (mem ++ b' ' ∷ []) post e (omega (arith, length-append mem (b' ' ∷ [])))
    ∙ rw (append_assoc mem (b' ' ∷ []) (spaces n ++ post)) (
        ap (trim_end (mem ++ b' ' ∷ (spaces n ++ post)))
          (length-append mem (b' ' ∷ []) ∙ omega arith)
        ∙ trim_end_step mem b' ' (spaces n ++ post) (length mem) refl))

-- At the end of a text that does not end in a space the loop stops at once.
pub trim_end_at_last :
    (mem before : Memory) (c : ℕ) (post : Memory)
    → mem ≡ before ++ c ∷ []
    → c ≢ b' '
    → trim_end (mem ++ post) (length mem) ≡ done (length mem)
trim_end_at_last mem before c post e n =
    rw (e, append_assoc before (c ∷ []) post)
      (trim_end_stop before c post (length (before ++ c ∷ [])) (length-append before (c ∷ [])) n)

-- A text with a byte that is no space at either end.
pub record Trimmed (text : List ℕ) : Type 0 where
  pub first : ℕ
  pub behind : List ℕ
  pub before : List ℕ
  pub last : ℕ
  pub first_eq : text ≡ first ∷ behind
  pub last_eq : text ≡ before ++ last ∷ []
  pub first_ne : first ≢ b' '
  pub last_ne : last ≢ b' '

-- Such a text is one that is not empty and holds no space, for one.
abbrev pub Solid : List ℕ → Type 0
Solid = All (λ c. c ≢ b' ')

pub Solid-Trimmed : (text : List ℕ) → Solid text → text ≢ [] → Trimmed text
Solid-Trimmed [] h n = absurd (n refl)
Solid-Trimmed (x ∷ xs) h n = elim (snoc-cases (x ∷ xs)) [
  | inl e ↦ absurd (n e)
  | inr (ys, y, e) ↦ record {
    first = x;
    behind = xs;
    before = ys;
    last = y;
    first_eq = refl;
    last_eq = e;
    first_ne = h.0;
    last_ne = (All-append_right (λ c. c ≢ b' ') ys (y ∷ []) (subst Solid e h)).0;
  }
]

pub length-spaces : (n : ℕ) → length (spaces n) ≡ n
length-spaces n = length-replicate {A = ℕ} n b' '

abbrev pub padded : ℕ → List ℕ → ℕ → List ℕ
padded m text n = spaces m ++ (text ++ spaces n)

pub length-padded : (m : ℕ) (text : List ℕ) (n : ℕ) → length (padded m text n) ≡ m + length text + n
length-padded m text n = omega (
  arith,
  length-append (spaces m) (text ++ spaces n),
  length-append text (spaces n),
  length-spaces m,
  length-spaces n,
)

module _ (pre : Memory) (m : ℕ) (text : List ℕ) (n : ℕ) (post : Memory) where
  abbrev pub around : Memory
  around = pre ++ (padded m text n ++ post)

  abbrev front : Memory
  front = pre ++ (spaces m ++ text)

  length-front : length front ≡ length pre + m + length text
  length-front =
      omega (
        arith,
        length-append pre (spaces m ++ text),
        length-append (spaces m) text,
        length-spaces m,
      )

  around-front : around ≡ front ++ (spaces n ++ post)
  around-front = simp append_assoc

  start_at :
      (t : Trimmed text) (s : ℕ) → s ≡ length pre → trim_start (drop s around) s ≡ done (s + m)
  start_at t s h =
      rw
        (
          drop-append pre (padded m text n ++ post) s h,
          append_assoc (spaces m) (text ++ spaces n) post,
          t.first_eq,
        )
        (trim_start-spaces m t.first ((t.behind ++ spaces n) ++ post) s t.first_ne)

  front_last : (t : Trimmed text) → front ≡ (pre ++ (spaces m ++ t.before)) ++ t.last ∷ []
  front_last t = rw t.last_eq (simp append_assoc)

  front_stop :
      (t : Trimmed text)
      → trim_end (front ++ (spaces n ++ post)) (length front) ≡ done (length front)
  front_stop t =
      trim_end_at_last front (pre ++ (spaces m ++ t.before)) t.last (spaces n ++ post)
        (front_last t) t.last_ne

  end_at :
      (t : Trimmed text) (e : ℕ)
      → e ≡ length pre + length (padded m text n)
      → trim_end around e ≡ done (length front)
  end_at t e h = rw around-front (
      trim_end-spaces n front post e (omega (arith, length-padded m text n, length-front))
      ∙ front_stop t)

  -- Spaces on both sides of a text are taken off, and no other byte.
  pub trim_whitespace-Trimmed :
      (s e s' e' : ℕ)
      → Trimmed text
      → s ≡ length pre
      → e ≡ length pre + length (padded m text n)
      → s' ≡ s + m
      → e' ≡ s' + length text
      → trim_whitespace around (create_view (some s) (some e))
        ≡ done (create_view (some s') (some e'))
  unfolding trim_whitespace
  trim_whitespace-Trimmed s e s' e' t hs he hs' he' = ground (
    arith,
    start_at t s hs,
    end_at t e he,
    length-padded m text n,
    length-front,
    ap length t.first_eq,
  )
