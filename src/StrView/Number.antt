-- ===== src/StrView/Number.antt =====
-- strview.c: `parse_to_int` of a view of a text with spaces around it.
use native.Mathlib.Nat.{add_comm, div-add-mod, mod-add-mod, mod-eq_of_lt, mul-add-mod_self_left}
use cse130_asgn.Base.{
  ℕ, zero, suc, ◌+◌, ◌-◌, ◌*◌, ◌/◌, ◌%◌, ◌^◌, ◌<◌, true, false, leb, List, [], ◌∷◌, ◌++◌,
  append_assoc, some, done, if◌then◌else◌, length, All, ◌≡◌, ◌≢◌, refl, sym, ap, ◌∙◌, arith,
  length-append, snoc-cases, All-append_left, All-append_right, inl, inr,
}
use cse130_asgn.Memory.{Memory, load}
use cse130_asgn.Memory.Runs.{load-append}
use cse130_asgn.Helpers.{is_numeric, size_mod}
use cse130_asgn.Helpers.Decimal.Value.{
  value_from, value_from-append, value_from-decimal, length-decimal,
  decimal-numeric as decimal-Numeric,
}
use cse130_asgn.Helpers.Decimal.{decimal}
use cse130_asgn.StrView.Trim.{
  spaces, length-spaces, Solid, Solid-Trimmed, Trimmed, padded, around, trim_whitespace-Trimmed,
}
use cse130_asgn.StrView.{create_view, is_negative, minus_one, parse_loop, parse_to_int}

wrap_mul : (a b c : ℕ) → ((a % size_mod) * b + c) % size_mod ≡ (a * b + c) % size_mod
wrap_mul a b c =
    sym (mul-add-mod_self_left size_mod (a / size_mod * b) (a % size_mod * b + c))
    ∙ ap (λ (n : ℕ). n % size_mod) (omega (arith, ap (λ (n : ℕ). n * b) (div-add-mod a size_mod)))

abbrev pub Numeric : List ℕ → Type 0
Numeric = All (λ c. is_numeric c ≡ true)

parse_loop_step :
    (pre : Memory) (init : List ℕ) (c : ℕ) (post : Memory) (s n pow res : ℕ)
    → s ≡ length pre
    → n ≡ length init
    → parse_loop (pre ++ (init ++ c ∷ post)) s (suc n) pow res ≡ (
        if is_numeric c
        then parse_loop
            (pre ++ (init ++ c ∷ post))
            s
            n
            (pow * 10 % size_mod)
            ((res + pow * (c - b'0')) % size_mod)
        else done minus_one)
unfolding parse_loop
parse_loop_step pre init c post s n pow res hs hn = rw read
  where
    read : load (pre ++ (init ++ c ∷ post)) (s + n) ≡ done c
    read =
        rw (← append_assoc pre init (c ∷ post))
          (load-append (pre ++ init) c post (s + n) (omega (arith, length-append pre init)))

Numeric-snoc : (xs : List ℕ) (c : ℕ) → Numeric (xs ++ c ∷ []) → Numeric xs × (is_numeric c ≡ true)
Numeric-snoc xs c h = (
  All-append_left (λ x. is_numeric x ≡ true) xs (c ∷ []) h,
  (All-append_right (λ x. is_numeric x ≡ true) xs (c ∷ []) h).0,
)

-- What one round adds, modulo 2 ^ 64.
round_sum :
    (res pow v d : ℕ)
    → ((res + pow * d) % size_mod + pow * 10 % size_mod * v) % size_mod
      ≡ (res + pow * (v * 10 + d)) % size_mod
round_sum res pow v d =
    mod-add-mod (res + pow * d) size_mod (pow * 10 % size_mod * v)
    ∙ ap (λ (n : ℕ). n % size_mod) (add_comm (res + pow * d) (pow * 10 % size_mod * v))
    ∙ wrap_mul (pow * 10) v (res + pow * d)
    ∙ ap (λ (n : ℕ). n % size_mod) (omega arith)

parse_loop-value :
    (n : ℕ) (pre ds post : Memory) (s pow res : ℕ)
    → s ≡ length pre
    → n ≡ length ds
    → res < size_mod
    → Numeric ds
    → parse_loop (pre ++ (ds ++ post)) s n pow res ≡ done ((res + pow * value_from 0 ds) % size_mod)
parse_loop-value zero pre [] post s pow res hs hn hr hd = unfold parse_loop in ap done (omega arith)
parse_loop-value zero pre (d ∷ ds) post s pow res hs hn hr hd = absurd (omega arith)
parse_loop-value (suc n) pre ds post s pow res hs hn hr hd = elim (snoc-cases ds) [
  | inl e ↦ absurd (omega (arith, ap length e))
  | inr (init, c, e) ↦
      let (numeric, last) = Numeric-snoc init c (rw e at hd) in
      rw (e, append_assoc init (c ∷ []) post)
        (parse_loop_step pre init c post s n pow res hs (omega (arith, len_init init c e))
          ∙ rw last (
              parse_loop-value n pre init (c ∷ post) s (pow * 10 % size_mod)
                ((res + pow * (c - b'0')) % size_mod) hs (omega (arith, len_init init c e))
                (omega arith) numeric
              ∙ ap done (
                  round_sum res pow (value_from 0 init) (c - b'0')
                  ∙ ap (λ (v : ℕ). (res + pow * v) % size_mod)
                      (sym (value_from-append 0 init (c ∷ []))))))
]
  where
    len_init : (init : List ℕ) (c : ℕ) → ds ≡ init ++ c ∷ [] → length ds ≡ suc (length init)
    len_init init c e = ap length e ∙ omega (arith, length-append init (c ∷ []))

-- A byte that is no digit, with digits behind it.
parse_loop_reject :
    (v : List ℕ) (n : ℕ) (pre u : Memory) (c : ℕ) (post : Memory) (s pow res : ℕ)
    → s ≡ length pre
    → n ≡ length u + 1 + length v
    → is_numeric c ≡ false
    → Numeric v
    → parse_loop (pre ++ (u ++ c ∷ (v ++ post))) s n pow res ≡ done minus_one
parse_loop_reject v zero pre u c post s pow res hs hn hc hv = absurd (omega arith)
parse_loop_reject v (suc n) pre u c post s pow res hs hn hc hv = elim (snoc-cases v) [
  | inl e ↦ rw e (parse_loop_step pre u c post s n pow res hs (omega (arith, ap length e)) ∙ rw hc)
  | inr (v', d, e) ↦
      let (numeric, last) = Numeric-snoc v' d (rw e at hv) in
      rw (e, append_assoc v' (d ∷ []) post, ← append_assoc u (c ∷ v') (d ∷ post))
        (parse_loop_step pre (u ++ c ∷ v') d post s n pow res hs
            (omega (arith, len_init v' d e, length-append u (c ∷ v')))
          ∙ rw (last, append_assoc u (c ∷ v') (d ∷ post))
              (parse_loop_reject v' n pre u c (d ∷ post) s _ _ hs (omega (arith, len_init v' d e))
                hc numeric))
]
  where
    len_init : (v' : List ℕ) (d : ℕ) → v ≡ v' ++ d ∷ [] → length v ≡ suc (length v')
    len_init v' d e = ap length e ∙ omega (arith, length-append v' (d ∷ []))

numeric-ne : (c : ℕ) → is_numeric c ≡ true → c ≢ b' '
unfolding is_numeric
numeric-ne c h = ground arith

Numeric-Solid : (ds : List ℕ) → Numeric ds → Solid ds
Numeric-Solid [] h = tt
Numeric-Solid (d ∷ ds) h = (numeric-ne d h.0, Numeric-Solid ds h.1)

-- `parse_to_int` once the spaces are off.
module _ (pre : Memory) (m : ℕ) (text : List ℕ) (n : ℕ) (post : Memory) (s e : ℕ)
    (hs : s ≡ length pre) (he : e ≡ length pre + length (padded m text n)) where
  parse_text :
      Trimmed text
      → parse_to_int (around pre m text n post) (create_view (some s) (some e))
        ≡ parse_loop (around pre m text n post) (s + m) (length text) 1 0
  unfolding parse_to_int
  parse_text t =
      rw
        (trim_whitespace-Trimmed pre m text n post s e (s + m) (s + m + length text) t hs he refl
          refl)
        (rw (not_empty, span) refl)
    where
      span : s + m + length text - (s + m) ≡ length text
      span = omega arith

      not_empty : leb (s + m + length text) (s + m) ≡ false
      not_empty = ground (arith, ap length t.first_eq)

  split : around pre m text n post ≡ (pre ++ spaces m) ++ (text ++ (spaces n ++ post))
  split = simp append_assoc

  at_text : s + m ≡ length (pre ++ spaces m)
  at_text = omega (arith, length-append pre (spaces m), length-spaces m)

  -- A decimal text, with spaces around it or not, gives its value modulo 2 ^ 64.
  pub parse_to_int-value :
      Numeric text
      → text ≢ []
      → parse_to_int (around pre m text n post) (create_view (some s) (some e))
        ≡ done (value_from 0 text % size_mod)
  parse_to_int-value h ne =
      parse_text (Solid-Trimmed text (Numeric-Solid text h) ne)
      ∙ rw split (
          parse_loop-value (length text) (pre ++ spaces m) text (spaces n ++ post) (s + m) 1 0
            at_text refl (omega arith) h
          ∙ ap done (ap (λ (v : ℕ). v % size_mod) (omega arith)))

  -- A text with a byte that is no digit is refused; `u ++ c ∷ v` splits it at the last such byte.
  pub parse_to_int_reject :
      (u : List ℕ) (c : ℕ) (v : List ℕ)
      → Trimmed text
      → text ≡ u ++ c ∷ v
      → is_numeric c ≡ false
      → Numeric v
      → parse_to_int (around pre m text n post) (create_view (some s) (some e)) ≡ done minus_one
  parse_to_int_reject u c v t eq hc hv =
      parse_text t
      ∙ rw (split, eq, append_assoc u (c ∷ v) (spaces n ++ post))
          (parse_loop_reject v _ (pre ++ spaces m) u c (spaces n ++ post) (s + m) 1 0 at_text
            (omega (arith, length-append u (c ∷ v))) hc hv)

module _ (pre : Memory) (i m n : ℕ) (post : Memory) (s e : ℕ) where
  -- The text that `my_utoa` writes of a number below 2 ^ 63, spaces around it or not, is read back as
  -- the number, which is not negative as an ssize_t.
  pub parse_to_int-decimal :
      i < 2 ^ 63
      → s ≡ length pre
      → e ≡ length pre + length (padded m (decimal i) n)
      → (parse_to_int (around pre m (decimal i) n post) (create_view (some s) (some e)) ≡ done i)
        × (is_negative i ≡ false)
  parse_to_int-decimal small hs he =
      let h : i < 2 ^ 64 = omega arith in
      (
        parse_to_int-value pre m (decimal i) n post s e hs he (decimal-Numeric i)
              (λ z. absurd (omega (arith, ap length z, length-decimal i)))
            ∙ rw (value_from-decimal i h) (ap done (mod-eq_of_lt h)),
        ground arith,
      )
