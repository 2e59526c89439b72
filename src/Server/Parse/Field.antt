-- ===== src/Server/Parse/Field.antt =====
-- server.c: `parse_hf` of a header field, and what each key does.
use cse130_asgn.Base.{
  ℕ, ◌+◌, ◌-◌, ◌%◌, Bool, true, false, ltb, List, [], ◌∷◌, ◌++◌, append_assoc, some, done, codes,
  if◌then◌else◌, length, ◌≡◌, ◌≢◌, refl, ap, ◌∙◌, arith, length-append, Bool-cases, inl, inr, ◌⊎◌,
  All,
}
use cse130_asgn.Memory.{Memory}
use cse130_asgn.Helpers.{find_delim, is_numeric, size_mod}
use cse130_asgn.Helpers.Decimal.Value.{value_from}
use cse130_asgn.Helpers.Delim.{find_delim-index_after, index_after_first}
use cse130_asgn.StrView.{
  create_view, bounds, compare_vs, trim_whitespace, parse_to_int, minus_one, is_negative,
}
use cse130_asgn.StrView.Trim.{Trimmed, trim_whitespace-Trimmed, padded, around}
use cse130_asgn.StrView.Number.{Numeric, parse_to_int-value, parse_to_int_reject}
use cse130_asgn.Server.{State, bad_request, fail}
use cse130_asgn.Server.Parse.{parse_value, parse_hf}
use cse130_asgn.Server.Parse.Spec.{text_is, all_of}
use cse130_asgn.StrView.Compare.{compare_text, compare_vs-compare_text}
use cse130_asgn.Server.Parse.Words.{is_same-text_is}

-- What `parse_to_int` gives for a text.
abbrev pub number : List ℕ → ℕ
number text = if all_of is_numeric text then value_from 0 text % size_mod else minus_one

-- Digits only, or a last byte that is no digit.
last_other :
    (xs : List ℕ)
    → ((all_of is_numeric xs ≡ true) × Numeric xs)
      ⊎ ((all_of is_numeric xs ≡ false)
          × ((u : List ℕ) × (c : ℕ) × (v : List ℕ) × (xs ≡ u ++ c ∷ v)
              × (is_numeric c ≡ false)
              × Numeric v))
last_other [] = inl (refl, tt)
last_other (x ∷ xs) = elim (last_other xs) [
  | inl (all, digits) ↦ elim (Bool-cases (is_numeric x)) [
    | inl digit ↦ inl (rw digit all, (digit, digits))
    | inr other ↦ inr (rw other refl, ([], x, xs, refl, other, digits))
  ]
  | inr (some_other, (u, c, v, e, other, digits)) ↦
      inr (one_other (is_numeric x) some_other, (x ∷ u, c, v, ap (◌∷◌ x) e, other, digits))
]
  where
    one_other : (b : Bool) {r : Bool} → r ≡ false → (if b then r else false) ≡ false
    one_other true h = h
    one_other false h = refl

-- The state after a field; the value starts at `v` with `m` spaces and a text.
unfoldable pub field_of : State → List ℕ → ℕ → List ℕ → State
field_of st key v text =
    if text_is key (codes "Content-Length")
    then (if is_negative (number text)
        then fail st bad_request
        else record st { req = record st.req { body_len = number text } })
    else if text_is key (codes "RequestID")
    then record st { req = record st.req { id = create_view (some v) (some (v + length text)) } }
    else st

module _ (pre : Memory) (m : ℕ) (text : List ℕ) (n : ℕ) (post : Memory) (s e : ℕ)
    (hs : s ≡ length pre) (he : e ≡ length pre + length (padded m text n)) (t : Trimmed text) where
  pub parse_to_int-number :
      parse_to_int (around pre m text n post) (create_view (some s) (some e)) ≡ done (number text)
  parse_to_int-number = elim (last_other text) [
    | inl (all, digits) ↦ rw all (
        parse_to_int-value pre m text n post s e hs he digits
          (λ z. absurd (omega (arith, ap length z, ap length t.first_eq))))
    | inr (some_other, (u, c, v, eq, other, digits)) ↦
        rw some_other (parse_to_int_reject pre m text n post s e hs he u c v t eq other digits)
  ]

module _ (st : State) (pre key : List ℕ) (m : ℕ) (text : List ℕ) (n : ℕ) (post : List ℕ) (s e : ℕ)
    (hm : st.req.buf ≡ pre ++ (key ++ b':' ∷ (padded m text n ++ post))) (hs : s ≡ length pre)
    (he : e ≡ s + length key + 1 + length (padded m text n)) (t : Trimmed text) where
  value_around : st.req.buf ≡ around (pre ++ (key ++ b':' ∷ [])) m text n post
  value_around = hm ∙ simp append_assoc

  value_at : s + length key + 1 ≡ length (pre ++ (key ++ b':' ∷ []))
  value_at = omega (arith, length-append pre (key ++ b':' ∷ []), length-append key (b':' ∷ []))

  value_end : e ≡ length (pre ++ (key ++ b':' ∷ [])) + length (padded m text n)
  value_end = omega (arith, value_at)

  found_colon :
      All (λ c. c ≢ b':') key
      → find_delim st.req.buf s e (codes ":") ≡ done (some (s + length key + 1))
  found_colon free =
      rw (hm, ← append_assoc key (b':' ∷ padded m text n) post)
        (find_delim-index_after b':' pre (key ++ b':' ∷ padded m text n) post s e hs
            (omega (arith, length-append key (b':' ∷ padded m text n)))
          ∙ ap done (index_after_first b':' key (padded m text n) s free))

  key_is :
      (str : List ℕ)
      → compare_vs st.req.buf (create_view (some s) (some (s + length key))) str
        ≡ done (compare_text key str)
  key_is str = rw hm (
      compare_vs-compare_text pre key (b':' ∷ (padded m text n ++ post)) str s (s + length key) hs
        refl)

  value_number :
      parse_to_int st.req.buf (create_view (some (s + length key + 1)) (some e))
      ≡ done (number text)
  value_number = rw value_around (
      parse_to_int-number (pre ++ (key ++ b':' ∷ [])) m text n post (s + length key + 1) e value_at
        value_end t)

  value_text :
      trim_whitespace st.req.buf (create_view (some (s + length key + 1)) (some e))
      ≡ done (
          create_view (some (s + length key + 1 + m)) (some (s + length key + 1 + m + length text)))
  value_text = rw value_around (
      trim_whitespace-Trimmed (pre ++ (key ++ b':' ∷ [])) m text n post (s + length key + 1) e _ _ t
        value_at value_end refl refl)

  -- A field `key: value`, the key without a colon and the value with spaces around it or not: the
  -- value of Content-Length is the length of the body if it is a number below 2 ^ 63, and refused
  -- else; the value of RequestID is the id; a field with any other key, an empty one or one with spaces
  -- in it too, is taken and changes nothing.
  pub parse_hf-field_of :
      All (λ c. c ≢ b':') key
      → parse_hf st (create_view (some s) (some e))
        ≡ done (field_of st key (s + length key + 1 + m) text)
  unfolding parse_hf parse_value bounds field_of
  parse_hf-field_of free =
      let same_end : s + length key + 1 - 1 ≡ s + length key = omega arith in
      let key_there : ltb (s + length key + 1) (s + 1) ≡ false = ground arith in
      rw
        (
          found_colon free,
          key_there,
          same_end,
          key_is (codes "Content-Length"),
          is_same-text_is key (codes "Content-Length"),
        )
        (elim (Bool-cases (text_is key (codes "Content-Length"))) [
          | inl is_length ↦ rw (is_length, value_number) refl
          | inr other ↦
              rw (other, key_is (codes "RequestID"), is_same-text_is key (codes "RequestID"))
                (elim (Bool-cases (text_is key (codes "RequestID"))) [
                  | inl is_id ↦ rw (is_id, value_text) refl
                  | inr unknown_key ↦ rw unknown_key refl
                ])
        ])
