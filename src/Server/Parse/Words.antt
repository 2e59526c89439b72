-- ===== src/Server/Parse/Words.antt =====
-- server.c: the checks of a word of the request line.
use cse130_asgn.Base.{
  ℕ, ◌+◌, Bool, true, false, List, [], ◌∷◌, ◌++◌, Option, none, some, Outcome, done, ◌>>=◌, codes,
  ltb, leb, if◌then◌else◌, length, drop, ◌≡◌, ◌≢◌, refl, sym, ap, arith, append_assoc, drop-append,
  length-append, Bool-cases, inl, inr,
}
use cse130_asgn.Memory.{Memory, load}
use cse130_asgn.Memory.Runs.{load-append}
use cse130_asgn.StrView.{create_view, bounds, compare_vs}
use cse130_asgn.StrView.Compare.{compare_text, compare_vs-compare_text}
use cse130_asgn.Server.{Method, unknown, Status}
use cse130_asgn.Server.Validate.{
  is_same, validate_proto, all_from, validate_path, validate_path_char, validate_method,
  validate_method_char, find_method, get_method, supported_methods, unknown_method,
}
use cse130_asgn.Server.Parse.Spec.{text_is, all_of, method_named, is_path, no_method_status}

pub is_same-text_is : (xs ys : List ℕ) → is_same (compare_text xs ys) ≡ text_is xs ys
unfolding compare_text
is_same-text_is [] [] = refl
is_same-text_is [] (y ∷ ys) = refl
is_same-text_is (x ∷ xs) [] = refl
is_same-text_is (x ∷ xs) (y ∷ ys) = ground (arith, is_same-text_is xs ys)

text_is-length : (xs ys : List ℕ) → text_is xs ys ≡ true → length xs ≡ length ys
text_is-length [] [] h = refl
text_is-length [] (y ∷ ys) h = cc
text_is-length (x ∷ xs) [] h = cc
text_is-length (x ∷ xs) (y ∷ ys) h = ground (arith, text_is-length xs ys)

all_from-all_of :
    (test : ℕ → Bool) (xs post : List ℕ) (s e : ℕ)
    → e ≡ s + length xs
    → all_from test (xs ++ post) s e ≡ done (all_of test xs)
unfolding all_from
all_from-all_of test [] [] s e h = ground arith
all_from-all_of test [] (x ∷ post) s e h = ground arith
all_from-all_of test (x ∷ xs) post s e h = ground (arith, all_from-all_of test xs post (s + 1) e)

text_is-short : (xs ys : List ℕ) → length xs ≢ length ys → text_is xs ys ≡ false
text_is-short xs ys n = elim (Bool-cases (text_is xs ys)) [
  | inl equal ↦ absurd (n (text_is-length xs ys equal))
  | inr other ↦ other
]

path_of :
    (pre word post : List ℕ) (s e : ℕ)
    → s ≡ length pre
    → e ≡ s + length word
    → validate_path (pre ++ (word ++ post)) (create_view (some s) (some e)) ≡ done (is_path word)
unfolding validate_path bounds
path_of pre [] post s e hs he = ground arith
path_of pre (c ∷ []) post s e hs he = ground arith
path_of pre (c ∷ d ∷ cs) post s e hs he =
    let at_c : load (pre ++ (c ∷ d ∷ (cs ++ post))) s ≡ done c =
      load-append pre c (d ∷ (cs ++ post)) s hs in
    let rest : drop (s + 1) (pre ++ (c ∷ d ∷ (cs ++ post))) ≡ d ∷ (cs ++ post) =
      rw (← append_assoc pre (c ∷ []) (d ∷ (cs ++ post))) (
        drop-append (pre ++ c ∷ []) (d ∷ (cs ++ post)) (s + 1)
          (omega (arith, length-append pre (c ∷ [])))) in
    let all : all_from validate_path_char (d ∷ (cs ++ post)) (s + 1) e
        ≡ done (all_of validate_path_char (d ∷ cs)) =
      all_from-all_of validate_path_char (d ∷ cs) post (s + 1) e (omega arith) in
    rw (at_c, rest, all) (ground arith)

-- The method and the status.
unfoldable pub named : List ℕ → Option Method → Status → Method × Status
named word none status = (unknown, no_method_status word)
named word (some m) status = (m, status)

-- The loop over the table of the names.
named_in : List (List ℕ × Method) → List ℕ → Option Method
named_in [] word = none
named_in ((name, m) ∷ ms) word = if text_is word name then some m else named_in ms word

pick-if :
    (b : Bool) (m : Method) (rest : Option Method)
    → (if b then done (some m) else done rest) ≡ done (if b then some m else rest)
pick-if true m rest = refl
pick-if false m rest = refl

-- A view of a word.
module _ (pre word post : List ℕ) (s e : ℕ) (hs : s ≡ length pre) (he : e ≡ s + length word) where
  abbrev mem : Memory
  mem = pre ++ (word ++ post)

  compare_word :
      (str : List ℕ)
      → (compare_vs mem (create_view (some s) (some e)) str >>= λ r. done (is_same r))
        ≡ done (text_is word str)
  compare_word str =
      rw (compare_vs-compare_text pre word post str s e hs he) (ap done (is_same-text_is word str))

  pub validate_proto_lem :
      validate_proto mem (create_view (some s) (some e)) ≡ done (text_is word (codes "HTTP/1.1"))
  unfolding validate_proto bounds
  validate_proto_lem = elim (Bool-cases (ltb e (s + 8))) [
    | inl short ↦
        rw short
          (ap done (sym (text_is-short word (codes "HTTP/1.1") (λ q. absurd (ground (arith, he))))))
    | inr long ↦ rw long (compare_word (codes "HTTP/1.1"))
  ]

  pub validate_method_lem :
      validate_method mem (create_view (some s) (some e))
      ≡ done (if leb (length word) 8 then all_of validate_method_char word else false)
  unfolding validate_method bounds
  validate_method_lem =
      rw
        (drop-append pre (word ++ post) s hs, all_from-all_of validate_method_char word post s e he)
        (ground arith)

  pub validate_path_lem : validate_path mem (create_view (some s) (some e)) ≡ done (is_path word)
  validate_path_lem = path_of pre word post s e hs he

  find_method-named_in :
      (ms : List (List ℕ × Method))
      → find_method mem (create_view (some s) (some e)) ms ≡ done (named_in ms word)
  unfolding find_method named_in
  find_method-named_in [] = refl
  find_method-named_in ((name, m) ∷ ms) =
      rw
        (
          compare_vs-compare_text pre word post name s e hs he,
          is_same-text_is word name,
          find_method-named_in ms,
        )
        (pick-if (text_is word name) m (named_in ms word))

  pub get_method_lem :
      (status : Status)
      → get_method mem (create_view (some s) (some e)) status
        ≡ done (named word (method_named word) status)
  unfolding get_method method_named named_in named no_method_status unknown_method
  get_method_lem status =
      rw (find_method-named_in supported_methods) (if_found (named_in supported_methods word))
    where
      if_found :
          (found : Option Method)
          → (elim found as (λ _. Outcome (Method × Status)) [
            | some m ↦ done (m, status)
            | none ↦ do
              valid ← validate_method mem (create_view (some s) (some e))
              done (unknown_method valid)
          ])
            ≡ done (named word found status)
      if_found none = rw validate_method_lem (ground arith)
      if_found (some m) = refl
