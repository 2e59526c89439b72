-- ===== src/Server/Parse/Line.antt =====
-- server.c: `parse_rl` of a request line of three words.
use cse130_asgn.Base.{
  ℕ, ◌+◌, Bool, true, false, not, List, [], ◌∷◌, ◌++◌, append_assoc, append-nil, Option, none, some,
  Outcome, done, codes, if◌then◌else◌, length, ◌≡◌, ◌≢◌, refl, sym, ap, ◌∙◌, arith, length-append,
  Bool-cases, inl, inr, ◌⊎◌,
}
use cse130_asgn.Helpers.{find_delim}
use cse130_asgn.Helpers.Delim.{find_delim-index_after, index_after_first}
use cse130_asgn.StrView.{create_view, bounds, trim_whitespace}
use cse130_asgn.StrView.Trim.{Trimmed, Solid, Solid-Trimmed, trim_whitespace-Trimmed, length-padded}
use cse130_asgn.Server.Validate.{validate_path, get_method}
use cse130_asgn.Server.{State, Method, get, put, head, bad_request, header_fields, fail, is_unknown}
use cse130_asgn.Server.Parse.{parse_proto, parse_uri, parse_method, parse_rl}
use cse130_asgn.Server.Parse.Spec.{text_is, method_named, is_path, request_of, with_method}
use cse130_asgn.Server.Parse.Words.{named, validate_proto_lem, validate_path_lem, get_method_lem}

if_not : (b : Bool) (x y : State) → (if not b then x else y) ≡ (if b then y else x)
if_not true x y = refl
if_not false x y = refl

if_not_done :
    (b : Bool) (x y : State) {m : Outcome State}
    → m ≡ done y
    → (if not b then done x else m) ≡ done (if b then y else x)
if_not_done true x y h = h
if_not_done false x y h = refl

method_cases :
    (word : List ℕ)
    → (method_named word ≡ none)
      ⊎ ((m : Method) × (method_named word ≡ some m) × (is_unknown m ≡ false))
unfolding method_named
method_cases word = elim (Bool-cases (text_is word (codes "GET"))) [
  | inl a ↦ inr (get, rw a refl, refl)
  | inr a ↦ elim (Bool-cases (text_is word (codes "PUT"))) [
    | inl b ↦ inr (put, rw (a, b) refl, refl)
    | inr b ↦ elim (Bool-cases (text_is word (codes "HEAD"))) [
      | inl c ↦ inr (head, rw (a, b, c) refl, refl)
      | inr c ↦ inl (rw (a, b, c) refl)
    ]
  ]
]

-- A word of a line, and the space behind it.
module _ (mem before word rest post : List ℕ) (s e : ℕ)
    (hm : mem ≡ before ++ (word ++ b' ' ∷ (rest ++ post))) (hs : s ≡ length before) where
  word_end :
      e ≡ s + length word + 1 + length rest
      → Solid word
      → find_delim mem s e (codes " ") ≡ done (some (s + length word + 1))
  word_end he solid =
      rw (hm, ← append_assoc word (b' ' ∷ rest) post)
        (find_delim-index_after b' ' before (word ++ b' ' ∷ rest) post s e hs
            (omega (arith, length-append word (b' ' ∷ rest)))
          ∙ ap done (index_after_first b' ' word rest s solid))

  trim_word :
      Trimmed word
      → trim_whitespace mem (create_view (some s) (some (s + length word + 1)))
        ≡ done (create_view (some s) (some (s + length word)))
  trim_word t =
      rw (hm, ← append_assoc word (b' ' ∷ []) (rest ++ post))
        (trim_whitespace-Trimmed before 0 word 1 (rest ++ post) s (s + length word + 1) s
          (s + length word) t hs (omega (arith, length-padded 0 word 1)) (omega arith) refl)

-- The last word.
parse_proto_lem :
    (st : State) (before proto post : List ℕ) (s e : ℕ)
    → st.req.buf ≡ before ++ (proto ++ post)
    → s ≡ length before
    → e ≡ s + length proto
    → Trimmed proto
    → parse_proto st s e
      ≡ done (
          if text_is proto (codes "HTTP/1.1")
          then record st { stage = header_fields }
          else fail st bad_request)
unfolding parse_proto
parse_proto_lem st before proto post s e hm hs he t =
    let trimmed : trim_whitespace (before ++ (proto ++ post)) (create_view (some s) (some e))
        ≡ done (create_view (some s) (some e)) =
      ap (λ word. trim_whitespace (before ++ (word ++ post)) (create_view (some s) (some e)))
        (sym (append-nil proto))
      ∙ trim_whitespace-Trimmed before 0 proto 0 post s e s e t hs
          (omega (arith, length-padded 0 proto 0)) (omega arith) he in
    rw (hm, trimmed, validate_proto_lem before proto post s e hs he)
      (ap done (if_not (text_is proto (codes "HTTP/1.1")) _ _))

-- The state after the last two words.
of_uri : State → List ℕ → List ℕ → ℕ → State
of_uri st uri proto s =
    let st1 = record st {
      req = record st.req { uri = create_view (some s) (some (s + length uri)) };
    } in
    if is_path uri
    then (if text_is proto (codes "HTTP/1.1")
        then record st1 { stage = header_fields }
        else fail st1 bad_request)
    else fail st1 bad_request

-- The last two words.
module _ (before uri proto post : List ℕ) (s e : ℕ) (hs : s ≡ length before)
    (he : e ≡ s + length uri + 1 + length proto) (solid : Solid uri) (ne : uri ≢ [])
    (t : Trimmed proto) where
  parse_uri_lem :
      (st : State)
      → st.req.buf ≡ before ++ (uri ++ b' ' ∷ (proto ++ post))
      → parse_uri st s e ≡ done (of_uri st uri proto s)
  unfolding parse_uri of_uri
  parse_uri_lem st hm =
      rw
        (
          word_end st.req.buf before uri proto post s e hm hs he solid,
          trim_word st.req.buf before uri proto post s e hm hs (Solid-Trimmed uri solid ne),
          valid,
        )
        (if_not_done (is_path uri) _ _ last)
    where
      st1 : State
      st1 = record st { req = record st.req { uri = create_view (some s) (some (s + length uri)) } }

      valid :
          validate_path st.req.buf (create_view (some s) (some (s + length uri)))
          ≡ done (is_path uri)
      valid =
          rw hm (validate_path_lem before uri (b' ' ∷ (proto ++ post)) s (s + length uri) hs refl)

      last :
          parse_proto st1 (s + length uri + 1) e
          ≡ done (
              if text_is proto (codes "HTTP/1.1")
              then record st1 { stage = header_fields }
              else fail st1 bad_request)
      last =
          parse_proto_lem st1 (before ++ (uri ++ b' ' ∷ [])) proto post (s + length uri + 1) e
            (hm ∙ simp append_assoc)
            (omega (arith, length-append before (uri ++ b' ' ∷ []), length-append uri (b' ' ∷ [])))
            (omega arith) t

module _ (pre meth uri proto post : List ℕ) (s e : ℕ) (hs : s ≡ length pre)
    (he : e ≡ s + length meth + 1 + (length uri + 1 + length proto)) where
  -- A line of three words, none of them empty and without spaces in them, with single spaces between them, means what
  -- `request_of` says: the method is looked up first, then the path is checked, then the protocol.
  -- The views of the method and of the path span those words. (The last word may have spaces inside.)
  pub parse_rl-request_of :
      (st : State)
      → st.req.buf ≡ pre ++ (meth ++ b' ' ∷ (uri ++ b' ' ∷ (proto ++ post)))
      → Solid meth
      → meth ≢ []
      → Solid uri
      → uri ≢ []
      → Trimmed proto
      → parse_rl st (create_view (some s) (some e))
        ≡ done (request_of st s meth uri proto (method_named meth))
  unfolding parse_rl parse_method bounds named request_of of_uri
  parse_rl-request_of st hm hmeth nmeth huri nuri t = elim (method_cases meth) [
    | inl other ↦ rw (first, view, found none other, other) refl
    | inr (m, eq, known) ↦
        rw (first, view, found (some m) eq, eq, known)
          (parse_uri_lem (pre ++ (meth ++ b' ' ∷ [])) uri proto post (s + length meth + 1) e
            (omega (arith, length-append pre (meth ++ b' ' ∷ []), length-append meth (b' ' ∷ [])))
            (omega arith) huri nuri t (with_method st s meth uri proto m) (hm ∙ simp append_assoc))
  ]
    where
      hm' : st.req.buf ≡ pre ++ (meth ++ b' ' ∷ ((uri ++ b' ' ∷ proto) ++ post))
      hm' = hm ∙ simp append_assoc

      first : find_delim st.req.buf s e (codes " ") ≡ done (some (s + length meth + 1))
      first =
          word_end st.req.buf pre meth (uri ++ b' ' ∷ proto) post s e hm' hs
            (omega (arith, length-append uri (b' ' ∷ proto))) hmeth

      view :
          trim_whitespace st.req.buf (create_view (some s) (some (s + length meth + 1)))
          ≡ done (create_view (some s) (some (s + length meth)))
      view =
          trim_word st.req.buf pre meth (uri ++ b' ' ∷ proto) post s e hm' hs
            (Solid-Trimmed meth hmeth nmeth)

      found :
          (r : Option Method)
          → method_named meth ≡ r
          → get_method st.req.buf (create_view (some s) (some (s + length meth))) st.status
            ≡ done (named meth r st.status)
      found r eq =
          rw hm (
            get_method_lem pre meth (b' ' ∷ (uri ++ b' ' ∷ (proto ++ post))) s (s + length meth) hs
              refl st.status)
          ∙ ap (λ o. done (named meth o st.status)) eq
