-- ===== src/Server/Parse/Spec.antt =====
-- server.c: the meaning of a request line, as a function of its three words.
use cse130_asgn.Base.{
  ℕ, ◌+◌, Bool, true, false, List, [], ◌∷◌, Option, none, some, codes, leb, ◌==◌, if◌then◌else◌,
  length,
}
use cse130_asgn.StrView.{StringView, create_view}
use cse130_asgn.Server.{
  Method, get, put, head, unknown, Status, not_implemented, bad_request, header_fields, State, fail,
}
use cse130_asgn.Server.Validate.{validate_path_char, validate_method_char}

abbrev pub text_is : List ℕ → List ℕ → Bool
text_is [] [] = true
text_is [] (b ∷ bs) = false
text_is (a ∷ xs) [] = false
text_is (a ∷ xs) (b ∷ bs) = if a == b then text_is xs bs else false

abbrev pub all_of : (ℕ → Bool) → List ℕ → Bool
all_of test [] = true
all_of test (c ∷ cs) = if test c then all_of test cs else false

unfoldable pub method_named : List ℕ → Option Method
method_named text =
    if text_is text (codes "GET")
    then some get
    else if text_is text (codes "PUT")
    then some put
    else if text_is text (codes "HEAD")
    then some head
    else none

-- A slash, and one letter, digit, dot, dash or underscore at least.
abbrev pub is_path : List ℕ → Bool
is_path [] = false
is_path (c ∷ []) = false
is_path (c ∷ d ∷ cs) = if c == b'/' then all_of validate_path_char (d ∷ cs) else false

-- Of a method that is not supported: up to eight letters.
unfoldable pub no_method_status : List ℕ → Status
no_method_status text =
    if leb (length text) 8
    then (if all_of validate_method_char text then not_implemented else bad_request)
    else bad_request

-- The state after a line `meth uri proto` that starts at `s`.
module _ (st : State) (s : ℕ) (meth uri proto : List ℕ) where
  abbrev pub method_at : StringView
  method_at = create_view (some s) (some (s + length meth))

  abbrev pub uri_at : StringView
  uri_at = create_view (some (s + length meth + 1)) (some (s + length meth + 1 + length uri))

  abbrev pub with_method : Method → State
  with_method m = record st { req = record st.req { method_view = method_at; method = m } }

  abbrev pub with_uri : Method → State
  with_uri m = record st {
    req = record st.req { method_view = method_at; method = m; uri = uri_at };
  }

  unfoldable pub request_of : Option Method → State
  request_of none = fail (with_method unknown) (no_method_status meth)
  request_of (some m) =
      if is_path uri
      then (if text_is proto (codes "HTTP/1.1")
          then record (with_uri m) { stage = header_fields }
          else fail (with_uri m) bad_request)
      else fail (with_uri m) bad_request
