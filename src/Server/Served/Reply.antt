-- ===== src/Server/Served/Reply.antt =====
-- server.c: what the views of a GET or HEAD show, and what its client gets.
use mathlib.Core.Path.{subst}
use cse130_asgn.Base.{
  ℕ, suc, ◌+◌, ◌<◌, true, false, ◌||◌, Bool-cases, inl, inr, List, [], ◌∷◌, ◌++◌, append_assoc,
  some, codes, length, if◌then◌else◌, ◌≡◌, refl, sym, ◌∙◌, arith, length-append,
}
use cse130_asgn.StrView.{create_view}
use cse130_asgn.Server.{
  ReqState, State, Status, ok, created, bad_request, forbidden, not_found, internal_error,
  not_implemented, is_ok, is_get, is_head, is_put,
}
use cse130_asgn.Server.Text.{get_status_name}
use cse130_asgn.Server.Text.Views.{Shows, spans}
use cse130_asgn.Server.Read.Round.{ended}
use cse130_asgn.Server.Response.Build.{response_text, static_body}
use cse130_asgn.Server.Answer.Delivered.{answer}
use cse130_asgn.Server.Served.{Asked, asks_get, asks_head, method_of, word_of, request_line_of}
use cse130_asgn.Server.Served.Line.{uri_of}

-- What the views of a request show: its method, its URI and its id.
pub record Views (r : ReqState) (word path ident : List ℕ) : Type 0 where
  pub method_shown : Shows r.buf r.method_view word
  pub uri_shown : Shows r.buf r.uri path
  pub id_shown : Shows r.buf r.id ident

word-long : (a : Asked) → 0 < length (word_of a)
word-long asks_get = omega arith
word-long asks_head = omega arith

pub asks_file : (a : Asked) → (is_head (method_of a) || is_get (method_of a)) ≡ true
asks_file asks_get = refl
asks_file asks_head = refl

pub no_put : (a : Asked) → is_put (method_of a) ≡ false
no_put asks_get = refl
no_put asks_head = refl

-- The views of a request that stands at the start of its buffer.
pub Views-request :
    (a : Asked) (r : ReqState) (name post id : List ℕ) (s : ℕ)
    → r.buf ≡ ended (request_line_of a (uri_of name)) post
    → s ≡ 0
    → r.method_view ≡ create_view (some s) (some (s + length (word_of a)))
    → r.uri
      ≡ create_view
          (some (s + length (word_of a) + 1))
          (some (s + length (word_of a) + 1 + suc (length name)))
    → Shows r.buf r.id id
    → Views r (word_of a) (uri_of name) id
Views-request a r name post id s hb hs hm hu hid = record {
  method_shown =
      subst (λ v. Shows r.buf v (word_of a)) (sym hm)
        (spans [] (word_of a) (b' ' ∷ (uri_of name ++ b' ' ∷ codes "HTTP/1.1") ++ 13 ∷ 10 ∷ post)
          (hb ∙ simp append_assoc) hs refl (word-long a));
  uri_shown =
      subst (λ v. Shows r.buf v (uri_of name)) (sym hu)
        (spans (word_of a ++ b' ' ∷ []) (uri_of name) (b' ' ∷ (codes "HTTP/1.1" ++ 13 ∷ 10 ∷ post))
          (hb ∙ simp append_assoc) (omega (arith, hs, length-append (word_of a) (b' ' ∷ []))) refl
          (omega arith));
  id_shown = hid;
}

-- What the client gets: the length of the file, and the file for a GET; or the name of the status.
abbrev pub reply : Asked → Status → List ℕ → List ℕ
reply a status contents =
    if is_ok status
    then response_text ok (length contents) (if is_get (method_of a) then contents else [])
    else response_text status (length (get_status_name status) + 1) (static_body status)

ok_only : (s : Status) → is_ok s ≡ true → s ≡ ok
ok_only ok h = refl
ok_only created h = cc
ok_only bad_request h = cc
ok_only forbidden h = cc
ok_only not_found h = cc
ok_only internal_error h = cc
ok_only not_implemented h = cc

pub answer-reply :
    (a : Asked) (st : State) (contents : List ℕ)
    → st.req.method ≡ method_of a
    → answer st contents ≡ reply a st.status contents
answer-reply asks_get st contents asked = elim (Bool-cases (is_ok st.status)) [
  | inl fine ↦ rw (ok_only st.status fine, asked) refl
  | inr other ↦ rw other refl
]
answer-reply asks_head st contents asked = elim (Bool-cases (is_ok st.status)) [
  | inl fine ↦ rw (ok_only st.status fine, asked) refl
  | inr other ↦ rw other refl
]
