-- ===== src/Server/Served.antt =====
-- server.c: a GET or HEAD from its first byte to the last byte of its answer. This file says what the
-- text of a request is; the children are about the rounds of `handle_request` that read it.
pub mod Apart
pub mod Fields
pub mod Line
pub mod Logged
pub mod Reply
pub mod Whole
use cse130_asgn.Base.{
  ℕ, Bool, true, false, ◌&&◌, List, [], ◌∷◌, ◌++◌, codes, if◌then◌else◌, All, ◌≡◌, ◌≢◌,
}
use cse130_asgn.Helpers.Delim.Pair.{Free}
use cse130_asgn.StrView.{is_negative}
use cse130_asgn.StrView.Trim.{Trimmed, padded}
use cse130_asgn.Server.{Method, get, head}
use cse130_asgn.Server.Parse.Spec.{text_is}
use cse130_asgn.Server.Parse.Field.{number}
use cse130_asgn.Server.Read.Round.{ended}

-- A header field, with so many spaces before and after its value.
pub record Field : Type 0 where
  pub key : List ℕ
  pub before : ℕ
  pub value : List ℕ
  pub after : ℕ

abbrev pub field_text : Field → List ℕ
field_text f = f.key ++ b':' ∷ padded f.before f.value f.after

-- A field in one line, with a key without spaces, and no Content-Length that is refused.
pub record IsField (f : Field) : Type 0 where
  pub some_key : f.key ≢ []
  pub no_space : All (λ c. c ≢ b' ') f.key
  pub no_colon : All (λ c. c ≢ b':') f.key
  pub one_line : Free 13 (field_text f)
  pub trimmed : Trimmed f.value
  pub not_refused : (text_is f.key (codes "Content-Length") && is_negative (number f.value)) ≡ false

-- The lines of the fields, the empty line, and what comes behind it.
abbrev pub headers : List Field → List ℕ → List ℕ
headers [] post = ended [] post
headers (f ∷ fs) post = ended (field_text f) (headers fs post)

-- The methods that ask for a file.
pub data Asked : Type 0 where
  asks_get asks_head : Asked

abbrev pub method_of : Asked → Method
method_of asks_get = get
method_of asks_head = head

abbrev pub word_of : Asked → List ℕ
word_of asks_get = codes "GET"
word_of asks_head = codes "HEAD"

abbrev pub request_line_of : Asked → List ℕ → List ℕ
request_line_of a uri = word_of a ++ b' ' ∷ (uri ++ b' ' ∷ codes "HTTP/1.1")

abbrev pub request_text : Asked → List ℕ → List Field → List ℕ → List ℕ
request_text a uri fs post = ended (request_line_of a uri) (headers fs post)

-- The id of a request whose id was `id` before a field, and before the fields.
abbrev pub id_next : List ℕ → Field → List ℕ
id_next id f =
    if text_is f.key (codes "Content-Length")
    then id
    else if text_is f.key (codes "RequestID")
    then f.value
    else id

abbrev pub id_after : List ℕ → List Field → List ℕ
id_after id [] = id
id_after id (f ∷ fs) = id_after (id_next id f) fs
