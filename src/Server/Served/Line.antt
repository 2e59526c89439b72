-- ===== src/Server/Served/Line.antt =====
-- server.c: the round of `handle_request` that reads the request line of a GET or HEAD.
use cse130_asgn.Base.{
  ℕ, suc, ◌+◌, ◌≤◌, ◌<◌, true, Bool-cases, inl, inr, List, [], ◌∷◌, ◌++◌, append_assoc, some, done,
  codes, length, All, All-append, ◌≡◌, ◌≢◌, refl, ap, ◌∙◌, arith, length-append,
}
use cse130_asgn.Memory.{Memory}
use cse130_asgn.Memory.Filled.{Filled, blit-Fills}
use cse130_asgn.Helpers.Delim.Pair.{Free}
use cse130_asgn.StrView.{create_view, is_empty_view}
use cse130_asgn.StrView.Trim.{Solid, Solid-Trimmed}
use cse130_asgn.Os.{Os}
use cse130_asgn.Log.{Logger}
use cse130_asgn.Server.{State, ok, header_fields, request_line, max_header}
use cse130_asgn.Server.Validate.{validate_path_char}
use cse130_asgn.Server.Parse.{parse_rl}
use cse130_asgn.Server.Parse.Spec.{is_path, all_of, method_named, request_of, with_uri}
use cse130_asgn.Server.Parse.Line.{parse_rl-request_of}
use cse130_asgn.Server.Read.{set_parsed, set_buf}
use cse130_asgn.Server.Read.Round.{ended, line_found, read_rl_there, read_rl_first}
use cse130_asgn.Server.Handle.{run_stage, handle_request}
use cse130_asgn.Server.Answer.Rounds.{handle_request_round}
use cse130_asgn.Server.Served.{
  Asked, asks_get, asks_head, method_of, word_of, Field, headers, request_line_of, request_text,
}

headers-append : (fs : List Field) (post : List ℕ) → headers fs [] ++ post ≡ headers fs post
headers-append [] post = refl
headers-append (f ∷ fs) post = simp (append_assoc, headers-append fs post)

-- A byte of a path is no control character and no space.
path_char_high : (c : ℕ) → validate_path_char c ≡ true → 32 < c
unfolding validate_path_char
path_char_high c h = ground arith

all_of-high : (xs : List ℕ) → all_of validate_path_char xs ≡ true → All (λ c. 32 < c) xs
all_of-high [] h = tt
all_of-high (c ∷ xs) h = elim (Bool-cases (validate_path_char c)) [
  | inl good ↦ (path_char_high c good, all_of-high xs (rw good at h))
  | inr bad ↦ absurd (cc (rw bad at h))
]

-- Bytes above the space.
high-ne : (d : ℕ) (xs : List ℕ) → d ≤ 32 → All (λ c. 32 < c) xs → All (λ c. c ≢ d) xs
high-ne d [] le h = tt
high-ne d (c ∷ xs) le h = ((λ e. absurd (omega (arith, h.0))), high-ne d xs le h.1)

-- The URI of a file's name.
abbrev pub uri_of : List ℕ → List ℕ
uri_of name = b'/' ∷ name

-- A name that the server takes.
pub record IsName (name : List ℕ) : Type 0 where
  pub some_name : name ≢ []
  pub valid : all_of validate_path_char name ≡ true

name-high : {name : List ℕ} → IsName name → All (λ c. 32 < c) (uri_of name)
name-high n = (omega arith, all_of-high _ n.valid)

pub name-no_nul : {name : List ℕ} → IsName name → All (λ c. c ≢ 0) name
name-no_nul n = high-ne 0 _ (omega arith) (all_of-high _ n.valid)

name-is_path : (name : List ℕ) → IsName name → is_path (uri_of name) ≡ true
name-is_path [] n = absurd (n.some_name refl)
name-is_path (c ∷ cs) n = n.valid

proto-Free : Free 13 (b' ' ∷ codes "HTTP/1.1")
proto-Free = omega arith

word-Solid : (a : Asked) → Solid (word_of a)
word-Solid asks_get = omega arith
word-Solid asks_head = omega arith

word-some : (a : Asked) → word_of a ≢ []
word-some asks_get = λ e. cc
word-some asks_head = λ e. cc

method_named-word : (a : Asked) → method_named (word_of a) ≡ some (method_of a)
unfolding method_named
method_named-word asks_get = refl
method_named-word asks_head = refl

proto-Solid : Solid (codes "HTTP/1.1")
proto-Solid = omega arith

word-Free : (a : Asked) → Free 13 (word_of a ++ b' ' ∷ [])
word-Free asks_get = omega arith
word-Free asks_head = omega arith

path-Free : {name : List ℕ} → IsName name → Free 13 (uri_of name ++ b' ' ∷ codes "HTTP/1.1")
path-Free {name} n =
    All-append (λ c. c ≢ 13) (uri_of name) (b' ' ∷ codes "HTTP/1.1")
      (high-ne 13 (uri_of name) (omega arith) (name-high n)) proto-Free

pub line-Free :
    (a : Asked) {name : List ℕ} → IsName name → Free 13 (request_line_of a (uri_of name))
line-Free asks_get {name} n =
    All-append (λ c. c ≢ 13) (word_of asks_get ++ b' ' ∷ [])
      (uri_of name ++ b' ' ∷ codes "HTTP/1.1") (word-Free asks_get) (path-Free n)
line-Free asks_head {name} n =
    All-append (λ c. c ≢ 13) (word_of asks_head ++ b' ' ∷ [])
      (uri_of name ++ b' ' ∷ codes "HTTP/1.1") (word-Free asks_head) (path-Free n)

-- What `parse_rl` makes of the line, and the state behind the line.
abbrev named : Asked → State → List ℕ → State
named a st name =
    record (with_uri st st.req.parsed_end (word_of a) (uri_of name) (codes "HTTP/1.1")
      (method_of a)) { stage = header_fields }

abbrev pub line_read : Asked → State → List ℕ → State
line_read a st name =
    set_parsed (named a st name) (st.req.parsed_end + length (request_line_of a (uri_of name)) + 2)

line_parsed :
    (a : Asked) (st : State) (name rest : List ℕ)
    → IsName name
    → st.req.buf ≡ ended (request_line_of a (uri_of name)) rest
    → st.req.parsed_end ≡ 0
    → parse_rl st (
        create_view
          (some st.req.parsed_end)
          (some (st.req.parsed_end + length (request_line_of a (uri_of name)))))
      ≡ done (named a st name)
unfolding request_of
line_parsed a st name rest n hb start =
    parse_rl-request_of [] (word_of a) (uri_of name) (codes "HTTP/1.1") (13 ∷ 10 ∷ rest)
      st.req.parsed_end _ start
      (omega (
        arith,
        length-append (word_of a) (b' ' ∷ (uri_of name ++ b' ' ∷ codes "HTTP/1.1")),
        length-append (uri_of name) (b' ' ∷ codes "HTTP/1.1"),
      ))
      st (hb ∙ simp append_assoc) (word-Solid a) (word-some a)
      (high-ne 32 (uri_of name) (omega arith) (name-high n)) (λ e. cc)
      (Solid-Trimmed (codes "HTTP/1.1") proto-Solid (λ e. cc))
    ∙ rw (method_named-word a, name-is_path name n) refl

-- A connection that waits for its request.
pub record Waiting (st : State) : Type 0 where
  pub stage : st.stage ≡ request_line
  pub status : st.status ≡ ok
  pub start : st.req.parsed_end ≡ 0
  pub filled : Filled max_header [] st.req.buf st.req.buf_end
  pub size : st.req.buf_len ≡ max_header
  pub no_id : is_empty_view st.req.id ≡ true

module _ (os : Os) (socket : ℕ) (l : Logger) (w w0 : os.World) (st : State) (a : Asked)
    (name : List ℕ) (fs : List Field) (n : IsName name) (v : Waiting st) where
  -- The state behind the line, with the fields still to be read.
  pub record LineRead : Type 0 where
    pub mem : Memory
    pub end : ℕ
    pub slack : List ℕ
    pub buf : mem ≡ ended (request_line_of a (uri_of name)) (headers fs slack)
    pub end_eq : end ≡ length (request_text a (uri_of name) fs [])
    pub runs :
        (total : ℕ)
        → handle_request os (suc (suc total)) socket st l w
          ≡ handle_request os (suc total) socket (line_read a (set_buf st mem end) name) l w0

  -- The whole request comes in one `read`.
  pub line_round :
      length (request_text a (uri_of name) fs []) + 2 ≤ max_header
      → os.read socket max_header w ≡ (some (request_text a (uri_of name) fs []), w0)
      → LineRead
  unfolding run_stage
  line_round fits reads =
      let line = request_line_of a (uri_of name) in
      let g = blit-Fills (request_text a (uri_of name) fs []) v.filled (omega arith) in
      let rest = headers fs g.filled.slack in
      let buf : g.mem ≡ ended line rest =
        g.filled.mem_eq
        ∙ append_assoc line (13 ∷ 10 ∷ headers fs []) g.filled.slack
        ∙ ap (λ xs. ended line xs) (headers-append fs g.filled.slack) in
      let inside : 0 + length line + 2 ≤ g.end =
        omega (arith, g.filled.end_eq, length-append line (13 ∷ 10 ∷ headers fs [])) in
      let st1 = set_buf st g.mem g.end in
      record {
        mem = g.mem;
        end = g.end;
        slack = g.filled.slack;
        buf = buf;
        end_eq = g.filled.end_eq;
        runs = λ total.
            handle_request_round os socket st l w (suc total) request_line (line_read a st1 name) w0
              v.stage refl
              (read_rl_first os total socket st w w0 g.mem g.end (omega (arith, v.size)) v.start
                  (v.filled.end_eq) (request_text a (uri_of name) fs []) _ (omega (arith, v.size))
                  (λ e.
                    absurd
                      (omega (arith, ap length e, length-append line (13 ∷ 10 ∷ headers fs []))))
                  (rw v.size reads) g.runs
                  (line_found os total socket st1 w0 [] line rest buf v.start inside
                    (line-Free a n))
                ∙ read_rl_there os total socket st1 w0 [] line rest buf v.start inside
                    (line-Free a n) (named a st1 name) (line_parsed a st1 name rest n buf v.start));
      }
