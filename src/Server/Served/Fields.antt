-- ===== src/Server/Served/Fields.antt =====
-- server.c: the rounds of `handle_request` that read the header fields.
use cse130_asgn.Base.{
  ℕ, suc, ◌+◌, ◌^◌, ◌≤◌, ◌<◌, false, Bool-cases, inl, inr, List, [], ◌∷◌, ◌++◌, append_assoc, some,
  codes, length, All, ◌≡◌, refl, ap, ◌∙◌, arith, length-append,
}
use cse130_asgn.StrView.{StringView, create_view, is_negative}
use cse130_asgn.StrView.Trim.{padded, spaces, length-spaces}
use cse130_asgn.Os.{Os}
use cse130_asgn.Log.{Logger}
use cse130_asgn.Server.{State, header_fields}
use cse130_asgn.Server.Text.Views.{Shows, spans}
use cse130_asgn.Server.Parse.Spec.{text_is}
use cse130_asgn.Server.Parse.Field.{number, field_of, parse_hf-field_of}
use cse130_asgn.Server.Read.{set_parsed}
use cse130_asgn.Server.Read.Round.{ended, read_hf_field}
use cse130_asgn.Server.Handle.{run_stage, handle_request}
use cse130_asgn.Server.Answer.Rounds.{handle_request_round}
use cse130_asgn.Server.Served.{Field, IsField, field_text, headers, id_next, id_after}

-- What a header field leaves as it was.
pub record Kept (st st' : State) : Type 0 where
  pub buf : st'.req.buf ≡ st.req.buf
  pub buf_end : st'.req.buf_end ≡ st.req.buf_end
  pub buf_len : st'.req.buf_len ≡ st.req.buf_len
  pub uri : st'.req.uri ≡ st.req.uri
  pub method : st'.req.method ≡ st.req.method
  pub method_view : st'.req.method_view ≡ st.req.method_view
  pub status : st'.status ≡ st.status
  pub stage : st'.stage ≡ st.stage
  pub res : st'.res ≡ st.res

-- The length of the body, the id, and the place that is read up to.
Kept-set :
    (st : State) (n : ℕ) (id : StringView) (p : ℕ)
    → Kept st (record st { req = record st.req { body_len = n; id = id; parsed_end = p } })
Kept-set st n id p = record {
  buf = refl;
  buf_end = refl;
  buf_len = refl;
  uri = refl;
  method = refl;
  method_view = refl;
  status = refl;
  stage = refl;
  res = refl;
}

Kept-refl : (st : State) → Kept st st
Kept-refl st = Kept-set st st.req.body_len st.req.id st.req.parsed_end

Kept-trans : {a b c : State} → Kept a b → Kept b c → Kept a c
Kept-trans k m = record {
  buf = m.buf ∙ k.buf;
  buf_end = m.buf_end ∙ k.buf_end;
  buf_len = m.buf_len ∙ k.buf_len;
  uri = m.uri ∙ k.uri;
  method = m.method ∙ k.method;
  method_view = m.method_view ∙ k.method_view;
  status = m.status ∙ k.status;
  stage = m.stage ∙ k.stage;
  res = m.res ∙ k.res;
}

field_of-Kept :
    (st : State) (f : Field) (v p : ℕ)
    → IsField f
    → Kept st (set_parsed (field_of st f.key v f.value) p)
unfolding field_of
field_of-Kept st f v p ok = elim (Bool-cases (text_is f.key (codes "Content-Length"))) [
  | inl is_length ↦
      let fine : is_negative (number f.value) ≡ false = (rw is_length at ok.not_refused) in
      rw (is_length, fine) (Kept-set st (number f.value) st.req.id p)
  | inr other ↦ elim (Bool-cases (text_is f.key (codes "RequestID"))) [
    | inl is_id ↦
        rw (other, is_id)
          (Kept-set st st.req.body_len (create_view (some v) (some (v + length f.value))) p)
    | inr unknown_key ↦ rw (other, unknown_key) (Kept-set st st.req.body_len st.req.id p)
  ]
]

field_of-id :
    (st : State) (f : Field) (v p : ℕ) (id : List ℕ)
    → IsField f
    → Shows st.req.buf st.req.id id
    → Shows st.req.buf (create_view (some v) (some (v + length f.value))) f.value
    → Shows
        (set_parsed (field_of st f.key v f.value) p).req.buf
        (set_parsed (field_of st f.key v f.value) p).req.id
        (id_next id f)
unfolding field_of
field_of-id st f v p id ok h value = elim (Bool-cases (text_is f.key (codes "Content-Length"))) [
  | inl is_length ↦
      let fine : is_negative (number f.value) ≡ false = (rw is_length at ok.not_refused) in
      rw (is_length, fine) h
  | inr other ↦ elim (Bool-cases (text_is f.key (codes "RequestID"))) [
    | inl is_id ↦ rw (other, is_id) value
    | inr unknown_key ↦ rw (other, unknown_key) h
  ]
]

-- The value of a field, where it stands in the buffer.
value-Shows :
    (mem pre post : List ℕ) (f : Field) (s v : ℕ)
    → IsField f
    → mem ≡ pre ++ ended (field_text f) post
    → s ≡ length pre
    → v ≡ s + length f.key + 1 + f.before
    → Shows mem (create_view (some v) (some (v + length f.value))) f.value
value-Shows mem pre post f s v ok hm hs hv =
    spans (pre ++ (f.key ++ b':' ∷ spaces f.before)) f.value (spaces f.after ++ 13 ∷ 10 ∷ post)
      (hm ∙ simp append_assoc)
      (omega (
        arith,
        length-append pre (f.key ++ b':' ∷ spaces f.before),
        length-append f.key (b':' ∷ spaces f.before),
        length-spaces f.before,
      ))
      refl (omega (arith, ap length ok.trimmed.first_eq))

regroup : (pre line rest : List ℕ) → pre ++ ended line rest ≡ (pre ++ ended line []) ++ rest
regroup pre line rest = simp append_assoc

module _ (os : Os) (socket : ℕ) (l : Logger) (w : os.World) where
  -- The state before the empty line.
  pub record FieldsRead (fs : List Field) (st : State) (post : List ℕ) : Type 0 where
    pub end : State
    pub pre : List ℕ
    pub kept : Kept st end
    pub buf : end.req.buf ≡ pre ++ ended [] post
    pub parsed : end.req.parsed_end ≡ length pre
    pub inside : length pre + 2 ≤ end.req.buf_end
    pub id :
        (id : List ℕ)
        → Shows st.req.buf st.req.id id
        → Shows end.req.buf end.req.id (id_after id fs)
    pub runs :
        (total : ℕ)
        → handle_request os (length fs + total) socket st l w
          ≡ handle_request os total socket end l w

  field_round :
      (total : ℕ) (st : State) (pre post : List ℕ) (f : Field)
      → IsField f
      → st.stage ≡ header_fields
      → st.req.buf ≡ pre ++ ended (field_text f) post
      → st.req.parsed_end ≡ length pre
      → length pre + length (field_text f) + 2 ≤ st.req.buf_end
      → st.req.buf_end + 2 ≤ st.req.buf_len
      → st.req.buf_len < 2 ^ 64
      → handle_request os (suc total) socket st l w
        ≡ handle_request os total socket
            (set_parsed
              (field_of st f.key (st.req.parsed_end + length f.key + 1 + f.before) f.value)
              (st.req.parsed_end + length (field_text f) + 2))
            l
            w
  unfolding run_stage
  field_round total st pre post f ok stage hb hs he room small =
      let e = st.req.parsed_end + length (field_text f) in
      let long = length-append f.key (b':' ∷ padded f.before f.value f.after) in
      let parsed =
        parse_hf-field_of st pre f.key f.before f.value f.after (13 ∷ 10 ∷ post) st.req.parsed_end e
          (hb ∙ ap (λ xs. pre ++ xs) (append_assoc f.key _ (13 ∷ 10 ∷ post))) hs
          (omega (arith, long)) ok.trimmed ok.no_colon in
      handle_request_round os socket st l w total header_fields _ w stage refl (
        read_hf_field os total socket st w pre (field_text f) post hb hs he ok.one_line room small _
          (omega (arith, long)) parsed)

  pub fields_rounds :
      (fs : List Field) (st : State) (pre post : List ℕ)
      → All IsField fs
      → st.stage ≡ header_fields
      → st.req.buf ≡ pre ++ headers fs post
      → st.req.parsed_end ≡ length pre
      → length pre + length (headers fs []) ≤ st.req.buf_end
      → st.req.buf_end + 2 ≤ st.req.buf_len
      → st.req.buf_len < 2 ^ 64
      → FieldsRead fs st post
  fields_rounds [] st pre post ok stage hb hs he room small = record {
    end = st;
    pre = pre;
    kept = Kept-refl st;
    buf = hb;
    parsed = hs;
    inside = omega arith;
    id = λ id h. h;
    runs = λ total. ap (λ (n : ℕ). handle_request os n socket st l w) (omega arith);
  }
  fields_rounds (f ∷ fs) st pre post ok stage hb hs he room small =
      let line = field_text f in
      let long = length-append line (13 ∷ 10 ∷ headers fs []) in
      let pre1 = pre ++ ended line [] in
      let len1 : length pre1 ≡ length pre + length line + 2 =
        omega (arith, length-append pre (ended line []), length-append line (13 ∷ 10 ∷ [])) in
      let st1 =
        set_parsed (field_of st f.key (st.req.parsed_end + length f.key + 1 + f.before) f.value)
          (st.req.parsed_end + length line + 2) in
      let k = field_of-Kept st f _ _ ok.0 in
      let next =
        fields_rounds fs st1 pre1 post ok.1 (k.stage ∙ stage)
          (k.buf ∙ hb ∙ regroup pre line (headers fs post)) (omega (arith, hs, len1))
          (omega (arith, k.buf_end, len1, long)) (omega (arith, k.buf_end, k.buf_len))
          (omega (arith, k.buf_len)) in
      record {
        end = next.end;
        pre = next.pre;
        kept = Kept-trans k next.kept;
        buf = next.buf;
        parsed = next.parsed;
        inside = next.inside;
        id = λ id h. next.id (id_next id f) (
            field_of-id st f (st.req.parsed_end + length f.key + 1 + f.before)
              (st.req.parsed_end + length line + 2) id ok.0 h
              (value-Shows st.req.buf pre (headers fs post) f st.req.parsed_end _ ok.0 hb hs refl));
        runs = λ total.
            ap (λ (n : ℕ). handle_request os n socket st l w) (omega arith)
            ∙ field_round (length fs + total) st pre (headers fs post) f ok.0 stage hb hs
                (omega (arith, long)) room small
            ∙ next.runs total;
      }
