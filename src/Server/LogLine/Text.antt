-- ===== src/Server/LogLine/Text.antt =====
-- server.c: the line of `send_log`, as a text.
use cse130_asgn.Base.{
  ℕ, ◌+◌, ◌-◌, ◌^◌, ◌≤◌, ◌<◌, Bool-cases, List, [], ◌∷◌, ◌++◌, append_assoc, Outcome, ◌>>=◌, codes,
  length, true, false, ◌≡◌, refl, ap, arith, length-append, inl, inr,
}
use mathlib.Core.Path.{subst}
use cse130_asgn.Memory.{Memory}
use cse130_asgn.Memory.Filled.{Filled, Fills, Filled-empty, length-slack}
use cse130_asgn.Helpers.{my_utoa, sub_size}
use cse130_asgn.Helpers.Decimal.{decimal}
use cse130_asgn.StrView.{StringView, is_empty_view}
use cse130_asgn.Server.{
  ReqState, Status, ok, created, bad_request, forbidden, not_found, internal_error, not_implemented,
  status_code, max_log,
}
use cse130_asgn.Server.Text.{add_seperator}
use cse130_asgn.Server.Text.Runs.{copy_to-Fills, my_utoa-Fills}
use cse130_asgn.Server.Text.Views.{Shows, nothing, spans, copy_view_to-Fills}
use cse130_asgn.Server.LogLine.{log_line, put_id}

-- The last field: a zero where the request has no id.
abbrev pub id_text : List ℕ → List ℕ
id_text [] = codes "0"
id_text (c ∷ cs) = c ∷ cs

abbrev pub line_text : List ℕ → List ℕ → Status → List ℕ → List ℕ
line_text meth uri status id =
    meth
    ++ (codes ","
        ++ (uri
            ++ (codes ","
                ++ (decimal (status_code status) ++ (codes "," ++ (id_text id ++ codes "\n"))))))

module _ {size : ℕ} where
  next_Fills :
      {t u : List ℕ} {m : Outcome (Memory × ℕ)} (k : Memory × ℕ → Outcome (Memory × ℕ))
      → Fills size t m
      → ((mem : Memory) (p : ℕ) → Filled size t mem p → Fills size u (k (mem, p)))
      → Fills size u (m >>= k)
  next_Fills k f next =
      let g = next f.mem f.end f.filled in
      record { mem = g.mem; end = g.end; runs = rw f.runs g.runs; filled = g.filled }

  -- The room behind the pointer is counted in size_t.
  room_left :
      {t : List ℕ} {mem : Memory} {p : ℕ}
      → Filled size t mem p
      → size < 2 ^ 64
      → sub_size size p ≡ size - length t
  room_left f small = omega (arith, f.end_eq, length-slack f)

  separated :
      {t : List ℕ} {mem : Memory} {p : ℕ}
      → Filled size t mem p
      → size < 2 ^ 64
      → length t < size
      → Fills size (t ++ codes ",") (add_seperator mem p size)
  unfolding add_seperator
  separated {p} f small room =
      copy_to-Fills (codes ",") (sub_size size p) f (omega (arith, room_left f small)) (omega arith)

  utoa_then :
      {t u : List ℕ} {mem : Memory} {p : ℕ} (i : ℕ) (k : Memory × ℕ → Outcome (Memory × ℕ))
      → i < 2 ^ 64
      → Filled size t mem p
      → length t + length (decimal i) ≤ size
      → ((mem' : Memory)
          → Filled size (t ++ decimal i) mem' (p + length (decimal i))
          → Fills size u (k (mem', length (decimal i))))
      → Fills size u (my_utoa i mem p >>= k)
  utoa_then i k small f fit next =
      let (mem', ran, filled) = my_utoa-Fills i small f fit in
      let g = next mem' filled in
      record { mem = g.mem; end = g.end; runs = rw ran g.runs; filled = g.filled }

code_small : (status : Status) → status_code status < 2 ^ 64
code_small ok = omega arith
code_small created = omega arith
code_small bad_request = omega arith
code_small forbidden = omega arith
code_small not_found = omega arith
code_small internal_error = omega arith
code_small not_implemented = omega arith

Shows-nil :
    {mem : Memory} {v : StringView} {bs : List ℕ}
    → Shows mem v bs
    → is_empty_view v ≡ true
    → bs ≡ []
unfolding is_empty_view
Shows-nil (nothing e) h = refl
Shows-nil (spans pre bs post hm hs he some_bytes) h = absurd (ground arith)

Shows-id_text :
    {mem : Memory} {v : StringView} {bs : List ℕ}
    → Shows mem v bs
    → is_empty_view v ≡ false
    → id_text bs ≡ bs
Shows-id_text (nothing e) h = cc
Shows-id_text (spans pre [] post hm hs he some_bytes) h = absurd (omega arith)
Shows-id_text (spans pre (b ∷ bs) post hm hs he some_bytes) h = refl

id_Fills :
    (req : ReqState) {id t : List ℕ} {mem : Memory} {p : ℕ}
    → Shows req.buf req.id id
    → Filled max_log t mem p
    → length t + length (id_text id) ≤ max_log
    → Fills max_log (t ++ id_text id) (put_id req mem p)
unfolding put_id
id_Fills req {id} {t} {mem} {p} shows f fit = elim (Bool-cases (is_empty_view req.id)) [
  | inl empty ↦
      let e : id ≡ [] = Shows-nil shows empty in
      let fit' : length t + 1 ≤ max_log = rw e at fit in
      rw (empty, e)
        (copy_to-Fills (codes "0") (sub_size max_log p) f (omega (arith, room_left f (omega arith)))
          fit')
  | inr full ↦
      let e : id_text id ≡ id = Shows-id_text shows full in
      rw (full, e) (copy_view_to-Fills shows f (omega (arith, ap length e)))
]

-- With the views of the method, of the path and of the id showing those texts, and a line that fits,
-- `log_line` stays in its buffer and writes the line.
pub log_line-Fills :
    (req : ReqState) (status : Status) (meth uri id : List ℕ) (mem : Memory)
    → Shows req.buf req.method_view meth
    → Shows req.buf req.uri uri
    → Shows req.buf req.id id
    → length mem ≡ max_log
    → length (line_text meth uri status id) ≤ max_log
    → Fills max_log (line_text meth uri status id) (log_line req status mem)
unfolding log_line
log_line-Fills req status meth uri id mem hm hu hid size fit =
    subst (λ t. Fills max_log t (log_line req status mem)) (simp append_assoc)
      (next_Fills _ (copy_view_to-Fills hm start (omega (arith, long))) λ m1 p1 f1.
        next_Fills _ (separated f1 small (omega (arith, long))) λ m2 p2 f2.
          next_Fills _ (copy_view_to-Fills hu f2 (omega (arith, long, l2))) λ m3 p3 f3.
            next_Fills _ (separated f3 small (omega (arith, long, l3))) λ m4 p4 f4.
              utoa_then (status_code status) _ (code_small status) f4 (omega (arith, long, l4))
                λ m5 f5. next_Fills _ (separated f5 small (omega (arith, long, l5))) λ m6 p6 f6.
                  next_Fills _ (id_Fills req hid f6 (omega (arith, long, l6))) λ m7 p7 f7.
                    copy_to-Fills (codes "\n") (sub_size max_log p7) f7
                      (omega (arith, room_left f7 small, long, l7)) (omega (arith, long, l7)))
  where
    small : max_log < 2 ^ 64
    small = omega arith

    start : Filled max_log [] mem 0
    start = subst (λ n. Filled n [] mem 0) size (Filled-empty mem)

    code : List ℕ
    code = decimal (status_code status)

    l2 : length (meth ++ codes ",") ≡ length meth + 1
    l2 = length-append meth (codes ",")

    l3 : length ((meth ++ codes ",") ++ uri) ≡ length meth + 1 + length uri
    l3 = omega (arith, length-append (meth ++ codes ",") uri, l2)

    l4 : length (((meth ++ codes ",") ++ uri) ++ codes ",") ≡ length meth + length uri + 2
    l4 = omega (arith, length-append ((meth ++ codes ",") ++ uri) (codes ","), l3)

    l5 :
        length ((((meth ++ codes ",") ++ uri) ++ codes ",") ++ code)
        ≡ length meth + length uri + 2 + length code
    l5 = omega (arith, length-append (((meth ++ codes ",") ++ uri) ++ codes ",") code, l4)

    l6 :
        length (((((meth ++ codes ",") ++ uri) ++ codes ",") ++ code) ++ codes ",")
        ≡ length meth + length uri + 3 + length code
    l6 =
        omega (
          arith,
          length-append ((((meth ++ codes ",") ++ uri) ++ codes ",") ++ code) (codes ","),
          l5,
        )

    l7 :
        length ((((((meth ++ codes ",") ++ uri) ++ codes ",") ++ code) ++ codes ",") ++ id_text id)
        ≡ length meth + length uri + 3 + length code + length (id_text id)
    l7 = omega (
      arith,
      length-append (((((meth ++ codes ",") ++ uri) ++ codes ",") ++ code) ++ codes ",")
          (id_text id),
      l6,
    )

    long : length meth + length uri + 3 + length code + length (id_text id) + 1 ≤ max_log
    long = omega (
      arith,
      fit,
      length-append meth (
          codes "," ++ (uri ++ (codes "," ++ (code ++ (codes "," ++ (id_text id ++ codes "\n")))))),
      length-append uri (codes "," ++ (code ++ (codes "," ++ (id_text id ++ codes "\n")))),
      length-append code (codes "," ++ (id_text id ++ codes "\n")),
      length-append (id_text id) (codes "\n"),
    )
