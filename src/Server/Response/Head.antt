-- ===== src/Server/Response/Head.antt =====
-- server.c: the steps of `build_header`, and the texts that they append.
use cse130_asgn.Base.{
  ℕ, ◌+◌, ◌^◌, ◌≤◌, ◌<◌, true, ◌&&◌, List, [], ◌++◌, codes, length, ltb, leb, ◌≡◌, refl, arith,
  length-append,
}
use cse130_asgn.Memory.{Memory}
use cse130_asgn.Memory.Filled.{Filled, Fills, store-Filled, Filled-end}
use cse130_asgn.Helpers.Decimal.{decimal}
use cse130_asgn.Helpers.Decimal.Value.{length-decimal}
use cse130_asgn.Server.{Status, ok, status_code, ReqState, ResState, max_header}
use cse130_asgn.Server.Text.{copy_protocol, copy_code, copy_msg, get_status_name}
use cse130_asgn.Server.Text.Runs.{copy_to-Fills, my_utoa-Fills}
use cse130_asgn.Server.Response.Holds.{
  Holds, Yields, fits_room, fill_then, append_then, done_Yields,
}
use cse130_asgn.Server.Response.{build_response_request_line, put_content_length, add_static_body}

-- Every status code has three digits, and every name is short.
three_digits : (s : Status) → length (decimal (status_code s)) ≡ 3
unfolding decimal
three_digits ok = refl
three_digits _ = refl

code_small : (s : Status) → (100 ≤ status_code s) × (status_code s ≤ 999)
code_small ok = omega arith
code_small _ = omega arith

pub length-get_status_name : (s : Status) → length (get_status_name s) ≤ 21
unfolding get_status_name
length-get_status_name ok = omega arith
length-get_status_name _ = omega arith

-- The code and a space.
copy_code-Fills :
    (s : Status) {size : ℕ} {text : List ℕ} {mem : Memory} {p : ℕ} (len : ℕ)
    → Filled size text mem p
    → 4 < len
    → length text + 4 ≤ size
    → Fills size ((text ++ decimal (status_code s)) ++ codes " ") (copy_code s mem p len)
unfolding copy_code
copy_code-Fills s {size} {text} {mem} {p} len f h fit =
    let (m1, run1, f1) = my_utoa-Fills (status_code s) small f (omega (arith, three_digits s)) in
    let f2 = Filled-end {q = p + 3} f1 (omega (arith, three_digits s)) in
    let (m2, run2, f3) =
      store-Filled b' ' f2
        (omega (arith, length-append text (decimal (status_code s)), three_digits s)) in
    record {
      mem = m2;
      end = length (decimal (status_code s)) + p + 1;
      runs = rw (passes, run1, run2) refl;
      filled = Filled-end f3 (omega (arith, three_digits s));
    }
  where
    small : status_code s < 2 ^ 64
    small = omega (arith, code_small s)

    passes : (ltb 4 len && (leb 100 (status_code s) && leb (status_code s) 999)) ≡ true
    passes = ground (arith, code_small s)

abbrev pub status_line : Status → List ℕ
status_line s =
    ((codes "HTTP/1.1 " ++ (decimal (status_code s)) ++ codes " ") ++ get_status_name s)
    ++ codes "\r\n"

-- `text` and then the field with the length of the body, and the empty line.
abbrev pub with_length : List ℕ → ℕ → List ℕ
with_length text size = ((text ++ codes "Content-Length: ") ++ decimal size) ++ codes "\r\n\r\n"

pub length-status_line : (s : Status) → length (status_line s) ≤ 36
length-status_line s = omega (
  arith,
  length-append (decimal (status_code s)) (codes " "),
  length-append (decimal (status_code s) ++ codes " ") (get_status_name s),
  length-append ((decimal (status_code s) ++ codes " ") ++ get_status_name s) (codes "\r\n"),
  three_digits s,
  length-get_status_name s,
)

pub length-with_length :
    (text : List ℕ) (size : ℕ) → length (with_length text size) ≤ length text + 40
length-with_length text size = omega (
  arith,
  length-append text (codes "Content-Length: "),
  length-append (text ++ codes "Content-Length: ") (decimal size),
  length-append ((text ++ codes "Content-Length: ") ++ decimal size) (codes "\r\n\r\n"),
  length-decimal size,
)

module _ (s : Status) {before res : ResState} (small : before.buf_len ≡ max_header) where
  pub build_response_request_line-Yields :
      Holds before [] res → Yields before (status_line s) (build_response_request_line res s)
  unfolding build_response_request_line copy_protocol copy_msg
  build_response_request_line-Yields h =
      append_then (codes "HTTP/1.1 ") _ h (omega arith) (omega arith) λ m1 e1 h1.
        fill_then _ h1
          (copy_code-Fills s _ h1.filled (omega (arith, fits_room h1 (omega arith) (omega arith)))
            (omega arith))
          λ m2 e2 h2.
            append_then (get_status_name s) _ h2 (omega arith)
              (omega (
                arith,
                length-append (decimal (status_code s)) (codes " "),
                three_digits s,
                length-get_status_name s,
              ))
              λ m3 e3 h3.
                append_then (codes "\r\n") _ h3 (omega arith)
                  (omega (
                    arith,
                    length-append (decimal (status_code s)) (codes " "),
                    length-append (decimal (status_code s) ++ codes " ") (get_status_name s),
                    three_digits s,
                    length-get_status_name s,
                  ))
                  λ m4 e4 h4. done_Yields h4

  pub add_static_body-Yields :
      {text : List ℕ}
      → Holds before text res
      → length text ≤ 100
      → Yields before ((text ++ get_status_name s) ++ codes "\n") (add_static_body res s)
  unfolding add_static_body
  add_static_body-Yields {text} h few =
      append_then (get_status_name s) _ h (omega arith) (omega (arith, length-get_status_name s))
        λ m1 e1 h1.
          append_then (codes "\n") _ h1 (omega arith)
            (omega (arith, length-append text (get_status_name s), length-get_status_name s))
            λ m2 e2 h2. done_Yields h2

module _ (req : ReqState) {before res : ResState} (small : before.buf_len ≡ max_header)
    (small_req : req.buf_len ≡ max_header) where
  pub put_content_length-Yields :
      {text : List ℕ} (size : ℕ)
      → size < 2 ^ 64
      → Holds before text res
      → length text ≤ 50
      → Yields before (with_length text size) (put_content_length req res size)
  unfolding put_content_length
  put_content_length-Yields {text} size lt h few =
      fill_then _ h
        (copy_to-Fills (codes "Content-Length: ") _ h.filled (omega (arith, h.same_len))
          (omega arith))
        λ m1 e1 h1.
          let (m2, run, f2) =
            my_utoa-Fills size lt h1.filled
              (omega (arith, length-append text (codes "Content-Length: "), length-decimal size)) in
          rw run (
            fill_then _ h1
              (copy_to-Fills (codes "\r\n\r\n") _ f2 (omega (arith, f2.end_eq, longer text size))
                (omega (arith, longer text size)))
              λ m3 e3 h3. done_Yields h3)
    where
      longer :
          (t : List ℕ) (n : ℕ)
          → length ((t ++ codes "Content-Length: ") ++ decimal n) ≤ length t + 36
      longer t n = omega (
        arith,
        length-append t (codes "Content-Length: "),
        length-append (t ++ codes "Content-Length: ") (decimal n),
        length-decimal n,
      )
