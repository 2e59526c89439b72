-- ===== src/Server/Body.antt =====
-- server.c: `read_request_body`, which moves the body of a PUT from the socket to the file.
pub mod Store
use cse130_asgn.Base.{
  ℕ, zero, suc, ◌+◌, Bool, true, false, not, [], ◌∷◌, none, some, Outcome, done, fault, spin, ◌>>=◌,
  ltb, ◌==◌, if◌then◌else◌, drop,
}
use cse130_asgn.Memory.{Memory, store, between}
use cse130_asgn.Helpers.{buf_left, sub_size}
use cse130_asgn.Os.{Os}
use cse130_asgn.Server.{bad_request, internal_error, build_header, finished, State, fail, read_len}
use cse130_asgn.Server.Transfer.{ReadRet, read_ok, read_again, read_end, read_error, my_read}
use cse130_asgn.Server.Files.{create_filename}

-- `while(tpe != req->buf_end)`, over the request's memory from `tpe` on.
pub drain_from : Memory → ℕ → ℕ → Memory → ℕ → Outcome (Memory × ℕ)
drain_from [] tpe buf_end scratch p = if tpe == buf_end then done (scratch, p) else fault
drain_from (c ∷ cs) tpe buf_end scratch p =
    let next = (do s' ← store scratch p c; drain_from cs (tpe + 1) buf_end s' (p + 1)) in
    if tpe == buf_end then done (scratch, p) else next

-- `space > body_len ? body_len : space`, less what is there already, in size_t.
abbrev pub body_read_len : ℕ → ℕ → ℕ → ℕ
body_read_len space body_len have = sub_size (if ltb body_len space then body_len else space) have

abbrev pub set_body_len : State → ℕ → State
set_body_len st n = record st { req = record st.req { body_len = n } }

module _ (os : Os) where
  open os use {World, write}

  -- The loop that writes the scratch buffer to the file. A `write` of no bytes is made again.
  pub flush_body : ℕ → ℕ → Memory → ℕ → ℕ → State → World → Outcome (Bool × State × World)
  flush_body zero fd scratch s e st w = spin
  flush_body (suc fuel) fd scratch s e st w =
      let (n, w') = write fd (between scratch s e) w in
      let wrote = (elim n as (λ _. Outcome (Bool × State × World)) [
        | none ↦ done (false, fail st internal_error, w')
        | some k ↦
            flush_body fuel fd scratch (s + k) e (set_body_len st (sub_size st.req.body_len k)) w'
      ]) in
      if s == e then done (true, st, w) else wrote

  -- From the test of the length on.
  store_body : ℕ → Memory → ℕ → State → World → Outcome (Bool × State × World)
  store_body fuel scratch scratch_end st w =
      let flushed = (elim st.req.put_fd as (λ _. Outcome (Bool × State × World)) [
        | none ↦ fault
        | some fd ↦ do
          (whole, st', w') ← flush_body fuel fd scratch 0 scratch_end st w
          let st1 = record st' { req = record st'.req { parsed_end = st'.req.buf_end } }
          let st2 = if st1.req.body_len == 0 then record st1 { stage = build_header } else st1
          done (true, if whole then st2 else st', w')
      ]) in
      if ltb st.req.body_len scratch_end then done (true, fail st bad_request, w) else flushed

  -- What the read of the body returned.
  body_read : ℕ → ReadRet → Memory → ℕ → State → World → Outcome (Bool × State × World)
  body_read fuel read_ok scratch e st w = store_body fuel scratch e st w
  body_read fuel read_again scratch e st w = done (false, st, w)
  body_read fuel read_end scratch e st w = done (true, record st { stage = finished }, w)
  body_read fuel read_error scratch e st w = done (true, fail st internal_error, w)

  -- From the test of `read_len` on; nothing is read if it is 0.
  fill_scratch : ℕ → ℕ → ℕ → Memory → ℕ → State → World → Outcome (Bool × State × World)
  fill_scratch fuel fd len scratch e st w =
      let filled = (do
        (ret, scratch', e', w') ← my_read os fd scratch e len w
        body_read fuel ret scratch' e' st w') in
      if ltb 0 len then filled else store_body fuel scratch e st w

  -- The file is opened the first time.
  with_file : State → World → Outcome (Bool × State × World)
  with_file st w = elim st.req.put_fd [
    | none ↦ create_filename os st w
    | some fd ↦ done (true, st, w)
  ]

  unfoldable pub read_request_body : ℕ → ℕ → State → World → Outcome (Bool × State × World)
  unfolding with_file fill_scratch body_read store_body
  read_request_body fuel fd st w = do
    (scratch, e) ←
        drain_from (drop st.req.parsed_end st.req.buf) st.req.parsed_end st.req.buf_end
          (os.local_array read_len w) 0
    let space = buf_left 0 e read_len
    let len = body_read_len space st.req.body_len e
    let go = (do
      (open_, st1, w1) ← with_file st w
      let read = fill_scratch fuel fd len scratch e st1 w1
      if not open_ then done (true, record st1 { stage = build_header }, w1) else read)
    if space == 0 then done (true, fail st bad_request, w) else go
