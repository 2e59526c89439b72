-- ===== src/Server/Read/Round.antt =====
-- server.c: `read_rl` and `read_hf`, on a line that stands in the request buffer.
use cse130_asgn.Base.{
  ℕ, suc, ◌+◌, ◌-◌, ◌^◌, ◌≤◌, ◌<◌, Bool, true, false, ◌||◌, ltb, leb, List, [], ◌∷◌, ◌++◌, Option,
  none, some, done, codes, length, ◌≡◌, ◌≢◌, refl, ap, ◌∙◌, arith,
}
use cse130_asgn.Memory.{Memory, blit}
use cse130_asgn.Helpers.{find_delim}
use cse130_asgn.Helpers.Room.{buf_left_lem}
use cse130_asgn.Helpers.Delim.Pair.{Free, find_delim_first, find_delim_absent}
use cse130_asgn.StrView.{create_view, is_empty_view}
use cse130_asgn.Os.{Os}
use cse130_asgn.Server.{State, is_get, is_head, is_put, build_header}
use cse130_asgn.Server.Transfer.{my_read}
use cse130_asgn.Server.Parse.{parse_rl, parse_hf}
use cse130_asgn.Server.Files.{open_get_file}
use cse130_asgn.Server.Read.{
  set_buf, after_read, set_parsed, rl_loop, finish_rl, read_rl, request_room, hf_loop,
  end_of_headers, finish_hf, read_hf,
}

-- A line, and the bytes that end it.
abbrev pub ended : List ℕ → List ℕ → List ℕ
ended line post = line ++ 13 ∷ 10 ∷ post

module _ (os : Os) (fuel fd : ℕ) (st : State) (w : os.World) (pre line post : List ℕ)
    (hb : st.req.buf ≡ pre ++ ended line post) (hs : st.req.parsed_end ≡ length pre)
    (he : length pre + length line + 2 ≤ st.req.buf_end) (free : Free 13 line) where
  -- Where the line ends, and where the next one starts.
  abbrev pub line_end : ℕ
  line_end = st.req.parsed_end + length line + 2

  pub line_found :
      find_delim st.req.buf st.req.parsed_end st.req.buf_end (codes "\r\n") ≡ done (some line_end)
  line_found = rw hb (
      find_delim_first 13 10 (omega arith) pre line post st.req.parsed_end st.req.buf_end hs
        (omega arith) free)

  -- `read_rl` parses the line, and goes on behind it.
  pub read_rl_there :
      (st' : State)
      → parse_rl st (create_view (some st.req.parsed_end) (some (st.req.parsed_end + length line)))
        ≡ done st'
      → read_rl os fuel fd st w ≡ done (true, set_parsed st' line_end, w)
  unfolding read_rl rl_loop finish_rl
  read_rl_there st' parsed =
      let end_eq : line_end - 2 ≡ st.req.parsed_end + length line = omega arith in
      rw (line_found, end_eq, parsed) refl

  module _ (roomy : st.req.buf_end + 2 ≤ st.req.buf_len) (small : st.req.buf_len < 2 ^ 64) where
    room : ltb (request_room st) 2 ≡ false
    room = ground (arith, buf_left_lem st.req.buf_end st.req.buf_len (omega arith) small)

    -- `read_hf` reads a field.
    pub read_hf_field :
        (st' : State)
        → 0 < length line
        → parse_hf st
            (create_view (some st.req.parsed_end) (some (st.req.parsed_end + length line)))
          ≡ done st'
        → read_hf os fuel fd st w ≡ done (true, set_parsed st' line_end, w)
    unfolding read_hf hf_loop finish_hf is_empty_view
    read_hf_field st' some_line parsed =
        let end_eq : line_end - 2 ≡ st.req.parsed_end + length line = omega arith in
        let full : leb (st.req.parsed_end + length line) st.req.parsed_end ≡ false = ground arith in
        rw (room, line_found, end_eq, full, parsed) refl

    -- `read_hf` reads the empty line, and opens the file of a GET or HEAD.
    pub read_hf_last :
        (opens : Bool) (st' : State) (w' : os.World)
        → line ≡ []
        → (is_head st.req.method || is_get st.req.method) ≡ true
        → open_get_file os st w ≡ done (opens, st', w')
        → is_put st'.req.method ≡ false
        → read_hf os fuel fd st w
          ≡ done (true, set_parsed (record st' { stage = build_header }) line_end, w')
    unfolding read_hf hf_loop finish_hf is_empty_view end_of_headers
    read_hf_last opens st' w' no_line method opened no_put =
        let end_eq : line_end - 2 ≡ st.req.parsed_end = omega (arith, ap length no_line) in
        let empty : leb st.req.parsed_end st.req.parsed_end ≡ true = ground arith in
        rw (room, line_found, end_eq, empty, end_of_headers, method, opened, no_put) refl

module _ (os : Os) (fuel fd : ℕ) (st : State) (w w' : os.World) (mem : Memory) (end : ℕ)
    (small : st.req.buf_len < 2 ^ 64) (start : st.req.parsed_end ≡ 0)
    (none_left : st.req.buf_end ≡ 0) where
  room_all : request_room st ≡ st.req.buf_len
  room_all = buf_left_lem st.req.buf_end st.req.buf_len (omega arith) small ∙ omega arith

  nothing_yet : find_delim st.req.buf st.req.parsed_end st.req.buf_end (codes "\r\n") ≡ done none
  nothing_yet =
      rw (start, none_left)
        (find_delim_absent 13 10 (omega arith) [] [] st.req.buf 0 0 refl refl tt)

  -- From an empty buffer, `read_rl` reads once, and goes on with what has come.
  pub read_rl_first :
      (bs : List ℕ) (p : Option ℕ)
      → 2 ≤ st.req.buf_len
      → bs ≢ []
      → os.read fd st.req.buf_len w ≡ (some bs, w')
      → blit st.req.buf st.req.buf_end bs ≡ done (mem, end)
      → find_delim mem st.req.parsed_end end (codes "\r\n") ≡ done p
      → read_rl os (suc fuel) fd st w ≡ read_rl os fuel fd (set_buf st mem end) w'
  unfolding read_rl rl_loop after_read my_read
  read_rl_first [] p big n reads runs found = absurd (n refl)
  read_rl_first (b ∷ bs) p big n reads runs found =
      let room : ltb st.req.buf_len 2 ≡ false = ground arith in
      rw (nothing_yet, room_all, room, reads, runs, found) refl
