-- ===== src/Log/Kept.antt =====
-- log.c: `log_buf` and runs of its calls, with a `write` that takes all that it is given.
use cse130_asgn.Base.{
  ℕ, zero, suc, ◌+◌, ◌≤◌, ◌<◌, Bool, true, false, ◌&&◌, not, ltb, ◌==◌, List, [], ◌∷◌, ◌++◌,
  append-nil, append_assoc, Outcome, done, ◌>>=◌, length, ◌≡◌, ◌≢◌, ◌⊎◌, inl, inr, refl, sym, ap,
  ◌∙◌, arith, ℕ_discrete, Bool-cases, All, ==_ne, ==_same, length-append,
}
use cse130_asgn.Memory.Filled.{length-slack, blit-Fills}
use cse130_asgn.Os.{Os, Output, WholeWrites}
use cse130_asgn.Log.Pour.{Holds, pour-Pours}
use cse130_asgn.Log.Flush.{Logs, flush_out, flush_logger-Logs}
use cse130_asgn.Log.{Logger, flush_logger, pour_loop, log_buf}

-- The strings, one behind the other.
abbrev pub joined : List (List ℕ) → List ℕ
joined [] = []
joined (xs ∷ xss) = xs ++ joined xss

at_end : {xs : List ℕ} {m n : ℕ} → (xs ≡ []) ⊎ (m ≡ n) → m ≢ n → xs ≡ []
at_end (inl e) ne = e
at_end (inr e) ne = absurd (ne e)

-- The same of the loop of `log_buf`.
record Poured (os : Os) (out : Output os) (size fd : ℕ) (before : List ℕ)
    (r : Outcome (Logger × Bool × os.World)) : Type 0 where
  l : Logger
  w : os.World
  partial : Bool
  text : List ℕ
  runs : r ≡ done (l, partial, w)
  holds : Holds size fd text l
  short : length text < size
  bytes : out.sent fd w ++ text ≡ before

module _ (os : Os) where
  -- A run of calls.
  pub log_each : ℕ → Logger → List (List ℕ) → os.World → Outcome (Logger × os.World)
  log_each fuel l [] w = done (l, w)
  log_each fuel l (str ∷ strs) w = do (l', w') ← log_buf os fuel l str w; log_each fuel l' strs w'

module _ (os : Os) (out : Output os) (size fd : ℕ) (all : WholeWrites os fd) where
  pour_loop-Logs :
      (fuel : ℕ) (str text : List ℕ) (l : Logger) (partial : Bool) (w : os.World)
      → length text < size
      → length str ≤ fuel
      → Holds size fd text l
      → Poured os out size fd (out.sent fd w ++ (text ++ str)) (pour_loop os fuel l str partial w)
  unfolding pour_loop
  pour_loop-Logs fuel [] text l partial w short enough h = record {
    l = l;
    w = w;
    partial = partial;
    text = text;
    runs = refl;
    holds = h;
    short = short;
    bytes = rw (append-nil text) refl;
  }
  pour_loop-Logs zero (c ∷ cs) text l partial w short enough h = absurd (omega arith)
  pour_loop-Logs (suc fuel) (c ∷ cs) text l partial w short enough h =
      let p = pour-Pours (c ∷ cs) text l h in
      let len : length (c ∷ cs) ≡ length p.taken + length p.rest =
        ap length p.split ∙ length-append p.taken p.rest in
      let head : p.l.buf_head ≡ length text + length p.taken =
        p.holds.filled.end_eq ∙ length-append text p.taken in
      elim (ℕ_discrete p.l.buf_head l.buffer_size) [
        | yes full ↦
            let f =
              flush_logger-Logs os out size fd all (text ++ p.taken) p.l w (omega arith) p.holds in
            let few : length p.rest ≤ fuel = omega (arith, h.size_eq) in
            let q = pour_loop-Logs fuel p.rest f.text f.l true f.w f.short few f.holds in
            record {
              l = q.l;
              w = q.w;
              partial = q.partial;
              text = q.text;
              runs = rw (p.runs, ==_same p.l.buf_head l.buffer_size full, f.runs) q.runs;
              holds = q.holds;
              short = q.short;
              bytes =
                  q.bytes
                  ∙ (sym (append_assoc (out.sent fd f.w) f.text p.rest)
                      ∙ ap (λ xs. xs ++ p.rest) f.bytes
                      ∙ append_assoc (out.sent fd w) (text ++ p.taken) p.rest
                      ∙ ap (λ ys. out.sent fd w ++ ys)
                          (append_assoc text p.taken p.rest ∙ ap (λ ys. text ++ ys) (sym p.split)));
            }
        | no more ↦
            let e : p.rest ≡ [] =
              at_end p.stop (λ z. more (omega (arith, h.size_eq, length-append text p.taken))) in
            record {
              l = p.l;
              w = w;
              partial = partial;
              text = text ++ p.taken;
              runs = rw (p.runs, ==_ne p.l.buf_head l.buffer_size more, e) refl;
              holds = p.holds;
              short = omega (arith, h.size_eq, p.holds.filled.end_eq, length-slack p.holds.filled);
              bytes =
                  ap (λ ys. out.sent fd w ++ (text ++ ys))
                    (sym (append-nil p.taken) ∙ ap (λ ys. p.taken ++ ys) (sym e) ∙ sym p.split);
            }
      ]

  -- With a round for each byte of the string, `log_buf` ends, and what is written and what the buffer
  -- holds make up what they made up before, and the string; the buffer keeps room for a byte.
  pub log_buf-Logs :
      (fuel : ℕ) (str text : List ℕ) (l : Logger) (w : os.World)
      → length text < size
      → length str ≤ fuel
      → Holds size fd text l
      → Logs os out size fd (out.sent fd w ++ (text ++ str)) (log_buf os fuel l str w)
  unfolding log_buf
  log_buf-Logs fuel str text l w short enough h =
      elim (Bool-cases (ltb (l.buf_head + length str) l.buffer_size)) [
        | inl room ↦
            let fit : length text + length str < size =
              ground (arith, h.filled.end_eq, h.size_eq) in
            let f = blit-Fills str h.filled (omega arith) in
            record {
              l = record l { buf = f.mem; buf_head = f.end };
              w = w;
              text = text ++ str;
              runs = rw (room, f.runs) refl;
              holds = record { filled = f.filled; size_eq = h.size_eq; fd_eq = h.fd_eq };
              short = omega (arith, length-append text str);
              bytes = refl;
            }
        | inr full ↦
            let p = pour_loop-Logs fuel str text l false w short enough h in
            elim (Bool-cases (p.partial && not (p.l.buf_head == 0))) [
              | inl rest ↦
                  let f =
                    flush_logger-Logs os out size fd all p.text p.l p.w (omega arith) p.holds in
                  record {
                    l = f.l;
                    w = f.w;
                    text = f.text;
                    runs = rw (full, p.runs, rest, f.runs) refl;
                    holds = f.holds;
                    short = f.short;
                    bytes = f.bytes ∙ p.bytes;
                  }
              | inr none_left ↦ record {
                l = p.l;
                w = p.w;
                text = p.text;
                runs = rw (full, p.runs, none_left) refl;
                holds = p.holds;
                short = p.short;
                bytes = p.bytes;
              }
            ]
      ]

  -- What a run of calls of `log_buf` and the last `flush_logger` write is what the buffer held, and the
  -- strings in their order, if there is a round for each byte of each.
  pub log_each-flush_logger :
      (fuel : ℕ) (strs : List (List ℕ)) (text : List ℕ) (l : Logger) (w : os.World)
      → length text < size
      → All (λ str. length str ≤ fuel) strs
      → Holds size fd text l
      → (l' : Logger) × (w' : os.World) × ((log_each os fuel l strs w >>= λ p.
            flush_logger os p.0 p.1)
          ≡ done (l', w'))
        × (out.sent fd w' ≡ out.sent fd w ++ (text ++ joined strs))
  unfolding log_each
  log_each-flush_logger fuel [] text l w short enough h =
      let (l', w', run, empty, bytes) = flush_out os out size fd all text l w h in
      (l', w', run, rw (append-nil text) bytes)
  log_each-flush_logger fuel (str ∷ strs) text l w short enough h =
      let p = log_buf-Logs fuel str text l w short enough.0 h in
      let (l', w', run, bytes) =
        log_each-flush_logger fuel strs p.text p.l p.w p.short enough.1 p.holds in
      (
        l',
        w',
        rw p.runs run,
        bytes
            ∙ (sym (append_assoc (out.sent fd p.w) p.text (joined strs))
                ∙ ap (λ xs. xs ++ joined strs) p.bytes
                ∙ append_assoc (out.sent fd w) (text ++ str) (joined strs)
                ∙ ap (λ ys. out.sent fd w ++ ys) (append_assoc text str (joined strs))),
      )
