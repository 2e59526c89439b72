-- ===== src/FileReadwrite/Copied.antt =====
-- file_readwrite.c: what the two functions that copy a path leave in a buffer.
use native.Mathlib.Nat.{pow-suc}
use cse130_asgn.Base.{
  ℕ, zero, suc, ℤ, pos, negsuc, true, ◌+◌, ◌/◌, ◌^◌, ◌≤◌, ◌<◌, Bool-cases, inl, inr, List, [], ◌∷◌,
  ◌++◌, append_assoc, some, done, ◌>>=◌, if◌then◌else◌, length, All, All-append, ◌≡◌, ◌≢◌, refl,
  sym, arith, length-append, drop-append, ==_ne,
}
use cse130_asgn.Memory.{Memory, store, blit}
use cse130_asgn.Memory.Filled.{Filled, blit-Fills, store-Filled}
use cse130_asgn.StrView.{create_view, bounds}
use cse130_asgn.Server.Files.{c_string}
use cse130_asgn.Server.Files.Named.{c_string-name}
use cse130_asgn.FileReadwrite.{
  copy_from, copy_path, copy_to, copy_to_write, put_thread_id, digit_char, minus, tenth, is_zero,
}

copy_from-blit :
    (text post : List ℕ) (s e : ℕ) (buf : Memory) (p : ℕ)
    → e ≡ s + length text
    → copy_from (text ++ post) s e buf p ≡ blit buf p text
unfolding copy_from blit
copy_from-blit [] [] s e buf p h = ground arith
copy_from-blit [] (c ∷ post) s e buf p h = ground arith
copy_from-blit (c ∷ text) post s e buf p h =
    rw (==_ne s e (λ q. absurd (omega arith))) (λ i.
      store buf p c >>= λ buf'. copy_from-blit text post (s + 1) e buf' (p + 1) (omega arith) i)

-- How far a number is from zero.
abbrev pub magnitude : ℤ → ℕ
magnitude (pos n) = n
magnitude (negsuc n) = suc n

-- The chars of a thread's number, the lowest digit first, in so many rounds: a digit of a number below
-- zero is taken off the code of a zero.
abbrev pub id_text : ℕ → ℤ → List ℕ
id_text zero n = []
id_text (suc fuel) n = if is_zero n then [] else digit_char n ∷ id_text fuel (tenth n)

magnitude-minus : (n : ℕ) → magnitude (minus n) ≡ n
magnitude-minus zero = refl
magnitude-minus (suc n) = refl

magnitude-tenth : (n : ℤ) → magnitude (tenth n) ≡ magnitude n / 10
magnitude-tenth (pos n) = refl
magnitude-tenth (negsuc n) = magnitude-minus (suc n / 10)

none_left : (n : ℤ) → magnitude n < 1 → is_zero n ≡ true
none_left (pos n) h = ground arith
none_left (negsuc n) h = absurd (omega arith)

digit_char-ne : (n : ℤ) → digit_char n ≢ 0
digit_char-ne (pos n) = λ e. absurd (omega arith)
digit_char-ne (negsuc n) = λ e. absurd (omega arith)

put_thread_id-blit :
    (fuel : ℕ) (n : ℤ) (buf : Memory) (p : ℕ)
    → magnitude n < 10 ^ fuel
    → put_thread_id (suc fuel) n buf p ≡ blit buf p (id_text fuel n)
unfolding put_thread_id blit
put_thread_id-blit zero n buf p h = rw (none_left n h) refl
put_thread_id-blit (suc fuel) n buf p h = elim (Bool-cases (is_zero n)) [
  | inl last ↦ rw last refl
  | inr more ↦ rw more (λ i. store buf p (digit_char n) >>= λ buf'.
      put_thread_id-blit fuel (tenth n) buf' (p + 1)
        (omega (arith, pow-suc 10 fuel, magnitude-tenth n)) i)
]

-- The name of the file that a thread writes for a path.
abbrev pub write_name : List ℕ → ℤ → List ℕ
write_name text thread_id = text ++ b'$' ∷ id_text 10 thread_id

id_text-no_nul : (fuel : ℕ) (n : ℤ) → All (λ c. c ≢ 0) (id_text fuel n)
id_text-no_nul zero n = tt
id_text-no_nul (suc fuel) n = elim (Bool-cases (is_zero n)) [
  | inl last ↦ rw last tt
  | inr more ↦ rw more (digit_char-ne n, id_text-no_nul fuel (tenth n))
]

-- A string that fills a buffer from its start on.
string_in :
    {size : ℕ} {text : List ℕ} {mem : Memory} {p : ℕ}
    → Filled size (text ++ 0 ∷ []) mem p
    → All (λ c. c ≢ 0) text
    → c_string mem ≡ done text
string_in {text} f clean =
    rw (f.mem_eq, append_assoc text (0 ∷ []) f.slack) (c_string-name text f.slack clean)

module _ (pre text post : List ℕ) (s e : ℕ) (buf : Memory) (hs : s ≡ length pre)
    (he : e ≡ s + length text) where
  path_copied :
      (size : ℕ)
      → size ≡ length buf
      → length text ≤ size
      → (buf' : Memory) × (p : ℕ) × (copy_path
            (pre ++ (text ++ post))
            (create_view (some s) (some e))
            buf
            0
          ≡ done (buf', p))
        × Filled size text buf' p
  unfolding copy_path bounds
  path_copied size same le =
      let empty : Filled size [] buf 0 = record {
        slack = buf;
        mem_eq = refl;
        end_eq = refl;
        size_eq = sym same;
      } in
      let f = blit-Fills text empty (omega arith) in
      (
        f.mem,
        f.end,
        rw (drop-append pre (text ++ post) s hs, copy_from-blit text post s e buf 0 he) f.runs,
        f.filled,
      )

  -- The text of the path.
  pub copy_to_text :
      length text < length buf
      → All (λ c. c ≢ 0) text
      → (buf' : Memory) × (copy_to (pre ++ (text ++ post)) (create_view (some s) (some e)) buf 0
          ≡ done buf')
        × (c_string buf' ≡ done text)
  unfolding copy_to
  copy_to_text lt clean =
      let (buf1, p1, copies, f1) = path_copied (length buf) refl (omega arith) in
      let (buf2, stores, f2) = store-Filled 0 f1 lt in
      (buf2, rw (copies, stores) refl, string_in f2 clean)

  -- The text, a dollar sign and the number of the thread.
  pub copy_to_write_text :
      (thread_id : ℤ)
      → magnitude thread_id < 10 ^ 10
      → length (write_name text thread_id) < length buf
      → All (λ c. c ≢ 0) text
      → (buf' : Memory) × (copy_to_write
            (pre ++ (text ++ post))
            (create_view (some s) (some e))
            buf
            thread_id
          ≡ done buf')
        × (c_string buf' ≡ done (write_name text thread_id))
  unfolding copy_to_write
  copy_to_write_text id small lt clean =
      let long = length-append text (b'$' ∷ id_text 10 id) in
      let (buf1, p1, copies, f1) = path_copied (length buf) refl (omega (arith, long)) in
      let (buf2, dollar, f2) = store-Filled b'$' f1 (omega (arith, long)) in
      let f3 =
        blit-Fills (id_text 10 id) f2 (omega (arith, long, length-append text (b'$' ∷ []))) in
      let text3 : (text ++ b'$' ∷ []) ++ id_text 10 id ≡ write_name text id = simp append_assoc in
      let f3' = (rw text3 at f3.filled) in
      let (buf4, stores, f4) = store-Filled 0 f3' lt in
      (
        buf4,
        rw (copies, dollar, put_thread_id-blit 10 id buf2 (p1 + 1) small, f3.runs, stores) refl,
        string_in f4 (
            All-append (λ c. c ≢ 0) text (b'$' ∷ id_text 10 id) clean
              ((λ q. absurd (omega arith)), id_text-no_nul 10 id)),
      )
