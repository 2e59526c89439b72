-- ===== src/Memory/Runs.antt =====
-- A run of stores at the end of what is written so far: the memory is `out ++ slack`, and the
-- pointer stands at `length out`.
use cse130_asgn.Base.{
  ℕ, ◌+◌, ◌≤◌, List, [], ◌∷◌, ◌++◌, append-nil, append_assoc, Outcome, done, length, drop, arith,
  ◌≡◌, ◌∙◌, length-append, get_elem?-append, set-append,
}
use cse130_asgn.Memory.{Memory, load, store, blit}

module _ (out : Memory) (x : ℕ) (slack : Memory) (p : ℕ) (e : p ≡ length out) where
  pub load-append : load (out ++ x ∷ slack) p ≡ done x
  unfolding load
  load-append = ground (arith, get_elem?-append out x slack p e)

  pub store-append : (c : ℕ) → store (out ++ x ∷ slack) p c ≡ done (out ++ c ∷ slack)
  unfolding store
  store-append c = ground (arith, length-append out (x ∷ slack), set-append out x slack p c e)

-- What a run of stores of `bs` at the end of `out` leaves: the bytes behind what was written, the
-- rest of the slack, and the pointer behind them.
abbrev pub wrote : Memory → Memory → ℕ → List ℕ → Outcome (Memory × ℕ)
wrote out slack p bs = done ((out ++ bs) ++ drop (length bs) slack, p + length bs)

pub wrote-nil : (out slack : Memory) (p : ℕ) → done (out ++ slack, p) ≡ wrote out slack p []
wrote-nil out slack p = rw append-nil (ground arith)

pub wrote-cons :
    (out : Memory) (x : ℕ) (slack : Memory) (p c : ℕ) (cs : List ℕ)
    → wrote (out ++ c ∷ []) slack (p + 1) cs ≡ wrote out (x ∷ slack) p (c ∷ cs)
wrote-cons out x slack p c cs = ground (arith, append_assoc out (c ∷ []) cs)

pub length-append_one : (out : Memory) (c p : ℕ) → p ≡ length out → p + 1 ≡ length (out ++ c ∷ [])
length-append_one out c p e = omega (arith, length-append out (c ∷ []))

-- Bytes that fit in the slack go behind what was written.
pub blit-append :
    (bs out slack : Memory) (p : ℕ)
    → p ≡ length out
    → length bs ≤ length slack
    → blit (out ++ slack) p bs ≡ wrote out slack p bs
unfolding blit
blit-append [] out slack p e h = wrote-nil out slack p
blit-append (c ∷ cs) out [] p e h = absurd (omega arith)
blit-append (c ∷ cs) out (x ∷ slack) p e h =
    rw (store-append out x slack p e c, ← append_assoc out (c ∷ []) slack)
      (blit-append cs (out ++ c ∷ []) slack (p + 1) (length-append_one out c p e) (omega arith)
        ∙ wrote-cons out x slack p c cs)
