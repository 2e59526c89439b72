-- ===== src/Log/Pour.antt =====
-- log.c: a logger and the text that it holds, and the inner loop of `log_buf`.
use cse130_asgn.Base.{
  ℕ, ◌+◌, ◌<◌, List, [], ◌∷◌, ◌++◌, append-nil, append_assoc, Outcome, done, length, ◌≡◌, ◌⊎◌, inl,
  inr, refl, ap, arith, ℕ_discrete, ==_ne,
}
use cse130_asgn.Memory.Filled.{Filled, length-slack, store-Filled}
use cse130_asgn.Log.{Logger, pour}

-- A logger that holds a text which is not written yet.
pub record Holds (size fd : ℕ) (text : List ℕ) (l : Logger) : Type 0 where
  pub filled : Filled size text l.buf l.buf_head
  pub size_eq : l.buffer_size ≡ size
  pub fd_eq : l.logfd ≡ fd

-- What `pour` leaves: it takes the front of the string, and stops where the buffer is full.
pub record Pours (size fd : ℕ) (text str : List ℕ) (m : Outcome (Logger × List ℕ)) : Type 0 where
  pub l : Logger
  pub taken : List ℕ
  pub rest : List ℕ
  pub runs : m ≡ done (l, rest)
  pub split : str ≡ taken ++ rest
  pub holds : Holds size fd (text ++ taken) l
  pub stop : (rest ≡ []) ⊎ (length (text ++ taken) ≡ size)

module _ {size fd : ℕ} where
  pub pour-Pours :
      (str text : List ℕ) (l : Logger) → Holds size fd text l → Pours size fd text str (pour l str)
  unfolding pour
  pour-Pours [] text l h = record {
    l = l;
    taken = [];
    rest = [];
    runs = refl;
    split = refl;
    holds = rw (append-nil text) h;
    stop = inl refl;
  }
  pour-Pours (c ∷ cs) text l h = elim (ℕ_discrete l.buf_head l.buffer_size) [
    | yes full ↦ record {
      l = l;
      taken = [];
      rest = c ∷ cs;
      runs = rw full (ground arith);
      split = refl;
      holds = rw (append-nil text) h;
      stop = inr (rw (append-nil text) (omega (arith, h.filled.end_eq, h.size_eq)));
    }
    | no more ↦
        let fit : length text < size =
          omega (arith, h.filled.end_eq, h.size_eq, length-slack h.filled) in
        let (mem, ran, filled) = store-Filled c h.filled fit in
        let p =
          pour-Pours cs (text ++ c ∷ []) (record l { buf = mem; buf_head = l.buf_head + 1 })
            (record { filled = filled; size_eq = h.size_eq; fd_eq = h.fd_eq }) in
        record {
          l = p.l;
          taken = c ∷ p.taken;
          rest = p.rest;
          runs = rw (==_ne l.buf_head l.buffer_size more, ran) p.runs;
          split = ap (◌∷◌ c) p.split;
          holds = rw (← append_assoc text (c ∷ []) p.taken) p.holds;
          stop = rw (← append_assoc text (c ∷ []) p.taken) p.stop;
        }
  ]
