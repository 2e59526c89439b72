-- ===== src/Server/Text/Runs.antt =====
-- server.c: `copy_to` and the digits of a number, behind what a buffer holds.
use cse130_asgn.Base.{
  ℕ, zero, suc, ◌+◌, ◌≤◌, ◌<◌, List, [], ◌∷◌, ◌++◌, append_assoc, done, length, take, take_all,
  drop, ◌^◌, ◌≡◌, ◌∙◌, arith,
}
use cse130_asgn.Memory.{Memory}
use cse130_asgn.Memory.Runs.{store-append, wrote, wrote-nil, wrote-cons, length-append_one}
use cse130_asgn.Memory.Filled.{Filled, Fills, length-slack, wrote-Filled}
use cse130_asgn.Helpers.{my_utoa}
use cse130_asgn.Helpers.Decimal.{decimal, my_utoa-decimal}
use cse130_asgn.Server.Text.{copy_to}

-- A string that fits goes behind what was written; with less room, as much of it as the room is.
pub copy_to-wrote :
    (str : List ℕ) (len : ℕ) (out slack : Memory) (p : ℕ)
    → p ≡ length out
    → length (take len str) ≤ length slack
    → copy_to (out ++ slack) p str len ≡ wrote out slack p (take len str)
unfolding copy_to
copy_to-wrote [] zero out slack p hp fit = wrote-nil out slack p
copy_to-wrote [] (suc len) out slack p hp fit = wrote-nil out slack p
copy_to-wrote (c ∷ cs) zero out slack p hp fit = wrote-nil out slack p
copy_to-wrote (c ∷ cs) (suc len) out [] p hp fit = absurd (omega arith)
copy_to-wrote (c ∷ cs) (suc len) out (x ∷ slack) p hp fit =
    rw (store-append out x slack p hp c, ← append_assoc out (c ∷ []) slack)
      (copy_to-wrote cs len (out ++ c ∷ []) slack (p + 1) (length-append_one out c p hp)
          (omega arith)
        ∙ wrote-cons out x slack p c (take len cs))

-- Enough room: the whole string.
module _ {size : ℕ} {text : List ℕ} {mem : Memory} {p : ℕ} where
  pub copy_to-Fills :
      (str : List ℕ) (len : ℕ)
      → Filled size text mem p
      → length str ≤ len
      → length text + length str ≤ size
      → Fills size (text ++ str) (copy_to mem p str len)
  copy_to-Fills str len f le fit = record {
    mem = (text ++ str) ++ drop (length str) f.slack;
    end = p + length str;
    runs = rw f.mem_eq (
        copy_to-wrote str len text f.slack p f.end_eq (rw all (omega (arith, length-slack f)))
        ∙ rw all);
    filled = wrote-Filled f str fit;
  }
    where
      all : take len str ≡ str
      all = take_all len str le

  -- The digits of a number, and how many they are.
  pub my_utoa-Fills :
      (i : ℕ)
      → i < 2 ^ 64
      → Filled size text mem p
      → length text + length (decimal i) ≤ size
      → (mem' : Memory) × (my_utoa i mem p ≡ done (mem', length (decimal i)))
        × Filled size (text ++ decimal i) mem' (p + length (decimal i))
  my_utoa-Fills i h f fit = (
    (text ++ decimal i) ++ drop (length (decimal i)) f.slack,
    rw f.mem_eq (my_utoa-decimal i text f.slack p h f.end_eq (omega (arith, length-slack f))),
    wrote-Filled f (decimal i) fit,
  )
