-- ===== src/Memory/Filled.antt =====
-- A buffer that holds a text from its start on, with a pointer behind it: what each function that
-- appends to a buffer needs and leaves.
use cse130_asgn.Base.{
  ℕ, ◌+◌, ◌≤◌, ◌<◌, List, [], ◌∷◌, ◌++◌, append_assoc, Outcome, done, length, drop, ◌≡◌, refl, sym,
  ap, ◌∙◌, arith, length-append, length-drop,
}
use cse130_asgn.Memory.{Memory, store, blit}
use cse130_asgn.Memory.Runs.{store-append, blit-append, length-append_one}

pub record Filled (size : ℕ) (text : List ℕ) (mem : Memory) (p : ℕ) : Type 0 where
  pub slack : Memory
  pub mem_eq : mem ≡ text ++ slack
  pub end_eq : p ≡ length text
  pub size_eq : length mem ≡ size

pub Filled-empty : (mem : Memory) → Filled (length mem) [] mem 0
Filled-empty mem = record { slack = mem; mem_eq = refl; end_eq = refl; size_eq = refl }

-- It runs to its end, and leaves the buffer filled with `text`.
pub record Fills (size : ℕ) (text : List ℕ) (m : Outcome (Memory × ℕ)) : Type 0 where
  pub mem : Memory
  pub end : ℕ
  pub runs : m ≡ done (mem, end)
  pub filled : Filled size text mem end

module _ {size : ℕ} {text : List ℕ} {mem : Memory} {p : ℕ} where
  pub length-slack : (f : Filled size text mem p) → length text + length f.slack ≡ size
  length-slack f = sym (length-append text f.slack) ∙ ap length (sym f.mem_eq) ∙ f.size_eq

  -- A run that appends `bs` to `text ++ slack`.
  pub wrote-Filled :
      (f : Filled size text mem p) (bs : List ℕ)
      → length text + length bs ≤ size
      → Filled size (text ++ bs) ((text ++ bs) ++ drop (length bs) f.slack) (p + length bs)
  wrote-Filled f bs fit = record {
    slack = drop (length bs) f.slack;
    mem_eq = refl;
    end_eq = omega (arith, f.end_eq, length-append text bs);
    size_eq = omega (
      arith,
      length-append (text ++ bs) (drop (length bs) f.slack),
      length-append text bs,
      length-drop (length bs) f.slack,
      length-slack f,
    );
  }

  -- The pointer may be written another way.
  pub Filled-end : {q : ℕ} → Filled size text mem p → p ≡ q → Filled size text mem q
  Filled-end f e = record {
    slack = f.slack;
    mem_eq = f.mem_eq;
    end_eq = omega (arith, f.end_eq);
    size_eq = f.size_eq;
  }

  pub blit-Fills :
      (bs : List ℕ)
      → Filled size text mem p
      → length text + length bs ≤ size
      → Fills size (text ++ bs) (blit mem p bs)
  blit-Fills bs f fit = record {
    mem = (text ++ bs) ++ drop (length bs) f.slack;
    end = p + length bs;
    runs = rw f.mem_eq (blit-append bs text f.slack p f.end_eq (omega (arith, length-slack f)));
    filled = wrote-Filled f bs fit;
  }

  -- One byte.
  pub store-Filled :
      (c : ℕ)
      → Filled size text mem p
      → length text < size
      → (mem' : Memory) × (store mem p c ≡ done mem') × Filled size (text ++ c ∷ []) mem' (p + 1)
  store-Filled c f fit = at_slack f.slack f.mem_eq
    where
      at_slack :
          (s : Memory)
          → mem ≡ text ++ s
          → (mem' : Memory) × (store mem p c ≡ done mem')
            × Filled size (text ++ c ∷ []) mem' (p + 1)
      at_slack [] e = absurd (omega (arith, ap length e, length-append text [], f.size_eq))
      at_slack (x ∷ s) e = (
        (text ++ c ∷ []) ++ s,
        rw (e, append_assoc text (c ∷ []) s) (store-append text x s p f.end_eq c),
        record {
          slack = s;
          mem_eq = refl;
          end_eq = length-append_one text c p f.end_eq;
          size_eq = omega (
            arith,
            length-append (text ++ c ∷ []) s,
            length-append text (c ∷ []),
            ap length e,
            length-append text (x ∷ s),
            f.size_eq,
          );
        },
      )
