-- ===== src/Queue/Represents.antt =====
-- The invariant of the ring behind queue.c, and the items that it holds.
use native.Mathlib.Nat.{mod-eq_of_lt, mod-eq-sub-mod, mod-add-mod}
use cse130_asgn.Base.{
  ℕ, suc, ◌+◌, ◌-◌, ◌%◌, ◌≤◌, ◌<◌, List, [], none, some, length, get_elem?, ◌≡◌, ◌≢◌, refl, sym,
  ◌∙◌, ap, arith, dec_lt, replicate, length-replicate, true,
}
use cse130_asgn.Queue.{Queue, queue_new}

-- `head` is where the next item goes, `tail` where the oldest one is, and the slots from `tail` on,
-- going round at `capacity`, hold the items in order.
pub record Represents {ℓ} {A : Type ℓ} (q : Queue A) (xs : List A) : Type ℓ where
  pub slots : length q.buf ≡ q.capacity
  pub tail_in : q.tail < q.capacity
  pub head_eq : q.head ≡ (q.tail + q.len) % q.capacity
  pub len_in : q.len ≤ q.capacity
  pub size : length xs ≡ q.len
  pub item :
      (i : ℕ) → i < q.len → get_elem? q.buf ((q.tail + i) % q.capacity) ≡ some (get_elem? xs i)

-- A number below twice the modulus.
mod_high : (c x : ℕ) → c ≤ x → x < c + c → x % c ≡ x - c
mod_high c x lo hi = mod-eq-sub-mod lo ∙ mod-eq_of_lt (omega arith)

pub mod_low : (c x : ℕ) → x < c → x % c ≡ x
mod_low c x h = mod-eq_of_lt h

-- Two different places of the ring are different slots.
pub slots_distinct : (c t i j : ℕ) → t < c → i < j → j < c → (t + j) % c ≢ (t + i) % c
slots_distinct c t i j ht hi hj e = elim (dec_lt (t + j) c) [
  | yes p ↦ absurd (omega (arith, mod_low c (t + j) p, mod_low c (t + i) (omega arith), e))
  | no p ↦ elim (dec_lt (t + i) c) [
    | yes r ↦
        absurd
          (omega (arith, mod_high c (t + j) (omega arith) (omega arith), mod_low c (t + i) r, e))
    | no r ↦ absurd (
        omega (
          arith,
          mod_high c (t + j) (omega arith) (omega arith),
          mod_high c (t + i) (omega arith) (omega arith),
          e,
        ))
  ]
]

pub wrap_in : (c x : ℕ) → 0 < c → x % c < c
wrap_in c x h = omega arith

-- The slot behind a slot.
pub next_slot : (c t i : ℕ) → ((t + 1) % c + i) % c ≡ (t + suc i) % c
next_slot c t i = mod-add-mod (t + 1) c i ∙ ap (λ (n : ℕ). n % c) (omega arith)

module _ {ℓ} (A : Type ℓ) where
  -- A new queue of positive capacity represents no items.
  pub queue_new-Represents :
      (size : ℕ)
      → 0 < size
      → (q : Queue A) × (queue_new true true size ≡ some q) × Represents q [] × (q.capacity ≡ size)
  unfolding queue_new
  queue_new-Represents size h = (
    record { head = 0; tail = 0; len = 0; capacity = size; buf = replicate size none },
    refl,
    record {
      slots = length-replicate size none;
      tail_in = h;
      head_eq = sym (mod_low size (0 + 0) (omega arith));
      len_in = omega arith;
      size = refl;
      item = λ i lt. absurd (omega arith);
    },
    refl,
  )
