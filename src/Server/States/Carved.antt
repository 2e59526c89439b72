-- ===== src/Server/States/Carved.antt =====
-- server.c: the buffers that `create_state_buffer` gives the states.
use cse130_asgn.Base.{
  ℕ, zero, suc, ◌+◌, ◌*◌, ◌≤◌, ◌<◌, true, List, [], ◌∷◌, some, done, ◌>>=◌, length, get_elem?, take,
  drop, ◌≡◌, refl, ap, ◌∙◌, arith,
}
use cse130_asgn.Memory.{Memory}
use cse130_asgn.Server.{State, max_header, init_parser_state}
use cse130_asgn.Server.Response.Build.{IsFresh}
use cse130_asgn.Server.States.{
  Slot, int_max, carve, create_state_buffer, destroy_state_buffer, Block,
}

-- The slot of the state at a place.
abbrev pub slot_at : ℕ → Slot
slot_at i = record {
  place = i;
  req_buf = max_header * i;
  req_len = max_header;
  res_buf = max_header * i;
  res_len = max_header;
}

abbrev pub slots_from : ℕ → ℕ → List Slot
slots_from zero i = []
slots_from (suc n) i = slot_at i ∷ slots_from n (suc i)

carve-slots_from :
    (n i : ℕ) → max_header * (n + i) ≤ int_max + max_header → carve n i ≡ done (slots_from n i)
unfolding carve
carve-slots_from zero i h = refl
carve-slots_from (suc n) i h = ground (arith, carve-slots_from n (suc i) (omega arith))

pub create_state_buffer-slots_from :
    (n : ℕ)
    → max_header * n ≤ int_max + max_header
    → create_state_buffer true true n ≡ done (slots_from n 0)
unfolding create_state_buffer
create_state_buffer-slots_from zero h = refl
create_state_buffer-slots_from (suc n) h = carve-slots_from (suc n) 0 (omega arith)

pub get_elem?-slots_from :
    (n i k : ℕ) → k < n → get_elem? (slots_from n i) k ≡ some (slot_at (i + k))
get_elem?-slots_from zero i k h = absurd (omega arith)
get_elem?-slots_from (suc n) i zero h = ap (λ (m : ℕ). some (slot_at m)) (omega arith)
get_elem?-slots_from (suc n) i (suc k) h =
    get_elem?-slots_from n (suc i) k (omega arith) ∙ ap (λ (m : ℕ). some (slot_at m)) (omega arith)

-- The state of a slot: its buffers are those bytes of the two blocks, its other fields are what the
-- memory held.
abbrev pub state_in : Memory → Memory → State → Slot → State
state_in reqs ress old s = record old {
  req = record old.req { buf = take s.req_len (drop s.req_buf reqs); buf_len = s.req_len };
  res = record old.res { buf = take s.res_len (drop s.res_buf ress); buf_len = s.res_len };
}

-- Slots for `n` states in blocks of these sizes.
pub record Carved (n : ℕ) (reqs ress : Memory) (slots : List Slot) : Type 0 where
  pub count : length slots ≡ n
  -- Each slot is for the state at its place, and its buffers lie in the blocks.
  pub in_place : (k : ℕ) (s : Slot) → get_elem? slots k ≡ some s → s.place ≡ k
  pub req_in : (k : ℕ) (s : Slot) → get_elem? slots k ≡ some s → s.req_buf + s.req_len ≤ length reqs
  pub res_in : (k : ℕ) (s : Slot) → get_elem? slots k ≡ some s → s.res_buf + s.res_len ≤ length ress
  -- No two of them overlap.
  pub req_apart :
      (j k : ℕ) (s t : Slot)
      → j < k
      → get_elem? slots j ≡ some s
      → get_elem? slots k ≡ some t
      → s.req_buf + s.req_len ≤ t.req_buf
  pub res_apart :
      (j k : ℕ) (s t : Slot)
      → j < k
      → get_elem? slots j ≡ some s
      → get_elem? slots k ≡ some t
      → s.res_buf + s.res_len ≤ t.res_buf
  -- Each state is fresh once it is initialised.
  pub fresh :
      (k : ℕ) (s : Slot) (old : State)
      → get_elem? slots k ≡ some s
      → IsFresh (init_parser_state (state_in reqs ress old s))

-- `destroy_state_buffer` frees the four blocks of a buffer of one state or more, each of them once and
-- at its start.
pub destroy_state_buffer-create_state_buffer :
    (n : ℕ)
    → 0 < n
    → max_header * n ≤ int_max + max_header
    → (create_state_buffer true true n >>= destroy_state_buffer)
      ≡ done (Block.req_bufs ∷ Block.res_bufs ∷ Block.state_buf ∷ Block.state_ptrs ∷ [])
unfolding destroy_state_buffer
destroy_state_buffer-create_state_buffer zero lt h = absurd (omega arith)
destroy_state_buffer-create_state_buffer (suc n) lt h =
    rw (create_state_buffer-slots_from (suc n) h) refl
