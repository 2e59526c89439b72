-- ===== src/Server/States.antt =====
-- server.c: `create_state_buffer` and `destroy_state_buffer`, which keep the states of all requests
-- in four blocks of memory.
pub mod Carved
use cse130_asgn.Base.{
  ℕ, zero, suc, ◌+◌, ◌*◌, ◌-◌, ◌^◌, Bool, true, false, ◌&&◌, List, [], ◌∷◌, Option, none, some,
  Outcome, done, fault, ◌>>=◌, ltb, ◌==◌, if◌then◌else◌,
}
use cse130_asgn.Server.{max_header}

-- What `malloc` gave: the two blocks of buffers, the block of pointers and the block of states.
pub data Block : Type 0 where
  req_bufs res_bufs state_ptrs state_buf : Block

-- A state that a pointer of the buffer points to: its place in `state_buf`, and where its two buffers
-- start in theirs.
pub record Slot : Type 0 where
  pub place : ℕ
  pub req_buf : ℕ
  pub req_len : ℕ
  pub res_buf : ℕ
  pub res_len : ℕ

abbrev pub int_max : ℕ
int_max = 2 ^ 31 - 1

-- `MAX_HEADER * i`, a product of two ints; one that overflows is a fault.
header_offset : ℕ → Outcome ℕ
header_offset i = if ltb int_max (max_header * i) then fault else done (max_header * i)

-- The rounds of the loop from `i` on.
pub carve : ℕ → ℕ → Outcome (List Slot)
unfolding header_offset
carve zero i = done []
carve (suc n) i = do
  at ← header_offset i
  rest ← carve n (suc i)
  done (
      record { place = i; req_buf = at; req_len = max_header; res_buf = at; res_len = max_header }
      ∷ rest)

-- The flags say whether `malloc` gave `state_ptrs` and `state_buf`, which the loop writes to.
unfoldable pub create_state_buffer : Bool → Bool → ℕ → Outcome (List Slot)
create_state_buffer ptrs states zero = done []
create_state_buffer ptrs states (suc n) = if ptrs && states then carve (suc n) 0 else fault

-- `free` of a pointer into a block, which has to be its start.
free_block : Block → ℕ → Outcome Block
free_block b p = if p == 0 then done b else fault

-- The blocks that are freed, in order. The pointers are read from the first state.
unfoldable pub destroy_state_buffer : List Slot → Outcome (List Block)
unfolding free_block
destroy_state_buffer [] = fault
destroy_state_buffer (first ∷ rest) = do
  a ← free_block req_bufs first.req_buf
  b ← free_block res_bufs first.res_buf
  c ← free_block state_buf first.place
  done (a ∷ b ∷ c ∷ state_ptrs ∷ [])
