-- ===== src/Server/Answer.antt =====
-- server.c: the second half of a request, from `BUILD_HEADER` to `FINISHED`: what the client gets.
-- This file says what the calls do while a response is sent; the children are about the rounds.
pub mod Whole
pub mod Rounds
pub mod Delivered
use cse130_asgn.Base.{ℕ, suc, ◌≤◌, ◌<◌, List, [], ◌++◌, Option, some, length, ◌≡◌, ◌≢◌}
use cse130_asgn.Os.{Os, Output}

-- A socket that takes a byte or more in each call, and a regular file that stays as it is: `rest` is
-- what is behind the file's offset.
pub record Serving (os : Os) (out : Output os) (socket file : ℕ) : Type 0 where
  pub rest : os.World → List ℕ
  pub contents : List ℕ
  pub takes :
      (bs : List ℕ) (w : os.World)
      → 0 < length bs
      → (k : ℕ) × ((os.write socket bs w).0 ≡ some (suc k))
  pub write_rest : (bs : List ℕ) (w : os.World) → rest (os.write socket bs w).1 ≡ rest w
  pub read_sends :
      (len : ℕ) (w : os.World) → out.sent socket (os.read file len w).1 ≡ out.sent socket w
  pub read_over : (len : ℕ) (w : os.World) → rest w ≡ [] → (os.read file len w).0 ≡ some []
  pub read_part :
      (len : ℕ) (w : os.World)
      → 0 < len
      → rest w ≢ []
      → (bs : List ℕ) × ((os.read file len w).0 ≡ some bs)
        × (0 < length bs)
        × (length bs ≤ len)
        × (rest w ≡ bs ++ rest (os.read file len w).1)
  pub seek_size : (w : os.World) → (os.seek_end file w).0 ≡ some (length contents)
  pub seek_back : (w : os.World) → rest (os.seek_start file (os.seek_end file w).1) ≡ contents
  pub seek_sends :
      (w : os.World)
      → out.sent socket (os.seek_start file (os.seek_end file w).1) ≡ out.sent socket w
