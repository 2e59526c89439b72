-- ===== src/Os.antt =====
-- What the server asks of the operating system: the calls that it makes, as a record of operations
-- on an abstract world. A negative result is `none`, and `errno` is read from the world afterwards.
pub mod Beside
use cse130_asgn.Base.{ℕ, ◌≤◌, ◌<◌, List, ◌++◌, Option, none, some, length, take, ◌≡◌, ◌≢◌}

-- The values of `errno` that the server tells apart.
pub data Errno : Type 0 where
  eagain enoent other_errno : Errno

-- O_RDONLY; O_WRONLY | O_TRUNC; O_CREAT | O_WRONLY with S_IRUSR | S_IWUSR.
pub data OpenFlags : Type 0 where
  read_only truncate create : OpenFlags

-- `S_ISREG(st_mode)`
pub data FileKind : Type 0 where
  regular special : FileKind

pub record Os : Type 1 where
  pub World : Type 0
  pub errno : World → Errno
  -- `read(fd, buf, len)`: the bytes that it puts into `buf`.
  pub read : ℕ → ℕ → World → Option (List ℕ) × World
  -- `write(fd, buf, len)` with those `len` bytes: how many it takes.
  pub write : ℕ → List ℕ → World → Option ℕ × World
  pub open_path : List ℕ → OpenFlags → World → Option ℕ × World
  pub lstat : List ℕ → World → Option FileKind × World
  -- `lseek(fd, 0, SEEK_END)` and `lseek(fd, 0, SEEK_SET)`.
  pub seek_end : ℕ → World → Option ℕ × World
  pub seek_start : ℕ → World → World
  pub close : ℕ → World → World
  -- What a local array of that many chars holds before the program writes to it.
  pub local_array : ℕ → World → List ℕ

-- A local array has the size that it was declared with.
pub record SizedArrays (os : Os) : Type 0 where
  pub local_size : (n : ℕ) (w : os.World) → length (os.local_array n w) ≡ n

-- What has gone out through each descriptor: `write` adds the bytes that it takes, and no others.
pub record Output (os : Os) : Type 0 where
  pub sent : ℕ → os.World → List ℕ
  pub write_some :
      (fd : ℕ) (bs : List ℕ) (w : os.World) (n : ℕ)
      → (os.write fd bs w).0 ≡ some n
      → (n ≤ length bs) × (sent fd (os.write fd bs w).1 ≡ sent fd w ++ take n bs)
  pub write_none :
      (fd : ℕ) (bs : List ℕ) (w : os.World)
      → (os.write fd bs w).0 ≡ none
      → sent fd (os.write fd bs w).1 ≡ sent fd w

-- A `write` to `file` of one byte or more takes all of them, as it does on a disk with room for them.
pub record WholeWrites (os : Os) (file : ℕ) : Type 0 where
  pub whole :
      (bs : List ℕ) (w : os.World) → 0 < length bs → (os.write file bs w).0 ≡ some (length bs)

-- What has come in through each descriptor: `read` gives the next bytes, no more than it was asked for.
pub record Input (os : Os) : Type 0 where
  pub arrived : ℕ → os.World → List ℕ
  pub read_some :
      (fd len : ℕ) (w : os.World) (bs : List ℕ)
      → (os.read fd len w).0 ≡ some bs
      → (length bs ≤ len) × (arrived fd (os.read fd len w).1 ≡ arrived fd w ++ bs)
  pub read_none :
      (fd len : ℕ) (w : os.World)
      → (os.read fd len w).0 ≡ none
      → arrived fd (os.read fd len w).1 ≡ arrived fd w

-- A `write` of one byte or more to a regular file does not take none of them.
pub record Progress (os : Os) : Type 0 where
  pub some_taken :
      (fd : ℕ) (bs : List ℕ) (w : os.World) → 0 < length bs → (os.write fd bs w).0 ≢ some 0
