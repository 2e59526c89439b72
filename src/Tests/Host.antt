-- ===== src/Tests/Host.antt =====
-- A small operating system: one socket, which takes `chunk` bytes a call and `quota` calls before it
-- would block, and one file.
use cse130_asgn.Base.{
  ℕ, zero, suc, ◌≤◌, List, [], ◌∷◌, ◌++◌, Option, none, some, length, take, drop, replicate, ◌≡◌,
  refl, sym, ap, arith, codes, length-take, take_all,
}
use cse130_asgn.Os.{Os, Input, Output, WholeWrites, eagain, regular}

pub record Net : Type 0 where
  pub out : List ℕ
  pub input : List ℕ
  pub taken : List ℕ
  pub file : List ℕ
  pub chunk : ℕ
  pub quota : ℕ

-- `write`
abbrev send_some : List ℕ → ℕ → Net → Option ℕ × Net
send_some bs zero net = (none, net)
send_some bs (suc quota) net = (
  some (length (take net.chunk bs)),
  record net { out = net.out ++ take net.chunk bs; quota = quota },
)

-- `read`
abbrev receive : ℕ → Net → Option (List ℕ) × Net
receive len net = (
  some (take len net.input),
  record net { input = drop len net.input; taken = net.taken ++ take len net.input },
)

abbrev pub host : Os
host = record {
  World = Net;
  errno = λ net. eagain;
  read = λ fd len net. receive len net;
  write = λ fd bs net. send_some bs net.quota net;
  open_path = λ path flags net. (some 5, net);
  lstat = λ path net. (some regular, net);
  seek_end = λ fd net. (some (length net.file), net);
  seek_start = λ fd net. net;
  close = λ fd net. net;
  local_array = λ n net. replicate n 0;
}

pub take-length-take : (n : ℕ) (bs : List ℕ) → take (length (take n bs)) bs ≡ take n bs
take-length-take zero bs = refl
take-length-take (suc n) [] = refl
take-length-take (suc n) (b ∷ bs) = ap (◌∷◌ b) (take-length-take n bs)

send_some_taken :
    (bs : List ℕ) (quota : ℕ) (net : Net) (n : ℕ)
    → (send_some bs quota net).0 ≡ some n
    → (n ≤ length bs) × ((send_some bs quota net).1.out ≡ net.out ++ take n bs)
send_some_taken bs zero net n h = cc
send_some_taken bs (suc quota) net n h =
    let e : length (take net.chunk bs) ≡ n = ground arith in
    rw (← e) (
      omega (arith, length-take net.chunk bs),
      ap (λ ys. net.out ++ ys) (sym (take-length-take net.chunk bs)),
    )

send_some_refused :
    (bs : List ℕ) (quota : ℕ) (net : Net)
    → (send_some bs quota net).0 ≡ none
    → (send_some bs quota net).1.out ≡ net.out
send_some_refused bs zero net h = refl
send_some_refused bs (suc quota) net h = cc

pub host-Output : Output host
host-Output = record {
  sent = λ fd net. net.out;
  write_some = λ fd bs net n h. send_some_taken bs net.quota net n h;
  write_none = λ fd bs net h. send_some_refused bs net.quota net h;
}

-- A world in which the socket takes three bytes a call, and blocks after two calls.
abbrev pub idle : Net
idle = record {
  out = [];
  input = codes "GET /a.b HTTP/1.1\r\n";
  taken = [];
  file = codes "hello";
  chunk = 3;
  quota = 2;
}

-- The same system, with a `write` that takes all that it is given.
abbrev take_whole : List ℕ → Net → Option ℕ × Net
take_whole bs net = (some (length bs), record net { out = net.out ++ bs })

abbrev pub disk : Os
disk = record host { write = λ fd bs net. take_whole bs net }

pub take_whole_taken :
    (bs : List ℕ) (net : Net) (n : ℕ)
    → some (length bs) ≡ some n
    → (n ≤ length bs) × (net.out ++ bs ≡ net.out ++ take n bs)
take_whole_taken bs net n h =
    let e : length bs ≡ n = ground arith in
    (omega arith, ap (λ ys. net.out ++ ys) (sym (take_all n bs (omega arith))))

unfoldable pub disk_output : Output disk
disk_output = record {
  sent = λ fd net. net.out;
  write_some = λ fd bs net n h. take_whole_taken bs net n h;
  write_none = λ fd bs net h. cc;
}

pub disk-WholeWrites : WholeWrites disk 7
disk-WholeWrites = record { whole = λ bs net h. refl }

receive_taken :
    (len : ℕ) (net : Net) (bs : List ℕ)
    → some (take len net.input) ≡ some bs
    → (length bs ≤ len) × (net.taken ++ take len net.input ≡ net.taken ++ bs)
receive_taken len net bs h =
    let e : take len net.input ≡ bs = cc in
    (omega (arith, ap length e, length-take len net.input), ap (λ ys. net.taken ++ ys) e)

pub host-Input : Input host
host-Input = record {
  arrived = λ fd net. net.taken;
  read_some = λ fd len net bs h. receive_taken len net bs h;
  read_none = λ fd len net h. cc;
}
