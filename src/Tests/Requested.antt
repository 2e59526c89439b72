-- ===== src/Tests/Requested.antt =====
-- A whole request, and its answer.
use cse130_asgn.Base.{
  ℕ, ◌≤◌, List, ◌++◌, Option, none, some, take, drop, replicate, length, ◌==◌, if◌then◌else◌, ◌≡◌,
  inl, inr, sym, ap, refl, arith, codes, take_all, Bool-cases,
}
use cse130_asgn.Os.{Os, Output}
use cse130_asgn.StrView.{invalid_strview}
use cse130_asgn.Server.{State, ok, none_yet, request_line, max_header}
use cse130_asgn.Server.Answer.{Serving}
use cse130_asgn.Server.Served.{Field}
use cse130_asgn.Server.Served.Apart.{Apart}
use cse130_asgn.Server.Served.Logged.{Logged}
use cse130_asgn.Tests.Host.{Net, host, idle}
use cse130_asgn.Tests.Answers.{
  take_three, take_three_taken, takes_some, first_part, nothing_left, read_file_part,
}

-- Descriptor 5 is the file, any other one the socket, which gives the bytes of `taken`.
abbrev read_either : ℕ → ℕ → Net → Option (List ℕ) × Net
read_either fd len net =
    if fd == 5
    then read_file_part len net
    else (some (take len net.taken), record net { taken = drop len net.taken })

-- `write` to the log, descriptor 7, takes all; to any other one, three bytes.
abbrev write_either : ℕ → List ℕ → Net → Option ℕ × Net
write_either fd bs net =
    if fd == 7 then (some (length bs), record net { file = net.file ++ bs }) else take_three bs net

abbrev site : Os
site = record host {
  write = λ fd bs net. write_either fd bs net;
  read = λ fd len net. read_either fd len net;
  seek_end = λ fd net. (some 5, net);
  seek_start = λ fd net. record net { input = codes "hello" };
  open_path = λ path flags net. (some 5, record net { input = codes "hello" });
}

abbrev gone : ℕ → Net → List ℕ
gone fd net = if fd == 7 then net.file else net.out

write_either_taken :
    (fd : ℕ) (bs : List ℕ) (net : Net) (n : ℕ)
    → (write_either fd bs net).0 ≡ some n
    → (n ≤ length bs) × (gone fd (write_either fd bs net).1 ≡ gone fd net ++ take n bs)
write_either_taken fd bs net n = elim (Bool-cases (fd == 7)) [
  | inl e ↦ rw e λ h. all_taken (ground arith)
  | inr e ↦ rw e λ h. take_three_taken bs net n h
]
  where
    all_taken : length bs ≡ n → (n ≤ length bs) × (net.file ++ bs ≡ net.file ++ take n bs)
    all_taken e = (omega arith, ap (λ ys. net.file ++ ys) (sym (take_all n bs (omega arith))))

write_either_refused :
    (fd : ℕ) (bs : List ℕ) (net : Net)
    → (write_either fd bs net).0 ≡ none
    → gone fd (write_either fd bs net).1 ≡ gone fd net
write_either_refused fd bs net = elim (Bool-cases (fd == 7)) [
  | inl e ↦ rw e λ h. cc
  | inr e ↦ rw e λ h. cc
]

site-Output : Output site
site-Output = record {
  sent = λ fd net. gone fd net;
  write_some = λ fd bs net n h. write_either_taken fd bs net n h;
  write_none = λ fd bs net h. write_either_refused fd bs net h;
}

site-Serving : Serving site site-Output 4 5
unfolding site-Output
site-Serving = record {
  rest = λ net. net.input;
  contents = codes "hello";
  takes = λ bs net h. takes_some bs h;
  write_rest = λ bs net. refl;
  read_sends = λ len net. refl;
  read_over = λ len net e. nothing_left len net.input e;
  read_part = λ len net h n. first_part len net.input h n;
  seek_size = λ net. refl;
  seek_back = λ net. refl;
  seek_sends = λ net. refl;
}

-- `Host: x`
abbrev host_field : Field
host_field = record { key = codes "Host"; before = 1; value = codes "x"; after = 0 }

abbrev name : List ℕ
name = codes "a.b"

abbrev asked : Net
asked = record idle { taken = codes "GET /a.b HTTP/1.1\r\nHost: x\r\n\r\n" }

-- A connection that was just accepted.
abbrev accepted : State
accepted = record {
  req = record {
    buf = replicate max_header 0;
    buf_end = 0;
    parsed_end = 0;
    buf_len = max_header;
    body_len = 0;
    id = invalid_strview;
    uri = invalid_strview;
    method_view = invalid_strview;
    method = none_yet;
    put_fd = none;
    get_fd = none;
  };
  res = record { buf = replicate max_header 0; buf_end = 0; flushed = 0; buf_len = max_header };
  status = ok;
  stage = request_line;
}
