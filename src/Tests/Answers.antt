-- ===== src/Tests/Answers.antt =====
-- A whole answer, through a socket that takes three bytes a call.
use cse130_asgn.Base.{
  ℕ, zero, suc, ◌≤◌, ◌<◌, List, [], ◌∷◌, ◌++◌, Option, none, some, length, take, drop, replicate,
  ◌≡◌, ◌≢◌, refl, sym, ap, arith, codes, length-take, length-replicate, take-append-drop,
}
use cse130_asgn.Os.{Os, Output}
use cse130_asgn.StrView.{invalid_strview}
use cse130_asgn.Log.{Logger}
use cse130_asgn.Server.{State, ok, get, build_header, max_header}
use cse130_asgn.Server.Response.Build.{IsFresh}
use cse130_asgn.Server.Answer.{Serving}
use cse130_asgn.Server.Answer.Rounds.{Finishes}
use cse130_asgn.Server.Answer.Delivered.{answer, handle_request-Finishes}
use cse130_asgn.Tests.Host.{Net, host, idle, take-length-take}

abbrev pub take_three : List ℕ → Net → Option ℕ × Net
take_three bs net = (some (length (take 3 bs)), record net { out = net.out ++ take 3 bs })

-- What is left of the file, and `lseek` to its start.
abbrev pub read_file_part : ℕ → Net → Option (List ℕ) × Net
read_file_part len net = (some (take len net.input), record net { input = drop len net.input })

abbrev server : Os
server = record host {
  write = λ fd bs net. take_three bs net;
  read = λ fd len net. read_file_part len net;
  seek_end = λ fd net. (some 5, net);
  seek_start = λ fd net. record net { input = codes "hello" };
}

pub take_three_taken :
    (bs : List ℕ) (net : Net) (n : ℕ)
    → some (length (take 3 bs)) ≡ some n
    → (n ≤ length bs) × (net.out ++ take 3 bs ≡ net.out ++ take n bs)
take_three_taken bs net n h =
    let e : length (take 3 bs) ≡ n = ground arith in
    rw (← e)
      (omega (arith, length-take 3 bs), ap (λ ys. net.out ++ ys) (sym (take-length-take 3 bs)))

server-Output : Output server
server-Output = record {
  sent = λ fd net. net.out;
  write_some = λ fd bs net n h. take_three_taken bs net n h;
  write_none = λ fd bs net h. cc;
}

pub takes_some :
    (bs : List ℕ) → 0 < length bs → (k : ℕ) × (some (length (take 3 bs)) ≡ some (suc k))
takes_some [] h = absurd (omega arith)
takes_some (b ∷ bs) h = (length (take 2 bs), refl)

pub first_part :
    (len : ℕ) (left : List ℕ)
    → 0 < len
    → left ≢ []
    → (bs : List ℕ) × (some (take len left) ≡ some bs)
      × (0 < length bs)
      × (length bs ≤ len)
      × (left ≡ bs ++ drop len left)
first_part len [] h n = absurd (n refl)
first_part len (b ∷ bs) h n = (
  take len (b ∷ bs),
  refl,
  omega (arith, length-take len (b ∷ bs)),
  omega (arith, length-take len (b ∷ bs)),
  sym (take-append-drop len (b ∷ bs)),
)

pub nothing_left : (len : ℕ) (left : List ℕ) → left ≡ [] → some (take len left) ≡ some []
nothing_left zero left e = refl
nothing_left (suc len) left e = rw e refl

server-Serving : Serving server server-Output 4 5
unfolding server-Output
server-Serving = record {
  rest = λ net. net.input;
  contents = codes "hello";
  takes = λ bs net h. takes_some bs h;
  write_rest = λ bs net. refl;
  read_sends = λ len net. refl;
  read_over = λ len net e. nothing_left len net.input e;
  read_part = λ len net h n. first_part len net.input h n;
  seek_size = λ net. refl;
  seek_back = λ net. refl;
  seek_sends = λ net. refl;
}

-- A GET of a file of five bytes.
abbrev hello : State
hello = record {
  req = record {
    buf = [];
    buf_end = 0;
    parsed_end = 0;
    buf_len = max_header;
    body_len = 0;
    id = invalid_strview;
    uri = invalid_strview;
    method_view = invalid_strview;
    method = get;
    put_fd = none;
    get_fd = some 5;
  };
  res = record { buf = replicate max_header 0; buf_end = 0; flushed = 0; buf_len = max_header };
  status = ok;
  stage = build_header;
}

abbrev pub logger : Logger
logger = record { buf = codes "........"; buf_head = 0; buffer_size = 8; logfd = 1 }

hello-IsFresh : IsFresh hello
hello-IsFresh = record {
  res_len = refl;
  req_len = refl;
  res_size = length-replicate {A = ℕ} max_header 0;
  res_end = refl;
}

handle_request-Finishes_example :
    Finishes server server-Output 4 14 1 (answer hello (codes "hello")) hello logger idle
unfolding server-Serving
handle_request-Finishes_example =
    handle_request-Finishes server server-Output 4 5 server-Serving hello logger idle 14 1 refl
      hello-IsFresh refl (λ e. refl) (omega arith) (omega arith)

answer_text :
    answer hello (codes "hello") ≡ codes "HTTP/1.1 200 OK\r\nContent-Length: 5\r\n\r\nhello"
unfolding cse130_asgn.Server.Text.get_status_name cse130_asgn.Helpers.Decimal.decimal
answer_text = refl
