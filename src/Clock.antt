-- ===== src/Clock.antt =====
-- time.c: a program of its own, which prints the time of day as one number.
use cse130_asgn.Base.{
  ℤ, pos, negsuc, ℕ, ◌+◌, ◌-◌, ◌*◌, ◌/◌, ◌%◌, ◌^◌, ◌<◌, List, ◌++◌, codes, ◌≡◌, arith,
}
use cse130_asgn.Helpers.Decimal.{decimal}

-- What `gettimeofday` fills.
pub record Timeval : Type 0 where
  pub tv_sec : ℤ
  pub tv_usec : ℤ

-- The cast to `unsigned long long`.
abbrev to_unsigned : ℤ → ℕ
to_unsigned (pos n) = n % 2 ^ 64
to_unsigned (negsuc n) = 2 ^ 64 - 1 - n % 2 ^ 64

unfoldable pub milliseconds_since_epoch : Timeval → ℕ
milliseconds_since_epoch tv =
    (to_unsigned tv.tv_sec * 10000 % 2 ^ 64 + to_unsigned tv.tv_usec / 100) % 2 ^ 64

-- `printf("%llu\n", …)`
unfoldable pub time_line : Timeval → List ℕ
time_line tv = decimal (milliseconds_since_epoch tv) ++ codes "\n"

-- Of a time since 1970, as long as the product does not wrap, the number is the microseconds by a
-- hundred: tenths of a millisecond.
pub milliseconds_since_epoch_lem :
    (sec usec : ℕ)
    → sec * 10000 + 10000 < 2 ^ 64
    → usec < 1000000
    → milliseconds_since_epoch (record { tv_sec = pos sec; tv_usec = pos usec })
      ≡ (sec * 1000000 + usec) / 100
unfolding milliseconds_since_epoch
milliseconds_since_epoch_lem sec usec small fraction = omega arith
