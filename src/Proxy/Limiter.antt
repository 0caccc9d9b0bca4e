-- ===== src/Proxy/Limiter.antt =====
-- internal/proxy/ratelimit.go: the token bucket of one site, with a bucket for each client. Time is
-- in nanoseconds, and an amount of tokens is an integer number of billionths: a nanosecond then
-- adds `rps` billionths, exactly, where the source rounds in float64.
pub mod Capacity
pub mod Run
pub mod Overflow
pub mod Bound
pub mod Spacing
mod Tests
use proxy_go.Prelude.{
  if◌then◌else◌, Text, nat_eq, text_eq, ℕ, ◌+◌, ◌*◌, ◌%◌, ◌^◌, Bool, true, false, not, Option, none,
  some, [],
}
use proxy_go.Prelude.Int.{ℤ, pos, pos_part, neg_part, sub_ℕ, ◌+ℤ◌, ◌-ℤ◌, ltb_ℤ, int64}
use proxy_go.Dict.{Dict, lookup, insert}

-- one token, and the nanoseconds of a second
abbrev pub unit : ℕ
unit = 1_000_000_000

pub record TokenBucket : Type 0 where
  pub tokens : ℤ
  pub last : ℕ

pub record Limiter : Type 0 where
  pub rps : ℕ
  pub burst : ℤ
  pub bs : Dict Text TokenBucket

-- the sum of two ints that are not negative, with the wrap-around of an int64
unfoldable pub add_int : ℕ → ℕ → ℤ
add_int a b = int64 ((a + b) % 2 ^ 64)

-- whole tokens in billionths
abbrev pub scaled : ℤ → ℤ
scaled z = sub_ℕ (pos_part z * unit) (neg_part z * unit)

-- `none` is the nil limiter, which lets everything pass. `burst` holds rps + burst tokens, where the
-- sum wraps around.
unfoldable pub new_limiter : ℤ → ℤ → Option Limiter
unfolding add_int
new_limiter rps burst =
    if not (ltb_ℤ (pos 0) rps)
    then none
    else (let extra = if ltb_ℤ burst (pos 0) then 0 else pos_part burst in
        some
          (record { rps = pos_part rps; burst = scaled (add_int (pos_part rps) extra); bs = [] }))

-- `now - last` may be negative: the time is read before the lock is taken.
unfoldable pub refill : Limiter → TokenBucket → ℕ → ℤ
refill l tb now =
    let grown = tb.tokens +ℤ sub_ℕ (now * l.rps) (tb.last * l.rps) in
    if ltb_ℤ l.burst grown then l.burst else grown

-- the time is stored, and a token is taken if there is one
unfoldable pub spend_token : ℤ → ℕ → Bool × TokenBucket
spend_token tokens now =
    if ltb_ℤ tokens (pos unit)
    then (false, record { tokens = tokens; last = now })
    else (true, record { tokens = tokens -ℤ pos unit; last = now })

-- a visit to a bucket that is there
unfoldable pub visit : Limiter → TokenBucket → ℕ → Bool × TokenBucket
unfolding refill spend_token
visit l tb now = spend_token (refill l tb now) now

unfoldable pub first_bucket : Limiter → ℕ → TokenBucket
first_bucket l now = record { tokens = l.burst -ℤ pos unit; last = now }

-- the two branches of `Allow`: the answer, and the bucket that the map holds afterwards
unfoldable pub serve_bucket : Limiter → Option TokenBucket → ℕ → Bool × TokenBucket
unfolding visit first_bucket
serve_bucket l none now = (true, first_bucket l now)
serve_bucket l (some tb) now = visit l tb now

unfoldable pub allow : Text → ℕ → Limiter → Bool × Limiter
unfolding serve_bucket
allow key now l =
    let (ok, tb) = serve_bucket l (lookup key l.bs) now in
    (ok, record l { bs = insert key tb l.bs })

-- `Allow` on a limiter that may be nil
unfoldable pub allow_opt : Text → ℕ → Option Limiter → Bool × Option Limiter
unfolding allow
allow_opt key now none = (true, none)
allow_opt key now (some l) = let (ok, l') = allow key now l in (ok, some l')
