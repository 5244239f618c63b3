-- ===== src/Limiter.antt =====
-- internal/web/ratelimit.go: the token bucket of each client address. `time.Time` is a number of
-- nanoseconds on a clock that does not go back. A `float64` of tokens is the exact number times
-- 1000000000, so that `elapsed.Seconds() * rps` is `elapsed * rps`; rounding is not modelled.
pub mod Budget
use gosupervisor.Prelude.{
  ℕ, suc, ◌+◌, ◌-◌, ◌*◌, ℤ, is_positive, nat_of, Bool, true, false, List, [], ◌∷◌, Option, none,
  some, ltb, leb, if◌then◌else◌, Text, lookup, insert,
}

abbrev pub second : ℕ
second = 1000000000

pub record Bucket : Type 0 where
  pub tokens : ℕ
  pub last_time : ℕ

pub record RateLimiter : Type 0 where
  pub buckets : List (Text × Bucket)
  pub rps : ℕ
  pub burst : ℕ

unfoldable pub new_rate_limiter : ℤ → ℤ → RateLimiter
new_rate_limiter rps burst =
    let rps' : ℕ = if is_positive rps then nat_of rps else 100 in
    let burst' : ℕ = if is_positive burst then nat_of burst else rps' * 2 in
    record { buckets = []; rps = rps'; burst = burst' }

-- The refilled tokens of a bucket at time `now`, at most a burst.
unfoldable pub refill : (burst rps now : ℕ) → Bucket → ℕ
refill burst rps now b =
    let tokens = b.tokens + (now - b.last_time) * rps in
    if ltb (burst * second) tokens then burst * second else tokens

-- The bucket that a request leaves behind, and whether it is allowed.
unfoldable pub spend : (burst rps now : ℕ) → Option Bucket → Bucket × Bool
unfolding refill
spend burst rps now none = (record { tokens = burst * second - second; last_time = now }, true)
spend burst rps now (some b) =
    let tokens = refill burst rps now b in
    if leb second tokens
    then (record { tokens = tokens - second; last_time = now }, true)
    else (record { tokens = tokens; last_time = now }, false)

unfoldable pub allow : Text → ℕ → RateLimiter → RateLimiter × Bool
unfolding spend
allow ip now rl =
    let (b, ok) = spend rl.burst rl.rps now (lookup ip rl.buckets) in
    (record rl { buckets = insert ip b rl.buckets }, ok)

-- The body of the ticker's case in `cleanup`.
unfoldable pub sweep : ℕ → ℕ → List (Text × Bucket) → List (Text × Bucket)
sweep interval now [] = []
sweep interval now ((ip, b) ∷ rest) =
    let kept = sweep interval now rest in
    if ltb interval (now - b.last_time) then kept else (ip, b) ∷ kept

unfoldable pub cleanup : ℕ → ℕ → RateLimiter → RateLimiter
unfolding sweep
cleanup interval now rl = record rl { buckets = sweep interval now rl.buckets }
