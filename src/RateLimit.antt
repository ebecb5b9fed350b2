-- ===== src/RateLimit.antt =====
-- The token-bucket limiter of app/security/ratelimit.py.
--
-- Time is in ticks of the monotonic clock, `resolution` to the second, and an amount of tokens in
-- units of 1 / (window * resolution) of a token, so that the floats of the source are exact numbers
-- here: `capacity / window` tokens a second are `capacity` units a tick. A cost is in whole tokens.
-- A capacity of 0, for which a denied check divides by zero, is left out.
pub mod Check
pub mod Bound
pub mod Sweep
mod Tests
use skyrecon.Base.{
  ℕ, ◌+◌, ◌-◌, ◌*◌, ◌≤◌, String, Bool, true, false, not, Option, none, some, List, [], ◌∷◌, min,
  max, ltb, leb, keep, length, if◌then◌else◌,
}
use skyrecon.Dict.{Dict, lookup, insert, erase, keep_values}

pub record Bucket : Type 0 where
  pub tokens : ℕ
  pub updated : ℕ

pub record RateLimiter : Type 0 where
  pub capacity : ℕ
  pub window_seconds : ℕ
  pub buckets : Dict Bucket

-- A number of seconds as a fraction.
pub record Seconds : Type 0 where
  pub numerator : ℕ
  pub denominator : ℕ

-- The units of one token, for a clock of the given resolution.
abbrev pub unit : ℕ → RateLimiter → ℕ
unit resolution l = max l.window_seconds 1 * resolution

-- `if bucket is None: bucket = _Bucket(tokens=capacity, updated=now)`
abbrev pub bucket_or_full : ℕ → ℕ → Option Bucket → Bucket
bucket_or_full full now none = record { tokens = full; updated = now }
bucket_or_full full now (some b) = b

-- `min(capacity, tokens + (now - updated) * rate)`, and `updated = now`
unfoldable pub refill : ℕ → ℕ → ℕ → Bucket → Bucket
refill full capacity now b = record {
  tokens = min full (b.tokens + (now - b.updated) * capacity);
  updated = now;
}

-- The answer of `check` and the bucket that it leaves, from a bucket that was refilled.
unfoldable pub spend : ℕ → ℕ → Bucket → Bucket × Bool × Seconds
spend price per_second b =
    if leb price b.tokens
    then (record b { tokens = b.tokens - price }, true, record { numerator = 0; denominator = 1 })
    else (b, false, record { numerator = price - b.tokens; denominator = per_second })

unfoldable pub check_bucket : ℕ → RateLimiter → ℕ → ℕ → Option Bucket → Bucket × Bool × Seconds
unfolding refill spend
check_bucket resolution l cost now found =
    let full = l.capacity * unit resolution l in
    spend (cost * unit resolution l) (l.capacity * resolution)
      (refill full l.capacity now (bucket_or_full full now found))

unfoldable pub check : ℕ → RateLimiter → String → ℕ → ℕ → RateLimiter × Bool × Seconds
check resolution l identity cost now =
    let (b, allowed, wait) = check_bucket resolution l cost now (lookup identity l.buckets) in
    (record l { buckets = insert identity b l.buckets }, allowed, wait)

unfoldable pub reset : RateLimiter → Option String → RateLimiter
reset l none = record l { buckets = [] }
reset l (some identity) = record l { buckets = erase identity l.buckets }

-- `b.updated < now - max_idle_seconds`
unfoldable pub is_stale : ℕ → ℕ → ℕ → Bucket → Bool
is_stale resolution max_idle_seconds now b = ltb (b.updated + max_idle_seconds * resolution) now

-- Drops the stale buckets and counts them.
unfoldable pub sweep : ℕ → RateLimiter → ℕ → ℕ → RateLimiter × ℕ
unfolding is_stale
sweep resolution l max_idle_seconds now =
    let stale = is_stale resolution max_idle_seconds now in
    (
      record l { buckets = keep_values (λ b. not (stale b)) l.buckets },
      length (keep (λ (e : String × Bucket). stale e.1) l.buckets),
    )
