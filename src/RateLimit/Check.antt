-- ===== src/RateLimit/Check.antt =====
-- What one check does to the bucket of one identity.
use skyrecon.Base.{ℕ, ◌*◌, ◌≤◌, ◌≡◌, false, Option, none, some, arith, String, str_eq, str_eq_iff}
use skyrecon.Dict.{lookup, lookup-insert}
use skyrecon.RateLimit.{Bucket, RateLimiter, unit, check_bucket, check}

-- An identity's bucket holds at most a full load, and was touched at the latest now.
abbrev pub Fits : ℕ → ℕ → Option Bucket → Type 0
Fits full now none = Unit
Fits full now (some b) = (b.tokens ≤ full) × (b.updated ≤ now)

check_bucket-Fits :
    (resolution : ℕ) (l : RateLimiter) (cost now : ℕ) (found : Option Bucket)
    → Fits (l.capacity * unit resolution l) now (some (check_bucket resolution l cost now found).0)
unfolding check_bucket
check_bucket-Fits resolution l cost now found = ground arith

-- Asking on behalf of one identity leaves the buckets of all others as they are.
pub check-others :
    (resolution : ℕ) (l : RateLimiter) (identity other : String) (cost now : ℕ)
    → str_eq identity other ≡ false
    → lookup other (check resolution l identity cost now).0.buckets ≡ lookup other l.buckets
unfolding check
check-others resolution l identity other cost now ne = rw (lookup-insert, ne)

pub check_self :
    (resolution : ℕ) (l : RateLimiter) (identity : String) (cost now : ℕ)
    → lookup identity (check resolution l identity cost now).0.buckets
      ≡ some (check_bucket resolution l cost now (lookup identity l.buckets)).0
unfolding check
check_self resolution l identity cost now = ground (
  arith,
  str_eq_iff identity identity,
  lookup-insert identity identity (check_bucket resolution l cost now (lookup identity l.buckets)).0
      l.buckets,
)
