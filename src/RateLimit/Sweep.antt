-- ===== src/RateLimit/Sweep.antt =====
-- Sweeping is invisible, and the wait that a refusal reports is long enough.
use skyrecon.Base.{
  ℕ, ◌+◌, ◌-◌, ◌*◌, ◌≤◌, ◌<◌, ◌≡◌, refl, ap, ◌∙◌, Bool, true, false, not, Option, none, some, max,
  min, arith, String, str_eq_iff, ltb, leb, le→leb, ltb→lt, Bool-cases, inl, inr,
}
use skyrecon.Dict.{
  Dict, keep_values, lookup, Unique, filter_option, lookup-keep_values, lookup-insert,
}
use skyrecon.RateLimit.{
  Bucket, RateLimiter, Seconds, unit, bucket_or_full, refill, spend, is_stale, check_bucket, check,
  sweep,
}

scale_le : (c m n : ℕ) → m ≤ n → m * c ≤ n * c
scale_le c m n h = grind arith

unscale_le : (c m n : ℕ) → 0 < c → m * c ≤ n * c → m ≤ n
unscale_le c m n p h = grind (arith, scale_le c (n + 1) m)

-- A bucket that was idle for a window is refilled to the brim, like a new one.
idle-full :
    (resolution : ℕ) (l : RateLimiter) (b : Bucket) (idle now later : ℕ)
    → max l.window_seconds 1 ≤ idle
    → b.updated + idle * resolution < now
    → now ≤ later
    → l.capacity * unit resolution l ≤ (later - b.updated) * l.capacity
idle-full resolution l b idle now later w st le =
    let a : max l.window_seconds 1 * resolution ≤ idle * resolution =
      scale_le resolution _ idle w in
    let c : max l.window_seconds 1 * resolution ≤ later - b.updated = omega arith in
    omega (arith, scale_le l.capacity (max l.window_seconds 1 * resolution) (later - b.updated) c)

check_bucket-filter :
    (resolution : ℕ) (l : RateLimiter) (cost idle now later : ℕ) (found : Option Bucket)
    → max l.window_seconds 1 ≤ idle
    → now ≤ later
    → check_bucket resolution l cost later
        (filter_option (λ b. not (is_stale resolution idle now b)) found)
      ≡ check_bucket resolution l cost later found
unfolding is_stale
check_bucket-filter resolution l cost idle now later none w le = refl
check_bucket-filter resolution l cost idle now later (some b) w le =
    elim (Bool-cases (ltb (b.updated + idle * resolution) now)) [
      | inl e ↦
          let full = l.capacity * unit resolution l in
          let brim = idle-full resolution l b idle now later w (ltb→lt _ _ e) le in
          let same : refill full l.capacity later (record { tokens = full; updated = later })
              ≡ refill full l.capacity later b =
            unfold refill in ground arith in
          rw e (
            unfold check_bucket in
            ap (spend (cost * unit resolution l) (l.capacity * resolution)) same)
      | inr e ↦ rw e
    ]

check_bucket-buckets :
    (resolution : ℕ) (l : RateLimiter) (d : Dict Bucket) (cost now : ℕ) (found : Option Bucket)
    → check_bucket resolution (record l { buckets = d }) cost now found
      ≡ check_bucket resolution l cost now found
unfolding check_bucket
check_bucket-buckets resolution l d cost now found = refl

-- A sweep that spares what was used within the window changes no answer: at any later time every identity gets the same decision and the same wait as without it.
pub check-sweep :
    (resolution : ℕ) (l : RateLimiter) (identity : String) (cost idle now later : ℕ)
    → Unique l.buckets
    → max l.window_seconds 1 ≤ idle
    → now ≤ later
    → ((check resolution (sweep resolution l idle now).0 identity cost later).1
        ≡ (check resolution l identity cost later).1)
      × ((check resolution (sweep resolution l idle now).0 identity cost later).2
          ≡ (check resolution l identity cost later).2)
unfolding check sweep
check-sweep resolution l identity cost idle now later u w le =
    let p = λ (b : Bucket). not (is_stale resolution idle now b) in
    let same =
      check_bucket-buckets resolution l (keep_values p l.buckets) cost later
        (lookup identity (keep_values p l.buckets))
      ∙ ap (check_bucket resolution l cost later) (lookup-keep_values p identity l.buckets u)
      ∙ check_bucket-filter resolution l cost idle now later (lookup identity l.buckets) w le in
    (ap (λ (r : Bucket × Bool × Seconds). r.1) same, ap (λ (r : Bucket × Bool × Seconds). r.2) same)

-- A bucket that was refused the price, refilled `t - now` ticks later.
spend_later :
    (full capacity resolution price now t : ℕ) (b : Bucket)
    → 0 < resolution
    → b.updated ≡ now
    → price ≤ full
    → (spend price (capacity * resolution) b).1 ≡ false
    → (spend price (capacity * resolution) b).2.numerator * resolution
      ≤ (t - now) * (spend price (capacity * resolution) b).2.denominator
    → (spend price
        (capacity * resolution)
        (refill full capacity t (spend price (capacity * resolution) b).0)).1
      ≡ true
unfolding spend
spend_later full capacity resolution price now t b res same fits =
    elim (Bool-cases (leb price b.tokens)) [
      | inl e ↦ rw e (λ no_ wait. cc)
      | inr e ↦ rw e (λ refused wait.
          let enough =
            unscale_le resolution (price - b.tokens) ((t - now) * capacity) res (omega arith) in
          unfold refill in
          rw (same, le→leb price (min full (b.tokens + (t - now) * capacity)) (omega arith)))
    ]

-- A refused identity that comes back after the reported wait, with no request of its own in between, is admitted, provided that the cost is within the capacity.
pub check-retry :
    (resolution : ℕ) (l : RateLimiter) (identity : String) (cost now t : ℕ)
    → 0 < resolution
    → cost ≤ l.capacity
    → (check resolution l identity cost now).1 ≡ false
    → (check resolution l identity cost now).2.numerator * resolution
      ≤ (t - now) * (check resolution l identity cost now).2.denominator
    → (check resolution (check resolution l identity cost now).0 identity cost t).1 ≡ true
unfolding check
check-retry resolution l identity cost now t res within refused wait =
    rw
      (
        lookup-insert identity identity
            (check_bucket resolution l cost now (lookup identity l.buckets)).0 l.buckets,
        (str_eq_iff identity identity).1 refl,
      )
      (unfold check_bucket in
        spend_later (l.capacity * unit resolution l) l.capacity resolution
          (cost * unit resolution l) now t
          (refill (l.capacity * unit resolution l) l.capacity now
            (bucket_or_full (l.capacity * unit resolution l) now (lookup identity l.buckets)))
          res (unfold refill in refl) (scale_le (unit resolution l) cost l.capacity within) refused
          wait)
