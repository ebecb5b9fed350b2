-- ===== src/RateLimit/Bound.antt =====
-- How many requests the limiter admits over a run of checks and sweeps.
use skyrecon.Base.{
  ℕ, suc, ◌+◌, ◌-◌, ◌*◌, ◌≤◌, ◌<◌, ◌≡◌, refl, Bool, true, false, not, ◌&&◌, Option, none, some,
  List, [], ◌∷◌, min, max, arith, String, str_eq, str_eq_iff, if◌then◌else◌, ltb, leb, leb→le,
  ltb→lt, Bool-cases, inl, inr,
}
use native.Mathlib.Nat.{zero-add}
use skyrecon.Dict.{
  lookup, Unique, filter_option, insert-Unique, keep_values-Unique, lookup-keep_values,
}
use skyrecon.RateLimit.{Bucket, RateLimiter, unit, is_stale, check_bucket, check, sweep}
use skyrecon.RateLimit.Check.{check-others, check_self}

-- A call of the limiter: a request of an identity, or a sweep of idle buckets, at a time.
pub data Call : Type 0 where
  ask : String → ℕ → Call
  clean : ℕ → ℕ → Call

abbrev pub time : Call → ℕ
time (ask _ now) = now
time (clean _ now) = now

module _ (resolution : ℕ) where
  unfoldable pub call : RateLimiter → Call → RateLimiter × Bool
  call l (ask i now) = let (l', allowed, _) = check resolution l i 1 now in (l', allowed)
  call l (clean idle now) = ((sweep resolution l idle now).0, false)

  abbrev pub is_for : String → Call → Bool
  is_for k (ask i now) = str_eq i k
  is_for k (clean _ _) = false

  -- The requests of `k` that a run admits.
  unfoldable pub admitted : String → RateLimiter → List Call → ℕ
  admitted k l [] = 0
  admitted k l (c ∷ cs) = (if (call l c).1 && is_for k c then 1 else 0) + admitted k (call l c).0 cs

  -- The times do not go back, and a sweep spares what was used within the window.
  abbrev pub IsRun : ℕ → ℕ → List Call → Type 0
  IsRun window from [] = Unit
  IsRun window from (ask i now ∷ cs) = (from ≤ now) × IsRun window now cs
  IsRun window from (clean idle now ∷ cs) =
      (from ≤ now) × (max window 1 ≤ idle) × IsRun window now cs

  abbrev pub end : ℕ → List Call → ℕ
  end from [] = from
  end from (c ∷ cs) = end (time c) cs

  -- What the bucket of an identity says of the `a` requests admitted since `start`.
  abbrev Accounts : RateLimiter → ℕ → ℕ → ℕ → Option Bucket → Type 0
  Accounts l start a now none = a * unit resolution l + start * l.capacity ≤ now * l.capacity
  Accounts l start a now (some b) =
      (a * unit resolution l + b.tokens + start * l.capacity
        ≤ l.capacity * unit resolution l + b.updated * l.capacity)
      × (b.updated ≤ now)

  elapsed : (c u n : ℕ) → u ≤ n → (n - u) * c + u * c ≡ n * c
  elapsed c u n h = grind arith

  check_bucket-Accounts :
      (l : RateLimiter) (start a before now : ℕ) (found : Option Bucket)
      → before ≤ now
      → Accounts l start a before found
      → let r = check_bucket resolution l 1 now found in
        Accounts l start (if r.1 then suc a else a) now (some r.0)
  unfolding check_bucket
  check_bucket-Accounts l start a before now none le h =
      let full = l.capacity * unit resolution l in
      let one = 1 * unit resolution l in
      let level = min full (full + (now - now) * l.capacity) in
      elim (Bool-cases (leb one level)) [
        | inl e ↦
            rw e (omega (arith, leb→le one level e, elapsed l.capacity before now le), omega arith)
        | inr e ↦ rw e (omega (arith, elapsed l.capacity before now le), omega arith)
      ]
  check_bucket-Accounts l start a before now (some b) le h =
      let full = l.capacity * unit resolution l in
      let one = 1 * unit resolution l in
      let level = min full (b.tokens + (now - b.updated) * l.capacity) in
      let le' : b.updated ≤ now = omega arith in
      elim (Bool-cases (leb one level)) [
        | inl e ↦
            rw e
              (omega (arith, leb→le one level e, elapsed l.capacity b.updated now le'), omega arith)
        | inr e ↦ rw e (omega (arith, elapsed l.capacity b.updated now le'), omega arith)
      ]

  scale_le : (c m i : ℕ) → m ≤ i → m * c ≤ i * c
  scale_le c m i h = grind arith

  scale_lt : (c u w n : ℕ) → u + w < n → u * c + w * c ≤ n * c
  scale_lt c u w n h = omega (arith, scale_le c (u + w) n (omega arith))

  -- A bucket that a sweep drops was idle for long enough to be full again.
  sweep-Accounts :
      (l : RateLimiter) (start a before idle now : ℕ) (found : Option Bucket)
      → before ≤ now
      → max l.window_seconds 1 ≤ idle
      → Accounts l start a before found
      → Accounts l start a now (filter_option (λ b. not (is_stale resolution idle now b)) found)
  unfolding is_stale
  sweep-Accounts l start a before idle now none le w h =
      omega (arith, elapsed l.capacity before now le)
  sweep-Accounts l start a before idle now (some b) le w h =
      elim (Bool-cases (ltb (b.updated + idle * resolution) now)) [
        | inl e ↦ rw e (
            omega (
              arith,
              scale_lt l.capacity b.updated (idle * resolution) now (ltb→lt _ _ e),
              scale_le (resolution * l.capacity) (max l.window_seconds 1) idle w,
            ))
        | inr e ↦ rw e (h.0, omega arith)
      ]

  later-Accounts :
      (l : RateLimiter) (start a before now : ℕ) (found : Option Bucket)
      → before ≤ now
      → Accounts l start a before found
      → Accounts l start a now found
  later-Accounts l start a before now none le h = omega (arith, scale_le l.capacity before now le)
  later-Accounts l start a before now (some b) le h = (h.0, omega arith)

  and_true : (b : Bool) → (b && true) ≡ b
  and_true b = ground arith

  and_false : (b : Bool) → (b && false) ≡ false
  and_false b = ground arith

  check-allowed :
      (l : RateLimiter) (i : String) (now : ℕ)
      → (check resolution l i 1 now).1 ≡ (check_bucket resolution l 1 now (lookup i l.buckets)).1
  unfolding check
  check-allowed l i now = refl

  -- One call: the account of `k` is kept, with one more request if one of `k` is admitted.
  call-Accounts :
      (k : String) (l : RateLimiter) (start a before : ℕ) (c : Call)
      → Unique l.buckets
      → IsRun l.window_seconds before (c ∷ [])
      → Accounts l start a before (lookup k l.buckets)
      → Accounts l start
          (if (call l c).1 && is_for k c then suc a else a)
          (time c)
          (lookup k (call l c).0.buckets)
  unfolding call
  call-Accounts k l start a before (ask i now) u run h = elim (Bool-cases (str_eq i k)) [
    | inl e ↦
        let e' = (str_eq_iff i k).0 e in
        rw (e, and_true, ← e', check_self resolution l i 1 now, check-allowed l i now)
          (check_bucket-Accounts l start a before now (lookup i l.buckets) run.0 (rw e' h))
    | inr e ↦
        rw (e, and_false, check-others resolution l i k 1 now e)
          (later-Accounts l start a before now (lookup k l.buckets) run.0 h)
  ]
  call-Accounts k l start a before (clean idle now) u run h =
      unfold sweep in
      rw (lookup-keep_values _ k l.buckets u)
        (sweep-Accounts l start a before idle now (lookup k l.buckets) run.0 run.1 h)

  call-Unique : (l : RateLimiter) (c : Call) → Unique l.buckets → Unique (call l c).0.buckets
  unfolding call check sweep
  call-Unique l (ask i now) u = insert-Unique i _ l.buckets u
  call-Unique l (clean idle now) u = keep_values-Unique _ l.buckets u

  call-capacity : (l : RateLimiter) (c : Call) → (call l c).0.capacity ≡ l.capacity
  unfolding call check sweep
  call-capacity l (ask i now) = refl
  call-capacity l (clean idle now) = refl

  call-window : (l : RateLimiter) (c : Call) → (call l c).0.window_seconds ≡ l.window_seconds
  unfolding call check sweep
  call-window l (ask i now) = refl
  call-window l (clean idle now) = refl

  Accounts-call :
      (l : RateLimiter) (start a now : ℕ) (c : Call) (found : Option Bucket)
      → Accounts l start a now found
      → Accounts (call l c).0 start a now found
  Accounts-call l start a now c none h = rw (call-capacity l c, call-window l c) h
  Accounts-call l start a now c (some b) h = rw (call-capacity l c, call-window l c) h

  IsRun-split :
      (w from : ℕ) (c : Call) (cs : List Call)
      → IsRun w from (c ∷ cs)
      → IsRun w from (c ∷ []) × IsRun w (time c) cs
  IsRun-split w from (ask i now) cs h = ((h.0, tt), h.1)
  IsRun-split w from (clean idle now) cs h = ((h.0, h.1, tt), h.2)

  Accounts-bound :
      (l : RateLimiter) (start a now : ℕ) (found : Option Bucket)
      → Accounts l start a now found
      → a * unit resolution l + start * l.capacity
        ≤ l.capacity * unit resolution l + now * l.capacity
  Accounts-bound l start a now none h = omega arith
  Accounts-bound l start a now (some b) h = omega (arith, scale_le l.capacity b.updated now h.1)

  run-bound :
      (k : String) (l : RateLimiter) (start a before : ℕ) (cs : List Call)
      → Unique l.buckets
      → IsRun l.window_seconds before cs
      → Accounts l start a before (lookup k l.buckets)
      → (a + admitted k l cs) * unit resolution l + start * l.capacity
        ≤ l.capacity * unit resolution l + end before cs * l.capacity
  unfolding admitted
  run-bound k l start a before [] u run h =
      omega (arith, Accounts-bound l start a before (lookup k l.buckets) h)
  run-bound k l start a before (c ∷ cs) u run h =
      let l' = (call l c).0 in
      let counted = (call l c).1 && is_for k c in
      let a' = if counted then suc a else a in
      let (one, more) = IsRun-split l.window_seconds before c cs run in
      let kept =
        Accounts-call l start a' (time c) c (lookup k l'.buckets)
          (call-Accounts k l start a before c u one h) in
      let rest =
        run-bound k l' start a' (time c) cs (call-Unique l c u) (rw (call-window l c) more) kept in
      elim (Bool-cases counted) [
        | inl e ↦ rw e (omega (arith, rw (e, call-capacity l c, call-window l c) at rest))
        | inr e ↦ rw e (omega (arith, rw (e, call-capacity l c, call-window l c) at rest))
      ]

-- From a limiter with no bucket for `k`, over any run of requests of any identities and of sweeps that spare what was used within the window, the requests of `k` that are admitted number at most a full bucket and what flows in, at `capacity` tokens a window, from the start to the end.
pub admitted_bound :
    (resolution : ℕ) (k : String) (l : RateLimiter) (start : ℕ) (cs : List Call)
    → Unique l.buckets
    → lookup k l.buckets ≡ none
    → IsRun resolution l.window_seconds start cs
    → admitted resolution k l cs * unit resolution l + start * l.capacity
      ≤ l.capacity * unit resolution l + end resolution start cs * l.capacity
admitted_bound resolution k l start cs u fresh run =
    rw zero-add at (run-bound resolution k l start 0 start cs u run (rw fresh (omega arith)))
