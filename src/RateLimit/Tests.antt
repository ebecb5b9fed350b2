-- ===== src/RateLimit/Tests.antt =====
-- A limiter of two tokens in ten seconds, with a clock of one tick to the second.
use skyrecon.Base.{◌≡◌, refl, ◌≤◌, ◌+◌, ◌*◌, List, [], ◌∷◌, arith}
use skyrecon.Dict.{lookup, insert, keep_values}
use skyrecon.RateLimit.{RateLimiter, unit, check_bucket, check, sweep}
use skyrecon.RateLimit.Bound.{Call, ask, clean, call, admitted, end, admitted_bound}
use skyrecon.RateLimit.Sweep.{check-sweep}

abbrev limiter : RateLimiter
limiter = record { capacity = 2; window_seconds = 10; buckets = [] }

abbrev calls : List Call
calls =
    ask "a" 100
    ∷ ask "b" 100
    ∷ ask "a" 101
    ∷ ask "a" 102
    ∷ clean 10 104
    ∷ ask "a" 106
    ∷ ask "a" 107
    ∷ []

-- The third request of "a" is refused; by 106 a token has flowed in.
admitted_runs : admitted 1 "a" limiter calls ≡ 3
unfolding admitted call check check_bucket sweep lookup insert keep_values
admitted_runs = refl

admitted_bound_example :
    admitted 1 "a" limiter calls * unit 1 limiter + 100 * limiter.capacity
    ≤ limiter.capacity * unit 1 limiter + end 1 100 calls * limiter.capacity
unfolding lookup
admitted_bound_example = admitted_bound 1 "a" limiter 100 calls tt refl (omega arith)

abbrev drained : RateLimiter
drained = record {
  capacity = 2;
  window_seconds = 10;
  buckets =
      ("a", record { tokens = 3; updated = 100 })
      ∷ ("b", record { tokens = 0; updated = 110 })
      ∷ [];
}

sweep_runs : (sweep 1 drained 10 115).1 ≡ 1
unfolding sweep
sweep_runs = refl

check-sweep_example :
    ((check 1 (sweep 1 drained 10 115).0 "a" 1 116).1 ≡ (check 1 drained "a" 1 116).1)
    × ((check 1 (sweep 1 drained 10 115).0 "a" 1 116).2 ≡ (check 1 drained "a" 1 116).2)
unfolding lookup
check-sweep_example =
    check-sweep 1 drained "a" 1 10 115 116 (refl, (refl, tt)) (omega arith) (omega arith)
