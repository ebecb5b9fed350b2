-- ===== src/Scoring.antt =====
-- The scores of app/ioc/scoring.py, as exact fractions where the code has floats.
--
-- Weights and trusts are in hundredths, a score is in tenths. The power of one half in
-- `decayed_confidence`, with the product and the rounding, is the library's.
pub mod Bounds
pub mod Decay
mod Tests
use skyrecon.Base.{
  ℕ, zero, suc, ◌+◌, ◌-◌, ◌*◌, ◌/◌, ◌%◌, String, str_eq, ltb, ◌==◌, min, max, if◌then◌else◌,
}

abbrev pub power : ℕ → ℕ → ℕ
power b zero = 1
power b (suc n) = b * power b n

-- `round` of a quotient: to the nearest number, a tie to the even one.
unfoldable pub round_even : ℕ → ℕ → ℕ
round_even n d =
    let q = n / d in
    let r = n % d in
    if ltb (2 * r) d then q else if ltb d (2 * r) then q + 1 else if q % 2 == 0 then q else q + 1

-- `_SEVERITY_WEIGHT`, with the weight of a text that is no severity.
unfoldable pub severity_weight : String → ℕ
severity_weight s =
    if str_eq s "info"
    then 20
    else if str_eq s "low"
    then 40
    else if str_eq s "medium"
    then 60
    else if str_eq s "high"
    then 85
    else if str_eq s "critical"
    then 100
    else 60

-- `SOURCE_TRUST`, with the trust of an unknown source.
unfoldable pub source_trust : String → ℕ
source_trust s =
    if str_eq s "manual"
    then 90
    else if str_eq s "analyst"
    then 90
    else if str_eq s "internal-sensor"
    then 85
    else if str_eq s "partner-feed"
    then 75
    else if str_eq s "osint"
    then 55
    else if str_eq s "crowdsourced"
    then 40
    else 50

-- `round(base * math.pow(0.5, age / half_life))`, of the base, the age in ticks of the clock and the
-- half-life in days.
abbrev pub HalfPower : Type 0
HalfPower = ℕ → ℕ → ℕ → ℕ

-- The age of a time to come is 0.
unfoldable pub decayed_confidence : HalfPower → ℕ → ℕ → ℕ → ℕ → ℕ → ℕ
decayed_confidence half_power base last_seen half_life_days now floor =
    let age = now - last_seen in
    let decayed = half_power base age half_life_days in
    if half_life_days == 0 then base else max floor (min 100 decayed)

-- A hundred times `40 + trust * 60`.
unfoldable pub ceiling : String → ℕ
ceiling source = 4000 + source_trust source * 60

-- `current + max(0.0, gain)` over `100 * 100 ^ max(1, hits)`, rounded and clamped.
unfoldable pub reinforce : ℕ → String → ℕ → ℕ
reinforce current source hits =
    let h = max 1 hits in
    let gain = (ceiling source - 100 * current) * (power 100 h - power 72 h) in
    max 0 (min 100 (round_even (100 * current * power 100 h + gain) (100 * power 100 h)))

-- `raw * 100` over `100 * 4 ^ corroborations`, in tenths.
unfoldable pub risk_score : ℕ → String → String → ℕ → ℕ
risk_score confidence severity source corroborations =
    let p = power 4 corroborations in
    let raw =
      (confidence * 55 + severity_weight severity * 30 + source_trust source * 10) * p
      + 500 * (p - power 3 corroborations) in
    max 0 (min 1000 (round_even raw (10 * p)))

-- The bands of `severity_for`, by a score in tenths.
unfoldable pub severity_for : ℕ → String
severity_for score =
    if ltb score 250
    then "info"
    else if ltb score 450
    then "low"
    else if ltb score 680
    then "medium"
    else if ltb score 850
    then "high"
    else "critical"
