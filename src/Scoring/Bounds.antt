-- ===== src/Scoring/Bounds.antt =====
-- The bounds of the scores.
use skyrecon.Base.{
  ℕ, zero, suc, ◌+◌, ◌-◌, ◌*◌, ◌/◌, ◌%◌, ◌≤◌, ◌<◌, ◌≡◌, refl, sym, ap, ◌∙◌, arith, String, Bool,
  ltb, leb, leb→le, ◌==◌, min, max, if◌then◌else◌, Bool-cases, inl, inr, ◌⊎◌,
}
use native.Mathlib.Nat.{
  div-add-mod, mod-lt, mul-le-mul, mul-le-mul_left, mul-le-mul_right, le_of_mul-le-mul_left,
}
use skyrecon.Scoring.{
  power, round_even, severity_weight, source_trust, ceiling, reinforce, risk_score,
}

-- Rounding goes down for a rest of at most a half, and up for one of at least a half.
round_pick :
    (q r d : ℕ) (b : Bool)
    → let m =
        if ltb (2 * r) d then q else if ltb d (2 * r) then q + 1 else if b then q else q + 1 in
      ((m ≡ q) × (2 * r ≤ d)) ⊎ ((m ≡ q + 1) × (d ≤ 2 * r))
round_pick q r d b = elim (Bool-cases (ltb (2 * r) d)) [
  | inl e ↦ inl (rw e refl, ground arith)
  | inr e ↦ elim (Bool-cases (ltb d (2 * r))) [
    | inl f ↦ inr (rw e (rw f refl), ground arith)
    | inr f ↦ elim (Bool-cases b) [
      | inl g ↦ inl (rw e (rw f (rw g refl)), ground arith)
      | inr g ↦ inr (rw e (rw f (rw g refl)), ground arith)
    ]
  ]
]

mul_suc : (a b : ℕ) → a * (b + 1) ≡ a * b + a
mul_suc a b = grind arith

-- What is rounded lies within one half of the result.
round_even_near :
    (n d : ℕ)
    → 0 < d
    → (2 * (d * round_even n d) ≤ 2 * n + d) × (2 * n ≤ 2 * (d * round_even n d) + d)
unfolding round_even
round_even_near n d h =
    let split = div-add-mod n d in
    let few : n % d < d = mod-lt n h in
    elim (round_pick (n / d) (n % d) d (n / d % 2 == 0)) [
      | inl (e, less) ↦ rw e (omega (arith, split, less), omega (arith, split, few))
      | inr (e, more) ↦ rw e (
        omega (arith, split, more, mul_suc d (n / d)),
        omega (arith, split, few, mul_suc d (n / d)),
      )
    ]

-- More is not rounded to less.
pub round_even_mono : (n n' d : ℕ) → 0 < d → n ≤ n' → round_even n d ≤ round_even n' d
round_even_mono n n' d h le = elim (Bool-cases (leb (round_even n d) (round_even n' d))) [
  | inl e ↦ leb→le _ _ e
  | inr e ↦
      let above : round_even n' d + 1 ≤ round_even n d = ground arith in
      let wide = mul-le-mul_left d above in
      let near = round_even_near n d h in
      let near' = round_even_near n' d h in
      let same : n ≡ n' = omega (arith, wide, near.0, near'.1, mul_suc d (round_even n' d), le) in
      omega (arith, ap (λ k. round_even k d) same)
]

power_positive : (b n : ℕ) → 0 < b → 0 < power b n
power_positive b zero h = omega arith
power_positive b (suc n) h = mul-le-mul h (power_positive b n h)

power_le : (a b n : ℕ) → a ≤ b → power a n ≤ power b n
power_le a b zero h = omega arith
power_le a b (suc n) h = mul-le-mul h (power_le a b n h)

-- A risk score is at most 100.0, and no lower for a surer, a graver or a better trusted report.
pub risk_score_mono :
    (confidence confidence' : ℕ) (severity severity' source source' : String) (corroborations : ℕ)
    → confidence ≤ confidence'
    → severity_weight severity ≤ severity_weight severity'
    → source_trust source ≤ source_trust source'
    → (risk_score confidence severity source corroborations
        ≤ risk_score confidence' severity' source' corroborations)
      × (risk_score confidence' severity' source' corroborations ≤ 1000)
unfolding risk_score
risk_score_mono confidence confidence' severity severity' source source' k hc hs ht =
    let p = power 4 k in
    let raw = confidence * 55 + severity_weight severity * 30 + source_trust source * 10 in
    let raw' = confidence' * 55 + severity_weight severity' * 30 + source_trust source' * 10 in
    let sum_le : raw ≤ raw' = omega (arith, hc, hs, ht) in
    let bonus = 500 * (p - power 3 k) in
    let le : raw * p + bonus ≤ raw' * p + bonus = omega (arith, mul-le-mul_right p sum_le) in
    let rounded =
      round_even_mono (raw * p + bonus) (raw' * p + bonus) (10 * p)
        (omega (arith, power_positive 4 k (omega arith))) le in
    (omega (arith, rounded), omega arith)

clamped : (m : ℕ) → max 0 (min 100 m) ≡ min 100 m
clamped m = omega arith

scale : (c p : ℕ) → 100 * c * p ≡ 100 * p * c
scale c p = grind arith

twice : (a b : ℕ) → 2 * (a * b) ≡ a * (2 * b)
twice a b = grind arith

add_mul : (a b c : ℕ) → (a + b) * c ≡ a * c + b * c
add_mul a b c = grind arith

spread_left : (p m : ℕ) → p * (200 * m) ≡ 2 * (100 * p * m)
spread_left p m = grind arith

spread_right : (p t : ℕ) → p * (2 * t + 100) ≡ 2 * (t * p) + 100 * p
spread_right p t = grind arith

more : (a b : ℕ) → a * (2 * b + 1) ≡ 2 * (a * b) + a
more a b = grind arith

-- A sighting never lowers a confidence of at most 100, the result is at most 100, and it exceeds
-- neither what was known nor the ceiling of its source by more than the rounding, so that no number of
-- reports from a weak source reaches certainty.
pub reinforce_bounds :
    (current : ℕ) (source : String) (hits : ℕ)
    → current ≤ 100
    → (current ≤ reinforce current source hits)
      × (reinforce current source hits ≤ 100)
      × (100 * reinforce current source hits ≤ max (100 * current) (ceiling source) + 50)
unfolding reinforce
reinforce_bounds current source hits le =
    let h = max 1 hits in
    let p = power 100 h in
    let gain = (ceiling source - 100 * current) * (p - power 72 h) in
    let top = max (100 * current) (ceiling source) in
    let n = 100 * current * p + gain in
    let d = 100 * p in
    let some_p : 0 < p = power_positive 100 h (omega arith) in
    let m = round_even n d in
    let near = round_even_near n d (omega (arith, some_p)) in
    let low_scaled : d * (2 * current) ≤ d * (2 * m + 1) =
      omega (arith, near.1, scale current p, twice d current, more d m) in
    let low : 2 * current ≤ 2 * m + 1 = le_of_mul-le-mul_left low_scaled (omega (arith, some_p)) in
    let rest = ceiling source - 100 * current in
    let sum : 100 * current * p + rest * p ≡ top * p =
      sym (add_mul (100 * current) rest p) ∙ ap (λ k. k * p) (omega arith) in
    let few : gain ≤ rest * p = mul-le-mul_left rest (omega arith) in
    let high_scaled : p * (200 * m) ≤ p * (2 * top + 100) =
      omega (arith, near.0, sum, few, spread_left p m, spread_right p top) in
    let high : 200 * m ≤ 2 * top + 100 = le_of_mul-le-mul_left high_scaled some_p in
    (omega (arith, low, le), omega arith, omega (arith, high))
