-- ===== src/Scoring/Decay.antt =====
-- How confidence decays: `decayed_confidence` of app/ioc/scoring.py.
use skyrecon.Base.{ℕ, ◌-◌, ◌≤◌, ◌==◌, arith, max, Bool-cases, inl, inr}
use skyrecon.Scoring.{HalfPower, decayed_confidence}

-- A power of one half is at most one, and a greater age makes no more of it.
pub record IsHalving (half_power : HalfPower) : Type 0 where
  pub at_most : (base age half_life : ℕ) → half_power base age half_life ≤ base
  pub older :
      (base age age' half_life : ℕ)
      → age ≤ age'
      → half_power base age' half_life ≤ half_power base age half_life

-- Confidence never rises with time: read later it is no higher, and it exceeds the stored confidence
-- only up to the floor.
pub decayed_confidence_later :
    (half_power : HalfPower) (base last_seen half_life now now' floor : ℕ)
    → IsHalving half_power
    → now ≤ now'
    → (decayed_confidence half_power base last_seen half_life now' floor
        ≤ decayed_confidence half_power base last_seen half_life now floor)
      × (decayed_confidence half_power base last_seen half_life now floor ≤ max floor base)
unfolding decayed_confidence
decayed_confidence_later half_power base last_seen half_life now now' floor law h =
    elim (Bool-cases (half_life == 0)) [
      | inl e ↦ rw e (omega arith, omega arith)
      | inr e ↦
          let age : now - last_seen ≤ now' - last_seen = omega (arith, h) in
          rw e (
            omega (arith, law.older base (now - last_seen) (now' - last_seen) half_life age),
            omega (arith, law.at_most base (now - last_seen) half_life),
          )
    ]
