-- ===== src/Scoring/Tests.antt =====
-- Scores of given reports.
use skyrecon.Base.{◌+◌, ◌*◌, ◌≤◌, ◌≡◌, refl, arith, max, ◌/◌, ltb, if◌then◌else◌}
use skyrecon.Scoring.{
  HalfPower, decayed_confidence, round_even, severity_weight, source_trust, ceiling, reinforce,
  risk_score, severity_for,
}
use skyrecon.Scoring.Decay.{IsHalving}
use skyrecon.Scoring.Bounds.{reinforce_bounds}

-- A tie goes to the even neighbour.
ties_run : round_even 5 2 ≡ 2
unfolding round_even
ties_run = refl

-- 50 rises to 56 by one report of open sources, whose ceiling is 73.
reinforce_runs : reinforce 50 "osint" 1 ≡ 56
unfolding reinforce ceiling source_trust round_even
reinforce_runs = refl

risk_score_runs : risk_score 70 "high" "osint" 2 ≡ 717
unfolding risk_score severity_weight source_trust round_even
risk_score_runs = refl

severity_for_runs : severity_for 717 ≡ "high"
unfolding severity_for
severity_for_runs = refl

medium_le_high : severity_weight "medium" ≤ severity_weight "high"
unfolding severity_weight
medium_le_high = omega arith

osint_le_manual : source_trust "osint" ≤ source_trust "manual"
unfolding source_trust
osint_le_manual = omega arith

reinforce_bounds_example :
    (50 ≤ reinforce 50 "osint" 1)
    × (reinforce 50 "osint" 1 ≤ 100)
    × (100 * reinforce 50 "osint" 1 ≤ max (100 * 50) (ceiling "osint") + 50)
reinforce_bounds_example = reinforce_bounds 50 "osint" 1 (omega arith)

-- A sudden end in place of a slow decay.
abbrev cliff : HalfPower
cliff base age half_life = if ltb age 1000 then base else base / 2

cliff-IsHalving : IsHalving cliff
cliff-IsHalving = record {
  at_most = λ base age half_life. ground arith;
  older = λ base age age' half_life h. ground (arith, h);
}

decay_run : decayed_confidence cliff 80 500 30 2000 5 ≡ 40
unfolding decayed_confidence
decay_run = refl
