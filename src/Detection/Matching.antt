-- ===== src/Detection/Matching.antt =====
-- The pass of `ingest_event` over the rules, as a filter and a run of alerts.
use skyrecon.Base.{
  ℕ, suc, ◌+◌, ◌≡◌, refl, arith, List, [], ◌∷◌, keep, length, if◌then◌else◌, Bool-cases, inl, inr,
}
use skyrecon.Alerts.{Alert, raise_alert}
use skyrecon.Alerts.Counting.{Distinct}
use skyrecon.Alerts.Window.{
  Call, IsDeduped, Ready, last_now, occurrences_of, raises, raises-IsDeduped,
}
use skyrecon.Detection.{DetectionRule, Pass, matches, count_hit, rule_cause, match_rules}

-- The alerts of the rules that match, in their order, from the `n`-th on.
abbrev pub rule_calls : Pass → ℕ → List DetectionRule → List Call
rule_calls p n [] = []
rule_calls p n (r ∷ rules) =
    if matches p r
    then (p.rows n, p.clock n, rule_cause p r) ∷ rule_calls p (n + 1) rules
    else rule_calls p n rules

abbrev pub hits_of : List DetectionRule → ℕ
hits_of [] = 0
hits_of (r ∷ rules) = r.hit_count + hits_of rules

count_hit-hits : (now : ℕ) (r : DetectionRule) → (count_hit now r).hit_count ≡ suc r.hit_count
unfolding count_hit
count_hit-hits now r = omega arith

pub length-rule_calls :
    (p : Pass) (n : ℕ) (rules : List DetectionRule)
    → length (rule_calls p n rules) ≡ length (keep (matches p) rules)
length-rule_calls p n [] = refl
length-rule_calls p n (r ∷ rules) = elim (Bool-cases (matches p r)) [
  | inl e ↦ rw e (omega (arith, length-rule_calls p (n + 1) rules))
  | inr e ↦ rw e (length-rule_calls p n rules)
]

-- The pass raises one alert for each enabled rule that matches the facts, in the order of the rules
-- and into the same table as if they were raised one after the other; each such rule gains one hit,
-- and a rule that raises an error is passed over.
pub match_rules-raises :
    (p : Pass) (n : ℕ) (rules : List DetectionRule) (alerts : List Alert)
    → let (rules', raised, alerts') = match_rules p n rules alerts in
      (alerts' ≡ raises p.site (rule_calls p n rules) alerts)
      × (length raised ≡ length (keep (matches p) rules))
      × (hits_of rules' ≡ hits_of rules + length (keep (matches p) rules))
unfolding match_rules raises
match_rules-raises p n [] alerts = (refl, refl, omega arith)
match_rules-raises p n (r ∷ rules) alerts = elim (Bool-cases (matches p r)) [
  | inl e ↦
      let (table, raised, hits) =
        match_rules-raises p (n + 1) rules
          (raise_alert p.site (p.rows n) (p.clock n) (rule_cause p r) alerts).1 in
      rw (match_rules, e)
        (table, omega (arith, raised), omega (arith, hits, count_hit-hits (p.clock n) r))
  | inr e ↦
      let (table, raised, hits) = match_rules-raises p n rules alerts in
      rw (match_rules, e) (table, raised, omega (arith, hits))
]

-- In a table with distinct ids that holds at most one open alert of each cause inside the window, the
-- pass of an event over the rules adds to the occurrences of the alerts exactly the number of rules
-- that match, and leaves such a table, when the clock does not run backwards and new ids are fresh.
pub match_rules-occurrences :
    (p : Pass) (now : ℕ) (rules : List DetectionRule) (alerts : List Alert)
    → Distinct alerts
    → IsDeduped p.site now alerts
    → Ready p.site now (rule_calls p 0 rules) alerts
    → let (rules', raised, alerts') = match_rules p 0 rules alerts in
      (occurrences_of alerts' ≡ occurrences_of alerts + length (keep (matches p) rules))
      × IsDeduped p.site (last_now now (rule_calls p 0 rules)) alerts'
      × Distinct alerts'
match_rules-occurrences p now rules alerts d u r =
    let (table, raised, hits) = match_rules-raises p 0 rules alerts in
    let (u', d', n) = raises-IsDeduped p.site now (rule_calls p 0 rules) alerts d u r in
    rw table (omega (arith, n, length-rule_calls p 0 rules), u', d')
