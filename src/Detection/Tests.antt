-- ===== src/Detection/Tests.antt =====
-- Rules created, seeded and passed over for one event.
use skyrecon.Base.{
  ℕ, ◌+◌, ◌≡◌, refl, arith, true, false, Option, none, some, List, [], ◌∷◌, Text, codes, text_eq,
  rstrip, All, keep, length,
}
use skyrecon.Rules.Values.{value_eq, member, number_eq, number_lt, truthy}
use skyrecon.Rules.Tokens.{tokenize}
use skyrecon.Rules.Operators.{
  Runtime, textual, compare, order, float_of, contains, str_of, has_prefix, has_suffix,
}
use skyrecon.Rules.Parser.{parse, or_expr, evaluate}
use skyrecon.Rules.Engine.{validate_expression, probe}
use skyrecon.Scoring.{risk_score, round_even, severity_weight, source_trust}
use skyrecon.Vault.{aad, b64e, b64d, kek, seal_text, seal, blind_index}
use skyrecon.Vault.Toy.{toy, draws}
use skyrecon.Alerts.{
  cause_text, dedupe_key, is_repeat, last_seen, put_alert, count_again, sealed_detail, first_alert,
  raise_alert,
}
use skyrecon.Alerts.Counting.{Distinct}
use skyrecon.Alerts.Window.{IsDeduped, Ready, last_now, occurrences_of}
use skyrecon.Detection.{
  DetectionRule, RuleIn, RuleAudit, done, refused, Pass, builtin_rules, find_by_name, new_rule,
  create_rule, of_spec, seed_rules, matches, count_hit, rule_cause, match_rules,
}
use skyrecon.Detection.Sound.{
  Evaluates, DistinctNames, creates, passes, stays, goes, RuleRun-evaluate,
}
use skyrecon.Detection.Matching.{rule_calls, match_rules-occurrences}

-- No text is a number, a number reads as "0", and every pattern is found.
abbrev runtime : Runtime
runtime = record {
  float_of_text = λ s. none;
  float_of_number = λ n. n;
  str_of_number = λ n. codes "0";
  str_of_items = λ xs. codes "[]";
  lower = λ s. s;
  search = λ p s. some true;
}

abbrev ids : ℕ → Text
ids n = n ∷ []

abbrev rules_or_nil : Option (List DetectionRule × ℕ) → List DetectionRule
rules_or_nil none = []
rules_or_nil (some r) = r.0

-- All the built-in rules are added to an empty table.
abbrev seeded : List DetectionRule
seeded = rules_or_nil (seed_rules runtime ids 7 builtin_rules [] 0)

seed_runs : seed_rules runtime ids 7 builtin_rules [] 0 ≡ some (seeded, 6)
unfolding find_by_name create_rule new_rule seed_rules of_spec validate_expression evaluate tokenize
    parse or_expr truthy compare textual member value_eq number_eq number_lt order float_of contains
    str_of has_prefix has_suffix text_eq
seed_runs = refl

abbrev body : RuleIn
body = record {
  name = codes "Quiet";
  description = [];
  expression = codes "severity == 'medium'";
  severity = "medium";
  mitre_techniques = "T1071" ∷ [];
  enabled = true;
}

abbrev quiet : DetectionRule
quiet = new_rule (codes "q1") 5 body

abbrev quiet_audit : RuleAudit
quiet_audit = record {
  action = "rule.create";
  actor_id = codes "u1";
  target = codes "q1";
  rule_name = some (codes "Quiet");
}

create_runs :
    create_rule runtime (codes "q1") 5 (codes "u1") body [] ≡ done (quiet, quiet ∷ [], quiet_audit)
unfolding find_by_name create_rule new_rule seed_rules of_spec validate_expression evaluate tokenize
    parse or_expr truthy compare textual member value_eq number_eq number_lt order float_of contains
    str_of has_prefix has_suffix text_eq
create_runs = refl

-- A second rule of the name is refused.
taken_runs : create_rule runtime (codes "q2") 6 (codes "u1") body (quiet ∷ []) ≡ refused 409
unfolding find_by_name create_rule new_rule seed_rules of_spec validate_expression evaluate tokenize
    parse or_expr truthy compare textual member value_eq number_eq number_lt order float_of contains
    str_of has_prefix has_suffix text_eq
taken_runs = refl

-- An expression that does not parse is refused.
invalid_runs :
    create_rule runtime
      (codes "q2")
      6
      (codes "u1")
      (record body { expression = codes "severity ==" })
      []
    ≡ refused 422
unfolding find_by_name create_rule new_rule seed_rules of_spec validate_expression evaluate tokenize
    parse or_expr truthy compare textual member value_eq number_eq number_lt order float_of contains
    str_of has_prefix has_suffix text_eq
invalid_runs = refl

abbrev pass : Pass
pass = record {
  site = record { crypto = toy; vault = record { master = 5 ∷ [] }; minute = 60 };
  runtime = runtime;
  event_id = codes "e1";
  source = "manual";
  facts = probe;
  rows = λ n. record { id = n ∷ []; title_draws = draws 1; detail_draws = draws 2 };
  clock = λ n. 1000 + n;
  json_detail = λ name description. name;
}

RuleRun-evaluate_example :
    DistinctNames (match_rules pass 0 (quiet ∷ []) []).0
    × All
        (Evaluates (record { runtime = runtime; facts = [] }))
        (match_rules pass 0 (quiet ∷ []) []).0
RuleRun-evaluate_example =
    RuleRun-evaluate runtime (record { runtime = runtime; facts = [] }) []
      (match_rules pass 0 (quiet ∷ []) []).0 (tt, tt)
      (goes (creates (codes "q1") 5 (codes "u1") body create_runs) (goes (passes pass []) stays))

-- One match, with a score of 66.0 for its rule.
match_runs :
    (match_rules pass 0 (quiet ∷ record quiet { enabled = false } ∷ []) []).2
    ≡ first_alert pass.site (pass.rows 0) 1000 (rule_cause pass quiet) ∷ []
unfolding find_by_name create_rule new_rule seed_rules of_spec validate_expression evaluate tokenize
    parse or_expr truthy compare textual member value_eq number_eq number_lt order float_of contains
    str_of has_prefix has_suffix text_eq matches match_rules count_hit rule_cause raise_alert
    last_seen is_repeat put_alert count_again first_alert sealed_detail dedupe_key cause_text
    blind_index seal_text seal aad b64e b64d kek rstrip toy draws risk_score round_even
    severity_weight source_trust
match_runs = refl

calls-Ready : Ready pass.site 0 (rule_calls pass 0 (quiet ∷ [])) []
unfolding find_by_name create_rule new_rule seed_rules of_spec validate_expression evaluate tokenize
    parse or_expr truthy compare textual member value_eq number_eq number_lt order float_of contains
    str_of has_prefix has_suffix text_eq matches match_rules count_hit rule_cause raise_alert
    last_seen is_repeat put_alert count_again first_alert sealed_detail dedupe_key cause_text
    blind_index seal_text seal aad b64e b64d kek rstrip toy draws risk_score round_even
    severity_weight source_trust
calls-Ready = (omega arith, tt, tt)

match_rules-occurrences_example :
    (occurrences_of (match_rules pass 0 (quiet ∷ []) []).2
      ≡ occurrences_of [] + length (keep (matches pass) (quiet ∷ [])))
    × IsDeduped pass.site
        (last_now 0 (rule_calls pass 0 (quiet ∷ [])))
        (match_rules pass 0 (quiet ∷ []) []).2
    × Distinct (match_rules pass 0 (quiet ∷ []) []).2
match_rules-occurrences_example =
    match_rules-occurrences pass 0 (quiet ∷ []) [] tt (λ key. omega arith) calls-Ready
