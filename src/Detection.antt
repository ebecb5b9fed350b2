-- ===== src/Detection.antt =====
-- Detection rules as rows: the rule handlers of app/routers/intel.py, `seed_builtin_rules`, and the
-- pass of `ingest_event` over the rules, app/services.py.
--
-- JSON text is the library's, and the ids and clock readings of a request are its arguments.
pub mod Sound
pub mod Matching
pub mod Seeding
mod Tests
use skyrecon.Base.{
  ℕ, suc, ◌+◌, String, Bool, true, false, not, ◌&&◌, Option, none, some, List, [], ◌∷◌, ◌++◌, Text,
  codes, text_eq, str_append, keep, first, if◌then◌else◌,
}
use skyrecon.Rules.Values.{Value}
use skyrecon.Rules.Results.{Result, ok, rule_error, out_of_fuel}
use skyrecon.Rules.Operators.{Runtime}
use skyrecon.Rules.Parser.{evaluate}
use skyrecon.Rules.Engine.{validate_expression, builtin_expressions}
use skyrecon.Scoring.{risk_score}
use skyrecon.Alerts.{Alert, Cause, NewAlert, Site, raise_alert}

pub record DetectionRule : Type 0 where
  pub id : Text
  pub name : Text
  pub description : Text
  pub enabled : Bool
  pub severity : String
  pub expression : Text
  pub mitre_techniques : String
  pub created_at : ℕ
  pub updated_at : ℕ
  pub hit_count : ℕ

pub record RuleIn : Type 0 where
  pub name : Text
  pub description : Text
  pub expression : Text
  pub severity : String
  pub mitre_techniques : List String
  pub enabled : Bool

-- The arguments of a call of `audit.record` about a rule.
pub record RuleAudit : Type 0 where
  pub action : String
  pub actor_id : Text
  pub target : Text
  pub rule_name : Option Text

-- A handler returns, or raises an HTTPException with a status.
pub data RuleReply (A : Type 0) : Type 0 where
  done : A → RuleReply A
  refused : ℕ → RuleReply A

abbrev pub join : List String → String
join [] = ""
join (s ∷ []) = s
join (s ∷ t ∷ ss) = str_append s (str_append "," (join (t ∷ ss)))

unfoldable pub find_by_name : Text → List DetectionRule → Option DetectionRule
find_by_name name rules = first (λ (r : DetectionRule). text_eq r.name name) rules

unfoldable pub find_rule : Text → List DetectionRule → Option DetectionRule
find_rule id rules = first (λ (r : DetectionRule). text_eq r.id id) rules

unfoldable pub new_rule : Text → ℕ → RuleIn → DetectionRule
new_rule id now body = record {
  id = id;
  name = body.name;
  description = body.description;
  enabled = body.enabled;
  severity = body.severity;
  expression = body.expression;
  mitre_techniques = join body.mitre_techniques;
  created_at = now;
  updated_at = now;
  hit_count = 0;
}

unfoldable pub create_rule :
    Runtime
    → Text
    → ℕ
    → Text
    → RuleIn
    → List DetectionRule
    → RuleReply (DetectionRule × List DetectionRule × RuleAudit)
create_rule rt id now user_id body rules =
    if validate_expression rt body.expression
    then elim (find_by_name body.name rules) [
      | none ↦
          let rule = new_rule id now body in
          done (
            rule,
            rules ++ rule ∷ [],
            record {
              action = "rule.create";
              actor_id = user_id;
              target = rule.id;
              rule_name = some rule.name;
            },
          )
      | some taken ↦ refused 409
    ]
    else refused 422

-- The answer of a dry run, less the text of an error.
pub record DryRun : Type 0 where
  pub valid : Bool
  pub matched : Option Bool

abbrev pub dry_run : Result Bool → DryRun
dry_run (ok b) = record { valid = true; matched = some b }
dry_run _ = record { valid = false; matched = none }

unfoldable pub test_rule : Runtime → Text → List (Text × Value) → DryRun
test_rule rt expression facts =
    if validate_expression rt expression
    then dry_run (evaluate (record { runtime = rt; facts = facts }) expression)
    else record { valid = false; matched = none }

unfoldable pub remove_rule : Text → List DetectionRule → List DetectionRule
remove_rule id rules = keep (λ (r : DetectionRule). not (text_eq r.id id)) rules

unfoldable pub delete_rule :
    Text → Text → List DetectionRule → RuleReply (List DetectionRule × RuleAudit)
delete_rule user_id rule_id rules = elim (find_rule rule_id rules) [
  | none ↦ refused 404
  | some r ↦ done (
    remove_rule rule_id rules,
    record { action = "rule.delete"; actor_id = user_id; target = rule_id; rule_name = none },
  )
]

-- An entry of `BUILTIN_RULES`.
pub record RuleSpec : Type 0 where
  pub name : Text
  pub severity : String
  pub expression : Text
  pub mitre_techniques : String
  pub description : Text

-- `DetectionRule(**spec)`
unfoldable pub of_spec : Text → ℕ → RuleSpec → DetectionRule
of_spec id now spec = record {
  id = id;
  name = spec.name;
  description = spec.description;
  enabled = true;
  severity = spec.severity;
  expression = spec.expression;
  mitre_techniques = spec.mitre_techniques;
  created_at = now;
  updated_at = now;
  hit_count = 0;
}

-- `seed_builtin_rules` over a list of entries. An invalid entry raises, and then nothing is committed.
unfoldable pub seed_rules :
    Runtime
    → (ℕ → Text)
    → ℕ
    → List RuleSpec
    → List DetectionRule
    → ℕ
    → Option (List DetectionRule × ℕ)
seed_rules rt ids now [] rules added = some (rules, added)
seed_rules rt ids now (spec ∷ specs) rules added = elim (find_by_name spec.name rules) [
  | some r ↦ seed_rules rt ids now specs rules added
  | none ↦ elim (validate_expression rt spec.expression) [
    | true ↦ seed_rules rt ids now specs (rules ++ of_spec (ids added) now spec ∷ []) (added + 1)
    | false ↦ none
  ]
]

-- A RuleError skips the rule.
abbrev pub is_match : Result Bool → Bool
is_match (ok b) = b
is_match rule_error = false
is_match out_of_fuel = false

-- The event that the pass is about: its id, its source, its facts, and the fresh values of a request.
pub record Pass : Type 0 where
  pub site : Site
  pub runtime : Runtime
  pub event_id : Text
  pub source : String
  pub facts : List (Text × Value)
  pub rows : ℕ → NewAlert
  pub clock : ℕ → ℕ
  pub json_detail : Text → Text → Text

unfoldable pub matches : Pass → DetectionRule → Bool
matches p r =
    r.enabled && is_match (evaluate (record { runtime = p.runtime; facts = p.facts }) r.expression)

unfoldable pub count_hit : ℕ → DetectionRule → DetectionRule
count_hit now r = record r { hit_count = r.hit_count + 1; updated_at = now }

unfoldable pub rule_cause : Pass → DetectionRule → Cause
rule_cause p r = record {
  title = codes "Rule matched: " ++ r.name;
  severity = r.severity;
  score = risk_score 70 r.severity p.source 0;
  event_id = some p.event_id;
  indicator_id = none;
  rule_id = some r.id;
  techniques = r.mitre_techniques;
  detail = some (p.json_detail r.name r.description);
}

-- The rules in the order of the query, with the number of alerts raised so far.
unfoldable pub match_rules :
    Pass → ℕ → List DetectionRule → List Alert → List DetectionRule × List Alert × List Alert
match_rules p n [] alerts = ([], [], alerts)
match_rules p n (r ∷ rules) alerts = elim (matches p r) [
  | false ↦
      let (rules', raised, alerts') = match_rules p n rules alerts in (r ∷ rules', raised, alerts')
  | true ↦
      let (a, alerts1) = raise_alert p.site (p.rows n) (p.clock n) (rule_cause p r) alerts in
      let (rules', raised, alerts') = match_rules p (n + 1) rules alerts1 in
      (count_hit (p.clock n) r ∷ rules', a ∷ raised, alerts')
]

abbrev specs_of : List (Text → RuleSpec) → List Text → List RuleSpec
specs_of (f ∷ fs) (e ∷ es) = f e ∷ specs_of fs es
specs_of _ _ = []

abbrev spec_of : String → String → String → String → Text → RuleSpec
spec_of name severity techniques description expression = record {
  name = codes name;
  severity = severity;
  expression = expression;
  mitre_techniques = techniques;
  description = codes description;
}

-- `BUILTIN_RULES`
abbrev pub builtin_rules : List RuleSpec
builtin_rules =
    specs_of
      (spec_of "Executable delivered over plain HTTP" "high" "T1105,T1204.002"
          "Direct download of a binary without TLS — classic dropper behaviour."
        ∷ spec_of "Algorithmically generated domain" "high" "T1568.002"
            "High-entropy hostname on a low-reputation TLD, typical of C2 rendezvous."
        ∷ spec_of "Encoded PowerShell in payload" "critical" "T1059.001,T1027"
            "Base64-encoded command lines are the standard way to hide a stager."
        ∷ spec_of "Large outbound transfer to new destination" "medium" "T1041,T1030"
            "Volume consistent with staged exfiltration."
        ∷ spec_of "Credential-phishing lure" "high" "T1566.002"
            "Login-themed URL on a throwaway domain."
        ∷ spec_of "Beacon-like callback to a known indicator" "medium" "T1071.001"
            "Small, short, regular connections are only interesting when the far end is already suspect — otherwise every intranet request looks like a beacon."
        ∷ [])
      builtin_expressions
