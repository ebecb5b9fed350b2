-- ===== src/Detection/Sound.antt =====
-- The table of rules under the operations that change it.
use skyrecon.Base.{
  ℕ, ◌+◌, ◌≡◌, ◌≢◌, refl, sym, ap, subst, ◌∙◌, Bool, true, false, Option, none, some, List, [], ◌∷◌,
  ◌++◌, Text, text_eq, text_eq_iff, map, All, All-append, All-map, keep, Bool-cases, Option-cases,
  inl, inr, true_ne_false,
}
use skyrecon.Rules.Operators.{Runtime}
use skyrecon.Rules.Parser.{Env, evaluate}
use skyrecon.Rules.Parser.Uniform.{HasNoBadPattern, Succeeds, Outcome, Outcome-Succeeds}
use skyrecon.Rules.Engine.{validate_expression}
use skyrecon.Rules.Validation.{validate_expression-Outcome}
use skyrecon.Alerts.{Alert, raise_alert}
use skyrecon.Detection.{
  DetectionRule, RuleIn, RuleAudit, done, RuleSpec, Pass, find_by_name, find_rule, new_rule,
  create_rule, remove_rule, delete_rule, of_spec, seed_rules, matches, count_hit, rule_cause,
  match_rules,
}

abbrev pub DistinctNames : List DetectionRule → Type 0
DistinctNames [] = Unit
DistinctNames (r ∷ rules) = All (λ (s : DetectionRule). s.name ≢ r.name) rules × DistinctNames rules

abbrev pub IsValid : Runtime → DetectionRule → Type 0
IsValid rt r = validate_expression rt r.expression ≡ true

-- No two rules share a name, and validation accepts each expression.
abbrev pub IsSound : Runtime → List DetectionRule → Type 0
IsSound rt rules = DistinctNames rules × All (IsValid rt) rules

-- One change of the table: a request for a rule that succeeds, a seeding, or the pass of an event.
pub data RuleStep (rt : Runtime) : List DetectionRule → List DetectionRule → Type 0 where
  creates :
      {rules rules' : List DetectionRule} {r : DetectionRule} {call : RuleAudit} (id : Text)
      (now : ℕ) (user_id : Text) (body : RuleIn)
      → create_rule rt id now user_id body rules ≡ done (r, rules', call)
      → RuleStep rt rules rules'
  deletes :
      {rules rules' : List DetectionRule} {call : RuleAudit} (user_id rule_id : Text)
      → delete_rule user_id rule_id rules ≡ done (rules', call)
      → RuleStep rt rules rules'
  seeds :
      {rules rules' : List DetectionRule} {added : ℕ} (ids : ℕ → Text) (now : ℕ)
      (specs : List RuleSpec)
      → seed_rules rt ids now specs rules 0 ≡ some (rules', added)
      → RuleStep rt rules rules'
  passes :
      {rules : List DetectionRule} (p : Pass) (alerts : List Alert)
      → RuleStep rt rules (match_rules p 0 rules alerts).0

pub data RuleRun (rt : Runtime) : List DetectionRule → List DetectionRule → Type 0 where
  stays : {rules : List DetectionRule} → RuleRun rt rules rules
  goes :
      {rules rules' rules'' : List DetectionRule}
      → RuleStep rt rules rules'
      → RuleRun rt rules' rules''
      → RuleRun rt rules rules''

-- A name that is not found is the name of no rule.
find_by_name-none :
    (name : Text) (rules : List DetectionRule)
    → find_by_name name rules ≡ none
    → All (λ (r : DetectionRule). r.name ≢ name) rules
unfolding find_by_name
find_by_name-none name [] h = tt
find_by_name-none name (r ∷ rules) h = elim (Bool-cases (text_eq r.name name)) [
  | inl e ↦ cc (h, e)
  | inr e ↦ (
    λ s. true_ne_false (sym ((text_eq_iff r.name name).1 s) ∙ e),
    find_by_name-none name rules (cc (h, e)),
  )
]

DistinctNames-append :
    (r : DetectionRule) (rules : List DetectionRule)
    → DistinctNames rules
    → All (λ (s : DetectionRule). s.name ≢ r.name) rules
    → DistinctNames (rules ++ r ∷ [])
DistinctNames-append r [] d h = (tt, tt)
DistinctNames-append r (s ∷ rules) d h =
    (All-append _ rules (r ∷ []) d.0 (λ e. h.0 (sym e), tt), DistinctNames-append r rules d.1 h.1)

All-keep :
    (P : DetectionRule → Type 0) (p : DetectionRule → Bool) (rules : List DetectionRule)
    → All P rules
    → All P (keep p rules)
All-keep P p [] h = tt
All-keep P p (r ∷ rules) h = elim (Bool-cases (p r)) [
  | inl e ↦ rw e (h.0, All-keep P p rules h.1)
  | inr e ↦ rw e (All-keep P p rules h.1)
]

DistinctNames-keep :
    (p : DetectionRule → Bool) (rules : List DetectionRule)
    → DistinctNames rules
    → DistinctNames (keep p rules)
DistinctNames-keep p [] d = tt
DistinctNames-keep p (r ∷ rules) d = elim (Bool-cases (p r)) [
  | inl e ↦ rw e (All-keep _ p rules d.0, DistinctNames-keep p rules d.1)
  | inr e ↦ rw e (DistinctNames-keep p rules d.1)
]

IsSound-append :
    (rt : Runtime) (r : DetectionRule) (rules : List DetectionRule)
    → IsSound rt rules
    → find_by_name r.name rules ≡ none
    → IsValid rt r
    → IsSound rt (rules ++ r ∷ [])
IsSound-append rt r rules s h v = (
  DistinctNames-append r rules s.0 (find_by_name-none r.name rules h),
  All-append (IsValid rt) rules (r ∷ []) s.1 (v, tt),
)

pub create_rule-done :
    (rt : Runtime) (id : Text) (now : ℕ) (user_id : Text) (body : RuleIn)
    (rules rules' : List DetectionRule) (r : DetectionRule) (call : RuleAudit)
    → create_rule rt id now user_id body rules ≡ done (r, rules', call)
    → (validate_expression rt body.expression ≡ true)
      × (find_by_name body.name rules ≡ none)
      × (r ≡ new_rule id now body)
      × (rules' ≡ rules ++ new_rule id now body ∷ [])
unfolding create_rule
create_rule-done rt id now user_id body rules rules' r call h =
    elim (Bool-cases (validate_expression rt body.expression)) [
      | inl v ↦ elim (Option-cases (find_by_name body.name rules)) [
        | inl f ↦ (v, f, cc (h, v, f), cc (h, v, f))
        | inr (s, f) ↦ cc (h, v, f)
      ]
      | inr v ↦ cc (h, v)
    ]

seed_rules-IsSound :
    (rt : Runtime) (ids : ℕ → Text) (now : ℕ) (specs : List RuleSpec)
    (rules rules' : List DetectionRule) (n m : ℕ)
    → IsSound rt rules
    → seed_rules rt ids now specs rules n ≡ some (rules', m)
    → IsSound rt rules'
unfolding seed_rules of_spec
seed_rules-IsSound rt ids now [] rules rules' n m s h =
    let is : rules ≡ rules' = cc h in subst (IsSound rt) is s
seed_rules-IsSound rt ids now (spec ∷ specs) rules rules' n m s h =
    elim (Option-cases (find_by_name spec.name rules)) [
      | inl f ↦ elim (Bool-cases (validate_expression rt spec.expression)) [
        | inl v ↦
            seed_rules-IsSound rt ids now specs (rules ++ of_spec (ids n) now spec ∷ []) rules'
              (n + 1) m (IsSound-append rt (of_spec (ids n) now spec) rules s f v) (cc (h, f, v))
        | inr v ↦ cc (h, f, v)
      ]
      | inr (r, f) ↦ seed_rules-IsSound rt ids now specs rules rules' n m s (cc (h, f))
    ]

abbrev face : DetectionRule → Text × Text
face r = (r.name, r.expression)

-- The pass of an event changes no name and no expression.
map-match_rules :
    (p : Pass) (n : ℕ) (rules : List DetectionRule) (alerts : List Alert)
    → map face (match_rules p n rules alerts).0 ≡ map face rules
unfolding match_rules count_hit
map-match_rules p n [] alerts = refl
map-match_rules p n (r ∷ rules) alerts = elim (Bool-cases (matches p r)) [
  | inl e ↦
      rw (match_rules, e)
        (ap (◌∷◌ (face r)) (
          map-match_rules p (n + 1) rules
            (raise_alert p.site (p.rows n) (p.clock n) (rule_cause p r) alerts).1))
  | inr e ↦ rw (match_rules, e) (ap (◌∷◌ (face r)) (map-match_rules p n rules alerts))
]

module _ (P : Text × Text → Type 0) where
  All-face :
      (xs ys : List DetectionRule)
      → map face xs ≡ map face ys
      → All (λ (r : DetectionRule). P (face r)) xs
      → All (λ (r : DetectionRule). P (face r)) ys
  All-face [] [] e h = tt
  All-face [] (y ∷ ys) e h = cc e
  All-face (x ∷ xs) [] e h = cc e
  All-face (x ∷ xs) (y ∷ ys) e h =
      let same : face x ≡ face y = cc e in (subst P same h.0, All-face xs ys (cc e) h.1)

IsSound-face :
    (rt : Runtime) (xs ys : List DetectionRule)
    → map face xs ≡ map face ys
    → IsSound rt xs
    → IsSound rt ys
IsSound-face rt xs ys e s =
    (distinct xs ys e s.0, All-face (λ f. validate_expression rt f.1 ≡ true) xs ys e s.1)
  where
    distinct :
        (xs ys : List DetectionRule)
        → map face xs ≡ map face ys
        → DistinctNames xs
        → DistinctNames ys
    distinct [] [] e d = tt
    distinct [] (y ∷ ys) e d = cc e
    distinct (x ∷ xs) [] e d = cc e
    distinct (x ∷ xs) (y ∷ ys) e d =
        let same : x.name ≡ y.name = cc e in
        (
          All-face (λ f. f.0 ≢ y.name) xs ys (cc e)
              (subst (λ t. All (λ (r : DetectionRule). r.name ≢ t) xs) same d.0),
          distinct xs ys (cc e) d.1,
        )

delete_rule-done :
    (user_id rule_id : Text) (rules rules' : List DetectionRule) (call : RuleAudit)
    → delete_rule user_id rule_id rules ≡ done (rules', call)
    → rules' ≡ remove_rule rule_id rules
unfolding delete_rule
delete_rule-done user_id rule_id rules rules' call h =
    elim (Option-cases (find_rule rule_id rules)) [ inl e ↦ cc (h, e) | inr (r, e) ↦ cc (h, e) ]

RuleStep-IsSound :
    (rt : Runtime) (rules rules' : List DetectionRule)
    → RuleStep rt rules rules'
    → IsSound rt rules
    → IsSound rt rules'
unfolding remove_rule new_rule
RuleStep-IsSound rt rules rules' (creates id now user_id body h) s =
    let (v, f, same, is) = create_rule-done rt id now user_id body _ _ _ _ h in
    subst (IsSound rt) (sym is) (IsSound-append rt (new_rule id now body) _ s f v)
RuleStep-IsSound rt rules rules' (deletes user_id rule_id h) s =
    subst (IsSound rt) (sym (delete_rule-done user_id rule_id _ _ _ h))
      (DistinctNames-keep _ _ s.0, All-keep (IsValid rt) _ _ s.1)
RuleStep-IsSound rt rules rules' (seeds ids now specs h) s =
    seed_rules-IsSound rt ids now specs _ _ 0 _ s h
RuleStep-IsSound rt rules rules' (passes p alerts) s =
    IsSound-face rt _ _ (sym (map-match_rules p 0 _ alerts)) s

RuleRun-IsSound :
    (rt : Runtime) (rules rules' : List DetectionRule)
    → RuleRun rt rules rules'
    → IsSound rt rules
    → IsSound rt rules'
RuleRun-IsSound rt rules rules' stays s = s
RuleRun-IsSound rt rules rules' (goes one more) s =
    RuleRun-IsSound rt _ _ more (RuleStep-IsSound rt _ _ one s)

abbrev pub or_false : Option Bool → Bool
or_false none = false
or_false (some b) = b

-- The runtime on which an invalid regular expression is found nowhere instead of raising.
abbrev pub forgiving : Runtime → Runtime
forgiving rt = record rt { search = λ p s. some (or_false (rt.search p s)) }

forgiving-HasNoBadPattern : (rt : Runtime) → HasNoBadPattern (forgiving rt)
forgiving-HasNoBadPattern rt p s = cc

-- On any facts the rule has a value or an invalid regular expression is met, in which case it raises a
-- RuleError and would have a value if that expression were found nowhere.
abbrev pub Evaluates : Env → DetectionRule → Type 0
Evaluates env r =
    Outcome env.runtime (evaluate env r.expression)
    × Succeeds (evaluate (record env { runtime = forgiving env.runtime }) r.expression)

-- From a table of rules with distinct names and valid expressions, however rules are created and
-- deleted, the built-in rules seeded and events passed over them, the names stay distinct, and on any
-- facts a rule that is left has a value, or raises a RuleError where a search of the runtime meets an
-- invalid regular expression; it always has a value once such an expression is read as one that is found
-- nowhere.
pub RuleRun-evaluate :
    (rt : Runtime) (env : Env) (rules rules' : List DetectionRule)
    → IsSound rt rules
    → RuleRun rt rules rules'
    → DistinctNames rules' × All (Evaluates env) rules'
RuleRun-evaluate rt env rules rules' s run =
    let lenient : Env = record env { runtime = forgiving env.runtime } in
    let (d, v) = RuleRun-IsSound rt rules rules' run s in
    (
      d,
      All-map (IsValid rt) _ rules'
          (λ r h. (
            validate_expression-Outcome rt env r.expression h,
            Outcome-Succeeds lenient.runtime _ (forgiving-HasNoBadPattern env.runtime)
                (validate_expression-Outcome rt lenient r.expression h),
          ))
          v,
    )
