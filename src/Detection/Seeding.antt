-- ===== src/Detection/Seeding.antt =====
-- `seed_builtin_rules` run again.
use skyrecon.Base.{
  ℕ, ◌+◌, ◌≡◌, refl, subst, some, List, [], ◌∷◌, ◌++◌, Text, text_eq, text_eq_iff, All, Bool-cases,
  Option-cases, inl, inr,
}
use skyrecon.Rules.Operators.{Runtime}
use skyrecon.Rules.Engine.{validate_expression}
use skyrecon.Detection.{DetectionRule, RuleSpec, find_by_name, of_spec, seed_rules}

-- A rule of that name stands in the table.
abbrev pub Found : Text → List DetectionRule → Type 0
Found name rules = (r : DetectionRule) × (find_by_name name rules ≡ some r)

Found-append : (name : Text) (xs ys : List DetectionRule) → Found name xs → Found name (xs ++ ys)
unfolding find_by_name
Found-append name [] ys (r, e) = cc e
Found-append name (x ∷ xs) ys (r, e) = elim (Bool-cases (text_eq x.name name)) [
  | inl t ↦ (x, rw t refl)
  | inr t ↦ let (r', e') = Found-append name xs ys (r, cc (e, t)) in (r', cc (e', t))
]

Found-last :
    (spec : RuleSpec) (id : Text) (now : ℕ) (xs : List DetectionRule)
    → Found spec.name (xs ++ of_spec id now spec ∷ [])
unfolding find_by_name of_spec
Found-last spec id now [] =
    (of_spec id now spec, rw ((text_eq_iff spec.name spec.name).1 refl) refl)
Found-last spec id now (x ∷ xs) = elim (Bool-cases (text_eq x.name spec.name)) [
  | inl t ↦ (x, rw t refl)
  | inr t ↦ let (r, e) = Found-last spec id now xs in (r, cc (e, t))
]

-- A seeding that succeeds keeps the rules found and finds those of its entries.
seed_rules-Found :
    (rt : Runtime) (ids : ℕ → Text) (now : ℕ) (specs : List RuleSpec)
    (rules rules' : List DetectionRule) (n m : ℕ)
    → seed_rules rt ids now specs rules n ≡ some (rules', m)
    → ((name : Text) → Found name rules → Found name rules')
      × All (λ (s : RuleSpec). Found s.name rules') specs
unfolding seed_rules
seed_rules-Found rt ids now [] rules rules' n m h =
    let is : rules ≡ rules' = cc h in (λ name f. subst (Found name) is f, tt)
seed_rules-Found rt ids now (spec ∷ specs) rules rules' n m h =
    elim (Option-cases (find_by_name spec.name rules)) [
      | inl f ↦ elim (Bool-cases (validate_expression rt spec.expression)) [
        | inl v ↦
            let (kept, found) =
              seed_rules-Found rt ids now specs (rules ++ of_spec (ids n) now spec ∷ []) rules'
                (n + 1) m (cc (h, f, v)) in
            (
              λ name g. kept name (Found-append name rules (of_spec (ids n) now spec ∷ []) g),
              (kept spec.name (Found-last spec (ids n) now rules), found),
            )
        | inr v ↦ cc (h, f, v)
      ]
      | inr (r, f) ↦
          let (kept, found) = seed_rules-Found rt ids now specs rules rules' n m (cc (h, f)) in
          (kept, (kept spec.name (r, f), found))
    ]

seed_rules-settled :
    (rt : Runtime) (ids : ℕ → Text) (now : ℕ) (specs : List RuleSpec) (rules : List DetectionRule)
    (n : ℕ)
    → All (λ (s : RuleSpec). Found s.name rules) specs
    → seed_rules rt ids now specs rules n ≡ some (rules, n)
unfolding seed_rules
seed_rules-settled rt ids now [] rules n h = refl
seed_rules-settled rt ids now (spec ∷ specs) rules n h =
    let ((r, f), rest) = h in rw (seed_rules, f) (seed_rules-settled rt ids now specs rules n rest)

-- Once the entries were seeded, each of them is found by its name, and seeding them again, at any time
-- and with any ids, changes nothing and adds no rule.
pub seed_rules-again :
    (rt : Runtime) (ids ids' : ℕ → Text) (now now' : ℕ) (specs : List RuleSpec)
    (rules rules' : List DetectionRule) (m : ℕ)
    → seed_rules rt ids now specs rules 0 ≡ some (rules', m)
    → All (λ (s : RuleSpec). Found s.name rules') specs
      × (seed_rules rt ids' now' specs rules' 0 ≡ some (rules', 0))
seed_rules-again rt ids ids' now now' specs rules rules' m h =
    let (kept, found) = seed_rules-Found rt ids now specs rules rules' 0 m h in
    (found, seed_rules-settled rt ids' now' specs rules' 0 found)
