-- ===== src/Rules/Validation.antt =====
-- What the acceptance of an expression by `validate_expression` promises of its later evaluations.
use skyrecon.Base.{◌≡◌, refl, sym, ap, subst, ◌∙◌, arith, inl, inr, Bool, true, false, Bool-cases}
use skyrecon.Rules.Values.{Text}
use skyrecon.Rules.Results.{Result, ok, rule_error, out_of_fuel, bind}
use skyrecon.Rules.Tokens.{tokenize, is_blank}
use skyrecon.Rules.Operators.{Runtime}
use skyrecon.Rules.Parser.{Env, parse, evaluate}
use skyrecon.Rules.Parser.Uniform.{Outcome, parse-Outcome}
use skyrecon.Rules.Engine.{accepted, probe, validate_expression}

accepted-ok : (r : Result Bool) → accepted r ≡ true → (b : Bool) × (r ≡ ok b)
accepted-ok (ok b) h = (b, refl)
accepted-ok rule_error h = ground (arith, h)
accepted-ok out_of_fuel h = ground (arith, h)

bind-ok :
    {A B : Type 0} (r : Result A) (k : A → Result B) (b : B)
    → bind r k ≡ ok b
    → (a : A) × (r ≡ ok a) × (k a ≡ ok b)
bind-ok (ok a) k b h = (a, refl, h)
bind-ok rule_error k b h = ground (arith, h)
bind-ok out_of_fuel k b h = ground (arith, h)

evaluate_blank : (env : Env) (s : Text) → is_blank s ≡ true → evaluate env s ≡ ok false
unfolding evaluate
evaluate_blank env s h = ground (arith, h)

evaluate-bind :
    (env : Env) (s : Text) → is_blank s ≡ false → evaluate env s ≡ bind (tokenize s) (parse env)
unfolding evaluate
evaluate-bind env s h = ground (arith, h)

-- An expression that `validate_expression` accepts has a value on any facts and any runtime, unless an
-- invalid regular expression is met.
pub validate_expression-Outcome :
    (rt : Runtime) (env : Env) (s : Text)
    → validate_expression rt s ≡ true
    → Outcome env.runtime (evaluate env s)
unfolding validate_expression
validate_expression-Outcome rt env s h =
    let tried : Env = record { runtime = rt; facts = probe } in
    elim (Bool-cases (is_blank s)) [
      | inl blank ↦ inl (false, evaluate_blank env s blank)
      | inr text ↦
          let (b, ran) = accepted-ok (evaluate tried s) h in
          let (ts, scanned, read) =
            bind-ok (tokenize s) (parse tried) b (sym (evaluate-bind tried s text) ∙ ran) in
          subst (λ r. Outcome env.runtime r)
            (sym (evaluate-bind env s text ∙ ap (λ r. bind r (parse env)) scanned))
            (parse-Outcome tried env ts b read)
    ]
