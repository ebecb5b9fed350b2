-- ===== src/Rules/Parser/Uniform.antt =====
-- Whether a rule is accepted does not depend on the facts: nothing is short-circuited, so only an
-- invalid regular expression can fail in one run and not in another.
use skyrecon.Base.{◌≡◌, ◌≢◌, refl, sym, ap, subst, ◌⊎◌, inl, inr, Bool, Option, none, some, ◌∙◌}
use skyrecon.Rules.Values.{Text, Value, bool, items, truthy}
use skyrecon.Rules.Tokens.{Tokens}
use skyrecon.Rules.Operators.{Runtime, TextOp, in_, matches_, textual, searched, lowered}
use skyrecon.Rules.Results.{Result, ok, rule_error, bind}
use skyrecon.Rules.Parser.{Env, parse}
use skyrecon.Rules.Parser.Grammar.{
  or_one, or_more, and_one, and_more, Disjunction, Conjunction, Negation, Comparison, Primary, Atom,
  Items, negate, plain, alone, ordered, texts, atom, negated, paren, list, last, item, mean_or,
  mean_and, mean_not, mean_comparison, mean_primary, mean_atom, mean_items, holds,
}
use skyrecon.Rules.Parser.Reads.{parse-write}
use skyrecon.Rules.Parser.Sound.{parse-eq-ok_iff}

abbrev pub Succeeds : {A : Type 0} → Result A → Type 0
Succeeds {A} r = (a : A) × (r ≡ ok a)

-- Every pattern is a valid regular expression.
abbrev pub HasNoBadPattern : Runtime → Type 0
HasNoBadPattern rt = (p s : Text) → rt.search p s ≢ none

-- Some search of the runtime meets an invalid regular expression.
abbrev pub BadPattern : Runtime → Type 0
BadPattern rt = (p : Text) × (s : Text) × (rt.search p s ≡ none)

-- A value, or a RuleError that an invalid regular expression accounts for.
abbrev pub Outcome : Runtime → {A : Type 0} → Result A → Type 0
Outcome rt {A} r = Succeeds r ⊎ ((r ≡ rule_error) × BadPattern rt)

pub Outcome-Succeeds :
    (rt : Runtime) {A : Type 0} (r : Result A) → HasNoBadPattern rt → Outcome rt r → Succeeds r
Outcome-Succeeds rt r valid o = elim o [ inl s ↦ s | inr (e, (p, s, bad)) ↦ absurd (valid p s bad) ]

pub bind-Outcome :
    {A B : Type 0} (rt : Runtime) (m : Result A) (k : A → Result B)
    → Outcome rt m
    → ((a : A) → Outcome rt (k a))
    → Outcome rt (bind m k)
bind-Outcome rt m k o h = elim o [ inl (a, e) ↦ rw e (h a) | inr (e, bad) ↦ inr (rw e refl, bad) ]

searched-Outcome :
    (rt : Runtime) (p s : Text) (o : Option Bool) → rt.search p s ≡ o → Outcome rt (searched o)
searched-Outcome rt p s none h = inr (refl, (p, s, h))
searched-Outcome rt p s (some b) h = inl (bool b, refl)

textual-Outcome : (rt : Runtime) (t : TextOp) (v w : Value) → Outcome rt (textual rt t v w)
unfolding textual
textual-Outcome rt matches_ v w = searched-Outcome rt (lowered rt w) (lowered rt v) _ refl
textual-Outcome rt in_ v (items xs) = inl (_, refl)
textual-Outcome rt in_ v _ = inl (_, refl)
textual-Outcome rt _ v w = inl (_, refl)

mutual
  unfolding mean_or

  or-Outcome : (env : Env) (d : Disjunction) → Outcome env.runtime (mean_or env d)
  or-Outcome env (or_one a) = and-Outcome env a
  or-Outcome env (or_more a d) =
      bind-Outcome env.runtime _ _ (and-Outcome env a)
        λ v. bind-Outcome env.runtime _ _ (or-Outcome env d) λ w. inl (_, refl)

  and-Outcome : (env : Env) (c : Conjunction) → Outcome env.runtime (mean_and env c)
  and-Outcome env (and_one n) = not-Outcome env n
  and-Outcome env (and_more n c) =
      bind-Outcome env.runtime _ _ (not-Outcome env n)
        λ v. bind-Outcome env.runtime _ _ (and-Outcome env c) λ w. inl (_, refl)

  not-Outcome : (env : Env) (n : Negation) → Outcome env.runtime (mean_not env n)
  not-Outcome env (negate n) = bind-Outcome env.runtime _ _ (not-Outcome env n) λ v. inl (_, refl)
  not-Outcome env (plain c) = comparison-Outcome env c

  comparison-Outcome : (env : Env) (c : Comparison) → Outcome env.runtime (mean_comparison env c)
  comparison-Outcome env (alone a) = atom-Outcome env a
  comparison-Outcome env (ordered a o p) =
      bind-Outcome env.runtime _ _ (atom-Outcome env a)
        λ v. bind-Outcome env.runtime _ _ (primary-Outcome env p) λ w. inl (_, refl)
  comparison-Outcome env (texts a t p) = bind-Outcome env.runtime _ _ (atom-Outcome env a) λ v.
      bind-Outcome env.runtime _ _ (primary-Outcome env p) λ w. textual-Outcome env.runtime t v w

  primary-Outcome : (env : Env) (p : Primary) → Outcome env.runtime (mean_primary env p)
  primary-Outcome env (atom a) = atom-Outcome env a
  primary-Outcome env (negated p) =
      bind-Outcome env.runtime _ _ (primary-Outcome env p) λ v. inl (_, refl)

  atom-Outcome : (env : Env) (a : Atom) → Outcome env.runtime (mean_atom env a)
  atom-Outcome env (paren d) = or-Outcome env d
  atom-Outcome env (list p ps) =
      bind-Outcome env.runtime _ _ (primary-Outcome env p)
        λ v. bind-Outcome env.runtime _ _ (items-Outcome env ps) λ vs. inl (_, refl)
  atom-Outcome env _ = inl (_, refl)

  items-Outcome : (env : Env) (ps : Items) → Outcome env.runtime (mean_items env ps)
  items-Outcome env last = inl (_, refl)
  items-Outcome env (item p ps) =
      bind-Outcome env.runtime _ _ (primary-Outcome env p)
        λ v. bind-Outcome env.runtime _ _ (items-Outcome env ps) λ vs. inl (_, refl)

-- Tokens that parse under some runtime and facts parse under every other, unless an invalid regular expression
-- is met.
pub parse-Outcome :
    (env env' : Env) (ts : Tokens) (b : Bool)
    → parse env ts ≡ ok b
    → Outcome env'.runtime (parse env' ts)
parse-Outcome env env' ts b accepted =
    let (d, e, m) = (parse-eq-ok_iff env ts b).1.0 accepted in
    subst (λ r. Outcome env'.runtime r) (sym (ap (parse env') e ∙ parse-write env' d))
      (unfold holds in bind-Outcome env'.runtime _ _ (or-Outcome env' d) λ v. inl (truthy v, refl))
