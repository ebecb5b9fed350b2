-- ===== src/Rules/Tests.antt =====
-- The rule engine on the built-in rules and on small rules.
use skyrecon.Base.{
  ◌≡◌, ◌≢◌, ◌↔◌, ◌≤◌, ◌<◌, ◌&&◌, refl, Bool, true, false, none, some, List, [], ◌∷◌, length,
}
use skyrecon.Rules.Values.{Text, finite, value_eq, member, number_eq, number_lt, truthy}
use skyrecon.Rules.Tokens.{
  Token, Tokens, Op, kw, kw_or, kw_and, kw_true, op, gt, field, codes, tokenize, max_length,
  max_tokens,
}
use skyrecon.Rules.Operators.{
  Runtime, textual, compare, order, float_of, contains, str_of, has_prefix, has_suffix,
}
use skyrecon.Rules.Results.{ok, rule_error, out_of_fuel}
use skyrecon.Rules.Parser.{Env, parse, or_expr, evaluate}
use skyrecon.Rules.Parser.Grammar.{
  Disjunction, or_one, or_more, and_one, negate, plain, alone, ordered, atom, true_literal,
  number_literal, fact, write_or, holds,
}
use skyrecon.Rules.Parser.Sound.{parse-eq-ok_iff}
use skyrecon.Rules.Engine.{validate_expression, builtin_expressions, probe}
use skyrecon.Rules.Tokens.Bounds.{tokenize_bounds}

-- No text is a number, a number reads as "0", and every pattern is found.
abbrev runtime : Runtime
runtime = record {
  float_of_text = λ s. none;
  float_of_number = λ n. n;
  str_of_number = λ n. codes "0";
  str_of_items = λ xs. codes "[]";
  lower = λ s. s;
  search = λ p s. some true;
}

abbrev env : Env
env = record { runtime = runtime; facts = probe }

-- not dga > 1 or true
abbrev rule : Disjunction
rule =
    or_more
      (and_one (
        negate
          (plain (ordered (fact (codes "dga")) gt (atom (number_literal (finite false 1 1)))))))
      (or_one (and_one (plain (alone true_literal))))

parse-eq-ok_iff_example :
    (parse env (kw kw_true ∷ kw kw_or ∷ []) ≢ out_of_fuel)
    × ((parse env (kw kw_true ∷ kw kw_or ∷ []) ≡ ok true)
        ↔ ((d : Disjunction) × (kw kw_true ∷ kw kw_or ∷ [] ≡ write_or d) × (holds env d ≡ ok true)))
parse-eq-ok_iff_example = parse-eq-ok_iff env (kw kw_true ∷ kw kw_or ∷ []) true

tokenize_bounds_example :
    (tokenize (codes "dga > 1") ≢ out_of_fuel)
    × (max_length < length (codes "dga > 1") → tokenize (codes "dga > 1") ≡ rule_error)
    × ((ts : Tokens) → tokenize (codes "dga > 1") ≡ ok ts → length ts ≤ max_tokens)
tokenize_bounds_example = tokenize_bounds (codes "dga > 1")

scans :
    tokenize (codes "dga >= 0.60 and X")
    ≡ ok (
        field (codes "dga")
        ∷ op Op.ge
        ∷ Token.number (finite false 60 100)
        ∷ kw kw_and
        ∷ field (codes "X")
        ∷ [])
unfolding tokenize
scans = refl

evaluates : evaluate env (codes "not (dga > 0.6) and severity in ['low', \"medium\"]") ≡ ok true
unfolding evaluate tokenize parse or_expr truthy compare textual member value_eq number_eq number_lt
    order float_of
evaluates = refl

trailing : evaluate env (codes "true false") ≡ rule_error
unfolding evaluate tokenize parse or_expr
trailing = refl

all_valid : List Text → Bool
all_valid [] = true
all_valid (s ∷ ss) = validate_expression runtime s && all_valid ss

builtin_valid : all_valid builtin_expressions ≡ true
unfolding all_valid validate_expression evaluate tokenize parse or_expr truthy compare textual
    member value_eq number_eq number_lt order float_of contains str_of has_prefix has_suffix
builtin_valid = refl

dga_valid : validate_expression runtime (codes "dga > 1") ≡ true
unfolding validate_expression evaluate tokenize parse or_expr truthy compare textual member value_eq
    number_eq number_lt order float_of contains str_of has_prefix has_suffix
dga_valid = refl
