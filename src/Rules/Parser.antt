-- ===== src/Rules/Parser.antt =====
-- `_Parser`: recursive descent that evaluates as it goes. The position of the source is here the
-- list of tokens that are left, and each call costs a unit of fuel.
pub mod Grammar
pub mod Reads
pub mod Steps
pub mod Sound
pub mod Uniform
use skyrecon.Base.{
  ℕ, zero, suc, ◌+◌, ◌*◌, Bool, true, false, not, ◌||◌, ◌&&◌, Option, none, some, List, [], ◌∷◌,
  length, if◌then◌else◌,
}
use skyrecon.Rules.Values.{
  Text, text_eq, Value, null, bool, number, text, items, Values, nil, cons, truthy,
}
use skyrecon.Rules.Tokens.{
  Op, Punct, lparen, rparen, lbrack, rbrack, comma, Keyword, kw_and, kw_or, kw_not, kw_true,
  kw_false, kw_null, Token, number, string, op, punct, kw, field, Tokens, tokenize, is_blank,
  is_space,
}
use skyrecon.Rules.Operators.{Runtime, compare, TextOp, text_op_of, textual}
use skyrecon.Rules.Results
use skyrecon.Rules.Results.{Result, ok, rule_error, out_of_fuel}

pub record Env : Type 0 where
  pub runtime : Runtime
  pub facts : List (Text × Value)

abbrev pub Parser : Type 0 → Type 0
Parser A = Tokens → Result (A × Tokens)

-- `facts.get(name)`
pub get : List (Text × Value) → Text → Value
get [] name = null
get ((k, v) ∷ fs) name = if text_eq k name then v else get fs name

abbrev pub same_punct : Punct → Punct → Bool
same_punct lparen lparen = true
same_punct rparen rparen = true
same_punct lbrack lbrack = true
same_punct rbrack rbrack = true
same_punct comma comma = true
same_punct _ _ = false

-- `peek` shows that punctuation, or that keyword.
pub starts_punct : Punct → Tokens → Bool
starts_punct p (punct q ∷ ts) = same_punct q p
starts_punct p _ = false

pub starts_or : Tokens → Bool
starts_or (kw kw_or ∷ ts) = true
starts_or _ = false

pub starts_and : Tokens → Bool
starts_and (kw kw_and ∷ ts) = true
starts_and _ = false

pub starts_not : Tokens → Bool
starts_not (kw kw_not ∷ ts) = true
starts_not _ = false

abbrev pub eat : Tokens → Tokens
eat [] = []
eat (t ∷ ts) = ts

pub expect : {A : Type 0} → Punct → A → Parser A
unfolding starts_punct
expect p a ts = if starts_punct p ts then ok (a, eat ts) else rule_error

-- What `comparison` does behind its left operand, given the call that reads the right one.
pub comparison_tail : Env → Parser Value → Value → Parser Value
comparison_tail env right left [] = ok (left, [])
comparison_tail env right left (op o ∷ ts) =
    Results.bind (right ts) λ (v, rest). ok (bool (compare env.runtime o left v), rest)
comparison_tail env right left (kw k ∷ ts) = elim (text_op_of k) [
  | none ↦ ok (left, kw k ∷ ts)
  | some t ↦
      Results.bind (right ts)
        λ (v, rest). Results.bind (textual env.runtime t left v) λ w. ok (w, rest)
]
comparison_tail env right left (t ∷ ts) = ok (left, t ∷ ts)

unfoldable mutual
  unfolding starts_punct starts_or starts_and starts_not expect comparison_tail get

  pub or_expr : Env → ℕ → Parser Value
  or_expr env zero ts = out_of_fuel
  or_expr env (suc f) ts = Results.bind (and_expr env f ts) λ (v, rest). or_loop env f v rest

  pub or_loop : Env → ℕ → Value → Parser Value
  or_loop env zero left ts = out_of_fuel
  or_loop env (suc f) left ts =
      let more =
        Results.bind (and_expr env f (eat ts))
          λ (v, rest). or_loop env f (bool (truthy left || truthy v)) rest in
      if starts_or ts then more else ok (left, ts)

  pub and_expr : Env → ℕ → Parser Value
  and_expr env zero ts = out_of_fuel
  and_expr env (suc f) ts = Results.bind (not_expr env f ts) λ (v, rest). and_loop env f v rest

  pub and_loop : Env → ℕ → Value → Parser Value
  and_loop env zero left ts = out_of_fuel
  and_loop env (suc f) left ts =
      let more =
        Results.bind (not_expr env f (eat ts))
          λ (v, rest). and_loop env f (bool (truthy left && truthy v)) rest in
      if starts_and ts then more else ok (left, ts)

  pub not_expr : Env → ℕ → Parser Value
  not_expr env zero ts = out_of_fuel
  not_expr env (suc f) ts =
      let negated =
        Results.bind (not_expr env f (eat ts)) λ (v, rest). ok (bool (not (truthy v)), rest) in
      let plain = comparison env f ts in if starts_not ts then negated else plain

  pub comparison : Env → ℕ → Parser Value
  comparison env zero ts = out_of_fuel
  comparison env (suc f) ts =
      Results.bind (primary env f ts) λ (v, rest). comparison_tail env (primary env f) v rest

  pub primary : Env → ℕ → Parser Value
  primary env zero ts = out_of_fuel
  primary env (suc f) [] = rule_error
  primary env (suc f) (number n ∷ ts) = ok (Value.number n, ts)
  primary env (suc f) (string s ∷ ts) = ok (text s, ts)
  primary env (suc f) (kw kw_true ∷ ts) = ok (bool true, ts)
  primary env (suc f) (kw kw_false ∷ ts) = ok (bool false, ts)
  primary env (suc f) (kw kw_null ∷ ts) = ok (null, ts)
  primary env (suc f) (kw kw_not ∷ ts) =
      Results.bind (primary env f ts) λ (v, rest). ok (bool (not (truthy v)), rest)
  primary env (suc f) (field name ∷ ts) = ok (get env.facts name, ts)
  primary env (suc f) (punct lparen ∷ ts) =
      Results.bind (or_expr env f ts) λ (v, rest). expect rparen v rest
  primary env (suc f) (punct lbrack ∷ ts) =
      let some_items = Results.bind (primary env f ts) λ (v, rest).
        Results.bind (list_loop env f rest)
          λ (vs, rest'). expect rbrack (items (cons v vs)) rest' in
      if starts_punct rbrack ts then ok (items nil, eat ts) else some_items
  primary env (suc f) _ = rule_error

  pub list_loop : Env → ℕ → Parser Values
  list_loop env zero ts = out_of_fuel
  list_loop env (suc f) ts =
      let more =
        Results.bind (primary env f (eat ts))
          λ (v, rest). Results.bind (list_loop env f rest) λ (vs, rest'). ok (cons v vs, rest') in
      if starts_punct comma ts then more else ok (nil, ts)

unfoldable pub finish : Value → Tokens → Result Bool
finish v [] = ok (truthy v)
finish v (t ∷ ts) = rule_error

unfoldable pub parse : Env → Tokens → Result Bool
unfolding finish
parse env ts = Results.bind (or_expr env (6 * length ts + 5) ts) λ (v, rest). finish v rest

unfoldable pub evaluate : Env → Text → Result Bool
unfolding is_blank is_space
evaluate env s =
    let run = Results.bind (tokenize s) (parse env) in if is_blank s then ok false else run
