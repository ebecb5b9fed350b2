-- ===== src/Rules/Parser/Grammar.antt =====
-- The grammar of the rule language as syntax trees, how a tree is written, and what it means.
-- The parser is described by these alone: no position, no loop and no accumulator stands here.
use skyrecon.Base.{Bool, true, false, not, ◌||◌, ◌&&◌, [], ◌∷◌, ◌++◌}
use skyrecon.Rules.Values.{
  Text, Number, Value, null, bool, number, text, items, Values, nil, cons, truthy,
}
use skyrecon.Rules.Tokens.{
  Op, lparen, rparen, lbrack, rbrack, comma, kw_and, kw_or, kw_not, kw_true, kw_false, kw_null,
  Token, string, op, punct, kw, field, Tokens,
}
use skyrecon.Rules.Operators.{compare, TextOp, keyword, textual}
use skyrecon.Rules.Results.{Result, ok, bind}
use skyrecon.Rules.Parser.{Env, get}

-- or > and > not > comparison > primary; only the right operand of a comparison and the items of a
-- list may begin with `not`.
mutual
  pub data Disjunction : Type 0 where
    or_one : Conjunction → Disjunction
    or_more : Conjunction → Disjunction → Disjunction

  pub data Conjunction : Type 0 where
    and_one : Negation → Conjunction
    and_more : Negation → Conjunction → Conjunction

  pub data Negation : Type 0 where
    negate : Negation → Negation
    plain : Comparison → Negation

  pub data Comparison : Type 0 where
    alone : Atom → Comparison
    ordered : Atom → Op → Primary → Comparison
    texts : Atom → TextOp → Primary → Comparison

  pub data Primary : Type 0 where
    atom : Atom → Primary
    negated : Primary → Primary

  pub data Atom : Type 0 where
    number_literal : Number → Atom
    text_literal : Text → Atom
    true_literal false_literal null_literal : Atom
    fact : Text → Atom
    paren : Disjunction → Atom
    empty_list : Atom
    list : Primary → Items → Atom

  pub data Items : Type 0 where
    last : Items
    item : Primary → Items → Items

unfoldable mutual
  pub write_or : Disjunction → Tokens
  write_or (or_one a) = write_and a
  write_or (or_more a d) = write_and a ++ kw kw_or ∷ write_or d

  pub write_and : Conjunction → Tokens
  write_and (and_one n) = write_not n
  write_and (and_more n c) = write_not n ++ kw kw_and ∷ write_and c

  pub write_not : Negation → Tokens
  write_not (negate n) = kw kw_not ∷ write_not n
  write_not (plain c) = write_comparison c

  pub write_comparison : Comparison → Tokens
  write_comparison (alone a) = write_atom a
  write_comparison (ordered a o p) = write_atom a ++ op o ∷ write_primary p
  write_comparison (texts a t p) = write_atom a ++ kw (keyword t) ∷ write_primary p

  pub write_primary : Primary → Tokens
  write_primary (atom a) = write_atom a
  write_primary (negated p) = kw kw_not ∷ write_primary p

  pub write_atom : Atom → Tokens
  write_atom (number_literal n) = Token.number n ∷ []
  write_atom (text_literal s) = string s ∷ []
  write_atom true_literal = kw kw_true ∷ []
  write_atom false_literal = kw kw_false ∷ []
  write_atom null_literal = kw kw_null ∷ []
  write_atom (fact name) = field name ∷ []
  write_atom (paren d) = punct lparen ∷ (write_or d ++ punct rparen ∷ [])
  write_atom empty_list = punct lbrack ∷ punct rbrack ∷ []
  write_atom (list p ps) = punct lbrack ∷ (write_primary p ++ (write_items ps ++ punct rbrack ∷ []))

  pub write_items : Items → Tokens
  write_items last = []
  write_items (item p ps) = punct comma ∷ (write_primary p ++ write_items ps)

-- An operator's operands are all evaluated; `rule_error` is an invalid regular expression.
unfoldable mutual
  pub mean_or : Env → Disjunction → Result Value
  mean_or env (or_one a) = mean_and env a
  mean_or env (or_more a d) =
      bind (mean_and env a) λ v. bind (mean_or env d) λ w. ok (bool (truthy v || truthy w))

  pub mean_and : Env → Conjunction → Result Value
  mean_and env (and_one n) = mean_not env n
  mean_and env (and_more n c) =
      bind (mean_not env n) λ v. bind (mean_and env c) λ w. ok (bool (truthy v && truthy w))

  pub mean_not : Env → Negation → Result Value
  mean_not env (negate n) = bind (mean_not env n) λ v. ok (bool (not (truthy v)))
  mean_not env (plain c) = mean_comparison env c

  pub mean_comparison : Env → Comparison → Result Value
  mean_comparison env (alone a) = mean_atom env a
  mean_comparison env (ordered a o p) =
      bind (mean_atom env a)
        λ v. bind (mean_primary env p) λ w. ok (bool (compare env.runtime o v w))
  mean_comparison env (texts a t p) =
      bind (mean_atom env a) λ v. bind (mean_primary env p) λ w. textual env.runtime t v w

  pub mean_primary : Env → Primary → Result Value
  mean_primary env (atom a) = mean_atom env a
  mean_primary env (negated p) = bind (mean_primary env p) λ v. ok (bool (not (truthy v)))

  pub mean_atom : Env → Atom → Result Value
  mean_atom env (number_literal n) = ok (number n)
  mean_atom env (text_literal s) = ok (text s)
  mean_atom env true_literal = ok (bool true)
  mean_atom env false_literal = ok (bool false)
  mean_atom env null_literal = ok null
  mean_atom env (fact name) = ok (get env.facts name)
  mean_atom env (paren d) = mean_or env d
  mean_atom env empty_list = ok (items nil)
  mean_atom env (list p ps) =
      bind (mean_primary env p) λ v. bind (mean_items env ps) λ vs. ok (items (cons v vs))

  pub mean_items : Env → Items → Result Values
  mean_items env last = ok nil
  mean_items env (item p ps) =
      bind (mean_primary env p) λ v. bind (mean_items env ps) λ vs. ok (cons v vs)

-- What a rule's text means: the truth of its value.
unfoldable pub holds : Env → Disjunction → Result Bool
holds env d = bind (mean_or env d) λ v. ok (truthy v)
