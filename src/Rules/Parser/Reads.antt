-- ===== src/Rules/Parser/Reads.antt =====
-- What is written is read back: the parser reads the text of a tree off the front of its input and
-- returns what the tree means.
use skyrecon.Base.{
  ℕ, zero, suc, ◌+◌, ◌*◌, ◌<◌, ◌≡◌, refl, sym, ◌∙◌, Bool, true, false, ◌||◌, ◌&&◌, [], ◌∷◌, ◌++◌,
  length, arith, length-append,
}
use mathlib.Core.List.{append_assoc, append-nil}
use skyrecon.Rules.Values.{Value, bool, truthy}
use skyrecon.Rules.Tokens.{
  rparen, rbrack, comma, kw_and, kw_or, kw_in, kw_contains, kw_startswith, kw_endswith, kw_matches,
  op, punct, kw, Tokens,
}
use skyrecon.Rules.Operators.{TextOp, in_, keyword, textual}
use skyrecon.Rules.Results.{Result, ok, rule_error, out_of_fuel, bind}
use skyrecon.Rules.Parser.{
  Env, Parser, starts_punct, starts_not, comparison_tail, or_expr, or_loop, and_expr, and_loop,
  not_expr, comparison, primary, list_loop, parse,
}
use skyrecon.Rules.Parser.Grammar.{
  or_one, or_more, and_one, and_more, Disjunction, Conjunction, Negation, Comparison, Primary, Atom,
  Items, negate, plain, alone, ordered, texts, atom, negated, paren, empty_list, list, last, item,
  write_or, write_and, write_not, write_comparison, write_primary, write_atom, write_items, mean_or,
  mean_and, mean_not, mean_comparison, mean_primary, mean_atom, mean_items, holds,
}

-- How tightly the next token binds to what stands before it.
abbrev pub glue : Tokens → ℕ
glue (kw kw_or ∷ ts) = 1
glue (kw kw_and ∷ ts) = 2
glue (kw kw_in ∷ ts) = 3
glue (kw kw_contains ∷ ts) = 3
glue (kw kw_startswith ∷ ts) = 3
glue (kw kw_endswith ∷ ts) = 3
glue (kw kw_matches ∷ ts) = 3
glue (op o ∷ ts) = 3
glue _ = 0

-- A reader and the rest of its work, against a meaning and the rest of that.
then-reads :
    {A C : Type 0} (x : Result (A × Tokens)) (m : Result A) (rest : Tokens)
    (k : A × Tokens → Result C) (n : A → Result C)
    → x ≡ bind m (λ a. ok (a, rest))
    → ((a : A) → k (a, rest) ≡ n a)
    → bind x k ≡ bind m n
then-reads x (ok a) rest k n e h = rw e (h a)
then-reads x rule_error rest k n e h = rw e
then-reads x out_of_fuel rest k n e h = rw e

bind_assoc :
    {A B C : Type 0} (m : Result A) (f : A → Result B) (g : B → Result C)
    → bind (bind m f) g ≡ bind m (λ a. bind (f a) g)
bind_assoc (ok a) f g = refl
bind_assoc rule_error f g = refl
bind_assoc out_of_fuel f g = refl

then-then :
    {A B C : Type 0} (x : Result (A × Tokens)) (m : Result A) (rest : Tokens)
    (k : A × Tokens → Result C) (n : A → Result B) (g : B → Result C)
    → x ≡ bind m (λ a. ok (a, rest))
    → ((a : A) → k (a, rest) ≡ bind (n a) g)
    → bind x k ≡ bind (bind m n) g
then-then x m rest k n g e h =
    then-reads x m rest k (λ a. bind (n a) g) e h ∙ sym (bind_assoc m n g)

-- A loop stops at a token that binds less tightly.
or_loop-stops :
    (env : Env) (f : ℕ) (v : Value) (rest : Tokens)
    → 0 < f
    → glue rest < 1
    → or_loop env f v rest ≡ ok (v, rest)
unfolding or_loop
or_loop-stops env zero v rest h g = absurd (omega arith)
or_loop-stops env (suc f) v rest h g = ground arith

and_loop-stops :
    (env : Env) (f : ℕ) (v : Value) (rest : Tokens)
    → 0 < f
    → glue rest < 2
    → and_loop env f v rest ≡ ok (v, rest)
unfolding and_loop
and_loop-stops env zero v rest h g = absurd (omega arith)
and_loop-stops env (suc f) v rest h g = ground arith

comparison-stops :
    (env : Env) (right : Parser Value) (v : Value) (rest : Tokens)
    → glue rest < 3
    → comparison_tail env right v rest ≡ ok (v, rest)
unfolding comparison_tail
comparison-stops env right v [] g = refl
comparison-stops env right v (op o ∷ ts) g = absurd (omega arith)
comparison-stops env right v (kw k ∷ ts) g = ground arith
comparison-stops env right v (t ∷ ts) g = refl

-- A tree that is no negation does not begin with `not`, and no item with a bracket.
starts_not-atom : (a : Atom) (rest : Tokens) → starts_not (write_atom a ++ rest) ≡ false
unfolding starts_not write_or
starts_not-atom empty_list rest = refl
starts_not-atom _ rest = refl

starts_not-comparison :
    (c : Comparison) (rest : Tokens) → starts_not (write_comparison c ++ rest) ≡ false
unfolding write_or
starts_not-comparison (alone a) rest = starts_not-atom a rest
starts_not-comparison (ordered a o p) rest =
    rw append_assoc (starts_not-atom a (op o ∷ write_primary p ++ rest))
starts_not-comparison (texts a t p) rest =
    rw append_assoc (starts_not-atom a (kw (keyword t) ∷ write_primary p ++ rest))

starts_rbrack-primary :
    (p : Primary) (rest : Tokens) → starts_punct rbrack (write_primary p ++ rest) ≡ false
unfolding starts_punct write_or
starts_rbrack-primary (negated p) rest = refl
starts_rbrack-primary (atom empty_list) rest = refl
starts_rbrack-primary (atom _) rest = refl

or-shift :
    (m : Result Value) (a b : Bool) (rest : Tokens)
    → bind {B = Value × Tokens} m (λ w. ok (bool ((a || b) || truthy w), rest))
      ≡ bind (bind m (λ w. ok (bool (b || truthy w)))) (λ w. ok (bool (a || truthy w), rest))
unfolding truthy
or-shift (ok v) true b rest = refl
or-shift (ok v) false b rest = refl
or-shift rule_error a b rest = refl
or-shift out_of_fuel a b rest = refl

and-shift :
    (m : Result Value) (a b : Bool) (rest : Tokens)
    → bind {B = Value × Tokens} m (λ w. ok (bool ((a && b) && truthy w), rest))
      ≡ bind (bind m (λ w. ok (bool (b && truthy w)))) (λ w. ok (bool (a && truthy w), rest))
unfolding truthy
and-shift (ok v) true b rest = refl
and-shift (ok v) false b rest = refl
and-shift rule_error a b rest = refl
and-shift out_of_fuel a b rest = refl

-- A textual operator with its right operand read.
textual-tail :
    (env : Env) (right : Parser Value) (t : TextOp) (v : Value) (ts rest : Tokens)
    (m : Result Value)
    → right ts ≡ bind m (λ w. ok (w, rest))
    → comparison_tail env right v (kw (keyword t) ∷ ts)
      ≡ bind (bind m λ w. textual env.runtime t v w) (λ w. ok (w, rest))
unfolding comparison_tail
textual-tail env right in_ v ts rest m e = then-then _ m rest _ _ _ e (λ w. refl)
textual-tail env right _ v ts rest m e = then-then _ m rest _ _ _ e (λ w. refl)

length-append_tokens : (xs ys : Tokens) → length (xs ++ ys) ≡ length xs + length ys
length-append_tokens = length-append

ruleset lengths = (arith, length-append_tokens)

abbrev Reads : {A : Type 0} → Parser A → Tokens → Tokens → Result A → Type 0
Reads p written rest m = p (written ++ rest) ≡ bind m (λ a. ok (a, rest))

mutual
  unfolding or_expr write_or mean_or truthy

  or-Reads :
      (env : Env) (d : Disjunction) (f : ℕ) (rest : Tokens)
      → 6 * length (write_or d) + 4 < f
      → glue rest < 1
      → Reads (or_expr env f) (write_or d) rest (mean_or env d)
  or-Reads env d zero rest h g = absurd (omega arith)
  or-Reads env (or_one a) (suc f) rest h g =
      then-reads _ _ rest _ _ (and-Reads env a f rest (omega arith) (omega arith))
        (λ v. or_loop-stops env f v rest (omega arith) g)
  or-Reads env (or_more a d) (suc f) rest h g = rw append_assoc (
      then-then _ _ (kw kw_or ∷ write_or d ++ rest) _ _ _
        (and-Reads env a f (kw kw_or ∷ write_or d ++ rest) (omega lengths) (omega arith))
        (λ v.
          or_loop-Reads env d f v rest (omega lengths) g ∙ sym (bind_assoc (mean_or env d) _ _)))

  or_loop-Reads :
      (env : Env) (d : Disjunction) (f : ℕ) (left : Value) (rest : Tokens)
      → 6 * suc (length (write_or d)) < f
      → glue rest < 1
      → or_loop env f left (kw kw_or ∷ write_or d ++ rest)
        ≡ bind (mean_or env d) (λ w. ok (bool (truthy left || truthy w), rest))
  or_loop-Reads env d zero left rest h g = absurd (omega arith)
  or_loop-Reads env (or_one a) (suc f) left rest h g =
      then-reads _ _ rest _ _ (and-Reads env a f rest (omega arith) (omega arith))
        (λ v. or_loop-stops env f (bool (truthy left || truthy v)) rest (omega arith) g)
  or_loop-Reads env (or_more a d) (suc f) left rest h g = rw append_assoc (
      then-then _ _ (kw kw_or ∷ write_or d ++ rest) _ _ _
        (and-Reads env a f (kw kw_or ∷ write_or d ++ rest) (omega lengths) (omega arith))
        (λ v.
          or_loop-Reads env d f (bool (truthy left || truthy v)) rest (omega lengths) g
          ∙ or-shift (mean_or env d) (truthy left) (truthy v) rest))

  and-Reads :
      (env : Env) (c : Conjunction) (f : ℕ) (rest : Tokens)
      → 6 * length (write_and c) + 3 < f
      → glue rest < 2
      → Reads (and_expr env f) (write_and c) rest (mean_and env c)
  and-Reads env c zero rest h g = absurd (omega arith)
  and-Reads env (and_one n) (suc f) rest h g =
      then-reads _ _ rest _ _ (not-Reads env n f rest (omega arith) (omega arith))
        (λ v. and_loop-stops env f v rest (omega arith) g)
  and-Reads env (and_more n c) (suc f) rest h g = rw append_assoc (
      then-then _ _ (kw kw_and ∷ write_and c ++ rest) _ _ _
        (not-Reads env n f (kw kw_and ∷ write_and c ++ rest) (omega lengths) (omega arith))
        (λ v.
          and_loop-Reads env c f v rest (omega lengths) g ∙ sym (bind_assoc (mean_and env c) _ _)))

  and_loop-Reads :
      (env : Env) (c : Conjunction) (f : ℕ) (left : Value) (rest : Tokens)
      → 6 * suc (length (write_and c)) < f
      → glue rest < 2
      → and_loop env f left (kw kw_and ∷ write_and c ++ rest)
        ≡ bind (mean_and env c) (λ w. ok (bool (truthy left && truthy w), rest))
  and_loop-Reads env c zero left rest h g = absurd (omega arith)
  and_loop-Reads env (and_one n) (suc f) left rest h g =
      then-reads _ _ rest _ _ (not-Reads env n f rest (omega arith) (omega arith))
        (λ v. and_loop-stops env f (bool (truthy left && truthy v)) rest (omega arith) g)
  and_loop-Reads env (and_more n c) (suc f) left rest h g = rw append_assoc (
      then-then _ _ (kw kw_and ∷ write_and c ++ rest) _ _ _
        (not-Reads env n f (kw kw_and ∷ write_and c ++ rest) (omega lengths) (omega arith))
        (λ v.
          and_loop-Reads env c f (bool (truthy left && truthy v)) rest (omega lengths) g
          ∙ and-shift (mean_and env c) (truthy left) (truthy v) rest))

  not-Reads :
      (env : Env) (n : Negation) (f : ℕ) (rest : Tokens)
      → 6 * length (write_not n) + 2 < f
      → glue rest < 3
      → Reads (not_expr env f) (write_not n) rest (mean_not env n)
  not-Reads env n zero rest h g = absurd (omega arith)
  not-Reads env (negate n) (suc f) rest h g =
      then-then _ _ rest _ _ _ (not-Reads env n f rest (omega arith) g) (λ v. refl)
  not-Reads env (plain c) (suc f) rest h g =
      rw (starts_not-comparison c rest) (comparison-Reads env c f rest (omega arith) g)

  comparison-Reads :
      (env : Env) (c : Comparison) (f : ℕ) (rest : Tokens)
      → 6 * length (write_comparison c) + 1 < f
      → glue rest < 3
      → Reads (comparison env f) (write_comparison c) rest (mean_comparison env c)
  comparison-Reads env c zero rest h g = absurd (omega arith)
  comparison-Reads env (alone a) (suc f) rest h g =
      then-reads _ _ rest _ _ (atom-Reads env a f rest (omega arith))
        (λ v. comparison-stops env (primary env f) v rest g)
  comparison-Reads env (ordered a o p) (suc f) rest h g = rw append_assoc (
      then-then _ _ (op o ∷ write_primary p ++ rest) _ _ _
        (atom-Reads env a f (op o ∷ write_primary p ++ rest) (omega lengths))
        (λ v. then-then _ _ rest _ _ _ (primary-Reads env p f rest (omega lengths)) (λ w. refl)))
  comparison-Reads env (texts a t p) (suc f) rest h g = rw append_assoc (
      then-then _ _ (kw (keyword t) ∷ write_primary p ++ rest) _ _ _
        (atom-Reads env a f (kw (keyword t) ∷ write_primary p ++ rest) (omega lengths))
        (λ v.
          textual-tail env (primary env f) t v _ rest _
            (primary-Reads env p f rest (omega lengths))))

  primary-Reads :
      (env : Env) (p : Primary) (f : ℕ) (rest : Tokens)
      → 6 * length (write_primary p) < f
      → Reads (primary env f) (write_primary p) rest (mean_primary env p)
  primary-Reads env p zero rest h = absurd (omega arith)
  primary-Reads env (atom a) (suc f) rest h = atom-Reads env a (suc f) rest h
  primary-Reads env (negated p) (suc f) rest h =
      then-then _ _ rest _ _ _ (primary-Reads env p f rest (omega arith)) (λ v. refl)

  atom-Reads :
      (env : Env) (a : Atom) (f : ℕ) (rest : Tokens)
      → 6 * length (write_atom a) < f
      → Reads (primary env f) (write_atom a) rest (mean_atom env a)
  atom-Reads env a zero rest h = absurd (omega arith)
  atom-Reads env (paren d) (suc f) rest h = rw append_assoc (
      then-reads _ _ (punct rparen ∷ rest) _ _
        (or-Reads env d f (punct rparen ∷ rest) (omega lengths) (omega arith)) (λ v. refl))
  atom-Reads env (list p ps) (suc f) rest h =
      simp (append_assoc, starts_rbrack-primary)
        (then-then _ _ (write_items ps ++ punct rbrack ∷ rest) _ _ _
          (primary-Reads env p f (write_items ps ++ punct rbrack ∷ rest) (omega lengths))
          (λ v.
            then-then _ _ (punct rbrack ∷ rest) _ _ _
              (items-Reads env ps f (punct rbrack ∷ rest) (omega lengths) refl) (λ vs. refl)))
  atom-Reads env _ (suc f) rest h = refl

  items-Reads :
      (env : Env) (ps : Items) (f : ℕ) (rest : Tokens)
      → 6 * length (write_items ps) < f
      → starts_punct comma rest ≡ false
      → Reads (list_loop env f) (write_items ps) rest (mean_items env ps)
  items-Reads env ps zero rest h g = absurd (omega arith)
  items-Reads env last (suc f) rest h g = rw g
  items-Reads env (item p ps) (suc f) rest h g = rw append_assoc (
      then-then _ _ (write_items ps ++ rest) _ _ _
        (primary-Reads env p f (write_items ps ++ rest) (omega lengths))
        (λ v. then-then _ _ rest _ _ _ (items-Reads env ps f rest (omega lengths) g) (λ w. refl)))

-- The parser returns, for the tokens of any tree of the grammar, the truth of what the tree means, or the RuleError of an invalid regular expression in it.
pub parse-write : (env : Env) (d : Disjunction) → parse env (write_or d) ≡ holds env d
unfolding parse holds
parse-write env d =
    then-reads _ _ [] _ _
      (rw append-nil at
        (or-Reads env d (6 * length (write_or d) + 5) [] (omega arith) (omega arith)))
      (λ v. refl)
