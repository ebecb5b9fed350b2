-- ===== src/Rules/Parser/Sound.antt =====
-- The fuel of the parser always suffices, and what it accepts is the text of a tree of the grammar,
-- with the value that the tree means.
use skyrecon.Base.{
  ℕ, zero, suc, ◌+◌, ◌*◌, ◌<◌, ◌≡◌, ◌≢◌, ◌↔◌, inl, refl, ap, ◌∙◌, Bool, false, ◌||◌, ◌&&◌, [], ◌∷◌,
  length, arith,
}
use mathlib.Core.List.{append_assoc, append-nil}
use skyrecon.Rules.Values.{Value, bool, items, cons, truthy}
use skyrecon.Rules.Tokens.{
  lparen, rparen, lbrack, rbrack, comma, kw_and, kw_or, kw_not, kw_true, kw_false, kw_null, string,
  punct, kw, field, Tokens, number,
}
use skyrecon.Rules.Results.{
  ok, out_of_fuel, Ensures, returns, raises, Ensures-ok, Ensures-ne-out_of_fuel, Ensures-if,
  Ensures-bind, Ensures-map,
}
use skyrecon.Rules.Parser.{
  Env, eat, starts_punct, starts_or, starts_and, starts_not, or_expr, or_loop, and_expr, and_loop,
  not_expr, comparison, primary, list_loop, finish, parse,
}
use skyrecon.Rules.Parser.Grammar.{
  Disjunction, negate, plain, atom, negated, number_literal, text_literal, true_literal,
  false_literal, null_literal, fact, paren, empty_list, list, last, item, write_or, write_and,
  write_not, write_comparison, write_items, mean_or, mean_and, mean_not, mean_comparison,
  mean_items, holds,
}
use skyrecon.Rules.Parser.Reads.{parse-write}
use skyrecon.Rules.Parser.Steps.{
  Parsed, Looped, ReadsPrimary, lengths, starts_or→eq, starts_and→eq, starts_not→eq,
  starts_punct→eq, expect-Ensures, or_loop-step, and_loop-step, or_expr-step, and_expr-step,
  comparison_operand-Ensures,
}

-- One induction on the fuel.
mutual
  unfolding or_expr write_or mean_or

  or-Ensures :
      (env : Env) (f : ℕ) (ts : Tokens)
      → 6 * length ts + 4 < f
      → Ensures (Parsed write_or (mean_or env) ts) (or_expr env f ts)
  or-Ensures env zero ts h = absurd (omega arith)
  or-Ensures env (suc f) ts h =
      Ensures-bind (and-Ensures env f ts (omega arith)) λ (v, r) (a, e, m).
        Ensures-map (or_loop-Ensures env f v r (omega (lengths, ap length e)))
          λ (w, rest) l. or_expr-step env a v w ts r rest e m l

  or_loop-Ensures :
      (env : Env) (f : ℕ) (left : Value) (ts : Tokens)
      → 6 * length ts < f
      → Ensures (Looped kw_or write_or (mean_or env) ◌||◌ left ts) (or_loop env f left ts)
  or_loop-Ensures env zero left ts h = absurd (omega arith)
  or_loop-Ensures env (suc f) left ts h =
      Ensures-if (starts_or ts)
        (λ s.
          let at = starts_or→eq ts s in
          Ensures-bind (and-Ensures env f (eat ts) (omega (arith, ap length at)))
            λ (v, r) (a, e, m).
              Ensures-map
                (or_loop-Ensures env f (bool (truthy left || truthy v)) r
                  (omega (lengths, ap length at, ap length e)))
                λ (w, rest) l.
                  or_loop-step env a left v w ts r rest (at ∙ ap (λ t. kw kw_or ∷ t) e) m l)
        (λ s. returns (inl (refl, refl)))

  and-Ensures :
      (env : Env) (f : ℕ) (ts : Tokens)
      → 6 * length ts + 3 < f
      → Ensures (Parsed write_and (mean_and env) ts) (and_expr env f ts)
  and-Ensures env zero ts h = absurd (omega arith)
  and-Ensures env (suc f) ts h =
      Ensures-bind (not-Ensures env f ts (omega arith)) λ (v, r) (n, e, m).
        Ensures-map (and_loop-Ensures env f v r (omega (lengths, ap length e)))
          λ (w, rest) l. and_expr-step env n v w ts r rest e m l

  and_loop-Ensures :
      (env : Env) (f : ℕ) (left : Value) (ts : Tokens)
      → 6 * length ts < f
      → Ensures (Looped kw_and write_and (mean_and env) ◌&&◌ left ts) (and_loop env f left ts)
  and_loop-Ensures env zero left ts h = absurd (omega arith)
  and_loop-Ensures env (suc f) left ts h =
      Ensures-if (starts_and ts)
        (λ s.
          let at = starts_and→eq ts s in
          Ensures-bind (not-Ensures env f (eat ts) (omega (arith, ap length at)))
            λ (v, r) (n, e, m).
              Ensures-map
                (and_loop-Ensures env f (bool (truthy left && truthy v)) r
                  (omega (lengths, ap length at, ap length e)))
                λ (w, rest) l.
                  and_loop-step env n left v w ts r rest (at ∙ ap (λ t. kw kw_and ∷ t) e) m l)
        (λ s. returns (inl (refl, refl)))

  not-Ensures :
      (env : Env) (f : ℕ) (ts : Tokens)
      → 6 * length ts + 2 < f
      → Ensures (Parsed write_not (mean_not env) ts) (not_expr env f ts)
  not-Ensures env zero ts h = absurd (omega arith)
  not-Ensures env (suc f) ts h =
      Ensures-if (starts_not ts)
        (λ s.
          let at = starts_not→eq ts s in
          Ensures-bind (not-Ensures env f (eat ts) (omega (arith, ap length at)))
            λ (v, r) (n, e, m). returns (negate n, at ∙ ap (λ t. kw kw_not ∷ t) e, rw m))
        (λ s.
          Ensures-map (comparison-Ensures env f ts s (omega arith)) λ r (c, e, m). (plain c, e, m))

  comparison-Ensures :
      (env : Env) (f : ℕ) (ts : Tokens)
      → starts_not ts ≡ false
      → 6 * length ts + 1 < f
      → Ensures (Parsed write_comparison (mean_comparison env) ts) (comparison env f ts)
  comparison-Ensures env zero ts n h = absurd (omega arith)
  comparison-Ensures env (suc f) ts n h =
      Ensures-bind (primary-Ensures env f ts (omega arith)) λ (v, r) (p, e, m).
        comparison_operand-Ensures env f (primary env f) (primary-Ensures env f) p v ts r n
          (omega (lengths, ap length e)) e m

  primary-Ensures : (env : Env) (f : ℕ) → ReadsPrimary env f (primary env f)
  primary-Ensures env zero ts h = absurd (omega arith)
  primary-Ensures env (suc f) [] h = raises
  primary-Ensures env (suc f) (number n ∷ ts) h = returns (atom (number_literal n), refl, refl)
  primary-Ensures env (suc f) (string s ∷ ts) h = returns (atom (text_literal s), refl, refl)
  primary-Ensures env (suc f) (kw kw_true ∷ ts) h = returns (atom true_literal, refl, refl)
  primary-Ensures env (suc f) (kw kw_false ∷ ts) h = returns (atom false_literal, refl, refl)
  primary-Ensures env (suc f) (kw kw_null ∷ ts) h = returns (atom null_literal, refl, refl)
  primary-Ensures env (suc f) (kw kw_not ∷ ts) h =
      Ensures-bind (primary-Ensures env f ts (omega arith))
        λ (v, r) (p, e, m). returns (negated p, ap (λ t. kw kw_not ∷ t) e, rw m)
  primary-Ensures env (suc f) (field name ∷ ts) h = returns (atom (fact name), refl, refl)
  primary-Ensures env (suc f) (punct lparen ∷ ts) h =
      Ensures-bind (or-Ensures env f ts (omega arith)) λ (v, r) (d, e, m).
        Ensures-map (expect-Ensures rparen v r)
          λ (w, rest) (ew, er). (atom (paren d), simp (e, er, append_assoc), rw ew m)
  primary-Ensures env (suc f) (punct lbrack ∷ ts) h =
      Ensures-if (starts_punct rbrack ts)
        (λ s.
          returns (atom empty_list, ap (λ t. punct lbrack ∷ t) (starts_punct→eq rbrack ts s), refl))
        (λ s. Ensures-bind (primary-Ensures env f ts (omega arith)) λ (v, r) (p, e, m).
          Ensures-bind (items-Ensures env f r (omega (lengths, ap length e)))
            λ (vs, r') (ps, e', m').
              Ensures-map (expect-Ensures rbrack (items (cons v vs)) r') λ (w, rest) (ew, er).
                (atom (list p ps), simp (e, e', er, append_assoc), rw (m, m', ew)))
  primary-Ensures env (suc f) _ h = raises

  items-Ensures :
      (env : Env) (f : ℕ) (ts : Tokens)
      → 6 * length ts < f
      → Ensures (Parsed write_items (mean_items env) ts) (list_loop env f ts)
  items-Ensures env zero ts h = absurd (omega arith)
  items-Ensures env (suc f) ts h =
      Ensures-if (starts_punct comma ts)
        (λ s.
          let at = starts_punct→eq comma ts s in
          Ensures-bind (primary-Ensures env f (eat ts) (omega (arith, ap length at)))
            λ (v, r) (p, e, m).
              Ensures-bind (items-Ensures env f r (omega (lengths, ap length at, ap length e)))
                λ (vs, rest) (ps, e', m'). returns (
                  item p ps,
                  at ∙ ap (λ t. punct comma ∷ t) (simp (e, e', append_assoc)),
                  rw (m, m'),
                ))
        (λ s. returns (last, refl, refl))

finish-Ensures :
    (env : Env) (v : Value) (ts rest : Tokens)
    → Parsed write_or (mean_or env) ts (v, rest)
    → Ensures (λ b. (d : Disjunction) × (ts ≡ write_or d) × (holds env d ≡ ok b)) (finish v rest)
unfolding finish holds
finish-Ensures env v ts [] (d, e, m) = returns (d, e ∙ append-nil (write_or d), rw m)
finish-Ensures env v ts (t ∷ rest) _ = raises

parse-Ensures :
    (env : Env) (ts : Tokens)
    → Ensures (λ b. (d : Disjunction) × (ts ≡ write_or d) × (holds env d ≡ ok b)) (parse env ts)
unfolding parse
parse-Ensures env ts =
    Ensures-bind (or-Ensures env (6 * length ts + 5) ts (omega arith))
      λ (v, rest) p. finish-Ensures env v ts rest p

-- The parser ends on every list of tokens, and it accepts one, with an answer, exactly when the tokens are the text of a tree of the grammar whose meaning has that truth.
pub parse-eq-ok_iff :
    (env : Env) (ts : Tokens) (b : Bool)
    → (parse env ts ≢ out_of_fuel)
      × ((parse env ts ≡ ok b) ↔ ((d : Disjunction) × (ts ≡ write_or d) × (holds env d ≡ ok b)))
parse-eq-ok_iff env ts b = (
  Ensures-ne-out_of_fuel (parse-Ensures env ts),
  (Ensures-ok (parse-Ensures env ts), λ (d, e, m). rw e (parse-write env d ∙ m)),
)
