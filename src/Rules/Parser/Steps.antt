-- ===== src/Rules/Parser/Steps.antt =====
-- The steps of the parser's soundness: what each operator, loop and operand promises, given what its parts do.
use skyrecon.Base.{
  ℕ, zero, suc, ◌+◌, ◌*◌, ◌≤◌, ◌<◌, ◌≡◌, ◌≢◌, ◌↔◌, ◌⊎◌, inl, inr, refl, sym, ap, ◌∙◌, Bool, true,
  false, not, ◌||◌, ◌&&◌, List, [], ◌∷◌, ◌++◌, length, arith, length-append, none, some, Option,
}
use mathlib.Core.List.{append_assoc}
use skyrecon.Rules.Values.{Value, bool, items, truthy}
use skyrecon.Rules.Tokens.{
  Punct, kw_and, kw_or, kw_not, Keyword, kw_in, kw_contains, kw_startswith, kw_endswith, kw_matches,
  op, punct, kw, Tokens,
}
use skyrecon.Rules.Operators.{
  TextOp, in_, contains_, startswith_, endswith_, matches_, keyword, textual, searched,
}
use skyrecon.Rules.Results.{Result, ok, bind, Ensures, returns, raises, Ensures-if, Ensures-bind}
use skyrecon.Rules.Parser.{
  Env, Parser, eat, starts_punct, starts_or, starts_and, starts_not, expect, comparison_tail,
}
use skyrecon.Rules.Parser.Grammar.{
  or_one, or_more, and_one, and_more, Conjunction, Negation, Comparison, Primary, Atom, negate,
  plain, alone, ordered, texts, atom, negated, empty_list, write_or, write_and, write_not,
  write_comparison, write_primary, write_atom, mean_or, mean_and, mean_not, mean_comparison,
  mean_primary, mean_atom,
}

-- The tokens consumed are the text of a tree, and the value is its meaning.
abbrev pub Parsed : {T A : Type 0} → (T → Tokens) → (T → Result A) → Tokens → A × Tokens → Type 0
Parsed {T} write mean ts (v, rest) = (t : T) × (ts ≡ write t ++ rest) × (mean t ≡ ok v)

-- A loop has stopped at once, or has read its operator and a tree.
abbrev pub Looped :
    {T : Type 0}
    → Keyword
    → (T → Tokens)
    → (T → Result Value)
    → (Bool → Bool → Bool)
    → Value
    → Tokens
    → Value × Tokens
    → Type 0
Looped {T} k write mean join left ts (v, rest) =
    ((v ≡ left) × (ts ≡ rest))
    ⊎ ((t : T) × (w : Value) × (ts ≡ kw k ∷ (write t ++ rest))
        × (mean t ≡ ok w)
        × (v ≡ bool (join (truthy left) (truthy w))))

pub length-append_tokens : (xs ys : Tokens) → length (xs ++ ys) ≡ length xs + length ys
length-append_tokens = length-append

pub ruleset lengths = (arith, length-append_tokens)

pub starts_or→eq : (ts : Tokens) → starts_or ts ≡ true → ts ≡ kw kw_or ∷ eat ts
unfolding starts_or
starts_or→eq ts h = ground arith

pub starts_and→eq : (ts : Tokens) → starts_and ts ≡ true → ts ≡ kw kw_and ∷ eat ts
unfolding starts_and
starts_and→eq ts h = ground arith

pub starts_not→eq : (ts : Tokens) → starts_not ts ≡ true → ts ≡ kw kw_not ∷ eat ts
unfolding starts_not
starts_not→eq ts h = ground arith

pub starts_punct→eq : (p : Punct) (ts : Tokens) → starts_punct p ts ≡ true → ts ≡ punct p ∷ eat ts
unfolding starts_punct
starts_punct→eq p ts h = ground arith

write_atom_pos : (a : Atom) → 0 < length (write_atom a)
unfolding write_or
write_atom_pos empty_list = omega arith
write_atom_pos _ = omega arith

write_primary_pos : (p : Primary) → 0 < length (write_primary p)
unfolding write_or
write_primary_pos (atom a) = write_atom_pos a
write_primary_pos (negated p) = omega arith

write_comparison_pos : (c : Comparison) → 0 < length (write_comparison c)
unfolding write_or
write_comparison_pos (alone a) = write_atom_pos a
write_comparison_pos (ordered a o p) = omega lengths
write_comparison_pos (texts a t p) = omega lengths

pub write_not_pos : (n : Negation) → 0 < length (write_not n)
unfolding write_or
write_not_pos (negate n) = omega arith
write_not_pos (plain c) = write_comparison_pos c

pub write_and_pos : (c : Conjunction) → 0 < length (write_and c)
unfolding write_or
write_and_pos (and_one n) = write_not_pos n
write_and_pos (and_more n c) = omega lengths

pub expect-Ensures :
    {A : Type 0} (p : Punct) (a : A) (ts : Tokens)
    → Ensures (λ r. (r.0 ≡ a) × (ts ≡ punct p ∷ r.1)) (expect p a ts)
unfolding expect
expect-Ensures p a ts =
    Ensures-if (starts_punct p ts) (λ h. returns (refl, starts_punct→eq p ts h)) (λ h. raises)

searched-Ensures : (o : Option Bool) → Ensures (λ r. searched o ≡ ok r) (searched o)
searched-Ensures none = raises
searched-Ensures (some b) = returns refl

textual-Ensures :
    (env : Env) (t : TextOp) (v w : Value)
    → Ensures (λ r. textual env.runtime t v w ≡ ok r) (textual env.runtime t v w)
unfolding textual
textual-Ensures env matches_ v w = searched-Ensures _
textual-Ensures env in_ v (items xs) = returns refl
textual-Ensures env in_ v _ = returns refl
textual-Ensures env _ v w = returns refl

-- What a call that reads a primary promises, within its fuel.
abbrev pub ReadsPrimary : Env → ℕ → Parser Value → Type 0
ReadsPrimary env f right =
    (ts : Tokens)
    → 6 * length ts < f
    → Ensures (Parsed write_primary (mean_primary env) ts) (right ts)

module _ (env : Env) (f : ℕ) (right : Parser Value) (reads : ReadsPrimary env f right) where
  text_operator-Ensures :
      (t : TextOp) (a : Atom) (v : Value) (ts rest : Tokens)
      → 6 * length rest < f
      → ts ≡ write_atom a ++ kw (keyword t) ∷ rest
      → mean_atom env a ≡ ok v
      → Ensures
          (Parsed write_comparison (mean_comparison env) ts)
          (bind (right rest) λ (w, r). bind (textual env.runtime t v w) λ u. ok (u, r))
  unfolding write_or mean_or
  text_operator-Ensures t a v ts rest h e m = Ensures-bind (reads rest h) λ (w, r) (p, e', m').
      Ensures-bind (textual-Ensures env t v w)
        λ u eu. returns (texts a t p, simp (e, e', append_assoc), rw (m, m') eu)

  comparison_tail-Ensures :
      (a : Atom) (v : Value) (ts rest : Tokens)
      → 6 * length rest < f
      → ts ≡ write_atom a ++ rest
      → mean_atom env a ≡ ok v
      → Ensures
          (Parsed write_comparison (mean_comparison env) ts)
          (comparison_tail env right v rest)
  unfolding comparison_tail write_or mean_or
  comparison_tail-Ensures a v ts [] h e m = returns (alone a, e, m)
  comparison_tail-Ensures a v ts (op o ∷ rest) h e m =
      Ensures-bind (reads rest (omega arith))
        λ (w, r) (p, e', m'). returns (ordered a o p, simp (e, e', append_assoc), rw (m, m'))
  comparison_tail-Ensures a v ts (kw kw_in ∷ rest) h e m =
      text_operator-Ensures in_ a v ts rest (omega arith) e m
  comparison_tail-Ensures a v ts (kw kw_contains ∷ rest) h e m =
      text_operator-Ensures contains_ a v ts rest (omega arith) e m
  comparison_tail-Ensures a v ts (kw kw_startswith ∷ rest) h e m =
      text_operator-Ensures startswith_ a v ts rest (omega arith) e m
  comparison_tail-Ensures a v ts (kw kw_endswith ∷ rest) h e m =
      text_operator-Ensures endswith_ a v ts rest (omega arith) e m
  comparison_tail-Ensures a v ts (kw kw_matches ∷ rest) h e m =
      text_operator-Ensures matches_ a v ts rest (omega arith) e m
  comparison_tail-Ensures a v ts (kw _ ∷ rest) h e m = returns (alone a, e, m)
  comparison_tail-Ensures a v ts (_ ∷ rest) h e m = returns (alone a, e, m)

  -- Where no `not` stands in front, the primary read is an atom.
  pub comparison_operand-Ensures :
      (p : Primary) (v : Value) (ts rest : Tokens)
      → starts_not ts ≡ false
      → 6 * length rest < f
      → ts ≡ write_primary p ++ rest
      → mean_primary env p ≡ ok v
      → Ensures
          (Parsed write_comparison (mean_comparison env) ts)
          (comparison_tail env right v rest)
  unfolding write_or mean_or starts_not
  comparison_operand-Ensures (atom a) v ts rest n h e m = comparison_tail-Ensures a v ts rest h e m
  comparison_operand-Ensures (negated p) v ts rest n h e m = cc

pub or_loop-step :
    (env : Env) (a : Conjunction) (left v w : Value) (ts r rest : Tokens)
    → ts ≡ kw kw_or ∷ (write_and a ++ r)
    → mean_and env a ≡ ok v
    → Looped kw_or write_or (mean_or env) ◌||◌ (bool (truthy left || truthy v)) r (w, rest)
    → Looped kw_or write_or (mean_or env) ◌||◌ left ts (w, rest)
unfolding write_or mean_or truthy
or_loop-step env a left v w ts r rest e m (inl (ew, er)) = inr (or_one a, v, rw (← er) e, m, ew)
or_loop-step env a left v w ts r rest e m (inr (d, u, er, md, ew)) = inr (
  or_more a d,
  bool (truthy v || truthy u),
  simp (e, er, append_assoc),
  rw (m, md),
  ew ∙ ap bool (or_assoc (truthy left) (truthy v) (truthy u)),
)
  where
    or_assoc : (a b c : Bool) → ((a || b) || c) ≡ (a || (b || c))
    or_assoc true b c = refl
    or_assoc false b c = refl

pub and_loop-step :
    (env : Env) (n : Negation) (left v w : Value) (ts r rest : Tokens)
    → ts ≡ kw kw_and ∷ (write_not n ++ r)
    → mean_not env n ≡ ok v
    → Looped kw_and write_and (mean_and env) ◌&&◌ (bool (truthy left && truthy v)) r (w, rest)
    → Looped kw_and write_and (mean_and env) ◌&&◌ left ts (w, rest)
unfolding write_or mean_or truthy
and_loop-step env n left v w ts r rest e m (inl (ew, er)) = inr (and_one n, v, rw (← er) e, m, ew)
and_loop-step env n left v w ts r rest e m (inr (c, u, er, mc, ew)) = inr (
  and_more n c,
  bool (truthy v && truthy u),
  simp (e, er, append_assoc),
  rw (m, mc),
  ew ∙ ap bool (and_assoc (truthy left) (truthy v) (truthy u)),
)
  where
    and_assoc : (a b c : Bool) → ((a && b) && c) ≡ (a && (b && c))
    and_assoc true b c = refl
    and_assoc false b c = refl

pub or_expr-step :
    (env : Env) (a : Conjunction) (v w : Value) (ts r rest : Tokens)
    → ts ≡ write_and a ++ r
    → mean_and env a ≡ ok v
    → Looped kw_or write_or (mean_or env) ◌||◌ v r (w, rest)
    → Parsed write_or (mean_or env) ts (w, rest)
unfolding write_or mean_or
or_expr-step env a v w ts r rest e m (inl (ew, er)) = (or_one a, rw (← er) e, rw ew m)
or_expr-step env a v w ts r rest e m (inr (d, u, er, md, ew)) =
    (or_more a d, simp (e, er, append_assoc), rw (m, md, ew))

pub and_expr-step :
    (env : Env) (n : Negation) (v w : Value) (ts r rest : Tokens)
    → ts ≡ write_not n ++ r
    → mean_not env n ≡ ok v
    → Looped kw_and write_and (mean_and env) ◌&&◌ v r (w, rest)
    → Parsed write_and (mean_and env) ts (w, rest)
unfolding write_or mean_or
and_expr-step env n v w ts r rest e m (inl (ew, er)) = (and_one n, rw (← er) e, rw ew m)
and_expr-step env n v w ts r rest e m (inr (c, u, er, mc, ew)) =
    (and_more n c, simp (e, er, append_assoc), rw (m, mc, ew))
