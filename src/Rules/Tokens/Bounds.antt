-- ===== src/Rules/Tokens/Bounds.antt =====
-- The scanner ends on every text, and keeps within its limits.
use skyrecon.Base.{
  ℕ, zero, suc, ◌+◌, ◌≤◌, ◌<◌, ◌≡◌, ◌≢◌, refl, Bool, true, false, Option, none, some, [], ◌∷◌,
  length, arith, ltb, ◌==◌, ◌||◌, lt→ltb, if◌then◌else◌,
}
use skyrecon.Rules.Values.{Text}
use skyrecon.Rules.Results.{
  Result, ok, rule_error, out_of_fuel, bind, Ensures, returns, raises, Ensures-if, Ensures-bind,
  Ensures-ok, Ensures-map, Ensures-ne-out_of_fuel,
}
use skyrecon.Rules.Tokens.{
  Token, punct, Punct, Tokens, max_length, max_tokens, span, fraction, unsigned, quoted, closed,
  operator, word, is_word, punctuation, next_token, is_space, is_digit, scan, tokenize, or_else,
}

span-length : (p : ℕ → Bool) (s : Text) → length (span p s).0 + length (span p s).1 ≡ length s
unfolding span
span-length p [] = refl
span-length p (c ∷ s) = ground (arith, span-length p s)

-- What is left is no longer than the bound.
abbrev Within : ℕ → Option (Token × Text) → Type 0
Within n none = Unit
Within n (some (t, rest)) = length rest ≤ n

fraction-Within : (m : Bool) (w s : Text) → length (fraction m w s).1 ≤ length s
unfolding fraction
fraction-Within m w [] = omega arith
fraction-Within m w (c ∷ s) = ground (arith, span-length is_digit s)

unsigned-Within : (m : Bool) (s : Text) (n : ℕ) → length s ≤ suc n → Within n (unsigned m s)
unfolding unsigned
unsigned-Within m s n h =
    ground
      (arith, span-length is_digit s, fraction-Within m (span is_digit s).0 (span is_digit s).1)

closed-Within : (r : Text × Text) → Within (length r.1) (closed r)
unfolding closed
closed-Within (body, []) = tt
closed-Within (body, c ∷ rest) = omega arith

weaken : (m n : ℕ) (r : Option (Token × Text)) → m ≤ n → Within m r → Within n r
weaken m n none h w = tt
weaken m n (some (t, rest)) h w = omega arith

quoted-Within : (q : ℕ) (s : Text) → Within (length s) (quoted q s)
unfolding quoted
quoted-Within q s =
    let body = λ (c : ℕ). if c == q then false else true in
    weaken (length (span body s).1) (length s) (closed (span body s))
      (omega (arith, span-length body s)) (closed-Within (span body s))

operator-Within : (c : ℕ) (s : Text) → Within (length s) (operator c s)
unfolding operator
operator-Within c [] = ground arith
operator-Within c (d ∷ s) = ground arith

or_else-Within :
    (n : ℕ) (a b : Option (Token × Text)) → Within n a → Within n b → Within n (or_else a b)
or_else-Within n none b ha hb = hb
or_else-Within n (some r) b ha hb = ha

next_token-Within : (c : ℕ) (s : Text) → Within (length s) (next_token c s)
unfolding next_token
next_token-Within c s = or_else-Within (length s) _ _ (number-Within (c == b'-')) (
    or_else-Within (length s) _ _ (string-Within (c == b'"' || c == 39)) (
      or_else-Within (length s) _ _ (operator-Within c s)
        (or_else-Within (length s) _ _ (punct-Within (punctuation c)) word-Within)))
  where
    number-Within :
        (b : Bool) → Within (length s) (if b then unsigned true s else unsigned false (c ∷ s))
    number-Within true = unsigned-Within true s (length s) (omega arith)
    number-Within false = unsigned-Within false (c ∷ s) (length s) (omega arith)

    string-Within : (b : Bool) → Within (length s) (if b then quoted c s else none)
    string-Within true = quoted-Within c s
    string-Within false = tt

    punct-Within :
        (p : Option Punct) → Within (length s) (elim p [ none ↦ none | some q ↦ some (punct q, s) ])
    punct-Within none = tt
    punct-Within (some q) = omega arith

    word-Within : Within (length s) (word c s)
    word-Within = unfold word in ground (arith, span-length is_word s)

-- A scan with `n` tokens behind it, that has fuel for every character.
scan-Ensures :
    (f n : ℕ) (s : Text)
    → length s < f
    → n ≤ max_tokens
    → Ensures (λ (ts : Tokens). n + length ts ≤ max_tokens) (scan f n s)
unfolding scan
scan-Ensures zero n s h m = absurd (omega arith)
scan-Ensures (suc f) n [] h m = returns (omega arith)
scan-Ensures (suc f) n (c ∷ s) h m =
    Ensures-if (is_space c) (λ sp. scan-Ensures f n s (omega arith) m)
      (λ sp. matched (next_token c s) (next_token-Within c s) (scan-Ensures f (suc n)))
  where
    matched :
        (r : Option (Token × Text))
        → Within (length s) r
        → ((rest : Text)
            → length rest < f
            → suc n ≤ max_tokens
            → Ensures (λ (ts : Tokens). suc n + length ts ≤ max_tokens) (scan f (suc n) rest))
        → Ensures
            (λ (ts : Tokens). n + length ts ≤ max_tokens)
            (let r' : Result Tokens = elim r [
              | none ↦ rule_error
              | some (t, rest) ↦
                  if ltb max_tokens (suc n)
                  then rule_error
                  else bind (scan f (suc n) rest) (λ ts. ok (t ∷ ts))
            ] in
              r')
    matched none w k = raises
    matched (some (t, rest)) w k =
        Ensures-if (ltb max_tokens (suc n)) (λ big. raises)
          (λ small.
            Ensures-bind (k rest (omega arith) (ground arith)) λ ts b. returns (omega arith))

-- The scanner ends on every text; it refuses a text of more than 2000 characters, and what it accepts has at most 400 tokens.
pub tokenize_bounds :
    (s : Text)
    → (tokenize s ≢ out_of_fuel)
      × (max_length < length s → tokenize s ≡ rule_error)
      × ((ts : Tokens) → tokenize s ≡ ok ts → length ts ≤ max_tokens)
tokenize_bounds s = (Ensures-ne-out_of_fuel bounded, too_long, λ ts e. Ensures-ok bounded e)
  where
    bounded : Ensures (λ (ts : Tokens). length ts ≤ max_tokens) (tokenize s)
    bounded =
        unfold tokenize in
        Ensures-if (ltb max_length (length s)) (λ long. raises)
          (λ fits.
            Ensures-map (scan-Ensures (suc (length s)) 0 s (omega arith) (omega arith))
              λ ts b. omega arith)

    too_long : max_length < length s → tokenize s ≡ rule_error
    too_long h = unfold tokenize in rw (lt→ltb max_length (length s) h)
