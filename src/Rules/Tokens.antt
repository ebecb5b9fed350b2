-- ===== src/Rules/Tokens.antt =====
-- Tokens, and the scanner `tokenize` with the alternatives of `_TOKEN` in their order, over ASCII.
pub mod Bounds
use Prim.Native.Char.{code}
pub use skyrecon.Base.{codes}
use skyrecon.Base.{
  ℕ, zero, suc, ◌+◌, ◌-◌, ◌*◌, String, Bool, true, false, ◌&&◌, ◌||◌, Option, none, some, List, [],
  ◌∷◌, ◌++◌, map, length, ltb, leb, ◌==◌, if◌then◌else◌,
}
use skyrecon.Rules.Values.{Text, text_eq, Number, finite}
use skyrecon.Rules.Results.{Result, ok, rule_error, out_of_fuel, bind}

pub data Op : Type 0 where
  eq ne ge le gt lt : Op

pub data Punct : Type 0 where
  lparen rparen lbrack rbrack comma : Punct

pub data Keyword : Type 0 where
  kw_and kw_or kw_not kw_in kw_contains kw_startswith kw_endswith kw_matches : Keyword
  kw_true kw_false kw_null : Keyword

pub data Token : Type 0 where
  number : Number → Token
  string : Text → Token
  op : Op → Token
  punct : Punct → Token
  kw : Keyword → Token
  field : Text → Token

abbrev pub Tokens : Type 0
Tokens = List Token

abbrev pub max_length : ℕ
max_length = 2000

abbrev pub max_tokens : ℕ
max_tokens = 400

-- `\s`, `\d` and the two classes of a word.
unfoldable pub is_space : ℕ → Bool
is_space c = c == 32 || leb 9 c && leb c 13 || leb 28 c && leb c 31

is_digit : ℕ → Bool
is_digit c = leb b'0' c && leb c b'9'

is_upper : ℕ → Bool
is_upper c = leb b'A' c && leb c b'Z'

is_word_start : ℕ → Bool
is_word_start c = is_upper c || leb b'a' c && leb c b'z' || c == b'_'

is_word : ℕ → Bool
is_word c = is_word_start c || is_digit c || c == b'.'

-- The longest prefix that passes the test, and the rest.
span : (ℕ → Bool) → Text → Text × Text
span p [] = ([], [])
span p (c ∷ s) = let (a, r) = span p s in if p c then (c ∷ a, r) else ([], c ∷ s)

lower : ℕ → ℕ
lower c = if is_upper c then c + 32 else c

keyword_of : Text → Option Keyword
keyword_of w =
    if text_eq w (codes "and")
    then some kw_and
    else if text_eq w (codes "or")
    then some kw_or
    else if text_eq w (codes "not")
    then some kw_not
    else if text_eq w (codes "in")
    then some kw_in
    else if text_eq w (codes "contains")
    then some kw_contains
    else if text_eq w (codes "startswith")
    then some kw_startswith
    else if text_eq w (codes "endswith")
    then some kw_endswith
    else if text_eq w (codes "matches")
    then some kw_matches
    else if text_eq w (codes "true")
    then some kw_true
    else if text_eq w (codes "false")
    then some kw_false
    else if text_eq w (codes "null")
    then some kw_null
    else none

word_token : Text → Token
word_token raw = elim (keyword_of (map lower raw)) [ none ↦ field raw | some k ↦ kw k ]

digits_value : ℕ → Text → ℕ
digits_value acc [] = acc
digits_value acc (c ∷ s) = digits_value (acc * 10 + (c - b'0')) s

ten_to : Text → ℕ
ten_to [] = 1
ten_to (c ∷ s) = 10 * ten_to s

-- The fraction `(?:\.\d+)?` behind the digits `whole`.
fraction : Bool → Text → Text → Token × Text
fraction minus whole (c ∷ s) =
    let (part, rest) = span is_digit s in
    if c == b'.' && ltb 0 (length part)
    then (number (finite minus (digits_value 0 (whole ++ part)) (ten_to part)), rest)
    else (number (finite minus (digits_value 0 whole) 1), c ∷ s)
fraction minus whole [] = (number (finite minus (digits_value 0 whole) 1), [])

-- `-?\d+(?:\.\d+)?`, once the sign is off; `none` where no digit follows.
unsigned : Bool → Text → Option (Token × Text)
unsigned minus s =
    let (whole, rest) = span is_digit s in
    if ltb 0 (length whole) then some (fraction minus whole rest) else none

-- `"[^"]*"` or `'[^']*'`, once the opening quote is off.
closed : Text × Text → Option (Token × Text)
closed (body, []) = none
closed (body, c ∷ rest) = some (string body, rest)

quoted : ℕ → Text → Option (Token × Text)
unfolding closed
quoted quote s = closed (span (λ c. if c == quote then false else true) s)

operator : ℕ → Text → Option (Token × Text)
operator c (d ∷ s) =
    if d == b'='
    then (if c == b'='
        then some (op eq, s)
        else if c == b'!'
        then some (op ne, s)
        else if c == b'>'
        then some (op ge, s)
        else if c == b'<'
        then some (op le, s)
        else none)
    else if c == b'>'
    then some (op gt, d ∷ s)
    else if c == b'<'
    then some (op lt, d ∷ s)
    else none
operator c [] = if c == b'>' then some (op gt, []) else if c == b'<' then some (op lt, []) else none

punctuation : ℕ → Option Punct
punctuation c =
    if c == b'('
    then some lparen
    else if c == b')'
    then some rparen
    else if c == b'['
    then some lbrack
    else if c == b']'
    then some rbrack
    else if c == b','
    then some comma
    else none

word : ℕ → Text → Option (Token × Text)
word c s =
    let (w, rest) = span is_word s in
    if is_word_start c then some (word_token (c ∷ w), rest) else none

abbrev or_else : Option (Token × Text) → Option (Token × Text) → Option (Token × Text)
or_else (some r) _ = some r
or_else none other = other

-- `_TOKEN.match` where no white space stands: the first alternative that matches.
next_token : ℕ → Text → Option (Token × Text)
next_token c s = or_else (if c == b'-' then unsigned true s else unsigned false (c ∷ s)) (
    or_else (if c == b'"' || c == 39 then quoted c s else none) (
      or_else (operator c s)
        (or_else (elim (punctuation c) [ none ↦ none | some p ↦ some (punct p, s) ]) (word c s))))

-- The loop of `tokenize`, with the number of tokens so far. White space is skipped one by one.
scan : ℕ → ℕ → Text → Result Tokens
scan zero n s = out_of_fuel
scan (suc f) n [] = ok []
scan (suc f) n (c ∷ s) =
    let skipped = scan f n s in
    let matched : Result Tokens = elim (next_token c s) [
      | none ↦ rule_error
      | some (t, rest) ↦
          let more = bind (scan f (suc n) rest) (λ ts. ok (t ∷ ts)) in
          if ltb max_tokens (suc n) then rule_error else more
    ] in
    if is_space c then skipped else matched

unfoldable pub tokenize : Text → Result Tokens
unfolding scan next_token unsigned fraction quoted operator punctuation word word_token keyword_of
    span digits_value ten_to lower is_space is_digit is_upper is_word is_word_start text_eq
tokenize s = if ltb max_length (length s) then rule_error else scan (suc (length s)) 0 s

unfoldable pub is_blank : Text → Bool
unfolding is_space
is_blank [] = true
is_blank (c ∷ s) = is_space c && is_blank s
