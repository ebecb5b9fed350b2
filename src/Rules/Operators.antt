-- ===== src/Rules/Operators.antt =====
-- `_compare` and `_textual`, over the parts of Python's library that they call.
use skyrecon.Base.{
  Bool, true, false, not, ◌&&◌, ◌||◌, Option, none, some, [], ◌∷◌, ◌==◌, if◌then◌else◌,
}
use skyrecon.Rules.Values.{
  Text, text_eq, Number, number_lt, number_eq, of_bool, Value, null, bool, number, text, items,
  Values, value_eq, member, truthy,
}
use skyrecon.Rules.Tokens.{
  Op, eq, ne, ge, le, gt, lt, Keyword, kw_in, kw_contains, kw_startswith, kw_endswith, kw_matches,
  codes,
}
use skyrecon.Rules.Results.{Result, ok, rule_error}

-- `float` of a text and of a number, `str` of a number and of a list, `str.lower`, and `re.search` ignoring case:
-- pattern, text, and `none` for a raised `re.error`. The other exceptions, an OverflowError of `float` on
-- an int beyond the range of a double and those of `re` on an extreme pattern, are left out.
pub record Runtime : Type 0 where
  pub float_of_text : Text → Option Number
  pub float_of_number : Number → Number
  pub str_of_number : Number → Text
  pub str_of_items : Values → Text
  pub lower : Text → Text
  pub search : Text → Text → Option Bool

-- `float(value)`; `none` for a TypeError or a ValueError.
unfoldable pub float_of : Runtime → Value → Option Number
float_of rt null = none
float_of rt (bool b) = some (of_bool b)
float_of rt (number n) = some (rt.float_of_number n)
float_of rt (text s) = rt.float_of_text s
float_of rt (items xs) = none

-- The order tests of two floats: with a nan none holds.
unfoldable pub order : Op → Number → Number → Bool
order gt a b = number_lt b a
order lt a b = number_lt a b
order ge a b = number_lt b a || number_eq a b
order le a b = number_lt a b || number_eq a b
order _ a b = false

abbrev pub order_floats : Op → Option Number → Option Number → Bool
order_floats o (some a) (some b) = order o a b
order_floats o _ _ = false

unfoldable pub compare : Runtime → Op → Value → Value → Bool
compare rt eq a b = value_eq a b
compare rt ne a b = not (value_eq a b)
compare rt o a b = order_floats o (float_of rt a) (float_of rt b)

-- `str(value or "")`
unfoldable pub str_of : Runtime → Value → Text
str_of rt null = []
str_of rt (bool true) = codes "True"
str_of rt (bool false) = []
str_of rt (number n) = if truthy (number n) then rt.str_of_number n else []
str_of rt (text s) = s
str_of rt (items xs) = if truthy (items xs) then rt.str_of_items xs else []

-- `s.startswith(p)`, `p in s` and `s.endswith(p)`.
unfoldable pub has_prefix : Text → Text → Bool
has_prefix s [] = true
has_prefix [] (d ∷ p) = false
has_prefix (c ∷ s) (d ∷ p) = c == d && has_prefix s p

unfoldable pub contains : Text → Text → Bool
unfolding has_prefix
contains [] p = has_prefix [] p
contains (c ∷ s) p = has_prefix (c ∷ s) p || contains s p

unfoldable pub has_suffix : Text → Text → Bool
unfolding text_eq
has_suffix [] p = text_eq [] p
has_suffix (c ∷ s) p = text_eq (c ∷ s) p || has_suffix s p

pub data TextOp : Type 0 where
  in_ contains_ startswith_ endswith_ matches_ : TextOp

abbrev pub keyword : TextOp → Keyword
keyword in_ = kw_in
keyword contains_ = kw_contains
keyword startswith_ = kw_startswith
keyword endswith_ = kw_endswith
keyword matches_ = kw_matches

abbrev pub text_op_of : Keyword → Option TextOp
text_op_of kw_in = some in_
text_op_of kw_contains = some contains_
text_op_of kw_startswith = some startswith_
text_op_of kw_endswith = some endswith_
text_op_of kw_matches = some matches_
text_op_of _ = none

abbrev pub searched : Option Bool → Result Value
searched none = rule_error
searched (some b) = ok (bool b)

abbrev pub lowered : Runtime → Value → Text
lowered rt v = rt.lower (str_of rt v)

unfoldable pub textual : Runtime → TextOp → Value → Value → Result Value
textual rt in_ a (items xs) = ok (bool (member a xs))
textual rt in_ a b = ok (bool (contains (str_of rt b) (str_of rt a)))
textual rt contains_ a b = ok (bool (contains (lowered rt a) (lowered rt b)))
textual rt startswith_ a b = ok (bool (has_prefix (lowered rt a) (lowered rt b)))
textual rt endswith_ a b = ok (bool (has_suffix (lowered rt a) (lowered rt b)))
textual rt matches_ a b = searched (rt.search (lowered rt b) (lowered rt a))
