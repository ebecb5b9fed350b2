-- ===== src/Rules/Values.antt =====
-- The values of a rule: those of the facts, of literals and of lists, with Python's truth and `==`.
-- A text is the list of its code points.
pub use skyrecon.Base.{Text}
unfoldable pub use skyrecon.Base.{text_eq}
use skyrecon.Base.{ℕ, ◌+◌, ◌*◌, Bool, true, false, not, ◌&&◌, ◌||◌, [], ◌∷◌, ltb}

-- A number: (-1)^negative * coefficient / scale, or one of the special floats.
pub data Number : Type 0 where
  finite : Bool → ℕ → ℕ → Number
  infinite : Bool → Number
  nan : Number

mutual
  pub data Value : Type 0 where
    null : Value
    bool : Bool → Value
    number : Number → Value
    text : Text → Value
    items : Values → Value

  pub data Values : Type 0 where
    nil : Values
    cons : Value → Values → Values

abbrev pub scaled_lt : Bool → ℕ → Bool → ℕ → Bool
scaled_lt false a false b = ltb a b
scaled_lt false a true b = false
scaled_lt true a false b = ltb 0 (a + b)
scaled_lt true a true b = ltb b a

unfoldable pub number_lt : Number → Number → Bool
number_lt (finite s a p) (finite t b q) = scaled_lt s (a * q) t (b * p)
number_lt (finite s a p) (infinite t) = not t
number_lt (infinite s) (finite t b q) = s
number_lt (infinite s) (infinite t) = s && not t
number_lt _ _ = false

abbrev pub is_nan : Number → Bool
is_nan nan = true
is_nan _ = false

unfoldable pub number_eq : Number → Number → Bool
number_eq a b = not (is_nan a) && not (is_nan b) && not (number_lt a b) && not (number_lt b a)

-- `bool` is a subclass of `int`.
abbrev pub of_bool : Bool → Number
of_bool true = finite false 1 1
of_bool false = finite false 0 1

unfoldable mutual
  pub value_eq : Value → Value → Bool
  value_eq null null = true
  value_eq (bool a) (bool b) = number_eq (of_bool a) (of_bool b)
  value_eq (bool a) (number b) = number_eq (of_bool a) b
  value_eq (number a) (bool b) = number_eq a (of_bool b)
  value_eq (number a) (number b) = number_eq a b
  value_eq (text s) (text t) = text_eq s t
  value_eq (items xs) (items ys) = values_eq xs ys
  value_eq _ _ = false

  pub values_eq : Values → Values → Bool
  values_eq nil nil = true
  values_eq (cons x xs) (cons y ys) = value_eq x y && values_eq xs ys
  values_eq _ _ = false

-- `left in right`, for a list. Python finds a nan that is the same object, which is left out.
unfoldable pub member : Value → Values → Bool
member x nil = false
member x (cons y ys) = value_eq x y || member x ys

-- `bool(value)`
unfoldable pub truthy : Value → Bool
truthy null = false
truthy (bool b) = b
truthy (number (finite s a p)) = ltb 0 a
truthy (number _) = true
truthy (text []) = false
truthy (text (c ∷ s)) = true
truthy (items nil) = false
truthy (items (cons x xs)) = true
