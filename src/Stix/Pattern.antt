-- ===== src/Stix/Pattern.antt =====
-- What a reader of the STIX pattern language makes of `pattern_for`.
use skyrecon.Base.{
  ℕ, ◌==◌, ==_iff, ==_refl, ◌≡◌, ◌≢◌, refl, sym, ap, ◌∙◌, arith, inl, inr, String, Bool, true,
  false, Option, none, some, [], ◌∷◌, ◌++◌, Text, codes, Lacks, if◌then◌else◌, Bool-cases,
}
use skyrecon.Stix.{quote, backslash, opening, escape, pattern_for}

abbrev pub consed : ℕ → Option (Text × Text) → Option (Text × Text)
consed c none = none
consed c (some (s, rest)) = some (c ∷ s, rest)

-- A string literal of the pattern language, from behind its opening quote: a backslash takes the next
-- character as it is, and a bare quote ends the literal. The answer is its text and what follows.
unfoldable pub read_literal : Bool → Text → Option (Text × Text)
read_literal escaped [] = none
read_literal true (c ∷ s) = consed c (read_literal false s)
read_literal false (c ∷ s) =
    let plain = read_literal false s in
    let next = read_literal true s in
    if c == quote then some ([], s) else if c == backslash then next else consed c plain

abbrev pub drop_prefix : Text → Text → Option Text
drop_prefix [] t = some t
drop_prefix (c ∷ s) [] = none
drop_prefix (c ∷ s) (d ∷ t) = if c == d then drop_prefix s t else none

differs : (c d : ℕ) → c ≢ d → (c == d) ≡ false
differs c d h = ground (arith, h)

read_literal-escape :
    (value rest : Text)
    → Lacks backslash value
    → read_literal false (escape value ++ quote ∷ rest) ≡ some (value, rest)
unfolding read_literal escape
read_literal-escape [] rest h = refl
read_literal-escape (c ∷ s) rest h = elim (Bool-cases (c == quote)) [
  | inl e ↦ rw e (
      ap (consed quote) (read_literal-escape s rest h.1)
      ∙ ap (λ d. some (d ∷ s, rest)) (sym ((==_iff c quote).0 e)))
  | inr e ↦
      let plain : (c == backslash) ≡ false = differs c backslash h.0 in
      rw e (rw e (rw plain (ap (consed c) (read_literal-escape s rest h.1))))
]

drop_prefix-append : (s t : Text) → drop_prefix s (s ++ t) ≡ some t
drop_prefix-append [] t = refl
drop_prefix-append (c ∷ s) t = rw (==_refl c) (drop_prefix-append s t)

-- The pattern of a value without a backslash is the opening of its type and a string literal that reads
-- back as the value, quotes and all, with only the closing bracket behind it: no such value ends the
-- literal early.
pub pattern_for_literal :
    (value : Text) (ioc_type : String)
    → Lacks backslash value
    → (body : Text) × (drop_prefix (opening ioc_type) (pattern_for value ioc_type) ≡ some body)
      × (read_literal false body ≡ some (value, codes "]"))
unfolding pattern_for
pattern_for_literal value ioc_type h = (
  escape value ++ quote ∷ codes "]",
  drop_prefix-append (opening ioc_type) (escape value ++ quote ∷ codes "]"),
  read_literal-escape value (codes "]") h,
)
