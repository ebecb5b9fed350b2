-- ===== src/IocParser/Defanged.antt =====
-- `ParsedIOC.defanged` of app/ioc/parser.py: nothing in it is a link or an address any more.
use skyrecon.Base.{ℕ, ◌≡◌, ◌≢◌, ◌⊎◌, [], ◌∷◌, Text, codes}
use skyrecon.IocParser.{dot, at_sign}
use skyrecon.IocParser.Extract.{replace_char}

abbrev Starts : ℕ → Text → Type 0
Starts c [] = ⊥
Starts c (d ∷ s) = d ≡ c

-- Every dot stands between brackets, where `before` stands in front of the text.
abbrev pub Bracketed : ℕ → Text → Type 0
Bracketed before [] = Unit
Bracketed before (c ∷ s) = ((c ≢ dot) ⊎ ((before ≡ 91) × Starts 93 s)) × Bracketed c s

-- One character replaced behind another: where each of the two goes.
abbrev both : Text → Text
both s = replace_char at_sign (codes "[at]") (replace_char dot (codes "[.]") s)
