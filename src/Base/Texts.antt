-- ===== src/Base/Texts.antt =====
-- Texts as lists of code points, and bytes, with the operations of Python on them.
use Prim.Native.Nat.{ℕ, zero, suc}
use Prim.Native.Char.{code}
use Prim.Native.String.{String}
use mathlib.Core.Path.{◌≡◌, refl}
use mathlib.Core.Logic.{◌≢◌, ◌↔◌}
use mathlib.Core.Bool.{Bool, true, false, ◌&&◌}
use mathlib.Core.List.{List, [], ◌∷◌, ◌++◌}
use mathlib.Core.Option.{Option, none, some}
use native.Mathlib.Omega.{arith}
use skyrecon.Base.Tests.{ltb, ◌==◌, if◌then◌else◌}
use skyrecon.Base.Lists.{All}

abbrev pub Text : Type 0
Text = List ℕ

abbrev pub Bytes : Type 0
Bytes = List ℕ

abbrev pub codes : String → Text
codes String.[] = []
codes (String.◌∷◌ c s) = code c ∷ codes s

unfoldable pub text_eq : Text → Text → Bool
text_eq [] [] = true
text_eq (c ∷ s) (d ∷ t) = c == d && text_eq s t
text_eq _ _ = false

pub text_eq_iff : (s t : Text) → (text_eq s t ≡ true) ↔ (s ≡ t)
unfolding text_eq
text_eq_iff [] [] = ground arith
text_eq_iff [] (d ∷ t) = ground arith
text_eq_iff (c ∷ s) [] = ground arith
text_eq_iff (c ∷ s) (d ∷ t) = ground (arith, text_eq_iff s t)

-- `s < t`
unfoldable pub text_lt : Text → Text → Bool
text_lt s [] = false
text_lt [] (d ∷ t) = true
text_lt (c ∷ s) (d ∷ t) = if ltb c d then true else (c == d) && text_lt s t

-- `s.split(sep, 1)`: the text in front of the first separator, and what is behind it.
unfoldable pub split_once : ℕ → Text → Option (Text × Text)
split_once sep [] = none
split_once sep (c ∷ s) = elim (c == sep) [
  | true ↦ some ([], s)
  | false ↦ elim (split_once sep s) [ none ↦ none | some (l, r) ↦ some (c ∷ l, r) ]
]

-- `s.rstrip(c)`
unfoldable pub rstrip : ℕ → Text → Text
rstrip c [] = []
rstrip c (d ∷ s) = elim (rstrip c s) [ [] ↦ if d == c then [] else d ∷ [] | e ∷ t ↦ d ∷ e ∷ t ]

abbrev pub replicate : ℕ → ℕ → Text
replicate zero c = []
replicate (suc n) c = c ∷ replicate n c

-- No character of the text is `c`.
abbrev pub Lacks : ℕ → Text → Type 0
Lacks c = All (λ d. d ≢ c)

pub split_once-append :
    (sep : ℕ) (s rest : Text) → Lacks sep s → split_once sep (s ++ sep ∷ rest) ≡ some (s, rest)
unfolding split_once
split_once-append sep [] rest h = ground arith
split_once-append sep (c ∷ s) rest h = ground (arith, h.0, split_once-append sep s rest h.1)

rstrip-replicate : (c n : ℕ) → rstrip c (replicate n c) ≡ []
unfolding rstrip
rstrip-replicate c zero = refl
rstrip-replicate c (suc n) = ground (arith, rstrip-replicate c n)

pub rstrip-append : (c n : ℕ) (s : Text) → Lacks c s → rstrip c (s ++ replicate n c) ≡ s
unfolding rstrip
rstrip-append c n [] h = rstrip-replicate c n
rstrip-append c n (d ∷ []) h = ground (arith, h.0, rstrip-replicate c n)
rstrip-append c n (d ∷ e ∷ s) h = ground (arith, rstrip-append c n (e ∷ s) h.1)
