-- ===== src/Dict.antt =====
-- A Python dict with text keys, in insertion order, and its laws.
use skyrecon.Base.{
  ◌≡◌, refl, Bool, false, Option, none, some, List, [], ◌∷◌, arith, str_eq, str_eq_iff, String,
  if◌then◌else◌,
}

abbrev pub Dict {ℓ} : Type ℓ → Type ℓ
Dict V = List (String × V)

module _ {ℓ} {V : Type ℓ} where
  unfoldable pub lookup : String → Dict V → Option V
  lookup k [] = none
  lookup k ((j, v) ∷ d) = if str_eq j k then some v else lookup k d

  -- `d[k] = v`
  unfoldable pub insert : String → V → Dict V → Dict V
  insert k v [] = (k, v) ∷ []
  insert k v ((j, w) ∷ d) = if str_eq j k then (k, v) ∷ d else (j, w) ∷ insert k v d

  -- `d.pop(k, None)`
  unfoldable pub erase : String → Dict V → Dict V
  erase k [] = []
  erase k ((j, w) ∷ d) = if str_eq j k then d else (j, w) ∷ erase k d

  -- The entries whose value passes a test.
  unfoldable pub keep_values : (V → Bool) → Dict V → Dict V
  keep_values p [] = []
  keep_values p ((j, w) ∷ d) = let rest = keep_values p d in if p w then (j, w) ∷ rest else rest

  -- Every key stands once.
  abbrev pub Unique : Dict V → Type ℓ
  Unique [] = Unit
  Unique ((j, w) ∷ d) = (lookup j d ≡ none) × Unique d

  abbrev pub filter_option : (V → Bool) → Option V → Option V
  filter_option p none = none
  filter_option p (some v) = if p v then some v else none

module _ {ℓ} {V : Type ℓ} where
  pub lookup-insert :
      (k j : String) (v : V) (d : Dict V)
      → lookup j (insert k v d) ≡ (if str_eq k j then some v else lookup j d)
  unfolding lookup insert
  lookup-insert k j v [] = refl
  lookup-insert k j v ((i, w) ∷ d) =
      ground (arith, str_eq_iff k j, str_eq_iff i k, str_eq_iff i j, lookup-insert k j v d)

  pub insert-Unique : (k : String) (v : V) (d : Dict V) → Unique d → Unique (insert k v d)
  unfolding insert
  insert-Unique k v [] u = (unfold lookup in refl, tt)
  insert-Unique k v ((i, w) ∷ d) u =
      ground (arith, insert-Unique k v d u.1, lookup-insert k i v d, str_eq_iff i k, str_eq_iff k i)

  pub lookup-erase_ne :
      (k j : String) (d : Dict V) → str_eq k j ≡ false → lookup j (erase k d) ≡ lookup j d
  unfolding lookup erase
  lookup-erase_ne k j [] h = refl
  lookup-erase_ne k j ((i, w) ∷ d) h =
      ground (arith, str_eq_iff k j, str_eq_iff i k, str_eq_iff i j, lookup-erase_ne k j d h)

  pub lookup-keep_values :
      (p : V → Bool) (k : String) (d : Dict V)
      → Unique d
      → lookup k (keep_values p d) ≡ filter_option p (lookup k d)
  unfolding lookup keep_values
  lookup-keep_values p k [] u = refl
  lookup-keep_values p k ((i, w) ∷ d) u =
      ground (arith, str_eq_iff i k, lookup-keep_values p k d u.1)

  pub keep_values-Unique : (p : V → Bool) (d : Dict V) → Unique d → Unique (keep_values p d)
  unfolding keep_values
  keep_values-Unique p [] u = tt
  keep_values-Unique p ((i, w) ∷ d) u =
      ground (arith, lookup-keep_values p i d u.1, keep_values-Unique p d u.1)

  pub erase-Unique : (k : String) (d : Dict V) → Unique d → Unique (erase k d)
  unfolding erase
  erase-Unique k [] u = tt
  erase-Unique k ((i, w) ∷ d) u =
      ground (arith, lookup-erase_ne k i d, str_eq_iff i k, str_eq_iff k i, erase-Unique k d u.1)
