-- ===== src/Rules/Results.antt =====
-- The outcome of a run of the rule engine, and postconditions on it.
use mathlib.Core.Path.{subst}
use skyrecon.Base.{◌≡◌, refl, ◌≢◌, Bool, true, false, if◌then◌else◌}

-- `rule_error` is a raised RuleError; `out_of_fuel` has no counterpart in the source.
pub data Result {ℓ} (A : Type ℓ) : Type ℓ where
  ok : A → Result A
  rule_error : Result A
  out_of_fuel : Result A

abbrev pub bind {ℓ κ} : {A : Type ℓ} {B : Type κ} → Result A → (A → Result B) → Result B
bind (ok a) f = f a
bind rule_error f = rule_error
bind out_of_fuel f = out_of_fuel

-- The run ended, and `P` holds of its value if it has one.
pub data Ensures {ℓ κ} {A : Type ℓ} (P : A → Type κ) : Result A → Type (ℓ ⊔ κ) where
  returns : {a : A} → P a → Ensures P (ok a)
  raises : Ensures P rule_error

module _ {ℓ κ} {A : Type ℓ} {P : A → Type κ} where
  pub Ensures-ok : {r : Result A} {a : A} → Ensures P r → r ≡ ok a → P a
  Ensures-ok (returns h) e = subst P (cc) h
  Ensures-ok raises e = cc

  pub Ensures-ne-out_of_fuel : {r : Result A} → Ensures P r → r ≢ out_of_fuel
  Ensures-ne-out_of_fuel (returns h) = cc
  Ensures-ne-out_of_fuel raises = cc

  pub Ensures-if :
      (b : Bool) {x y : Result A}
      → (b ≡ true → Ensures P x)
      → (b ≡ false → Ensures P y)
      → Ensures P (if b then x else y)
  Ensures-if true hx hy = hx refl
  Ensures-if false hx hy = hy refl

  pub Ensures-bind {ℓ' κ'} :
      {B : Type ℓ'} {Q : B → Type κ'} {r : Result A} {f : A → Result B}
      → Ensures P r
      → ((a : A) → P a → Ensures Q (f a))
      → Ensures Q (bind r f)
  Ensures-bind (returns {a} h) k = k a h
  Ensures-bind raises k = raises

  pub Ensures-map {κ'} :
      {Q : A → Type κ'} {r : Result A} → Ensures P r → ((a : A) → P a → Q a) → Ensures Q r
  Ensures-map (returns {a} h) k = returns (k a h)
  Ensures-map raises k = raises
