-- ===== src/Rotation/Columns.antt =====
-- One row: each sealed column reads after the pass, under the new key, as it read before under the old.
use skyrecon.Base.{
  ℕ, ◌+◌, ◌≡◌, refl, sym, ap, subst, ◌∙◌, arith, String, Bool, true, false, Option, none, some,
  List, [], ◌∷◌, Text, codes, str_eq, str_eq_iff, any, length, if◌then◌else◌, Bool-cases, inl, inr,
  ◌⊎◌,
}
use skyrecon.Dict.{lookup-insert}
use skyrecon.Vault.{
  Crypto, Crypt, ok, crypto_error, unicode_error, FieldContext, Vault, Draws, seal, seal_text,
  open_sealed, open_text, then_crypt,
}
use skyrecon.Vault.Laws.{IsCrypto}
use skyrecon.Vault.Fields.{open_sealed-seal}
use skyrecon.Rotation.{
  Row, get_column, set_column, context_of, context_column, open_field, reseal, rotate_columns,
}

abbrev pub among : String → List String → Bool
among c cs = any (λ d. str_eq d c) cs

-- No column is named twice.
abbrev pub Distinct : List String → Type 0
Distinct [] = Unit
Distinct (c ∷ cs) = (among c cs ≡ false) × Distinct cs

pub get_column-set_column :
    (c j : String) (v : Option Text) (row : Row)
    → get_column j (set_column c v row) ≡ (if str_eq c j then v else get_column j row)
unfolding get_column set_column
get_column-set_column c j v row = ground (arith, lookup-insert c j v row.columns)

pub then_crypt-ok :
    {A B : Type 0} (m : Crypt A) (f : A → Crypt B) (b : B)
    → then_crypt m f ≡ ok b
    → (a : A) × (m ≡ ok a) × (f a ≡ ok b)
then_crypt-ok (ok a) f b h = (a, refl, h)
then_crypt-ok crypto_error f b h = cc h
then_crypt-ok unicode_error f b h = cc h

module _ (lib : Crypto) where
  -- What a column of a row reads as, under a key.
  abbrev pub Reading : Vault → String → Row → String → Crypt (Option Text)
  Reading v table row c = open_field lib v (get_column c row) (context_of table c row)

  -- What opens is a text: a value that is there does not open to a missing one.
  pub open_sealed-some :
      (v : Vault) (s : Text) (ctx : FieldContext) (r : Option Text)
      → open_sealed lib v (some s) ctx ≡ ok r
      → (t : Text) × (r ≡ some t)
  unfolding open_sealed
  open_sealed-some v s ctx r h =
      let (t, e, h') = then_crypt-ok (open_text lib v s ctx) (λ t. ok (some t)) r h in (t, cc h')

  -- A column that opened under the old key opens in the new row, under the new key, to the same.
  abbrev pub SameReading : Vault → Vault → String → Row → Row → String → Type 0
  SameReading old new table row row' c =
      (r : Option Text) × (Reading old table row c ≡ ok r) × (Reading new table row' c ≡ ok r)

  -- What a pass over some columns leaves of a row.
  abbrev pub Rotated : Vault → Vault → String → List String → Row → Row → Type 0
  Rotated old new table cs row row' =
      (row'.id ≡ row.id)
      × ((j : String) → among j cs ≡ true → SameReading old new table row row' j)
      × ((j : String) → among j cs ≡ false → get_column j row' ≡ get_column j row)

  at_column :
      (old new : Vault) (table : String) (row row' : Row) (c j : String)
      → c ≡ j
      → SameReading old new table row row' c
      → SameReading old new table row row' j
  at_column old new table row row' c j e h = subst (SameReading old new table row row') e h

  pub context_of-id :
      (table c : String) (row row' : Row)
      → row'.id ≡ row.id
      → context_of table c row' ≡ context_of table c row
  unfolding context_of
  context_of-id table c row row' e =
      ap (λ (i : Text). record { table = codes table; column = context_column c; record_id = i }) e

  -- Nothing to seal in the first column.
  pub Rotated-skip :
      (old new : Vault) (table c : String) (cs : List String) (row row' : Row)
      → ((v : Vault) (ctx : FieldContext) → open_field lib v (get_column c row) ctx ≡ ok none)
      → among c cs ≡ false
      → Rotated old new table cs row row'
      → Rotated old new table (c ∷ cs) row row'
  Rotated-skip old new table c cs row row' blank fresh (same, read, kept) =
      let first : SameReading old new table row row' c = (
        none,
        blank old (context_of table c row),
        ap (λ o. open_field lib new o (context_of table c row')) (kept c fresh)
            ∙ blank new (context_of table c row'),
      ) in
      (
        same,
        (λ (j : String) h. elim (Bool-cases (str_eq c j)) [
          | inl e ↦ at_column old new table row row' c j ((str_eq_iff c j).0 e) first
          | inr e ↦ read j (ground (arith, h, e))
        ]),
        λ j h. kept j (ground (arith, h)),
      )

module _ (lib : Crypto) (draws : ℕ → Draws) where
  -- The row in which one column was sealed anew.
  pub reseal-ok :
      (old new : Vault) (table c : String) (sealed : Text) (row row' : Row) (n : ℕ)
      → reseal lib draws old new table c sealed row n ≡ ok row'
      → (t : Text) × (open_sealed lib old (some sealed) (context_of table c row) ≡ ok (some t))
        × (row' ≡ set_column c (seal lib new (draws n) (some t) (context_of table c row)) row)
  unfolding reseal
  reseal-ok old new table c sealed row row' n h =
      let ctx = context_of table c row in
      let (r, e, h') =
        then_crypt-ok (open_sealed lib old (some sealed) ctx)
          (λ plain. ok (set_column c (seal lib new (draws n) plain ctx) row)) row' h in
      let (t, is) = open_sealed-some lib old sealed (context_of table c row) r e in
      (t, e ∙ ap ok is, ground (arith, h', is))

module _ (lib : Crypto) (laws : IsCrypto lib) where
  pub open_field-seal :
      (new : Vault) (d : Draws) (p : Text) (ctx : FieldContext)
      → length d.salt ≡ 16
      → open_field lib new (seal lib new d (some p) ctx) ctx ≡ ok (some p)
  unfolding open_field seal seal_text
  open_field-seal new d p ctx h = open_sealed-seal lib new d (some p) ctx laws h

  -- The first column sealed anew, then the others.
  pub Rotated-reseal :
      (old new : Vault) (table c : String) (cs : List String) (row row' : Row) (d : Draws) (e : ℕ)
      (s t : Text)
      → get_column c row ≡ some (e ∷ s)
      → open_sealed lib old (some (e ∷ s)) (context_of table c row) ≡ ok (some t)
      → length d.salt ≡ 16
      → among c cs ≡ false
      → Rotated lib old new table cs
          (set_column c (seal lib new d (some t) (context_of table c row)) row)
          row'
      → Rotated lib old new table (c ∷ cs) row row'
  unfolding open_field context_of set_column
  Rotated-reseal old new table c cs row row' d e s t had opens salt fresh (same, read, kept) =
      let ctx = context_of table c row in
      let value = seal lib new d (some t) ctx in
      let row1 = set_column c value row in
      let now : get_column c row' ≡ value =
        kept c fresh ∙ get_column-set_column c c value row ∙ rw ((str_eq_iff c c).1 refl) refl in
      let first : SameReading lib old new table row row' c = (
        some t,
        ap (λ o. open_field lib old o ctx) had ∙ opens,
        ap (λ o. open_field lib new o (context_of table c row')) now
            ∙ ap (open_field lib new value) (context_of-id lib table c row row' same)
            ∙ open_field-seal new d t ctx salt,
      ) in
      let other : (j : String) → str_eq c j ≡ false → get_column j row1 ≡ get_column j row =
        λ (j : String) ne. get_column-set_column c j value row ∙ rw ne refl in
      (
        same,
        (λ (j : String) h. elim (Bool-cases (str_eq c j)) [
          | inl is ↦ at_column lib old new table row row' c j ((str_eq_iff c j).0 is) first
          | inr ne ↦
              let (r, before, after) = read j (ground (arith, h, ne)) in
              (
                r,
                ap (λ o. open_field lib old o (context_of table j row)) (sym (other j ne)) ∙ before,
                after,
              )
        ]),
        λ (j : String) h. kept j (ground (arith, h)) ∙ other j (ground (arith, h)),
      )

-- A column that is NULL or empty, or the text in it.
blank_or_text :
    (o : Option Text) → (o ≡ none) ⊎ ((o ≡ some []) ⊎ ((e : ℕ) × (s : Text) × (o ≡ some (e ∷ s))))
blank_or_text none = inl refl
blank_or_text (some []) = inr (inl refl)
blank_or_text (some (e ∷ s)) = inr (inr (e, s, refl))

module _ (lib : Crypto) (laws : IsCrypto lib) (draws : ℕ → Draws)
    (salted : (n : ℕ) → length (draws n).salt ≡ 16) where
  open_field_blank :
      (o : Option Text)
      → (o ≡ none) ⊎ (o ≡ some [])
      → (v : Vault) (ctx : FieldContext) → open_field lib v o ctx ≡ ok none
  unfolding open_field
  open_field_blank o (inl e) v ctx = rw e refl
  open_field_blank o (inr e) v ctx = rw e refl

  pub rotate_columns-Rotated :
      (old new : Vault) (table : String) (cs : List String) (row row' : Row) (n m : ℕ)
      → Distinct cs
      → rotate_columns lib draws old new table cs row n ≡ ok (row', m)
      → Rotated lib old new table cs row row'
  unfolding rotate_columns
  rotate_columns-Rotated old new table [] row row' n m distinct h =
      let same : row' ≡ row = ground (arith, h) in
      (ap (λ (r : Row). r.id) same, (λ j f. cc f), λ j f. ap (get_column j) same)
  rotate_columns-Rotated old new table (c ∷ cs) row row' n m (fresh, distinct) h =
      elim (blank_or_text (get_column c row)) [
        | inl e ↦
            Rotated-skip lib old new table c cs row row'
              (open_field_blank (get_column c row) (inl e)) fresh
              (rotate_columns-Rotated old new table cs row row' n m distinct (ground (arith, h, e)))
        | inr (inl e) ↦
            Rotated-skip lib old new table c cs row row'
              (open_field_blank (get_column c row) (inr e)) fresh
              (rotate_columns-Rotated old new table cs row row' n m distinct (ground (arith, h, e)))
        | inr (inr (d, s, e)) ↦
            let (row1, sealed, rest) =
              then_crypt-ok (reseal lib draws old new table c (d ∷ s) row n)
                (λ row1. rotate_columns lib draws old new table cs row1 (n + 1)) (row', m)
                (ground (arith, h, e)) in
            let (t, opens, is) = reseal-ok lib draws old new table c (d ∷ s) row row1 n sealed in
            Rotated-reseal lib laws old new table c cs row row' (draws n) d s t e opens (salted n)
              fresh
              (subst (λ r. Rotated lib old new table cs r row') is
                (rotate_columns-Rotated old new table cs row1 row' (n + 1) m distinct rest))
      ]
