-- ===== src/Rotation/Rows.antt =====
-- One row: its blind indexes after the pass are those of the recovered texts under the new key.
use skyrecon.Base.{
  ℕ, ◌+◌, ◌≡◌, refl, sym, ap, subst, ◌∙◌, arith, String, Bool, true, false, ◌||◌, Option, none,
  List, [], ◌∷◌, Text, str_eq, str_eq_iff, All, length, Option-cases, Bool-cases, inl, inr, ◌⊎◌,
}
use skyrecon.Vault.{Crypto, ok, Vault, Draws, then_crypt}
use skyrecon.Vault.Laws.{IsCrypto}
use skyrecon.Rotation.{
  Row, get_column, set_column, recovered, index_inputs, rebuild_indexes, new_index, IndexPlan,
  TablePlan, rotate_columns, rotate_row, open_field, context_of,
}
use skyrecon.Rotation.Columns.{
  among, Distinct, get_column-set_column, then_crypt-ok, SameReading, rotate_columns-Rotated,
  context_of-id,
}

abbrev pub columns_of : List IndexPlan → List String
columns_of [] = []
columns_of (ix ∷ ixs) = ix.column ∷ columns_of ixs

abbrev input_columns : List (IndexPlan × Option Text) → List String
input_columns [] = []
input_columns ((ix, plain) ∷ more) = ix.column ∷ input_columns more

first_false : (a b : Bool) → (a || b) ≡ false → a ≡ false
first_false a b h = ground (arith, h)

other_column :
    (c j : String) (cs : List String) → among c cs ≡ false → among j cs ≡ true → str_eq c j ≡ false
other_column c j cs fresh m = elim (Bool-cases (str_eq c j)) [
  | inl e ↦
      let absent = subst (λ i. among i cs ≡ false) ((str_eq_iff c j).0 e) fresh in
      ground (arith, absent, m)
  | inr e ↦ e
]

All-apart :
    (j : String) (cs ds : List String)
    → All (λ (c : String). among c ds ≡ false) cs
    → among j ds ≡ true
    → among j cs ≡ false
All-apart j [] ds h m = refl
All-apart j (c ∷ cs) ds h m = elim (Bool-cases (str_eq c j)) [
  | inl e ↦
      let absent = subst (λ i. among i ds ≡ false) ((str_eq_iff c j).0 e) h.0 in
      ground (arith, absent, m)
  | inr e ↦ ground (arith, e, All-apart j cs ds h.1 m)
]

module _ (P : String → Type 0) where
  All-among : (cs : List String) → ((c : String) → among c cs ≡ true → P c) → All P cs
  All-among [] f = tt
  All-among (c ∷ cs) f =
      (f c (ground (arith, (str_eq_iff c c).1 refl)), All-among cs (λ d m. f d (ground (arith, m))))

  among_All : (c : String) (cs : List String) → All P cs → among c cs ≡ true → P c
  among_All c [] all m = cc m
  among_All c (d ∷ cs) all m = elim (Bool-cases (str_eq d c)) [
    | inl e ↦ subst P ((str_eq_iff d c).0 e) all.0
    | inr e ↦ among_All c cs all.1 (ground (arith, e, m))
  ]

module _ (lib : Crypto) where
  -- An index that was NULL stays so; any other is the index, under the new key, of the text that the
  -- old row gives back.
  abbrev pub Indexed : Vault → Vault → Row → Row → IndexPlan → Type 0
  Indexed old new row row' ix =
      ((get_column ix.column row ≡ none) × (get_column ix.column row' ≡ none))
      ⊎ ((plain : Option Text) × (recovered lib ix.recover row old ≡ ok plain)
          × (get_column ix.column row' ≡ new_index lib new plain ix.domain))

  rebuild_indexes_keeps :
      (new : Vault) (inputs : List (IndexPlan × Option Text)) (row : Row) (n : ℕ) (j : String)
      → among j (input_columns inputs) ≡ false
      → get_column j (rebuild_indexes lib new inputs row n).0 ≡ get_column j row
  unfolding rebuild_indexes
  rebuild_indexes_keeps new [] row n j h = refl
  rebuild_indexes_keeps new ((ix, plain) ∷ more) row n j h =
      let v = new_index lib new plain ix.domain in
      rebuild_indexes_keeps new more (set_column ix.column v row) (n + 1) j (ground (arith, h))
      ∙ get_column-set_column ix.column j v row
      ∙ rw (first_false (str_eq ix.column j) (among j (input_columns more)) h) refl

  rebuild_indexes-id :
      (new : Vault) (inputs : List (IndexPlan × Option Text)) (row : Row) (n : ℕ)
      → (rebuild_indexes lib new inputs row n).0.id ≡ row.id
  unfolding rebuild_indexes set_column
  rebuild_indexes-id new [] row n = refl
  rebuild_indexes-id new ((ix, plain) ∷ more) row n =
      rebuild_indexes-id new more (set_column ix.column (new_index lib new plain ix.domain) row)
        (n + 1)

  -- The shape of the inputs of a list of indexes.
  index_inputs-cons :
      (old : Vault) (ix : IndexPlan) (ixs : List IndexPlan) (row : Row)
      (inputs : List (IndexPlan × Option Text))
      → index_inputs lib (ix ∷ ixs) row old ≡ ok inputs
      → ((get_column ix.column row ≡ none) × (index_inputs lib ixs row old ≡ ok inputs))
        ⊎ ((plain : Option Text) × (more : List (IndexPlan × Option Text)) × (recovered lib
                ix.recover row old
              ≡ ok plain)
            × (index_inputs lib ixs row old ≡ ok more)
            × (inputs ≡ (ix, plain) ∷ more))
  unfolding index_inputs
  index_inputs-cons old ix ixs row inputs h = elim (Option-cases (get_column ix.column row)) [
    | inl e ↦ inl (e, ground (arith, h, e))
    | inr (v, e) ↦
        let (plain, opened, h') =
          then_crypt-ok (recovered lib ix.recover row old)
            (λ plain. then_crypt (index_inputs lib ixs row old) λ more. ok ((ix, plain) ∷ more))
            inputs (ground (arith, h, e)) in
        let (more, rest, is) =
          then_crypt-ok (index_inputs lib ixs row old) (λ more. ok ((ix, plain) ∷ more)) inputs
            h' in
        inr (plain, more, opened, rest, cc is)
  ]

  index_inputs-among :
      (old : Vault) (ixs : List IndexPlan) (row : Row) (inputs : List (IndexPlan × Option Text))
      (j : String)
      → index_inputs lib ixs row old ≡ ok inputs
      → among j (columns_of ixs) ≡ false
      → among j (input_columns inputs) ≡ false
  unfolding index_inputs
  index_inputs-among old [] row inputs j h fresh =
      let is : inputs ≡ [] = ground (arith, h) in rw is refl
  index_inputs-among old (ix ∷ ixs) row inputs j h fresh =
      elim (index_inputs-cons old ix ixs row inputs h) [
        | inl (e, rest) ↦ index_inputs-among old ixs row inputs j rest (ground (arith, fresh))
        | inr (plain, more, opened, rest, is) ↦ rw is (
            ground
              (arith, fresh, index_inputs-among old ixs row more j rest (ground (arith, fresh))))
      ]

  rebuild_indexes-Indexed :
      (old new : Vault) (ixs : List IndexPlan) (row row1 : Row)
      (inputs : List (IndexPlan × Option Text)) (n : ℕ)
      → Distinct (columns_of ixs)
      → index_inputs lib ixs row old ≡ ok inputs
      → ((j : String) → among j (columns_of ixs) ≡ true → get_column j row1 ≡ get_column j row)
      → All (Indexed old new row (rebuild_indexes lib new inputs row1 n).0) ixs
  unfolding rebuild_indexes
  rebuild_indexes-Indexed old new [] row row1 inputs n distinct h kept = tt
  rebuild_indexes-Indexed old new (ix ∷ ixs) row row1 inputs n (fresh, distinct) h kept =
      elim (index_inputs-cons old ix ixs row inputs h) [
        | inl (e, rest) ↦
            let fresh' = index_inputs-among old ixs row inputs ix.column rest fresh in
            (
              inl (
                e,
                rebuild_indexes_keeps new inputs row1 n ix.column fresh'
                    ∙ kept ix.column (ground (arith, (str_eq_iff ix.column ix.column).1 refl))
                    ∙ e,
              ),
              rebuild_indexes-Indexed old new ixs row row1 inputs n distinct rest
                  (λ j m. kept j (ground (arith, m))),
            )
        | inr (plain, more, opened, rest, is) ↦
            let v = new_index lib new plain ix.domain in
            let row2 = set_column ix.column v row1 in
            let fresh' = index_inputs-among old ixs row more ix.column rest fresh in
            let kept' : (j : String)
                → among j (columns_of ixs) ≡ true
                → get_column j row2 ≡ get_column j row =
              λ (j : String) m.
                get_column-set_column ix.column j v row1
                ∙ rw (other_column ix.column j (columns_of ixs) fresh m)
                    (kept j (ground (arith, m))) in
            subst
              (λ (ins : List (IndexPlan × Option Text)).
                All (Indexed old new row (rebuild_indexes lib new ins row1 n).0) (ix ∷ ixs))
              (sym is)
              (
                inr (
                  plain,
                  opened,
                  rebuild_indexes_keeps new more row2 (n + 1) ix.column fresh'
                      ∙ get_column-set_column ix.column ix.column v row1
                      ∙ rw ((str_eq_iff ix.column ix.column).1 refl) refl,
                ),
                rebuild_indexes-Indexed old new ixs row row2 more (n + 1) distinct rest kept',
              )
      ]

-- The columns of a plan: none twice, and no index among the sealed ones.
abbrev pub IsPlan : TablePlan → Type 0
IsPlan p =
    Distinct p.sealed
    × Distinct (columns_of p.indexes)
    × All (λ (c : String). among c (columns_of p.indexes) ≡ false) p.sealed

-- What a pass of a plan leaves of a row.
abbrev pub RowRotated : Crypto → Vault → Vault → TablePlan → Row → Row → Type 0
RowRotated lib old new p row row' =
    (row'.id ≡ row.id)
    × All (SameReading lib old new p.table row row') p.sealed
    × All (Indexed lib old new row row') p.indexes

module _ (lib : Crypto) (laws : IsCrypto lib) (draws : ℕ → Draws)
    (salted : (n : ℕ) → length (draws n).salt ≡ 16) where
  pub rotate_row-RowRotated :
      (old new : Vault) (p : TablePlan) (row row' : Row) (n m : ℕ)
      → IsPlan p
      → rotate_row lib draws old new p row n ≡ ok (row', m)
      → RowRotated lib old new p row row'
  unfolding rotate_row
  rotate_row-RowRotated old new p row row' n m (sealed, distinct, apart) h =
      let (inputs, read, h1) =
        then_crypt-ok (index_inputs lib p.indexes row old)
          (λ inputs.
            then_crypt (rotate_columns lib draws old new p.table p.sealed row n)
              λ (row1, n1). ok (rebuild_indexes lib new inputs row1 n1))
          (row', m) h in
      let ((row1, n1), passed, h2) =
        then_crypt-ok (rotate_columns lib draws old new p.table p.sealed row n)
          (λ (row1, n1). ok (rebuild_indexes lib new inputs row1 n1)) (row', m) h1 in
      let out = (rebuild_indexes lib new inputs row1 n1).0 in
      let is : out ≡ row' = ground (arith, h2) in
      let (same, reads, kept) =
        rotate_columns-Rotated lib laws draws salted old new p.table p.sealed row row1 n n1 sealed
          passed in
      let same' : out.id ≡ row1.id = rebuild_indexes-id lib new inputs row1 n1 in
      let reading : (c : String)
          → among c p.sealed ≡ true
          → SameReading lib old new p.table row out c =
        λ (c : String) m.
          let (r, before, after) = reads c m in
          (
            r,
            before,
            ap (λ o. open_field lib new o (context_of p.table c out))
                  (rebuild_indexes_keeps lib new inputs row1 n1 c (
                    index_inputs-among lib old p.indexes row inputs c read (
                      among_All (λ (d : String). among d (columns_of p.indexes) ≡ false) c p.sealed
                        apart m)))
                ∙ ap (open_field lib new (get_column c row1))
                    (context_of-id lib p.table c row1 out same')
                ∙ after,
          ) in
      subst (RowRotated lib old new p row) is (
        same' ∙ same,
        All-among (SameReading lib old new p.table row out) p.sealed reading,
        rebuild_indexes-Indexed lib old new p.indexes row row1 inputs n1 distinct read
            (λ j m. kept j (All-apart j p.sealed (columns_of p.indexes) apart m)),
      )
