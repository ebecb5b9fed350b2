-- ===== src/Rotation/Tables.antt =====
-- The whole database: every row of every table of the plan.
use skyrecon.Base.{
  ℕ, ◌≡◌, refl, sym, ap, subst, ◌∙◌, arith, String, false, List, [], ◌∷◌, str_eq, str_eq_iff, All,
  length, if◌then◌else◌,
}
use skyrecon.Dict.{insert, lookup-insert}
use skyrecon.Vault.{Crypto, ok, Vault, Draws, then_crypt}
use skyrecon.Vault.Laws.{IsCrypto}
use skyrecon.Rotation.{
  Row, TablePlan, plan, Database, table_rows, rotate_row, rotate_rows, rotate_tables, rotate,
}
use skyrecon.Rotation.Columns.{then_crypt-ok}
use skyrecon.Rotation.Rows.{IsPlan, RowRotated, rotate_row-RowRotated}

abbrev pub AllRotated : Crypto → Vault → Vault → TablePlan → List Row → List Row → Type 0
AllRotated lib old new p [] [] = Unit
AllRotated lib old new p [] (r' ∷ rs') = ⊥
AllRotated lib old new p (r ∷ rs) [] = ⊥
AllRotated lib old new p (r ∷ rs) (r' ∷ rs') =
    RowRotated lib old new p r r' × AllRotated lib old new p rs rs'

abbrev IsFresh : String → List TablePlan → Type 0
IsFresh t = All (λ (q : TablePlan). str_eq t q.table ≡ false)

abbrev DistinctTables : List TablePlan → Type 0
DistinctTables [] = Unit
DistinctTables (p ∷ ps) = IsFresh p.table ps × DistinctTables ps

All-zip :
    {A : Type 0} (P Q R : A → Type 0) (xs : List A)
    → ((x : A) → P x → Q x → R x)
    → All P xs
    → All Q xs
    → All R xs
All-zip P Q R [] f hp hq = tt
All-zip P Q R (x ∷ xs) f hp hq = (f x hp.0 hq.0, All-zip P Q R xs f hp.1 hq.1)

sym_false : (s t : String) → str_eq t s ≡ false → str_eq s t ≡ false
sym_false s t h = ground (arith, h, str_eq_iff s t, str_eq_iff t s)

table_rows-insert :
    (t u : String) (rows : List Row) (db : Database)
    → table_rows u (insert t rows db) ≡ (if str_eq t u then rows else table_rows u db)
unfolding table_rows
table_rows-insert t u rows db = ground (arith, lookup-insert t u rows db)

module _ (lib : Crypto) (laws : IsCrypto lib) (draws : ℕ → Draws)
    (salted : (n : ℕ) → length (draws n).salt ≡ 16) where
  rotate_rows-AllRotated :
      (old new : Vault) (p : TablePlan) (rows rows' : List Row) (n m : ℕ)
      → IsPlan p
      → rotate_rows lib draws old new p rows n ≡ ok (rows', m)
      → AllRotated lib old new p rows rows'
  unfolding rotate_rows
  rotate_rows-AllRotated old new p [] rows' n m v h =
      let is : [] ≡ rows' = ground (arith, h) in subst (AllRotated lib old new p []) is tt
  rotate_rows-AllRotated old new p (row ∷ rows) rows' n m v h =
      let ((row1, n1), first, h1) =
        then_crypt-ok (rotate_row lib draws old new p row n)
          (λ (row1, n1).
            then_crypt (rotate_rows lib draws old new p rows n1) λ (rows1, k). ok (row1 ∷ rows1, k))
          (rows', m) h in
      let ((rows1, k), rest, h2) =
        then_crypt-ok (rotate_rows lib draws old new p rows n1) (λ (rows1, k). ok (row1 ∷ rows1, k))
          (rows', m) h1 in
      let is : row1 ∷ rows1 ≡ rows' = ground (arith, h2) in
      subst (AllRotated lib old new p (row ∷ rows)) is (
        rotate_row-RowRotated lib laws draws salted old new p row row1 n n1 v first,
        rotate_rows-AllRotated old new p rows rows1 n1 k v rest,
      )

  -- The tables of the plans are rotated, and every other table is as it was.
  abbrev Passed : Vault → Vault → List TablePlan → Database → Database → Type 0
  Passed old new ps db db' =
      All
        (λ (p : TablePlan).
          AllRotated lib old new p (table_rows p.table db) (table_rows p.table db'))
        ps
      × ((t : String) → IsFresh t ps → table_rows t db' ≡ table_rows t db)

  rotate_tables-Passed :
      (old new : Vault) (ps : List TablePlan) (db db' : Database) (n m : ℕ)
      → All IsPlan ps
      → DistinctTables ps
      → rotate_tables lib draws old new ps db n ≡ ok (db', m)
      → Passed old new ps db db'
  unfolding rotate_tables
  rotate_tables-Passed old new [] db db' n m vs fresh h =
      let is : db ≡ db' = ground (arith, h) in (tt, λ t f. ap (table_rows t) (sym is))
  rotate_tables-Passed old new (p ∷ ps) db db' n m (v, vs) (fresh, distinct) h =
      let ((rows, n1), first, rest) =
        then_crypt-ok (rotate_rows lib draws old new p (table_rows p.table db) n)
          (λ (rows, n1). rotate_tables lib draws old new ps (insert p.table rows db) n1) (db', m)
          h in
      let db1 = insert p.table rows db in
      let (done, kept) = rotate_tables-Passed old new ps db1 db' n1 m vs distinct rest in
      let other : (t : String) → str_eq p.table t ≡ false → table_rows t db1 ≡ table_rows t db =
        λ (t : String) e. table_rows-insert p.table t rows db ∙ rw e refl in
      let here : table_rows p.table db' ≡ rows =
        kept p.table fresh
        ∙ table_rows-insert p.table p.table rows db
        ∙ rw ((str_eq_iff p.table p.table).1 refl) refl in
      (
        (
          subst (AllRotated lib old new p (table_rows p.table db)) (sym here)
              (rotate_rows-AllRotated old new p (table_rows p.table db) rows n n1 v first),
          All-zip (λ (q : TablePlan). str_eq p.table q.table ≡ false)
              (λ (q : TablePlan).
                AllRotated lib old new q (table_rows q.table db1) (table_rows q.table db'))
              (λ (q : TablePlan).
                AllRotated lib old new q (table_rows q.table db) (table_rows q.table db'))
              ps
              (λ q e r.
                subst (λ (rs : List Row). AllRotated lib old new q rs (table_rows q.table db'))
                  (other q.table e) r)
              fresh done,
        ),
        λ t f. kept t f.1 ∙ other t (sym_false p.table t f.0),
      )

abbrev pub Salted : (ℕ → Draws) → Type 0
Salted draws = (n : ℕ) → length (draws n).salt ≡ 16

plan-IsPlan : All IsPlan plan
plan-IsPlan = grind arith

plan_distinct : DistinctTables plan
plan_distinct = grind arith

-- A rotation that succeeds loses nothing: in every row of every table of the plan, each sealed column opened under the old key and opens under the new one to the same text, each blind index is the one of the new key for the text that the old row gives back, and rows of no other table change.
pub rotate_lem :
    (lib : Crypto) (draws : ℕ → Draws) (old new : Vault) (db db' : Database) (n : ℕ)
    → IsCrypto lib
    → Salted draws
    → rotate lib draws old new db ≡ ok (db', n)
    → All
        (λ (p : TablePlan).
          AllRotated lib old new p (table_rows p.table db) (table_rows p.table db'))
        plan
      × ((t : String)
          → All (λ (p : TablePlan). str_eq t p.table ≡ false) plan
          → table_rows t db' ≡ table_rows t db)
unfolding rotate
rotate_lem lib draws old new db db' n laws salted h =
    rotate_tables-Passed lib laws draws salted old new plan db db' 0 n plan-IsPlan plan_distinct h
