-- ===== src/Rotation.antt =====
-- Key rotation, app/security/rotation.py: the plan, and the pass over every row.
--
-- A row is its id and its columns by name, a NULL as `none`. A rotation that fails raises: the caller
-- rolls back, so that nothing of a failed pass is kept here.
pub mod Columns
pub mod Rows
pub mod Tables
pub mod Keys
mod Tests
use skyrecon.Base.{
  ℕ, suc, ◌+◌, ◌*◌, ◌-◌, String, Bool, true, false, not, Option, none, some, List, [], ◌∷◌, ◌++◌,
  Text, codes, text_eq, str_eq, take, drop, length, any, if◌then◌else◌,
}
use skyrecon.Dict.{Dict, lookup, insert}
use skyrecon.Vault.{
  Crypto, Crypt, ok, crypto_error, unicode_error, FieldContext, Vault, Draws, seal, open_sealed,
  then_crypt, blind_index, bar,
}

pub record Row : Type 0 where
  pub id : Text
  pub columns : Dict (Option Text)

abbrev pub or_null : Option (Option Text) → Option Text
or_null none = none
or_null (some v) = v

-- `getattr(row, column)` and `setattr(row, column, value)`
unfoldable pub get_column : String → Row → Option Text
get_column c row = or_null (lookup c row.columns)

unfoldable pub set_column : String → Option Text → Row → Row
set_column c v row = record row { columns = insert c v row.columns }

-- How the plaintext of an index is recovered: by opening a column that was sealed under a table and
-- a label, or as the dedupe key of an alert.
pub data Recover : Type 0 where
  opens : String → String → String → Recover
  dedupe_key : Recover

pub record IndexPlan : Type 0 where
  pub column : String
  pub domain : String
  pub recover : Recover

pub record TablePlan : Type 0 where
  pub table : String
  pub sealed : List String
  pub indexes : List IndexPlan

-- `PLAN`
abbrev pub plan : List TablePlan
plan =
    record {
      table = "users";
      sealed = "email_sealed" ∷ "display_name_sealed" ∷ "mfa_secret_sealed" ∷ [];
      indexes =
          record {
            column = "email_index";
            domain = "user-email";
            recover = opens "email_sealed" "users" "email";
          }
          ∷ [];
    }
    ∷ record {
      table = "indicators";
      sealed = "value_sealed" ∷ "notes_sealed" ∷ [];
      indexes =
          record {
            column = "value_index";
            domain = "indicator";
            recover = opens "value_sealed" "indicators" "value";
          }
          ∷ [];
    }
    ∷ record {
      table = "events";
      sealed = "payload_sealed" ∷ "src_ip_sealed" ∷ "dst_ip_sealed" ∷ [];
      indexes =
          record {
            column = "src_ip_index";
            domain = "ip";
            recover = opens "src_ip_sealed" "events" "src_ip";
          }
          ∷ record {
            column = "dst_ip_index";
            domain = "ip";
            recover = opens "dst_ip_sealed" "events" "dst_ip";
          }
          ∷ [];
    }
    ∷ record {
      table = "alerts";
      sealed = "title_sealed" ∷ "detail_sealed" ∷ "resolution_note_sealed" ∷ [];
      indexes =
          record { column = "dedupe_index"; domain = "alert-dedupe"; recover = dedupe_key } ∷ [];
    }
    ∷ record { table = "sessions"; sealed = "user_agent_sealed" ∷ "ip_sealed" ∷ []; indexes = [] }
    ∷ record { table = "audit_log"; sealed = "detail_sealed" ∷ []; indexes = [] }
    ∷ []

-- `column.removesuffix("_sealed")`
unfoldable pub context_column : String → Text
context_column c =
    let t = codes c in
    let n = length t - 7 in if text_eq (drop n t) (codes "_sealed") then take n t else t

unfoldable pub context_of : String → String → Row → FieldContext
context_of table c row = record {
  table = codes table;
  column = context_column c;
  record_id = row.id;
}

-- `x or "-"`
abbrev pub or_dash : Option Text → Text
or_dash none = codes "-"
or_dash (some []) = codes "-"
or_dash (some (c ∷ s)) = c ∷ s

abbrev pub or_blank : Option Text → Text
or_blank none = []
or_blank (some s) = s

unfoldable pub dedupe_text : Row → Option Text → Text
dedupe_text row title =
    or_dash (get_column "rule_id" row)
    ++ bar ∷ (or_dash (get_column "indicator_id" row) ++ bar ∷ take 120 (or_blank title))

abbrev pub Database : Type 0
Database = Dict (List Row)

abbrev pub rows_or_nil : Option (List Row) → List Row
rows_or_nil none = []
rows_or_nil (some rows) = rows

-- `session.exec(select(plan.model)).all()`
unfoldable pub table_rows : String → Database → List Row
table_rows t db = rows_or_nil (lookup t db)

-- `count_fields`: table by table, the rows times the columns.
unfoldable pub count_fields : List TablePlan → Database → Dict ℕ
count_fields [] db = []
count_fields (p ∷ ps) db =
    (p.table, length (table_rows p.table db) * (length p.sealed + length p.indexes))
    ∷ count_fields ps db

module _ (lib : Crypto) where
  -- `_open`: an empty or missing value is skipped.
  unfoldable pub open_field : Vault → Option Text → FieldContext → Crypt (Option Text)
  open_field v none ctx = ok none
  open_field v (some []) ctx = ok none
  open_field v (some (c ∷ s)) ctx = open_sealed lib v (some (c ∷ s)) ctx

  unfoldable pub recovered : Recover → Row → Vault → Crypt (Option Text)
  recovered (opens c table label) row v =
      open_field v (get_column c row)
        (record { table = codes table; column = codes label; record_id = row.id })
  recovered dedupe_key row v =
      then_crypt
        (open_field v (get_column "title_sealed" row)
          (record { table = codes "alerts"; column = codes "title"; record_id = row.id }))
        λ title. ok (some (dedupe_text row title))

  -- The inputs of the indexes that are not NULL, recovered from the row as it was.
  unfoldable pub index_inputs :
      List IndexPlan → Row → Vault → Crypt (List (IndexPlan × Option Text))
  index_inputs [] row v = ok []
  index_inputs (ix ∷ ixs) row v =
      let rest = index_inputs ixs row v in
      elim (get_column ix.column row) [
        | none ↦ rest
        | some old ↦
            then_crypt (recovered ix.recover row v)
              λ plain. then_crypt rest λ more. ok ((ix, plain) ∷ more)
      ]

  -- `new.blind_index(plain, domain) if plain else None`
  unfoldable pub new_index : Vault → Option Text → String → Option Text
  new_index v none domain = none
  new_index v (some []) domain = none
  new_index v (some (c ∷ s)) domain = some (blind_index lib v (c ∷ s) (codes domain))

  -- The indexes of the new key, and the count of what was touched.
  unfoldable pub rebuild_indexes : Vault → List (IndexPlan × Option Text) → Row → ℕ → Row × ℕ
  rebuild_indexes new [] row n = (row, n)
  rebuild_indexes new ((ix, plain) ∷ more) row n =
      rebuild_indexes new more (set_column ix.column (new_index new plain ix.domain) row) (n + 1)

  module _ (draws : ℕ → Draws) where
    -- One sealed column that is not empty, sealed anew under the new key.
    unfoldable pub reseal : Vault → Vault → String → String → Text → Row → ℕ → Crypt Row
    reseal old new table c sealed row n =
        then_crypt (open_sealed lib old (some sealed) (context_of table c row))
          λ plain. ok (set_column c (seal lib new (draws n) plain (context_of table c row)) row)

    unfoldable pub rotate_columns : Vault → Vault → String → List String → Row → ℕ → Crypt (Row × ℕ)
    rotate_columns old new table [] row n = ok (row, n)
    rotate_columns old new table (c ∷ cs) row n = elim (get_column c row) [
      | none ↦ rotate_columns old new table cs row n
      | some [] ↦ rotate_columns old new table cs row n
      | some (d ∷ s) ↦
          then_crypt (reseal old new table c (d ∷ s) row n)
            λ row'. rotate_columns old new table cs row' (n + 1)
    ]

    unfoldable pub rotate_row : Vault → Vault → TablePlan → Row → ℕ → Crypt (Row × ℕ)
    rotate_row old new p row n = then_crypt (index_inputs p.indexes row old) λ inputs.
        then_crypt (rotate_columns old new p.table p.sealed row n)
          λ (row', n'). ok (rebuild_indexes new inputs row' n')

    unfoldable pub rotate_rows : Vault → Vault → TablePlan → List Row → ℕ → Crypt (List Row × ℕ)
    rotate_rows old new p [] n = ok ([], n)
    rotate_rows old new p (row ∷ rows) n =
        then_crypt (rotate_row old new p row n) λ (row', n').
          then_crypt (rotate_rows old new p rows n') λ (rows', m). ok (row' ∷ rows', m)

    -- `rotate`, over the tables of a plan.
    unfoldable pub rotate_tables :
        Vault → Vault → List TablePlan → Database → ℕ → Crypt (Database × ℕ)
    rotate_tables old new [] db n = ok (db, n)
    rotate_tables old new (p ∷ ps) db n =
        then_crypt (rotate_rows old new p (table_rows p.table db) n)
          λ (rows, n'). rotate_tables old new ps (insert p.table rows db) n'

    unfoldable pub rotate : Vault → Vault → Database → Crypt (Database × ℕ)
    rotate old new db = rotate_tables old new plan db 0
