-- ===== src/Rotation/Tests.antt =====
-- A database of one user, rotated to a new key over the toy library.
use skyrecon.Base.{
  ℕ, ◌≡◌, ◌⊎◌, replicate, refl, arith, String, false, none, some, [], ◌∷◌, codes, text_eq, str_eq,
  All, rstrip, split_once,
}
use skyrecon.Dict.{lookup, insert}
use skyrecon.Vault.{
  Crypt, ok, crypto_error, Vault, aad, b64e, b64d, kek, seal_text, seal, decoded, split_sealed,
  open_parts, open_encoded, open_text, open_sealed, blind_index,
}
use skyrecon.Vault.Toy.{toy, toy-IsCrypto, draws, draws_salted}
use skyrecon.Rotation.{
  Row, Database, plan, TablePlan, get_column, set_column, context_column, context_of, dedupe_text,
  table_rows, open_field, recovered, index_inputs, new_index, rebuild_indexes, reseal,
  rotate_columns, rotate_row, rotate_rows, rotate_tables, rotate,
}
use skyrecon.Rotation.Tables.{AllRotated, rotate_lem}
use skyrecon.Rotation.Keys.{AuditSite, Kept, HandedOut, rotate_keys_lem}

abbrev old : Vault
old = record { master = 5 ∷ [] }

abbrev new : Vault
new = record { master = 8 ∷ [] }

abbrev user_row : Row
user_row = record {
  id = codes "u1";
  columns =
      ("email_index", some (blind_index toy old (codes "a@b") (codes "user-email")))
      ∷ (
        "email_sealed",
        seal toy old (draws 1) (some (codes "a@b"))
            (record { table = codes "users"; column = codes "email"; record_id = codes "u1" }),
      )
      ∷ ("display_name_sealed", none)
      ∷ [];
}

abbrev db : Database
db = ("users", user_row ∷ []) ∷ ("rules", []) ∷ []

abbrev outcome : Crypt (Database × ℕ)
outcome = rotate toy draws old new db

abbrev ok_or_nil : Crypt (Database × ℕ) → Database × ℕ
ok_or_nil (ok r) = r
ok_or_nil _ = ([], 0)

outcome_runs : outcome ≡ ok (ok_or_nil outcome)
unfolding rotate rotate_tables rotate_rows rotate_row rotate_columns reseal rebuild_indexes
    new_index index_inputs recovered open_field table_rows dedupe_text context_of context_column
    set_column get_column lookup insert blind_index open_text open_encoded open_parts split_sealed
    split_once seal_text seal decoded open_sealed aad b64e b64d kek rstrip toy draws text_eq
outcome_runs = refl

-- Two sealed values or indexes were touched.
touched_runs : (ok_or_nil outcome).1 ≡ 2
unfolding rotate rotate_tables rotate_rows rotate_row rotate_columns reseal rebuild_indexes
    new_index index_inputs recovered open_field table_rows dedupe_text context_of context_column
    set_column get_column lookup insert blind_index open_text open_encoded open_parts split_sealed
    split_once seal_text seal decoded open_sealed aad b64e b64d kek rstrip toy draws text_eq
touched_runs = refl

-- With another key than the one that sealed, nothing is rotated.
refused_runs : rotate toy draws new old db ≡ crypto_error
unfolding rotate rotate_tables rotate_rows rotate_row rotate_columns reseal rebuild_indexes
    new_index index_inputs recovered open_field table_rows dedupe_text context_of context_column
    set_column get_column lookup insert blind_index open_text open_encoded open_parts split_sealed
    split_once seal_text seal decoded open_sealed aad b64e b64d kek rstrip toy draws text_eq
refused_runs = refl

rotate_lem_example :
    All
      (λ (p : TablePlan).
        AllRotated toy old new p (table_rows p.table db) (table_rows p.table (ok_or_nil outcome).0))
      plan
    × ((t : String)
        → All (λ (p : TablePlan). str_eq t p.table ≡ false) plan
        → table_rows t (ok_or_nil outcome).0 ≡ table_rows t db)
rotate_lem_example =
    rotate_lem toy draws old new db (ok_or_nil outcome).0 (ok_or_nil outcome).1 toy-IsCrypto
      draws_salted outcome_runs

abbrev entry_site : AuditSite
entry_site = record { id = codes "e1"; draws = draws 9; json_detail = λ n sizes. codes "{}" }

-- A rotation to a key of 32 zero bytes.
rotate_keys_lem_example :
    Kept toy draws entry_site old (replicate 32 0) (codes "u9") db false
    ⊎ HandedOut toy draws entry_site old (replicate 32 0) (codes "u9") db false
rotate_keys_lem_example =
    rotate_keys_lem toy draws entry_site old (replicate 32 0) (codes "u9") false db toy-IsCrypto
      draws_salted (draws_salted 9) (omega arith)
