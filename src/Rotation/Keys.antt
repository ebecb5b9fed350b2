-- ===== src/Rotation/Keys.antt =====
-- `rotate_keys` of app/routers/admin.py, the request that runs a key rotation.
--
-- The transactions of the request are the database that it returns.
use skyrecon.Base.{
  ℕ, ◌+◌, ◌≡◌, ◌≤◌, refl, ap, arith, ◌⊎◌, inl, inr, String, Bool, true, false, Option, none, some,
  [], ◌∷◌, ◌++◌, Text, codes, Bytes, All, length, ltb, if◌then◌else◌,
}
use skyrecon.Dict.{Dict, lookup, insert}
use skyrecon.Vault.{
  Crypto, Crypt, ok, crypto_error, unicode_error, Vault, Draws, FieldContext, b64e, seal,
  open_sealed, new_vault, min_master_bytes,
}
use skyrecon.Vault.Laws.{IsCrypto, b64d-b64e}
use skyrecon.Vault.Fields.{open_sealed-seal}
use skyrecon.Rotation.{Row, get_column, TablePlan, plan, Database, table_rows, count_fields, rotate}
use skyrecon.Rotation.Tables.{AllRotated, Salted, rotate_lem}

abbrev total_fields : Dict ℕ → ℕ
total_fields [] = 0
total_fields ((table, n) ∷ sizes) = n + total_fields sizes

-- A dry run reports the sizes; a rotation reports the fields it touched and hands out the key. Any
-- exception of the rotation is the 500, and one of the new key would pass as it is.
pub data KeyReply : Type 0 where
  dry : ℕ → Dict ℕ → KeyReply
  rotated : ℕ → Dict ℕ → Text → KeyReply
  aborted : ℕ → KeyReply
  raised : KeyReply

-- The entry of the audit log, with the count in its detail.
pub record KeyAudit : Type 0 where
  pub action : String
  pub actor_id : Text
  pub fields : ℕ
  pub by_table : Dict ℕ

abbrev pub detail_context : Text → FieldContext
detail_context id = record { table = codes "audit_log"; column = codes "detail"; record_id = id }

-- What `audit.record` takes for its row: the id, the random bytes that seal the detail, and the JSON text
-- of the detail.
pub record AuditSite : Type 0 where
  pub id : Text
  pub draws : Draws
  pub json_detail : ℕ → Dict ℕ → Text

-- The row of the log. The columns of the hash chain are those of Audit.
unfoldable pub key_row : Crypto → AuditSite → Vault → KeyAudit → Row
key_row lib site v call = record {
  id = site.id;
  columns =
      ("action", some (codes call.action))
      ∷ ("actor_id", some call.actor_id)
      ∷ (
        "detail_sealed",
        seal lib v site.draws (some (site.json_detail call.fields call.by_table))
            (detail_context site.id),
      )
      ∷ [];
}

unfoldable pub add_row : String → Row → Database → Database
add_row table row db = insert table (table_rows table db ++ row ∷ []) db

module _ (lib : Crypto) (draws : ℕ → Draws) (site : AuditSite) where
  -- `generate_master_key`, from the random bytes that it draws.
  unfoldable pub generate_master_key : Bytes → Text
  generate_master_key raw = b64e lib raw

  abbrev pub key_audit : Text → ℕ → Database → KeyAudit
  key_audit actor_id touched db = record {
    action = "key.rotate";
    actor_id = actor_id;
    fields = touched;
    by_table = count_fields plan db;
  }

  -- The entry is written with the vault that `get_vault` still holds, the old one.
  abbrev pub finish_rotation :
      Vault → Text → Text → Database → Crypt (Database × ℕ) → KeyReply × Database × Option KeyAudit
  finish_rotation old actor_id new_key db (ok (db', touched)) =
      let call = key_audit actor_id touched db in
      (
        rotated touched (count_fields plan db) new_key,
        add_row "audit_log" (key_row lib site old call) db',
        some call,
      )
  finish_rotation old actor_id new_key db crypto_error = (aborted 500, db, none)
  finish_rotation old actor_id new_key db unicode_error = (aborted 500, db, none)

  unfoldable pub rotate_keys :
      Vault → Bytes → Text → Bool → Database → KeyReply × Database × Option KeyAudit
  rotate_keys old raw actor_id dry_run db =
      if dry_run
      then (dry (total_fields (count_fields plan db)) (count_fields plan db), db, none)
      else let new_key = generate_master_key raw in
        elim (new_vault lib new_key) [
          | ok new ↦ finish_rotation old actor_id new_key db (rotate lib draws old new db)
          | crypto_error ↦ (raised, db, none)
          | unicode_error ↦ (raised, db, none)
        ]

-- A key of enough bytes is accepted, and is those bytes.
new_vault-generate :
    (lib : Crypto) (draws : ℕ → Draws) (site : AuditSite) (raw : Bytes)
    → IsCrypto lib
    → min_master_bytes ≤ length raw
    → new_vault lib (generate_master_key lib draws site raw) ≡ ok (record { master = raw })
unfolding new_vault generate_master_key
new_vault-generate lib draws site raw laws h =
    rw (new_vault, b64d-b64e lib laws raw) (rw (not_short (length raw) h) refl)
  where
    not_short : (n : ℕ) → min_master_bytes ≤ n → ltb n min_master_bytes ≡ false
    not_short n h = ground arith

module _ (lib : Crypto) (draws : ℕ → Draws) (site : AuditSite) (old : Vault) (raw : Bytes)
    (actor_id : Text) (db : Database) where
  abbrev pub Kept : Bool → Type 0
  Kept dry_run =
      let (reply, db', audit) = rotate_keys lib draws site old raw actor_id dry_run db in
      (db' ≡ db) × (audit ≡ none) × ((reply ≡ aborted 500) ⊎ (dry_run ≡ true))

  -- What was there is rotated, and the entry of the request is added, which opens under the old key.
  abbrev pub HandedOut : Bool → Type 0
  HandedOut dry_run =
      let (reply, db', audit) = rotate_keys lib draws site old raw actor_id dry_run db in
      (key : Text) × (new : Vault) × (n : ℕ) × (moved : Database) × (reply
        ≡ rotated n (count_fields plan db) key)
      × (new_vault lib key ≡ ok new)
      × All
          (λ (p : TablePlan).
            AllRotated lib old new p (table_rows p.table db) (table_rows p.table moved))
          plan
      × (let call = key_audit lib draws site actor_id n db in
          (db' ≡ add_row "audit_log" (key_row lib site old call) moved)
          × (audit ≡ some call)
          × (open_sealed lib old (get_column "detail_sealed" (key_row lib site old call))
                (detail_context site.id)
              ≡ ok (some (site.json_detail call.fields call.by_table))))

  key_row-open_sealed :
      (call : KeyAudit)
      → IsCrypto lib
      → length site.draws.salt ≡ 16
      → open_sealed lib old
          (get_column "detail_sealed" (key_row lib site old call))
          (detail_context site.id)
        ≡ ok (some (site.json_detail call.fields call.by_table))
  unfolding key_row get_column lookup
  key_row-open_sealed call laws salted =
      open_sealed-seal lib old site.draws (some (site.json_detail call.fields call.by_table))
        (detail_context site.id) laws salted

  rotate_keys-wet :
      IsCrypto lib
      → min_master_bytes ≤ length raw
      → rotate_keys lib draws site old raw actor_id false db
        ≡ finish_rotation lib draws site old actor_id
            (generate_master_key lib draws site raw)
            db
            (rotate lib draws old (record { master = raw }) db)
  unfolding rotate_keys
  rotate_keys-wet laws h = rw (rotate_keys, new_vault-generate lib draws site raw laws h) refl

  finished :
      (r : Crypt (Database × ℕ))
      → IsCrypto lib
      → Salted draws
      → length site.draws.salt ≡ 16
      → min_master_bytes ≤ length raw
      → rotate lib draws old (record { master = raw }) db ≡ r
      → rotate_keys lib draws site old raw actor_id false db
        ≡ finish_rotation lib draws site old actor_id (generate_master_key lib draws site raw) db r
      → Kept false ⊎ HandedOut false
  finished (ok (db', n)) laws salted entry h ran e =
      let new : Vault = record { master = raw } in
      let (kept, others) = rotate_lem lib draws old new db db' n laws salted ran in
      inr (
        generate_master_key lib draws site raw,
        new,
        n,
        db',
        ap (λ z. z.0) e,
        new_vault-generate lib draws site raw laws h,
        kept,
        (
          ap (λ z. z.1) e,
          ap (λ z. z.2) e,
          key_row-open_sealed (key_audit lib draws site actor_id n db) laws entry,
        ),
      )
  finished crypto_error laws salted entry h ran e =
      inl (ap (λ z. z.1) e, ap (λ z. z.2) e, inl (ap (λ z. z.0) e))
  finished unicode_error laws salted entry h ran e =
      inl (ap (λ z. z.1) e, ap (λ z. z.2) e, inl (ap (λ z. z.0) e))

-- A request for a key rotation, with at least 32 random bytes for the new key, ends in one of two ways:
-- the database is as it was, nothing is audited, and it was a dry run or is answered with 500; or a key
-- is handed out that makes a vault, under which every sealed column that the tables of the plan had and
-- that opened opens to the same text and every blind index is rebuilt, and to these rows the entry of
-- the request is added, whose detail opens under the old key.
pub rotate_keys_lem :
    (lib : Crypto) (draws : ℕ → Draws) (site : AuditSite) (old : Vault) (raw : Bytes)
    (actor_id : Text) (dry_run : Bool) (db : Database)
    → IsCrypto lib
    → Salted draws
    → length site.draws.salt ≡ 16
    → min_master_bytes ≤ length raw
    → Kept lib draws site old raw actor_id db dry_run
      ⊎ HandedOut lib draws site old raw actor_id db dry_run
unfolding rotate_keys
rotate_keys_lem lib draws site old raw actor_id true db laws salted entry h =
    inl (refl, refl, inr refl)
rotate_keys_lem lib draws site old raw actor_id false db laws salted entry h =
    finished lib draws site old raw actor_id db (rotate lib draws old (record { master = raw }) db)
      laws salted entry h refl (rotate_keys-wet lib draws site old raw actor_id db laws h)
