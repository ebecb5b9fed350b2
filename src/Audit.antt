-- ===== src/Audit.antt =====
-- The tamper-evident log of app/audit.py.
--
-- What is not under the source is a parameter: `isoformat` of a naive datetime, the SHA-256 of the
-- JSON text of an entry, and the database driver, which hands a stored timestamp back in its own
-- form. The sealed detail of an entry is kept as an opaque text; the hash does not cover it.
mod Timestamps
pub mod Record
pub mod Tamper
mod Tests
pub use Timestamps.{Offset, ahead, behind, DateTime, utc_wall}
unfoldable pub use Timestamps.{canonical_ts}
use skyrecon.Base.{
  ℕ, suc, ◌+◌, String, Bool, true, false, not, ◌&&◌, ◌||◌, Option, none, some, List, [], ◌∷◌, ◌++◌,
  map, leb, ltb, str_eq, if◌then◌else◌,
}

abbrev pub Digest : Type 0
Digest = String

abbrev pub genesis : Digest
genesis = "0000000000000000000000000000000000000000000000000000000000000000"

-- The dictionary that `_digest` writes as JSON.
pub record Body : Type 0 where
  pub seq : ℕ
  pub at : String
  pub actor : String
  pub action : String
  pub target : String
  pub outcome : String
  pub prev : Digest

pub record AuditEntry : Type 0 where
  pub seq : ℕ
  pub at : DateTime
  pub actor_id : Option String
  pub action : String
  pub target : String
  pub outcome : String
  pub detail_sealed : Option String
  pub prev_hash : Digest
  pub entry_hash : Digest

-- The arguments of `record`, with the sealed detail and the reading of the clock.
pub record Request : Type 0 where
  pub action : String
  pub actor_id : Option String
  pub target : String
  pub outcome : String
  pub detail_sealed : Option String
  pub at : DateTime

-- `actor_id or "-"`
unfoldable pub actor_text : Option String → String
actor_text none = "-"
actor_text (some s) = if str_eq s "" then "-" else s

-- `.order_by(AuditEntry.seq.desc()).limit(1)).first()`
unfoldable pub latest : List AuditEntry → Option AuditEntry
latest [] = none
latest (e ∷ es) = elim (latest es) [
  | none ↦ some e
  | some m ↦ if ltb m.seq e.seq then some e else some m
]

insert_by_seq : AuditEntry → List AuditEntry → List AuditEntry
insert_by_seq e [] = e ∷ []
insert_by_seq e (f ∷ es) = if leb e.seq f.seq then e ∷ f ∷ es else f ∷ insert_by_seq e es

-- `.order_by(AuditEntry.seq)`
unfoldable pub order_by_seq : List AuditEntry → List AuditEntry
unfolding insert_by_seq
order_by_seq [] = []
order_by_seq (e ∷ es) = insert_by_seq e (order_by_seq es)

-- What the hash of an entry covers, given the hash in front of it.
abbrev pub body_of : (ℕ → String) → AuditEntry → Digest → Body
body_of isoformat e prev = record {
  seq = e.seq;
  at = canonical_ts isoformat e.at;
  actor = actor_text e.actor_id;
  action = e.action;
  target = e.target;
  outcome = e.outcome;
  prev = prev;
}

abbrev pub next_seq : Option AuditEntry → ℕ
next_seq none = 1
next_seq (some e) = e.seq + 1

abbrev pub last_hash : Option AuditEntry → Digest
last_hash none = genesis
last_hash (some e) = e.entry_hash

-- A row as the database hands it back.
abbrev pub loaded : (DateTime → DateTime) → AuditEntry → AuditEntry
loaded driver e = record e { at = driver e.at }

-- The rows that `verify_chain` reads, in its order.
abbrev pub rows : (DateTime → DateTime) → List AuditEntry → List AuditEntry
rows driver log = map (loaded driver) (order_by_seq log)

module _ (isoformat : ℕ → String) (sha256_json : Body → Digest) where
  unfoldable pub new_entry : Option AuditEntry → Request → AuditEntry
  new_entry last r =
      let entry : AuditEntry = record {
        seq = next_seq last;
        at = r.at;
        actor_id = r.actor_id;
        action = r.action;
        target = r.target;
        outcome = r.outcome;
        detail_sealed = r.detail_sealed;
        prev_hash = last_hash last;
        entry_hash = "";
      } in
      record entry { entry_hash = sha256_json (body_of isoformat entry (last_hash last)) }

  unfoldable pub record_entry : Request → List AuditEntry → List AuditEntry
  record_entry r log = log ++ new_entry (latest log) r ∷ []

  -- The loop of `verify_chain`: whether the chain is intact, or the first bad number.
  unfoldable pub walk : Digest → List AuditEntry → Bool × Option ℕ
  walk prev [] = (true, none)
  walk prev (e ∷ es) =
      let rest = walk e.entry_hash es in
      if not (str_eq e.prev_hash prev)
        || not (str_eq e.entry_hash (sha256_json (body_of isoformat e prev)))
      then (false, some e.seq)
      else rest

  unfoldable pub verify_chain : (DateTime → DateTime) → List AuditEntry → Bool × Option ℕ
  verify_chain driver log = walk genesis (rows driver log)
