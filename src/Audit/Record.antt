-- ===== src/Audit/Record.antt =====
-- A log that `record` wrote, entry after entry, is found intact.
use skyrecon.Base.{
  ℕ, zero, suc, ◌+◌, ◌≡◌, refl, ap, String, true, none, some, List, [], ◌∷◌, ◌++◌, map, length,
  take, arith, str_eq, str_eq_iff, le→leb,
}
use skyrecon.Audit.{
  DateTime, utc_wall, canonical_ts, Digest, genesis, Body, AuditEntry, Request, latest,
  order_by_seq, body_of, new_entry, record_entry, walk, loaded, verify_chain,
}

str_eq_self : (s : String) → str_eq s s ≡ true
str_eq_self s = (str_eq_iff s s).1 refl

-- The entries are numbered from `n + 1` on.
abbrev pub IsNumbered : ℕ → List AuditEntry → Type 0
IsNumbered n [] = Unit
IsNumbered n (e ∷ es) = (e.seq ≡ suc n) × IsNumbered (suc n) es

-- The hash at the end of a log.
abbrev pub tip : Digest → List AuditEntry → Digest
tip prev [] = prev
tip prev (e ∷ es) = tip e.entry_hash es

module _ (isoformat : ℕ → String) (sha256_json : Body → Digest) where
  -- The entries are numbered from `n + 1`, and each carries the hash before it and its own.
  abbrev pub IsChain : Digest → ℕ → List AuditEntry → Type 0
  IsChain prev n [] = Unit
  IsChain prev n (e ∷ es) =
      (e.seq ≡ suc n)
      × (e.prev_hash ≡ prev)
      × (e.entry_hash ≡ sha256_json (body_of isoformat e prev))
      × IsChain e.entry_hash (suc n) es

  IsChain-append :
      (prev : Digest) (n : ℕ) (log : List AuditEntry) (e : AuditEntry)
      → IsChain prev n log
      → e.seq ≡ suc (n + length log)
      → e.prev_hash ≡ tip prev log
      → e.entry_hash ≡ sha256_json (body_of isoformat e (tip prev log))
      → IsChain prev n (log ++ e ∷ [])
  IsChain-append prev n [] e c s p h = (omega arith, p, h, tt)
  IsChain-append prev n (f ∷ log) e c s p h =
      (c.0, c.1, c.2, IsChain-append f.entry_hash (suc n) log e c.3 (omega arith) p h)

  latest-IsChain :
      (prev : Digest) (n : ℕ) (e : AuditEntry) (log : List AuditEntry)
      → IsChain prev n (e ∷ log)
      → (m : AuditEntry) × (latest (e ∷ log) ≡ some m)
        × (m.seq ≡ n + length (e ∷ log))
        × (m.entry_hash ≡ tip prev (e ∷ log))
  unfolding latest
  latest-IsChain prev n e [] c = (e, refl, omega arith, refl)
  latest-IsChain prev n e (f ∷ log) c =
      let (m, found, number, hash) = latest-IsChain e.entry_hash (suc n) f log c.3 in
      (m, ground arith, omega arith, hash)

  new_entry-IsChain :
      (r : Request) (log : List AuditEntry)
      → IsChain genesis 0 log
      → IsChain genesis 0 (record_entry isoformat sha256_json r log)
  unfolding record_entry new_entry
  new_entry-IsChain r [] c = unfold latest in (omega arith, refl, refl, tt)
  new_entry-IsChain r (e ∷ log) c =
      let (m, found, number, hash) = latest-IsChain genesis 0 e log c in
      rw found (
        IsChain-append genesis 0 (e ∷ log) _ c (omega arith) hash (
          ap (λ p. sha256_json (body_of isoformat (new_entry isoformat sha256_json (some m) r) p))
            hash))

  -- The log after the requests, oldest first.
  unfoldable pub record_all : List Request → List AuditEntry → List AuditEntry
  record_all [] log = log
  record_all (r ∷ rs) log = record_all rs (record_entry isoformat sha256_json r log)

  record_all-IsChain :
      (rs : List Request) (log : List AuditEntry)
      → IsChain genesis 0 log
      → IsChain genesis 0 (record_all rs log)
  unfolding record_all
  record_all-IsChain [] log c = c
  record_all-IsChain (r ∷ rs) log c = record_all-IsChain rs _ (new_entry-IsChain r log c)

  pub order-IsChain :
      (prev : Digest) (n : ℕ) (log : List AuditEntry) → IsChain prev n log → order_by_seq log ≡ log
  unfolding order_by_seq
  order-IsChain prev n [] c = refl
  order-IsChain prev n (e ∷ []) c = refl
  order-IsChain prev n (e ∷ f ∷ log) c =
      rw (order-IsChain e.entry_hash (suc n) (f ∷ log) c.3) (rw (le→leb e.seq f.seq (omega arith)))

  IsChain-take :
      (k : ℕ) (prev : Digest) (n : ℕ) (log : List AuditEntry)
      → IsChain prev n log
      → IsChain prev n (take k log)
  IsChain-take zero prev n log c = tt
  IsChain-take (suc k) prev n [] c = tt
  IsChain-take (suc k) prev n (e ∷ log) c =
      (c.0, c.1, c.2, IsChain-take k e.entry_hash (suc n) log c.3)

  IsChain-IsNumbered :
      (prev : Digest) (n : ℕ) (log : List AuditEntry) → IsChain prev n log → IsNumbered n log
  IsChain-IsNumbered prev n [] c = tt
  IsChain-IsNumbered prev n (e ∷ log) c = (c.0, IsChain-IsNumbered e.entry_hash (suc n) log c.3)

  module _ (driver : DateTime → DateTime)
      (same_instant : (dt : DateTime)
        → utc_wall (driver dt).wall (driver dt).tzinfo ≡ utc_wall dt.wall dt.tzinfo) where
    walk-IsChain :
        (prev : Digest) (n : ℕ) (log : List AuditEntry)
        → IsChain prev n log
        → walk isoformat sha256_json prev (map (loaded driver) log) ≡ (true, none)
    unfolding walk canonical_ts
    walk-IsChain prev n [] c = refl
    walk-IsChain prev n (e ∷ log) c =
        rw (same_instant e.at, c.1, str_eq_self prev, ← c.2, str_eq_self e.entry_hash)
          (walk-IsChain e.entry_hash (suc n) log c.3)

-- Whatever is recorded on an empty log, in whatever order, the log verifies as intact, also where the driver hands the timestamps back in another form, as long as they denote the same instants; and the entries are numbered from 1 without a gap.
pub verify-record_all :
    (isoformat : ℕ → String) (sha256_json : Body → Digest) (driver : DateTime → DateTime)
    → ((dt : DateTime) → utc_wall (driver dt).wall (driver dt).tzinfo ≡ utc_wall dt.wall dt.tzinfo)
    → (rs : List Request)
    → let log = record_all isoformat sha256_json rs [] in
      (verify_chain isoformat sha256_json driver log ≡ (true, none)) × IsNumbered 0 log
verify-record_all isoformat sha256_json driver same rs =
    let chain = record_all-IsChain isoformat sha256_json rs [] tt in
    (
      unfold verify_chain in
          rw (order-IsChain isoformat sha256_json genesis 0 _ chain)
            (walk-IsChain isoformat sha256_json driver same genesis 0 _ chain),
      IsChain-IsNumbered isoformat sha256_json genesis 0 _ chain,
    )

-- Dropping the newest entries is not detected: every beginning of a recorded log verifies as intact.
pub verify-truncated :
    (isoformat : ℕ → String) (sha256_json : Body → Digest) (driver : DateTime → DateTime)
    → ((dt : DateTime) → utc_wall (driver dt).wall (driver dt).tzinfo ≡ utc_wall dt.wall dt.tzinfo)
    → (rs : List Request) (k : ℕ)
    → verify_chain isoformat sha256_json driver (take k (record_all isoformat sha256_json rs []))
      ≡ (true, none)
verify-truncated isoformat sha256_json driver same rs k =
    let chain =
      IsChain-take isoformat sha256_json k genesis 0 _
        (record_all-IsChain isoformat sha256_json rs [] tt) in
    unfold verify_chain in
    rw (order-IsChain isoformat sha256_json genesis 0 _ chain)
      (walk-IsChain isoformat sha256_json driver same genesis 0 _ chain)
