-- ===== src/Indicators/Live.antt =====
-- Live lookups for one indicator: `deep_enrich_indicator` and `_snapshot_history` of app/services.py, and
-- the handler `deep_enrich` of app/routers/intel.py.
--
-- The lookups of app/intel_live.py ask public registries, so that their answers are parameters, of
-- which the record has what is used here and whether the answer is empty. The rest of an answer only
-- goes back to the caller, and of the answer `out` the model has the keys.
pub mod History
use skyrecon.Base.{
  ℕ, suc, ◌+◌, String, Bool, true, false, not, ◌&&◌, ◌||◌, Option, none, some, List, [], ◌∷◌, ◌++◌,
  Text, codes, text_eq, min, keep, length, if◌then◌else◌,
}
use skyrecon.Vault.{Crypt, ok, then_crypt, open_sealed}
use skyrecon.Rules.Operators.{has_prefix}
use skyrecon.Enrichment.{split_on, last_of}
use skyrecon.IocParser.{IocType, ipv4, ipv6, domain, url, email, at_sign, before, is_text}
use skyrecon.Indicators.{
  Indicator, Storage, IocAudit, indicator_field, find_indicator, split_tags, merge_tags, join_tags,
}

pub record IndicatorSnapshot : Type 0 where
  pub id : Text
  pub indicator_id : Text
  pub taken_at : ℕ
  pub resolved_ips : Text
  pub nameservers : Text
  pub cert_issuer : Option Text
  pub cert_serial : Option Text
  pub network_org : Option Text

pub record Rdap : Type 0 where
  pub network_org : Option Text
  pub nameservers : List Text
  pub is_empty : Bool

pub record Dns : Type 0 where
  pub a : List Text
  pub aaaa : List Text
  pub ns : List Text
  pub is_empty : Bool

pub record Certificates : Type 0 where
  pub issuer : Option Text
  pub serial : Option Text
  pub is_empty : Bool

pub record Lookups : Type 0 where
  pub rdap_ip : Text → Rdap
  pub rdap_domain : Text → Rdap
  pub dns_records : Text → Dns
  pub cert_transparency : Text → Certificates

pub record SnapshotHistory : Type 0 where
  pub observations : ℕ
  pub since : Option ℕ
  pub distinct_ips : List Text
  pub distinct_nameservers : List Text
  pub distinct_certs : List Text

-- What a request draws and reads: the id of the snapshot and the clock.
pub record Taken : Type 0 where
  pub id : Text
  pub now : ℕ

pub record DeepEnrichment : Type 0 where
  pub found : List String
  pub history : SnapshotHistory

-- What stands behind the first `://`.
unfoldable pub after_scheme : Text → Option Text
after_scheme [] = none
after_scheme (c ∷ s) =
    let rest = after_scheme s in
    if has_prefix (c ∷ s) (codes "://")
    then elim s [ [] ↦ rest | d ∷ t ↦ elim t [ [] ↦ rest | e ∷ u ↦ some u ] ]
    else rest

-- `value.lower().split("://", 1)[-1].split("/")[0].split(":")[0]`, of the value in lower case.
unfoldable pub host_of_url : Text → Text
host_of_url v = before 58 (before 47 (elim (after_scheme v) [ none ↦ v | some s ↦ s ]))

-- `f"{s.cert_issuer} (#{s.cert_serial})"`
abbrev pub cert_text : Text → Option Text → Text
cert_text issuer none = issuer ++ codes " (#None)"
cert_text issuer (some serial) = issuer ++ codes " (#" ++ serial ++ codes ")"

abbrev pub cert_of : Option Text → Option Text → List Text
cert_of none serial = []
cert_of (some []) serial = []
cert_of (some (c ∷ s)) serial = cert_text (c ∷ s) serial ∷ []

-- The distinct values of a column, in order.
unfoldable pub distinct_of : (IndicatorSnapshot → List Text) → List IndicatorSnapshot → List Text
distinct_of column [] = []
distinct_of column (s ∷ past) = merge_tags (column s) (distinct_of column past)

abbrev pub earlier : ℕ → Option ℕ → Option ℕ
earlier n none = some n
earlier n (some m) = some (min n m)

-- The `taken_at` that is the first in order.
unfoldable pub earliest : List IndicatorSnapshot → Option ℕ
earliest [] = none
earliest (s ∷ past) = earlier s.taken_at (earliest past)

abbrev pub of_indicator : Text → IndicatorSnapshot → Bool
of_indicator id s = text_eq s.indicator_id id

abbrev pub ips_of : IndicatorSnapshot → List Text
ips_of s = split_tags [] s.resolved_ips

-- `_snapshot_history`
unfoldable pub snapshot_history : Text → List IndicatorSnapshot → SnapshotHistory
snapshot_history indicator_id snapshots =
    let past = keep (of_indicator indicator_id) snapshots in
    record {
      observations = length past;
      since = earliest past;
      distinct_ips = distinct_of ips_of past;
      distinct_nameservers = distinct_of (λ s. split_tags [] s.nameservers) past;
      distinct_certs = distinct_of (λ s. cert_of s.cert_issuer s.cert_serial) past;
    }

abbrev pub found_if : Bool → String → List String
found_if true key = []
found_if false key = key ∷ []

abbrev pub or_listed : List Text → List Text → List Text
or_listed [] ys = ys
or_listed (x ∷ xs) ys = x ∷ xs

abbrev pub blank : Text → Text → ℕ → IndicatorSnapshot
blank id indicator_id now = record {
  id = id;
  indicator_id = indicator_id;
  taken_at = now;
  resolved_ips = [];
  nameservers = [];
  cert_issuer = none;
  cert_serial = none;
  network_org = none;
}

module _ (lk : Lookups) where
  -- The keys of the lookups that found something, and the snapshot, of an address and of a host.
  unfoldable pub address_lookup : Text → IndicatorSnapshot → List String × IndicatorSnapshot
  address_lookup value snap =
      let rdap = lk.rdap_ip value in
      (
        found_if rdap.is_empty "rdap",
        record snap { resolved_ips = value; network_org = rdap.network_org },
      )

  unfoldable pub host_lookup : Text → IndicatorSnapshot → List String × IndicatorSnapshot
  host_lookup host snap =
      let rdap = lk.rdap_domain host in
      let dns = lk.dns_records host in
      let certificates = lk.cert_transparency host in
      (
        found_if rdap.is_empty "rdap"
            ++ found_if dns.is_empty "dns"
            ++ found_if certificates.is_empty "certificates",
        record snap {
          resolved_ips = join_tags (dns.a ++ dns.aaaa);
          nameservers = join_tags (or_listed rdap.nameservers dns.ns);
          cert_issuer = certificates.issuer;
          cert_serial = certificates.serial;
        },
      )

  unfoldable pub lookup :
      (Text → Text) → IocType → Text → IndicatorSnapshot → List String × IndicatorSnapshot
  lookup lower ipv4 value snap = address_lookup value snap
  lookup lower ipv6 value snap = address_lookup value snap
  lookup lower domain value snap = host_lookup value snap
  lookup lower url value snap = host_lookup (host_of_url (lower value)) snap
  lookup lower email value snap = host_lookup (last_of [] (split_on at_sign [] value)) snap
  lookup lower _ value snap = ([], snap)

abbrev pub is_given : Option Text → Bool
is_given none = false
is_given (some s) = is_text s

abbrev pub is_worth : IndicatorSnapshot → Bool
is_worth s = is_text s.resolved_ips || is_text s.nameservers || is_given s.cert_issuer

unfoldable pub add_snapshot : IndicatorSnapshot → List IndicatorSnapshot → List IndicatorSnapshot
add_snapshot s snapshots = if is_worth s then snapshots ++ s ∷ [] else snapshots

abbrev pub Enriched : Type 0
Enriched = Option (DeepEnrichment × IocAudit) × List IndicatorSnapshot

-- A value that is missing or empty gives the empty answer, here `none`, without an audit entry.
unfoldable pub deep_enrich_value :
    Lookups
    → (Text → Text)
    → Taken
    → Option Text
    → Indicator
    → Option Text
    → List IndicatorSnapshot
    → Enriched
deep_enrich_value lk lower new actor r none snapshots = (none, snapshots)
deep_enrich_value lk lower new actor r (some []) snapshots = (none, snapshots)
deep_enrich_value lk lower new actor r (some (c ∷ v)) snapshots =
    let (found, snap) = lookup lk lower r.ioc_type (c ∷ v) (blank new.id r.id new.now) in
    let after = add_snapshot snap snapshots in
    (
      some (
        record { found = found ++ "history" ∷ []; history = snapshot_history r.id after },
        record { action = "ioc.deep_enrich"; actor_id = actor; target = r.id },
      ),
      after,
    )

unfoldable pub deep_enrich_indicator :
    Storage → Lookups → Taken → Option Text → Indicator → List IndicatorSnapshot → Crypt Enriched
deep_enrich_indicator st lk new actor r snapshots =
    then_crypt (open_sealed st.crypto st.vault (some r.value_sealed) (indicator_field "value" r.id))
      λ value. ok (deep_enrich_value lk st.library.lower new actor r value snapshots)

-- `none` is the 404.
unfoldable pub deep_enrich :
    Storage
    → Lookups
    → Taken
    → Text
    → Text
    → List Indicator
    → List IndicatorSnapshot
    → Option (Crypt Enriched)
deep_enrich st lk new user_id id rows snapshots = elim (find_indicator id rows) [
  | none ↦ none
  | some r ↦ some (deep_enrich_indicator st lk new (some user_id) r snapshots)
]
