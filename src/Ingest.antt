-- ===== src/Ingest.antt =====
-- The pipeline of an event: `ingest_event` of app/services.py, with `_match_indicators` and
-- `_facts_for`.
--
-- The request's ids, random bytes and clock readings are its arguments. A read that raises ends the
-- request with what was committed before.
pub mod Pipeline
pub mod Anomaly
pub mod Laws
pub mod Refit
mod Tests
use skyrecon.Base.{
  ℕ, suc, ◌+◌, ◌*◌, String, Bool, true, false, ◌&&◌, Option, none, some, List, [], ◌∷◌, ◌++◌, map,
  Text, codes, text_eq, leb, max, first, length, if◌then◌else◌,
}
use skyrecon.Vault.{
  Crypto, Vault, Crypt, ok, crypto_error, unicode_error, Draws, seal, seal_text, blind_index,
}
use skyrecon.Scoring.{round_even}
use skyrecon.Rules.Values.{Value, number, text, bool, finite}
use skyrecon.Rules.Operators.{Runtime}
use skyrecon.IocParser.{Library, ParsedIoc, type_value}
use skyrecon.IocParser.Extract.{extract}
use skyrecon.Enrichment.{HostSignals, Enrichment}
use skyrecon.Indicators.{Indicator, find_indicator, put_indicator, join_tags}
use skyrecon.Indicators.Reading.{Reader, Reading, read_indicator}
use skyrecon.Alerts.{Alert, Cause, NewAlert, Site, raise_alert}
use skyrecon.Detection.{DetectionRule, Pass, match_rules}
use skyrecon.Ingest.Anomaly.{Event, Detector, Fitted, event_field, score_anomaly}

-- The arguments of `ingest_event`.
pub record Observation : Type 0 where
  pub source : String
  pub kind : String
  pub payload : Text
  pub src_ip : Option Text
  pub dst_ip : Option Text
  pub bytes_out : ℕ
  pub bytes_in : ℕ
  pub duration_ms : ℕ

-- The services that a request calls, and its fresh values.
pub record Request (M : Type 0) : Type 0 where
  pub reader : Reader
  pub site : Site
  pub runtime : Runtime
  pub detector : Detector M
  pub event_id : Text
  pub payload_draws : Draws
  pub src_draws : Draws
  pub dst_draws : Draws
  pub received_at : ℕ
  pub rows : ℕ → NewAlert
  pub clock : ℕ → ℕ
  pub json_reading : Reading → Text
  pub json_rule : Text → Text → Text
  pub json_anomaly : ℕ → List Text → Text

pub record EventAudit : Type 0 where
  pub action : String
  pub actor_id : Option Text
  pub target : Text
  pub alerts : ℕ
  pub matched : ℕ

pub record Tables (M : Type 0) : Type 0 where
  pub events : List Event
  pub indicators : List Indicator
  pub rules : List DetectionRule
  pub alerts : List Alert
  pub fitted : Fitted M
  pub calls : List EventAudit

pub record Ingested : Type 0 where
  pub id : Text
  pub risk_score : ℕ
  pub matched_indicators : List Text
  pub alerts_created : List Text
  pub anomaly : ℕ
  pub anomaly_reasons : List Text

-- `vault.blind_index(ip, "ip") if ip else None`
abbrev pub ip_index : Crypto → Vault → Option Text → Option Text
ip_index lib v none = none
ip_index lib v (some []) = none
ip_index lib v (some (c ∷ s)) = some (blind_index lib v (c ∷ s) (codes "ip"))

unfoldable pub active_with : Text → List Indicator → Option Indicator
active_with index rows = first (λ (r : Indicator). text_eq r.value_index index && r.is_active) rows

unfoldable pub match_parsed : Crypto → Vault → List ParsedIoc → List Indicator → List Indicator
match_parsed lib v [] rows = []
match_parsed lib v (p ∷ ps) rows =
    let rest = match_parsed lib v ps rows in
    elim (active_with (blind_index lib v p.value (codes "indicator")) rows) [
      | none ↦ rest
      | some r ↦ r ∷ rest
    ]

unfoldable pub match_indicators : Crypto → Vault → Library → Text → List Indicator → List Indicator
match_indicators lib v library payload rows = match_parsed lib v (extract library payload true) rows

abbrev pub natural : ℕ → Value
natural n = number (finite false n 1)

abbrev pub fact : String → Value → Text × Value
fact key v = (codes key, v)

-- `float(signals.get(key) or 0.0)`
abbrev pub signal : (HostSignals → ℕ) → Option Enrichment → ℕ
signal f none = 0
signal f (some e) = elim e.host [ none ↦ 0 | some h ↦ f h ]

-- The facts without an indicator, and those with the reading of one.
unfoldable pub facts_for : Event → Text → Option Reading → List (Text × Value)
facts_for e payload none =
    fact "payload" (text payload)
    ∷ fact "source" (text (codes e.source))
    ∷ fact "kind" (text (codes e.kind))
    ∷ fact "bytes_out" (natural e.bytes_out)
    ∷ fact "bytes_in" (natural e.bytes_in)
    ∷ fact "duration_ms" (natural e.duration_ms)
    ∷ fact "risk" (number (finite false e.risk_score 10))
    ∷ fact "severity" (text (codes "medium"))
    ∷ fact "confidence" (natural 0)
    ∷ fact "ioc_type" (text [])
    ∷ fact "dga" (natural 0)
    ∷ fact "tld_risk" (natural 0)
    ∷ fact "entropy" (natural 0)
    ∷ fact "tags" (text [])
    ∷ fact "internal" (bool false)
    ∷ []
facts_for e payload (some info) =
    fact "payload" (text payload)
    ∷ fact "source" (text (codes e.source))
    ∷ fact "kind" (text (codes e.kind))
    ∷ fact "bytes_out" (natural e.bytes_out)
    ∷ fact "bytes_in" (natural e.bytes_in)
    ∷ fact "duration_ms" (natural e.duration_ms)
    ∷ fact "risk" (number (finite false info.risk_score 10))
    ∷ fact "severity" (text (codes info.severity))
    ∷ fact "confidence" (natural info.effective_confidence)
    ∷ fact "ioc_type" (text (type_value info.ioc_type))
    ∷ fact "dga" (number (finite false (signal (λ h. h.dga_likelihood) info.enrichment) 1000))
    ∷ fact "tld_risk" (number (finite false (signal (λ h. h.tld_risk) info.enrichment) 100))
    ∷ fact "entropy" (number (finite false (signal (λ h. h.entropy) info.enrichment) 1000))
    ∷ fact "tags" (text (join_tags info.tags))
    ∷ fact "internal" (bool false)
    ∷ []

unfoldable pub seen_now : ℕ → Indicator → Indicator
seen_now now r = record r { hit_count = r.hit_count + 1; last_seen = now }

-- The row as it stands now: a matched indicator is the object that its earlier hits changed.
abbrev pub current : Indicator → List Indicator → Indicator
current r rows = elim (find_indicator r.id rows) [ none ↦ r | some s ↦ s ]
