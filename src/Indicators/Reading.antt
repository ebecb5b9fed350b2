-- ===== src/Indicators/Reading.antt =====
-- Reading and finding indicators: `read_indicator` and `universal_search` of app/services.py.
--
-- A raised CryptoError or UnicodeDecodeError is passed on.
use skyrecon.Base.{
  ℕ, ◌+◌, ◌*◌, min, max, String, Bool, true, false, Option, none, some, List, [], ◌∷◌, Text, codes,
}
use skyrecon.Vault.{Crypt, ok, then_crypt, open_sealed, blind_index}
use skyrecon.Scoring.{HalfPower, decayed_confidence, round_even, risk_score}
use skyrecon.IocParser.{IocType, type_value, refang, normalize}
use skyrecon.IocParser.Extract.{detect_type, defanged}
use skyrecon.IocParser.Observable.{Observable, label, detect_observable}
use skyrecon.Enrichment.{Analysis, Enrichment, enrich}
use skyrecon.Indicators.{Indicator, Storage, indicator_field, split_tags, find_by_index}

-- The clock of a request, the half-life of the settings, and what enrichment calls.
pub record Reader : Type 0 where
  pub storage : Storage
  pub analysis : Analysis
  pub half_power : HalfPower
  pub half_life_days : ℕ
  pub now : ℕ

pub record Reading : Type 0 where
  pub id : Text
  pub value : Option Text
  pub defanged_value : Text
  pub ioc_type : IocType
  pub source : String
  pub severity : String
  pub confidence : ℕ
  pub effective_confidence : ℕ
  pub risk_score : ℕ
  pub tags : List Text
  pub tlp : String
  pub notes : Option Text
  pub enrichment : Option Enrichment
  pub first_seen : ℕ
  pub last_seen : ℕ
  pub hit_count : ℕ
  pub is_active : Bool

abbrev pub or_empty : Option Text → Text
or_empty none = []
or_empty (some s) = s

-- The enrichment, of a value that is not empty and where it was asked for.
abbrev pub enrichment_of : Analysis → Bool → Option Text → IocType → Option Enrichment
enrichment_of an true (some (c ∷ s)) t = some (enrich an (c ∷ s) t)
enrichment_of an _ _ t = none

abbrev pub modifier_of : Option Enrichment → ℕ
modifier_of none = 100
modifier_of (some e) = e.risk_modifier

-- `base * (1 + modifier * 0.35)`, clamped and rounded to tenths: with the modifier in hundredths above
-- -1.00 the factor is `6500 + 35 * modifier` over 10000.
unfoldable pub adjusted_risk : ℕ → ℕ → ℕ
adjusted_risk base modifier =
    round_even (max 0 (min (1000 * 10000) (base * (6500 + 35 * modifier)))) 10000

unfoldable pub reading_of : Reader → Bool → Indicator → Option Text → Option Text → Reading
reading_of rd with_enrichment r value notes =
    let effective =
      decayed_confidence rd.half_power r.confidence r.last_seen rd.half_life_days rd.now 5 in
    let e = enrichment_of rd.analysis with_enrichment value r.ioc_type in
    let base = risk_score effective r.severity r.source r.hit_count in
    record {
      id = r.id;
      value = value;
      defanged_value = defanged (record { value = or_empty value; ioc_type = r.ioc_type });
      ioc_type = r.ioc_type;
      source = r.source;
      severity = r.severity;
      confidence = r.confidence;
      effective_confidence = effective;
      risk_score = adjusted_risk base (modifier_of e);
      tags = split_tags [] r.tags;
      tlp = r.tlp;
      notes = notes;
      enrichment = e;
      first_seen = r.first_seen;
      last_seen = r.last_seen;
      hit_count = r.hit_count;
      is_active = r.is_active;
    }

unfoldable pub read_indicator : Reader → Bool → Indicator → Crypt Reading
read_indicator rd with_enrichment r =
    let st = rd.storage in
    then_crypt (open_sealed st.crypto st.vault (some r.value_sealed) (indicator_field "value" r.id))
      λ value.
        then_crypt (open_sealed st.crypto st.vault r.notes_sealed (indicator_field "notes" r.id))
          λ notes. ok (reading_of rd with_enrichment r value notes)

-- The answer of a search, `normalized` without a value for an empty query.
pub record SearchResult : Type 0 where
  pub query : Text
  pub detected_type : Option Text
  pub normalized : Option Text
  pub supported : Bool
  pub stored : Option Reading

unfoldable pub read_found : Reader → Option Indicator → Crypt (Option Reading)
read_found rd none = ok none
read_found rd (some r) = then_crypt (read_indicator rd true r) λ reading. ok (some reading)

abbrev pub unsupported : Text → Option Observable → SearchResult
unsupported q none = record {
  query = q;
  detected_type = none;
  normalized = some q;
  supported = false;
  stored = none;
}
unsupported q (some o) = record {
  query = q;
  detected_type = some (codes (label o));
  normalized = some q;
  supported = false;
  stored = none;
}

unfoldable pub search_for : Reader → Text → List Indicator → Option IocType → Crypt SearchResult
search_for rd q rows none = ok (unsupported q (detect_observable rd.storage.library q))
search_for rd q rows (some t) =
    let st = rd.storage in
    let clean = normalize st.library (refang st.library q) t in
    let index = blind_index st.crypto st.vault clean (codes "indicator") in
    then_crypt (read_found rd (find_by_index index rows)) λ stored. ok (record {
      query = q;
      detected_type = some (type_value t);
      normalized = some clean;
      supported = true;
      stored = stored;
    })

unfoldable pub universal_search : Reader → Text → List Indicator → Crypt SearchResult
universal_search rd query rows = elim (rd.storage.library.strip query) [
  | [] ↦ ok (record {
    query = [];
    detected_type = none;
    normalized = none;
    supported = false;
    stored = none;
  })
  | c ∷ s ↦ search_for rd (c ∷ s) rows (detect_type rd.storage.library (c ∷ s))
]
