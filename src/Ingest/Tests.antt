-- ===== src/Ingest/Tests.antt =====
-- An event whose payload names a stored indicator, with a rule that matches and one that is broken.
use skyrecon.Base.{
  String, ℕ, ◌+◌, ◌/◌, ◌≡◌, refl, true, none, some, List, [], ◌∷◌, ◌++◌, map, Text, codes, All,
  length, keep,
}
use skyrecon.Rules.Values.{Value}
use skyrecon.Rules.Operators.{Runtime}
use skyrecon.Vault.{Vault, ok, blind_index, seal, open_sealed}
use skyrecon.Vault.Toy.{toy, draws, toy-IsCrypto, draws_salted}
use skyrecon.Vault.Fields.{open_sealed-seal}
use skyrecon.IocParser.{domain}
use skyrecon.IocParser.Tests.{lenient}
use skyrecon.Enrichment.Tests.{toy_analysis}
use skyrecon.Indicators.{
  Indicator, Sighting, Storage, Fresh, indicator_field, sealed_notes, new_indicator,
}
use skyrecon.Alerts.Counting.{bit}
use skyrecon.Alerts.Window.{Call, raises}
use skyrecon.Detection.{DetectionRule, matches}
use skyrecon.Ingest.Anomaly.{Event, Detector}
use skyrecon.Ingest.{Observation, Request, Tables, Ingested, match_indicators}
use skyrecon.Ingest.Pipeline.{new_event, rule_pass, is_anomalous, ingest_event}
use skyrecon.Ingest.Laws.{FirstFacts, Opens, ingest_event-Closed}

abbrev key : Vault
key = record { master = 5 ∷ [] }

abbrev storage : Storage
storage = record { library = lenient; crypto = toy; vault = key }

abbrev runtime : Runtime
runtime = record {
  float_of_text = λ s. none;
  float_of_number = λ n. n;
  str_of_number = λ n. codes "0";
  str_of_items = λ xs. codes "[]";
  lower = λ s. s;
  search = λ p s. some true;
}

-- A model that counts what it was fitted on, and finds everything strange.
abbrev counting : Detector ℕ
counting = record {
  fit = λ rows m. length rows;
  is_trained = λ m. true;
  score = λ m p. 9000;
  explain = λ m p. codes "odd" ∷ [];
}

abbrev request : Request ℕ
request = record {
  reader = record {
    storage = storage;
    analysis = toy_analysis;
    half_power = λ base age half_life. base / 2;
    half_life_days = 30;
    now = 3000;
  };
  site = record { crypto = toy; vault = key; minute = 60 };
  runtime = runtime;
  detector = counting;
  event_id = codes "e1";
  payload_draws = draws 1;
  src_draws = draws 2;
  dst_draws = draws 3;
  received_at = 3000;
  rows = λ n. record { id = n ∷ []; title_draws = draws 4; detail_draws = draws 5 };
  clock = λ n. 3000 + n;
  json_reading = λ info. [];
  json_rule = λ name description. name;
  json_anomaly = λ score reasons. [];
}

abbrev fresh : Fresh
fresh = record { id = codes "i1"; value_draws = draws 6; notes_draws = draws 7; now = 1000 }

abbrev report : Sighting
report = record {
  value = codes "Evil.test";
  ioc_type = some domain;
  source = "osint";
  severity = "high";
  confidence = 50;
  tags = [];
  tlp = "amber";
  notes = none;
}

abbrev evil : Indicator
evil =
    new_indicator storage fresh none report domain (codes "evil.test")
      (blind_index toy key (codes "evil.test") (codes "indicator"))

abbrev rule : String → DetectionRule
rule expression = record {
  id = codes "r1";
  name = codes "rule";
  description = [];
  enabled = true;
  severity = "medium";
  expression = codes expression;
  mitre_techniques = "T1071";
  created_at = 5;
  updated_at = 5;
  hit_count = 0;
}

abbrev tables : Tables ℕ
tables = record {
  events = [];
  indicators = evil ∷ [];
  rules = rule "severity == " ∷ rule "bytes_out >= 0" ∷ [];
  alerts = [];
  fitted = record { model = 0; fitted_at = 0 };
  calls = [];
}

abbrev observation : Observation
observation = record {
  source = "internal-sensor";
  kind = "log";
  payload = codes "GET evil.test";
  src_ip = none;
  dst_ip = some (codes "10.0.0.1");
  bytes_out = 10;
  bytes_in = 20;
  duration_ms = 3;
}

tables_open : All (Opens request.reader) tables.indicators
unfolding new_indicator open_sealed seal sealed_notes
tables_open = (
  (
    (
      some (codes "evil.test"),
      open_sealed-seal toy key (draws 6) (some (codes "evil.test"))
          (indicator_field "value" (codes "i1")) toy-IsCrypto (draws_salted 6),
    ),
    (none, refl),
  ),
  tt,
)

ingest_event-Closed_example :
    let matched = match_indicators toy key lenient observation.payload tables.indicators in
    (out : Ingested) × (tables' : Tables ℕ) × (ingest_event request observation none tables
      ≡ (ok out, tables'))
    × ((calls : List Call) × (length calls ≡ length out.alerts_created)
        × (tables'.alerts ≡ raises request.site calls tables.alerts))
    × ((facts : List (Text × Value)) × FirstFacts request
          (new_event request observation)
          observation.payload
          matched
          tables'.indicators
          facts
        × (length out.alerts_created
            ≡ length matched
              + length (
                  keep
                    (matches (rule_pass request observation (length matched) facts))
                    tables.rules)
              + bit (is_anomalous request out.anomaly)))
    × (out.matched_indicators ≡ map (λ (r : Indicator). r.id) matched)
    × (tables'.events
        ≡ tables.events
          ++ record (new_event request observation) { risk_score = out.risk_score } ∷ [])
ingest_event-Closed_example = ingest_event-Closed request observation none tables tables_open

abbrev one_event : List Event
one_event = new_event request observation ∷ []
