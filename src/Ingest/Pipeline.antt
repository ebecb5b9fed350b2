-- ===== src/Ingest/Pipeline.antt =====
-- The steps of `ingest_event` of app/services.py, and the whole of it.
use skyrecon.Base.{
  ℕ, ◌+◌, ◌*◌, Bool, true, Option, none, some, List, [], ◌∷◌, ◌++◌, map, Text, codes, leb, max,
  length, if◌then◌else◌,
}
use skyrecon.Vault.{Crypt, ok, crypto_error, unicode_error, seal, seal_text}
use skyrecon.Scoring.{round_even}
use skyrecon.Rules.Values.{Value}
use skyrecon.Indicators.{Indicator, put_indicator}
use skyrecon.Indicators.Reading.{Reading, read_indicator}
use skyrecon.Alerts.{Alert, Cause, raise_alert}
use skyrecon.Detection.{Pass, match_rules}
use skyrecon.Ingest.Anomaly.{Event, event_field, score_anomaly}
use skyrecon.Ingest.{
  Ingested, Observation, Request, Tables, current, facts_for, ip_index, match_indicators, seen_now,
}

module _ {M : Type 0} (rq : Request M) where
  unfoldable pub new_event : Observation → Event
  new_event ob =
      let lib = rq.site.crypto in
      let v = rq.site.vault in
      record {
        id = rq.event_id;
        received_at = rq.received_at;
        source = ob.source;
        kind = ob.kind;
        payload_sealed =
            seal_text lib v rq.payload_draws ob.payload (event_field "payload" rq.event_id);
        src_ip_sealed = seal lib v rq.src_draws ob.src_ip (event_field "src_ip" rq.event_id);
        dst_ip_sealed = seal lib v rq.dst_draws ob.dst_ip (event_field "dst_ip" rq.event_id);
        src_ip_index = ip_index lib v ob.src_ip;
        dst_ip_index = ip_index lib v ob.dst_ip;
        bytes_out = ob.bytes_out;
        bytes_in = ob.bytes_in;
        duration_ms = ob.duration_ms;
        risk_score = 0;
      }

  unfoldable pub indicator_cause : Indicator → Reading → Cause
  indicator_cause r info = record {
    title = codes "Known indicator observed: " ++ info.defanged_value;
    severity = info.severity;
    score = info.risk_score;
    event_id = some rq.event_id;
    indicator_id = some r.id;
    rule_id = none;
    techniques = "T1071.001";
    detail = some (rq.json_reading info);
  }

  -- The loop over the matched indicators, with the number of alerts raised so far.
  unfoldable pub hit_indicators :
      ℕ
      → List Indicator
      → List Indicator
      → List Alert
      → Crypt (List Alert) × List Indicator × List Alert
  hit_indicators n [] rows alerts = (ok [], rows, alerts)
  hit_indicators n (m ∷ ms) rows alerts =
      let r = current m rows in
      elim (read_indicator rq.reader true r) [
        | crypto_error ↦ (crypto_error, rows, alerts)
        | unicode_error ↦ (unicode_error, rows, alerts)
        | ok info ↦
            let rows1 = put_indicator (seen_now (rq.clock n) r) rows in
            let (a, alerts1) =
              raise_alert rq.site (rq.rows n) (rq.clock n) (indicator_cause r info) alerts in
            let (out, rows', alerts') = hit_indicators (n + 1) ms rows1 alerts1 in
            elim out [
              | ok raised ↦ (ok (a ∷ raised), rows', alerts')
              | crypto_error ↦ (crypto_error, rows', alerts')
              | unicode_error ↦ (unicode_error, rows', alerts')
            ]
      ]

  -- `_facts_for` the first of the matched indicators.
  unfoldable pub primary_facts :
      Event → Text → List Indicator → List Indicator → Crypt (List (Text × Value))
  primary_facts e payload [] rows = ok (facts_for e payload none)
  primary_facts e payload (m ∷ ms) rows = elim (read_indicator rq.reader true (current m rows)) [
    | ok info ↦ ok (facts_for e payload (some info))
    | crypto_error ↦ crypto_error
    | unicode_error ↦ unicode_error
  ]

  -- Numbered from the alerts of the indicators on.
  unfoldable pub rule_pass : Observation → ℕ → List (Text × Value) → Pass
  rule_pass ob n facts = record {
    site = rq.site;
    runtime = rq.runtime;
    event_id = rq.event_id;
    source = ob.source;
    facts = facts;
    rows = λ k. rq.rows (n + k);
    clock = λ k. rq.clock (n + k);
    json_detail = rq.json_rule;
  }

  -- `round(score * 70, 1)` in tenths.
  unfoldable pub anomaly_cause : ℕ → List Text → Cause
  anomaly_cause score reasons = record {
    title = codes "Behavioural anomaly in event telemetry";
    severity = "medium";
    score = round_even (score * 700) 10000;
    event_id = some rq.event_id;
    indicator_id = none;
    rule_id = none;
    techniques = "T1030";
    detail = some (rq.json_anomaly score reasons);
  }

  abbrev pub is_anomalous : ℕ → Bool
  is_anomalous score = leb 8500 score

  unfoldable pub raise_anomaly : ℕ → ℕ → List Text → List Alert → List Alert × List Alert
  raise_anomaly n score reasons alerts =
      let (a, alerts') =
        raise_alert rq.site (rq.rows n) (rq.clock n) (anomaly_cause score reasons) alerts in
      if is_anomalous score then (a ∷ [], alerts') else ([], alerts)

  abbrev pub highest : List Alert → ℕ
  highest [] = 0
  highest (a ∷ rest) = max a.score (highest rest)

  -- `max([a.score for a in alerts], default=round(score * 40, 1))`
  abbrev pub event_risk : ℕ → List Alert → ℕ
  event_risk score [] = round_even (score * 400) 10000
  event_risk score (a ∷ rest) = highest (a ∷ rest)

  abbrev pub alert_ids : List Alert → List Text
  alert_ids = map (λ (a : Alert). a.id)

  -- From the facts on.
  unfoldable pub detect_and_close :
      Observation
      → Option Text
      → Event
      → List Indicator
      → List Alert
      → List (Text × Value)
      → Tables M
      → Ingested × Tables M
  detect_and_close ob actor e matched raised facts tables =
      let (rules', by_rule, alerts1) =
        match_rules (rule_pass ob (length raised) facts) 0 tables.rules tables.alerts in
      let events = tables.events ++ e ∷ [] in
      let ((score, reasons), fitted') =
        score_anomaly rq.detector rq.site.crypto rq.site.vault events e ob.payload tables.fitted in
      let (by_model, alerts2) =
        raise_anomaly (length raised + length by_rule) score reasons alerts1 in
      let all = raised ++ (by_rule ++ by_model) in
      let risk = event_risk score all in
      (
        record {
          id = e.id;
          risk_score = risk;
          matched_indicators = map (λ (r : Indicator). r.id) matched;
          alerts_created = alert_ids all;
          anomaly = score;
          anomaly_reasons = reasons;
        },
        record tables {
          events = tables.events ++ record e { risk_score = risk } ∷ [];
          rules = rules';
          alerts = alerts2;
          fitted = fitted';
          calls =
              tables.calls
              ++ record {
                action = "event.ingest";
                actor_id = actor;
                target = e.id;
                alerts = length all;
                matched = length matched;
              }
                ∷ [];
        },
      )

  unfoldable pub ingest_event : Observation → Option Text → Tables M → Crypt Ingested × Tables M
  ingest_event ob actor tables =
      let e = new_event ob in
      let stored = record tables { events = tables.events ++ e ∷ [] } in
      let library = rq.reader.storage.library in
      let matched =
        match_indicators rq.site.crypto rq.site.vault library ob.payload tables.indicators in
      let (out, rows, alerts) = hit_indicators 0 matched tables.indicators tables.alerts in
      elim out [
        | crypto_error ↦ (crypto_error, record stored { indicators = rows; alerts = alerts })
        | unicode_error ↦ (unicode_error, record stored { indicators = rows; alerts = alerts })
        | ok raised ↦ elim (primary_facts e ob.payload matched rows) [
          | crypto_error ↦ (crypto_error, record stored { indicators = rows; alerts = alerts })
          | unicode_error ↦ (unicode_error, record stored { indicators = rows; alerts = alerts })
          | ok facts ↦
              let (done, tables') =
                detect_and_close ob actor e matched raised facts
                  (record tables { indicators = rows; alerts = alerts }) in
              (ok done, tables')
        ]
      ]
