-- ===== src/Ingest/Laws.antt =====
-- What `ingest_event` of app/services.py does to the tables.
use skyrecon.Base.{
  ℕ, ◌+◌, ◌≡◌, refl, sym, ap, subst, ◌∙◌, arith, inl, inr, Bool, true, ◌&&◌, Option, none, some,
  List, [], ◌∷◌, ◌++◌, map, Text, codes, text_eq, All, length, length-append, keep, first,
  Bool-cases, Option-cases,
}
use skyrecon.IocParser.{ParsedIoc}
use skyrecon.Vault.{Crypto, Vault, blind_index, Crypt, ok, open_sealed}
use skyrecon.Alerts.{Alert, Site, raise_alert}
use skyrecon.Alerts.Counting.{bit}
use skyrecon.Alerts.Window.{Call, raises}
use skyrecon.Indicators.{Indicator, indicator_field, find_indicator, put_indicator}
use skyrecon.Indicators.Reading.{Reader, Reading, reading_of, read_indicator}
use skyrecon.Rules.Values.{Value}
use skyrecon.Detection.{match_rules, matches}
use skyrecon.Detection.Matching.{rule_calls, match_rules-raises, length-rule_calls}
use skyrecon.Ingest.Anomaly.{Event, score_anomaly}
use skyrecon.Ingest.{
  Observation, Request, Tables, Ingested, match_parsed, match_indicators, active_with, seen_now,
  current, facts_for,
}
use skyrecon.Ingest.Pipeline.{
  new_event, indicator_cause, hit_indicators, primary_facts, rule_pass, anomaly_cause, is_anomalous,
  raise_anomaly, alert_ids, detect_and_close, ingest_event,
}

-- Both sealed columns of a row open.
abbrev pub Opens : Reader → Indicator → Type 0
Opens rd r =
    ((value : Option Text) × (open_sealed rd.storage.crypto rd.storage.vault (some r.value_sealed)
          (indicator_field "value" r.id)
        ≡ ok value))
    × ((notes : Option Text) × (open_sealed rd.storage.crypto rd.storage.vault r.notes_sealed
            (indicator_field "notes" r.id)
          ≡ ok notes))

Opens-reads :
    (rd : Reader) (r : Indicator)
    → Opens rd r
    → (info : Reading) × (read_indicator rd true r ≡ ok info)
unfolding read_indicator
Opens-reads rd r ((value, v), (notes, n)) =
    (reading_of rd true r value notes, rw (read_indicator, v) (rw n refl))

Opens-seen_now : (rd : Reader) (now : ℕ) (r : Indicator) → Opens rd r → Opens rd (seen_now now r)
unfolding seen_now
Opens-seen_now rd now r o = o

All-put_indicator {κ} :
    (P : Indicator → Type κ) (r : Indicator) (rows : List Indicator)
    → P r
    → All P rows
    → All P (put_indicator r rows)
unfolding put_indicator
All-put_indicator P r [] h hs = tt
All-put_indicator P r (s ∷ rows) h hs = elim (Bool-cases (text_eq s.id r.id)) [
  | inl e ↦ rw e (h, All-put_indicator P r rows h hs.1)
  | inr e ↦ rw e (hs.0, All-put_indicator P r rows h hs.1)
]

All-first {κ} :
    (P : Indicator → Type κ) (p : Indicator → Bool) (rows : List Indicator) (r : Indicator)
    → All P rows
    → first p rows ≡ some r
    → P r
All-first P p [] r hs e = cc e
All-first P p (s ∷ rows) r hs e = elim (Bool-cases (p s)) [
  | inl h ↦ subst P (cc (rw h at e)) hs.0
  | inr h ↦ All-first P p rows r hs.1 (rw h at e)
]

All-current {κ} :
    (P : Indicator → Type κ) (m : Indicator) (rows : List Indicator)
    → P m
    → All P rows
    → P (current m rows)
unfolding find_indicator
All-current P m rows h hs = elim (Option-cases (find_indicator m.id rows)) [
  | inl e ↦ rw (current, e) h
  | inr (s, e) ↦ rw (current, e) (All-first P (λ (r : Indicator). text_eq r.id m.id) rows s hs e)
]

All-match_parsed {κ} :
    (P : Indicator → Type κ) (lib : Crypto) (v : Vault) (ps : List ParsedIoc)
    (rows : List Indicator)
    → All P rows
    → All P (match_parsed lib v ps rows)
unfolding match_parsed active_with
All-match_parsed P lib v [] rows hs = tt
All-match_parsed P lib v (p ∷ ps) rows hs =
    let index = blind_index lib v p.value (codes "indicator") in
    elim (Option-cases (active_with index rows)) [
      | inl e ↦ rw (match_parsed, e) (All-match_parsed P lib v ps rows hs)
      | inr (r, e) ↦
          rw (match_parsed, e)
            (
              All-first P (λ (r : Indicator). text_eq r.value_index index && r.is_active) rows r hs
                  e,
              All-match_parsed P lib v ps rows hs,
            )
    ]

raises-append :
    (site : Site) (xs ys : List Call) (alerts : List Alert)
    → raises site (xs ++ ys) alerts ≡ raises site ys (raises site xs alerts)
unfolding raises
raises-append site [] ys alerts = refl
raises-append site ((new, now, c) ∷ xs) ys alerts =
    raises-append site xs ys (raise_alert site new now c alerts).1

-- Every matched indicator that opens raises one alert, in the order of the matches.
abbrev Hit :
    {M : Type 0}
    → Request M
    → ℕ
    → List Alert
    → Crypt (List Alert) × List Indicator × List Alert
    → Type 0
Hit rq k alerts result =
    (raised : List Alert) × (result.0 ≡ ok raised)
    × (length raised ≡ k)
    × All (Opens rq.reader) result.1
    × ((calls : List Call) × (length calls ≡ k) × (result.2 ≡ raises rq.site calls alerts))

hit_indicators-Hit :
    {M : Type 0} (rq : Request M) (n : ℕ) (ms rows : List Indicator) (alerts : List Alert)
    → All (Opens rq.reader) ms
    → All (Opens rq.reader) rows
    → Hit rq (length ms) alerts (hit_indicators rq n ms rows alerts)
unfolding hit_indicators raises
hit_indicators-Hit rq n [] rows alerts hm hr = ([], refl, refl, hr, ([], refl, refl))
hit_indicators-Hit rq n (m ∷ ms) rows alerts hm hr =
    let r = current m rows in
    let opens = All-current (Opens rq.reader) m rows hm.0 hr in
    let (info, e) = Opens-reads rq.reader r opens in
    let c = indicator_cause rq r info in
    let (raised, o, len, hr', (calls, clen, t)) =
      hit_indicators-Hit rq (n + 1) ms (put_indicator (seen_now (rq.clock n) r) rows)
        (raise_alert rq.site (rq.rows n) (rq.clock n) c alerts).1 hm.1
        (All-put_indicator (Opens rq.reader) (seen_now (rq.clock n) r) rows
          (Opens-seen_now rq.reader (rq.clock n) r opens) hr) in
    let (a, alerts1) = raise_alert rq.site (rq.rows n) (rq.clock n) c alerts in
    rw (hit_indicators, e)
      (rw o (
        a ∷ raised,
        refl,
        omega (arith, len),
        hr',
        ((rq.rows n, rq.clock n, c) ∷ calls, omega (arith, clen), t),
      ))

raise_anomaly-raises :
    {M : Type 0} (rq : Request M) (n score : ℕ) (reasons : List Text) (alerts : List Alert)
    → let (raised, alerts') = raise_anomaly rq n score reasons alerts in
      (length raised ≡ bit (is_anomalous rq score))
      × ((calls : List Call) × (length calls ≡ length raised)
          × (alerts' ≡ raises rq.site calls alerts))
unfolding raise_anomaly raises
raise_anomaly-raises rq n score reasons alerts = elim (Bool-cases (is_anomalous rq score)) [
  | inl e ↦ rw e (refl, ((rq.rows n, rq.clock n, anomaly_cause rq score reasons) ∷ [], refl, refl))
  | inr e ↦ rw e (refl, ([], refl, refl))
]

length-ids : {M : Type 0} (rq : Request M) (xs : List Alert) → length (alert_ids rq xs) ≡ length xs
length-ids rq [] = refl
length-ids rq (x ∷ xs) = omega (arith, length-ids rq xs)

abbrev Closed :
    {M : Type 0}
    → Request M
    → Observation
    → Event
    → List Indicator
    → ℕ
    → List (Text × Value)
    → Tables M
    → Ingested × Tables M
    → Type 0
Closed rq ob e matched k facts tables (out, tables') =
    ((calls : List Call) × (length calls + k ≡ length out.alerts_created)
      × (tables'.alerts ≡ raises rq.site calls tables.alerts))
    × (length out.alerts_created
        ≡ k
          + length (keep (matches (rule_pass rq ob k facts)) tables.rules)
          + bit (is_anomalous rq out.anomaly))
    × (out.matched_indicators ≡ map (λ (r : Indicator). r.id) matched)
    × (tables'.events ≡ tables.events ++ record e { risk_score = out.risk_score } ∷ [])

detect_and_close-Closed :
    {M : Type 0} (rq : Request M) (ob : Observation) (actor : Option Text) (e : Event)
    (matched : List Indicator) (raised : List Alert) (facts : List (Text × Value))
    (tables : Tables M)
    → Closed rq ob e matched
        (length raised)
        facts
        tables
        (detect_and_close rq ob actor e matched raised facts tables)
unfolding detect_and_close rule_pass raises
detect_and_close-Closed rq ob actor e matched raised facts tables =
    let p = rule_pass rq ob (length raised) facts in
    let (_, by_rule, alerts1) = match_rules p 0 tables.rules tables.alerts in
    let (table, len, hits) = match_rules-raises p 0 tables.rules tables.alerts in
    let ((score, reasons), _) =
      score_anomaly rq.detector rq.site.crypto rq.site.vault (tables.events ++ e ∷ []) e ob.payload
        tables.fitted in
    let n = length raised + length by_rule in
    let (few, (calls, clen, t)) = raise_anomaly-raises rq n score reasons alerts1 in
    let by_model = (raise_anomaly rq n score reasons alerts1).0 in
    let all_len : length (alert_ids rq (raised ++ (by_rule ++ by_model)))
        ≡ length raised + (length by_rule + length by_model) =
      omega (
        arith,
        length-ids rq (raised ++ (by_rule ++ by_model)),
        length-append raised (by_rule ++ by_model),
        length-append by_rule by_model,
      ) in
    (
      (
        rule_calls p 0 tables.rules ++ calls,
        omega (
          arith,
          length-append (rule_calls p 0 tables.rules) calls,
          length-rule_calls p 0 tables.rules,
          clen,
          len,
          all_len,
        ),
        t
            ∙ ap (raises rq.site calls) table
            ∙ sym (raises-append rq.site (rule_calls p 0 tables.rules) calls tables.alerts),
      ),
      omega (arith, all_len, len, few),
      refl,
      refl,
    )

-- What `_facts_for` makes of the event and of the first matched indicator as it is now read.
abbrev pub FirstFacts :
    {M : Type 0}
    → Request M
    → Event
    → Text
    → List Indicator
    → List Indicator
    → List (Text × Value)
    → Type 0
FirstFacts rq e payload [] rows facts = facts ≡ facts_for e payload none
FirstFacts rq e payload (m ∷ ms) rows facts =
    (info : Reading) × (read_indicator rq.reader true (current m rows) ≡ ok info)
    × (facts ≡ facts_for e payload (some info))

primary_facts-ok :
    {M : Type 0} (rq : Request M) (e : Event) (payload : Text) (ms rows : List Indicator)
    → All (Opens rq.reader) ms
    → All (Opens rq.reader) rows
    → (facts : List (Text × Value)) × (primary_facts rq e payload ms rows ≡ ok facts)
      × FirstFacts rq e payload ms rows facts
unfolding primary_facts
primary_facts-ok rq e payload [] rows hm hr = (facts_for e payload none, refl, refl)
primary_facts-ok rq e payload (m ∷ ms) rows hm hr =
    let (info, h) =
      Opens-reads rq.reader (current m rows) (All-current (Opens rq.reader) m rows hm.0 hr) in
    (facts_for e payload (some info), rw (primary_facts, h) refl, (info, h, refl))

-- Where the sealed columns of the stored indicators open, an event is ingested, whichever rules raise a
-- RuleError on it: it is stored with its risk, the alerts are those of a run of calls, and as many are
-- reported as there are matched indicators, rules that match the facts of the event and of the first
-- matched indicator, and one more for a score of at least 0.85.
pub ingest_event-Closed :
    {M : Type 0} (rq : Request M) (ob : Observation) (actor : Option Text) (tables : Tables M)
    → All (Opens rq.reader) tables.indicators
    → let matched =
        match_indicators rq.site.crypto rq.site.vault rq.reader.storage.library ob.payload
          tables.indicators in
      (out : Ingested) × (tables' : Tables M) × (ingest_event rq ob actor tables
        ≡ (ok out, tables'))
      × ((calls : List Call) × (length calls ≡ length out.alerts_created)
          × (tables'.alerts ≡ raises rq.site calls tables.alerts))
      × ((facts : List (Text × Value)) × FirstFacts rq
            (new_event rq ob)
            ob.payload
            matched
            tables'.indicators
            facts
          × (length out.alerts_created
              ≡ length matched
                + length (keep (matches (rule_pass rq ob (length matched) facts)) tables.rules)
                + bit (is_anomalous rq out.anomaly)))
      × (out.matched_indicators ≡ map (λ (r : Indicator). r.id) matched)
      × (tables'.events
          ≡ tables.events ++ record (new_event rq ob) { risk_score = out.risk_score } ∷ [])
unfolding ingest_event match_indicators detect_and_close hit_indicators
ingest_event-Closed rq ob actor tables h =
    let lib = rq.site.crypto in
    let e = new_event rq ob in
    let matched =
      match_indicators lib rq.site.vault rq.reader.storage.library ob.payload tables.indicators in
    let open_matched : All (Opens rq.reader) matched =
      All-match_parsed (Opens rq.reader) lib rq.site.vault _ tables.indicators h in
    let (raised, o, len, open_rows, (calls, clen, t)) =
      hit_indicators-Hit rq 0 matched tables.indicators tables.alerts open_matched h in
    let (_, rows, alerts) = hit_indicators rq 0 matched tables.indicators tables.alerts in
    let (facts, f, are) = primary_facts-ok rq e ob.payload matched rows open_matched open_rows in
    let tables1 = record tables { indicators = rows; alerts = alerts } in
    let ((calls', clen', t'), count, ids, events) =
      detect_and_close-Closed rq ob actor e matched raised facts tables1 in
    let (out, tables') = detect_and_close rq ob actor e matched raised facts tables1 in
    (
      out,
      tables',
      rw (ingest_event, o) (rw f refl),
      (
        calls ++ calls',
        omega (arith, length-append calls calls', clen, clen', len),
        t' ∙ ap (raises rq.site calls') t ∙ sym (raises-append rq.site calls calls' tables.alerts),
      ),
      (
        facts,
        are,
        subst
            (λ k.
              length out.alerts_created
              ≡ k
                + length (keep (matches (rule_pass rq ob k facts)) tables.rules)
                + bit (is_anomalous rq out.anomaly))
            len count,
      ),
      ids,
      events,
    )
