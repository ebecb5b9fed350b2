-- ===== src/Indicators/Tests.antt =====
-- A domain that is reported twice, and a report of it with an address.
use skyrecon.Base.{
  Among, ◌/◌, split_once, ℕ, suc, ◌+◌, ◌≤◌, ◌≡◌, refl, arith, true, false, none, some, List, [],
  ◌∷◌, Text, codes, text_eq, text_lt, length, rstrip,
}
use skyrecon.Rules.Operators.{has_prefix, has_suffix}
use skyrecon.IocParser.{
  IocType, domain, url, before, type_value, refang, is_safe_host, is_noise_domain, normalize,
  normalize_as, trimmed, strip_chars, lstrip_chars, rstrip_chars, validate, accepts,
}
use skyrecon.IocParser.Extract.{
  overlaps, same_key, put_found, claim, take_match, take_matches, take_types, search_all, key_lt,
  insert_sorted, sort_found, extract,
}
use skyrecon.IocParser.Tests.{lenient}
use skyrecon.Enrichment.Tests.{toy_analysis}
use skyrecon.Scoring.{round_even}
use skyrecon.Vault.{
  ok, b64e, kek, blind_index, open_sealed, open_text, open_encoded, open_parts, split_sealed,
  seal_text, decoded, aad, b64d,
}
use skyrecon.Vault.Toy.{toy, draws, toy-IsCrypto, draws_salted}
use skyrecon.Indicators.{
  resolved, Indicator, Sighting, Storage, Fresh, IocAudit, Stored, join_tags, insert_tag,
  merge_tags, find_by_index, split_tags, put_indicator, sighted_again, new_indicator, store_clean,
  upsert_indicator, ingest_all, bulk_ingest,
}
use skyrecon.Indicators.Reading.{Reader, adjusted_risk, reading_of, read_indicator}
use skyrecon.Indicators.Search.{notes_given, read_indicator-upsert_indicator}
use skyrecon.Indicators.Again.{upsert_indicator-again}
use skyrecon.Indicators.Live.{
  IndicatorSnapshot, Lookups, Taken, DeepEnrichment, Enriched, deep_enrich_indicator,
  deep_enrich_value, of_indicator, lookup, host_lookup, add_snapshot, snapshot_history, distinct_of,
  host_of_url, after_scheme,
}
use skyrecon.Indicators.Live.History.{Lists, deep_enrich_indicator-Lists}

abbrev storage : Storage
storage = record { library = lenient; crypto = toy; vault = record { master = 5 ∷ [] } }

abbrev fresh : ℕ → Fresh
fresh n = record { id = n ∷ []; value_draws = draws 1; notes_draws = draws 2; now = 1000 + n }

abbrev report : Sighting
report = record {
  value = codes "Evil.test";
  ioc_type = some domain;
  source = "osint";
  severity = "medium";
  confidence = 50;
  tags = codes "c2" ∷ codes "apt" ∷ codes "c2" ∷ [];
  tlp = "amber";
  notes = none;
}

abbrev clean : Text
clean = codes "evil.test"

abbrev stored : Stored
stored = store_clean storage (fresh 1) none report domain clean []

stored_runs :
    upsert_indicator storage (fresh 1) none report []
    ≡ some (stored.0, stored.1, stored.2, stored.3)
unfolding upsert_indicator store_clean text_eq rstrip normalize normalize_as trimmed strip_chars
    lstrip_chars rstrip_chars validate accepts is_noise_domain is_safe_host has_suffix refang
stored_runs = refl

-- Tags are sorted, and stand once.
tags_run : stored.0.tags ≡ codes "apt,c2"
unfolding store_clean find_by_index new_indicator join_tags merge_tags insert_tag text_lt text_eq
tags_run = refl

few : stored.0.confidence ≤ 100
unfolding store_clean find_by_index new_indicator
few = omega arith

bulk_runs :
    (bulk_ingest storage fresh none (codes "report") "osint" "low" [] stored.2).0
    ≡ record { created = codes "a@evil.com" ∷ []; reinforced = clean ∷ []; rejected = [] }
unfolding bulk_ingest ingest_all upsert_indicator store_clean find_by_index new_indicator text_eq
    blind_index rstrip b64e kek toy extract search_all take_types take_matches take_match overlaps
    claim put_found same_key sort_found insert_sorted key_lt text_lt type_value normalize
    normalize_as trimmed strip_chars lstrip_chars rstrip_chars validate accepts is_noise_domain
    is_safe_host has_suffix refang put_indicator sighted_again
bulk_runs = refl

upsert_indicator-again_example :
    (r' : Indicator) × (rows'' : List Indicator) × (call' : IocAudit) × (upsert_indicator storage
        (fresh 2)
        none
        report
        stored.2
      ≡ some (r', false, rows'', call'))
    × (r'.id ≡ stored.0.id)
    × (r'.hit_count ≡ suc stored.0.hit_count)
    × (r'.is_active ≡ true)
    × (stored.0.confidence ≤ r'.confidence)
    × (length rows'' ≡ length stored.2)
upsert_indicator-again_example =
    upsert_indicator-again storage (fresh 1) (fresh 2) none none report [] stored.2 stored.0
      stored.1 stored.3 stored_runs few

abbrev reader : Reader
reader = record {
  storage = storage;
  analysis = toy_analysis;
  half_power = λ base age half_life. base / (1 + age / 1000);
  half_life_days = 30;
  now = 3000;
}

abbrev noted : Sighting
noted = record report { notes = some (codes "seen twice") }

abbrev stored_noted : Stored
stored_noted = store_clean storage (fresh 1) none noted domain clean []

noted_runs :
    upsert_indicator storage (fresh 1) none noted []
    ≡ some (stored_noted.0, true, stored_noted.2, stored_noted.3)
unfolding upsert_indicator store_clean find_by_index text_eq rstrip normalize normalize_as trimmed
    strip_chars lstrip_chars rstrip_chars validate accepts is_noise_domain is_safe_host has_suffix
    refang
noted_runs = refl

read_indicator-upsert_indicator_example :
    (t : IocType) × (clean : Text) × (resolved lenient noted ≡ some t)
    × (clean ≡ normalize lenient (refang lenient noted.value) t)
    × (validate lenient clean t ≡ true)
    × (read_indicator reader true stored_noted.0
        ≡ ok (reading_of reader true stored_noted.0 (some clean) (notes_given noted.notes)))
read_indicator-upsert_indicator_example =
    read_indicator-upsert_indicator reader true (fresh 1) none noted [] stored_noted.2
      stored_noted.0 stored_noted.3 toy-IsCrypto (draws_salted 1) (draws_salted 2) noted_runs

abbrev asked : Sighting
asked = record report { ioc_type = none }

abbrev stored_asked : Stored
stored_asked = store_clean storage (fresh 1) none asked url (codes "Evil.test") []

-- A score of 60.0 with a modifier of 0.30.
raised_run : adjusted_risk 600 130 ≡ 663
unfolding adjusted_risk round_even
raised_run = refl

host_of_url_run : host_of_url (codes "https://a.test:81/x:y") ≡ codes "a.test"
unfolding host_of_url after_scheme before split_once has_prefix
host_of_url_run = refl

abbrev lookups : Lookups
lookups = record {
  rdap_ip = λ s. record { network_org = none; nameservers = []; is_empty = true };
  rdap_domain = λ s. record { network_org = none; nameservers = []; is_empty = true };
  dns_records = λ s. record {
    a = codes "9.9.9.9" ∷ [];
    aaaa = [];
    ns = codes "ns.test" ∷ [];
    is_empty = false;
  };
  cert_transparency = λ s. record { issuer = some (codes "CA"); serial = none; is_empty = false };
}

-- The day before, the host had another address.
abbrev yesterday : IndicatorSnapshot
yesterday = record {
  id = codes "s1";
  indicator_id = 1 ∷ [];
  taken_at = 900;
  resolved_ips = codes "8.8.8.8,9.9.9.9";
  nameservers = [];
  cert_issuer = none;
  cert_serial = none;
  network_org = none;
}

abbrev taken : Taken
taken = record { id = codes "s2"; now = 2000 }

abbrev looked_up : Enriched
looked_up =
    deep_enrich_value lookups lenient.lower taken none stored.0 (some clean) (yesterday ∷ [])

abbrev answer_of : Enriched → DeepEnrichment × IocAudit
answer_of (none, after) = (
  record {
    found = [];
    history = record {
      observations = 0;
      since = none;
      distinct_ips = [];
      distinct_nameservers = [];
      distinct_certs = [];
    };
  },
  record { action = ""; actor_id = none; target = [] },
)
answer_of (some answer, after) = answer

looked_up_ips :
    (answer_of looked_up).0.history.distinct_ips ≡ codes "8.8.8.8" ∷ codes "9.9.9.9" ∷ []
unfolding deep_enrich_value lookup host_lookup add_snapshot snapshot_history distinct_of merge_tags
    insert_tag split_tags join_tags text_eq text_lt store_clean find_by_index new_indicator
looked_up_ips = refl

looked_up_runs :
    deep_enrich_indicator storage lookups taken none stored.0 (yesterday ∷ [])
    ≡ ok (some (answer_of looked_up), looked_up.1)
unfolding deep_enrich_indicator deep_enrich_value store_clean find_by_index new_indicator
    open_sealed open_text open_encoded open_parts split_sealed split_once seal_text decoded aad b64e
    b64d kek rstrip toy draws text_eq
looked_up_runs = refl

deep_enrich_indicator-Lists_example :
    ((s : IndicatorSnapshot) → Among s (yesterday ∷ []) → Among s looked_up.1)
    × ((s : IndicatorSnapshot)
        → Among s looked_up.1
        → of_indicator stored.0.id s ≡ true
        → Lists (answer_of looked_up).0 s)
deep_enrich_indicator-Lists_example =
    deep_enrich_indicator-Lists storage lookups taken none stored.0 (yesterday ∷ []) looked_up.1
      (answer_of looked_up).0 (answer_of looked_up).1 looked_up_runs
