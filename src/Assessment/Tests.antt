-- ===== src/Assessment/Tests.antt =====
-- A scan of one host, a report of one tool, and a number that is listed.
use skyrecon.Base.{
  String, ◌+◌, ◌≤◌, ◌≡◌, refl, true, false, none, some, [], ◌∷◌, Text, codes, text_eq, text_lt, All,
  length,
}
use skyrecon.Rules.Operators.{has_prefix}
use skyrecon.Indicators.{merge_tags, insert_tag, split_tags}
use skyrecon.Assessment.{
  Net, audited, resolved, connected, acceptable, target_url, allowed_hosts, collect, scan,
}
use skyrecon.Assessment.Scans.{Permitted, StartsAudited, scan-Permitted}
use skyrecon.Assessment.Sarif.{
  Members, Json, string, array, object, stop, item, done, member, Printer, Fingerprint, Report,
  Finding, field, get, is_seen, read_location, read_locations, read_result, add_finding,
  read_results, add_source, read_run, read_runs, report_of, normalize_sarif,
}
use skyrecon.Assessment.Sarif.Counts.{DistinctIds, normalize_sarif-Counted}
use skyrecon.Assessment.Phones.{
  Phones, india, Listing, PhoneReply, phone_pattern, without_marks, region_of, is_recent, stamped,
  dated, attributed, listing_for, phone_lookup,
}
use skyrecon.Assessment.Phones.Owners.{Vouched, Listed, phone_lookup-Vouched}

abbrev host : Text
host = codes "a.test"

-- Every URL is that of the host, which has two addresses.
abbrev net : Net
net = record {
  urlsplit = λ s. some (record {
    scheme = codes "https";
    hostname = some host;
    username = none;
    password = none;
    port = some none;
    fragment = [];
    query = [];
    path = [];
  });
  idna = λ s. some s;
  lower = λ s. s;
  strip = λ s. s;
  fullmatch = λ p s. true;
  getaddrinfo = λ s. some (codes "9.9.9.9" ∷ codes "8.8.8.8" ∷ []);
  is_global = λ s. true;
  get = λ a h p. some (record { status = 200; headers = [] });
}

scan_runs :
    scan net
      (λ r. some r.status)
      (allowed_hosts net (codes "b.test,a.test"))
      (codes "https://a.test")
    ≡ (
      audited "assessment.scan.request"
          ∷ resolved host
          ∷ connected (codes "8.8.8.8") host
          ∷ audited "assessment.scan.complete"
          ∷ [],
      some 200,
    )
unfolding scan collect target_url acceptable allowed_hosts split_tags merge_tags insert_tag text_eq
    text_lt
scan_runs = refl

-- A host that is not on the list is neither resolved nor contacted.
refused_runs :
    scan net (λ r. some r.status) (codes "b.test" ∷ []) (codes "https://a.test")
    ≡ (audited "assessment.scan.request" ∷ audited "assessment.scan.failed" ∷ [], none)
unfolding scan collect target_url acceptable text_eq
refused_runs = refl

scan-Permitted_example :
    StartsAudited (scan net (λ r. some r.status) (host ∷ []) (codes "https://a.test")).0
    × All
        (Permitted net (host ∷ []) (codes "https://a.test"))
        (scan net (λ r. some r.status) (host ∷ []) (codes "https://a.test")).0
scan-Permitted_example =
    scan-Permitted net (λ r. some r.status) (host ∷ []) (codes "https://a.test")

abbrev printer : Printer
printer = record { str = λ v. codes "str"; strip = λ s. s; sha256_json = λ v. codes "digest" }

abbrev by_message : Fingerprint
by_message tool rule message locations = message

abbrev entry : String → Json → Members → Members
entry k v ms = member (codes k) v ms

abbrev result : String → Json
result text = object (entry "message" (object (entry "text" (string (codes text)) done)) done)

-- Two results of the three are the same.
abbrev document : Json
document = object (
    entry "version" (string (codes "2.1.0")) (
      entry "runs"
        (array (
          item
            (object (
              entry "tool"
                (object (entry "driver" (object (entry "name" (string (codes "tool")) done)) done))
                (entry "results"
                  (array (item (result "a") (item (result "b") (item (result "a") stop)))) done)))
            stop))
        done))

abbrev found : Text → Finding
found message = record {
  id = message;
  tool = codes "tool";
  rule = codes "str";
  level = codes "warning";
  evidence = message;
  locations = [];
  suppressed_in_source = false;
}

abbrev imported : Report
imported = record {
  source = record { name = codes "tool"; version = codes "str" } ∷ [];
  evidence_sha256 = codes "digest";
  input_results = 3;
  unique_findings = 2;
  duplicates_removed = 1;
  findings = found (codes "a") ∷ found (codes "b") ∷ [];
}

import_runs : normalize_sarif printer by_message document ≡ some imported
unfolding normalize_sarif read_runs read_run add_source read_results add_finding is_seen read_result
    read_locations read_location get field report_of text_eq
import_runs = refl

normalize_sarif-Counted_example :
    (imported.input_results ≡ imported.unique_findings + imported.duplicates_removed)
    × (imported.input_results ≤ 1000)
    × (imported.unique_findings ≡ length imported.findings)
    × DistinctIds imported.findings
normalize_sarif-Counted_example =
    normalize_sarif-Counted printer by_message document imported import_runs

abbrev business : Json
business = object (
    entry "kind" (string (codes "public_business")) (
      entry "name" (string (codes "Shop")) (
        entry "source_url" (string (codes "https://s.test"))
          (entry "verified_at" (string (codes "then")) done))))

abbrev phones : Phones
phones = record {
  net = net;
  directory =
      some (record { size = 100; contents = some (object (entry "+911234567" business done)) });
  fromisoformat = λ at. some (record { aware = true; seconds = 1000 });
  now = 5000;
}

abbrev listing : Listing
listing = record {
  owner = string (codes "Shop");
  source = codes "https://s.test";
  verified_at = string (codes "then");
}

abbrev reply : PhoneReply
reply = record { number = codes "+911234567"; numbering_region = india; listing = some listing }

phone_runs : phone_lookup phones (codes "+91 (123) 45-67") ≡ some reply
unfolding phone_lookup without_marks region_of listing_for attributed dated stamped is_recent get
    has_prefix text_eq
phone_runs = refl

phone_lookup-Vouched_example :
    (phones.net.fullmatch phone_pattern reply.number ≡ true)
    × Vouched phones listing
    × Listed phones reply.number listing
phone_lookup-Vouched_example =
    phone_lookup-Vouched phones (codes "+91 (123) 45-67") reply listing phone_runs refl
