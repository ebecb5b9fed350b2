-- ===== src/Assessment/Native.antt =====
-- The import of ZAP and Trivy reports: app/native_reports.py.
--
-- Each exception is `none`, as its handler turns all of them into the 422. `str`, `str.lower` and the
-- hashes of JSON texts are the library's.
pub mod Unique
use skyrecon.Base.{
  ℕ, ◌+◌, ◌-◌, String, Bool, true, false, not, ◌&&◌, Option, none, some, List, [], ◌∷◌, ◌++◌, Text,
  codes, text_eq, ltb, leb, any, length, if◌then◌else◌,
}
use skyrecon.IocParser.{is_text}
use skyrecon.Assessment.Sarif.{
  Json, null, number, string, bind, field, get, truthy, as_list, empty_array,
}

pub record Hashes : Type 0 where
  pub str : Json → Text
  pub lower : Text → Text
  pub is_two : Json → Bool
  pub sha256_json : Json → Text

pub data Format : Type 0 where
  zap trivy other : Format

-- What only the findings of one tool have.
pub data Details : Type 0 where
  zap_details : Text → ℕ → List Text → Details
  trivy_details : Text → Text → Text → Details

pub record Observation : Type 0 where
  pub title : Text
  pub rule_id : Text
  pub severity : Text
  pub target : Text
  pub evidence : Text
  pub remediation : Text
  pub details : Details

pub record NativeFinding : Type 0 where
  pub id : Text
  pub observation : Observation

pub record NativeReport : Type 0 where
  pub version : Text
  pub evidence_sha256 : Text
  pub input_results : ℕ
  pub unique_findings : ℕ
  pub duplicates_removed : ℕ
  pub omitted_records : ℕ
  pub findings : List NativeFinding

-- `text(value, limit)` and `items(value, limit)`
abbrev pub text : ℕ → Json → Option Text
text limit (string s) = if leb (length s) limit then some s else none
text limit _ = none

abbrev pub items : ℕ → Json → Option (List Json)
items limit v = bind (as_list v) λ xs. if leb (length xs) limit then some xs else none

-- `value or default`
abbrev pub or_else : Json → Json → Json
or_else v default = if truthy v then v else default

abbrev pub word : String → Json
word s = string (codes s)

unfoldable pub all_of : {A : Type 0} → (Json → Option A) → List Json → Option (List A)
all_of f [] = some []
all_of f (x ∷ xs) = bind (f x) λ a. bind (all_of f xs) λ rest. some (a ∷ rest)

unfoldable pub flatten : {A : Type 0} → List (List A) → List A
flatten [] = []
flatten (xs ∷ rest) = xs ++ flatten rest

abbrev pub risk_name : Text → Option Text
risk_name risk =
    if text_eq risk (codes "0")
    then some (codes "info")
    else if text_eq risk (codes "1")
    then some (codes "low")
    else if text_eq risk (codes "2")
    then some (codes "medium")
    else if text_eq risk (codes "3")
    then some (codes "high")
    else none

abbrev pub trivy_severities : List Text
trivy_severities =
    codes "unknown" ∷ codes "low" ∷ codes "medium" ∷ codes "high" ∷ codes "critical" ∷ []

abbrev pub trivy_remediation : Text → Text
trivy_remediation [] = codes "No fixed version supplied; review upstream guidance."
trivy_remediation (c ∷ s) =
    codes "Review upstream fix " ++ (c ∷ s) ++ codes " and compatibility before upgrading."

module _ (hs : Hashes) where
  unfoldable pub zap_alert : Text → Json → Option Observation
  zap_alert target alert =
      bind (bind (field "riskcode" alert) λ code. risk_name (hs.str code)) λ severity.
        bind (bind (get "instances" empty_array alert) (items 1000)) λ instances.
          bind (bind (field "alert" alert) (text 300)) λ title.
            bind (bind (field "pluginid" alert) λ id. text 200 (string (hs.str id))) λ rule_id.
              bind
                (bind (get "confidence" (word "unspecified") alert)
                  λ c. text 50 (string (hs.str c)))
                λ confidence.
                  bind (bind (get "desc" (word "No description supplied") alert) (text 4096))
                    λ evidence.
                      bind
                        (bind (get "solution" (word "Review original ZAP guidance") alert)
                          (text 4096))
                        λ remediation.
                          bind (all_of (λ i. bind (field "uri" i) (text 2048)) instances)
                            λ locations. some (record {
                              title = title;
                              rule_id = rule_id;
                              severity = severity;
                              target = target;
                              evidence = evidence;
                              remediation = remediation;
                              details = zap_details confidence (length instances) locations;
                            })

  unfoldable pub zap_site : Json → Option (List Observation)
  zap_site site = bind (bind (field "@name" site) (text 2048)) λ target.
      bind (bind (field "alerts" site) (items 1000)) λ alerts. all_of (zap_alert target) alerts

  unfoldable pub trivy_vuln : Text → Json → Option Observation
  trivy_vuln target vuln = bind (bind (field "Severity" vuln) (text 20)) λ given.
      bind (bind (field "VulnerabilityID" vuln) (text 200)) λ identifier.
        bind (bind (get "FixedVersion" (word "") vuln) (text 200)) λ fixed.
          bind (bind (get "Title" null vuln) λ t. text 300 (or_else t (string identifier))) λ title.
            bind (bind (field "PkgName" vuln) (text 200)) λ package_name.
              bind (bind (field "InstalledVersion" vuln) (text 200)) λ installed.
                bind
                  (bind (get "Description" null vuln)
                    λ d. text 4096 (or_else d (word "Package advisory reported by Trivy")))
                  λ evidence.
                    let severity = hs.lower given in
                    let made : Observation = record {
                      title = title;
                      rule_id = identifier;
                      severity = severity;
                      target = target;
                      evidence = evidence;
                      remediation = trivy_remediation fixed;
                      details = trivy_details package_name installed fixed;
                    } in
                    if any (λ s. text_eq s severity) trivy_severities then some made else none

  abbrev pub length_of : String → Json → Option ℕ
  length_of key result =
      bind (get key null result)
        λ v. bind (items 1000 (or_else v empty_array)) λ xs. some (length xs)

  -- The omitted records of a result, and its findings.
  unfoldable pub trivy_result : Json → Option (ℕ × List Observation)
  trivy_result result = bind (bind (field "Target" result) (text 2048)) λ target.
      bind (length_of "Misconfigurations" result) λ a. bind (length_of "Secrets" result) λ b.
        bind (length_of "Licenses" result) λ c.
          bind (bind (get "Vulnerabilities" null result) λ v. items 1000 (or_else v empty_array))
            λ vulns. bind (all_of (trivy_vuln target) vulns) λ found. some (a + b + c, found)

  abbrev pub omitted_in : List (ℕ × List Observation) → ℕ
  omitted_in [] = 0
  omitted_in ((n, found) ∷ rest) = n + omitted_in rest

  abbrev pub found_in : List (ℕ × List Observation) → List Observation
  found_in [] = []
  found_in ((n, found) ∷ rest) = found ++ found_in rest

  -- The version, the omitted records and the findings.
  unfoldable pub read_native : Format → Json → Option (Text × ℕ × List Observation)
  read_native zap document = bind (bind (field "@version" document) (text 200)) λ version.
      bind (bind (field "site" document) (items 100))
        λ sites. bind (all_of zap_site sites) λ found. some (version, 0, flatten found)
  read_native trivy document = bind (get "SchemaVersion" null document) λ schema.
      let read = bind (bind (field "Results" document) (items 100)) λ results.
        bind (all_of trivy_result results)
          λ found. some (codes "unspecified", omitted_in found, found_in found) in
      if hs.is_two schema then read else none
  read_native other document = none

  -- `unique[fingerprint] = ...`
  unfoldable pub put_unique : NativeFinding → List NativeFinding → List NativeFinding
  put_unique f [] = f ∷ []
  put_unique f (g ∷ gs) = if text_eq g.id f.id then f ∷ gs else g ∷ put_unique f gs

  unfoldable pub unique_of :
      (Observation → Text) → List Observation → List NativeFinding → List NativeFinding
  unique_of fingerprint [] unique = unique
  unique_of fingerprint (o ∷ os) unique =
      unique_of fingerprint os (put_unique (record { id = fingerprint o; observation = o }) unique)

  -- `normalize`
  unfoldable pub normalize_native : (Observation → Text) → Format → Json → Option NativeReport
  normalize_native fingerprint kind document =
      bind (read_native kind document) λ (version, omitted, found).
        let unique = unique_of fingerprint found [] in
        let report : NativeReport = record {
          version = version;
          evidence_sha256 = hs.sha256_json document;
          input_results = length found;
          unique_findings = length unique;
          duplicates_removed = length found - length unique;
          omitted_records = omitted;
          findings = unique;
        } in
        if ltb 1000 (length found) then none else some report
