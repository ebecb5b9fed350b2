-- ===== src/Assessment/Sarif.antt =====
-- The import of tool reports: app/sarif_import.py, and its handler in app/routers/assessment.py.
--
-- The handler turns each of the exceptions of the import into the 422, so that here all of them are
-- `none`. `str`, `str.strip` and the hash of a JSON text are the library's.
pub mod Counts
use skyrecon.Base.{
  ℕ, suc, ◌+◌, ◌-◌, String, Bool, true, false, not, ◌&&◌, ◌||◌, Option, none, some, List, [], ◌∷◌,
  ◌++◌, Text, codes, text_eq, ltb, leb, any, take, length, if◌then◌else◌,
}
use skyrecon.IocParser.{is_text}

-- What `json.loads` returns, a number by whether it is zero and its text; the keys of an object are
-- distinct.
mutual
  pub data Json : Type 0 where
    null : Json
    bool : Bool → Json
    number : Bool → Text → Json
    string : Text → Json
    array : Items → Json
    object : Members → Json

  pub data Items : Type 0 where
    stop : Items
    item : Json → Items → Items

  pub data Members : Type 0 where
    done : Members
    member : Text → Json → Members → Members

pub record Printer : Type 0 where
  pub str : Json → Text
  pub strip : Text → Text
  pub sha256_json : Json → Text

abbrev pub items_list : Items → List Json
items_list stop = []
items_list (item x xs) = x ∷ items_list xs

abbrev pub find_member : Text → Members → Option Json
find_member k done = none
find_member k (member j v ms) = if text_eq j k then some v else find_member k ms

abbrev pub bind : {A B : Type 0} → Option A → (A → Option B) → Option B
bind none f = none
bind (some a) f = f a

-- `d[k]` and `d.get(k, default)`
unfoldable pub field : String → Json → Option Json
field k (object ms) = find_member (codes k) ms
field k _ = none

abbrev pub or_default : Json → Option Json → Json
or_default v none = v
or_default v (some w) = w

unfoldable pub get : String → Json → Json → Option Json
get k default (object ms) = some (or_default default (find_member (codes k) ms))
get k default _ = none

abbrev pub truthy : Json → Bool
truthy null = false
truthy (bool b) = b
truthy (number zero s) = not zero
truthy (string s) = is_text s
truthy (array stop) = false
truthy (array (item x xs)) = true
truthy (object done) = false
truthy (object (member k v ms)) = true

abbrev pub as_list : Json → Option (List Json)
as_list (array xs) = some (items_list xs)
as_list _ = none

abbrev pub empty_array : Json
empty_array = array stop

abbrev pub empty_object : Json
empty_object = object done

-- `value[:10]`, as what a loop over it finds: the characters of a text are texts.
abbrev pub first_ten : Json → Option (List Json)
first_ten (array xs) = some (take 10 (items_list xs))
first_ten (string []) = some []
first_ten (string (c ∷ s)) = some (string (c ∷ []) ∷ [])
first_ten _ = none

pub record Location : Type 0 where
  pub uri : Text
  pub line : Json

pub record Finding : Type 0 where
  pub id : Text
  pub tool : Text
  pub rule : Text
  pub level : Text
  pub evidence : Text
  pub locations : List Location
  pub suppressed_in_source : Bool

pub record Source : Type 0 where
  pub name : Text
  pub version : Text

-- `sources`, `findings` and `count`; the ids of the findings are `seen`.
pub record Progress : Type 0 where
  pub sources : List Source
  pub findings : List Finding
  pub count : ℕ

pub record Report : Type 0 where
  pub source : List Source
  pub evidence_sha256 : Text
  pub input_results : ℕ
  pub unique_findings : ℕ
  pub duplicates_removed : ℕ
  pub findings : List Finding

-- The entry of the log about an import.
pub record ImportAudit : Type 0 where
  pub action : String
  pub actor_id : Text
  pub digest : Text
  pub input_results : ℕ
  pub unique_findings : ℕ
  pub duplicates_removed : ℕ

abbrev pub levels : List Text
levels = codes "none" ∷ codes "note" ∷ codes "warning" ∷ codes "error" ∷ []

-- A text that `strip` leaves something of, of at most so many characters.
abbrev pub plain_text : Printer → ℕ → Json → Option Text
plain_text pr limit (string s) =
    if is_text (pr.strip s) && leb (length s) limit then some s else none
plain_text pr limit _ = none

abbrev pub known_level : Json → Option Text
known_level (string s) = if any (λ l. text_eq l s) levels then some s else none
known_level _ = none

unfoldable pub is_seen : Text → List Finding → Bool
is_seen id findings = any (λ (f : Finding). text_eq f.id id) findings

-- `hashlib.sha256` of the signature.
abbrev pub Fingerprint : Type 0
Fingerprint = Text → Text → Text → List Location → Text

module _ (pr : Printer) (fingerprint : Fingerprint) where
  unfoldable pub read_location : Json → Option Location
  read_location loc = bind (get "physicalLocation" empty_object loc) λ physical.
      bind (get "artifactLocation" empty_object physical) λ artifact.
        bind (get "uri" (string (codes "unspecified")) artifact) λ uri.
          bind (get "region" empty_object physical) λ region.
            bind (get "startLine" null region)
              λ line. some (record { uri = take 2048 (pr.str uri); line = line })

  unfoldable pub read_locations : List Json → Option (List Location)
  read_locations [] = some []
  read_locations (loc ∷ locs) =
      bind (read_location loc) λ l. bind (read_locations locs) λ ls. some (l ∷ ls)

  unfoldable pub read_result : Text → Json → Option Finding
  read_result name result = bind (bind (field "message" result) (get "text" null)) λ text.
      bind (plain_text pr 4096 text) λ message.
        bind (get "ruleId" (string (codes "unspecified")) result) λ rule_id.
          bind (bind (get "level" (string (codes "warning")) result) known_level) λ level.
            bind (bind (bind (get "locations" empty_array result) first_ten) read_locations)
              λ locations. bind (get "suppressions" null result) λ suppressions.
                let rule = take 200 (pr.str rule_id) in
                some (record {
                  id = fingerprint name rule message locations;
                  tool = name;
                  rule = rule;
                  level = level;
                  evidence = message;
                  locations = locations;
                  suppressed_in_source = truthy suppressions;
                })

  unfoldable pub add_finding : Finding → Progress → Progress
  add_finding f st =
      if is_seen f.id st.findings then st else record st { findings = st.findings ++ f ∷ [] }

  unfoldable pub read_results : Text → List Json → Progress → Option Progress
  read_results name [] st = some st
  read_results name (result ∷ results) st =
      bind (read_result name result) λ f. read_results name results (add_finding f st)

  unfoldable pub add_source : Text → Json → ℕ → Progress → Progress
  add_source name version n st = record st {
    sources = st.sources ++ record { name = name; version = take 100 (pr.str version) } ∷ [];
    count = st.count + n;
  }

  unfoldable pub read_run : Json → Progress → Option Progress
  read_run run st = bind (get "externalPropertyFileReferences" null run) λ external.
      bind (bind (field "tool" run) (field "driver")) λ driver.
        bind (bind (field "name" driver) (plain_text pr 200)) λ name.
          bind (get "version" (string (codes "unspecified")) driver) λ version.
            bind (bind (get "results" empty_array run) as_list) λ results.
              let st' = add_source name version (length results) st in
              let read = read_results name results st' in
              if truthy external || ltb 1000 st'.count then none else read

  unfoldable pub read_runs : List Json → Progress → Option Progress
  read_runs [] st = some st
  read_runs (run ∷ runs) st = bind (read_run run st) (read_runs runs)

  unfoldable pub report_of : Json → Progress → Report
  report_of document st = record {
    source = st.sources;
    evidence_sha256 = pr.sha256_json document;
    input_results = st.count;
    unique_findings = length st.findings;
    duplicates_removed = st.count - length st.findings;
    findings = st.findings;
  }

  abbrev pub is_sarif : Json → Bool
  is_sarif (string s) = text_eq s (codes "2.1.0")
  is_sarif _ = false

  -- `normalize`
  unfoldable pub normalize_sarif : Json → Option Report
  normalize_sarif document = bind (get "version" null document) λ version.
      bind (bind (get "runs" null document) as_list) λ runs.
        let read = read_runs runs (record { sources = []; findings = []; count = 0 }) in
        let report = bind read λ st. some (report_of document st) in
        if is_sarif version && leb 1 (length runs) && leb (length runs) 20 then report else none

  -- A refusal is the 422, and is not audited.
  unfoldable pub import_report : Text → Json → Option (Report × ImportAudit)
  import_report user_id document = bind (normalize_sarif document) λ report. some (
    report,
    record {
      action = "assessment.sarif";
      actor_id = user_id;
      digest = report.evidence_sha256;
      input_results = report.input_results;
      unique_findings = report.unique_findings;
      duplicates_removed = report.duplicates_removed;
    },
  )
