-- ===== src/Assessment/Headers.antt =====
-- The checks of one response: `assess` of app/assessment.py, and what `collect` keeps of a response.
--
-- `str.split()`, `str` and regular expressions are the library's. The constant texts of the report, its time and
-- the hash of the evidence are left out.
pub mod Reported
mod Tests
use skyrecon.Base.{
  ℕ, suc, ◌+◌, String, Bool, true, false, not, ◌&&◌, ◌||◌, Option, none, some, List, [], ◌∷◌, ◌++◌,
  map, Text, codes, text_eq, ltb, leb, any, keep, length, if◌then◌else◌,
}
use skyrecon.Rules.Operators.{contains, has_prefix}
use skyrecon.IocParser.{Pattern, re_i, is_text}
use skyrecon.Enrichment.{split_on}
use skyrecon.Assessment.{Net, Response, target_url}

pub record Evidence : Type 0 where
  pub url : Text
  pub status : ℕ
  pub headers : List (Text × Text)
  pub cookie_attributes : List Text

pub data Severity : Type 0 where
  info low medium : Severity

-- The id of a finding; that of a cookie has its number.
pub data Code : Type 0 where
  named : String → Code
  cookie : ℕ → Code

pub record HeaderFinding : Type 0 where
  pub id : Code
  pub severity : Severity
  pub title : Text
  pub evidence : Text

pub record HeaderReport : Type 0 where
  pub target : Text
  pub incomplete_response : Bool
  pub findings : List HeaderFinding

pub record Words : Type 0 where
  pub net : Net
  pub words : Text → List Text
  pub search : Pattern → Text → Bool
  pub str : ℕ → Text

-- The value that a dict has for a key that was set more than once is the last.
abbrev pub last_value : {A : Type 0} → Text → List (Text × A) → Option A
last_value k [] = none
last_value k ((j, v) ∷ entries) = elim (last_value k entries) [
  | some w ↦ some w
  | none ↦ if text_eq j k then some v else none
]

abbrev pub value_or : {A : Type 0} → A → Option A → A
value_or a none = a
value_or a (some b) = b

abbrev pub is_set : {A : Type 0} → Option A → Bool
is_set none = false
is_set (some a) = true

-- The code and the header of the five checks.
abbrev pub header_checks : List (String × String)
header_checks =
    ("hsts", "strict-transport-security")
    ∷ ("csp", "content-security-policy")
    ∷ ("nosniff", "x-content-type-options")
    ∷ ("referrer", "referrer-policy")
    ∷ ("permissions", "permissions-policy")
    ∷ []

abbrev pub semicolon : ℕ
semicolon = 59

abbrev pub finding : String → Severity → String → String → HeaderFinding
finding code severity title evidence = record {
  id = named code;
  severity = severity;
  title = codes title;
  evidence = codes evidence;
}

abbrev pub missing_header : String → String → HeaderFinding
missing_header code name = record {
  id = named code;
  severity = low;
  title = codes "Missing " ++ codes name;
  evidence = codes "Not present in supplied response headers";
}

abbrev pub found_if : Bool → HeaderFinding → List HeaderFinding
found_if b f = if b then f ∷ [] else []

abbrev pub hsts_pattern : Pattern
hsts_pattern = re_i "(?:^|;)\\s*max-age\\s*=\\s*[1-9][0-9]*\\s*(?:;|$)"

abbrev pub join_attributes : List Text → Text
join_attributes [] = []
join_attributes (s ∷ []) = s
join_attributes (s ∷ t ∷ ss) = s ++ semicolon ∷ join_attributes (t ∷ ss)

-- `', '.join`
abbrev pub join_flags : String → List String → Text
join_flags f [] = codes f
join_flags f (g ∷ fs) = codes f ++ codes ", " ++ join_flags g fs

abbrev pub tail_of : List Text → List Text
tail_of [] = []
tail_of (s ∷ ss) = ss

abbrev pub head_of : List Text → Text
head_of [] = []
head_of (s ∷ ss) = s

module _ (ws : Words) where
  abbrev pub low_case : Text → Text
  low_case = ws.net.lower

  -- What `collect` returns of a response.
  unfoldable pub evidence_of : Text → Response → Evidence
  evidence_of url r =
      let is_cookie : Text × Text → Bool = λ h. text_eq (low_case h.0) (codes "set-cookie") in
      record {
        url = url;
        status = r.status;
        headers =
            map (λ (h : Text × Text). (low_case h.0, h.1))
              (keep (λ h. not (is_cookie h)) r.headers);
        cookie_attributes =
            map (λ (h : Text × Text). join_attributes (tail_of (split_on semicolon [] h.1)))
              (keep is_cookie r.headers);
      }

  unfoldable pub header : String → Evidence → Option Text
  header name e = last_value (codes name) (map (λ (h : Text × Text). (low_case h.0, h.1)) e.headers)

  unfoldable pub missing_headers : List (String × String) → Evidence → List HeaderFinding
  missing_headers [] e = []
  missing_headers ((code, name) ∷ checks) e =
      found_if (not (is_set (header name e))) (missing_header code name) ++ missing_headers checks e

  unfoldable pub directives : Text → List (Text × List Text)
  directives csp =
      map
        (λ (part : Text). (
          low_case (head_of (ws.words (ws.net.strip part))),
          tail_of (ws.words (ws.net.strip part)),
        ))
        (keep (λ part. is_text (ws.net.strip part)) (split_on semicolon [] csp))

  abbrev pub has_word : String → List Text → Bool
  has_word w ts = any (λ t. text_eq t (codes w)) ts

  unfoldable pub is_unframed : Evidence → Bool
  is_unframed e =
      let ds = directives (value_or [] (header "content-security-policy" e)) in
      let frame = low_case (value_or [] (header "x-frame-options" e)) in
      not (is_set (last_value (codes "frame-ancestors") ds))
      && not (text_eq frame (codes "deny") || text_eq frame (codes "sameorigin"))

  unfoldable pub is_broad_script : Evidence → Bool
  is_broad_script e =
      let ds = directives (value_or [] (header "content-security-policy" e)) in
      let sources =
        value_or (value_or [] (last_value (codes "default-src") ds))
          (last_value (codes "script-src") ds) in
      has_word "'unsafe-eval'" sources || has_word "*" sources

  abbrev pub is_bad_nosniff : Option Text → Bool
  is_bad_nosniff none = false
  is_bad_nosniff (some v) = not (text_eq (ws.net.strip (low_case v)) (codes "nosniff"))

  abbrev pub is_bad_hsts : Text → Bool
  is_bad_hsts hsts = is_text hsts && not (ws.search hsts_pattern hsts)

  unfoldable pub flags_of : Text → List Text
  flags_of attrs =
      map (λ (x : Text). low_case (head_of (split_on 61 [] (ws.net.strip x))))
        (split_on semicolon [] attrs)

  -- In the order of `sorted`.
  abbrev pub cookie_flags : List String
  cookie_flags = "httponly" ∷ "samesite" ∷ "secure" ∷ []

  abbrev pub missing_flags : Text → List String
  missing_flags attrs = keep (λ f. not (has_word f (flags_of attrs))) cookie_flags

  -- The cookie of index `n`, whose missing flags are a first one and others.
  abbrev pub cookie_finding : ℕ → String → List String → HeaderFinding
  cookie_finding n f fs = record {
    id = cookie n;
    severity = low;
    title = codes "Cookie attributes require review";
    evidence = codes "Cookie #" ++ ws.str (n + 1) ++ codes ": missing " ++ join_flags f fs;
  }

  unfoldable pub cookie_findings : ℕ → List Text → List HeaderFinding
  cookie_findings n [] = []
  cookie_findings n (attrs ∷ rest) = elim (missing_flags attrs) [
    | [] ↦ cookie_findings (n + 1) rest
    | f ∷ fs ↦ cookie_finding n f fs ∷ cookie_findings (n + 1) rest
  ]

  unfoldable pub is_idn : Text → Bool
  is_idn host = has_prefix host (codes "xn--") || contains host (codes ".xn--")

  -- The findings of the checks after the first five.
  unfoldable pub policy_findings : Text → Evidence → List HeaderFinding
  policy_findings host e =
      found_if (is_bad_nosniff (header "x-content-type-options" e))
        (finding "nosniff-value" low "Invalid nosniff policy" "Header value is not nosniff")
      ++ found_if (is_unframed e) (
          finding "framing" medium "No observed framing restriction"
            "Neither CSP frame-ancestors nor valid X-Frame-Options")
      ++ found_if (is_broad_script e) (
          finding "csp-script" medium "Broad script policy"
            "Wildcard or unsafe-eval in script policy")
      ++ found_if (is_bad_hsts (value_or [] (header "strict-transport-security" e))) (
          finding "hsts-age" low "HSTS not enabled with a positive duration"
            "No positive max-age directive")
      ++ found_if (is_set (header "server" e) || is_set (header "x-powered-by" e)) (
          finding "banner" info "Technology banner exposed" "Server or X-Powered-By header present")
      ++ found_if (text_eq (value_or [] (header "access-control-allow-origin" e)) (codes "*")) (
          finding "cors" info "Public cross-origin access"
            "Access-Control-Allow-Origin is wildcard")
      ++ cookie_findings 0 e.cookie_attributes
      ++ found_if (is_idn host) (record {
        id = named "idn";
        severity = info;
        title = codes "Internationalized domain";
        evidence = host;
      })

  abbrev pub findings_of : Text → Evidence → List HeaderFinding
  findings_of host e = missing_headers header_checks e ++ policy_findings host e

  -- A ValueError is `none`.
  unfoldable pub assess : Evidence → Option HeaderReport
  assess e = elim (target_url ws.net e.url) [
    | none ↦ none
    | some (host, path) ↦ some (record {
      target = host;
      incomplete_response = ltb e.status 200 || leb 300 e.status;
      findings = findings_of host e;
    })
  ]
