-- ===== src/Assessment/Headers/Tests.antt =====
-- The checks of one response that has a cookie and no header.
use skyrecon.Base.{◌≡◌, refl, true, false, none, some, [], ◌∷◌, map, codes, text_eq}
use skyrecon.Rules.Operators.{has_prefix, contains}
use skyrecon.Enrichment.{split_on}
use skyrecon.Assessment.{Net}
use skyrecon.Assessment.Headers.{
  Words, Evidence, named, cookie, HeaderFinding, header, missing_headers, directives, is_unframed,
  is_broad_script, flags_of, cookie_findings, policy_findings, findings_of, is_idn,
}

abbrev net : Net
net = record {
  urlsplit = λ s. none;
  idna = λ s. some s;
  lower = λ s. s;
  strip = λ s. s;
  fullmatch = λ p s. true;
  getaddrinfo = λ s. none;
  is_global = λ s. true;
  get = λ a h p. none;
}

abbrev plain : Words
plain = record {
  net = net;
  words = λ s. split_on 32 [] s;
  search = λ p s. false;
  str = λ n. codes "1";
}

abbrev bare : Evidence
bare = record {
  url = codes "https://a.test";
  status = 200;
  headers = (codes "content-security-policy", codes "script-src a.test *;img-src b.test") ∷ [];
  cookie_attributes = codes "secure;samesite=lax" ∷ codes "secure;samesite;httponly" ∷ [];
}

findings_run : map (λ (f : HeaderFinding). f.id) (findings_of plain (codes "a.test") bare) ≡ (
    named "hsts"
    ∷ named "nosniff"
    ∷ named "referrer"
    ∷ named "permissions"
    ∷ named "framing"
    ∷ named "csp-script"
    ∷ cookie 0
    ∷ [])
unfolding header missing_headers policy_findings directives is_unframed is_broad_script flags_of
    cookie_findings is_idn split_on text_eq has_prefix contains
findings_run = refl

cookie_run :
    map (λ (f : HeaderFinding). f.evidence) (cookie_findings plain 0 bare.cookie_attributes)
    ≡ codes "Cookie #1: missing httponly" ∷ []
unfolding flags_of cookie_findings split_on text_eq
cookie_run = refl
