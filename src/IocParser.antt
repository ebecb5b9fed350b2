-- ===== src/IocParser.antt =====
-- The extraction and validation of indicators: app/ioc/parser.py.
--
-- Regular expressions, `ipaddress` and the Unicode methods of `str` are the library's, `Library`; the
-- patterns themselves are the source's.
pub mod Extract
pub mod Spans
pub mod Extraction
pub mod Order
pub mod Defanged
pub mod Noise
pub mod Observable
pub mod Tests
use skyrecon.Base.{
  ℕ, ◌+◌, String, Bool, true, false, not, ◌&&◌, ◌||◌, Option, none, some, List, [], ◌∷◌, ◌++◌, Text,
  codes, text_eq, text_lt, split_once, rstrip, leb, ◌==◌, any, if◌then◌else◌,
}
use skyrecon.Rules.Operators.{has_suffix, has_prefix}

pub data IocType : Type 0 where
  ipv4 ipv6 domain url email md5 sha1 sha256 cve : IocType

-- `IOCType.value`
unfoldable pub type_value : IocType → Text
type_value ipv4 = codes "ipv4"
type_value ipv6 = codes "ipv6"
type_value domain = codes "domain"
type_value url = codes "url"
type_value email = codes "email"
type_value md5 = codes "md5"
type_value sha1 = codes "sha1"
type_value sha256 = codes "sha256"
type_value cve = codes "cve"

-- `re.compile(pattern)`, with or without `re.I`.
pub record Pattern : Type 0 where
  pub pattern : String
  pub ignore_case : Bool

pub record Match : Type 0 where
  pub start : ℕ
  pub end : ℕ
  pub group : Text

-- What `ipaddress.ip_address` returns, and its `str`.
pub record Address : Type 0 where
  pub is_private : Bool
  pub is_loopback : Bool
  pub is_link_local : Bool
  pub is_multicast : Bool
  pub is_reserved : Bool
  pub is_unspecified : Bool
  pub is_global : Bool
  pub version : ℕ
  pub reverse_pointer : Text
  pub printed : Text

-- `str.lower`, `str.upper` and `str.strip`; `finditer`, `fullmatch`, `sub` (pattern, replacement,
-- text) and the three groups of `re.match`; `ipaddress.ip_address`, a ValueError as `none`.
pub record Library : Type 0 where
  pub lower : Text → Text
  pub upper : Text → Text
  pub strip : Text → Text
  pub finditer : Pattern → Text → List Match
  pub fullmatch : Pattern → Text → Bool
  pub sub : Pattern → Text → Text → Text
  pub match_groups : Pattern → Text → Option (Text × Text × Text)
  pub ip_address : Text → Option Address

abbrev pub re_i : String → Pattern
re_i p = record { pattern = p; ignore_case = true }

-- `_DEFANG`
abbrev pub defang_rules : List (Pattern × Text)
defang_rules =
    (re_i "\\[\\.\\]|\\(\\.\\)|\\{\\.\\}", codes ".")
    ∷ (re_i "\\[:\\]|\\(:\\)", codes ":")
    ∷ (re_i "\\bhxxps\\b", codes "https")
    ∷ (re_i "\\bhxxp\\b", codes "http")
    ∷ (re_i "\\[at\\]|\\(at\\)", codes "@")
    ∷ (re_i "\\[dot\\]|\\(dot\\)", codes ".")
    ∷ []

-- `_RX`
abbrev pub type_pattern : IocType → Pattern
type_pattern url = re_i "\\bhttps?://[^\\s<>\"')\\]]{4,2048}"
type_pattern email = re_i "\\b[A-Z0-9._%+-]{1,64}@[A-Z0-9.-]{1,255}\\.[A-Z]{2,24}\\b"
type_pattern ipv4 = record { pattern = "\\b(?:\\d{1,3}\\.){3}\\d{1,3}\\b"; ignore_case = false }
type_pattern ipv6 = re_i "\\b(?:[A-F0-9]{1,4}:){2,7}[A-F0-9]{1,4}\\b"
type_pattern sha256 = re_i "\\b[a-f0-9]{64}\\b"
type_pattern sha1 = re_i "\\b[a-f0-9]{40}\\b"
type_pattern md5 = re_i "\\b[a-f0-9]{32}\\b"
type_pattern cve = re_i "\\bCVE-\\d{4}-\\d{4,7}\\b"
type_pattern domain =
    re_i
      "\\b(?:[a-z0-9](?:[a-z0-9-]{0,61}[a-z0-9])?\\.){1,8}(?:com|net|org|io|ai|co|ru|cn|info|biz|xyz|top|club|online|site|shop|live|dev|app|cloud|gov|edu|mil|int|uk|de|fr|jp|in|br|au|ca|nl|se|no|fi|pl|it|es|tk|ml|ga|cf|gq|zip|mov|link|click|work|rest|fit|icu|cyou|su|pw)\\b"

-- `_SAFE_DOMAINS`
abbrev pub safe_domains : List Text
safe_domains =
    codes "google.com"
    ∷ codes "www.google.com"
    ∷ codes "microsoft.com"
    ∷ codes "windows.com"
    ∷ codes "apple.com"
    ∷ codes "github.com"
    ∷ codes "githubusercontent.com"
    ∷ codes "cloudflare.com"
    ∷ codes "amazonaws.com"
    ∷ codes "office.com"
    ∷ codes "live.com"
    ∷ codes "gstatic.com"
    ∷ codes "akamai.net"
    ∷ codes "digicert.com"
    ∷ codes "mozilla.org"
    ∷ codes "python.org"
    ∷ codes "npmjs.com"
    ∷ codes "example.com"
    ∷ codes "localhost"
    ∷ []

-- `_ORDER`
abbrev pub type_order : List IocType
type_order = url ∷ email ∷ sha256 ∷ sha1 ∷ md5 ∷ cve ∷ ipv6 ∷ ipv4 ∷ domain ∷ []

pub record ParsedIoc : Type 0 where
  pub value : Text
  pub ioc_type : IocType

abbrev pub dot : ℕ
dot = 46

abbrev pub at_sign : ℕ
at_sign = 64

-- `s.lstrip(chars)`, `s.rstrip(chars)` and `s.strip(chars)`.
unfoldable pub lstrip_chars : Text → Text → Text
lstrip_chars chars [] = []
lstrip_chars chars (c ∷ s) = if any (λ d. c == d) chars then lstrip_chars chars s else c ∷ s

unfoldable pub rstrip_chars : Text → Text → Text
rstrip_chars chars [] = []
rstrip_chars chars (c ∷ s) = elim (rstrip_chars chars s) [
  | [] ↦ if any (λ d. c == d) chars then [] else c ∷ []
  | d ∷ t ↦ c ∷ d ∷ t
]

unfoldable pub strip_chars : Text → Text → Text
strip_chars chars s = rstrip_chars chars (lstrip_chars chars s)

-- `s.split(sep)[0]`
unfoldable pub before : ℕ → Text → Text
before sep s = elim (split_once sep s) [ none ↦ s | some (l, r) ↦ l ]

abbrev pub sub_all : Library → List (Pattern × Text) → Text → Text
sub_all lib [] out = out
sub_all lib ((rx, with) ∷ rules) out = sub_all lib rules (lib.sub rx with out)

unfoldable pub refang : Library → Text → Text
refang lib text = sub_all lib defang_rules text

unfoldable pub is_routable : Address → Bool
is_routable ip = not (
    ip.is_private || ip.is_loopback || ip.is_link_local || ip.is_multicast || ip.is_reserved
    || ip.is_unspecified)

unfoldable pub is_routable_ip : Library → Text → Bool
is_routable_ip lib value = elim (lib.ip_address value) [ none ↦ false | some ip ↦ is_routable ip ]

unfoldable pub is_safe_host : Text → Bool
is_safe_host host =
    any (λ safe. text_eq host safe) safe_domains
    || any (λ safe. has_suffix host (dot ∷ safe)) safe_domains

unfoldable pub is_noise_domain : Library → Text → Bool
is_noise_domain lib value = is_safe_host (strip_chars (dot ∷ []) (lib.lower value))

-- `value.strip().strip(".,;:'\"()[]<>")`
unfoldable pub trimmed : Library → Text → Text
trimmed lib value = strip_chars (codes ".,;:'\"()[]<>") (lib.strip value)

abbrev pub url_parts : Pattern
url_parts = re_i "^(https?://)([^/]+)(.*)$"

unfoldable pub normalize_as : Library → IocType → Text → Text
normalize_as lib md5 v = lib.lower v
normalize_as lib sha1 v = lib.lower v
normalize_as lib sha256 v = lib.lower v
normalize_as lib cve v = lib.upper v
normalize_as lib email v = rstrip dot (lib.lower v)
normalize_as lib domain v = rstrip dot (lib.lower v)
normalize_as lib ipv6 v = elim (lib.ip_address v) [ none ↦ lib.lower v | some ip ↦ ip.printed ]
normalize_as lib url v = elim (lib.match_groups url_parts v) [
  | none ↦ v
  | some (scheme, host, rest) ↦ lib.lower scheme ++ lib.lower host ++ rest
]
normalize_as lib ipv4 v = v

unfoldable pub normalize : Library → Text → IocType → Text
normalize lib value t = normalize_as lib t (trimmed lib value)

abbrev pub is_text : Text → Bool
is_text [] = false
is_text (c ∷ s) = true

abbrev pub url_scheme : Pattern
url_scheme = record { pattern = "^https?://"; ignore_case = false }

unfoldable pub url_host : Library → Text → Text
url_host lib v = before b':' (before b'/' (lib.sub url_scheme [] v))

unfoldable pub accepts : Library → IocType → Text → Bool
accepts lib ipv4 v = is_routable_ip lib v
accepts lib ipv6 v = is_routable_ip lib v
accepts lib domain v = lib.fullmatch (type_pattern domain) v && not (is_noise_domain lib v)
accepts lib url v = is_text (url_host lib v) && not (is_noise_domain lib (url_host lib v))
accepts lib email v = lib.fullmatch (type_pattern email) v
accepts lib t v = lib.fullmatch (type_pattern t) v

unfoldable pub validate : Library → Text → IocType → Bool
validate lib value t = accepts lib t (normalize lib value t)
