-- ===== src/IocParser/Tests.antt =====
-- A report with a domain, an address in it that overlaps, and a known-good domain.
use skyrecon.Base.{
  ℕ, ◌+◌, ◌≡◌, refl, inl, inr, Bool, true, false, ◌&&◌, none, some, List, [], ◌∷◌, map, codes,
  text_eq, text_lt, str_eq, leb, All, Among, rstrip, if◌then◌else◌,
}
use skyrecon.Rules.Operators.{has_suffix}
use skyrecon.IocParser.{
  IocType, domain, email, ipv4, type_value, Pattern, Match, Address, Library, type_pattern,
  ParsedIoc, refang, is_safe_host, is_noise_domain, normalize, normalize_as, trimmed, strip_chars,
  lstrip_chars, rstrip_chars, validate, accepts, is_routable_ip, is_routable,
}
use skyrecon.IocParser.Extract.{
  overlaps, same_key, put_found, claim, take_match, take_matches, take_types, search_all, key_lt,
  insert_sorted, sort_found, extract, detect_among, detect_type, replace_http, replace_char,
  bracket_dots, defanged,
}
use skyrecon.IocParser.Extraction.{Disjoint, Origin, Settled, extract-Origin, extract-Settled}
use skyrecon.IocParser.Noise.{IsNoise, extract-IsNoise}

abbrev small : ℕ → ℕ
small c = if leb 65 c && leb c 90 then c + 32 else c

abbrev private_address : Address
private_address = record {
  is_private = true;
  is_loopback = false;
  is_link_local = false;
  is_multicast = false;
  is_reserved = false;
  is_unspecified = false;
  is_global = false;
  version = 4;
  reverse_pointer = codes "1.0.0.10.in-addr.arpa";
  printed = codes "10.0.0.1";
}

abbrev evil : Match
evil = record { start = 0; end = 9; group = codes "Evil.test" }

abbrev mail : Match
mail = record { start = 20; end = 30; group = codes "a@evil.com" }

-- The domain of the address, and a subdomain of a known-good one.
abbrev within : Match
within = record { start = 22; end = 30; group = codes "evil.com" }

abbrev good : Match
good = record { start = 40; end = 55; group = codes "www.example.com" }

abbrev is_pattern : Pattern → IocType → Bool
is_pattern p t = str_eq p.pattern (type_pattern t).pattern

-- Matches at fixed places, whatever the text.
abbrev toy_library : Library
toy_library = record {
  lower = map small;
  upper = λ s. s;
  strip = λ s. s;
  finditer = λ p s.
      if is_pattern p email
      then mail ∷ []
      else if is_pattern p domain
      then evil ∷ within ∷ good ∷ evil ∷ []
      else [];
  fullmatch = λ p s. is_pattern p domain;
  sub = λ p with s. s;
  match_groups = λ p s. none;
  ip_address = λ s. if text_eq s (codes "10.0.0.1") then some private_address else none;
}

abbrev pub lenient : Library
lenient = record toy_library { fullmatch = λ p s. true }

abbrev evil_domain : ParsedIoc
evil_domain = record { value = codes "evil.test"; ioc_type = domain }

abbrev evil_mail : ParsedIoc
evil_mail = record { value = codes "a@evil.com"; ioc_type = email }

extract_runs : extract lenient (codes "report") false ≡ evil_domain ∷ evil_mail ∷ []
unfolding extract search_all take_types take_matches take_match overlaps claim put_found same_key
    sort_found insert_sorted key_lt text_lt text_eq type_value normalize normalize_as trimmed
    strip_chars lstrip_chars rstrip_chars rstrip validate accepts is_noise_domain is_safe_host
    has_suffix refang
extract_runs = refl

detect_type_runs : detect_type toy_library (codes "Evil.test") ≡ some domain
unfolding detect_type detect_among text_eq normalize normalize_as trimmed strip_chars lstrip_chars
    rstrip_chars rstrip validate accepts is_noise_domain is_safe_host has_suffix refang
detect_type_runs = refl

address_run : validate toy_library (codes "10.0.0.1") ipv4 ≡ false
unfolding validate accepts is_routable_ip is_routable normalize normalize_as trimmed strip_chars
    lstrip_chars rstrip_chars text_eq
address_run = refl

defanged_run : defanged evil_mail ≡ codes "a[at]evil[.]com"
unfolding defanged bracket_dots replace_char replace_http
defanged_run = refl

extract-Origin_example :
    (spans : List (ℕ × ℕ)) × Disjoint spans
    × All
        (Origin lenient false (refang lenient (codes "report")) spans)
        (extract lenient (codes "report") false)
extract-Origin_example = extract-Origin lenient (codes "report") false

extract-Settled_example :
    Settled lenient false
      (refang lenient (codes "report"))
      (extract lenient (codes "report") false)
      domain
      within
extract-Settled_example =
    extract-Settled lenient (codes "report") false domain within (inr (inl refl))

evil_domain_found : Among evil_domain (extract lenient (codes "report") false)
unfolding extract search_all take_types take_matches take_match overlaps claim put_found same_key
    sort_found insert_sorted key_lt text_lt text_eq type_value normalize normalize_as trimmed
    strip_chars lstrip_chars rstrip_chars rstrip validate accepts is_noise_domain is_safe_host
    has_suffix refang
evil_domain_found = inl refl

extract-IsNoise_example : ¬ IsNoise lenient domain (normalize lenient (codes "evil.test") domain)
extract-IsNoise_example = extract-IsNoise lenient (codes "report") evil_domain evil_domain_found
