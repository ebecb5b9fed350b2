-- ===== src/Enrichment.antt =====
-- The local enrichment of app/ioc/enrich.py.
--
-- Floats are exact fractions. A risk modifier is in hundredths above -1.00, so that 100 is none; a
-- likelihood is in thousandths, the risk of a TLD in hundredths. Character classes, logarithms, regular
-- expressions and the geographic database are the library's.
pub mod Reasons
pub mod Tests
use skyrecon.Base.{
  ℕ, suc, ◌+◌, ◌-◌, ◌*◌, min, max, String, Bool, true, false, not, Option, none, some, List, [],
  ◌∷◌, ◌++◌, map, Text, codes, text_eq, ◌==◌, leb, ltb, any, keep, length, split_once, rstrip,
  if◌then◌else◌,
}
use skyrecon.Rules.Operators.{contains, has_prefix}
use skyrecon.Scoring.{round_even}
use skyrecon.IocParser.{
  IocType, ipv4, ipv6, domain, url, email, Pattern, re_i, Match, Address, Library, dot, at_sign,
  is_text, before, url_host,
}

-- `str.isalpha` and `str.isdigit` of a character, `re.search` and `re.match`, and `-log2(c / n)`, in
-- units of which `unit` make one bit; the databases of app/geoip.py.
pub record Analysis : Type 0 where
  pub library : Library
  pub is_alpha : ℕ → Bool
  pub is_digit : ℕ → Bool
  pub search : Pattern → Text → Bool
  pub match_start : Pattern → Text → Bool
  pub unit : ℕ
  pub minus_log2 : ℕ → ℕ → ℕ
  pub located : Text → List (Text × Text)

-- A fraction that is not negative.
abbrev pub Ratio : Type 0
Ratio = ℕ × ℕ

abbrev pub plus : Ratio → Ratio → Ratio
plus (a, b) (c, d) = (a * d + c * b, b * d)

-- `Counter(text)`: the characters with their counts.
unfoldable pub count_char : ℕ → List (ℕ × ℕ) → List (ℕ × ℕ)
count_char c [] = (c, 1) ∷ []
count_char c ((d, n) ∷ counts) =
    if d == c then (d, n + 1) ∷ counts else (d, n) ∷ count_char c counts

unfoldable pub counter : Text → List (ℕ × ℕ) → List (ℕ × ℕ)
counter [] counts = counts
counter (c ∷ s) counts = counter s (count_char c counts)

abbrev pub surprise : Analysis → ℕ → List (ℕ × ℕ) → ℕ
surprise an n [] = 0
surprise an n ((c, k) ∷ counts) = k * an.minus_log2 k n + surprise an n counts

unfoldable pub shannon_entropy : Analysis → Text → Ratio
shannon_entropy an [] = (0, 1)
shannon_entropy an (c ∷ s) =
    let n = length (c ∷ s) in (surprise an n (counter (c ∷ s) []), n * an.unit)

abbrev pub vowel : ℕ → Bool
vowel c = any (λ d. c == d) (codes "aeiou")

unfoldable pub consonant_ratio : Analysis → Text → Ratio
consonant_ratio an text =
    let letters = keep an.is_alpha (an.library.lower text) in
    let n = length letters in if n == 0 then (0, 1) else (n - length (keep vowel letters), n)

abbrev pub consonants_pattern : Pattern
consonants_pattern = record { pattern = "[bcdfghjklmnpqrstvwxz]+"; ignore_case = false }

abbrev pub longest : List Match → ℕ
longest [] = 0
longest (m ∷ ms) = max (length m.group) (longest ms)

-- `max(0.0, min(1.0, ...))`: a difference that would be negative is 0.
abbrev pub clamped : Ratio → Ratio
clamped (a, b) = (min a b, b)

abbrev pub weighed : ℕ → Ratio → Ratio
weighed w (a, b) = (w * a, 100 * b)

unfoldable pub dga_score : Analysis → Text → Ratio
dga_score an label =
    let n = length label in
    let (e, d) = shannon_entropy an label in
    let (k, l) = consonant_ratio an label in
    let entropy_signal = clamped (10 * e - 28 * d, 14 * d) in
    let consonants = clamped (100 * k - 55 * l, 35 * l) in
    let digit_signal = clamped (22 * length (keep an.is_digit label), 10 * n) in
    let length_signal = clamped (n - 10, 14) in
    let run_signal = clamped (longest (an.library.finditer consonants_pattern label) - 3, 4) in
    plus (weighed 34 entropy_signal) (
      plus (weighed 20 consonants)
        (plus (weighed 16 digit_signal) (plus (weighed 15 length_signal) (weighed 15 run_signal))))

unfoldable pub dga_likelihood : Analysis → Text → ℕ
dga_likelihood an domain_name =
    let label = before dot (an.library.lower domain_name) in
    let (a, b) = dga_score an label in
    if ltb (length label) 6 then 0 else round_even (1000 * min a b) b

-- `s.split(sep)`, behind what was read of a piece.
unfoldable pub split_on : ℕ → Text → Text → List Text
split_on sep piece [] = piece ∷ []
split_on sep piece (c ∷ s) =
    let rest = split_on sep [] s in
    let on = split_on sep (piece ++ c ∷ []) s in if c == sep then piece ∷ rest else on

abbrev pub last_of : Text → List Text → Text
last_of s [] = s
last_of s (t ∷ ts) = last_of t ts

-- `_RISKY_TLDS`
abbrev pub risky_tlds : List (Text × ℕ)
risky_tlds =
    (codes "tk", 90)
    ∷ (codes "ml", 90)
    ∷ (codes "ga", 90)
    ∷ (codes "cf", 90)
    ∷ (codes "gq", 90)
    ∷ (codes "zip", 80)
    ∷ (codes "mov", 80)
    ∷ (codes "top", 70)
    ∷ (codes "xyz", 60)
    ∷ (codes "click", 70)
    ∷ (codes "icu", 70)
    ∷ (codes "cyou", 70)
    ∷ (codes "rest", 60)
    ∷ (codes "fit", 60)
    ∷ (codes "su", 70)
    ∷ (codes "pw", 60)
    ∷ (codes "work", 50)
    ∷ (codes "live", 40)
    ∷ (codes "online", 50)
    ∷ (codes "site", 50)
    ∷ (codes "shop", 40)
    ∷ (codes "info", 40)
    ∷ (codes "biz", 40)
    ∷ []

unfoldable pub risk_of : Text → List (Text × ℕ) → ℕ
risk_of tld [] = 15
risk_of tld ((s, n) ∷ entries) = if text_eq s tld then n else risk_of tld entries

unfoldable pub tld_risk : Analysis → Text → ℕ
tld_risk an domain_name =
    let parts = split_on dot [] (rstrip dot (an.library.lower domain_name)) in
    if leb 2 (length parts) then risk_of (last_of [] parts) risky_tlds else 15

-- `_SUSPICIOUS_WORDS`
abbrev pub suspicious_words : List Text
suspicious_words = map codes (
    "login" ∷ "signin" ∷ "verify" ∷ "secure" ∷ "account" ∷ "update" ∷ "confirm" ∷ "wallet"
    ∷ "invoice" ∷ "payment" ∷ "bank" ∷ "support" ∷ "recovery" ∷ "unlock" ∷ [])

-- `_URL_SHORTENERS`
abbrev pub url_shorteners : List Text
url_shorteners =
    map codes ("bit.ly" ∷ "tinyurl.com" ∷ "t.co" ∷ "goo.gl" ∷ "ow.ly" ∷ "is.gd" ∷ "cutt.ly" ∷ [])

-- The texts of the reasons, with what stands in them.
pub data Reason : Type 0 where
  not_routable shortener deep_chain executable bare_address plaintext : Reason
  machine_generated : ℕ → Reason
  risky_tld : Text → Reason
  keywords : List Text → Reason

pub record HostSignals : Type 0 where
  pub host : Text
  pub dga_likelihood : ℕ
  pub tld_risk : ℕ
  pub entropy : ℕ
  pub label_count : ℕ

pub record Enrichment : Type 0 where
  pub address : Option Address
  pub places : List (Text × Text)
  pub host : Option HostSignals
  pub risk_modifier : ℕ
  pub reasons : List Reason

abbrev pub no_enrichment : Enrichment
no_enrichment = record {
  address = none;
  places = [];
  host = none;
  risk_modifier = 100;
  reasons = [];
}

-- `out.risk_modifier += by` and `out.reasons.append(r)`, where the condition holds.
unfoldable pub add_reason : Bool → ℕ → Reason → Enrichment → Enrichment
add_reason b by r out =
    if b
    then record out { risk_modifier = out.risk_modifier + by; reasons = out.reasons ++ r ∷ [] }
    else out

-- The facts of an address, by whether it is global: one that is not lowers the score.
abbrev pub add_address : Analysis → Text → Address → Bool → Enrichment → Enrichment
add_address an value ip true out = record out { address = some ip; places = an.located value }
add_address an value ip false out = record out {
  address = some ip;
  risk_modifier = out.risk_modifier - 40;
  reasons = out.reasons ++ not_routable ∷ [];
}

unfoldable pub enrich_address : Analysis → Text → Enrichment → Enrichment
enrich_address an value out = elim (an.library.ip_address value) [
  | none ↦ out
  | some ip ↦ add_address an value ip ip.is_global out
]

unfoldable pub host_signals : Analysis → Text → HostSignals
host_signals an host =
    let (e, d) = shannon_entropy an (before dot host) in
    record {
      host = host;
      dga_likelihood = dga_likelihood an host;
      tld_risk = tld_risk an host;
      entropy = round_even (1000 * e) d;
      label_count = length (split_on dot [] host);
    }

unfoldable pub enrich_host : Analysis → Text → Enrichment → Enrichment
enrich_host an [] out = out
enrich_host an (c ∷ s) out =
    let host = c ∷ s in
    let sig = host_signals an host in
    add_reason (leb 5 sig.label_count) 10 deep_chain (
      add_reason (any (λ u. text_eq host u) url_shorteners) 10 shortener (
        add_reason (leb 60 sig.tld_risk) 20 (risky_tld (last_of [] (split_on dot [] host))) (
          add_reason (leb 550 sig.dga_likelihood) 30 (machine_generated sig.dga_likelihood)
            (record out { host = some sig }))))

abbrev pub payload_pattern : Pattern
payload_pattern = record {
  pattern = "\\.(exe|scr|js|vbs|ps1|hta|jar|apk|dll|bat|cmd|zip|rar|7z)(\\?|$)";
  ignore_case = false;
}

abbrev pub bare_pattern : Pattern
bare_pattern = record { pattern = "^https?://\\d{1,3}(\\.\\d{1,3}){3}"; ignore_case = false }

unfoldable pub enrich_url : Analysis → Text → Enrichment → Enrichment
enrich_url an v out =
    let hits = keep (contains v) suspicious_words in
    add_reason (has_prefix v (codes "http://")) 5 plaintext (
      add_reason (an.match_start bare_pattern v) 15 bare_address (
        add_reason (an.search payload_pattern v) 25 executable
          (add_reason (leb 1 (length hits)) (min 25 (8 * length hits)) (keywords hits) out)))

unfoldable pub host_in : Analysis → Text → IocType → Text
host_in an v domain = v
host_in an v url = url_host an.library v
host_in an v email = last_of [] (split_on at_sign [] v)
host_in an v _ = []

abbrev pub of_address : Analysis → Text → IocType → Enrichment → Enrichment
of_address an value ipv4 out = enrich_address an value out
of_address an value ipv6 out = enrich_address an value out
of_address an value _ out = out

abbrev pub of_url : Analysis → Text → IocType → Enrichment → Enrichment
of_url an v url out = enrich_url an v out
of_url an v _ out = out

unfoldable pub enrich : Analysis → Text → IocType → Enrichment
enrich an value ioc_type =
    let v = an.library.lower value in
    let out =
      of_url an v ioc_type
        (enrich_host an (host_in an v ioc_type) (of_address an value ioc_type no_enrichment)) in
    record out { risk_modifier = max 0 (min 200 out.risk_modifier) }
