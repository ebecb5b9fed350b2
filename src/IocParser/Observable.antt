-- ===== src/IocParser/Observable.antt =====
-- The formats that are recognised and not stored: app/ioc/observable.py.
use skyrecon.Base.{String, false, Option, none, some, List, [], ◌∷◌, Text, if◌then◌else◌}
use skyrecon.IocParser.{Pattern, re_i, Library}

pub data Observable : Type 0 where
  cert_fingerprint asn crypto_eth crypto_btc ifsc upi_id phone : Observable

abbrev pub cased : String → Pattern
cased p = record { pattern = p; ignore_case = false }

-- `_PATTERNS`
abbrev pub observable_patterns : List (Observable × Pattern)
observable_patterns =
    (cert_fingerprint, re_i "^(?:[a-f0-9]{2}:){19,31}[a-f0-9]{2}$")
    ∷ (asn, re_i "^AS\\d{1,10}$")
    ∷ (crypto_eth, re_i "^0x[a-f0-9]{40}$")
    ∷ (crypto_btc, cased "^(?:[13][a-km-zA-HJ-NP-Z1-9]{25,34}|bc1[a-z0-9]{25,59})$")
    ∷ (ifsc, cased "^[A-Z]{4}0[A-Z0-9]{6}$")
    ∷ (upi_id, re_i "^[a-z0-9.\\-_]{2,64}@[a-z]{2,20}$")
    ∷ (phone, cased "^\\+?[1-9]\\d{7,14}$")
    ∷ []

-- `LABELS`
abbrev pub label : Observable → String
label cert_fingerprint = "certificate fingerprint"
label asn = "ASN"
label crypto_eth = "crypto wallet (Ethereum-style)"
label crypto_btc = "crypto wallet (Bitcoin-style)"
label ifsc = "IFSC code"
label upi_id = "UPI ID"
label phone = "phone number"

abbrev pub first_format : Library → Text → List (Observable × Pattern) → Option Observable
first_format lib v [] = none
first_format lib v ((key, rx) ∷ patterns) =
    if lib.fullmatch rx v then some key else first_format lib v patterns

unfoldable pub detect_observable : Library → Text → Option Observable
detect_observable lib value = first_format lib (lib.strip value) observable_patterns
