-- ===== src/Stix.antt =====
-- The export of app/ioc/stix.py: STIX 2.1 indicators and MISP events.
--
-- The formatting of a time, version-5 identifiers and `str.lower` are the library's.
pub mod Pattern
mod Tests
use skyrecon.Base.{
  ℕ, ◌+◌, ◌==◌, String, Bool, true, false, not, Option, none, some, List, [], ◌∷◌, ◌++◌, map, Text,
  codes, text_eq, str_eq, leb, keep, if◌then◌else◌,
}
use skyrecon.Dict.{Dict, lookup}

abbrev pub quote : ℕ
quote = 39

abbrev pub backslash : ℕ
backslash = 92

-- `_PATTERN`: what stands in front of the value.
abbrev pub patterns : Dict Text
patterns =
    ("ipv4", codes "[ipv4-addr:value = '")
    ∷ ("ipv6", codes "[ipv6-addr:value = '")
    ∷ ("domain", codes "[domain-name:value = '")
    ∷ ("url", codes "[url:value = '")
    ∷ ("email", codes "[email-addr:value = '")
    ∷ ("md5", codes "[file:hashes.'MD5' = '")
    ∷ ("sha1", codes "[file:hashes.'SHA-1' = '")
    ∷ ("sha256", codes "[file:hashes.'SHA-256' = '")
    ∷ ("cve", codes "[vulnerability:name = '")
    ∷ []

abbrev pub or_unknown : Option Text → Text
or_unknown none = codes "[x-unknown:value = '"
or_unknown (some t) = t

unfoldable pub opening : String → Text
opening ioc_type = or_unknown (lookup ioc_type patterns)

-- `value.replace("'", "\\'")`
unfoldable pub escape : Text → Text
escape [] = []
escape (c ∷ s) = if c == quote then backslash ∷ quote ∷ escape s else c ∷ escape s

unfoldable pub pattern_for : Text → String → Text
pattern_for value ioc_type = opening ioc_type ++ (escape value ++ quote ∷ codes "]")

-- `_TLP_TO_MARKING`
abbrev pub markings : Dict String
markings =
    ("white", "marking-definition--613f2e26-407d-48c7-9eca-b8e91df99dc9")
    ∷ ("clear", "marking-definition--613f2e26-407d-48c7-9eca-b8e91df99dc9")
    ∷ ("green", "marking-definition--34098fce-860f-48ae-8e50-ebd3cc5e41da")
    ∷ ("amber", "marking-definition--f88d31f6-486f-44da-b317-01333bde0b82")
    ∷ ("red", "marking-definition--5e57c739-391a-4eb3-b6be-7d15ca92d5ed")
    ∷ []

-- The keys of a decrypted row that the export reads, its tags split and without the blank ones.
pub record ExportRow : Type 0 where
  pub value : Text
  pub ioc_type : String
  pub first_seen : ℕ
  pub last_seen : ℕ
  pub tags : List String
  pub confidence : ℕ
  pub tlp : String
  pub notes : Option Text

pub record StixIndicator : Type 0 where
  pub id : Text
  pub created : Text
  pub modified : Text
  pub name : Text
  pub pattern : Text
  pub valid_from : Text
  pub confidence : ℕ
  pub labels : List String
  pub object_marking_refs : List String
  pub description : Option Text

abbrev pub or_malicious : List String → List String
or_malicious [] = "malicious-activity" ∷ []
or_malicious (t ∷ ts) = t ∷ ts

abbrev pub listed : Option String → List String
listed none = []
listed (some m) = m ∷ []

abbrev pub if_notes : Option Text → Option Text
if_notes none = none
if_notes (some []) = none
if_notes (some (c ∷ s)) = some (c ∷ s)

-- `_MISP_TYPE`
abbrev pub misp_types : Dict String
misp_types =
    ("ipv4", "ip-dst")
    ∷ ("ipv6", "ip-dst")
    ∷ ("domain", "domain")
    ∷ ("url", "url")
    ∷ ("email", "email-src")
    ∷ ("md5", "md5")
    ∷ ("sha1", "sha1")
    ∷ ("sha256", "sha256")
    ∷ ("cve", "vulnerability")
    ∷ []

pub record MispAttribute : Type 0 where
  pub type : String
  pub value : Text
  pub to_ids : Bool
  pub comment : Text
  pub timestamp : ℕ

abbrev pub or_empty : Option Text → Text
or_empty none = []
or_empty (some s) = s

module _ (iso : ℕ → Text) (uuid5 : Text → Text) (lower : String → String) where
  unfoldable pub indicator_object : ExportRow → StixIndicator
  indicator_object r = record {
    id = codes "indicator--" ++ uuid5 r.value;
    created = iso r.first_seen;
    modified = iso r.last_seen;
    name = codes r.ioc_type ++ (codes ": " ++ r.value);
    pattern = pattern_for r.value r.ioc_type;
    valid_from = iso r.first_seen;
    confidence = r.confidence;
    labels = or_malicious r.tags;
    object_marking_refs = listed (lookup (lower r.tlp) markings);
    description = if_notes r.notes;
  }

  -- The objects of `bundle`.
  unfoldable pub bundle : List ExportRow → List StixIndicator
  bundle rows = map indicator_object rows

-- The attributes of `misp_event`. A row of an unknown type is skipped.
unfoldable pub misp_attributes : ℕ → List ExportRow → List MispAttribute
misp_attributes now [] = []
misp_attributes now (r ∷ rows) =
    let rest = misp_attributes now rows in
    elim (lookup r.ioc_type misp_types) [
      | none ↦ rest
      | some type ↦
          record {
            type = type;
            value = r.value;
            to_ids = leb 60 r.confidence;
            comment = or_empty r.notes;
            timestamp = now;
          }
          ∷ rest
    ]
