-- ===== src/Stix/Tests.antt =====
-- Patterns of given values, and the stages of given techniques.
use skyrecon.Base.{◌≡◌, refl, false, none, some, [], ◌∷◌, ◌++◌, Text, codes, Lacks, arith, length}
use skyrecon.Dict.{lookup}
use skyrecon.Stix.{backslash, opening, escape, pattern_for, ExportRow, misp_attributes}
use skyrecon.Stix.Pattern.{drop_prefix, read_literal, pattern_for_literal}

-- A quote is escaped.
quoted_runs : pattern_for (codes "a'b") "domain" ≡ codes "[domain-name:value = 'a\\'b']"
unfolding pattern_for opening escape lookup
quoted_runs = refl

-- A value with a backslash in front of a quote ends the literal early.
backslash_runs :
    read_literal false (escape (codes "a\\'b") ++ 39 ∷ codes "]") ≡ some (codes "a\\", codes "b']")
unfolding read_literal escape
backslash_runs = refl

quoted-Lacks : Lacks backslash (codes "a'b")
quoted-Lacks = (omega arith, (omega arith, (omega arith, tt)))

pattern_for_literal_example :
    (body : Text) × (drop_prefix (opening "domain") (pattern_for (codes "a'b") "domain")
      ≡ some body)
    × (read_literal false body ≡ some (codes "a'b", codes "]"))
pattern_for_literal_example = pattern_for_literal (codes "a'b") "domain" quoted-Lacks

abbrev row : ExportRow
row = record {
  value = codes "a.b";
  ioc_type = "domain";
  first_seen = 1;
  last_seen = 2;
  tags = [];
  confidence = 60;
  tlp = "amber";
  notes = none;
}

-- A row of an unknown type is left out.
misp_runs : length (misp_attributes 5 (row ∷ record row { ioc_type = "wallet" } ∷ [])) ≡ 1
unfolding misp_attributes lookup
misp_runs = refl
