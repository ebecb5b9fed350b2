-- ===== src/IocParser/Extract.antt =====
-- Extraction, classification and the defanged form of indicators: `extract`, `detect_type` and
-- `ParsedIOC.defanged` of app/ioc/parser.py.
use skyrecon.Base.{
  ℕ, Bool, true, false, not, ◌&&◌, ◌||◌, Option, none, some, List, [], ◌∷◌, ◌++◌, Text, codes,
  text_eq, text_lt, leb, ◌==◌, any, if◌then◌else◌,
}
use skyrecon.IocParser.{
  IocType, Library, Match, ParsedIoc, at_sign, dot, normalize, refang, type_order, type_pattern,
  type_value, validate, ipv4, domain, url, email,
}

-- `claimed` and `found` of `extract`, the newest claim first; a dict entry is its own key.
pub record Found : Type 0 where
  pub claimed : List (ℕ × ℕ)
  pub found : List ParsedIoc

-- `not (end <= s or start >= e)`
abbrev pub crosses : ℕ → ℕ → ℕ × ℕ → Bool
crosses start end (s, e) = not (leb end s || leb e start)

unfoldable pub overlaps : ℕ → ℕ → List (ℕ × ℕ) → Bool
overlaps start end claimed = any (crosses start end) claimed

unfoldable pub same_key : ParsedIoc → ParsedIoc → Bool
same_key a b = text_eq a.value b.value && text_eq (type_value a.ioc_type) (type_value b.ioc_type)

unfoldable pub put_found : ParsedIoc → List ParsedIoc → List ParsedIoc
put_found p [] = p ∷ []
put_found p (q ∷ found) = if same_key q p then p ∷ found else q ∷ put_found p found

unfoldable pub claim : ParsedIoc → Match → Found → Found
claim p m st = record { claimed = (m.start, m.end) ∷ st.claimed; found = put_found p st.found }

-- The body of the inner loop.
unfoldable pub take_match : Library → Bool → IocType → Match → Found → Found
take_match lib keep_noise t m st =
    let value = normalize lib m.group t in
    if overlaps m.start m.end st.claimed
    then st
    else if not keep_noise && not (validate lib value t)
    then st
    else claim (record { value = value; ioc_type = t }) m st

unfoldable pub take_matches : Library → Bool → IocType → List Match → Found → Found
take_matches lib keep_noise t [] st = st
take_matches lib keep_noise t (m ∷ ms) st =
    take_matches lib keep_noise t ms (take_match lib keep_noise t m st)

unfoldable pub take_types : Library → Bool → Text → List IocType → Found → Found
take_types lib keep_noise haystack [] st = st
take_types lib keep_noise haystack (t ∷ ts) st =
    take_types lib keep_noise haystack ts
      (take_matches lib keep_noise t (lib.finditer (type_pattern t) haystack) st)

unfoldable pub search_all : Library → Bool → Text → Found
search_all lib keep_noise text =
    take_types lib keep_noise (refang lib text) type_order (record { claimed = []; found = [] })

-- `(p.ioc_type.value, p.value)`, compared as tuples.
unfoldable pub key_lt : ParsedIoc → ParsedIoc → Bool
key_lt p q =
    if text_eq (type_value p.ioc_type) (type_value q.ioc_type)
    then text_lt p.value q.value
    else text_lt (type_value p.ioc_type) (type_value q.ioc_type)

unfoldable pub insert_sorted : ParsedIoc → List ParsedIoc → List ParsedIoc
insert_sorted p [] = p ∷ []
insert_sorted p (q ∷ ps) = if key_lt q p then q ∷ insert_sorted p ps else p ∷ q ∷ ps

unfoldable pub sort_found : List ParsedIoc → List ParsedIoc
sort_found [] = []
sort_found (p ∷ ps) = insert_sorted p (sort_found ps)

unfoldable pub extract : Library → Text → Bool → List ParsedIoc
extract lib text keep_noise = sort_found (search_all lib keep_noise text).found

-- The first type in the order that matches and validates.
unfoldable pub detect_among : Library → Text → List IocType → Option IocType
detect_among lib v [] = none
detect_among lib v (t ∷ ts) =
    if lib.fullmatch (type_pattern t) v && validate lib v t then some t else detect_among lib v ts

unfoldable pub detect_type : Library → Text → Option IocType
detect_type lib value = detect_among lib (lib.strip (refang lib value)) type_order

-- `value.replace("http", "hxxp")`
unfoldable pub replace_http : Text → Text
replace_http (c ∷ d ∷ e ∷ f ∷ s) =
    let rest = replace_http (d ∷ e ∷ f ∷ s) in
    let behind = replace_http s in
    if c == b'h' && d == b't' && e == b't' && f == b'p' then codes "hxxp" ++ behind else c ∷ rest
replace_http s = s

-- `s.replace(c, by)` for a character.
unfoldable pub replace_char : ℕ → Text → Text → Text
replace_char c by [] = []
replace_char c by (d ∷ s) =
    let rest = replace_char c by s in if d == c then by ++ rest else d ∷ rest

-- Both branches of the regular expression match a dot.
unfoldable pub bracket_dots : Text → Text
bracket_dots s = replace_char dot (codes "[.]") s

abbrev pub has_dots : IocType → Bool
has_dots ipv4 = true
has_dots domain = true
has_dots url = true
has_dots email = true
has_dots _ = false

unfoldable pub defanged : ParsedIoc → Text
defanged p =
    let out = replace_http p.value in
    replace_char at_sign (codes "[at]") (if has_dots p.ioc_type then bracket_dots out else out)
