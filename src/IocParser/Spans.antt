-- ===== src/IocParser/Spans.antt =====
-- What `extract` of app/ioc/parser.py keeps of the matches: their spans and their values.
use skyrecon.Base.{
  ◌≡◌, refl, sym, ap, subst, ◌∙◌, ◌⊎◌, inl, inr, Bool, true, false, ◌&&◌, Option, none, some, List,
  [], ◌∷◌, Text, codes, text_eq, text_eq_iff, Among, if◌then◌else◌, Bool-cases,
}
use skyrecon.IocParser.{
  IocType, ipv4, ipv6, domain, url, email, md5, sha1, sha256, cve, type_value, ParsedIoc,
}
use skyrecon.IocParser.Extract.{same_key, put_found, insert_sorted, sort_found, key_lt}

unfoldable type_of_text : Text → Option IocType
type_of_text s =
    if text_eq s (codes "ipv4")
    then some ipv4
    else if text_eq s (codes "ipv6")
    then some ipv6
    else if text_eq s (codes "domain")
    then some domain
    else if text_eq s (codes "url")
    then some url
    else if text_eq s (codes "email")
    then some email
    else if text_eq s (codes "md5")
    then some md5
    else if text_eq s (codes "sha1")
    then some sha1
    else if text_eq s (codes "sha256")
    then some sha256
    else if text_eq s (codes "cve")
    then some cve
    else none

type_of_text-type_value : (t : IocType) → type_of_text (type_value t) ≡ some t
unfolding type_of_text type_value text_eq
type_of_text-type_value ipv4 = refl
type_of_text-type_value ipv6 = refl
type_of_text-type_value domain = refl
type_of_text-type_value url = refl
type_of_text-type_value email = refl
type_of_text-type_value md5 = refl
type_of_text-type_value sha1 = refl
type_of_text-type_value sha256 = refl
type_of_text-type_value cve = refl

pub type_value_injective : (t u : IocType) → type_value t ≡ type_value u → t ≡ u
type_value_injective t u e =
    let both : some t ≡ some u =
      sym (type_of_text-type_value t) ∙ ap type_of_text e ∙ type_of_text-type_value u in
    cc both

and_true : (a b : Bool) → (a && b) ≡ true → (a ≡ true) × (b ≡ true)
and_true true b h = (refl, h)
and_true false b h = cc h

pub same_key-eq : (p q : ParsedIoc) → same_key p q ≡ true → p ≡ q
unfolding same_key
same_key-eq p q h =
    let (v, t) =
      and_true (text_eq p.value q.value) (text_eq (type_value p.ioc_type) (type_value q.ioc_type))
        h in
    let value : p.value ≡ q.value = (text_eq_iff p.value q.value).0 v in
    let kind : p.ioc_type ≡ q.ioc_type =
      type_value_injective p.ioc_type q.ioc_type
        ((text_eq_iff (type_value p.ioc_type) (type_value q.ioc_type)).0 t) in
    cc (value, kind)

pub put_found-new : (p : ParsedIoc) (xs : List ParsedIoc) → Among p (put_found p xs)
unfolding put_found
put_found-new p [] = inl refl
put_found-new p (q ∷ xs) = elim (Bool-cases (same_key q p)) [
  | inl e ↦ rw e (inl refl)
  | inr e ↦ rw e (inr (put_found-new p xs))
]

pub put_found-old : (p r : ParsedIoc) (xs : List ParsedIoc) → Among r xs → Among r (put_found p xs)
unfolding put_found
put_found-old p r [] m = absurd m
put_found-old p r (q ∷ xs) m = elim (Bool-cases (same_key q p)) [
  | inl e ↦ rw e (elim m [ inl h ↦ inl (h ∙ same_key-eq q p e) | inr h ↦ inr h ])
  | inr e ↦ rw e (elim m [ inl h ↦ inl h | inr h ↦ inr (put_found-old p r xs h) ])
]

pub put_found-Among :
    (p r : ParsedIoc) (xs : List ParsedIoc) → Among r (put_found p xs) → (r ≡ p) ⊎ Among r xs
unfolding put_found
put_found-Among p r [] m = elim m [ inl h ↦ inl h | inr h ↦ absurd h ]
put_found-Among p r (q ∷ xs) m = elim (Bool-cases (same_key q p)) [
  | inl e ↦ elim (subst (λ b. Among r (if b then p ∷ xs else q ∷ put_found p xs)) e m) [
    | inl h ↦ inl h
    | inr h ↦ inr (inr h)
  ]
  | inr e ↦ elim (subst (λ b. Among r (if b then p ∷ xs else q ∷ put_found p xs)) e m) [
    | inl h ↦ inr (inl h)
    | inr h ↦ elim (put_found-Among p r xs h) [ inl g ↦ inl g | inr g ↦ inr (inr g) ]
  ]
]

insert_sorted-Among-iff :
    (p r : ParsedIoc) (xs : List ParsedIoc)
    → (Among r (insert_sorted p xs) → Among r (p ∷ xs))
      × (Among r (p ∷ xs) → Among r (insert_sorted p xs))
unfolding insert_sorted
insert_sorted-Among-iff p r [] = (λ m. m, λ m. m)
insert_sorted-Among-iff p r (q ∷ xs) = elim (Bool-cases (key_lt q p)) [
  | inl e ↦
      let (here, there) = insert_sorted-Among-iff p r xs in
      rw e (
        λ m. elim m [
          | inl h ↦ inr (inl h)
          | inr h ↦ elim (here h) [ inl g ↦ inl g | inr g ↦ inr (inr g) ]
        ],
        λ m. elim m [
          | inl h ↦ inr (there (inl h))
          | inr h ↦ elim h [ inl g ↦ inl g | inr g ↦ inr (there (inr g)) ]
        ],
      )
  | inr e ↦ rw e (λ m. m, λ m. m)
]

pub Among-sort_found : (r : ParsedIoc) (xs : List ParsedIoc) → Among r xs → Among r (sort_found xs)
unfolding sort_found
Among-sort_found r [] m = m
Among-sort_found r (x ∷ xs) m =
    (insert_sorted-Among-iff x r (sort_found xs)).1
      (elim m [ inl h ↦ inl h | inr h ↦ inr (Among-sort_found r xs h) ])

pub sort_found-Among : (r : ParsedIoc) (xs : List ParsedIoc) → Among r (sort_found xs) → Among r xs
unfolding sort_found
sort_found-Among r [] m = m
sort_found-Among r (x ∷ xs) m = elim ((insert_sorted-Among-iff x r (sort_found xs)).0 m) [
  | inl h ↦ inl h
  | inr h ↦ inr (sort_found-Among r xs h)
]
