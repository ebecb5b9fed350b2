-- ===== src/IocParser/Order.antt =====
-- The order of what `extract` of app/ioc/parser.py returns.
use skyrecon.Base.{
  ◌≡◌, ◌≢◌, refl, ◌⊎◌, sym, ap, subst, ◌∙◌, arith, inl, inr, Bool, true, false, not, ◌&&◌, List, [],
  ◌∷◌, Text, text_eq, text_eq_iff, text_lt, All, All-map, All-Among, Among-All, Bool-cases,
  true_ne_false,
}
use skyrecon.IocParser.{
  IocType, type_value, Match, Library, type_pattern, type_order, ParsedIoc, refang, normalize,
  validate,
}
use skyrecon.IocParser.Extract.{
  Found, overlaps, same_key, put_found, claim, take_match, take_matches, take_types, search_all,
  key_lt, insert_sorted, sort_found, extract,
}
use skyrecon.IocParser.Spans.{type_value_injective, same_key-eq, put_found-Among, sort_found-Among}

text_lt_trans : (s t u : Text) → text_lt s t ≡ true → text_lt t u ≡ true → text_lt s u ≡ true
unfolding text_lt
text_lt_trans s [] u h k = cc h
text_lt_trans s (d ∷ t) [] h k = cc k
text_lt_trans [] (d ∷ t) (e ∷ u) h k = refl
text_lt_trans (c ∷ s) (d ∷ t) (e ∷ u) h k = ground (arith, text_lt_trans s t u)

-- Of two different texts one is the lesser.
text_lt-total : (s t : Text) → text_lt s t ≡ false → s ≢ t → text_lt t s ≡ true
unfolding text_lt
text_lt-total [] [] h n = absurd (n refl)
text_lt-total (c ∷ s) [] h n = refl
text_lt-total [] (d ∷ t) h n = cc h
text_lt-total (c ∷ s) (d ∷ t) h n = grind (arith, text_lt-total s t)

text_lt_irrefl : (s : Text) → text_lt s s ≡ false
unfolding text_lt
text_lt_irrefl [] = refl
text_lt_irrefl (c ∷ s) = ground (arith, text_lt_irrefl s)

text_eq-cases : (s t : Text) → ((s ≡ t) × (text_eq s t ≡ true)) ⊎ ((s ≢ t) × (text_eq s t ≡ false))
text_eq-cases s t = elim (Bool-cases (text_eq s t)) [
  | inl e ↦ inl ((text_eq_iff s t).0 e, e)
  | inr e ↦ inr (λ w. true_ne_false (sym ((text_eq_iff s t).1 w) ∙ e), e)
]

abbrev kind : ParsedIoc → Text
kind p = type_value p.ioc_type

key_lt-same : (p q : ParsedIoc) → kind p ≡ kind q → key_lt p q ≡ text_lt p.value q.value
unfolding key_lt
key_lt-same p q e = rw ((text_eq_iff (kind p) (kind q)).1 e) refl

key_lt-other : (p q : ParsedIoc) → kind p ≢ kind q → key_lt p q ≡ text_lt (kind p) (kind q)
unfolding key_lt
key_lt-other p q n = elim (text_eq-cases (kind p) (kind q)) [
  | inl (w, e) ↦ absurd (n w)
  | inr (w, e) ↦ rw e refl
]

key_lt_trans : (p q r : ParsedIoc) → key_lt p q ≡ true → key_lt q r ≡ true → key_lt p r ≡ true
key_lt_trans p q r h k = elim (text_eq-cases (kind p) (kind q)) [
  | inl (pq, _) ↦ elim (text_eq-cases (kind q) (kind r)) [
    | inl (qr, _) ↦
        key_lt-same p r (pq ∙ qr)
        ∙ text_lt_trans p.value q.value r.value (sym (key_lt-same p q pq) ∙ h)
            (sym (key_lt-same q r qr) ∙ k)
    | inr (qr, _) ↦
        key_lt-other p r (λ w. qr (sym pq ∙ w))
        ∙ ap (λ s. text_lt s (kind r)) pq
        ∙ sym (key_lt-other q r qr)
        ∙ k
  ]
  | inr (pq, _) ↦ elim (text_eq-cases (kind q) (kind r)) [
    | inl (qr, _) ↦
        key_lt-other p r (λ w. pq (w ∙ sym qr))
        ∙ ap (text_lt (kind p)) (sym qr)
        ∙ sym (key_lt-other p q pq)
        ∙ h
    | inr (qr, _) ↦
        let below : text_lt (kind p) (kind r) ≡ true =
          text_lt_trans (kind p) (kind q) (kind r) (sym (key_lt-other p q pq) ∙ h)
            (sym (key_lt-other q r qr) ∙ k) in
        key_lt-other p r (λ w.
          true_ne_false (sym below ∙ ap (λ s. text_lt s (kind r)) w ∙ text_lt_irrefl (kind r)))
        ∙ below
  ]
]

key_lt-total : (p q : ParsedIoc) → key_lt p q ≡ false → p ≢ q → key_lt q p ≡ true
key_lt-total p q h n = elim (text_eq-cases (kind p) (kind q)) [
  | inl (e, _) ↦
      let types : p.ioc_type ≡ q.ioc_type = type_value_injective p.ioc_type q.ioc_type e in
      key_lt-same q p (sym e)
      ∙ text_lt-total p.value q.value (sym (key_lt-same p q e) ∙ h) (λ w. n (cc (types, w)))
  | inr (e, _) ↦
      key_lt-other q p (λ w. e (sym w))
      ∙ text_lt-total (kind p) (kind q) (sym (key_lt-other p q e) ∙ h) e
]

-- Every entry is below all that come behind it, by the type's name and then by the value.
abbrev pub IsSorted : List ParsedIoc → Type 0
IsSorted [] = Unit
IsSorted (p ∷ ps) = All (λ q. key_lt p q ≡ true) ps × IsSorted ps

abbrev Distinct : List ParsedIoc → Type 0
Distinct [] = Unit
Distinct (p ∷ ps) = All (λ q. p ≢ q) ps × Distinct ps

insert_sorted-All {κ} :
    (P : ParsedIoc → Type κ) (p : ParsedIoc) (xs : List ParsedIoc)
    → P p
    → All P xs
    → All P (insert_sorted p xs)
unfolding insert_sorted
insert_sorted-All P p [] h hs = (h, tt)
insert_sorted-All P p (q ∷ xs) h hs = elim (Bool-cases (key_lt q p)) [
  | inl e ↦ rw e (hs.0, insert_sorted-All P p xs h hs.1)
  | inr e ↦ rw e (h, hs)
]

insert_sorted-IsSorted :
    (p : ParsedIoc) (xs : List ParsedIoc)
    → All (λ q. p ≢ q) xs
    → IsSorted xs
    → IsSorted (insert_sorted p xs)
unfolding insert_sorted
insert_sorted-IsSorted p [] n s = (tt, tt)
insert_sorted-IsSorted p (q ∷ xs) n s = elim (Bool-cases (key_lt q p)) [
  | inl e ↦ rw e (insert_sorted-All _ p xs e s.0, insert_sorted-IsSorted p xs n.1 s.1)
  | inr e ↦
      let lt : key_lt p q ≡ true = key_lt-total q p e (λ w. n.0 (sym w)) in
      rw e ((lt, All-map _ _ xs (λ r. key_lt_trans p q r lt) s.0), s)
]

sort_found-IsSorted : (xs : List ParsedIoc) → Distinct xs → IsSorted (sort_found xs)
unfolding sort_found
sort_found-IsSorted [] d = tt
sort_found-IsSorted (p ∷ xs) d =
    insert_sorted-IsSorted p (sort_found xs)
      (All-Among _ (sort_found xs)
        (λ q a. Among-All (λ r. p ≢ r) q xs (sort_found-Among q xs a) d.0))
      (sort_found-IsSorted xs d.1)

same_key_self : (p q : ParsedIoc) → p ≡ q → same_key p q ≡ true
unfolding same_key
same_key_self p q e =
    rw
      (
        (text_eq_iff p.value q.value).1 (ap (λ (r : ParsedIoc). r.value) e),
        (text_eq_iff (kind p) (kind q)).1 (ap kind e),
      )
      refl

put_found-Distinct : (p : ParsedIoc) (xs : List ParsedIoc) → Distinct xs → Distinct (put_found p xs)
unfolding put_found
put_found-Distinct p [] d = (tt, tt)
put_found-Distinct p (q ∷ xs) d = elim (Bool-cases (same_key q p)) [
  | inl e ↦ rw e (subst (λ r. All (λ s. r ≢ s) xs) (same_key-eq q p e) d.0, d.1)
  | inr e ↦ rw e (
    All-Among _ (put_found p xs) (λ r a w. elim (put_found-Among p r xs a) [
      | inl is ↦ true_ne_false (sym (same_key_self q p (w ∙ is)) ∙ e)
      | inr b ↦ Among-All (λ s. q ≢ s) r xs b d.0 w
    ]),
    put_found-Distinct p xs d.1,
  )
]

take_matches-Distinct :
    (lib : Library) (keep_noise : Bool) (t : IocType) (ms : List Match) (st : Found)
    → Distinct st.found
    → Distinct (take_matches lib keep_noise t ms st).found
unfolding take_matches take_match claim
take_matches-Distinct lib keep_noise t [] st d = d
take_matches-Distinct lib keep_noise t (m ∷ ms) st d =
    let value = normalize lib m.group t in
    take_matches-Distinct lib keep_noise t ms (take_match lib keep_noise t m st)
      (elim (Bool-cases (overlaps m.start m.end st.claimed)) [
        | inl e ↦ rw e d
        | inr e ↦ elim (Bool-cases (not keep_noise && not (validate lib value t))) [
          | inl r ↦ rw e (rw r d)
          | inr r ↦
              rw e (rw r (put_found-Distinct (record { value = value; ioc_type = t }) st.found d))
        ]
      ])

take_types-Distinct :
    (lib : Library) (keep_noise : Bool) (haystack : Text) (ts : List IocType) (st : Found)
    → Distinct st.found
    → Distinct (take_types lib keep_noise haystack ts st).found
unfolding take_types
take_types-Distinct lib keep_noise haystack [] st d = d
take_types-Distinct lib keep_noise haystack (t ∷ ts) st d =
    take_types-Distinct lib keep_noise haystack ts _
      (take_matches-Distinct lib keep_noise t (lib.finditer (type_pattern t) haystack) st d)

-- The extracted indicators ascend by the name of their type and then by their value, so that none is
-- returned twice.
pub extract-IsSorted :
    (lib : Library) (text : Text) (keep_noise : Bool) → IsSorted (extract lib text keep_noise)
unfolding extract search_all
extract-IsSorted lib text keep_noise = sort_found-IsSorted _ (
    take_types-Distinct lib keep_noise (refang lib text) type_order
      (record { claimed = []; found = [] }) tt)
