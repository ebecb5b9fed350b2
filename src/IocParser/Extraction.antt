-- ===== src/IocParser/Extraction.antt =====
-- `extract` of app/ioc/parser.py: what it returns comes from the text, and what it leaves out was
-- refused or overlaps.
use skyrecon.Base.{
  ℕ, ◌≡◌, ◌≤◌, refl, sym, subst, arith, ◌⊎◌, inl, inr, Bool, true, false, not, ◌&&◌, List, [], ◌∷◌,
  Text, All, All-map, All-Among, Among, Among-All, any, Bool-cases,
}
use skyrecon.IocParser.{
  IocType, ipv4, ipv6, domain, url, email, md5, sha1, sha256, cve, Match, Library, type_pattern,
  type_order, ParsedIoc, refang, normalize, validate,
}
use skyrecon.IocParser.Extract.{
  Found, crosses, overlaps, claim, take_match, take_matches, take_types, search_all, sort_found,
  extract,
}
use skyrecon.IocParser.Spans.{
  put_found-new, put_found-old, put_found-Among, Among-sort_found, sort_found-Among,
}

abbrev pub Apart : ℕ × ℕ → ℕ × ℕ → Type 0
Apart c d = (c.1 ≤ d.0) ⊎ (d.1 ≤ c.0)

-- No two spans overlap.
abbrev pub Disjoint : List (ℕ × ℕ) → Type 0
Disjoint [] = Unit
Disjoint (c ∷ cs) = All (Apart c) cs × Disjoint cs

abbrev pub parsed : Library → IocType → Match → ParsedIoc
parsed lib t m = record { value = normalize lib m.group t; ioc_type = t }

abbrev pub span : Match → ℕ × ℕ
span m = (m.start, m.end)

-- A match of the indicator's own pattern that normalises to it, whose span is one of `claimed`, and
-- which validates unless noise is kept.
abbrev pub Origin : Library → Bool → Text → List (ℕ × ℕ) → ParsedIoc → Type 0
Origin lib keep_noise haystack claimed p =
    (m : Match) × Among m (lib.finditer (type_pattern p.ioc_type) haystack)
    × (p ≡ parsed lib p.ioc_type m)
    × Among (span m) claimed
    × ((keep_noise ≡ true) ⊎ (validate lib p.value p.ioc_type ≡ true))

-- A span of a match that was taken.
abbrev pub Taken : Library → Text → List ParsedIoc → ℕ × ℕ → Type 0
Taken lib haystack found c =
    (t : IocType) × (m : Match) × Among m (lib.finditer (type_pattern t) haystack)
    × (c ≡ span m)
    × Among (parsed lib t m) found

-- Refused, or overlapping a match that was taken, or taken.
abbrev pub Settled : Library → Bool → Text → List ParsedIoc → IocType → Match → Type 0
Settled lib keep_noise haystack found t m =
    Among (parsed lib t m) found
    ⊎ ((keep_noise ≡ false) × (validate lib (normalize lib m.group t) t ≡ false))
    ⊎ ((c : ℕ × ℕ) × (crosses m.start m.end c ≡ true) × Taken lib haystack found c)

Accounted : Library → Bool → Text → Found → Type 0
Accounted lib keep_noise haystack st =
    Disjoint st.claimed
    × All (Taken lib haystack st.found) st.claimed
    × All (Origin lib keep_noise haystack st.claimed) st.found

Grows : Found → Found → Type 0
Grows st st' = (p : ParsedIoc) → Among p st.found → Among p st'.found

crosses-Apart : (m : Match) (c : ℕ × ℕ) → crosses m.start m.end c ≡ false → Apart (span m) c
crosses-Apart m (s, e) h = ground arith

overlaps-false :
    (m : Match) (cs : List (ℕ × ℕ))
    → any (crosses m.start m.end) cs ≡ false
    → All (Apart (span m)) cs
overlaps-false m [] h = tt
overlaps-false m (c ∷ cs) h = elim (Bool-cases (crosses m.start m.end c)) [
  | inl e ↦ cc (h, e)
  | inr e ↦ (crosses-Apart m c e, overlaps-false m cs (rw e at h))
]

overlaps-true :
    (m : Match) (cs : List (ℕ × ℕ))
    → any (crosses m.start m.end) cs ≡ true
    → (c : ℕ × ℕ) × Among c cs × (crosses m.start m.end c ≡ true)
overlaps-true m [] h = cc h
overlaps-true m (c ∷ cs) h = elim (Bool-cases (crosses m.start m.end c)) [
  | inl e ↦ (c, inl refl, e)
  | inr e ↦ let (d, w, x) = overlaps-true m cs (rw e at h) in (d, inr w, x)
]

refused-cases :
    (k v : Bool)
    → (((not k && not v) ≡ true) × (k ≡ false) × (v ≡ false))
      ⊎ (((not k && not v) ≡ false) × ((k ≡ true) ⊎ (v ≡ true)))
refused-cases true v = inr (refl, inl refl)
refused-cases false true = inr (refl, inr refl)
refused-cases false false = inl (refl, refl, refl)

Taken-map :
    (lib : Library) (haystack : Text) (st st' : Found) (c : ℕ × ℕ)
    → Grows st st'
    → Taken lib haystack st.found c
    → Taken lib haystack st'.found c
unfolding Grows
Taken-map lib haystack st st' c g (t, m, w, e, a) = (t, m, w, e, g (parsed lib t m) a)

Settled-map :
    (lib : Library) (keep_noise : Bool) (haystack : Text) (st st' : Found) (t : IocType) (m : Match)
    → Grows st st'
    → Settled lib keep_noise haystack st.found t m
    → Settled lib keep_noise haystack st'.found t m
unfolding Grows
Settled-map lib keep_noise haystack st st' t m g h = elim h [
  | inl a ↦ inl (g (parsed lib t m) a)
  | inr (inl r) ↦ inr (inl r)
  | inr (inr (c, x, w)) ↦ inr (inr (c, x, Taken-map lib haystack st st' c g w))
]

-- What a step owes: it keeps the accounts, forgets nothing, and settles its match.
Step : Library → Bool → Text → IocType → Match → Found → Found → Type 0
Step lib keep_noise haystack t m st st' =
    Accounted lib keep_noise haystack st'
    × Grows st st'
    × Settled lib keep_noise haystack st'.found t m

claim-Step :
    (lib : Library) (keep_noise : Bool) (haystack : Text) (t : IocType) (m : Match) (st : Found)
    → Among m (lib.finditer (type_pattern t) haystack)
    → Accounted lib keep_noise haystack st
    → any (crosses m.start m.end) st.claimed ≡ false
    → (keep_noise ≡ true) ⊎ (validate lib (normalize lib m.group t) t ≡ true)
    → Step lib keep_noise haystack t m st (claim (parsed lib t m) m st)
unfolding Step Accounted Grows claim
claim-Step lib keep_noise haystack t m st w (d, taken, from) free valid =
    let p = parsed lib t m in
    let st' = claim p m st in
    let grows : Grows st st' = λ r. put_found-old p r st.found in
    let new : Among p st'.found = put_found-new p st.found in
    let origin : (r : ParsedIoc)
        → Among r st'.found
        → Origin lib keep_noise haystack st'.claimed r =
      λ r a. elim (put_found-Among p r st.found a) [
        | inl e ↦
            subst (Origin lib keep_noise haystack st'.claimed) (sym e) (m, w, refl, inl refl, valid)
        | inr b ↦
            let (m', w', e', c', v') =
              Among-All (Origin lib keep_noise haystack st.claimed) r st.found b from in
            (m', w', e', inr c', v')
      ] in
    (
      (
        (overlaps-false m st.claimed free, d),
        (
          (t, m, w, refl, new),
          All-map _ _ st.claimed (λ c. Taken-map lib haystack st st' c grows) taken,
        ),
        All-Among _ st'.found origin,
      ),
      grows,
      inl new,
    )

take_match-Step :
    (lib : Library) (keep_noise : Bool) (haystack : Text) (t : IocType) (m : Match) (st : Found)
    → Among m (lib.finditer (type_pattern t) haystack)
    → Accounted lib keep_noise haystack st
    → Step lib keep_noise haystack t m st (take_match lib keep_noise t m st)
unfolding take_match overlaps Step Grows Accounted
take_match-Step lib keep_noise haystack t m st w acc =
    elim (Bool-cases (any (crosses m.start m.end) st.claimed)) [
      | inl e ↦
          let (c, a, x) = overlaps-true m st.claimed e in
          rw e (acc, λ r b. b, inr (inr (c, x, Among-All _ c st.claimed a acc.1)))
      | inr e ↦ elim (refused-cases keep_noise (validate lib (normalize lib m.group t) t)) [
        | inl (r, k, v) ↦ rw e (rw r (acc, λ r b. b, inr (inl (k, v))))
        | inr (r, v) ↦ rw e (rw r (claim-Step lib keep_noise haystack t m st w acc e v))
      ]
    ]

take_matches-Steps :
    (lib : Library) (keep_noise : Bool) (haystack : Text) (t : IocType) (ms : List Match)
    (st : Found)
    → All (λ m. Among m (lib.finditer (type_pattern t) haystack)) ms
    → Accounted lib keep_noise haystack st
    → Accounted lib keep_noise haystack (take_matches lib keep_noise t ms st)
      × Grows st (take_matches lib keep_noise t ms st)
      × All (Settled lib keep_noise haystack (take_matches lib keep_noise t ms st).found t) ms
unfolding take_matches Step Grows
take_matches-Steps lib keep_noise haystack t [] st w acc = (acc, λ r b. b, tt)
take_matches-Steps lib keep_noise haystack t (m ∷ ms) st w acc =
    let st1 = take_match lib keep_noise t m st in
    let st2 = take_matches lib keep_noise t ms st1 in
    let (acc1, g1, s1) = take_match-Step lib keep_noise haystack t m st w.0 acc in
    let (acc2, g2, s2) = take_matches-Steps lib keep_noise haystack t ms st1 w.1 acc1 in
    (acc2, λ r b. g2 r (g1 r b), (Settled-map lib keep_noise haystack st1 st2 t m g2 s1, s2))

take_types-Steps :
    (lib : Library) (keep_noise : Bool) (haystack : Text) (ts : List IocType) (st : Found)
    → Accounted lib keep_noise haystack st
    → Accounted lib keep_noise haystack (take_types lib keep_noise haystack ts st)
      × Grows st (take_types lib keep_noise haystack ts st)
      × All
          (λ t.
            All
              (Settled lib keep_noise haystack (take_types lib keep_noise haystack ts st).found t)
              (lib.finditer (type_pattern t) haystack))
          ts
unfolding take_types Grows
take_types-Steps lib keep_noise haystack [] st acc = (acc, λ r b. b, tt)
take_types-Steps lib keep_noise haystack (t ∷ ts) st acc =
    let ms = lib.finditer (type_pattern t) haystack in
    let st1 = take_matches lib keep_noise t ms st in
    let st2 = take_types lib keep_noise haystack ts st1 in
    let (acc1, g1, s1) =
      take_matches-Steps lib keep_noise haystack t ms st (All-Among _ ms (λ m w. w)) acc in
    let (acc2, g2, s2) = take_types-Steps lib keep_noise haystack ts st1 acc1 in
    (
      acc2,
      λ r b. g2 r (g1 r b),
      (All-map _ _ ms (λ m. Settled-map lib keep_noise haystack st1 st2 t m g2) s1, s2),
    )

search_all-Steps :
    (lib : Library) (keep_noise : Bool) (text : Text)
    → Accounted lib keep_noise (refang lib text) (search_all lib keep_noise text)
      × All
          (λ t.
            All
              (Settled lib keep_noise (refang lib text) (search_all lib keep_noise text).found t)
              (lib.finditer (type_pattern t) (refang lib text)))
          type_order
unfolding search_all Accounted
search_all-Steps lib keep_noise text =
    let (acc, g, s) =
      take_types-Steps lib keep_noise (refang lib text) type_order
        (record { claimed = []; found = [] }) (tt, tt, tt) in
    (acc, s)

in_order : (t : IocType) → Among t type_order
in_order url = inl refl
in_order email = inr (inl refl)
in_order sha256 = inr (inr (inl refl))
in_order sha1 = inr (inr (inr (inl refl)))
in_order md5 = inr (inr (inr (inr (inl refl))))
in_order cve = inr (inr (inr (inr (inr (inl refl)))))
in_order ipv6 = inr (inr (inr (inr (inr (inr (inl refl))))))
in_order ipv4 = inr (inr (inr (inr (inr (inr (inr (inl refl)))))))
in_order domain = inr (inr (inr (inr (inr (inr (inr (inr (inl refl))))))))

-- There are spans of the refanged text, no two of them overlapping, such that every extracted indicator
-- is the normalised text of a match of its type at one of them, and, unless noise is kept, validates.
pub extract-Origin :
    (lib : Library) (text : Text) (keep_noise : Bool)
    → (spans : List (ℕ × ℕ)) × Disjoint spans
      × All (Origin lib keep_noise (refang lib text) spans) (extract lib text keep_noise)
unfolding extract Accounted
extract-Origin lib text keep_noise =
    let (acc, s) = search_all-Steps lib keep_noise text in
    let st = search_all lib keep_noise text in
    (
      st.claimed,
      acc.0,
      All-Among _ (sort_found st.found)
          (λ p a. Among-All _ p st.found (sort_found-Among p st.found a) acc.2),
    )

-- Every match of any type in the refanged text is accounted for: its indicator is extracted, or it does
-- not validate and noise is not kept, or it overlaps a match whose indicator is extracted.
pub extract-Settled :
    (lib : Library) (text : Text) (keep_noise : Bool) (t : IocType) (m : Match)
    → Among m (lib.finditer (type_pattern t) (refang lib text))
    → Settled lib keep_noise (refang lib text) (extract lib text keep_noise) t m
unfolding extract
extract-Settled lib text keep_noise t m w =
    let (acc, s) = search_all-Steps lib keep_noise text in
    let found = (search_all lib keep_noise text).found in
    let settled : Settled lib keep_noise (refang lib text) found t m =
      Among-All _ m (lib.finditer (type_pattern t) (refang lib text)) w (
        Among-All
          (λ u.
            All (Settled lib keep_noise (refang lib text) found u)
              (lib.finditer (type_pattern u) (refang lib text)))
          t type_order (in_order t) s) in
    elim settled [
      | inl a ↦ inl (Among-sort_found (parsed lib t m) found a)
      | inr (inl r) ↦ inr (inl r)
      | inr (inr (c, x, (u, m', w', e, a))) ↦
          inr (inr (c, x, (u, m', w', e, Among-sort_found (parsed lib u m') found a)))
    ]
