-- ===== src/Indicators/Again.antt =====
-- An indicator that is reported twice.
use skyrecon.Base.{
  suc, ◌≤◌, ◌≡◌, refl, sym, ap, ◌∙◌, arith, inl, inr, Bool, true, false, Option, none, some, List,
  [], ◌∷◌, ◌++◌, Text, codes, text_eq, text_eq_iff, length, Bool-cases, Option-cases, true_ne_false,
}
use skyrecon.Vault.{blind_index}
use skyrecon.IocParser.{IocType, refang, normalize, validate}
use skyrecon.Scoring.Bounds.{reinforce_bounds}
use skyrecon.Indicators.{
  Indicator, Sighting, Storage, Fresh, IocAudit, Stored, resolved, find_by_index, put_indicator,
  sighted_again, new_indicator, found_or_new, store_clean, upsert_indicator,
}

find_by_index-put_indicator :
    (index : Text) (r r' : Indicator) (rows : List Indicator)
    → find_by_index index rows ≡ some r
    → r'.id ≡ r.id
    → r'.value_index ≡ index
    → find_by_index index (put_indicator r' rows) ≡ some r'
unfolding find_by_index put_indicator
find_by_index-put_indicator index r r' [] f e i = cc f
find_by_index-put_indicator index r r' (s ∷ rows) f e i = elim (Bool-cases (text_eq s.id r'.id)) [
  | inl t ↦ rw t (rw ((text_eq_iff r'.value_index index).1 i) refl)
  | inr t ↦ elim (Bool-cases (text_eq s.value_index index)) [
    | inl v ↦
        let same : s ≡ r = cc (f, v) in
        absurd (
          true_ne_false
            (sym ((text_eq_iff s.id r'.id).1 (ap (λ (z : Indicator). z.id) same ∙ sym e)) ∙ t))
    | inr v ↦ rw t (rw v (find_by_index-put_indicator index r r' rows (cc (f, v)) e i))
  ]
]

find_by_index-append :
    (index : Text) (r : Indicator) (rows : List Indicator)
    → find_by_index index rows ≡ none
    → r.value_index ≡ index
    → find_by_index index (rows ++ r ∷ []) ≡ some r
unfolding find_by_index
find_by_index-append index r [] f i = rw ((text_eq_iff r.value_index index).1 i) refl
find_by_index-append index r (s ∷ rows) f i = elim (Bool-cases (text_eq s.value_index index)) [
  | inl v ↦ cc (f, v)
  | inr v ↦ rw v (find_by_index-append index r rows (cc (f, v)) i)
]

find_by_index-holds :
    (index : Text) (r : Indicator) (rows : List Indicator)
    → find_by_index index rows ≡ some r
    → r.value_index ≡ index
unfolding find_by_index
find_by_index-holds index r [] f = cc f
find_by_index-holds index r (s ∷ rows) f = elim (Bool-cases (text_eq s.value_index index)) [
  | inl v ↦
      let same : s ≡ r = cc (f, v) in
      ap (λ (z : Indicator). z.value_index) (sym same) ∙ (text_eq_iff s.value_index index).0 v
  | inr v ↦ find_by_index-holds index r rows (cc (f, v))
]

length-put_indicator :
    (r : Indicator) (rows : List Indicator) → length (put_indicator r rows) ≡ length rows
unfolding put_indicator
length-put_indicator r [] = refl
length-put_indicator r (s ∷ rows) = omega (arith, length-put_indicator r rows)

-- After a text was stored, its row is found under its index.
pub store_clean-find_by_index :
    (st : Storage) (new : Fresh) (actor : Option Text) (b : Sighting) (t : IocType) (clean : Text)
    (rows : List Indicator)
    → find_by_index
        (blind_index st.crypto st.vault clean (codes "indicator"))
        (store_clean st new actor b t clean rows).2
      ≡ some (store_clean st new actor b t clean rows).0
unfolding store_clean sighted_again new_indicator
store_clean-find_by_index st new actor b t clean rows =
    let index = blind_index st.crypto st.vault clean (codes "indicator") in
    elim (Option-cases (find_by_index index rows)) [
      | inl f ↦
          rw (store_clean, f)
            (find_by_index-append index (new_indicator st new actor b t clean index) rows f refl)
      | inr (r, f) ↦
          rw (store_clean, f)
            (find_by_index-put_indicator index r (sighted_again new.now b r) rows f refl
              (find_by_index-holds index r rows f))
    ]

store_clean-found :
    (st : Storage) (new : Fresh) (actor : Option Text) (b : Sighting) (t : IocType) (clean : Text)
    (rows : List Indicator) (r : Indicator)
    → find_by_index (blind_index st.crypto st.vault clean (codes "indicator")) rows ≡ some r
    → store_clean st new actor b t clean rows
      ≡ found_or_new st new actor b t clean
          (blind_index st.crypto st.vault clean (codes "indicator"))
          rows
          (some r)
unfolding store_clean
store_clean-found st new actor b t clean rows r f = rw (store_clean, f) refl

pub upsert_indicator-some :
    (st : Storage) (new : Fresh) (actor : Option Text) (b : Sighting) (rows : List Indicator)
    (out : Stored)
    → upsert_indicator st new actor b rows ≡ some out
    → (t : IocType) × (clean : Text) × (out ≡ store_clean st new actor b t clean rows)
      × (resolved st.library b ≡ some t)
      × (clean ≡ normalize st.library (refang st.library b.value) t)
      × (validate st.library clean t ≡ true)
      × ((new' : Fresh) (actor' : Option Text) (rows' : List Indicator)
          → upsert_indicator st new' actor' b rows'
            ≡ some (store_clean st new' actor' b t clean rows'))
unfolding upsert_indicator
upsert_indicator-some st new actor b rows out h = elim (Option-cases (resolved st.library b)) [
  | inl e ↦ cc (h, e)
  | inr (t, e) ↦
      let clean = normalize st.library (refang st.library b.value) t in
      elim (Bool-cases (validate st.library clean t)) [
        | inl v ↦ (
          t,
          clean,
          cc (h, e, v),
          e,
          refl,
          v,
          λ new' actor' rows'. rw (upsert_indicator, e) (rw v refl),
        )
        | inr v ↦ cc (h, e, v)
      ]
]

-- A report that was stored is not stored twice: the same report again, whoever sends it and whenever,
-- makes no row but returns the same row with one more hit, active, and with a confidence that is not
-- lower if it was at most 100.
pub upsert_indicator-again :
    (st : Storage) (new new' : Fresh) (actor actor' : Option Text) (b : Sighting)
    (rows rows' : List Indicator) (r : Indicator) (created : Bool) (call : IocAudit)
    → upsert_indicator st new actor b rows ≡ some (r, created, rows', call)
    → r.confidence ≤ 100
    → (r' : Indicator) × (rows'' : List Indicator) × (call' : IocAudit) × (upsert_indicator st new'
          actor' b rows'
        ≡ some (r', false, rows'', call'))
      × (r'.id ≡ r.id)
      × (r'.hit_count ≡ suc r.hit_count)
      × (r'.is_active ≡ true)
      × (r.confidence ≤ r'.confidence)
      × (length rows'' ≡ length rows')
unfolding sighted_again
upsert_indicator-again st new new' actor actor' b rows rows' r created call h le =
    let (t, clean, is, _, _, _, again) =
      upsert_indicator-some st new actor b rows (r, created, rows', call) h in
    let index = blind_index st.crypto st.vault clean (codes "indicator") in
    let found : find_by_index index rows' ≡ some r =
      ap (λ (z : Stored). find_by_index index z.2) is
      ∙ store_clean-find_by_index st new actor b t clean rows
      ∙ ap (λ (z : Stored). some z.0) (sym is) in
    let r' = sighted_again new'.now b r in
    (
      r',
      put_indicator r' rows',
      record { action = "ioc.reinforce"; actor_id = actor'; target = r'.id },
      again new' actor' rows' ∙ ap some (store_clean-found st new' actor' b t clean rows' r found),
      refl,
      omega arith,
      refl,
      (reinforce_bounds r.confidence b.source 1 le).0,
      length-put_indicator r' rows',
    )
