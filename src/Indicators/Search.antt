-- ===== src/Indicators/Search.antt =====
-- What reading and searching give back of a stored report.
use skyrecon.Base.{
  ℕ, ◌+◌, ◌*◌, ◌≤◌, ◌<◌, ◌≡◌, refl, sym, ap, subst, ◌∙◌, arith, min, max, Bool, true, Option, none,
  some, List, [], ◌∷◌, Text, codes, length,
}
use native.Mathlib.Nat.{mul-le-mul_left, mul-div_cancel, mul-mod_left}
use skyrecon.Vault.{ok, open_sealed, seal, blind_index}
use skyrecon.Vault.Laws.{IsCrypto}
use skyrecon.Vault.Fields.{open_sealed-seal}
use skyrecon.Scoring.{round_even}
use skyrecon.Scoring.Bounds.{round_even_mono}
use skyrecon.IocParser.{IocType, type_value, refang, normalize, validate}
use skyrecon.Indicators.{
  Indicator, Sighting, Storage, Fresh, IocAudit, Stored, indicator_field, sealed_notes, resolved,
  find_by_index, new_indicator, found_or_new, store_clean, upsert_indicator,
}
use skyrecon.Indicators.Again.{upsert_indicator-some}
use skyrecon.Indicators.Reading.{
  Reader, Reading, adjusted_risk, reading_of, read_indicator, SearchResult,
}

-- An empty note is none.
abbrev pub notes_given : Option Text → Option Text
notes_given none = none
notes_given (some []) = none
notes_given (some (c ∷ s)) = some (c ∷ s)

sealed_notes-seal :
    (st : Storage) (new : Fresh) (notes : Option Text)
    → sealed_notes st new notes
      ≡ seal st.crypto st.vault new.notes_draws (notes_given notes) (indicator_field "notes" new.id)
unfolding sealed_notes seal
sealed_notes-seal st new none = refl
sealed_notes-seal st new (some []) = refl
sealed_notes-seal st new (some (c ∷ s)) = refl

new_indicator-opens :
    (rd : Reader) (with_enrichment : Bool) (new : Fresh) (actor : Option Text) (b : Sighting)
    (t : IocType) (clean index : Text)
    → IsCrypto rd.storage.crypto
    → length new.value_draws.salt ≡ 16
    → length new.notes_draws.salt ≡ 16
    → let r = new_indicator rd.storage new actor b t clean index in
      read_indicator rd with_enrichment r
      ≡ ok (reading_of rd with_enrichment r (some clean) (notes_given b.notes))
unfolding read_indicator new_indicator seal
new_indicator-opens rd with_enrichment new actor b t clean index laws hv hn =
    let st = rd.storage in
    let value =
      open_sealed-seal st.crypto st.vault new.value_draws (some clean)
        (indicator_field "value" new.id) laws hv in
    let notes =
      ap (λ s. open_sealed st.crypto st.vault s (indicator_field "notes" new.id))
        (sealed_notes-seal st new b.notes)
      ∙ open_sealed-seal st.crypto st.vault new.notes_draws (notes_given b.notes)
          (indicator_field "notes" new.id) laws hn in
    rw value (rw notes refl)

found_or_new-created :
    (st : Storage) (new : Fresh) (actor : Option Text) (b : Sighting) (t : IocType)
    (clean index : Text) (rows : List Indicator) (o : Option Indicator)
    → (found_or_new st new actor b t clean index rows o).1 ≡ true
    → (found_or_new st new actor b t clean index rows o).0
      ≡ new_indicator st new actor b t clean index
found_or_new-created st new actor b t clean index rows (some r) h = cc h
found_or_new-created st new actor b t clean index rows none h = refl

-- A report that makes a new row is read back from that row as its normalised value, which is valid for
-- the type that was given or detected, and with its notes.
pub read_indicator-upsert_indicator :
    (rd : Reader) (with_enrichment : Bool) (new : Fresh) (actor : Option Text) (b : Sighting)
    (rows rows' : List Indicator) (r : Indicator) (call : IocAudit)
    → IsCrypto rd.storage.crypto
    → length new.value_draws.salt ≡ 16
    → length new.notes_draws.salt ≡ 16
    → upsert_indicator rd.storage new actor b rows ≡ some (r, true, rows', call)
    → (t : IocType) × (clean : Text) × (resolved rd.storage.library b ≡ some t)
      × (clean ≡ normalize rd.storage.library (refang rd.storage.library b.value) t)
      × (validate rd.storage.library clean t ≡ true)
      × (read_indicator rd with_enrichment r
          ≡ ok (reading_of rd with_enrichment r (some clean) (notes_given b.notes)))
unfolding store_clean
read_indicator-upsert_indicator rd with_enrichment new actor b rows rows' r call laws hv hn h =
    let st = rd.storage in
    let (t, clean, is, kind, form, valid, _) =
      upsert_indicator-some st new actor b rows (r, true, rows', call) h in
    let index = blind_index st.crypto st.vault clean (codes "indicator") in
    let made : r ≡ new_indicator st new actor b t clean index =
      ap (λ (z : Stored). z.0) is
      ∙ found_or_new-created st new actor b t clean index rows (find_by_index index rows)
          (sym (ap (λ (z : Stored). z.1) is)) in
    (
      t,
      clean,
      kind,
      form,
      valid,
      subst
          (λ z.
            read_indicator rd with_enrichment z
            ≡ ok (reading_of rd with_enrichment z (some clean) (notes_given b.notes)))
          (sym made) (new_indicator-opens rd with_enrichment new actor b t clean index laws hv hn),
    )

-- The answer of a search that finds a row.
abbrev pub hit : Text → IocType → Text → Reading → SearchResult
hit q t clean reading = record {
  query = q;
  detected_type = some (type_value t);
  normalized = some clean;
  supported = true;
  stored = some reading;
}

round_even_exact : (n d : ℕ) → 0 < d → round_even (n * d) d ≡ n
unfolding round_even
round_even_exact n d h = ground (arith, mul-mod_left n d, mul-div_cancel n h)

-- A value without enrichment keeps its score, the modifier moves the score in its own direction, and
-- the score stays at most 100.0.
pub adjusted_risk_mono :
    (base modifier modifier' : ℕ)
    → base ≤ 1000
    → modifier ≤ modifier'
    → (adjusted_risk base 100 ≡ base)
      × (adjusted_risk base modifier ≤ adjusted_risk base modifier')
      × (adjusted_risk base modifier' ≤ 1000)
unfolding adjusted_risk
adjusted_risk_mono base modifier modifier' hb hm =
    let spread : base * (6500 + 35 * modifier) ≤ base * (6500 + 35 * modifier') =
      mul-le-mul_left base (omega (arith, hm)) in
    let top = round_even_exact 1000 10000 (omega arith) in
    (
      ap (λ n. round_even n 10000) (omega (arith, hb)) ∙ round_even_exact base 10000 (omega arith),
      round_even_mono _ _ 10000 (omega arith) (omega (arith, spread)),
      omega (
        arith,
        top,
        round_even_mono (max 0 (min (1000 * 10000) (base * (6500 + 35 * modifier')))) (1000 * 10000)
            10000 (omega arith) (omega arith),
      ),
    )
