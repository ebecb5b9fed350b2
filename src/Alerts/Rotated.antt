-- ===== src/Alerts/Rotated.antt =====
-- An alert whose row goes through a key rotation: `_raise_alert` of app/services.py against
-- the entry of `PLAN` for alerts in app/security/rotation.py.
use skyrecon.Base.{
  ℕ, zero, suc, ◌≤◌, String, ◌≡◌, refl, sym, ap, ◌∙◌, arith, Option, none, some, [], ◌∷◌, ◌++◌,
  Text, codes, take, length, inl, inr,
}
use skyrecon.Dict.{lookup}
use skyrecon.Vault.{Crypto, ok, Vault, Draws, seal, bar, blind_index}
use skyrecon.Vault.Laws.{IsCrypto}
use skyrecon.Rotation.{
  Row, TablePlan, or_dash, get_column, dedupe_key as alert_dedupe, dedupe_text, open_field,
  recovered, new_index, rotate_row,
}
use skyrecon.Rotation.Columns.{open_field-seal}
use skyrecon.Rotation.Rows.{IsPlan, rotate_row-RowRotated}
use skyrecon.Rotation.Tables.{Salted}
use skyrecon.Alerts.{Alert, Cause, NewAlert, Site, cause_text, dedupe_key, first_alert, alert_field}

-- The attributes of an alert that the rotation reads by name.
abbrev pub alert_row : Alert → Row
alert_row a = record {
  id = a.id;
  columns =
      ("rule_id", a.rule_id)
      ∷ ("indicator_id", a.indicator_id)
      ∷ ("title_sealed", some a.title_sealed)
      ∷ ("detail_sealed", a.detail_sealed)
      ∷ ("resolution_note_sealed", a.resolution_note_sealed)
      ∷ ("dedupe_index", some a.dedupe_index)
      ∷ [];
}

-- The entry of `PLAN` for alerts.
abbrev pub alerts_plan : TablePlan
alerts_plan = record {
  table = "alerts";
  sealed = "title_sealed" ∷ "detail_sealed" ∷ "resolution_note_sealed" ∷ [];
  indexes =
      record { column = "dedupe_index"; domain = "alert-dedupe"; recover = alert_dedupe } ∷ [];
}

take-take : (m n : ℕ) (s : Text) → m ≤ n → take m (take n s) ≡ take m s
take-take zero n s h = refl
take-take (suc m) zero s h = absurd (none_left h)
  where
    none_left : suc m ≤ zero → ⊥
    none_left h = omega (arith, h)
take-take (suc m) (suc n) [] h = refl
take-take (suc m) (suc n) (c ∷ s) h = ap (◌∷◌ c) (take-take m n s (omega (arith, h)))

alerts_plan-IsPlan : IsPlan alerts_plan
alerts_plan-IsPlan = grind arith

opened :
    (site : Site) (new : NewAlert) (now : ℕ) (c : Cause)
    → IsCrypto site.crypto
    → length new.title_draws.salt ≡ 16
    → open_field site.crypto site.vault
        (some (first_alert site new now c).title_sealed)
        (alert_field "title" new.id)
      ≡ ok (some (take 300 c.title))
unfolding first_alert seal
opened site new now c laws h =
    open_field-seal site.crypto laws site.vault new.title_draws (take 300 c.title)
      (alert_field "title" new.id) h

-- The text that the rotation recovers from the row of a new alert is the text that was indexed.
recovered-first_alert :
    (site : Site) (new : NewAlert) (now : ℕ) (c : Cause)
    → IsCrypto site.crypto
    → length new.title_draws.salt ≡ 16
    → recovered site.crypto alert_dedupe (alert_row (first_alert site new now c)) site.vault
      ≡ ok (some (cause_text c))
unfolding recovered first_alert get_column lookup dedupe_text cause_text open_field
recovered-first_alert site new now c laws h =
    let title = take 300 c.title in
    let row = alert_row (first_alert site new now c) in
    rw (opened site new now c laws h) (
      ap (λ t. ok (some (or_dash c.rule_id ++ bar ∷ (or_dash c.indicator_id ++ bar ∷ t))))
        (take-take 120 300 c.title (omega arith)))

append_bar : (s t : Text) → s ++ bar ∷ t ≡ [] → ⊥
append_bar [] t e = cc e
append_bar (c ∷ s) t e = cc e

new_index-text :
    (lib : Crypto) (v : Vault) (t : Text) (domain : String)
    → (t ≡ [] → ⊥)
    → new_index lib v (some t) domain ≡ some (blind_index lib v t (codes domain))
unfolding new_index
new_index-text lib v [] domain h = absurd (h refl)
new_index-text lib v (c ∷ s) domain h = refl

ok_injective : (a b : Option Text) → ok a ≡ ok b → a ≡ b
ok_injective a b e = cc e

-- The same alert site under another key.
abbrev pub rekeyed : Site → Vault → Site
rekeyed site v = record site { vault = v }

new_index-cause :
    (site : Site) (v : Vault) (c : Cause)
    → new_index site.crypto v (some (cause_text c)) "alert-dedupe"
      ≡ some (dedupe_key (rekeyed site v) c)
unfolding cause_text dedupe_key
new_index-cause site v c =
    new_index-text site.crypto v (cause_text c) "alert-dedupe" (append_bar (or_dash c.rule_id) _)

indexed_before :
    (site : Site) (new : NewAlert) (now : ℕ) (c : Cause)
    → get_column "dedupe_index" (alert_row (first_alert site new now c)) ≡ none
    → ⊥
unfolding get_column lookup
indexed_before site new now c e = cc e

-- A key rotation that passes the row of a new alert leaves there the dedupe key that raising the same
-- cause looks for under the new key, when the salt that sealed the title and those of the rotation
-- have their sixteen bytes.
pub rotate_row-dedupe_key :
    (site : Site) (new : NewAlert) (now : ℕ) (c : Cause) (draws : ℕ → Draws) (v : Vault) (row : Row)
    (n m : ℕ)
    → IsCrypto site.crypto
    → length new.title_draws.salt ≡ 16
    → Salted draws
    → rotate_row site.crypto draws site.vault v alerts_plan
        (alert_row (first_alert site new now c))
        n
      ≡ ok (row, m)
    → get_column "dedupe_index" row ≡ some (dedupe_key (rekeyed site v) c)
rotate_row-dedupe_key site new now c draws v row n m laws h salted e =
    let before = alert_row (first_alert site new now c) in
    let (same, reads, indexed) =
      rotate_row-RowRotated site.crypto laws draws salted site.vault v alerts_plan before row n m
        alerts_plan-IsPlan e in
    elim indexed.0 [
      | inl (gone, left) ↦ absurd (indexed_before site new now c gone)
      | inr (plain, opens, is) ↦
          let text : plain ≡ some (cause_text c) =
            ok_injective plain (some (cause_text c))
              (sym opens ∙ recovered-first_alert site new now c laws h) in
          is ∙ ap (λ p. new_index site.crypto v p "alert-dedupe") text ∙ new_index-cause site v c
    ]
