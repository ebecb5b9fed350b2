-- ===== src/Alerts/Reading.antt =====
-- What a caller sees of an alert: `read_alert` of app/services.py.
--
-- `json.loads` is the library's, with a raised error as `none`.
use skyrecon.Base.{ℕ, ◌≡◌, ap, String, Option, none, some, List, [], ◌∷◌, Text, codes, take, length}
use skyrecon.Vault.{Crypt, ok, open_sealed, seal}
use skyrecon.Vault.Laws.{IsCrypto}
use skyrecon.Vault.Fields.{open_sealed-seal}
use skyrecon.Enrichment.{split_on}
use skyrecon.Mitre.{Described, describe}
use skyrecon.Alerts.{
  Alert, AlertState, Cause, NewAlert, Site, alert_field, first_alert, count_again,
}

-- The documents of JSON, and what `describe` calls.
pub record Parser (J : Type 0) : Type 0 where
  pub loads : Text → Option J
  pub strip : Text → Text
  pub upper : Text → Text

pub record AlertReading (J : Type 0) : Type 0 where
  pub id : Text
  pub created_at : ℕ
  pub title : Option Text
  pub occurrences : ℕ
  pub severity : String
  pub state : AlertState
  pub score : ℕ
  pub rule_id : Option Text
  pub event_id : Option Text
  pub indicator_id : Option Text
  pub mitre : List Described
  pub detail : Option J
  pub assigned_to : Option Text
  pub resolved_at : Option ℕ

-- What opens, and the text that stands for what does not.
abbrev pub title_of : Crypt (Option Text) → Option Text
title_of (ok t) = t
title_of _ = some (codes "<unreadable: key mismatch>")

module _ {J : Type 0} (pr : Parser J) where
  abbrev pub loaded : Crypt (Option Text) → Option J
  loaded (ok (some (c ∷ s))) = pr.loads (c ∷ s)
  loaded _ = none

  abbrev pub detail_of : Site → Text → Option Text → Option J
  detail_of site id none = none
  detail_of site id (some []) = none
  detail_of site id (some (c ∷ s)) =
      loaded (open_sealed site.crypto site.vault (some (c ∷ s)) (alert_field "detail" id))

  unfoldable pub read_alert : Site → Alert → AlertReading J
  read_alert site a = record {
    id = a.id;
    created_at = a.created_at;
    title =
        title_of
          (open_sealed site.crypto site.vault (some a.title_sealed) (alert_field "title" a.id));
    occurrences = a.occurrences;
    severity = a.severity;
    state = a.state;
    score = a.score;
    rule_id = a.rule_id;
    event_id = a.event_id;
    indicator_id = a.indicator_id;
    mitre = describe pr.strip pr.upper (split_on 44 [] (codes a.mitre_techniques));
    detail = detail_of site a.id a.detail_sealed;
    assigned_to = a.assigned_to;
    resolved_at = a.resolved_at;
  }

  -- However often its cause came back since, an alert is read with the title of the call that raised it,
  -- cut to 300 characters.
  pub read_alert-count_again :
      (site : Site) (new : NewAlert) (now later : ℕ) (c again : Cause)
      → IsCrypto site.crypto
      → length new.title_draws.salt ≡ 16
      → (read_alert site (count_again later again (first_alert site new now c))).title
        ≡ some (take 300 c.title)
  unfolding read_alert count_again first_alert seal
  read_alert-count_again site new now later c again laws salted = ap title_of (
      open_sealed-seal site.crypto site.vault new.title_draws (some (take 300 c.title))
        (alert_field "title" new.id) laws salted)
