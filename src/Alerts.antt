-- ===== src/Alerts.antt =====
-- Raising, counting and triaging alerts: `_raise_alert` of app/services.py and `triage` of
-- app/routers/intel.py.
--
-- A score is in tenths, to which the code rounds every score. A call reads the clock once, in ticks.
-- Where several alerts were last seen at once, the query takes the first.
pub mod Window
pub mod Counting
pub mod Repeat
pub mod Triage
pub mod Rotated
pub mod Reading
mod Tests
use skyrecon.Base.{
  ℕ, suc, ◌+◌, ◌*◌, ◌≤◌, String, Bool, true, false, ◌&&◌, ◌||◌, Option, none, some, List, [], ◌∷◌,
  ◌++◌, Text, codes, text_eq, take, max, leb, ltb, keep, first, if◌then◌else◌,
}
use skyrecon.Vault.{Crypto, Vault, Draws, FieldContext, seal_text, blind_index, bar}
use skyrecon.Rotation.{or_dash}

pub data AlertState : Type 0 where
  open_alert triaged resolved false_positive : AlertState

pub record Alert : Type 0 where
  pub id : Text
  pub created_at : ℕ
  pub rule_id : Option Text
  pub event_id : Option Text
  pub indicator_id : Option Text
  pub title_sealed : Text
  pub severity : String
  pub state : AlertState
  pub score : ℕ
  pub dedupe_index : Text
  pub occurrences : ℕ
  pub last_seen_at : ℕ
  pub mitre_techniques : String
  pub detail_sealed : Option Text
  pub assigned_to : Option Text
  pub resolved_at : Option ℕ
  pub resolution_note_sealed : Option Text

-- The arguments of `_raise_alert`, the detail as its JSON text.
pub record Cause : Type 0 where
  pub title : Text
  pub severity : String
  pub score : ℕ
  pub event_id : Option Text
  pub indicator_id : Option Text
  pub rule_id : Option Text
  pub techniques : String
  pub detail : Option Text

-- The id of a new row, and the random bytes of its two sealed columns.
pub record NewAlert : Type 0 where
  pub id : Text
  pub title_draws : Draws
  pub detail_draws : Draws

-- The key, the clock and its ticks to a minute.
pub record Site : Type 0 where
  pub crypto : Crypto
  pub vault : Vault
  pub minute : ℕ

abbrev pub dedupe_window_minutes : ℕ
dedupe_window_minutes = 30

abbrev pub is_open : AlertState → Bool
is_open open_alert = true
is_open _ = false

abbrev pub alert_field : String → Text → FieldContext
alert_field column id = record { table = codes "alerts"; column = codes column; record_id = id }

-- `f"{rule_id or '-'}|{indicator_id or '-'}|{title[:120]}"`
unfoldable pub cause_text : Cause → Text
cause_text c = or_dash c.rule_id ++ bar ∷ (or_dash c.indicator_id ++ bar ∷ take 120 c.title)

unfoldable pub dedupe_key : Site → Cause → Text
dedupe_key site c = blind_index site.crypto site.vault (cause_text c) (codes "alert-dedupe")

-- The condition of the query: the key, still open, and seen within the window.
unfoldable pub is_repeat : Site → ℕ → Text → Alert → Bool
is_repeat site now key a =
    text_eq a.dedupe_index key
    && (is_open a.state && leb now (a.last_seen_at + dedupe_window_minutes * site.minute))

abbrev pub later_seen : Alert → Option Alert → Alert
later_seen a none = a
later_seen a (some b) = if ltb a.last_seen_at b.last_seen_at then b else a

-- `.order_by(col(Alert.last_seen_at).desc())).first()`
unfoldable pub last_seen : List Alert → Option Alert
last_seen [] = none
last_seen (a ∷ rest) = some (later_seen a (last_seen rest))

unfoldable pub put_alert : Alert → List Alert → List Alert
put_alert a [] = []
put_alert a (b ∷ bs) = (if text_eq b.id a.id then a else b) ∷ put_alert a bs

abbrev pub or_event : Option Text → Option Text → Option Text
or_event none old = old
or_event (some []) old = old
or_event (some (c ∷ s)) old = some (c ∷ s)

unfoldable pub count_again : ℕ → Cause → Alert → Alert
count_again now c a = record a {
  occurrences = a.occurrences + 1;
  last_seen_at = now;
  score = max a.score c.score;
  event_id = or_event c.event_id a.event_id;
}

unfoldable pub sealed_detail : Site → Draws → Option Text → Text → Option Text
sealed_detail site d none id = none
sealed_detail site d (some detail) id =
    some (seal_text site.crypto site.vault d detail (alert_field "detail" id))

unfoldable pub first_alert : Site → NewAlert → ℕ → Cause → Alert
first_alert site new now c = record {
  id = new.id;
  created_at = now;
  rule_id = c.rule_id;
  event_id = c.event_id;
  indicator_id = c.indicator_id;
  title_sealed =
      seal_text site.crypto site.vault new.title_draws (take 300 c.title)
        (alert_field "title" new.id);
  severity = c.severity;
  state = open_alert;
  score = c.score;
  dedupe_index = dedupe_key site c;
  occurrences = 1;
  last_seen_at = now;
  mitre_techniques = c.techniques;
  detail_sealed = sealed_detail site new.detail_draws c.detail new.id;
  assigned_to = none;
  resolved_at = none;
  resolution_note_sealed = none;
}

unfoldable pub raise_alert : Site → NewAlert → ℕ → Cause → List Alert → Alert × List Alert
raise_alert site new now c alerts =
    elim (last_seen (keep (is_repeat site now (dedupe_key site c)) alerts)) [
      | none ↦ let a = first_alert site new now c in (a, alerts ++ a ∷ [])
      | some old ↦ let a = count_again now c old in (a, put_alert a alerts)
    ]

-- The arguments of a call of `audit.record`.
pub record AuditCall : Type 0 where
  pub action : String
  pub actor_id : Text
  pub target : Text
  pub detail : AlertState

-- `TriageRequest`, and the random bytes that seal its note.
pub record TriageRequest : Type 0 where
  pub state : AlertState
  pub note : Option Text
  pub note_draws : Draws

unfoldable pub find_alert : Text → List Alert → Option Alert
find_alert id alerts = first (λ (a : Alert). text_eq a.id id) alerts

abbrev pub is_settled : AlertState → Bool
is_settled resolved = true
is_settled false_positive = true
is_settled _ = false

-- An empty note is no note.
unfoldable pub sealed_note : Site → TriageRequest → Alert → Option Text
sealed_note site body a = elim body.note [
  | none ↦ a.resolution_note_sealed
  | some [] ↦ a.resolution_note_sealed
  | some (c ∷ s) ↦ some (
      seal_text site.crypto site.vault body.note_draws (c ∷ s) (alert_field "resolution_note" a.id))
]

unfoldable pub triaged_alert : Site → ℕ → Text → TriageRequest → Alert → Alert
triaged_alert site now user_id body a = record a {
  state = body.state;
  assigned_to = some user_id;
  resolved_at = if is_settled body.state then some now else a.resolved_at;
  resolution_note_sealed = sealed_note site body a;
}

-- No row is the 404.
unfoldable pub triage :
    Site → ℕ → Text → Text → TriageRequest → List Alert → Option (Alert × List Alert × AuditCall)
triage site now user_id alert_id body alerts = elim (find_alert alert_id alerts) [
  | none ↦ none
  | some a ↦
      let a' = triaged_alert site now user_id body a in
      some (
        a',
        put_alert a' alerts,
        record {
          action = "alert.triage";
          actor_id = user_id;
          target = alert_id;
          detail = body.state;
        },
      )
]
