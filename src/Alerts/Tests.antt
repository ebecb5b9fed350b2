-- ===== src/Alerts/Tests.antt =====
-- Alerts of one cause, raised, triaged and rotated over the toy library.
use skyrecon.Base.{
  ℕ, String, ◌+◌, ◌≡◌, refl, ap, arith, true, none, some, List, [], ◌∷◌, ◌++◌, Text, codes, text_eq,
  length, rstrip, split_once, map,
}
use skyrecon.Dict.{lookup, insert}
use skyrecon.Vault.{
  Crypt, ok, Vault, aad, b64e, b64d, kek, seal_text, seal, decoded, split_sealed, open_parts,
  open_encoded, open_text, open_sealed, blind_index,
}
use skyrecon.Vault.Toy.{toy, toy-IsCrypto, draws, draws_salted}
use skyrecon.Rotation.{
  Row, get_column, set_column, context_column, context_of, dedupe_text, open_field, recovered,
  index_inputs, new_index, rebuild_indexes, reseal, rotate_columns, rotate_row,
}
use skyrecon.Alerts.{
  Alert, AuditCall, Cause, NewAlert, Site, TriageRequest, resolved, cause_text, dedupe_key,
  is_repeat, last_seen, put_alert, count_again, sealed_detail, sealed_note, find_alert,
  triaged_alert, triage, first_alert, raise_alert,
}
use skyrecon.Alerts.Counting.{Distinct}
use skyrecon.Alerts.Window.{
  Call, IsDeduped, Ready, last_now, occurrences_of, raises, IsDeduped-later, raise_alert-IsDeduped,
  raise_alert-Distinct, raises-IsDeduped,
}
use skyrecon.Alerts.Triage.{triage-raise_alert}
use skyrecon.Alerts.Reading.{Parser, read_alert}
use skyrecon.Alerts.Rotated.{alert_row, alerts_plan, rekeyed, rotate_row-dedupe_key}

abbrev site : Site
site = record { crypto = toy; vault = record { master = 5 ∷ [] }; minute = 60 }

abbrev new_vault : Vault
new_vault = record { master = 8 ∷ [] }

abbrev beacon : Cause
beacon = record {
  title = codes "Beacon";
  severity = "high";
  score = 700;
  event_id = none;
  indicator_id = none;
  rule_id = some (codes "r1");
  techniques = "T1071";
  detail = none;
}

abbrev scan : Cause
scan = record beacon { title = codes "Scan"; score = 300 }

abbrev fresh_row : String → NewAlert
fresh_row id = record { id = codes id; title_draws = draws 1; detail_draws = draws 2 }

abbrev calls : List Call
calls =
    (fresh_row "a1", 1000, beacon)
    ∷ (fresh_row "a2", 1200, scan)
    ∷ (fresh_row "a3", 1500, beacon)
    ∷ []

-- Two rows, the first of them with two occurrences.
calls_run : map (λ (a : Alert). a.occurrences) (raises site calls []) ≡ 2 ∷ 1 ∷ []
unfolding raises raise_alert last_seen is_repeat put_alert count_again first_alert sealed_detail
    dedupe_key cause_text blind_index seal_text seal aad b64e b64d kek rstrip toy draws text_eq
calls_run = refl

-- The second character of an id.
abbrev id_number : Text → ℕ
id_number (c ∷ d ∷ s) = d
id_number _ = 0

calls-Ready : Ready site 0 calls []
unfolding raises raise_alert last_seen is_repeat put_alert count_again first_alert sealed_detail
    dedupe_key cause_text blind_index seal_text seal aad b64e b64d kek rstrip toy draws text_eq
calls-Ready = (
  omega arith,
  tt,
  (
    omega arith,
    (λ e. omega (arith, ap id_number e), tt),
    (
      omega arith,
      (λ e. omega (arith, ap id_number e), (λ e. omega (arith, ap id_number e), tt)),
      tt,
    ),
  ),
)

raises-IsDeduped_example :
    IsDeduped site (last_now 0 calls) (raises site calls [])
    × Distinct (raises site calls [])
    × (occurrences_of (raises site calls []) ≡ occurrences_of [] + length calls)
raises-IsDeduped_example = raises-IsDeduped site 0 calls [] tt (λ key. omega arith) calls-Ready

abbrev raised : List Alert
raised = (raise_alert site (fresh_row "a1") 1000 beacon []).1

abbrev the_alert : Alert
the_alert = first_alert site (fresh_row "a1") 1000 beacon

abbrev settle : TriageRequest
settle = record { state = resolved; note = some (codes "done"); note_draws = draws 3 }

abbrev settled : Alert
settled = triaged_alert site 1100 (codes "u1") settle the_alert

abbrev the_call : AuditCall
the_call = record {
  action = "alert.triage";
  actor_id = codes "u1";
  target = codes "a1";
  detail = resolved;
}

triage_runs :
    triage site 1100 (codes "u1") (codes "a1") settle raised
    ≡ some (settled, settled ∷ [], the_call)
unfolding triage find_alert triaged_alert sealed_note raises raise_alert last_seen is_repeat
    put_alert count_again first_alert sealed_detail dedupe_key cause_text blind_index seal_text seal
    aad b64e b64d kek rstrip toy draws text_eq
triage_runs = refl

found_runs : find_alert (codes "a1") raised ≡ some the_alert
unfolding find_alert raise_alert last_seen is_repeat put_alert count_again first_alert sealed_detail
    dedupe_key cause_text blind_index seal_text seal aad b64e b64d kek rstrip toy draws text_eq
found_runs = refl

repeat_runs : is_repeat site 1100 (dedupe_key site beacon) the_alert ≡ true
unfolding is_repeat first_alert sealed_detail dedupe_key cause_text blind_index seal_text seal aad
    b64e b64d kek rstrip toy draws text_eq
repeat_runs = refl

triage-raise_alert_example :
    IsDeduped site 1100 (settled ∷ [])
    × (settled.id ≡ codes "a1")
    × (settled.state ≡ settle.state)
    × (settled.assigned_to ≡ some (codes "u1"))
    × (raise_alert site (fresh_row "a2") 1100 beacon (settled ∷ []) ≡ (
      first_alert site (fresh_row "a2") 1100 beacon,
      (settled ∷ []) ++ first_alert site (fresh_row "a2") 1100 beacon ∷ [],
    ))
triage-raise_alert_example =
    triage-raise_alert site 1100 (codes "u1") (codes "a1") settle raised (settled ∷ []) the_alert
      settled the_call beacon (fresh_row "a2")
      (raise_alert-Distinct site (fresh_row "a1") 1000 beacon [] tt tt)
      (IsDeduped-later site 1000 1100 raised (omega arith)
        (raise_alert-IsDeduped site (fresh_row "a1") 1000 beacon [] tt (λ key. omega arith)))
      found_runs repeat_runs refl triage_runs

abbrev passed : Crypt (Row × ℕ)
passed = rotate_row toy draws site.vault new_vault alerts_plan (alert_row the_alert) 0

abbrev ok_or_blank : Crypt (Row × ℕ) → Row × ℕ
ok_or_blank (ok r) = r
ok_or_blank _ = (alert_row the_alert, 0)

passed_runs : passed ≡ ok ((ok_or_blank passed).0, (ok_or_blank passed).1)
unfolding rotate_row rotate_columns reseal rebuild_indexes new_index index_inputs recovered
    open_field dedupe_text context_of context_column set_column get_column lookup insert open_text
    open_encoded open_parts split_sealed split_once decoded open_sealed first_alert sealed_detail
    dedupe_key cause_text blind_index seal_text seal aad b64e b64d kek rstrip toy draws text_eq
passed_runs = refl

rotate_row-dedupe_key_example :
    get_column "dedupe_index" (ok_or_blank passed).0
    ≡ some (dedupe_key (rekeyed site new_vault) beacon)
rotate_row-dedupe_key_example =
    rotate_row-dedupe_key site (fresh_row "a1") 1000 beacon draws new_vault (ok_or_blank passed).0 0
      (ok_or_blank passed).1 toy-IsCrypto (draws_salted 1) draws_salted passed_runs

abbrev echo : Parser Text
echo = record { loads = λ s. some s; strip = λ s. s; upper = λ s. s }

-- Under its key the alert is read, and under another its title is not.
read_alert_run :
    ((read_alert echo site the_alert).title ≡ some (codes "Beacon"))
    × ((read_alert echo (record site { vault = new_vault }) the_alert).title
        ≡ some (codes "<unreadable: key mismatch>"))
unfolding read_alert first_alert open_sealed open_text open_encoded open_parts split_sealed
    split_once seal_text decoded aad b64e b64d kek rstrip toy draws text_eq
read_alert_run = (refl, refl)
