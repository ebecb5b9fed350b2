-- ===== src/Alerts/Triage.antt =====
-- `triage` of app/routers/intel.py, and what it means for the alerts that follow.
use skyrecon.Base.{
  Among, ℕ, ◌+◌, ◌≡◌, refl, sym, ap, ◌∙◌, arith, inl, inr, Bool, true, false, ◌&&◌, some, List, [],
  ◌∷◌, ◌++◌, Text, text_eq, text_eq_iff, length, Bool-cases, Option-cases,
}
use skyrecon.Alerts.{
  Alert, AuditCall, Cause, NewAlert, Site, TriageRequest, is_open, dedupe_key, is_repeat, put_alert,
  find_alert, triaged_alert, triage, first_alert, raise_alert,
}
use skyrecon.Alerts.Counting.{bit, Distinct, length-keep, total-put_alert, last_seen-Among}
use skyrecon.Alerts.Window.{IsDeduped, repeats, raise_alert-cases}
use skyrecon.Alerts.Repeat.{Among-empty}

find_alert-Among :
    (id : Text) (a : Alert) (xs : List Alert) → find_alert id xs ≡ some a → Among a xs × (a.id ≡ id)
unfolding find_alert
find_alert-Among id a [] h = cc h
find_alert-Among id a (b ∷ rest) h = elim (Bool-cases (text_eq b.id id)) [
  | inl e ↦
      let is : b ≡ a = cc (h, e) in
      (inl (sym is), ap (λ (z : Alert). z.id) (sym is) ∙ (text_eq_iff b.id id).0 e)
  | inr e ↦ let found = find_alert-Among id a rest (cc (h, e)) in (inr found.0, found.1)
]

-- A triage that succeeds found the row, and replaced it.
triage-some :
    (site : Site) (now : ℕ) (user_id alert_id : Text) (body : TriageRequest)
    (alerts alerts' : List Alert) (a' : Alert) (call : AuditCall)
    → triage site now user_id alert_id body alerts ≡ some (a', alerts', call)
    → (a : Alert) × (find_alert alert_id alerts ≡ some a)
      × (a' ≡ triaged_alert site now user_id body a)
      × (alerts' ≡ put_alert (triaged_alert site now user_id body a) alerts)
unfolding triage
triage-some site now user_id alert_id body alerts alerts' a' call h =
    elim (Option-cases (find_alert alert_id alerts)) [
      | inl e ↦ cc (h, e)
      | inr (a, e) ↦ (a, e, cc (h, e), cc (h, e))
    ]

and_shut : (a b c : Bool) → b ≡ false → (a && (b && c)) ≡ false
and_shut a b c h = grind arith

triaged_alert_shut :
    (site : Site) (now now' : ℕ) (user_id key : Text) (body : TriageRequest) (a : Alert)
    → is_open body.state ≡ false
    → is_repeat site now' key (triaged_alert site now user_id body a) ≡ false
unfolding is_repeat triaged_alert
triaged_alert_shut site now now' user_id key body a h = and_shut (text_eq a.dedupe_index key) _ _ h

triaged_alert_id :
    (site : Site) (now : ℕ) (user_id : Text) (body : TriageRequest) (a : Alert)
    → (triaged_alert site now user_id body a).id ≡ a.id
unfolding triaged_alert
triaged_alert_id site now user_id body a = refl

-- The repeats of a key lose the triaged row, if it was one.
repeats-triage :
    (site : Site) (now now' : ℕ) (user_id key : Text) (body : TriageRequest) (a : Alert)
    (alerts : List Alert)
    → Distinct alerts
    → Among a alerts
    → is_open body.state ≡ false
    → length (repeats site now' key (put_alert (triaged_alert site now user_id body a) alerts))
        + bit (is_repeat site now' key a)
      ≡ length (repeats site now' key alerts)
repeats-triage site now now' user_id key body a alerts d m h =
    let a' = triaged_alert site now user_id body a in
    omega (
      arith,
      length-keep (is_repeat site now' key) alerts,
      length-keep (is_repeat site now' key) (put_alert a' alerts),
      total-put_alert (λ z. bit (is_repeat site now' key z)) a' a alerts d m
          (triaged_alert_id site now user_id body a),
      ap bit (triaged_alert_shut site now now' user_id key body a h),
    )

raise_alert-first :
    (site : Site) (new : NewAlert) (now : ℕ) (c : Cause) (alerts : List Alert)
    → length (repeats site now (dedupe_key site c) alerts) ≡ 0
    → raise_alert site new now c alerts
      ≡ (first_alert site new now c, alerts ++ first_alert site new now c ∷ [])
raise_alert-first site new now c alerts h = elim (raise_alert-cases site new now c alerts) [
  | inl (n, e) ↦ e
  | inr (old, m, r, l, e) ↦ absurd (Among-empty old _ h (last_seen-Among old _ l))
]

-- In a table with distinct ids that holds at most one open alert of each cause inside the window, a
-- triage that succeeds on the open alert of a cause, with a state other than open, leaves such a
-- table, its row bears the id and the state that were asked for and the user, and the next alert of
-- the cause at that time is a new row.
pub triage-raise_alert :
    (site : Site) (now : ℕ) (user_id alert_id : Text) (body : TriageRequest)
    (alerts alerts' : List Alert) (a a' : Alert) (call : AuditCall) (c : Cause) (new : NewAlert)
    → Distinct alerts
    → IsDeduped site now alerts
    → find_alert alert_id alerts ≡ some a
    → is_repeat site now (dedupe_key site c) a ≡ true
    → is_open body.state ≡ false
    → triage site now user_id alert_id body alerts ≡ some (a', alerts', call)
    → IsDeduped site now alerts'
      × (a'.id ≡ alert_id)
      × (a'.state ≡ body.state)
      × (a'.assigned_to ≡ some user_id)
      × (raise_alert site new now c alerts'
          ≡ (first_alert site new now c, alerts' ++ first_alert site new now c ∷ []))
unfolding triaged_alert
triage-raise_alert site now user_id alert_id body alerts alerts' a a' call c new d u found r h ran =
    let (b, found', is, left) =
      triage-some site now user_id alert_id body alerts alerts' a' call ran in
    let same : b ≡ a = cc (found, found') in
    let (m, id) = find_alert-Among alert_id a alerts found in
    let is' : a' ≡ triaged_alert site now user_id body a =
      is ∙ ap (triaged_alert site now user_id body) same in
    let left' : alerts' ≡ put_alert (triaged_alert site now user_id body a) alerts =
      left ∙ ap (λ z. put_alert (triaged_alert site now user_id body z) alerts) same in
    let fewer : (key : Text)
        → length (repeats site now key alerts') + bit (is_repeat site now key a)
          ≡ length (repeats site now key alerts) =
      λ (key : Text).
        ap (λ z. length (repeats site now key z) + bit (is_repeat site now key a)) left'
        ∙ repeats-triage site now now user_id key body a alerts d m h in
    (
      λ key. omega (arith, u key, fewer key),
      ap (λ (z : Alert). z.id) is' ∙ id,
      ap (λ (z : Alert). z.state) is',
      ap (λ (z : Alert). z.assigned_to) is',
      raise_alert-first site new now c alerts'
          (omega (arith, u (dedupe_key site c), fewer (dedupe_key site c), ap bit r)),
    )
