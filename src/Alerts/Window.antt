-- ===== src/Alerts/Window.antt =====
-- Runs of `_raise_alert`: how often a cause makes a row, and what is counted.
use skyrecon.Base.{
  Among, ℕ, suc, ◌+◌, ◌*◌, ◌≤◌, ◌≡◌, ◌≢◌, refl, sym, ap, subst, arith, ◌⊎◌, inl, inr, Bool, true,
  ◌&&◌, some, List, [], ◌∷◌, ◌++◌, Text, text_eq, text_eq_iff, All, length, keep, leb→le, le→leb,
  Bool-cases, Option-cases,
}
use skyrecon.Alerts.{
  Alert, Cause, NewAlert, Site, dedupe_window_minutes, is_open, dedupe_key, is_repeat, last_seen,
  put_alert, count_again, first_alert, raise_alert,
}
use skyrecon.Alerts.Counting.{
  bit, total, Distinct, length-keep, total-append, total-put_alert, Distinct-put_alert,
  Distinct-append, last_seen-Among, Among-keep, last_seen-none,
}

abbrev pub repeats : Site → ℕ → Text → List Alert → List Alert
repeats site now key alerts = keep (is_repeat site now key) alerts

-- Of each cause at most one row is open and was seen within the window.
abbrev pub IsDeduped : Site → ℕ → List Alert → Type 0
IsDeduped site now alerts = (key : Text) → length (repeats site now key alerts) ≤ 1

abbrev pub occurrences_of : List Alert → ℕ
occurrences_of = total (λ (a : Alert). a.occurrences)

abbrev pub Call : Type 0
Call = NewAlert × ℕ × Cause

unfoldable pub raises : Site → List Call → List Alert → List Alert
raises site [] alerts = alerts
raises site ((new, now, c) ∷ calls) alerts = raises site calls (raise_alert site new now c alerts).1

-- The clock does not run backwards, and a new row has an id that no row has.
abbrev pub Ready : Site → ℕ → List Call → List Alert → Type 0
Ready site now [] alerts = Unit
Ready site now ((new, now', c) ∷ calls) alerts =
    (now ≤ now')
    × All (λ (a : Alert). a.id ≢ new.id) alerts
    × Ready site now' calls (raise_alert site new now' c alerts).1

abbrev pub last_now : ℕ → List Call → ℕ
last_now now [] = now
last_now now ((new, now', c) ∷ calls) = last_now now' calls

-- What raising does: a first row when no row repeats the cause, or one more count on a row that does.
pub raise_alert-cases :
    (site : Site) (new : NewAlert) (now : ℕ) (c : Cause) (alerts : List Alert)
    → ((length (repeats site now (dedupe_key site c) alerts) ≡ 0)
        × (raise_alert site new now c alerts
            ≡ (first_alert site new now c, alerts ++ first_alert site new now c ∷ [])))
      ⊎ ((old : Alert) × Among old alerts
          × (is_repeat site now (dedupe_key site c) old ≡ true)
          × (last_seen (repeats site now (dedupe_key site c) alerts) ≡ some old)
          × (raise_alert site new now c alerts
              ≡ (count_again now c old, put_alert (count_again now c old) alerts)))
unfolding raise_alert
raise_alert-cases site new now c alerts =
    elim (Option-cases (last_seen (repeats site now (dedupe_key site c) alerts))) [
      | inl n ↦ inl (last_seen-none _ n, rw (raise_alert, n) refl)
      | inr (old, n) ↦
          let found =
            Among-keep (is_repeat site now (dedupe_key site c)) old alerts
              (last_seen-Among old _ n) in
          inr (old, found.0, found.1, n, rw (raise_alert, n) refl)
    ]

and_true : (a b : Bool) → (a && b) ≡ true → (a ≡ true) × (b ≡ true)
and_true a b h = grind arith

and_right : (a : Bool) → (a && true) ≡ a
and_right a = grind arith

pub is_repeat-eq-true :
    (site : Site) (now : ℕ) (key : Text) (a : Alert)
    → is_repeat site now key a ≡ true
    → (a.dedupe_index ≡ key)
      × (is_open a.state ≡ true)
      × (now ≤ a.last_seen_at + dedupe_window_minutes * site.minute)
unfolding is_repeat
is_repeat-eq-true site now key a h =
    let (same, rest) = and_true _ _ h in
    let (open_now, seen) = and_true _ _ rest in
    ((text_eq_iff _ _).0 same, open_now, leb→le _ _ seen)

-- A row that repeats a cause now did so before.
is_repeat-earlier :
    (site : Site) (now now' : ℕ) (key : Text) (a : Alert)
    → now ≤ now'
    → bit (is_repeat site now' key a) ≤ bit (is_repeat site now key a)
unfolding is_repeat
is_repeat-earlier site now now' key a h = elim (Bool-cases (text_eq a.dedupe_index key)) [
  | inl e ↦ elim (Bool-cases (is_open a.state)) [
    | inl o ↦ rw e (rw o (ground arith))
    | inr o ↦ rw e (rw o (omega arith))
  ]
  | inr e ↦ rw e (omega arith)
]

total-le : (f g : Alert → ℕ) (xs : List Alert) → ((a : Alert) → f a ≤ g a) → total f xs ≤ total g xs
total-le f g [] h = omega arith
total-le f g (x ∷ xs) h = omega (arith, h x, total-le f g xs h)

pub IsDeduped-later :
    (site : Site) (now now' : ℕ) (alerts : List Alert)
    → now ≤ now'
    → IsDeduped site now alerts
    → IsDeduped site now' alerts
IsDeduped-later site now now' alerts h d key = omega (
  arith,
  d key,
  length-keep (is_repeat site now key) alerts,
  length-keep (is_repeat site now' key) alerts,
  total-le (λ a. bit (is_repeat site now' key a)) (λ a. bit (is_repeat site now key a)) alerts
      (λ a. is_repeat-earlier site now now' key a h),
)

pub count_again_id : (now : ℕ) (c : Cause) (a : Alert) → (count_again now c a).id ≡ a.id
unfolding count_again
count_again_id now c a = refl

pub count_again_more :
    (now : ℕ) (c : Cause) (a : Alert) → (count_again now c a).occurrences ≡ suc a.occurrences
unfolding count_again
count_again_more now c a = omega arith

first_alert_id :
    (site : Site) (new : NewAlert) (now : ℕ) (c : Cause) → (first_alert site new now c).id ≡ new.id
unfolding first_alert
first_alert_id site new now c = refl

first_alert_once :
    (site : Site) (new : NewAlert) (now : ℕ) (c : Cause)
    → (first_alert site new now c).occurrences ≡ 1
unfolding first_alert
first_alert_once site new now c = refl

count_again-is_repeat :
    (site : Site) (now : ℕ) (key : Text) (c : Cause) (a : Alert)
    → is_repeat site now (dedupe_key site c) a ≡ true
    → is_repeat site now key (count_again now c a) ≡ is_repeat site now key a
unfolding is_repeat count_again
count_again-is_repeat site now key c a h =
    let (same, open_now, seen) = is_repeat-eq-true site now (dedupe_key site c) a h in
    rw (le→leb _ _ seen)
      (rw (le→leb now (now + dedupe_window_minutes * site.minute) (omega arith)) refl)

first_alert-is_repeat :
    (site : Site) (new : NewAlert) (now : ℕ) (key : Text) (c : Cause)
    → is_repeat site now key (first_alert site new now c) ≡ text_eq (dedupe_key site c) key
unfolding is_repeat first_alert
first_alert-is_repeat site new now key c =
    rw (le→leb now (now + dedupe_window_minutes * site.minute) (omega arith)) (and_right _)

repeats-append :
    (site : Site) (new : NewAlert) (now : ℕ) (key : Text) (c : Cause) (alerts : List Alert)
    → length (repeats site now key (alerts ++ first_alert site new now c ∷ []))
      ≡ length (repeats site now key alerts) + bit (text_eq (dedupe_key site c) key)
repeats-append site new now key c alerts =
    let f : Alert → ℕ = λ a. bit (is_repeat site now key a) in
    omega (
      arith,
      length-keep (is_repeat site now key) alerts,
      length-keep (is_repeat site now key) (alerts ++ first_alert site new now c ∷ []),
      total-append f alerts (first_alert site new now c ∷ []),
      ap bit (first_alert-is_repeat site new now key c),
    )

repeats-put_alert :
    (site : Site) (now : ℕ) (key : Text) (c : Cause) (old : Alert) (alerts : List Alert)
    → Distinct alerts
    → Among old alerts
    → is_repeat site now (dedupe_key site c) old ≡ true
    → length (repeats site now key (put_alert (count_again now c old) alerts))
      ≡ length (repeats site now key alerts)
repeats-put_alert site now key c old alerts d m h =
    let f : Alert → ℕ = λ a. bit (is_repeat site now key a) in
    omega (
      arith,
      length-keep (is_repeat site now key) alerts,
      length-keep (is_repeat site now key) (put_alert (count_again now c old) alerts),
      total-put_alert f (count_again now c old) old alerts d m (count_again_id now c old),
      ap bit (count_again-is_repeat site now key c old h),
    )

-- A fresh row is the only one of its cause, and a count on a row leaves the number of rows.
pub raise_alert-IsDeduped :
    (site : Site) (new : NewAlert) (now : ℕ) (c : Cause) (alerts : List Alert)
    → Distinct alerts
    → IsDeduped site now alerts
    → IsDeduped site now (raise_alert site new now c alerts).1
raise_alert-IsDeduped site new now c alerts d u key =
    elim (raise_alert-cases site new now c alerts) [
      | inl (n, e) ↦ rw e (
          rw (repeats-append site new now key c alerts)
            (elim (Bool-cases (text_eq (dedupe_key site c) key)) [
              | inl s ↦
                  let none_yet : length (repeats site now key alerts) ≡ 0 =
                    subst (λ k. length (repeats site now k alerts) ≡ 0) ((text_eq_iff _ _).0 s) n in
                  rw s (omega (arith, none_yet))
              | inr s ↦ rw s (omega (arith, u key))
            ]))
      | inr (old, m, h, l, e) ↦
          rw e (rw (repeats-put_alert site now key c old alerts d m h) (u key))
    ]

raise_alert-occurrences :
    (site : Site) (new : NewAlert) (now : ℕ) (c : Cause) (alerts : List Alert)
    → Distinct alerts
    → occurrences_of (raise_alert site new now c alerts).1 ≡ suc (occurrences_of alerts)
raise_alert-occurrences site new now c alerts d = elim (raise_alert-cases site new now c alerts) [
  | inl (n, e) ↦ rw e (
      omega (
        arith,
        total-append (λ (a : Alert). a.occurrences) alerts (first_alert site new now c ∷ []),
        first_alert_once site new now c,
      ))
  | inr (old, m, h, l, e) ↦ rw e (
      omega (
        arith,
        total-put_alert (λ (a : Alert). a.occurrences) (count_again now c old) old alerts d m
            (count_again_id now c old),
        count_again_more now c old,
      ))
]

pub raise_alert-Distinct :
    (site : Site) (new : NewAlert) (now : ℕ) (c : Cause) (alerts : List Alert)
    → Distinct alerts
    → All (λ (a : Alert). a.id ≢ new.id) alerts
    → Distinct (raise_alert site new now c alerts).1
raise_alert-Distinct site new now c alerts d f = elim (raise_alert-cases site new now c alerts) [
  | inl (n, e) ↦ rw e (
      Distinct-append (first_alert site new now c) alerts d
        (subst (λ i. All (λ (a : Alert). a.id ≢ i) alerts) (sym (first_alert_id site new now c)) f))
  | inr (old, m, h, l, e) ↦ rw e (Distinct-put_alert (count_again now c old) alerts d)
]

-- From a table with distinct ids that holds at most one open alert of each cause inside the window,
-- any run of alerts with a clock that does not run backwards and with fresh ids leads to such a
-- table again, and adds to the occurrences on its rows exactly the number of alerts raised.
pub raises-IsDeduped :
    (site : Site) (now : ℕ) (calls : List Call) (alerts : List Alert)
    → Distinct alerts
    → IsDeduped site now alerts
    → Ready site now calls alerts
    → IsDeduped site (last_now now calls) (raises site calls alerts)
      × Distinct (raises site calls alerts)
      × (occurrences_of (raises site calls alerts) ≡ occurrences_of alerts + length calls)
unfolding raises
raises-IsDeduped site now [] alerts d u r = (u, d, omega arith)
raises-IsDeduped site now ((new, now', c) ∷ calls) alerts d u r =
    let (later, fresh, rest) = r in
    let (u', d', n) =
      raises-IsDeduped site now' calls (raise_alert site new now' c alerts).1
        (raise_alert-Distinct site new now' c alerts d fresh)
        (raise_alert-IsDeduped site new now' c alerts d
          (IsDeduped-later site now now' alerts later u))
        rest in
    (u', d', omega (arith, n, raise_alert-occurrences site new now' c alerts d))
