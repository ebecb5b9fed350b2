-- ===== src/Alerts/Repeat.antt =====
-- The same cause raised twice.
use skyrecon.Base.{
  Among, ℕ, suc, ◌+◌, ◌*◌, ◌≤◌, ◌≡◌, refl, sym, ap, ◌∙◌, arith, inl, inr, Bool, true, List, [], ◌∷◌,
  ◌++◌, text_eq_iff, max, length, keep, le→leb, Bool-cases,
}
use skyrecon.Alerts.{
  Alert, Cause, NewAlert, Site, dedupe_window_minutes, dedupe_key, is_repeat, put_alert,
  count_again, first_alert, raise_alert,
}
use skyrecon.Alerts.Counting.{Distinct, text_eq_self, last_seen-Among}
use skyrecon.Alerts.Window.{
  IsDeduped, IsDeduped-later, raise_alert-cases, raise_alert-IsDeduped, count_again_id,
  count_again_more, is_repeat-eq-true,
}

Among-one : (a b : Alert) (xs : List Alert) → length xs ≤ 1 → Among a xs → Among b xs → a ≡ b
Among-one a b [] h m n = absurd m
Among-one a b (c ∷ []) h m n = elim m [
  | inl e ↦ elim n [ inl e' ↦ e ∙ sym e' | inr w ↦ absurd w ]
  | inr w ↦ absurd w
]
Among-one a b (c ∷ d ∷ xs) h m n = absurd (too_many (length xs) h)
  where
    too_many : (k : ℕ) → suc (suc k) ≤ 1 → ⊥
    too_many k h = omega (arith, h)

pub Among-empty : (a : Alert) (xs : List Alert) → length xs ≡ 0 → Among a xs → ⊥
Among-empty a [] h m = m
Among-empty a (b ∷ xs) h m = omega (arith, h)

keep-Among :
    (p : Alert → Bool) (a : Alert) (xs : List Alert) → Among a xs → p a ≡ true → Among a (keep p xs)
keep-Among p a [] m h = absurd m
keep-Among p a (b ∷ rest) m h = elim m [
  | inl e ↦ rw (ap p (sym e) ∙ h) (inl e)
  | inr m' ↦ elim (Bool-cases (p b)) [
    | inl t ↦ rw t (inr (keep-Among p a rest m' h))
    | inr t ↦ rw t (keep-Among p a rest m' h)
  ]
]

Among-append : (a : Alert) (xs : List Alert) → Among a (xs ++ a ∷ [])
Among-append a [] = inl refl
Among-append a (x ∷ xs) = inr (Among-append a xs)

Among-put_alert :
    (a old : Alert) (xs : List Alert) → Among old xs → a.id ≡ old.id → Among a (put_alert a xs)
unfolding put_alert
Among-put_alert a old [] m e = absurd m
Among-put_alert a old (b ∷ rest) m e = elim m [
  | inl h ↦ rw ((text_eq_iff b.id a.id).1 (sym (ap (λ (z : Alert). z.id) h) ∙ sym e)) (inl refl)
  | inr m' ↦ inr (Among-put_alert a old rest m' e)
]

length-put_alert : (a : Alert) (xs : List Alert) → length (put_alert a xs) ≡ length xs
unfolding put_alert
length-put_alert a [] = refl
length-put_alert a (b ∷ rest) = omega (arith, length-put_alert a rest)

first_alert_open :
    (site : Site) (new : NewAlert) (now now' : ℕ) (c : Cause)
    → now' ≤ now + dedupe_window_minutes * site.minute
    → is_repeat site now' (dedupe_key site c) (first_alert site new now c) ≡ true
unfolding is_repeat first_alert
first_alert_open site new now now' c h =
    rw (text_eq_self (dedupe_key site c))
      (le→leb now' (now + dedupe_window_minutes * site.minute) h)

count_again_open :
    (site : Site) (now now' : ℕ) (c : Cause) (old : Alert)
    → is_repeat site now (dedupe_key site c) old ≡ true
    → now' ≤ now + dedupe_window_minutes * site.minute
    → is_repeat site now' (dedupe_key site c) (count_again now c old) ≡ true
unfolding is_repeat count_again
count_again_open site now now' c old r h =
    let (same, open_now, seen) = is_repeat-eq-true site now (dedupe_key site c) old r in
    rw same (
      rw open_now (
        rw (text_eq_self (dedupe_key site c))
          (le→leb now' (now + dedupe_window_minutes * site.minute) h)))

-- The row that a call returns stands in the table and repeats its cause until the window has passed.
raise_alert-Among :
    (site : Site) (new : NewAlert) (now now' : ℕ) (c : Cause) (alerts : List Alert)
    → now' ≤ now + dedupe_window_minutes * site.minute
    → Among (raise_alert site new now c alerts).0 (raise_alert site new now c alerts).1
      × (is_repeat site now' (dedupe_key site c) (raise_alert site new now c alerts).0 ≡ true)
raise_alert-Among site new now now' c alerts h = elim (raise_alert-cases site new now c alerts) [
  | inl (n, e) ↦
      rw e
        (Among-append (first_alert site new now c) alerts, first_alert_open site new now now' c h)
  | inr (old, m, r, l, e) ↦ rw e (
    Among-put_alert (count_again now c old) old alerts m (count_again_id now c old),
    count_again_open site now now' c old r h,
  )
]

count_again-max :
    (now : ℕ) (c : Cause) (a : Alert) → (count_again now c a).score ≡ max a.score c.score
unfolding count_again
count_again-max now c a = refl

-- In a table with distinct ids that holds at most one open alert of each cause inside the window, a
-- cause that is raised again no later than thirty minutes after it was raised makes no row: the
-- second call returns the row of the first with one more occurrence and the greater of the two scores, whatever
-- the random values of the second call.
pub raise_alert-again :
    (site : Site) (new new' : NewAlert) (now now' : ℕ) (c : Cause) (alerts : List Alert)
    → Distinct alerts
    → IsDeduped site now alerts
    → now ≤ now'
    → now' ≤ now + dedupe_window_minutes * site.minute
    → let (a, once) = raise_alert site new now c alerts in
      let (b, twice) = raise_alert site new' now' c once in
      (b.id ≡ a.id)
      × (b.occurrences ≡ suc a.occurrences)
      × (b.score ≡ max a.score c.score)
      × (length twice ≡ length once)
raise_alert-again site new new' now now' c alerts d u h h' =
    let (a, once) = raise_alert site new now c alerts in
    let (m, r) = raise_alert-Among site new now now' c alerts h' in
    let u' =
      IsDeduped-later site now now' once h (raise_alert-IsDeduped site new now c alerts d u) in
    let kept = keep-Among (is_repeat site now' (dedupe_key site c)) a once m r in
    elim (raise_alert-cases site new' now' c once) [
      | inl (n, e) ↦ absurd (Among-empty a _ n kept)
      | inr (old, m', r', l, e) ↦
          let same : old ≡ a =
            Among-one old a _ (u' (dedupe_key site c)) (last_seen-Among old _ l) kept in
          rw e (
            count_again_id now' c old ∙ ap (λ (z : Alert). z.id) same,
            count_again_more now' c old ∙ ap (λ (z : Alert). suc z.occurrences) same,
            count_again-max now' c old ∙ ap (λ (z : Alert). max z.score c.score) same,
            length-put_alert (count_again now' c old) once,
          )
    ]
