-- ===== src/Alerts/Counting.antt =====
-- Sums over the alerts of a table, and what raising an alert does to them.
use skyrecon.Base.{
  Among, Among-All, ℕ, ◌+◌, ◌≡◌, ◌≢◌, refl, sym, ap, subst, ◌∙◌, arith, ◌⊎◌, inl, inr, Bool, true,
  false, none, some, List, [], ◌∷◌, ◌++◌, Text, text_eq, text_eq_iff, All, All-append, All-map, ltb,
  length, keep, if◌then◌else◌, Bool-cases, Option-cases,
}
use skyrecon.Alerts.{Alert, later_seen, last_seen, put_alert}

abbrev pub bit : Bool → ℕ
bit true = 1
bit false = 0

abbrev pub total : (Alert → ℕ) → List Alert → ℕ
total f [] = 0
total f (a ∷ rest) = f a + total f rest

-- No two rows have the same id.
abbrev pub Distinct : List Alert → Type 0
Distinct [] = Unit
Distinct (a ∷ rest) = All (λ (b : Alert). b.id ≢ a.id) rest × Distinct rest

pub text_eq_self : (t : Text) → text_eq t t ≡ true
text_eq_self t = (text_eq_iff t t).1 refl

text_eq_other : (s t : Text) → s ≢ t → text_eq s t ≡ false
text_eq_other s t h = elim (Bool-cases (text_eq s t)) [
  | inl e ↦ absurd (h ((text_eq_iff s t).0 e))
  | inr e ↦ e
]

pub length-keep :
    (p : Alert → Bool) (xs : List Alert) → length (keep p xs) ≡ total (λ a. bit (p a)) xs
length-keep p [] = refl
length-keep p (a ∷ rest) = ground (arith, length-keep p rest)

pub total-append :
    (f : Alert → ℕ) (xs ys : List Alert) → total f (xs ++ ys) ≡ total f xs + total f ys
total-append f [] ys = omega arith
total-append f (x ∷ xs) ys = omega (arith, total-append f xs ys)

put_alert-absent :
    (a : Alert) (xs : List Alert) → All (λ (b : Alert). b.id ≢ a.id) xs → put_alert a xs ≡ xs
unfolding put_alert
put_alert-absent a [] h = refl
put_alert-absent a (b ∷ rest) h =
    rw (text_eq_other b.id a.id h.0) (ap (◌∷◌ b) (put_alert-absent a rest h.1))

-- Replacing a row exchanges its share of a sum.
pub total-put_alert :
    (f : Alert → ℕ) (a old : Alert) (xs : List Alert)
    → Distinct xs
    → Among old xs
    → a.id ≡ old.id
    → total f (put_alert a xs) + f old ≡ total f xs + f a
unfolding put_alert
total-put_alert f a old [] d m e = absurd m
total-put_alert f a old (b ∷ rest) d m e = elim m [
  | inl h ↦
      let same : b.id ≡ a.id = sym (ap (λ (z : Alert). z.id) h) ∙ sym e in
      let off : put_alert a rest ≡ rest =
        put_alert-absent a rest (All-map _ _ rest (λ c n w. n (w ∙ sym same)) d.0) in
      rw ((text_eq_iff b.id a.id).1 same) (rw off (omega (arith, ap f h)))
  | inr m' ↦
      let apart : b.id ≢ a.id = λ w. Among-All (λ z. z.id ≢ b.id) old rest m' d.0 (sym (w ∙ e)) in
      rw (text_eq_other b.id a.id apart) (omega (arith, total-put_alert f a old rest d.1 m' e))
]

put_alert_id : (a b : Alert) → (if text_eq b.id a.id then a else b).id ≡ b.id
put_alert_id a b = elim (Bool-cases (text_eq b.id a.id)) [
  | inl e ↦ rw e (sym ((text_eq_iff b.id a.id).0 e))
  | inr e ↦ rw e refl
]

All-id-put_alert :
    (t : Text) (a : Alert) (xs : List Alert)
    → All (λ (b : Alert). b.id ≢ t) xs
    → All (λ (b : Alert). b.id ≢ t) (put_alert a xs)
unfolding put_alert
All-id-put_alert t a [] h = tt
All-id-put_alert t a (b ∷ rest) h =
    (subst (λ i. i ≢ t) (sym (put_alert_id a b)) h.0, All-id-put_alert t a rest h.1)

pub Distinct-put_alert : (a : Alert) (xs : List Alert) → Distinct xs → Distinct (put_alert a xs)
unfolding put_alert
Distinct-put_alert a [] d = tt
Distinct-put_alert a (b ∷ rest) d =
    rw (put_alert_id a b) (All-id-put_alert b.id a rest d.0, Distinct-put_alert a rest d.1)

pub Distinct-append :
    (a : Alert) (xs : List Alert)
    → Distinct xs
    → All (λ (b : Alert). b.id ≢ a.id) xs
    → Distinct (xs ++ a ∷ [])
Distinct-append a [] d h = (tt, tt)
Distinct-append a (b ∷ rest) d h =
    (All-append _ rest (a ∷ []) d.0 (λ e. h.0 (sym e), tt), Distinct-append a rest d.1 h.1)

later_seen-cases : (b c : Alert) → (later_seen b (some c) ≡ b) ⊎ (later_seen b (some c) ≡ c)
later_seen-cases b c = elim (Bool-cases (ltb b.last_seen_at c.last_seen_at)) [
  | inl e ↦ inr (rw e refl)
  | inr e ↦ inl (rw e refl)
]

pub last_seen-Among : (a : Alert) (xs : List Alert) → last_seen xs ≡ some a → Among a xs
unfolding last_seen
last_seen-Among a [] h = cc h
last_seen-Among a (b ∷ rest) h = elim (Option-cases (last_seen rest)) [
  | inl n ↦ inl (cc (h, n))
  | inr (c, n) ↦ elim (later_seen-cases b c) [
    | inl e ↦ inl (cc (h, n, e))
    | inr e ↦ inr (last_seen-Among a rest (cc (h, n, e)))
  ]
]

pub Among-keep :
    (p : Alert → Bool) (a : Alert) (xs : List Alert)
    → Among a (keep p xs)
    → Among a xs × (p a ≡ true)
Among-keep p a [] m = absurd m
Among-keep p a (b ∷ rest) m = elim (Bool-cases (p b)) [
  | inl e ↦ elim (subst (λ t. Among a (if t then b ∷ keep p rest else keep p rest)) e m) [
    | inl s ↦ (inl s, ap p s ∙ e)
    | inr m' ↦ let found = Among-keep p a rest m' in (inr found.0, found.1)
  ]
  | inr e ↦
      let found =
        Among-keep p a rest
          (subst (λ t. Among a (if t then b ∷ keep p rest else keep p rest)) e m) in
      (inr found.0, found.1)
]

pub last_seen-none : (xs : List Alert) → last_seen xs ≡ none → length xs ≡ 0
unfolding last_seen
last_seen-none [] h = refl
last_seen-none (a ∷ rest) h = cc h
