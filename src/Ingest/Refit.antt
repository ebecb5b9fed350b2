-- ===== src/Ingest/Refit.antt =====
-- When `_score_anomaly` of app/services.py fits its model again.
use skyrecon.Base.{
  ℕ, zero, suc, ◌-◌, ◌≤◌, ◌<◌, ◌≡◌, refl, arith, ◌⊎◌, inl, inr, true, false, List, [], ◌∷◌, map,
  min, leb, drop, length, Bool-cases,
}
use skyrecon.Vault.{Crypto, Vault}
use skyrecon.Ingest.Anomaly.{
  Event, Detector, Fitted, stored_probe, sample, has_rows, is_stale, refit,
}

length-map : {A B : Type 0} (f : A → B) (xs : List A) → length (map f xs) ≡ length xs
length-map f [] = refl
length-map f (x ∷ xs) = omega (arith, length-map f xs)

length-drop : {A : Type 0} (n : ℕ) (xs : List A) → length (drop n xs) ≡ length xs - n
length-drop zero xs = omega arith
length-drop (suc n) [] = omega arith
length-drop (suc n) (x ∷ xs) = omega (arith, length-drop n xs)

length-sample :
    (lib : Crypto) (v : Vault) (events : List Event)
    → length (sample lib v events) ≡ min 500 (length events)
unfolding sample
length-sample lib v events = omega (
  arith,
  length-map (stored_probe lib v) (drop (length events - 500) events),
  length-drop (length events - 500) events,
)

has_rows-true : {A : Type 0} (xs : List A) → 1 ≤ length xs → has_rows xs ≡ true
has_rows-true [] h = absurd (omega (arith, h))
has_rows-true (x ∷ xs) h = refl

stale-false :
    {M : Type 0} (detector : Detector M) (st : Fitted M) (events : List Event)
    → is_stale detector st events ≡ false
    → (length events - st.fitted_at < 25) × (detector.is_trained st.model ≡ true)
unfolding is_stale
stale-false detector st events e = elim (Bool-cases (leb 25 (length events - st.fitted_at))) [
  | inl a ↦ cc (rw a at e)
  | inr a ↦ elim (Bool-cases (detector.is_trained st.model)) [
    | inl b ↦ (ground (arith, a), b)
    | inr b ↦ cc (rw b at (rw a at e))
  ]
]

-- After a score was asked for, with an event in the table, the last fit is less than 25 events old. A
-- fit is of min 500 (length events) events, and a model that was trained and is not older stays as it
-- is.
pub refit-fresh :
    {M : Type 0} (detector : Detector M) (lib : Crypto) (v : Vault) (events : List Event)
    (st : Fitted M)
    → 1 ≤ length events
    → (length events - (refit detector lib v events st).fitted_at < 25)
      × (length (sample lib v events) ≡ min 500 (length events))
      × (((refit detector lib v events st ≡ st) × (detector.is_trained st.model ≡ true))
          ⊎ (refit detector lib v events st ≡ record {
            model = detector.fit (sample lib v events) st.model;
            fitted_at = length events;
          }))
unfolding refit
refit-fresh detector lib v events st h =
    let n = length-sample lib v events in
    let rows : has_rows (sample lib v events) ≡ true =
      has_rows-true (sample lib v events) (omega (arith, n, h)) in
    elim (Bool-cases (is_stale detector st events)) [
      | inl e ↦ rw e (rw rows (omega arith, n, inr refl))
      | inr e ↦
          let (young, trained) = stale-false detector st events e in
          rw e (young, n, inl (refl, trained))
    ]
