-- ===== src/Mitre/Coverage.antt =====
-- That the coverage view counts every mapped technique once.
use skyrecon.Base.{
  ℕ, suc, ◌+◌, ◌≡◌, refl, sym, ap, ◌∙◌, arith, inl, inr, String, Bool, true, false, Option, none,
  some, List, [], ◌∷◌, map, Text, text_eq, str_eq, any, keep, length, if◌then◌else◌, Bool-cases,
  Option-cases, true_ne_false, or_false,
}
use skyrecon.Mitre.{
  Technique, techniques, kill_chain_order, find_technique, bump, tally_up, coverage,
}

abbrev pub stages : List (String × ℕ) → List String
stages [] = []
stages ((stage, n) ∷ tally) = stage ∷ stages tally

abbrev pub total : List (String × ℕ) → ℕ
total [] = 0
total ((stage, n) ∷ tally) = n + total tally

abbrev pub among : String → List String → Bool
among s ss = any (λ t. str_eq t s) ss

abbrev is_found : Option Technique → Bool
is_found none = false
is_found (some t) = true

bump-stages : (s : String) (tally : List (String × ℕ)) → stages (bump s tally) ≡ stages tally
bump-stages s [] = refl
bump-stages s ((stage, n) ∷ tally) = elim (Bool-cases (str_eq stage s)) [
  | inl e ↦ rw e refl
  | inr e ↦ rw e (ap (◌∷◌ stage) (bump-stages s tally))
]

bump-total :
    (s : String) (tally : List (String × ℕ))
    → among s (stages tally) ≡ true
    → total (bump s tally) ≡ suc (total tally)
bump-total s [] h = cc h
bump-total s ((stage, n) ∷ tally) h = elim (Bool-cases (str_eq stage s)) [
  | inl e ↦ rw e (omega arith)
  | inr e ↦ rw e (omega (arith, bump-total s tally (or_false _ _ e h)))
]

-- The tactic of each technique is a stage of the kill chain.
abbrev staged : List Technique → Bool
staged [] = true
staged (t ∷ ts) = if among t.tactic kill_chain_order then staged ts else false

techniques_staged : staged techniques ≡ true
techniques_staged = refl

find_technique-staged :
    (tid : Text) (ts : List Technique) (t : Technique)
    → staged ts ≡ true
    → find_technique tid ts ≡ some t
    → among t.tactic kill_chain_order ≡ true
unfolding find_technique
find_technique-staged tid [] t h f = cc f
find_technique-staged tid (u ∷ ts) t h f = elim (Bool-cases (among u.tactic kill_chain_order)) [
  | inr a ↦ absurd (true_ne_false (sym h ∙ rw a refl))
  | inl a ↦ elim (Bool-cases (text_eq u.id tid)) [
    | inl e ↦
        let same : u ≡ t = cc (f, e) in
        ap (λ (v : Technique). among v.tactic kill_chain_order) (sym same) ∙ a
    | inr e ↦ find_technique-staged tid ts t (rw a at h) (cc (f, e))
  ]
]

module _ (strip upper : Text → Text) where
  -- The technique of an id as it was typed.
  abbrev pub technique_of : Text → Option Technique
  technique_of tid = find_technique (upper (strip tid)) techniques

  abbrev pub is_mapped : Text → Bool
  is_mapped tid = is_found (technique_of tid)

  tally_up-total :
      (ids : List Text) (tally : List (String × ℕ))
      → stages tally ≡ kill_chain_order
      → (stages (tally_up strip upper ids tally) ≡ kill_chain_order)
        × (total (tally_up strip upper ids tally) ≡ total tally + length (keep is_mapped ids))
  unfolding tally_up
  tally_up-total [] tally h = (h, omega arith)
  tally_up-total (tid ∷ ids) tally h = elim (Option-cases (technique_of tid)) [
    | inl e ↦ rw (tally_up, e) (tally_up-total ids tally h)
    | inr (t, e) ↦
        let (kept, sum) =
          tally_up-total ids (bump t.tactic tally) (bump-stages t.tactic tally ∙ h) in
        let one = bump-total t.tactic tally (
          ap (among t.tactic) h
          ∙ find_technique-staged (upper (strip tid)) techniques t techniques_staged e) in
        rw (tally_up, e) (kept, omega (arith, sum, one))
  ]

-- The coverage view has the stages of the kill chain in their order, and the numbers in it add up to the number of ids that name a known technique, so that none is lost for a stage that is missing.
pub coverage-total :
    (strip upper : Text → Text) (ids : List Text)
    → (stages (coverage strip upper ids) ≡ kill_chain_order)
      × (total (coverage strip upper ids) ≡ length (keep (is_mapped strip upper) ids))
unfolding coverage
coverage-total strip upper ids =
    let (kept, sum) =
      tally_up-total strip upper ids (map (λ stage. (stage, 0)) kill_chain_order) refl in
    (kept, omega (arith, sum))
