-- ===== src/Settings/Started.antt =====
-- The secrets that a started process has: `validated` of app/config.py.
use skyrecon.Base.{
  ◌≤◌, ◌≡◌, refl, subst, arith, ◌⊎◌, inl, inr, true, false, not, ◌||◌, some, [], ◌∷◌, Text, ltb,
  length, Bool-cases,
}
use skyrecon.IocParser.{is_text}
use skyrecon.Settings.{Settings, Draws, min_jwt_secret, is_production, or_drawn, validated}

or_drawn-is_text :
    (d : Draws) (s drawn : Text) → is_text drawn ≡ true → is_text (or_drawn d s drawn) ≡ true
or_drawn-is_text d [] drawn h = h
or_drawn-is_text d (c ∷ s) drawn h = refl

-- A process that starts has both secrets; in production they are the configured ones, the settings are
-- as they were given, and the secret of the tokens has at least 32 characters.
pub validated_secrets :
    (d : Draws) (s started : Settings)
    → is_text d.master_key ≡ true
    → is_text d.jwt_secret ≡ true
    → validated d s ≡ some started
    → (is_text started.master_key ≡ true)
      × (is_text started.jwt_secret ≡ true)
      × ((is_production d s ≡ false) ⊎ ((started ≡ s) × (32 ≤ length started.jwt_secret)))
unfolding validated
validated_secrets d s started hm hj h = elim (Bool-cases (is_production d s)) [
  | inr p ↦
      let is : record s {
        master_key = or_drawn d s.master_key d.master_key;
        jwt_secret = or_drawn d s.jwt_secret d.jwt_secret;
      }
          ≡ started =
        cc (rw p at h) in
      subst
        (λ (z : Settings).
          (is_text z.master_key ≡ true)
          × (is_text z.jwt_secret ≡ true)
          × ((is_production d s ≡ false) ⊎ ((z ≡ s) × (32 ≤ length z.jwt_secret))))
        is
        (
          or_drawn-is_text d s.master_key d.master_key hm,
          or_drawn-is_text d s.jwt_secret d.jwt_secret hj,
          inl p,
        )
  | inl p ↦ elim (Bool-cases (not (is_text s.master_key) || not (is_text s.jwt_secret))) [
    | inl m ↦ cc (rw m at (rw p at h))
    | inr m ↦ elim (Bool-cases (ltb (length s.jwt_secret) min_jwt_secret)) [
      | inl l ↦ cc (rw l at (rw m at (rw p at h)))
      | inr l ↦
          let is : s ≡ started = cc (rw l at (rw m at (rw p at h))) in
          subst
            (λ (z : Settings).
              (is_text z.master_key ≡ true)
              × (is_text z.jwt_secret ≡ true)
              × ((is_production d s ≡ false) ⊎ ((z ≡ s) × (32 ≤ length z.jwt_secret))))
            is (grind (arith, m), grind (arith, m), inr (refl, ground (arith, l)))
    ]
  ]
]
