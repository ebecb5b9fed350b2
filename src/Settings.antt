-- ===== src/Settings.antt =====
-- The settings of app/config.py: what a process starts with.
--
-- `str.lower`, `str.strip` and the generated secrets are the library's.
pub mod Started
use skyrecon.Base.{
  ℕ, String, Bool, true, false, not, ◌&&◌, ◌||◌, Option, none, some, List, [], ◌∷◌, map, Text,
  codes, text_eq, ltb, keep, length, if◌then◌else◌,
}
use skyrecon.IocParser.{is_text}
use skyrecon.Indicators.{split_tags}

pub record Settings : Type 0 where
  pub env : Text
  pub database_url : Text
  pub master_key : Text
  pub jwt_secret : Text
  pub cors_origins : Text
  pub access_ttl_min : ℕ
  pub refresh_ttl_days : ℕ
  pub rate_limit : ℕ
  pub rate_window : ℕ
  pub bootstrap_email : Text
  pub bootstrap_password : Text
  pub require_admin_mfa : Bool
  pub ioc_half_life_days : ℕ

-- `generate_master_key()` and `secrets.token_urlsafe(48)` as they are drawn.
pub record Draws : Type 0 where
  pub lower : Text → Text
  pub strip : Text → Text
  pub master_key : Text
  pub jwt_secret : Text

abbrev pub min_jwt_secret : ℕ
min_jwt_secret = 32

module _ (d : Draws) where
  unfoldable pub is_production : Settings → Bool
  is_production s =
      text_eq (d.lower s.env) (codes "production") || text_eq (d.lower s.env) (codes "prod")

  unfoldable pub origins : Settings → List Text
  origins s = map d.strip (keep (λ o. is_text (d.strip o)) (split_tags [] s.cors_origins))

  abbrev pub or_drawn : Text → Text → Text
  or_drawn [] drawn = drawn
  or_drawn (c ∷ s) drawn = c ∷ s

  -- A RuntimeError is `none`.
  unfoldable pub validated : Settings → Option Settings
  validated s =
      let filled = record s {
        master_key = or_drawn s.master_key d.master_key;
        jwt_secret = or_drawn s.jwt_secret d.jwt_secret;
      } in
      if is_production s
      then (if not (is_text s.master_key) || not (is_text s.jwt_secret)
          then none
          else if ltb (length s.jwt_secret) min_jwt_secret
          then none
          else some s)
      else some filled
