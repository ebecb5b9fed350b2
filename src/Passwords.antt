-- ===== src/Passwords.antt =====
-- Passwords and the second factor: app/security/passwords.py and app/security/mfa.py.
--
-- Unicode normalisation, regular expressions, Argon2, TOTP and SHA-256 are the library's.
pub mod Verified
use skyrecon.Base.{
  ℕ, ◌+◌, String, Bool, true, false, not, ◌&&◌, ◌||◌, Option, none, some, List, [], ◌∷◌, ◌++◌, map,
  Text, codes, text_eq, ltb, leb, any, length, if◌then◌else◌,
}
use skyrecon.Rules.Operators.{contains}
use skyrecon.IocParser.{Pattern, before, at_sign}

-- The salt of a hash is drawn by the caller. A call that raises is `none`; `verify` takes the hash first.
pub record Platform : Type 0 where
  pub nfkc : Text → Text
  pub lower : Text → Text
  pub strip : Text → Text
  pub search : Pattern → Text → Bool
  pub is_digits : Text → Bool
  pub hash : Text → Text → Text
  pub verify : Text → Text → Option Bool
  pub check_needs_rehash : Text → Option Bool
  pub totp_verify : Text → Text → ℕ → Bool
  pub sha256_hex : Text → Text

abbrev pub min_length : ℕ
min_length = 12

-- `_COMMON`
abbrev pub common_passwords : List Text
common_passwords = map codes (
    "password" ∷ "passw0rd" ∷ "123456789012" ∷ "qwertyuiop12" ∷ "letmein12345" ∷ "administrator"
    ∷ "skyrecon1234" ∷ "changeme1234" ∷ [])

-- The reasons of a WeakPassword.
pub data Weakness : Type 0 where
  too_short common few_classes holds_email repeats : Weakness

abbrev pub cased : String → Pattern
cased p = record { pattern = p; ignore_case = false }

abbrev pub class_patterns : List Pattern
class_patterns = cased "[a-z]" ∷ cased "[A-Z]" ∷ cased "\\d" ∷ cased "[^\\w\\s]" ∷ []

abbrev pub repeat_pattern : Pattern
repeat_pattern = cased "(.)\\1{3,}"

abbrev pub drift_windows : ℕ
drift_windows = 1

module _ (pf : Platform) where
  unfoldable pub count_classes : List Pattern → Text → ℕ
  count_classes [] pw = 0
  count_classes (rx ∷ rxs) pw =
      let rest = count_classes rxs pw in if pf.search rx pw then 1 + rest else rest

  -- Whether the part of the address in front of the at sign, of at least four characters, is in it.
  unfoldable pub has_local_part : Text → Text → Bool
  has_local_part [] pw = false
  has_local_part (c ∷ s) pw =
      let local = pf.lower (before at_sign (c ∷ s)) in
      leb 4 (length local) && contains (pf.lower pw) local

  abbrev pub email_in : Option Text → Text → Bool
  email_in none pw = false
  email_in (some email) pw = has_local_part email pw

  -- An accepted password is `none`.
  unfoldable pub check_policy : Text → Option Text → Option Weakness
  check_policy password email =
      let pw = pf.nfkc password in
      if ltb (length pw) min_length
      then some too_short
      else if any (λ c. text_eq (pf.lower pw) c) common_passwords
      then some common
      else if ltb (count_classes class_patterns pw) 3
      then some few_classes
      else if email_in email pw
      then some holds_email
      else if pf.search repeat_pattern pw
      then some repeats
      else none

  unfoldable pub hash_password : Text → Text → Text
  hash_password salt password = pf.hash salt (pf.nfkc password)

  abbrev pub or_bool : Bool → Option Bool → Bool
  or_bool b none = b
  or_bool b (some c) = c

  unfoldable pub verify_password : Text → Text → Bool
  verify_password password stored_hash = or_bool false (pf.verify stored_hash (pf.nfkc password))

  unfoldable pub needs_rehash : Text → Bool
  needs_rehash stored_hash = or_bool true (pf.check_needs_rehash stored_hash)

  -- A code that is empty, or not of digits, is never handed to the library.
  unfoldable pub verify_code : Text → Text → Bool
  verify_code secret [] = false
  verify_code secret (c ∷ s) =
      let code = pf.strip (c ∷ s) in pf.is_digits code && pf.totp_verify secret code drift_windows

  unfoldable pub hash_recovery_code : Text → Text
  hash_recovery_code code = pf.sha256_hex (pf.lower (pf.strip code))

  abbrev pub dashed : Text × Text × Text → Text
  dashed (a, b, c) = a ++ codes "-" ++ b ++ codes "-" ++ c

  -- Of three drawn parts for each code: the codes to show once, and the digests to store.
  unfoldable pub new_recovery_codes : List (Text × Text × Text) → List Text × List Text
  new_recovery_codes parts = let shown = map dashed parts in (shown, map hash_recovery_code shown)
