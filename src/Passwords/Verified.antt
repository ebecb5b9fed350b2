-- ===== src/Passwords/Verified.antt =====
-- What a stored password hash and a stored digest still accept.
use skyrecon.Base.{◌≡◌, refl, ap, ◌∙◌, inl, inr, true, some, List, [], ◌∷◌, Text, Among}
use skyrecon.Passwords.{
  Platform, hash_password, verify_password, hash_recovery_code, new_recovery_codes,
}

-- What the documentation of Argon2 promises: a hash verifies the text it was made of.
abbrev pub Verifies : Platform → Type 0
Verifies pf = (salt pw : Text) → pf.verify (pf.hash salt pw) pw ≡ some true

-- A password that is the same after Unicode normalisation is accepted for the stored hash.
pub verify_password-hash_password :
    (pf : Platform) (salt password typed : Text)
    → Verifies pf
    → pf.nfkc typed ≡ pf.nfkc password
    → verify_password pf typed (hash_password pf salt password) ≡ true
unfolding verify_password hash_password
verify_password-hash_password pf salt password typed law same =
    rw same (rw (law salt (pf.nfkc password)) refl)

-- A recovery code that was shown, typed with other case and space around it, has its digest stored.
pub hash_recovery_code-Among :
    (pf : Platform) (parts : List (Text × Text × Text)) (shown typed : Text)
    → Among shown (new_recovery_codes pf parts).0
    → pf.lower (pf.strip typed) ≡ pf.lower (pf.strip shown)
    → Among (hash_recovery_code pf typed) (new_recovery_codes pf parts).1
unfolding new_recovery_codes hash_recovery_code
hash_recovery_code-Among pf [] shown typed m h = absurd m
hash_recovery_code-Among pf (p ∷ parts) shown typed m h = elim m [
  | inl e ↦ inl (ap pf.sha256_hex (h ∙ ap (λ s. pf.lower (pf.strip s)) e))
  | inr n ↦ inr (hash_recovery_code-Among pf parts shown typed n h)
]
