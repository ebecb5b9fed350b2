-- ===== src/Auth/Enrolment.antt =====
-- `mfa_enroll` and `mfa_confirm` of app/routers/auth.py.
--
-- `u` is the row as the request loaded it, and the state may have moved on since: the update is
-- conditional on what was loaded, and a request whose update does not hit exactly one row rolls back.
use skyrecon.Base.{
  ℕ, String, Bool, true, false, not, ◌&&◌, Option, none, some, List, [], ◌∷◌, suc, ◌==◌, str_eq,
  if◌then◌else◌,
}
use skyrecon.Auth.{User, State, Server, Reply, ok, http, record_audit}
use skyrecon.Auth.Login.{code_ok}

abbrev pub same_sealed : Option String → Option String → Bool
same_sealed none none = true
same_sealed none (some t) = false
same_sealed (some s) none = false
same_sealed (some s) (some t) = str_eq s t

-- The condition of both updates.
abbrev pub is_unchanged : User → User → Bool
is_unchanged u v =
    v.id == u.id && (not v.mfa_enabled && same_sealed v.mfa_secret_sealed u.mfa_secret_sealed)

-- `update(User).where(...).values(...)`, and its `rowcount`.
unfoldable pub update_where : (User → Bool) → (User → User) → List User → List User × ℕ
update_where p f [] = ([], 0)
update_where p f (v ∷ vs) =
    let (ws, n) = update_where p f vs in if p v then (f v ∷ ws, suc n) else (v ∷ ws, n)

-- A new sealed secret, and the digests of new recovery codes.
pub record Enrolment : Type 0 where
  pub sealed : String
  pub digests : List ℕ

abbrev pub commit_one : Server → String → User → (User → User) → State → Reply Unit × State
commit_one sv action u f st =
    let (users, rowcount) = update_where (is_unchanged u) f st.users in
    if rowcount == 1
    then (ok tt, record_audit sv action (some u.id) "ok" "" (record st { users = users }))
    else (http 409, st)

unfoldable pub mfa_enroll : Server → Enrolment → User → State → Reply Unit × State
mfa_enroll sv new u st =
    if u.mfa_enabled
    then (http 409, st)
    else commit_one sv "auth.mfa_enroll_start" u
        (λ v. record v { mfa_secret_sealed = some new.sealed; recovery_hashes = new.digests }) st

unfoldable pub mfa_confirm : Server → String → User → State → Reply Unit × State
mfa_confirm sv code u st = elim (sv.open_mfa_secret u) [
  | none ↦ (http 500, st)
  | some secret ↦
      if code_ok sv secret code
      then commit_one sv "auth.mfa_enabled" u (λ v. record v { mfa_enabled = true }) st
      else (http 400, st)
]
