-- ===== src/Auth/Login.antt =====
-- `login` of app/routers/auth.py, by stages: the limiter, the password, the state of the account, the
-- second factor, and the session.
use skyrecon.Base.{
  ℕ, ◌+◌, ◌*◌, String, Bool, true, false, not, Option, none, some, List, [], ◌∷◌, leb, ◌==◌, any,
  str_eq, str_append, if◌then◌else◌,
}
use skyrecon.RateLimit.{check}
use skyrecon.Auth.{
  User, State, Server, TokenPair, Reply, ok, http, Fresh, is_after, max_failed, lockout_minutes,
  put_user, find_user_by_email, record_audit, issue,
}

pub record LoginRequest : Type 0 where
  pub email : String
  pub password : String
  pub totp : Option String

-- `client_identity`: the address of the peer, or "?".
abbrev pub client_identity : Option String → String
client_identity none = "?"
client_identity (some ip) = if str_eq ip "" then "?" else ip

-- `x or ""`
abbrev pub text_or_empty : Option String → String
text_or_empty none = ""
text_or_empty (some s) = s

-- `remaining.remove(digest)`
unfoldable pub remove_one : ℕ → List ℕ → List ℕ
remove_one x [] = []
remove_one x (y ∷ ys) = if y == x then ys else y ∷ remove_one x ys

-- `secret and mfa.verify_code(secret, code)`
abbrev pub code_ok : Server → Option String → String → Bool
code_ok sv none code = false
code_ok sv (some secret) code = if str_eq secret "" then false else sv.verify_code secret code

-- A wrong password: the count, and the lock from the fifth on.
unfoldable pub count_failure : Server → User → State → State
count_failure sv u st =
    let failed = u.failed_logins + 1 in
    if leb max_failed failed
    then record_audit sv "auth.lockout" (some u.id) "locked" "" (record st {
      users =
          put_user
            (record u {
              failed_logins = failed;
              locked_until = some (sv.now + lockout_minutes * sv.minute);
            })
            st.users;
    })
    else record st { users = put_user (record u { failed_logins = failed }) st.users }

-- The answer and the user as the handler goes on with it.
unfoldable pub second_factor : Server → Option String → User → State → Reply (User × Bool) × State
second_factor sv totp u st =
    if not u.mfa_enabled then (ok (u, false), st) else elim (sv.open_mfa_secret u) [
      | none ↦ (http 500, st)
      | some secret ↦
          let code = sv.strip (text_or_empty totp) in
          let digest = sv.hash_recovery_code code in
          let used = record u { recovery_hashes = remove_one digest u.recovery_hashes } in
          if str_eq code ""
          then (http 401, record_audit sv "auth.mfa_required" (some u.id) "ok" "" st)
          else if code_ok sv secret code
          then (ok (u, true), st)
          else if any (λ h. h == digest) u.recovery_hashes
          then (
            ok (used, true),
            record_audit sv "auth.recovery_code_used" (some u.id) "ok" ""
                (record st { users = put_user used st.users }),
          )
          else (http 401, record_audit sv "auth.mfa" (some u.id) "failure" "" st)
    ]

abbrev pub rehashed : Server → String → User → User
rehashed sv password u = record u {
  password_hash =
      if sv.needs_rehash u.password_hash then sv.hash_password password else u.password_hash;
}

abbrev pub open_session :
    Server → Fresh → String → Reply (User × Bool) × State → Reply TokenPair × State
open_session sv fresh password (http code, st) = (http code, st)
open_session sv fresh password (ok (u, mfa_ok), st) =
    let v = rehashed sv password u in
    let audited =
      record_audit sv "auth.login" (some u.id) "ok" ""
        (record st { users = put_user v st.users }) in
    let (pair, st') = issue sv fresh mfa_ok none v audited in (ok pair, st')

-- The handler once the password is known to be right.
unfoldable pub admit : Server → Fresh → LoginRequest → User → State → Reply TokenPair × State
admit sv fresh body u st =
    if is_after u.locked_until sv.now
    then (http 423, st)
    else if not u.is_active
    then (http 403, st)
    else open_session sv fresh body.password (second_factor sv body.totp u st)

unfoldable pub authenticate : Server → Fresh → LoginRequest → State → Reply TokenPair × State
authenticate sv fresh body st = elim (find_user_by_email sv body.email st) [
  | none ↦ (http 401, record_audit sv "auth.login" none "failure" body.email st)
  | some u ↦
      if sv.verify_password body.password u.password_hash then admit sv fresh body u st else (
        http 401,
        record_audit sv "auth.login" none "failure" body.email (count_failure sv u st),
      )
]

unfoldable pub login :
    Server → Fresh → Option String → LoginRequest → State → Reply TokenPair × State
login sv fresh host body st =
    let key = str_append "login:" (client_identity host) in
    let (limiter, allowed, wait) = check sv.resolution st.login_limiter key 1 sv.monotonic in
    let st' = record st { login_limiter = limiter } in
    if allowed then authenticate sv fresh body st' else (http 429, st')
