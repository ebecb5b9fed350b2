-- ===== src/Auth/Refresh.antt =====
-- `refresh`, `logout` and `change_password` of app/routers/auth.py: what they do to the sessions.
use skyrecon.Base.{
  ℕ, String, Bool, not, Option, none, some, List, [], ◌∷◌, ltb, ◌==◌, if◌then◌else◌,
}
use skyrecon.Auth.{
  User, SessionRow, State, Server, TokenPair, Reply, ok, http, Fresh, put_user, put_session,
  find_user, find_session, record_audit, issue,
}

-- `revoked_at or utcnow()`
abbrev pub earlier_or : ℕ → Option ℕ → ℕ
earlier_or now none = now
earlier_or now (some t) = t

abbrev pub revoke : ℕ → SessionRow → SessionRow
revoke now r = record r { revoked_at = some (earlier_or now r.revoked_at) }

-- Revokes the rows that pass a test.
unfoldable pub revoke_where : (SessionRow → Bool) → ℕ → List SessionRow → List SessionRow
revoke_where p now [] = []
revoke_where p now (r ∷ rs) = (if p r then revoke now r else r) ∷ revoke_where p now rs

-- `row.revoked_at = utcnow()`, `row.replaced_by = ...`
abbrev pub burn : Server → ℕ → SessionRow → SessionRow
burn sv successor row = record row {
  revoked_at = some sv.now;
  replaced_by = some (sv.first_16 (sv.hash_refresh_token successor));
}

-- A token of the user goes on in the family of the row, and the row is burned.
unfoldable pub rotate : Server → Fresh → SessionRow → User → State → Reply TokenPair × State
rotate sv fresh row u st =
    let (pair, st') = issue sv fresh u.mfa_enabled (some row.family_id) u st in
    (
      ok pair,
      record_audit sv "auth.refresh" (some u.id) "ok" ""
          (record st' { sessions = put_session (burn sv pair.refresh_token row) st'.sessions }),
    )

-- The handler for a row that is not revoked.
unfoldable pub renew : Server → Fresh → SessionRow → State → Reply TokenPair × State
renew sv fresh row st =
    if ltb row.expires_at sv.now then (http 401, st) else elim (find_user row.user_id st) [
      | none ↦ (http 401, st)
      | some u ↦ if u.is_active then rotate sv fresh row u st else (http 401, st)
    ]

-- The handler for a row that was revoked: its family is revoked.
unfoldable pub revoke_family : Server → SessionRow → State → State
revoke_family sv row st =
    record_audit sv "auth.refresh_replay" (some row.user_id) "revoked_family"
      (sv.id_text row.family_id)
      (record st {
        sessions =
            revoke_where (λ (r : SessionRow). r.family_id == row.family_id) sv.now st.sessions;
      })

unfoldable pub refresh : Server → Fresh → ℕ → State → Reply TokenPair × State
refresh sv fresh token st = elim (find_session sv token st) [
  | none ↦ (http 401, st)
  | some row ↦ elim row.revoked_at [
    | none ↦ renew sv fresh row st
    | some t ↦ (http 401, revoke_family sv row st)
  ]
]

unfoldable pub logout : Server → ℕ → State → State
logout sv token st = elim (find_session sv token st) [
  | none ↦ st
  | some row ↦ elim row.revoked_at [
    | none ↦
        record_audit sv "auth.logout" (some row.user_id) "ok" ""
          (record st { sessions = put_session (revoke sv.now row) st.sessions })
    | some t ↦ st
  ]
]

unfoldable pub change_password : Server → String → String → User → State → Reply Unit × State
change_password sv current new u st =
    if not (sv.verify_password current u.password_hash)
    then (http 401, record_audit sv "auth.password_change" (some u.id) "failure" "" st)
    else if not (sv.check_policy new u)
    then (http 422, st)
    else (
      ok tt,
      record_audit sv "auth.password_change" (some u.id) "ok" "" (record st {
        users =
            put_user
              (record u { password_hash = sv.hash_password new; password_changed_at = sv.now })
              st.users;
        sessions = revoke_where (λ (r : SessionRow). r.user_id == u.id) sv.now st.sessions;
      }),
    )
