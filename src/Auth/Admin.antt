-- ===== src/Auth/Admin.antt =====
-- The user administration of app/routers/admin.py.
--
-- A row of `users` is less its two sealed texts, as in `User`. `check_policy` of
-- app/security/passwords.py is an argument. Of what the framework checks in a request, the role alone is
-- modelled.
use skyrecon.Base.{
  ℕ, String, Bool, true, false, not, ◌&&◌, ◌||◌, Option, none, some, [], ◌∷◌, ◌++◌, ◌==◌, str_eq,
  if◌then◌else◌,
}
use skyrecon.Rbac.{user_manage}
use skyrecon.Auth.{
  User, State, Server, Reply, ok, http, put_user, find_user, find_user_by_email, record_audit,
}
use skyrecon.Auth.Access.{Claims, requires}

pub record CreateUserRequest : Type 0 where
  pub email : String
  pub password : String
  pub role : String

-- `role in {"viewer", "analyst", "admin"}`
unfoldable pub known_role : String → Bool
known_role role = str_eq role "viewer" || (str_eq role "analyst" || str_eq role "admin")

unfoldable pub new_user : Server → ℕ → CreateUserRequest → User
new_user sv id body = record {
  id = id;
  email_index = sv.blind_index body.email;
  password_hash = sv.hash_password body.password;
  role = body.role;
  is_active = true;
  mfa_secret_sealed = none;
  mfa_enabled = false;
  recovery_hashes = [];
  failed_logins = 0;
  locked_until = none;
  last_login_at = none;
  password_changed_at = sv.now;
}

-- The validator of the request refuses an unknown role.
unfoldable pub create_user :
    Server → (String → String → Bool) → ℕ → CreateUserRequest → User → State → Reply User × State
create_user sv check_policy id body actor st =
    if not (known_role body.role)
    then (http 422, st)
    else elim (find_user_by_email sv body.email st) [
      | some u ↦ (http 409, st)
      | none ↦
          if not (check_policy body.password body.email)
          then (http 422, st)
          else let user = new_user sv id body in
            (
              ok user,
              record_audit sv "user.create" (some actor.id) "ok" (sv.id_text user.id)
                  (record st { users = st.users ++ user ∷ [] }),
            )
    ]

unfoldable pub with_role : String → User → User
with_role role u = record u { role = role }

unfoldable pub set_role : Server → ℕ → String → User → State → Reply User × State
set_role sv user_id role actor st =
    if not (known_role role) then (http 400, st) else elim (find_user user_id st) [
      | none ↦ (http 404, st)
      | some u ↦ if (u.id == actor.id) && not (str_eq role "admin") then (http 400, st) else (
        ok (with_role role u),
        record_audit sv "user.role_change" (some actor.id) "ok" (sv.id_text user_id)
            (record st { users = put_user (with_role role u) st.users }),
      )
    ]

unfoldable pub inactive : User → User
inactive u = record u { is_active = false }

unfoldable pub disable_user : Server → ℕ → User → State → Reply User × State
disable_user sv user_id actor st = elim (find_user user_id st) [
  | none ↦ (http 404, st)
  | some u ↦ if u.id == actor.id then (http 400, st) else (
    ok (inactive u),
    record_audit sv "user.disable" (some actor.id) "ok" (sv.id_text user_id)
        (record st { users = put_user (inactive u) st.users }),
  )
]

-- What a request of the administration asks for.
pub data AdminRequest : Type 0 where
  create : ℕ → CreateUserRequest → AdminRequest
  promote : ℕ → String → AdminRequest
  disable : ℕ → AdminRequest

unfoldable pub handle :
    Server → (String → String → Bool) → AdminRequest → User → State → Reply User × State
handle sv check_policy (create id body) actor st = create_user sv check_policy id body actor st
handle sv check_policy (promote user_id role) actor st = set_role sv user_id role actor st
handle sv check_policy (disable user_id) actor st = disable_user sv user_id actor st

-- A request behind its guard.
unfoldable pub answer :
    Server
    → (String → String → Bool)
    → (String → Option Claims)
    → Option String
    → AdminRequest
    → State
    → Reply User × State
answer sv check_policy decode creds request st = elim (requires user_manage sv decode creds st) [
  | http code ↦ (http code, st)
  | ok actor ↦ handle sv check_policy request actor st
]
