-- ===== src/Auth/AdminTests.antt =====
-- Requests of an administrator, and of one who tries to lock everyone out.
use skyrecon.Base.{
  ◌≡◌, refl, String, Bool, true, Option, none, some, List, [], ◌∷◌, str_eq, if◌then◌else◌,
}
use skyrecon.Rbac.{can, permissions_for, role_of, grants}
use skyrecon.Auth.{User, State, http, find_user, put_user, record_audit}
use skyrecon.Auth.Access.{
  Claims, read_access_token, admit_user, user_of_claims, current_user, requires,
}
use skyrecon.Auth.Admin.{inactive, disable_user, promote, disable, handle, answer}
use skyrecon.Auth.AdminLaws.{HasAdmin, AdminCall, answers, answers-HasAdmin}
use skyrecon.Auth.Tests.{server, ana, start}

abbrev root : User
root = record ana { id = 9; role = "admin" }

abbrev staff : State
staff = record start { users = root ∷ ana ∷ [] }

abbrev decode : String → Option Claims
decode t =
    if str_eq t "root"
    then some (record { sub = 9; role = some "admin"; mfa = true; typ = some "access" })
    else none

abbrev any_password : String → String → Bool
any_password password email = true

abbrev calls : List AdminCall
calls =
    (server, some "root", promote 1 "admin")
    ∷ (server, some "root", disable 9)
    ∷ (server, some "root", promote 9 "viewer")
    ∷ (server, none, disable 1)
    ∷ []

answers-HasAdmin_example : HasAdmin (answers any_password decode calls staff)
answers-HasAdmin_example = answers-HasAdmin any_password decode calls staff refl

-- Nobody disables themselves.
self_runs : (answer server any_password decode (some "root") (disable 9) staff).0 ≡ http 400
unfolding answer handle disable_user requires current_user user_of_claims read_access_token
    admit_user find_user can permissions_for role_of grants
self_runs = refl

-- Another user is disabled.
disable_runs :
    (answer server any_password decode (some "root") (disable 1) staff).1.users
    ≡ root ∷ inactive ana ∷ []
unfolding answer handle disable_user requires current_user user_of_claims read_access_token
    admit_user find_user can permissions_for role_of grants put_user record_audit inactive
disable_runs = refl
