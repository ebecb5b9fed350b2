-- ===== src/Auth/AccessTests.antt =====
-- The same analyst, asking for alerts with the token of a login, and replacing a second factor.
use skyrecon.Base.{
  ◌≡◌, refl, String, true, false, Option, none, some, [], ◌∷◌, str_eq, if◌then◌else◌, ◌≢◌,
}
use skyrecon.Rbac.{user_manage, can, permissions_for, role_of, grants}
use skyrecon.Auth.{User, State, ok, http, find_user}
use skyrecon.Auth.Login.{login}
use skyrecon.Auth.Access.{
  Claims, minted, read_access_token, admit_user, user_of_claims, current_user, requires,
}
use skyrecon.Auth.Admission.{login-current_user}
use skyrecon.Auth.Enrolment.{Enrolment, update_where, mfa_enroll, mfa_confirm}
use skyrecon.Auth.EnrolmentLaws.{mfa_confirm-stale}
use skyrecon.Auth.Tests.{server, ana, start, fresh, right, pair_of, login_runs}

abbrev decode : String → Option Claims
decode t = if str_eq t "token" then some (minted (pair_of true)) else none

users_runs : requires user_manage server decode (some "token") start ≡ http 403
unfolding requires current_user user_of_claims read_access_token minted admit_user find_user can
    permissions_for role_of grants
users_runs = refl

login-current_user_example :
    (u : User) × (current_user server decode (some "token") (login server fresh none right start).1
      ≡ ok u)
    × (u.id ≡ 1)
login-current_user_example =
    login-current_user server server fresh none right start (pair_of true) decode "token" login_runs
      refl refl

abbrev newcomer : User
newcomer = record ana { mfa_enabled = false; mfa_secret_sealed = some "first" }

abbrev table : State
table = record start { users = newcomer ∷ [] }

abbrev second : Enrolment
second = record { sealed = "second"; digests = 4 ∷ [] }

confirm_runs : (mfa_confirm server "123456" newcomer table).0 ≡ ok tt
unfolding mfa_confirm update_where
confirm_runs = refl

enroll_runs : (mfa_enroll server second newcomer table).0 ≡ ok tt
unfolding mfa_enroll update_where
enroll_runs = refl

mfa_confirm-stale_example :
    ((mfa_confirm server "123456" newcomer (mfa_enroll server second newcomer table).1).0 ≢ ok tt)
    × ((mfa_confirm server "123456" newcomer (mfa_enroll server second newcomer table).1).1
        ≡ (mfa_enroll server second newcomer table).1)
mfa_confirm-stale_example =
    mfa_confirm-stale server server second "123456" newcomer table enroll_runs refl
