-- ===== src/Auth/Tests.antt =====
-- An analyst with a second factor, signed in once, on a server with transparent digests.
use skyrecon.Base.{
  List, ◌≡◌, refl, arith, Bool, true, false, none, some, [], ◌∷◌, ◌+◌, ◌≤◌, str_eq, All,
  if◌then◌else◌,
}
use skyrecon.Dict.{lookup, insert}
use skyrecon.RateLimit.{check, check_bucket}
use skyrecon.Auth.{
  User, SessionRow, State, Server, TokenPair, ok, http, Fresh, is_some, is_after, put_user,
  put_session, find_user_by_email, find_user, find_session, record_audit, issue,
}
use skyrecon.Auth.Login.{LoginRequest, remove_one, second_factor, admit, authenticate, login}
use skyrecon.Auth.Refresh.{revoke_where, rotate, renew, refresh, change_password, logout}
use skyrecon.Auth.LoginLaws.{ProvedFactor, login-ok, login_key}
use skyrecon.Auth.Lockout.{Attempt, logins, login-lock, Refused}
use skyrecon.Auth.Families.{refresh-count_live, count_live}
use skyrecon.Auth.Replay.{refresh-once, change_password-refresh}

abbrev pub server : Server
server = record {
  now = 1000;
  monotonic = 1000;
  resolution = 1;
  day = 86400;
  minute = 60;
  access_ttl_min = 15;
  refresh_ttl_days = 14;
  require_admin_mfa = true;
  blind_index = λ s. if str_eq s "ana@sky" then 7 else 0;
  verify_password = λ p h. str_eq p h;
  hash_password = λ p. p;
  needs_rehash = λ h. false;
  check_policy = λ p u. true;
  open_mfa_secret = λ u. some u.mfa_secret_sealed;
  verify_code = λ s c. str_eq c "123456";
  hash_recovery_code = λ c. if str_eq c "spare" then 9 else 0;
  hash_refresh_token = λ t. t + 100;
  first_16 = λ d. d;
  strip = λ s. s;
  id_text = λ i. "id";
  seal_detail = λ a. none;
  isoformat = λ t. "at";
  sha256_json = λ b. b.prev;
}

abbrev pub ana : User
ana = record {
  id = 1;
  email_index = 7;
  password_hash = "right";
  role = "analyst";
  is_active = true;
  mfa_secret_sealed = some "secret";
  mfa_enabled = true;
  recovery_hashes = 8 ∷ 9 ∷ [];
  failed_logins = 4;
  locked_until = none;
  last_login_at = none;
  password_changed_at = 0;
}

abbrev session : SessionRow
session = record {
  id = 50;
  user_id = 1;
  family_id = 150;
  refresh_hash = 150;
  expires_at = 5000;
  revoked_at = none;
  replaced_by = none;
}

abbrev pub start : State
start = record {
  users = ana ∷ [];
  sessions = session ∷ [];
  audit = [];
  login_limiter = record { capacity = 8; window_seconds = 300; buckets = [] };
}

abbrev pub fresh : Fresh
fresh = record { token = 60; session_id = 51 }

abbrev pub right : LoginRequest
right = record { email = "ana@sky"; password = "right"; totp = some "123456" }

abbrev wrong : LoginRequest
wrong = record { email = "ana@sky"; password = "wrong"; totp = none }

abbrev spare : LoginRequest
spare = record { email = "ana@sky"; password = "right"; totp = some "spare" }

abbrev pub pair_of : Bool → TokenPair
pair_of mfa = record {
  subject = 1;
  role = "analyst";
  session_id = 51;
  mfa = mfa;
  expires = 1900;
  refresh_token = 60;
}

pub login_runs : (login server fresh none right start).0 ≡ ok (pair_of true)
unfolding login check check_bucket lookup insert authenticate find_user_by_email admit second_factor
    issue
login_runs = refl

-- The second time, the recovery code is gone.
spare_runs : (login server fresh none spare (login server fresh none spare start).1).0 ≡ http 401
unfolding login check check_bucket lookup insert authenticate find_user_by_email admit second_factor
    issue record_audit put_user remove_one
spare_runs = refl

login-ok_example :
    ((check 1 start.login_limiter (login_key none) 1 1000).1 ≡ true)
    × ((u : User) × (find_user_by_email server "ana@sky" start ≡ some u)
        × (server.verify_password "right" u.password_hash ≡ true)
        × (is_after u.locked_until 1000 ≡ false)
        × (u.is_active ≡ true)
        × (1 ≡ u.id)
        × ("analyst" ≡ u.role)
        × (true ≡ u.mfa_enabled)
        × ProvedFactor server right.totp u)
login-ok_example = login-ok server fresh none right start (pair_of true) login_runs

wrong_runs : (login server fresh none wrong start).0 ≡ http 401
unfolding login check check_bucket lookup insert authenticate find_user_by_email
wrong_runs = refl

-- A wrong password from elsewhere and then the right one.
abbrev tries : List Attempt
tries =
    record {
      sv = record server { now = 1500 };
      fresh = fresh;
      host = some "10.0.0.1";
      body = wrong;
    }
    ∷ record {
      sv = record server { now = 1800 };
      fresh = fresh;
      host = some "10.0.0.2";
      body = right;
    }
    ∷ []

login-lock_example : All Refused (logins tries (login server fresh none wrong start).1)
unfolding find_user_by_email
login-lock_example =
    login-lock server fresh none wrong tries start ana refl refl (omega arith) wrong_runs (
      (refl, refl, refl, omega arith, omega arith),
      ((refl, refl, refl, omega arith, omega arith), tt),
    )

refresh_runs : (refresh server fresh 50 start).0 ≡ ok (pair_of true)
unfolding refresh find_session renew find_user rotate issue
refresh_runs = refl

refresh-once_example :
    ((refresh server fresh 50 (refresh server fresh 50 start).1).0 ≡ http 401)
    × ((row : SessionRow) × (find_session server 50 start ≡ some row)
        × All
            (λ (r : SessionRow). r.family_id ≡ row.family_id → is_some r.revoked_at ≡ true)
            (refresh server fresh 50 (refresh server fresh 50 start).1).1.sessions)
refresh-once_example =
    refresh-once server server fresh fresh 50 start (pair_of true) refl refresh_runs

change_runs : (change_password server "right" "new" ana start).0 ≡ ok tt
unfolding change_password
change_runs = refl

abbrev revoked : SessionRow
revoked = record session { revoked_at = some 1000 }

found_runs :
    find_session server 50 (change_password server "right" "new" ana start).1 ≡ some revoked
unfolding change_password find_session revoke_where record_audit
found_runs = refl

change_password-refresh_example :
    (server.verify_password "right" ana.password_hash ≡ true)
    × (server.check_policy "new" ana ≡ true)
    × ((refresh server fresh 50 (change_password server "right" "new" ana start).1).0 ≡ http 401)
change_password-refresh_example =
    change_password-refresh server server "right" "new" ana start fresh 50 revoked change_runs
      found_runs refl

logout_runs : (refresh server fresh 50 (logout server 50 start)).0 ≡ http 401
unfolding logout find_session put_session record_audit refresh
logout_runs = refl

refresh-count_live_example :
    count_live 150 (refresh server fresh 50 start).1.sessions ≤ count_live 150 start.sessions
refresh-count_live_example = refresh-count_live server fresh 50 start 150

live_runs : count_live 150 (refresh server fresh 50 start).1.sessions ≡ 1
unfolding refresh find_session renew find_user rotate issue record_audit put_session count_live
live_runs = refl
