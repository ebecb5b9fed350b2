-- ===== src/Auth.antt =====
-- Accounts, sessions and the requests of app/routers/auth.py.
--
-- Row ids, digests, raw tokens and blind indexes are opaque numbers: the code only compares them. A
-- request reads the clock once. What the handlers call outside the source, and the parts of it that
-- are modelled elsewhere as functions of opaque values, are the fields of `Server`.
pub mod Login
pub mod Refresh
pub mod LoginLaws
pub mod Lockout
pub mod Access
pub mod Guarded
pub mod Admission
pub mod Admin
pub mod AdminLaws
pub mod Enrolment
pub mod EnrolmentLaws
pub mod Rotation
pub mod Families
pub mod Replay
mod Tests
mod AccessTests
mod AdminTests
use skyrecon.Base.{
  ℕ, suc, ◌+◌, ◌*◌, String, Bool, true, false, not, ◌&&◌, Option, none, some, List, [], ◌∷◌, ◌++◌,
  ltb, leb, ◌==◌, first, if◌then◌else◌,
}
use skyrecon.Audit.{AuditEntry, Body, DateTime, Digest, record_entry}
use skyrecon.RateLimit.{RateLimiter}

-- The columns of `users` that the handlers read or write.
pub record User : Type 0 where
  pub id : ℕ
  pub email_index : ℕ
  pub password_hash : String
  pub role : String
  pub is_active : Bool
  pub mfa_secret_sealed : Option String
  pub mfa_enabled : Bool
  pub recovery_hashes : List ℕ
  pub failed_logins : ℕ
  pub locked_until : Option ℕ
  pub last_login_at : Option ℕ
  pub password_changed_at : ℕ

-- A row of `sessions`, less its two sealed columns.
pub record SessionRow : Type 0 where
  pub id : ℕ
  pub user_id : ℕ
  pub family_id : ℕ
  pub refresh_hash : ℕ
  pub expires_at : ℕ
  pub revoked_at : Option ℕ
  pub replaced_by : Option ℕ

pub record State : Type 0 where
  pub users : List User
  pub sessions : List SessionRow
  pub audit : List AuditEntry
  pub login_limiter : RateLimiter

pub record Server : Type 0 where
  pub now : ℕ
  pub monotonic : ℕ
  pub resolution : ℕ
  pub day : ℕ
  pub minute : ℕ
  pub access_ttl_min : ℕ
  pub refresh_ttl_days : ℕ
  pub require_admin_mfa : Bool
  pub blind_index : String → ℕ
  pub verify_password : String → String → Bool
  pub hash_password : String → String
  pub needs_rehash : String → Bool
  pub check_policy : String → User → Bool
  pub open_mfa_secret : User → Option (Option String)
  pub verify_code : String → String → Bool
  pub hash_recovery_code : String → ℕ
  pub hash_refresh_token : ℕ → ℕ
  pub first_16 : ℕ → ℕ
  pub strip : String → String
  pub id_text : ℕ → String
  pub seal_detail : String → Option String
  pub isoformat : ℕ → String
  pub sha256_json : Body → Digest

-- The claims of an access token that the code reads again, and the refresh token with it.
pub record TokenPair : Type 0 where
  pub subject : ℕ
  pub role : String
  pub session_id : ℕ
  pub mfa : Bool
  pub expires : ℕ
  pub refresh_token : ℕ

-- A handler returns, or raises an HTTPException with a status.
pub data Reply (A : Type 0) : Type 0 where
  ok : A → Reply A
  http : ℕ → Reply A

abbrev pub is_some {ℓ} : {A : Type ℓ} → Option A → Bool
is_some none = false
is_some (some a) = true

abbrev pub map_option {ℓ κ} : {A : Type ℓ} {B : Type κ} → (A → B) → Option A → Option B
map_option f none = none
map_option f (some a) = some (f a)

abbrev pub max_failed : ℕ
max_failed = 5

abbrev pub lockout_minutes : ℕ
lockout_minutes = 15

-- `session.add(user)` of a loaded row.
unfoldable pub put_user : User → List User → List User
put_user u [] = []
put_user u (v ∷ vs) = (if v.id == u.id then u else v) ∷ put_user u vs

unfoldable pub put_session : SessionRow → List SessionRow → List SessionRow
put_session r [] = []
put_session r (s ∷ ss) = (if s.id == r.id then r else s) ∷ put_session r ss

unfoldable pub find_user_by_email : Server → String → State → Option User
find_user_by_email sv email st =
    first (λ (u : User). u.email_index == sv.blind_index email) st.users

unfoldable pub find_user : ℕ → State → Option User
find_user id st = first (λ (u : User). u.id == id) st.users

unfoldable pub find_session : Server → ℕ → State → Option SessionRow
find_session sv token st =
    first (λ (r : SessionRow). r.refresh_hash == sv.hash_refresh_token token) st.sessions

-- `audit.record`, which commits. The detail is sealed before it is stored.
unfoldable pub record_audit : Server → String → Option ℕ → String → String → State → State
record_audit sv action actor outcome target st = record st {
  audit =
      record_entry sv.isoformat sv.sha256_json
        (record {
          action = action;
          actor_id = map_option sv.id_text actor;
          target = target;
          outcome = outcome;
          detail_sealed = sv.seal_detail action;
          at = record { wall = sv.now; tzinfo = none };
        })
        st.audit;
}

-- `user.locked_until and user.locked_until > now`
abbrev pub is_after : Option ℕ → ℕ → Bool
is_after none now = false
is_after (some t) now = ltb now t

-- The random values of one request: a raw refresh token and a row id.
pub record Fresh : Type 0 where
  pub token : ℕ
  pub session_id : ℕ

abbrev pub family_or : ℕ → Option ℕ → ℕ
family_or new none = new
family_or new (some f) = f

-- `_issue`
unfoldable pub issue : Server → Fresh → Bool → Option ℕ → User → State → TokenPair × State
issue sv fresh mfa_ok family u st =
    let digest = sv.hash_refresh_token fresh.token in
    let row : SessionRow = record {
      id = fresh.session_id;
      user_id = u.id;
      family_id = family_or (sv.first_16 digest) family;
      refresh_hash = digest;
      expires_at = sv.now + sv.refresh_ttl_days * sv.day;
      revoked_at = none;
      replaced_by = none;
    } in
    let user = record u { last_login_at = some sv.now; failed_logins = 0; locked_until = none } in
    (
      record {
        subject = u.id;
        role = u.role;
        session_id = fresh.session_id;
        mfa = mfa_ok;
        expires = sv.now + sv.access_ttl_min * sv.minute;
        refresh_token = fresh.token;
      },
      record st { users = put_user user st.users; sessions = st.sessions ++ row ∷ [] },
    )
