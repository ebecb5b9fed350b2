-- ===== src/Auth/Access.antt =====
-- The guards of app/deps.py, and the access tokens of app/security/tokens.py that they read.
--
-- `decode` stands for `jwt.decode` under the server's secret and issuer: the claims of a token with a
-- valid signature that has not expired, or nothing.
use skyrecon.Base.{ℕ, String, Bool, false, not, ◌&&◌, Option, none, some, str_eq, if◌then◌else◌}
use skyrecon.RateLimit.{RateLimiter, check}
use skyrecon.Rbac.{Permission, can}
use skyrecon.Auth.{User, State, Server, TokenPair, Reply, ok, http, is_after, find_user}
use skyrecon.Auth.Login.{client_identity}

-- The claims that the code reads, of which any but the subject may be missing.
pub record Claims : Type 0 where
  pub sub : ℕ
  pub role : Option String
  pub mfa : Bool
  pub typ : Option String

abbrev pub is_text : String → Option String → Bool
is_text s none = false
is_text s (some t) = str_eq t s

-- The payload that `make_access_token` signs.
unfoldable pub minted : TokenPair → Claims
minted pair = record {
  sub = pair.subject;
  role = some pair.role;
  mfa = pair.mfa;
  typ = some "access";
}

unfoldable pub read_access_token : (String → Option Claims) → String → Option Claims
read_access_token decode token = elim (decode token) [
  | none ↦ none
  | some claims ↦ if is_text "access" claims.typ then some claims else none
]

-- `current_user` for a user who was found.
unfoldable pub admit_user : Server → Claims → User → Reply User
admit_user sv claims u =
    if not u.is_active
    then http 401
    else if is_after u.locked_until sv.now
    then http 423
    else if not (is_text u.role claims.role)
    then http 401
    else if sv.require_admin_mfa && (str_eq u.role "admin" && (u.mfa_enabled && not claims.mfa))
    then http 403
    else ok u

unfoldable pub user_of_claims : Server → Option Claims → State → Reply User
user_of_claims sv none st = http 401
user_of_claims sv (some claims) st = elim (find_user claims.sub st) [
  | none ↦ http 401
  | some u ↦ admit_user sv claims u
]

unfoldable pub current_user : Server → (String → Option Claims) → Option String → State → Reply User
current_user sv decode none st = http 401
current_user sv decode (some token) st =
    if str_eq token "" then http 401 else user_of_claims sv (read_access_token decode token) st

abbrev pub guard : Permission → Reply User → Reply User
guard p (http code) = http code
guard p (ok u) = if can u.role p then ok u else http 403

unfoldable pub requires :
    Permission → Server → (String → Option Claims) → Option String → State → Reply User
requires p sv decode creds st = guard p (current_user sv decode creds st)

-- The limiter of all requests: the answer 429, or none, and the limiter that is left.
unfoldable pub rate_limited : Server → RateLimiter → Option String → RateLimiter × Reply Unit
rate_limited sv l host =
    let (l', allowed, wait) = check sv.resolution l (client_identity host) 1 sv.monotonic in
    (l', if allowed then ok tt else http 429)
