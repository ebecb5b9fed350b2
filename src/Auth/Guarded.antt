-- ===== src/Auth/Guarded.antt =====
-- What the guards of app/deps.py let through, and that they let through a fresh login.
use skyrecon.Base.{
  ◌≡◌, refl, ap, subst, ◌∙◌, arith, inl, inr, String, true, false, not, ◌&&◌, Option, none, some,
  str_eq, str_eq_iff, Option-cases, Bool-cases,
}
use skyrecon.Rbac.{Permission, can}
use skyrecon.Auth.{User, State, Server, Reply, ok, http, is_after, find_user}
use skyrecon.Auth.Access.{
  Claims, is_text, read_access_token, admit_user, user_of_claims, current_user, guard, requires,
}

is_text→eq : (s : String) (o : Option String) → is_text s o ≡ true → o ≡ some s
is_text→eq s none h = ground arith
is_text→eq s (some t) h = ap some ((str_eq_iff t s).0 h)

guard-ok :
    (p : Permission) (r : Reply User) (u : User)
    → guard p r ≡ ok u
    → (r ≡ ok u) × (can u.role p ≡ true)
guard-ok p (http code) u h = ground arith
guard-ok p (ok v) u h = elim (Bool-cases (can v.role p)) [
  | inl h' ↦ (ground (arith, h, h'), ground (arith, h, h'))
  | inr h' ↦ ground (arith, h, h')
]

-- What `current_user` has checked of a user whom it returns.
abbrev Admitted : Server → Claims → User → Type 0
Admitted sv claims u =
    (claims.role ≡ some u.role)
    × (u.is_active ≡ true)
    × (is_after u.locked_until sv.now ≡ false)
    × ((sv.require_admin_mfa && (str_eq u.role "admin" && (u.mfa_enabled && not claims.mfa)))
        ≡ false)

admit_user-ok :
    (sv : Server) (claims : Claims) (u v : User)
    → admit_user sv claims u ≡ ok v
    → (u ≡ v) × Admitted sv claims u
unfolding admit_user
admit_user-ok sv claims u v h = (
  ground (arith, h),
  (
    is_text→eq u.role claims.role (ground (arith, h)),
    ground (arith, h),
    ground (arith, h),
    ground (arith, h),
  ),
)

user_of_claims-ok :
    (sv : Server) (o : Option Claims) (st : State) (u : User)
    → user_of_claims sv o st ≡ ok u
    → (claims : Claims) × (o ≡ some claims)
      × (find_user claims.sub st ≡ some u)
      × Admitted sv claims u
unfolding user_of_claims
user_of_claims-ok sv none st u h = ground (arith, h)
user_of_claims-ok sv (some claims) st u h = elim (Option-cases (find_user claims.sub st)) [
  | inl e ↦ ground (arith, h, e)
  | inr (v, e) ↦
      let (same, admitted) = admit_user-ok sv claims v u (ground (arith, h, e)) in
      (claims, refl, e ∙ ap some same, subst (Admitted sv claims) same admitted)
]

read_access_token-ok :
    (decode : String → Option Claims) (token : String) (claims : Claims)
    → read_access_token decode token ≡ some claims
    → (decode token ≡ some claims) × (claims.typ ≡ some "access")
unfolding read_access_token
read_access_token-ok decode token claims h = elim (Option-cases (decode token)) [
  | inl e ↦ ground (arith, h, e)
  | inr (c, e) ↦
      let same : c ≡ claims = ground (arith, h, e) in
      (
        e ∙ ap some same,
        subst (λ (d : Claims). d.typ ≡ some "access") same
            (is_text→eq "access" c.typ (ground (arith, h, e))),
      )
]

current_user-ok :
    (sv : Server) (decode : String → Option Claims) (creds : Option String) (st : State) (u : User)
    → current_user sv decode creds st ≡ ok u
    → (token : String) × (creds ≡ some token)
      × (user_of_claims sv (read_access_token decode token) st ≡ ok u)
unfolding current_user
current_user-ok sv decode none st u h = ground (arith, h)
current_user-ok sv decode (some token) st u h = (token, refl, ground (arith, h))

pub requires-ok :
    (p : Permission) (sv : Server) (decode : String → Option Claims) (creds : Option String)
    (st : State) (u : User)
    → requires p sv decode creds st ≡ ok u
    → (token : String) × (claims : Claims) × (creds ≡ some token)
      × (decode token ≡ some claims)
      × (claims.typ ≡ some "access")
      × (claims.role ≡ some u.role)
      × (find_user claims.sub st ≡ some u)
      × (u.is_active ≡ true)
      × (is_after u.locked_until sv.now ≡ false)
      × (can u.role p ≡ true)
      × ((sv.require_admin_mfa && (str_eq u.role "admin" && (u.mfa_enabled && not claims.mfa)))
          ≡ false)
unfolding requires
requires-ok p sv decode creds st u h =
    let (is_user, may) = guard-ok p (current_user sv decode creds st) u h in
    let (token, given, passed) = current_user-ok sv decode creds st u is_user in
    let (claims, read, known, (role, active, unlocked, mfa)) =
      user_of_claims-ok sv (read_access_token decode token) st u passed in
    let (signed, typ) = read_access_token-ok decode token claims read in
    (token, claims, given, signed, typ, role, known, active, unlocked, may, mfa)
