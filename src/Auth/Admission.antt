-- ===== src/Auth/Admission.antt =====
-- The user whom a login leaves in the table, and that the token of the login is accepted.
use skyrecon.Base.{
  ℕ, ◌≡◌, refl, sym, ap, subst, ◌∙◌, arith, inl, inr, String, Bool, true, false, not, ◌&&◌, Option,
  none, some, List, [], ◌∷◌, ◌==◌, ==_iff, ==_refl, any, first, str_eq, str_eq_iff, Option-cases,
  Bool-cases, ◌⊎◌,
}
use skyrecon.Auth.{
  User, State, Server, TokenPair, Reply, ok, Fresh, put_user, find_user, find_user_by_email,
  record_audit, issue,
}
use skyrecon.Auth.Login.{
  LoginRequest, second_factor, open_session, rehashed, admit, authenticate, login,
}
use skyrecon.Auth.LoginLaws.{open_session-ok, login-cases, charged, authenticate-ok, admit-ok}
use skyrecon.Auth.Rotation.{first-holds}
use skyrecon.Auth.Access.{
  Claims, minted, read_access_token, admit_user, user_of_claims, current_user,
}

-- A row of that id stands in the table.
abbrev HasId : ℕ → List User → Type 0
HasId id us = any (λ (u : User). u.id == id) us ≡ true

first-HasId : (p : User → Bool) (u : User) (us : List User) → first p us ≡ some u → HasId u.id us
first-HasId p u [] f = ground (arith, f)
first-HasId p u (x ∷ us) f = ground (arith, f, first-HasId p u us, ==_refl u.id)

put_user-HasId : (id : ℕ) (v : User) (us : List User) → HasId id us → HasId id (put_user v us)
unfolding put_user
put_user-HasId id v [] h = h
put_user-HasId id v (x ∷ us) h =
    ground (arith, ==_iff x.id v.id, ==_iff x.id id, ==_iff v.id id, put_user-HasId id v us)

put_user-first :
    (v : User) (us : List User)
    → HasId v.id us
    → first (λ (u : User). u.id == v.id) (put_user v us) ≡ some v
unfolding put_user
put_user-first v [] h = ground (arith, h)
put_user-first v (x ∷ us) h = ground (arith, h, ==_refl v.id, put_user-first v us)

-- The columns that a login leaves as they are.
abbrev Same : User → User → Type 0
Same v u =
    (v.id ≡ u.id)
    × (v.role ≡ u.role)
    × (v.is_active ≡ u.is_active)
    × (v.mfa_enabled ≡ u.mfa_enabled)

second_factor-Same :
    (sv : Server) (totp : Option String) (u v : User) (mfa_ok : Bool) (st : State)
    → (second_factor sv totp u st).0 ≡ ok (v, mfa_ok)
    → Same v u
      × (((second_factor sv totp u st).1.users ≡ st.users)
          ⊎ ((second_factor sv totp u st).1.users ≡ put_user v st.users))
unfolding second_factor record_audit
second_factor-Same sv totp u v mfa_ok st h = elim (Bool-cases u.mfa_enabled) [
  | inl e ↦ elim (Option-cases (sv.open_mfa_secret u)) [
    | inl n ↦ ground (arith, h, n, e)
    | inr (secret, o) ↦ ground (arith, h, e, o)
  ]
  | inr e ↦ ground (arith, h, e)
]

-- The user whom a login that succeeds leaves under the user's id.
open_session-find :
    (sv : Server) (fresh : Fresh) (password : String) (v : User) (mfa_ok : Bool) (st : State)
    → HasId v.id st.users
    → (w : User) × (find_user v.id (open_session sv fresh password (ok (v, mfa_ok), st)).1 ≡ some w)
      × Same w v
      × (w.locked_until ≡ none)
unfolding find_user issue record_audit
open_session-find sv fresh password v mfa_ok st has =
    let w : User = record (rehashed sv password v) {
      last_login_at = some sv.now;
      failed_logins = 0;
      locked_until = none;
    } in
    (
      w,
      put_user-first w (put_user (rehashed sv password v) st.users)
          (put_user-HasId v.id (rehashed sv password v) st.users has),
      (refl, refl, refl, refl),
      refl,
    )

admit-open :
    (sv : Server) (fresh : Fresh) (body : LoginRequest) (u : User) (st : State) (pair : TokenPair)
    → (admit sv fresh body u st).0 ≡ ok pair
    → admit sv fresh body u st
      ≡ open_session sv fresh body.password (second_factor sv body.totp u st)
unfolding admit
admit-open sv fresh body u st pair h = ground (arith, h)

kept-HasId :
    (v u : User) (us vs : List User)
    → Same v u
    → (vs ≡ us) ⊎ (vs ≡ put_user v us)
    → HasId u.id us
    → HasId v.id vs
kept-HasId v u us vs same (inl e) has =
    subst (HasId v.id) (sym e) (subst (λ i. HasId i us) (sym same.0) has)
kept-HasId v u us vs same (inr e) has =
    subst (HasId v.id) (sym e) (put_user-HasId v.id v us (subst (λ i. HasId i us) (sym same.0) has))

admit-find :
    (sv : Server) (fresh : Fresh) (body : LoginRequest) (u : User) (st : State) (pair : TokenPair)
    → HasId u.id st.users
    → (admit sv fresh body u st).0 ≡ ok pair
    → (w : User) × (find_user u.id (admit sv fresh body u st).1 ≡ some w)
      × Same w u
      × (w.locked_until ≡ none)
admit-find sv fresh body u st pair has h =
    let went = admit-open sv fresh body u st pair h in
    let r = second_factor sv body.totp u st in
    let opened : (open_session sv fresh body.password (r.0, r.1)).0 ≡ ok pair =
      sym (ap (λ (q : Reply TokenPair × State). q.0) went) ∙ h in
    let (v, mfa_ok, was, subject, role, mfa) =
      open_session-ok sv fresh body.password u pair r.0 r.1 opened in
    let (same, kept) = second_factor-Same sv body.totp u v mfa_ok st was in
    let stands : HasId v.id r.1.users = kept-HasId v u st.users r.1.users same kept has in
    let (w, found, same', free) = open_session-find sv fresh body.password v mfa_ok r.1 stands in
    let result : admit sv fresh body u st
        ≡ open_session sv fresh body.password (ok (v, mfa_ok), r.1) =
      went ∙ ap (λ (q : Reply (User × Bool)). open_session sv fresh body.password (q, r.1)) was in
    (
      w,
      ap (λ (q : Reply TokenPair × State). find_user u.id q.1) result
          ∙ ap (λ i. find_user i (open_session sv fresh body.password (ok (v, mfa_ok), r.1)).1)
              (sym same.0)
          ∙ found,
      (same'.0 ∙ same.0, same'.1 ∙ same.1, same'.2 ∙ same.2, same'.3 ∙ same.3),
      free,
    )

authenticate-right :
    (sv : Server) (fresh : Fresh) (body : LoginRequest) (st : State) (u : User)
    → find_user_by_email sv body.email st ≡ some u
    → sv.verify_password body.password u.password_hash ≡ true
    → authenticate sv fresh body st ≡ admit sv fresh body u st
unfolding authenticate
authenticate-right sv fresh body st u found right = ground (arith, found, right)

find_user_by_email-HasId :
    (sv : Server) (email : String) (u : User) (st : State)
    → find_user_by_email sv email st ≡ some u
    → HasId u.id st.users
unfolding find_user_by_email
find_user_by_email-HasId sv email u st f =
    first-HasId (λ (w : User). w.email_index == sv.blind_index email) u st.users f

authenticate-find :
    (sv : Server) (fresh : Fresh) (body : LoginRequest) (st : State) (pair : TokenPair)
    → (authenticate sv fresh body st).0 ≡ ok pair
    → (w : User) × (find_user pair.subject (authenticate sv fresh body st).1 ≡ some w)
      × (pair.role ≡ w.role)
      × (pair.mfa ≡ w.mfa_enabled)
      × (w.is_active ≡ true)
      × (w.locked_until ≡ none)
authenticate-find sv fresh body st pair h =
    let (u, found, right, admitted) = authenticate-ok sv fresh body st pair h in
    let went = authenticate-right sv fresh body st u found right in
    let (unlocked, active, subject, role, mfa) = admit-ok sv fresh body u st pair admitted in
    let (w, kept, same, free) =
      admit-find sv fresh body u st pair (find_user_by_email-HasId sv body.email u st found)
        admitted in
    (
      w,
      ap (λ i. find_user i (authenticate sv fresh body st).1) subject
          ∙ ap (λ (q : Reply TokenPair × State). find_user u.id q.1) went
          ∙ kept,
      role ∙ sym same.1,
      mfa ∙ sym same.3,
      same.2 ∙ active,
      free,
    )

find_user-id : (id : ℕ) (st : State) (w : User) → find_user id st ≡ some w → w.id ≡ id
unfolding find_user
find_user-id id st w f = (==_iff w.id id).0 (first-holds (λ (u : User). u.id == id) st.users w f)

no_second_factor :
    (needed is_admin enabled claim : Bool)
    → claim ≡ enabled
    → (needed && (is_admin && (enabled && not claim))) ≡ false
no_second_factor needed is_admin enabled claim e = ground (arith, e)

minted-accepted :
    (sv : Server) (pair : TokenPair) (w : User)
    → pair.role ≡ w.role
    → pair.mfa ≡ w.mfa_enabled
    → w.is_active ≡ true
    → w.locked_until ≡ none
    → admit_user sv (minted pair) w ≡ ok w
unfolding admit_user minted
minted-accepted sv pair w role mfa active free = ground (
  arith,
  active,
  free,
  (str_eq_iff pair.role w.role).1 role,
  no_second_factor sv.require_admin_mfa (str_eq w.role "admin") w.mfa_enabled pair.mfa mfa,
)

current_user-found :
    (sv : Server) (decode : String → Option Claims) (token : String) (st : State) (pair : TokenPair)
    (w : User)
    → str_eq token "" ≡ false
    → decode token ≡ some (minted pair)
    → find_user pair.subject st ≡ some w
    → current_user sv decode (some token) st ≡ admit_user sv (minted pair) w
unfolding current_user read_access_token user_of_claims minted
current_user-found sv decode token st pair w given signed known =
    ground (arith, given, signed, known)

-- Right after a login the access token that it gave out is accepted: a server on which it decodes to the claims that were signed answers with the user of the login, an administrator without a second factor included, also where the settings require one of administrators.
pub login-current_user :
    (sv sv' : Server) (fresh : Fresh) (host : Option String) (body : LoginRequest) (st : State)
    (pair : TokenPair) (decode : String → Option Claims) (token : String)
    → (login sv fresh host body st).0 ≡ ok pair
    → decode token ≡ some (minted pair)
    → str_eq token "" ≡ false
    → (u : User) × (current_user sv' decode (some token) (login sv fresh host body st).1 ≡ ok u)
      × (u.id ≡ pair.subject)
login-current_user sv sv' fresh host body st pair decode token h signed given =
    elim (login-cases sv fresh host body st) [
      | inl (allowed, went) ↦
          let passed = sym (ap (λ (q : Reply TokenPair × State). q.0) went) ∙ h in
          let (w, known, role, mfa, active, free) =
            authenticate-find sv fresh body (charged sv host st) pair passed in
          let known' =
            ap (λ (q : Reply TokenPair × State). find_user pair.subject q.1) went ∙ known in
          (
            w,
            current_user-found sv' decode token _ pair w given signed known'
                ∙ minted-accepted sv' pair w role mfa active free,
            find_user-id pair.subject _ w known',
          )
      | inr refused ↦ ground (arith, refused, h)
    ]
