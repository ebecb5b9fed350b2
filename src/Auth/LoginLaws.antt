-- ===== src/Auth/LoginLaws.antt =====
-- What a login that succeeds has checked, by stages of the handler.
use skyrecon.Base.{
  ℕ, ◌≡◌, refl, sym, ap, ◌∙◌, arith, inl, inr, String, Bool, true, false, Option, none, some,
  Option-cases, Bool-cases, ◌⊎◌, str_append, str_eq, List, [], ◌∷◌, Among, any, ◌==◌, ==_iff,
}
use skyrecon.RateLimit.{check}
use skyrecon.Auth.{
  User, State, Server, TokenPair, Reply, ok, http, Fresh, is_after, find_user_by_email, issue,
}
use skyrecon.Auth.Login.{
  LoginRequest, client_identity, text_or_empty, code_ok, second_factor, open_session, admit,
  authenticate, login,
}

-- What stands for the code that was typed.
abbrev pub typed : Server → Option String → String
typed sv totp = sv.strip (text_or_empty totp)

-- The user has no second factor, or the code is one of the user's secret, or a recovery code that is
-- still stored.
abbrev pub ProvedFactor : Server → Option String → User → Type 0
ProvedFactor sv totp u =
    (u.mfa_enabled ≡ false)
    ⊎ ((str_eq (typed sv totp) "" ≡ false)
        × (((secret : String) × (sv.open_mfa_secret u ≡ some (some secret))
              × (sv.verify_code secret (typed sv totp) ≡ true))
            ⊎ Among (sv.hash_recovery_code (typed sv totp)) u.recovery_hashes))

any-Among : (x : ℕ) (xs : List ℕ) → any (λ h. h == x) xs ≡ true → Among x xs
any-Among x [] h = cc h
any-Among x (y ∷ xs) h = elim (Bool-cases (y == x)) [
  | inl e ↦ inl (sym ((==_iff y x).0 e))
  | inr e ↦ inr (any-Among x xs (rw e at h))
]

code_ok-verify :
    (sv : Server) (secret : Option String) (code : String)
    → code_ok sv secret code ≡ true
    → (s : String) × (secret ≡ some s) × (sv.verify_code s code ≡ true)
code_ok-verify sv none code h = cc h
code_ok-verify sv (some s) code h = elim (Bool-cases (str_eq s "")) [
  | inl e ↦ cc (rw e at h)
  | inr e ↦ (s, refl, rw e at h)
]

second_factor-Proved :
    (sv : Server) (totp : Option String) (u v : User) (mfa_ok : Bool) (st : State)
    → (second_factor sv totp u st).0 ≡ ok (v, mfa_ok)
    → ProvedFactor sv totp u
unfolding second_factor
second_factor-Proved sv totp u v mfa_ok st h = elim (Bool-cases u.mfa_enabled) [
  | inr e ↦ inl e
  | inl e ↦ elim (Option-cases (sv.open_mfa_secret u)) [
    | inl n ↦ ground arith
    | inr (secret, o) ↦ elim (Bool-cases (str_eq (typed sv totp) "")) [
      | inl c ↦ ground arith
      | inr c ↦ elim (Bool-cases (code_ok sv secret (typed sv totp))) [
        | inl k ↦
            let (s, is, right) = code_ok-verify sv secret (typed sv totp) k in
            inr (c, inl (s, o ∙ ap some is, right))
        | inr k ↦
            elim (Bool-cases
              (any (λ h. h == sv.hash_recovery_code (typed sv totp)) u.recovery_hashes)) [
                | inl a ↦ inr (c, inr (any-Among _ _ a))
                | inr a ↦ ground arith
              ]
      ]
    ]
  ]
]

second_factor-ok :
    (sv : Server) (totp : Option String) (u v : User) (mfa_ok : Bool) (st : State)
    → (second_factor sv totp u st).0 ≡ ok (v, mfa_ok)
    → (mfa_ok ≡ u.mfa_enabled) × (v.id ≡ u.id) × (v.role ≡ u.role)
unfolding second_factor
second_factor-ok sv totp u v mfa_ok st h = elim (Bool-cases u.mfa_enabled) [
  | inl e ↦ elim (Option-cases (sv.open_mfa_secret u)) [
    | inl n ↦ ground arith
    | inr (secret, o) ↦ ground arith
  ]
  | inr e ↦ ground arith
]

pub open_session-ok :
    (sv : Server) (fresh : Fresh) (password : String) (u : User) (pair : TokenPair)
    (r : Reply (User × Bool)) (st : State)
    → (open_session sv fresh password (r, st)).0 ≡ ok pair
    → (v : User) × (mfa_ok : Bool) × (r ≡ ok (v, mfa_ok))
      × (pair.subject ≡ v.id)
      × (pair.role ≡ v.role)
      × (pair.mfa ≡ mfa_ok)
unfolding issue
open_session-ok sv fresh password u pair (http code) st h = ground arith
open_session-ok sv fresh password u pair (ok (v, mfa_ok)) st h =
    (v, mfa_ok, refl, ground arith, ground arith, ground arith)

pub admit-ok :
    (sv : Server) (fresh : Fresh) (body : LoginRequest) (u : User) (st : State) (pair : TokenPair)
    → (admit sv fresh body u st).0 ≡ ok pair
    → (is_after u.locked_until sv.now ≡ false)
      × (u.is_active ≡ true)
      × (pair.subject ≡ u.id)
      × (pair.role ≡ u.role)
      × (pair.mfa ≡ u.mfa_enabled)
unfolding admit
admit-ok sv fresh body u st pair h =
    let r = second_factor sv body.totp u st in
    let opened : (open_session sv fresh body.password (r.0, r.1)).0 ≡ ok pair = ground arith in
    let (v, mfa_ok, was, subject, role, mfa) =
      open_session-ok sv fresh body.password u pair r.0 r.1 opened in
    let (enabled, same, role') = second_factor-ok sv body.totp u v mfa_ok st was in
    (ground arith, ground arith, subject ∙ same, role ∙ role', mfa ∙ enabled)

admit-Proved :
    (sv : Server) (fresh : Fresh) (body : LoginRequest) (u : User) (st : State) (pair : TokenPair)
    → (admit sv fresh body u st).0 ≡ ok pair
    → ProvedFactor sv body.totp u
unfolding admit
admit-Proved sv fresh body u st pair h =
    let r = second_factor sv body.totp u st in
    let opened : (open_session sv fresh body.password (r.0, r.1)).0 ≡ ok pair = ground arith in
    let (v, mfa_ok, was, subject, role, mfa) =
      open_session-ok sv fresh body.password u pair r.0 r.1 opened in
    second_factor-Proved sv body.totp u v mfa_ok st was

pub authenticate-ok :
    (sv : Server) (fresh : Fresh) (body : LoginRequest) (st : State) (pair : TokenPair)
    → (authenticate sv fresh body st).0 ≡ ok pair
    → (u : User) × (find_user_by_email sv body.email st ≡ some u)
      × (sv.verify_password body.password u.password_hash ≡ true)
      × ((admit sv fresh body u st).0 ≡ ok pair)
unfolding authenticate
authenticate-ok sv fresh body st pair h =
    elim (Option-cases (find_user_by_email sv body.email st)) [
      | inl e ↦ ground arith
      | inr (u, e) ↦ (u, e, ground arith, ground arith)
    ]

-- The key of the limiter that a login from a host is charged to.
abbrev pub login_key : Option String → String
login_key host = str_append "login:" (client_identity host)

-- The state that the limiter leaves when a login comes from a host.
abbrev pub charged : Server → Option String → State → State
charged sv host st = record st {
  login_limiter = (check sv.resolution st.login_limiter (login_key host) 1 sv.monotonic).0;
}

pub login-cases :
    (sv : Server) (fresh : Fresh) (host : Option String) (body : LoginRequest) (st : State)
    → (((check sv.resolution st.login_limiter (login_key host) 1 sv.monotonic).1 ≡ true)
        × (login sv fresh host body st ≡ authenticate sv fresh body (charged sv host st)))
      ⊎ ((login sv fresh host body st).0 ≡ http 429)
unfolding login
login-cases sv fresh host body st =
    elim (Bool-cases (check sv.resolution st.login_limiter (login_key host) 1 sv.monotonic).1) [
      | inl h ↦ inl (h, ground (arith, h))
      | inr h ↦ inr (ground (arith, h))
    ]

pub find_user-charged :
    (sv sv' : Server) (host : Option String) (email : String) (st : State)
    → find_user_by_email sv email (charged sv' host st) ≡ find_user_by_email sv email st
unfolding find_user_by_email
find_user-charged sv sv' host email st = refl

-- A login that succeeds was let through by the limiter, named a user that exists, gave that user's password, found the account active and not locked, and, where the user has enabled a second factor, gave a code that verifies against the opened secret or a recovery code that was still stored; its pair carries the user, the role, and a second-factor claim equal to whether the user has enabled one.
pub login-ok :
    (sv : Server) (fresh : Fresh) (host : Option String) (body : LoginRequest) (st : State)
    (pair : TokenPair)
    → (login sv fresh host body st).0 ≡ ok pair
    → ((check sv.resolution st.login_limiter (login_key host) 1 sv.monotonic).1 ≡ true)
      × ((u : User) × (find_user_by_email sv body.email st ≡ some u)
          × (sv.verify_password body.password u.password_hash ≡ true)
          × (is_after u.locked_until sv.now ≡ false)
          × (u.is_active ≡ true)
          × (pair.subject ≡ u.id)
          × (pair.role ≡ u.role)
          × (pair.mfa ≡ u.mfa_enabled)
          × ProvedFactor sv body.totp u)
login-ok sv fresh host body st pair h = elim (login-cases sv fresh host body st) [
  | inl (allowed, went) ↦
      let st' = charged sv host st in
      let passed = sym (ap (λ (q : Reply TokenPair × State). q.0) went) ∙ h in
      let (u, found, right, admitted) = authenticate-ok sv fresh body st' pair passed in
      let (unlocked, active, subject, role, mfa) = admit-ok sv fresh body u st' pair admitted in
      let known = sym (find_user-charged sv sv host body.email st) ∙ found in
      let proved = admit-Proved sv fresh body u st' pair admitted in
      (allowed, (u, known, right, unlocked, active, subject, role, mfa, proved))
  | inr refused ↦ ground (arith, refused, h)
]
