-- ===== src/Auth/Lockout.antt =====
-- The lock after wrong passwords: the user whom a failure leaves in the table, and the logins that follow.
use skyrecon.Base.{
  ℕ, ◌≡◌, refl, sym, ap, subst, ◌∙◌, arith, inl, inr, String, Bool, true, false, Option, none, some,
  List, [], ◌∷◌, ◌+◌, ◌*◌, ◌<◌, ◌≤◌, ◌==◌, ==_iff, first, Bool-cases, ◌⊎◌, All,
}
use skyrecon.Auth.{
  User, State, Server, TokenPair, Reply, http, Fresh, is_after, max_failed, lockout_minutes,
  put_user, find_user_by_email, record_audit,
}
use skyrecon.Auth.Rotation.{first-holds}
use skyrecon.Auth.Login.{LoginRequest, count_failure, admit, authenticate, login}
use skyrecon.RateLimit.{check}
use skyrecon.Auth.LoginLaws.{login-cases, login_key, charged, find_user-charged}

first-put_user :
    (p : User → Bool) (u v : User) (us : List User)
    → first p us ≡ some u
    → v.id ≡ u.id
    → p v ≡ true
    → first p (put_user v us) ≡ some v
unfolding put_user
first-put_user p u v [] f i h = ground arith
first-put_user p u v (x ∷ us) f i h = ground (arith, ==_iff x.id v.id, first-put_user p u v us)

authenticate-wrong :
    (sv : Server) (fresh : Fresh) (body : LoginRequest) (st : State) (u : User)
    → find_user_by_email sv body.email st ≡ some u
    → sv.verify_password body.password u.password_hash ≡ false
    → authenticate sv fresh body st
      ≡ (http 401, record_audit sv "auth.login" none "failure" body.email (count_failure sv u st))
unfolding authenticate
authenticate-wrong sv fresh body st u found wrong = ground arith

-- A user who is locked out gets 423 for the right password and 401 for another.
authenticate-locked :
    (sv : Server) (fresh : Fresh) (body : LoginRequest) (st : State) (u : User)
    → find_user_by_email sv body.email st ≡ some u
    → is_after u.locked_until sv.now ≡ true
    → ((authenticate sv fresh body st).0 ≡ http 401)
      ⊎ ((authenticate sv fresh body st).0 ≡ http 423)
unfolding authenticate admit
authenticate-locked sv fresh body st u found locked =
    elim (Bool-cases (sv.verify_password body.password u.password_hash)) [
      | inl h ↦ inr (ground arith)
      | inr h ↦ inl (ground arith)
    ]

-- The answers of a login that is turned away.
abbrev pub Refused : Reply TokenPair → Type 0
Refused answer = (answer ≡ http 429) ⊎ ((answer ≡ http 401) ⊎ (answer ≡ http 423))

login-locked :
    (sv : Server) (fresh : Fresh) (host : Option String) (body : LoginRequest) (st : State)
    (u : User)
    → find_user_by_email sv body.email st ≡ some u
    → is_after u.locked_until sv.now ≡ true
    → Refused (login sv fresh host body st).0
login-locked sv fresh host body st u found locked = elim (login-cases sv fresh host body st) [
  | inl (allowed, went) ↦
      subst (λ (q : Reply TokenPair × State). Refused q.0) (sym went)
        (inr (
          authenticate-locked sv fresh body (charged sv host st) u
            (find_user-charged sv sv host body.email st ∙ found) locked))
  | inr limited ↦ inl limited
]

find_user-audit :
    (sv : Server) (email : String) (st : State)
    → find_user_by_email sv email (record_audit sv "auth.login" none "failure" email st)
      ≡ find_user_by_email sv email st
unfolding find_user_by_email record_audit
find_user-audit sv email st = refl

find_user-index :
    (sv sv' : Server) (email' email : String) (st : State)
    → sv'.blind_index ≡ sv.blind_index
    → email' ≡ email
    → find_user_by_email sv' email' st ≡ find_user_by_email sv email st
unfolding find_user_by_email
find_user-index sv sv' email' email st index same =
    let find : ℕ → Option User = λ i. first (λ (w : User). w.email_index == i) st.users in
    ap (λ (f : String → ℕ). find (f email')) index ∙ ap (λ e. find (sv.blind_index e)) same

-- A login: the server with its clock, what it draws, where it comes from, and its request.
pub record Attempt : Type 0 where
  pub sv : Server
  pub fresh : Fresh
  pub host : Option String
  pub body : LoginRequest

-- The logins of a run, one behind the other: their answers.
unfoldable pub logins : List Attempt → State → List (Reply TokenPair)
logins [] st = []
logins (a ∷ rest) st =
    let (answer, st') = login a.sv a.fresh a.host a.body st in answer ∷ logins rest st'

-- A login for the address, on the same service, in the fifteen minutes after one.
abbrev pub Within : Server → String → Attempt → Type 0
Within sv email a =
    (a.body.email ≡ email)
    × (a.sv.blind_index ≡ sv.blind_index)
    × (a.sv.minute ≡ sv.minute)
    × (sv.now ≤ a.sv.now)
    × (a.sv.now < sv.now + lockout_minutes * sv.minute)

-- The user of the address has used up the attempts, and is locked out until an instant at least.
abbrev Locked : Server → String → ℕ → State → Type 0
Locked sv email end st =
    (u : User) × (find_user_by_email sv email st ≡ some u)
    × (max_failed ≤ u.failed_logins + 1)
    × ((until : ℕ) × (u.locked_until ≡ some until) × (end ≤ until))

count_failure-Locked :
    (sv : Server) (email : String) (u : User) (st : State)
    → find_user_by_email sv email st ≡ some u
    → max_failed ≤ u.failed_logins + 1
    → Locked sv email (sv.now + lockout_minutes * sv.minute) (count_failure sv u st)
unfolding count_failure find_user_by_email record_audit
count_failure-Locked sv email u st f many =
    let until = some (sv.now + lockout_minutes * sv.minute) in
    let v : User = record u { failed_logins = u.failed_logins + 1; locked_until = until } in
    let p : User → Bool = λ (w : User). w.email_index == sv.blind_index email in
    let kept = first-put_user p u v st.users f refl (first-holds p st.users u f) in
    (v, ground (arith, kept, many), omega (arith, many), (_, refl, omega arith))

-- A wrong password for a user with four failures on record leaves the user locked out.
wrong-Locked :
    (sv : Server) (fresh : Fresh) (host : Option String) (body : LoginRequest) (st : State)
    (u : User)
    → find_user_by_email sv body.email st ≡ some u
    → max_failed ≤ u.failed_logins + 1
    → sv.verify_password body.password u.password_hash ≡ false
    → login sv fresh host body st ≡ authenticate sv fresh body (charged sv host st)
    → Locked sv body.email (sv.now + lockout_minutes * sv.minute) (login sv fresh host body st).1
wrong-Locked sv fresh host body st u found many wrong went =
    let st' = charged sv host st in
    let known = find_user-charged sv sv host body.email st ∙ found in
    let (v, kept, used, lock) = count_failure-Locked sv body.email u st' known many in
    let done =
      ap (λ (q : Reply TokenPair × State). q.1)
        (went ∙ authenticate-wrong sv fresh body st' u known wrong) in
    (
      v,
      ap (find_user_by_email sv body.email) done
          ∙ find_user-audit sv body.email (count_failure sv u st')
          ∙ kept,
      used,
      lock,
    )

right-locked :
    (sv : Server) (fresh : Fresh) (body : LoginRequest) (st : State) (u : User)
    → find_user_by_email sv body.email st ≡ some u
    → sv.verify_password body.password u.password_hash ≡ true
    → is_after u.locked_until sv.now ≡ true
    → (authenticate sv fresh body st).1 ≡ st
unfolding authenticate admit
right-locked sv fresh body st u found right locked = ground (arith, found, right, locked)

login-allowed :
    (sv : Server) (fresh : Fresh) (host : Option String) (body : LoginRequest) (st : State)
    → (check sv.resolution st.login_limiter (login_key host) 1 sv.monotonic).1 ≡ true
    → login sv fresh host body st ≡ authenticate sv fresh body (charged sv host st)
unfolding login
login-allowed sv fresh host body st h = ground (arith, h)

login-limited :
    (sv : Server) (fresh : Fresh) (host : Option String) (body : LoginRequest) (st : State)
    → (check sv.resolution st.login_limiter (login_key host) 1 sv.monotonic).1 ≡ false
    → login sv fresh host body st ≡ (http 429, charged sv host st)
unfolding login
login-limited sv fresh host body st h = ground (arith, h)

Locked-later :
    (sv : Server) (email : String) (e f : ℕ) (st : State)
    → e ≤ f
    → Locked sv email f st
    → Locked sv email e st
Locked-later sv email e f st h (u, found, many, (until, is, le)) =
    (u, found, many, (until, is, omega (arith, h, le)))

-- A login for a locked address within the time is refused, and leaves the address locked as long.
login-Locked :
    (sv : Server) (fresh : Fresh) (host : Option String) (body : LoginRequest) (end : ℕ)
    (st : State)
    → sv.now < end
    → end ≤ sv.now + lockout_minutes * sv.minute
    → Locked sv body.email end st
    → Refused (login sv fresh host body st).0
      × Locked sv body.email end (login sv fresh host body st).1
login-Locked sv fresh host body end st early soon (u, found, many, (until, is, le)) =
    let locked : is_after u.locked_until sv.now ≡ true = ground (arith, is, le, early) in
    let known = find_user-charged sv sv host body.email st ∙ found in
    (
      login-locked sv fresh host body st u found locked,
      elim (Bool-cases (check sv.resolution st.login_limiter (login_key host) 1 sv.monotonic).1) [
        | inr limited ↦ (
          u,
          ap (λ (q : Reply TokenPair × State). find_user_by_email sv body.email q.1)
                (login-limited sv fresh host body st limited)
              ∙ known,
          many,
          (until, is, le),
        )
        | inl allowed ↦
            let went = login-allowed sv fresh host body st allowed in
            elim (Bool-cases (sv.verify_password body.password u.password_hash)) [
              | inr wrong ↦
                  Locked-later sv body.email end _ _ soon
                    (wrong-Locked sv fresh host body st u found many wrong went)
              | inl right ↦ (
                u,
                ap (λ (q : Reply TokenPair × State). find_user_by_email sv body.email q.1) went
                    ∙ ap (find_user_by_email sv body.email)
                        (right-locked sv fresh body (charged sv host st) u known right locked)
                    ∙ known,
                many,
                (until, is, le),
              )
            ]
      ],
    )

Locked-index :
    (sv sv' : Server) (email' email : String) (end : ℕ) (st : State)
    → sv'.blind_index ≡ sv.blind_index
    → email' ≡ email
    → Locked sv email end st
    → Locked sv' email' end st
Locked-index sv sv' email' email end st index same (u, found, many, rest) =
    (u, find_user-index sv sv' email' email st index same ∙ found, many, rest)

logins-Refused :
    (sv : Server) (email : String) (attempts : List Attempt) (st : State)
    → All (Within sv email) attempts
    → Locked sv email (sv.now + lockout_minutes * sv.minute) st
    → All Refused (logins attempts st)
unfolding logins
logins-Refused sv email [] st w locked = tt
logins-Refused sv email (a ∷ rest) st ((same, index, minute, later, soon), ws) locked =
    let (refused, still) =
      login-Locked a.sv a.fresh a.host a.body (sv.now + lockout_minutes * sv.minute) st soon
        (rw minute (omega (arith, later)))
        (Locked-index sv a.sv a.body.email email _ st index same locked) in
    (
      refused,
      logins-Refused sv email rest (login a.sv a.fresh a.host a.body st).1 ws
          (Locked-index a.sv sv email a.body.email _ _ (sym index) (sym same) still),
    )

-- Once a wrong password is answered with 401 for a user who had at least four on record, and as long as only logins for that address follow, each of them within fifteen minutes, on a clock that does not run backwards, is refused with 429, 401 or 423, whatever its password, wherever it comes from and however many there are.
pub login-lock :
    (sv : Server) (fresh : Fresh) (host : Option String) (body : LoginRequest)
    (attempts : List Attempt) (st : State) (u : User)
    → find_user_by_email sv body.email st ≡ some u
    → sv.verify_password body.password u.password_hash ≡ false
    → max_failed ≤ u.failed_logins + 1
    → (login sv fresh host body st).0 ≡ http 401
    → All (Within sv body.email) attempts
    → All Refused (logins attempts (login sv fresh host body st).1)
login-lock sv fresh host body attempts st u found wrong many refused w =
    elim (login-cases sv fresh host body st) [
      | inl (allowed, went) ↦
          logins-Refused sv body.email attempts _ w
            (wrong-Locked sv fresh host body st u found many wrong went)
      | inr limited ↦ ground (arith, limited, refused)
    ]
