-- ===== src/Auth/EnrolmentLaws.antt =====
-- That a second factor is enabled only for the secret that was proved, whatever happened in between.
use skyrecon.Base.{
  ℕ, ◌≡◌, refl, sym, ap, ◌∙◌, arith, inl, inr, ◌⊎◌, ◌≢◌, String, Bool, true, false, ◌&&◌, Option,
  none, some, List, [], ◌∷◌, ◌==◌, any, Option-cases, Bool-cases,
}
use skyrecon.Auth.{User, State, Server, Reply, ok, http, record_audit}
use skyrecon.Auth.Login.{code_ok}
use skyrecon.Auth.Enrolment.{
  same_sealed, is_unchanged, update_where, Enrolment, commit_one, mfa_enroll, mfa_confirm,
}

-- An update that makes its condition false leaves no row that meets it.
update_where-none :
    (p : User → Bool) (f g : User → User) (vs : List User)
    → ((v : User) → p v ≡ true → p (f v) ≡ false)
    → (update_where p g (update_where p f vs).0).1 ≡ 0
unfolding update_where
update_where-none p f g [] out = refl
update_where-none p f g (v ∷ vs) out = elim (Bool-cases (p v)) [
  | inl h ↦ ground (arith, h, out v h, update_where-none p f g vs out)
  | inr h ↦ ground (arith, h, update_where-none p f g vs out)
]

update_where-any :
    (p q : User → Bool) (f : User → User) (vs : List User)
    → ((v : User) → p v ≡ true → q (f v) ≡ true)
    → ((update_where p f vs).1 == 1) ≡ true
    → any q (update_where p f vs).0 ≡ true
unfolding update_where
update_where-any p q f [] hit h = ground (arith, h)
update_where-any p q f (v ∷ vs) hit h = elim (Bool-cases (p v)) [
  | inl e ↦ ground (arith, e, hit v e)
  | inr e ↦ ground (arith, e, h, update_where-any p q f vs hit)
]

commit_one-ok :
    (sv : Server) (action : String) (u : User) (f : User → User) (st : State)
    → (commit_one sv action u f st).0 ≡ ok tt
    → (((update_where (is_unchanged u) f st.users).1 == 1) ≡ true)
      × ((commit_one sv action u f st).1.users ≡ (update_where (is_unchanged u) f st.users).0)
unfolding record_audit
commit_one-ok sv action u f st h = (ground (arith, h), ground (arith, h))

commit_one_missed :
    (sv : Server) (action : String) (u : User) (f : User → User) (st : State)
    → (update_where (is_unchanged u) f st.users).1 ≡ 0
    → commit_one sv action u f st ≡ (http 409, st)
commit_one_missed sv action u f st h = ground (arith, h)

enable : User → User
enable v = record v { mfa_enabled = true }

store : Enrolment → User → User
store new v = record v { mfa_secret_sealed = some new.sealed; recovery_hashes = new.digests }

mfa_enroll-ok :
    (sv : Server) (new : Enrolment) (u : User) (st : State)
    → (mfa_enroll sv new u st).0 ≡ ok tt
    → mfa_enroll sv new u st ≡ commit_one sv "auth.mfa_enroll_start" u (store new) st
unfolding mfa_enroll store
mfa_enroll-ok sv new u st h = ground (arith, h)

-- A row of the same user with the second factor on, under the secret that was loaded.
abbrev pub is_enabled : User → User → Bool
is_enabled u v =
    v.id == u.id && (v.mfa_enabled && same_sealed v.mfa_secret_sealed u.mfa_secret_sealed)

-- What the secret and the code have to be for the update to be tried.
abbrev Proves : Server → String → User → Type 0
Proves sv code u =
    (secret : String) × (sv.open_mfa_secret u ≡ some (some secret))
    × (sv.verify_code secret code ≡ true)

code_ok-Proves :
    (sv : Server) (code : String) (u : User) (secret : Option String)
    → sv.open_mfa_secret u ≡ some secret
    → code_ok sv secret code ≡ true
    → Proves sv code u
code_ok-Proves sv code u none o h = ground (arith, h)
code_ok-Proves sv code u (some secret) o h = (secret, o, ground (arith, h))

mfa_confirm-cases :
    (sv : Server) (code : String) (u : User) (st : State)
    → (Proves sv code u × (mfa_confirm sv code u st ≡ commit_one sv "auth.mfa_enabled" u enable st))
      ⊎ ((status : ℕ) × (mfa_confirm sv code u st ≡ (http status, st)))
unfolding mfa_confirm enable
mfa_confirm-cases sv code u st = elim (Option-cases (sv.open_mfa_secret u)) [
  | inl e ↦ inr (500, ground (arith, e))
  | inr (secret, e) ↦ elim (Bool-cases (code_ok sv secret code)) [
    | inl h ↦ inl (code_ok-Proves sv code u secret e h, ground (arith, e, h))
    | inr h ↦ inr (400, ground (arith, e, h))
  ]
]

-- The second factor of a user is only enabled with a code for the secret that was loaded, and on a row that still holds that secret.
pub mfa_confirm-ok :
    (sv : Server) (code : String) (u : User) (st : State)
    → (mfa_confirm sv code u st).0 ≡ ok tt
    → (secret : String) × (sv.open_mfa_secret u ≡ some (some secret))
      × (sv.verify_code secret code ≡ true)
      × (any (is_enabled u) (mfa_confirm sv code u st).1.users ≡ true)
unfolding enable
mfa_confirm-ok sv code u st h = elim (mfa_confirm-cases sv code u st) [
  | inl ((secret, opens, right), went) ↦
      let (one, users) =
        commit_one-ok sv "auth.mfa_enabled" u enable st
          (sym (ap (λ (q : Reply Unit × State). q.0) went) ∙ h) in
      (
        secret,
        opens,
        right,
        ap (λ (q : Reply Unit × State). any (is_enabled u) q.1.users) went
            ∙ ap (any (is_enabled u)) users
            ∙ update_where-any (is_unchanged u) (is_enabled u) enable st.users
                (λ v e. ground (arith, e)) one,
      )
  | inr (status, went) ↦ ground (arith, sym (ap (λ (q : Reply Unit × State). q.0) went) ∙ h)
]

-- A row that an enrolment has just changed does not look unchanged.
stored :
    (new : Enrolment) (u : User)
    → same_sealed (some new.sealed) u.mfa_secret_sealed ≡ false
    → (v : User) → is_unchanged u v ≡ true
    → is_unchanged u (store new v) ≡ false
unfolding store
stored new u other v e = ground (arith, other)

refused_lem :
    (st : State) (status : ℕ) {q : Reply Unit × State}
    → q ≡ (http status, st)
    → (q.0 ≢ ok tt) × (q.1 ≡ st)
refused_lem st status {q} e =
    ((λ (h : q.0 ≡ ok tt). ground (arith, h, e)), ap (λ (r : Reply Unit × State). r.1) e)

-- A confirmation whose user was loaded before another enrolment stored a new secret is refused, and changes nothing, whatever code it brings.
pub mfa_confirm-stale :
    (sv sv' : Server) (new : Enrolment) (code : String) (u : User) (st : State)
    → (mfa_enroll sv new u st).0 ≡ ok tt
    → same_sealed (some new.sealed) u.mfa_secret_sealed ≡ false
    → ((mfa_confirm sv' code u (mfa_enroll sv new u st).1).0 ≢ ok tt)
      × ((mfa_confirm sv' code u (mfa_enroll sv new u st).1).1 ≡ (mfa_enroll sv new u st).1)
mfa_confirm-stale sv sv' new code u st h other =
    let st' = (mfa_enroll sv new u st).1 in
    let went = mfa_enroll-ok sv new u st h in
    let (one, users) =
      commit_one-ok sv "auth.mfa_enroll_start" u (store new) st
        (sym (ap (λ (q : Reply Unit × State). q.0) went) ∙ h) in
    let gone : (update_where (is_unchanged u) enable st'.users).1 ≡ 0 =
      ap (λ (q : Reply Unit × State). (update_where (is_unchanged u) enable q.1.users).1) went
      ∙ ap (λ us. (update_where (is_unchanged u) enable us).1) users
      ∙ update_where-none (is_unchanged u) (store new) enable st.users (stored new u other) in
    elim (mfa_confirm-cases sv' code u st') [
      | inl (proof, tried) ↦
          refused_lem st' 409 (tried ∙ commit_one_missed sv' "auth.mfa_enabled" u enable st' gone)
      | inr (status, refused) ↦ refused_lem st' status refused
    ]
