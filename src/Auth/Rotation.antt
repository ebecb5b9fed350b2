-- ===== src/Auth/Rotation.antt =====
-- The rows that a rotation, a revocation and a lookup of app/routers/auth.py leave, by stages of the handlers.
use skyrecon.Base.{
  ℕ, ◌≡◌, refl, sym, ap, subst, ◌∙◌, arith, inl, inr, Bool, true, none, some, List, [], ◌∷◌, ◌++◌,
  ◌==◌, ==_iff, ◌≤◌, All, All-map, first, Option-cases, Bool-cases,
}
use skyrecon.Auth.{
  User, SessionRow, State, Server, TokenPair, Reply, ok, http, Fresh, is_some, put_session,
  find_user, find_session, record_audit, issue,
}
use skyrecon.Auth.Refresh.{revoke, burn, revoke_where, rotate, renew, revoke_family, refresh}

-- Saving a row under its own id finds the saved row again, where the query found one of that id.
first-put_session :
    (p : SessionRow → Bool) (r s : SessionRow) (rs : List SessionRow)
    → first p rs ≡ some s
    → r.id ≡ s.id
    → p r ≡ true
    → first p (put_session r rs) ≡ some r
unfolding put_session
first-put_session p r s [] f i h = ground arith
first-put_session p r s (x ∷ rs) f i h =
    ground (arith, ==_iff x.id r.id, first-put_session p r s rs)

first-append :
    (p : SessionRow → Bool) (s : SessionRow) (xs ys : List SessionRow)
    → first p xs ≡ some s
    → first p (xs ++ ys) ≡ some s
first-append p s [] ys f = ground arith
first-append p s (x ∷ xs) ys f = ground (arith, first-append p s xs ys)

pub first-holds :
    {A : Type 0} (p : A → Bool) (xs : List A) (s : A) → first p xs ≡ some s → p s ≡ true
first-holds p [] s f = ground arith
first-holds p (x ∷ xs) s f = ground (arith, first-holds p xs s)

pub revoke_where-All :
    (p : SessionRow → Bool) (now : ℕ) (rs : List SessionRow)
    → ((r : SessionRow) → p (revoke now r) ≡ p r)
    → All (λ (r : SessionRow). p r ≡ true → is_some r.revoked_at ≡ true) (revoke_where p now rs)
unfolding revoke_where
revoke_where-All p now [] stable = tt
revoke_where-All p now (r ∷ rs) stable = (
  elim (Bool-cases (p r)) [ inl h ↦ ground (arith, h) | inr h ↦ ground (arith, h) ],
  revoke_where-All p now rs stable,
)

-- A refresh that gives a pair rotates a live, unexpired row of an active user.
abbrev pub Rotates : Server → Fresh → SessionRow → State → Reply TokenPair × State → Type 0
Rotates sv fresh row st result =
    (row.revoked_at ≡ none)
    × (sv.now ≤ row.expires_at)
    × ((u : User) × (find_user row.user_id st ≡ some u)
        × (u.is_active ≡ true)
        × (result ≡ rotate sv fresh row u st))

renew-ok :
    (sv : Server) (fresh : Fresh) (row : SessionRow) (st : State) (pair : TokenPair)
    → row.revoked_at ≡ none
    → (renew sv fresh row st).0 ≡ ok pair
    → Rotates sv fresh row st (renew sv fresh row st)
unfolding renew
renew-ok sv fresh row st pair live h = elim (Option-cases (find_user row.user_id st)) [
  | inl e ↦ ground arith
  | inr (u, e) ↦ (live, ground arith, (u, e, ground arith, ground arith))
]

pub refresh-none :
    (sv : Server) (fresh : Fresh) (token : ℕ) (st : State)
    → find_session sv token st ≡ none
    → refresh sv fresh token st ≡ (http 401, st)
unfolding refresh
refresh-none sv fresh token st e = ground arith

pub refresh-live :
    (sv : Server) (fresh : Fresh) (token : ℕ) (st : State) (row : SessionRow)
    → find_session sv token st ≡ some row
    → row.revoked_at ≡ none
    → refresh sv fresh token st ≡ renew sv fresh row st
unfolding refresh
refresh-live sv fresh token st row e live = ground arith

pub refresh-burned :
    (sv : Server) (fresh : Fresh) (token t : ℕ) (st : State) (row : SessionRow)
    → find_session sv token st ≡ some row
    → row.revoked_at ≡ some t
    → refresh sv fresh token st ≡ (http 401, revoke_family sv row st)
unfolding refresh
refresh-burned sv fresh token t st row e was = ground arith

pub refresh-ok :
    (sv : Server) (fresh : Fresh) (token : ℕ) (st : State) (pair : TokenPair)
    → (refresh sv fresh token st).0 ≡ ok pair
    → (row : SessionRow) × (find_session sv token st ≡ some row)
      × Rotates sv fresh row st (refresh sv fresh token st)
refresh-ok sv fresh token st pair h = elim (Option-cases (find_session sv token st)) [
  | inl e ↦ ground (arith, refresh-none sv fresh token st e)
  | inr (row, e) ↦ elim (Option-cases row.revoked_at) [
    | inl live ↦ (
      row,
      e,
      subst (Rotates sv fresh row st) (sym (refresh-live sv fresh token st row e live)) (
          renew-ok sv fresh row st pair live (
            sym (
              ap (λ (q : Reply TokenPair × State). q.0) (refresh-live sv fresh token st row e live))
            ∙ h)),
    )
    | inr (t, was) ↦ ground (arith, refresh-burned sv fresh token t st row e was)
  ]
]

pub rotate-find_session :
    (sv : Server) (fresh : Fresh) (token : ℕ) (st : State) (row : SessionRow) (u : User)
    → find_session sv token st ≡ some row
    → find_session sv token (rotate sv fresh row u st).1 ≡ some (burn sv fresh.token row)
unfolding rotate find_session issue record_audit
rotate-find_session sv fresh token st row u f =
    let p : SessionRow → Bool = λ (r : SessionRow). r.refresh_hash == sv.hash_refresh_token token in
    first-put_session p (burn sv fresh.token row) row _ (first-append p row st.sessions _ f) refl
      (first-holds p st.sessions row f)

pub revoke_family-All :
    (sv : Server) (row : SessionRow) (st : State)
    → All
        (λ (r : SessionRow). r.family_id ≡ row.family_id → is_some r.revoked_at ≡ true)
        (revoke_family sv row st).sessions
unfolding revoke_family record_audit
revoke_family-All sv row st =
    All-map
      (λ (r : SessionRow). (r.family_id == row.family_id) ≡ true → is_some r.revoked_at ≡ true)
      (λ (r : SessionRow). r.family_id ≡ row.family_id → is_some r.revoked_at ≡ true)
      (revoke_where (λ (r : SessionRow). r.family_id == row.family_id) sv.now st.sessions)
      (λ r f e. f ((==_iff r.family_id row.family_id).1 e))
      (revoke_where-All (λ (r : SessionRow). r.family_id == row.family_id) sv.now st.sessions
        (λ r. refl))
