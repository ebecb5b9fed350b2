-- ===== src/Auth/Replay.antt =====
-- Rotation and revocation of refresh tokens: what a refresh gives out, and what a second use does.
use skyrecon.Base.{
  ℕ, String, ◌≡◌, refl, sym, ap, subst, ◌∙◌, arith, inl, inr, Bool, true, none, some, List, [], ◌∷◌,
  ◌==◌, ==_iff, ◌≤◌, All, first, Option-cases, Bool-cases,
}
use skyrecon.Auth.{
  User, SessionRow, State, Server, TokenPair, Reply, ok, http, Fresh, is_some, find_user,
  find_session, record_audit, issue,
}
use skyrecon.Auth.Refresh.{burn, revoke_where, rotate, refresh, change_password}
use skyrecon.Auth.Rotation.{
  first-holds, revoke_where-All, refresh-burned, refresh-ok, rotate-find_session, revoke_family-All,
}

find_session_lem :
    (sv : Server) (token : ℕ) (st : State) (row : SessionRow)
    → find_session sv token st ≡ some row
    → first (λ (r : SessionRow). r.refresh_hash == sv.hash_refresh_token token) st.sessions
      ≡ some row
unfolding find_session
find_session_lem sv token st row f = f

find_session-hash :
    (sv sv' : Server) (token : ℕ) (st : State)
    → sv'.hash_refresh_token ≡ sv.hash_refresh_token
    → find_session sv' token st ≡ find_session sv token st
unfolding find_session
find_session-hash sv sv' token st same =
    ap (λ (h : ℕ → ℕ). first (λ (r : SessionRow). r.refresh_hash == h token) st.sessions) same

-- A refresh that succeeds was asked for with the token of a live, unexpired session of an active user, and the pair carries that user, the user's present role, and a second-factor claim equal to whether the user has enabled one.
pub refresh-pair :
    (sv : Server) (fresh : Fresh) (token : ℕ) (st : State) (pair : TokenPair)
    → (refresh sv fresh token st).0 ≡ ok pair
    → (row : SessionRow) × (u : User) × (find_session sv token st ≡ some row)
      × (find_user row.user_id st ≡ some u)
      × (row.revoked_at ≡ none)
      × (sv.now ≤ row.expires_at)
      × (u.is_active ≡ true)
      × (pair.subject ≡ row.user_id)
      × (pair.role ≡ u.role)
      × (pair.mfa ≡ u.mfa_enabled)
unfolding rotate issue find_user
refresh-pair sv fresh token st pair h =
    let (row, e, (live, fit, (u, known, active, result))) = refresh-ok sv fresh token st pair h in
    let same : (rotate sv fresh row u st).0 ≡ ok pair =
      sym (ap (λ (q : Reply TokenPair × State). q.0) result) ∙ h in
    let is_user : (u.id == row.user_id) ≡ true =
      first-holds (λ (v : User). v.id == row.user_id) st.users u known in
    (
      row,
      u,
      e,
      known,
      live,
      fit,
      active,
      ground (arith, is_user, same, ==_iff u.id row.user_id),
      ground (arith, same),
      ground (arith, same),
    )

-- After a successful refresh the same token is refused with 401, whatever the clock says then, and that second use leaves every session of its family revoked.
pub refresh-once :
    (sv sv' : Server) (fresh fresh' : Fresh) (token : ℕ) (st : State) (pair : TokenPair)
    → sv'.hash_refresh_token ≡ sv.hash_refresh_token
    → (refresh sv fresh token st).0 ≡ ok pair
    → ((refresh sv' fresh' token (refresh sv fresh token st).1).0 ≡ http 401)
      × ((row : SessionRow) × (find_session sv token st ≡ some row)
          × All
              (λ (r : SessionRow). r.family_id ≡ row.family_id → is_some r.revoked_at ≡ true)
              (refresh sv' fresh' token (refresh sv fresh token st).1).1.sessions)
refresh-once sv sv' fresh fresh' token st pair same h =
    let (row, e, (live, fit, (u, known, active, result))) = refresh-ok sv fresh token st pair h in
    let st' = (refresh sv fresh token st).1 in
    let found : find_session sv' token st' ≡ some (burn sv fresh.token row) =
      find_session-hash sv sv' token st' same
      ∙ ap (λ (q : Reply TokenPair × State). find_session sv token q.1) result
      ∙ rotate-find_session sv fresh token st row u e in
    let second = refresh-burned sv' fresh' token sv.now st' (burn sv fresh.token row) found refl in
    (
      ap (λ (q : Reply TokenPair × State). q.0) second,
      (
        row,
        e,
        subst
            (λ (q : Reply TokenPair × State).
              All (λ (r : SessionRow). r.family_id ≡ row.family_id → is_some r.revoked_at ≡ true)
                q.1.sessions)
            (sym second) (revoke_family-All sv' (burn sv fresh.token row) st'),
      ),
    )

All-first :
    (Q : SessionRow → Type 0) (p : SessionRow → Bool) (xs : List SessionRow) (r : SessionRow)
    → All Q xs
    → first p xs ≡ some r
    → Q r
All-first Q p [] r all f = ground arith
All-first Q p (x ∷ xs) r all f = elim (Bool-cases (p x)) [
  | inl h ↦ let same : x ≡ r = ground (arith, f, h) in subst Q same all.0
  | inr h ↦ All-first Q p xs r all.1 (ground (arith, f, h))
]

change_password-ok :
    (sv : Server) (current new : String) (u : User) (st : State)
    → (change_password sv current new u st).0 ≡ ok tt
    → (sv.verify_password current u.password_hash ≡ true)
      × (sv.check_policy new u ≡ true)
      × ((change_password sv current new u st).1.sessions
          ≡ revoke_where (λ (r : SessionRow). r.user_id == u.id) sv.now st.sessions)
unfolding change_password record_audit
change_password-ok sv current new u st h = (ground arith, ground arith, ground arith)

find_session-revoked :
    (sv : Server) (fresh : Fresh) (token : ℕ) (st : State) (row : SessionRow)
    → find_session sv token st ≡ some row
    → is_some row.revoked_at ≡ true
    → (refresh sv fresh token st).0 ≡ http 401
find_session-revoked sv fresh token st row f dead = elim (Option-cases row.revoked_at) [
  | inl e ↦ ground (arith, e, dead)
  | inr (t, e) ↦
      ap (λ (q : Reply TokenPair × State). q.0) (refresh-burned sv fresh token t st row f e)
]

-- A successful change of password needs the present password and an acceptable new one, and after it no refresh token of that user is accepted any more.
pub change_password-refresh :
    (sv sv' : Server) (current new : String) (u : User) (st : State) (fresh : Fresh) (token : ℕ)
    (row : SessionRow)
    → (change_password sv current new u st).0 ≡ ok tt
    → find_session sv' token (change_password sv current new u st).1 ≡ some row
    → row.user_id ≡ u.id
    → (sv.verify_password current u.password_hash ≡ true)
      × (sv.check_policy new u ≡ true)
      × ((refresh sv' fresh token (change_password sv current new u st).1).0 ≡ http 401)
change_password-refresh sv sv' current new u st fresh token row h f mine =
    let (right, policy, left) = change_password-ok sv current new u st h in
    let is_mine : SessionRow → Bool = λ (r : SessionRow). r.user_id == u.id in
    let all =
      subst (All (λ (r : SessionRow). is_mine r ≡ true → is_some r.revoked_at ≡ true)) (sym left)
        (revoke_where-All is_mine sv.now st.sessions (λ r. refl)) in
    (
      right,
      policy,
      find_session-revoked sv' fresh token _ row f (
          All-first _ _ _ row all (find_session_lem sv' token _ row f)
            ((==_iff row.user_id u.id).1 mine)),
    )
