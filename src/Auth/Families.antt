-- ===== src/Auth/Families.antt =====
-- How many live sessions a family of refresh tokens has.
use skyrecon.Base.{
  ℕ, ◌≡◌, refl, ap, arith, inl, inr, ◌≤◌, ◌<◌, ◌+◌, suc, Bool, true, false, not, ◌&&◌, none, some,
  List, [], ◌∷◌, ◌++◌, ◌==◌, ==_iff, ==_refl, first, if◌then◌else◌, Option-cases, Bool-cases, ltb,
}
use skyrecon.Auth.{
  User, SessionRow, State, Server, TokenPair, Reply, Fresh, is_some, put_session, find_user,
  find_session, record_audit, issue,
}
use skyrecon.Auth.Refresh.{burn, revoke_where, rotate, renew, revoke_family, refresh}
use skyrecon.Auth.Rotation.{refresh-none, refresh-live, refresh-burned}
use skyrecon.Base.{◌⊎◌}

abbrev pub is_live_in : ℕ → SessionRow → Bool
is_live_in f r = r.family_id == f && not (is_some r.revoked_at)

unfoldable pub count_live : ℕ → List SessionRow → ℕ
count_live f [] = 0
count_live f (r ∷ rs) = let n = count_live f rs in if is_live_in f r then suc n else n

count_live-put_session :
    (f : ℕ) (r : SessionRow) (rs : List SessionRow)
    → is_live_in f r ≡ false
    → count_live f (put_session r rs) ≤ count_live f rs
unfolding count_live put_session
count_live-put_session f r [] dead = omega arith
count_live-put_session f r (x ∷ rs) dead = elim (Bool-cases (x.id == r.id)) [
  | inl e ↦ ground (arith, e, dead, count_live-put_session f r rs)
  | inr e ↦ ground (arith, e, count_live-put_session f r rs)
]

count_live-burn :
    (f : ℕ) (p : SessionRow → Bool) (r s : SessionRow) (rs : List SessionRow)
    → first p rs ≡ some s
    → r.id ≡ s.id
    → is_live_in f r ≡ false
    → is_live_in f s ≡ true
    → count_live f (put_session r rs) < count_live f rs
unfolding count_live put_session
count_live-burn f p r s [] found same dead live = ground (arith, found)
count_live-burn f p r s (x ∷ rs) found same dead live = ground (
  arith,
  found,
  same,
  dead,
  live,
  ==_refl s.id,
  ==_iff x.id r.id,
  count_live-put_session f r rs,
  count_live-burn f p r s rs,
)

count_live-append :
    (f : ℕ) (r s : SessionRow) (rs : List SessionRow)
    → count_live f (put_session r (rs ++ s ∷ []))
      ≤ count_live f (put_session r rs) + count_live f (put_session r (s ∷ []))
unfolding count_live put_session
count_live-append f r s [] = omega arith
count_live-append f r s (x ∷ rs) = ground (arith, count_live-append f r s rs)

count_live-revoke_where :
    (f : ℕ) (p : SessionRow → Bool) (now : ℕ) (rs : List SessionRow)
    → count_live f (revoke_where p now rs) ≤ count_live f rs
unfolding count_live revoke_where
count_live-revoke_where f p now [] = omega arith
count_live-revoke_where f p now (x ∷ rs) = ground (arith, count_live-revoke_where f p now rs)

count_live-one : (f : ℕ) (r s : SessionRow) → count_live f (put_session r (s ∷ [])) ≤ 1
unfolding count_live put_session
count_live-one f r s = ground arith

count_live-dead :
    (f : ℕ) (r s : SessionRow)
    → is_live_in f r ≡ false
    → is_live_in f s ≡ false
    → count_live f (put_session r (s ∷ [])) ≡ 0
unfolding count_live put_session
count_live-dead f r s dead dead' = ground (arith, dead, dead')

-- Burning a live row and adding one of the same family.
count_live-replace :
    (f : ℕ) (p : SessionRow → Bool) (r s new : SessionRow) (rs : List SessionRow)
    → first p rs ≡ some s
    → r.id ≡ s.id
    → is_some r.revoked_at ≡ true
    → s.revoked_at ≡ none
    → new.family_id ≡ s.family_id
    → count_live f (put_session r (rs ++ new ∷ [])) ≤ count_live f rs
count_live-replace f p r s new rs found same dead live kin =
    let gone : is_live_in f r ≡ false = ground (arith, dead) in
    elim (Bool-cases (s.family_id == f)) [
      | inl e ↦
          let alive : is_live_in f s ≡ true = ground (arith, e, live) in
          ground (
            arith,
            count_live-append f r new rs,
            count_live-one f r new,
            count_live-burn f p r s rs found same gone alive,
          )
      | inr e ↦
          let other : is_live_in f new ≡ false = ground (arith, e, kin) in
          ground (
            arith,
            count_live-append f r new rs,
            count_live-dead f r new gone other,
            count_live-put_session f r rs gone,
          )
    ]

rotate-count_live :
    (sv : Server) (fresh : Fresh) (token : ℕ) (row : SessionRow) (u : User) (st : State) (f : ℕ)
    → find_session sv token st ≡ some row
    → row.revoked_at ≡ none
    → count_live f (rotate sv fresh row u st).1.sessions ≤ count_live f st.sessions
unfolding rotate issue record_audit find_session
rotate-count_live sv fresh token row u st f found live =
    count_live-replace f (λ (r : SessionRow). r.refresh_hash == sv.hash_refresh_token token)
      (burn sv fresh.token row) row _ st.sessions found refl refl live refl

renew-cases :
    (sv : Server) (fresh : Fresh) (row : SessionRow) (st : State)
    → ((renew sv fresh row st).1 ≡ st)
      ⊎ ((u : User) × (renew sv fresh row st ≡ rotate sv fresh row u st))
unfolding renew
renew-cases sv fresh row st = elim (Option-cases (find_user row.user_id st)) [
  | inl e ↦ inl (ground (arith, e))
  | inr (u, e) ↦ elim (Bool-cases (ltb row.expires_at sv.now)) [
    | inl late ↦ inl (ground (arith, late))
    | inr late ↦ elim (Bool-cases u.is_active) [
      | inl a ↦ inr (u, ground (arith, late, e, a))
      | inr a ↦ inl (ground (arith, late, e, a))
    ]
  ]
]

renew-count_live :
    (sv : Server) (fresh : Fresh) (token : ℕ) (row : SessionRow) (st : State) (f : ℕ)
    → find_session sv token st ≡ some row
    → row.revoked_at ≡ none
    → count_live f (renew sv fresh row st).1.sessions ≤ count_live f st.sessions
renew-count_live sv fresh token row st f found live = elim (renew-cases sv fresh row st) [
  | inl kept ↦ ground (arith, ap (λ (s : State). count_live f s.sessions) kept)
  | inr (u, went) ↦ ground (
    arith,
    ap (λ (q : Reply TokenPair × State). count_live f q.1.sessions) went,
    rotate-count_live sv fresh token row u st f found live,
  )
]

revoke_family-count_live :
    (sv : Server) (row : SessionRow) (st : State) (f : ℕ)
    → count_live f (revoke_family sv row st).sessions ≤ count_live f st.sessions
unfolding revoke_family record_audit
revoke_family-count_live sv row st f =
    count_live-revoke_where f (λ (r : SessionRow). r.family_id == row.family_id) sv.now st.sessions

-- However a request for a refresh ends, no family has more live sessions after it than before: a rotation replaces a live session and never adds to them.
pub refresh-count_live :
    (sv : Server) (fresh : Fresh) (token : ℕ) (st : State) (f : ℕ)
    → count_live f (refresh sv fresh token st).1.sessions ≤ count_live f st.sessions
refresh-count_live sv fresh token st f =
    let live_after : Reply TokenPair × State → ℕ =
      λ (q : Reply TokenPair × State). count_live f q.1.sessions in
    elim (Option-cases (find_session sv token st)) [
      | inl e ↦ ground (arith, ap live_after (refresh-none sv fresh token st e))
      | inr (row, e) ↦ elim (Option-cases row.revoked_at) [
        | inl live ↦ ground (
          arith,
          ap live_after (refresh-live sv fresh token st row e live),
          renew-count_live sv fresh token row st f e live,
        )
        | inr (t, was) ↦ ground (
          arith,
          ap live_after (refresh-burned sv fresh token t st row e was),
          revoke_family-count_live sv row st f,
        )
      ]
    ]
