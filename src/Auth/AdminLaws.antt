-- ===== src/Auth/AdminLaws.antt =====
-- That the administration of users never locks the last administrator out.
use skyrecon.Base.{
  ℕ, ◌≡◌, refl, sym, ap, subst, ◌∙◌, arith, ◌⊎◌, inl, inr, String, Bool, true, false, not, ◌&&◌,
  ◌||◌, Option, some, List, [], ◌∷◌, ◌++◌, ◌==◌, ==_iff, str_eq, str_eq_iff, any, first,
  if◌then◌else◌, Option-cases, Bool-cases, true_ne_false, or_false,
}
use skyrecon.Rbac.{user_manage}
use skyrecon.Rbac.Laws.{can-reserved}
use skyrecon.Auth.{
  User, State, Server, Reply, ok, http, put_user, find_user, find_user_by_email, record_audit,
}
use skyrecon.Auth.Access.{Claims, requires}
use skyrecon.Auth.Guarded.{requires-ok}
use skyrecon.Auth.Rotation.{first-holds}
use skyrecon.Auth.Admin.{
  CreateUserRequest, known_role, new_user, create_user, with_role, set_role, inactive, disable_user,
  AdminRequest, create, promote, disable, handle, answer,
}

abbrev pub is_admin : User → Bool
is_admin u = str_eq u.role "admin" && u.is_active

-- Some administrator is active.
abbrev pub HasAdmin : State → Type 0
HasAdmin st = any is_admin st.users ≡ true

or_right : (a b : Bool) → b ≡ true → (a || b) ≡ true
or_right a b h = grind arith

or_left : (a b : Bool) → a ≡ true → (a || b) ≡ true
or_left a b h = grind arith

and_second : (a b : Bool) → (a && b) ≡ true → b ≡ true
and_second a b h = grind arith

and_both : (a b : Bool) → a ≡ true → b ≡ true → (a && b) ≡ true
and_both a b h k = grind arith

any-append : (xs ys : List User) → any is_admin xs ≡ true → any is_admin (xs ++ ys) ≡ true
any-append [] ys h = cc h
any-append (x ∷ xs) ys h = elim (Bool-cases (is_admin x)) [
  | inl e ↦ or_left _ _ e
  | inr e ↦ or_right _ _ (any-append xs ys (or_false _ _ e h))
]

-- The row of an administrator counts, wherever it stands.
first-any :
    (k : ℕ) (u : User) (xs : List User)
    → first (λ (v : User). v.id == k) xs ≡ some u
    → is_admin u ≡ true
    → any is_admin xs ≡ true
first-any k u [] f h = cc f
first-any k u (x ∷ xs) f h = elim (Bool-cases (x.id == k)) [
  | inl e ↦ let same : x ≡ u = cc (f, e) in or_left _ _ (ap is_admin same ∙ h)
  | inr e ↦ or_right _ _ (first-any k u xs (cc (f, e)) h)
]

-- A row put in place of an administrator's by an administrator's, or of another's, leaves one.
put_user-any :
    (k : ℕ) (u v : User) (xs : List User)
    → first (λ (w : User). w.id == k) xs ≡ some u
    → is_admin u ≡ true
    → ((v.id == k) ≡ false) ⊎ (is_admin v ≡ true)
    → any is_admin (put_user v xs) ≡ true
unfolding put_user
put_user-any k u v [] f h c = cc f
put_user-any k u v (x ∷ xs) f h c = elim (Bool-cases (x.id == k)) [
  | inr e ↦ or_right _ _ (put_user-any k u v xs (cc (f, e)) h c)
  | inl e ↦
      let same : x ≡ u = cc (f, e) in
      or_left (is_admin (if x.id == v.id then v else x)) (any is_admin (put_user v xs))
        (elim (Bool-cases (x.id == v.id)) [
          | inr t ↦ rw t (ap is_admin same ∙ h)
          | inl t ↦ rw t (elim c [
            | inl other ↦ absurd (
                true_ne_false (
                  sym ((==_iff v.id k).1 (sym ((==_iff x.id v.id).0 t) ∙ (==_iff x.id k).0 e))
                  ∙ other))
            | inr a ↦ a
          ])
        ])
]

-- The actor of a request that is let through is an active administrator.
requires-is_admin :
    (sv : Server) (decode : String → Option Claims) (creds : Option String) (st : State) (u : User)
    → requires user_manage sv decode creds st ≡ ok u
    → (is_admin u ≡ true) × (find_user u.id st ≡ some u)
unfolding find_user
requires-is_admin sv decode creds st u h =
    let (token, claims, given, signed, typ, role, known, active, unlocked, may, mfa) =
      requires-ok user_manage sv decode creds st u h in
    let admin : u.role ≡ "admin" = ((can-reserved u.role user_manage).1 refl).0 may in
    let id : u.id ≡ claims.sub =
      (==_iff u.id claims.sub).0
        (first-holds (λ (w : User). w.id == claims.sub) st.users u known) in
    (
      and_both _ _ ((str_eq_iff u.role "admin").1 admin) active,
      subst (λ k. first (λ (w : User). w.id == k) st.users ≡ some u) (sym id) known,
    )

create_user-HasAdmin :
    (sv : Server) (check_policy : String → String → Bool) (id : ℕ) (body : CreateUserRequest)
    (actor : User) (st : State)
    → HasAdmin st
    → HasAdmin (create_user sv check_policy id body actor st).1
unfolding create_user record_audit
create_user-HasAdmin sv check_policy id body actor st h = elim (Bool-cases (known_role body.role)) [
  | inr e ↦ rw (create_user, e) h
  | inl e ↦ elim (Option-cases (find_user_by_email sv body.email st)) [
    | inr (u, f) ↦ rw (create_user, e) (rw (create_user, f) h)
    | inl f ↦ elim (Bool-cases (check_policy body.password body.email)) [
      | inr p ↦ rw (create_user, e) (rw (create_user, f) (rw (create_user, p) h))
      | inl p ↦
          rw (create_user, e)
            (rw (create_user, f)
              (rw (create_user, p) (any-append st.users (new_user sv id body ∷ []) h)))
    ]
  ]
]

guarded : (a b : Bool) → (a && not b) ≡ false → (a ≡ false) ⊎ ((a ≡ true) × (b ≡ true))
guarded a b h = grind arith

-- A row that is found under the id of a found row is that row.
find_user-same :
    (user_id : ℕ) (u actor : User) (st : State)
    → find_user user_id st ≡ some u
    → find_user actor.id st ≡ some actor
    → u.id ≡ actor.id
    → u ≡ actor
unfolding find_user
find_user-same user_id u actor st n f e =
    let id : u.id ≡ user_id =
      (==_iff u.id user_id).0 (first-holds (λ (w : User). w.id == user_id) st.users u n) in
    let again : find_user user_id st ≡ some actor =
      subst (λ k. first (λ (w : User). w.id == k) st.users ≡ some actor) (sym e ∙ id) f in
    cc (n, again)

set_role-HasAdmin :
    (sv : Server) (user_id : ℕ) (role : String) (actor : User) (st : State)
    → is_admin actor ≡ true
    → find_user actor.id st ≡ some actor
    → HasAdmin (set_role sv user_id role actor st).1
unfolding set_role record_audit find_user with_role
set_role-HasAdmin sv user_id role actor st a f =
    let h : HasAdmin st = first-any actor.id actor st.users f a in
    elim (Bool-cases (known_role role)) [
      | inr e ↦ rw (set_role, e) h
      | inl e ↦ elim (Option-cases (find_user user_id st)) [
        | inl n ↦ rw (set_role, e) (rw (set_role, n) h)
        | inr (u, n) ↦ elim (Bool-cases ((u.id == actor.id) && not (str_eq role "admin"))) [
          | inl g ↦ rw (set_role, e) (rw (set_role, n) (rw (set_role, g) h))
          | inr g ↦
              rw (set_role, e)
                (rw (set_role, n)
                  (rw (set_role, g)
                    (put_user-any actor.id actor (with_role role u) st.users f a
                      (elim (guarded (u.id == actor.id) (str_eq role "admin") g) [
                        | inl other ↦ inl other
                        | inr (self, admin) ↦
                            let same : u ≡ actor =
                              find_user-same user_id u actor st n f
                                ((==_iff u.id actor.id).0 self) in
                            inr (
                              and_both _ _ admin
                                (ap (λ (w : User). w.is_active) same ∙ and_second _ _ a))
                      ]))))
        ]
      ]
    ]

disable_user-HasAdmin :
    (sv : Server) (user_id : ℕ) (actor : User) (st : State)
    → is_admin actor ≡ true
    → find_user actor.id st ≡ some actor
    → HasAdmin (disable_user sv user_id actor st).1
unfolding disable_user record_audit find_user inactive
disable_user-HasAdmin sv user_id actor st a f =
    let h : HasAdmin st = first-any actor.id actor st.users f a in
    elim (Option-cases (find_user user_id st)) [
      | inl n ↦ rw (disable_user, n) h
      | inr (u, n) ↦ elim (Bool-cases (u.id == actor.id)) [
        | inl e ↦ rw (disable_user, n) (rw (disable_user, e) h)
        | inr e ↦
            rw (disable_user, n)
              (rw (disable_user, e) (put_user-any actor.id actor (inactive u) st.users f a (inl e)))
      ]
    ]

Reply-cases : (r : Reply User) → ((code : ℕ) × (r ≡ http code)) ⊎ ((u : User) × (r ≡ ok u))
Reply-cases (http code) = inl (code, refl)
Reply-cases (ok u) = inr (u, refl)

handle-HasAdmin :
    (sv : Server) (check_policy : String → String → Bool) (request : AdminRequest) (actor : User)
    (st : State)
    → is_admin actor ≡ true
    → find_user actor.id st ≡ some actor
    → HasAdmin (handle sv check_policy request actor st).1
unfolding handle find_user
handle-HasAdmin sv check_policy (create id body) actor st a f =
    create_user-HasAdmin sv check_policy id body actor st (first-any actor.id actor st.users f a)
handle-HasAdmin sv check_policy (promote user_id role) actor st a f =
    set_role-HasAdmin sv user_id role actor st a f
handle-HasAdmin sv check_policy (disable user_id) actor st a f =
    disable_user-HasAdmin sv user_id actor st a f

answer-HasAdmin :
    (sv : Server) (check_policy : String → String → Bool) (decode : String → Option Claims)
    (creds : Option String) (request : AdminRequest) (st : State)
    → HasAdmin st
    → HasAdmin (answer sv check_policy decode creds request st).1
unfolding answer
answer-HasAdmin sv check_policy decode creds request st h =
    elim (Reply-cases (requires user_manage sv decode creds st)) [
      | inl (code, e) ↦ rw (answer, e) h
      | inr (actor, e) ↦
          let (a, f) = requires-is_admin sv decode creds st actor e in
          rw (answer, e) (handle-HasAdmin sv check_policy request actor st a f)
    ]

-- A server, the token of the caller, and what is asked for.
abbrev pub AdminCall : Type 0
AdminCall = Server × Option String × AdminRequest

unfoldable pub answers :
    (String → String → Bool) → (String → Option Claims) → List AdminCall → State → State
answers check_policy decode [] st = st
answers check_policy decode ((sv, creds, request) ∷ calls) st =
    answers check_policy decode calls (answer sv check_policy decode creds request st).1

-- Where an administrator is active, one is active after any sequence of requests to create users, change
-- roles and disable users, whoever sends them and whether they are let through or not.
pub answers-HasAdmin :
    (check_policy : String → String → Bool) (decode : String → Option Claims)
    (calls : List AdminCall) (st : State)
    → HasAdmin st
    → HasAdmin (answers check_policy decode calls st)
unfolding answers
answers-HasAdmin check_policy decode [] st h = h
answers-HasAdmin check_policy decode ((sv, creds, request) ∷ calls) st h =
    answers-HasAdmin check_policy decode calls (answer sv check_policy decode creds request st).1
      (answer-HasAdmin sv check_policy decode creds request st h)

handle-http :
    (sv : Server) (check_policy : String → String → Bool) (request : AdminRequest) (actor : User)
    (st : State) (code : ℕ)
    → (handle sv check_policy request actor st).0 ≡ http code
    → (handle sv check_policy request actor st).1 ≡ st
unfolding handle create_user set_role disable_user
handle-http sv check_policy (create id body) actor st code h = ground (arith, h)
handle-http sv check_policy (promote user_id role) actor st code h = ground (arith, h)
handle-http sv check_policy (disable user_id) actor st code h = ground (arith, h)

-- A request of the administration that is answered with an error has changed nothing, neither the
-- users nor the audit log, wherever it was refused: by the guard, for an unknown or protected user, for
-- an unknown role, a taken address or a weak password.
pub answer-http :
    (sv : Server) (check_policy : String → String → Bool) (decode : String → Option Claims)
    (creds : Option String) (request : AdminRequest) (st : State) (code : ℕ)
    → (answer sv check_policy decode creds request st).0 ≡ http code
    → (answer sv check_policy decode creds request st).1 ≡ st
unfolding answer
answer-http sv check_policy decode creds request st code h =
    elim (Reply-cases (requires user_manage sv decode creds st)) [
      | inl (status, e) ↦ rw (answer, e) refl
      | inr (actor, e) ↦
          rw (answer, e) (handle-http sv check_policy request actor st code (rw (answer, e) at h))
    ]
