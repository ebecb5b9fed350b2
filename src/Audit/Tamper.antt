-- ===== src/Audit/Tamper.antt =====
-- What `verify_chain` detects: an edit needs a collision of the hash, and the report names the first bad
-- entry. Dropping the newest entries is not detected.
use skyrecon.Base.{
  ℕ, ◌≡◌, ◌≢◌, refl, sym, ap, ◌∙◌, String, Bool, true, false, ◌&&◌, ◌⊎◌, inl, inr, none, some, List,
  [], ◌∷◌, ◌++◌, length, arith, str_eq, str_eq_iff, ◌==◌, Bool-cases,
}
use skyrecon.Audit.{DateTime, Digest, genesis, Body, AuditEntry, body_of, walk, rows, verify_chain}
use skyrecon.Audit.Record.{tip}

body_eq : Body → Body → Bool
body_eq a b =
    a.seq == b.seq
    && str_eq a.at b.at
    && str_eq a.actor b.actor
    && str_eq a.action b.action
    && str_eq a.target b.target
    && str_eq a.outcome b.outcome
    && str_eq a.prev b.prev

body_eq→eq : (a b : Body) → body_eq a b ≡ true → a ≡ b
unfolding body_eq
body_eq→eq a b h = ground (
  arith,
  str_eq_iff a.at b.at,
  str_eq_iff a.actor b.actor,
  str_eq_iff a.action b.action,
  str_eq_iff a.target b.target,
  str_eq_iff a.outcome b.outcome,
  str_eq_iff a.prev b.prev,
)

body_eq_self : (a : Body) → body_eq a a ≡ true
unfolding body_eq
body_eq_self a = ground (
  arith,
  str_eq_iff a.at a.at,
  str_eq_iff a.actor a.actor,
  str_eq_iff a.action a.action,
  str_eq_iff a.target a.target,
  str_eq_iff a.outcome a.outcome,
  str_eq_iff a.prev a.prev,
)

module _ (isoformat : ℕ → String) (sha256_json : Body → Digest) where
  -- Two different bodies with one hash.
  abbrev pub Collision : Type 0
  Collision = (a : Body) × (b : Body) × (a ≢ b) × (sha256_json a ≡ sha256_json b)

  same_or_collision : (a b : Body) → sha256_json a ≡ sha256_json b → (a ≡ b) ⊎ Collision
  same_or_collision a b h = elim (Bool-cases (body_eq a b)) [
    | inl e ↦ inl (body_eq→eq a b e)
    | inr e ↦ inr (a, b, (λ q. cc (e, body_eq_self a, q)), h)
  ]

  -- What the hashes cover, entry by entry.
  abbrev pub bodies : Digest → List AuditEntry → List Body
  bodies prev [] = []
  bodies prev (e ∷ es) = body_of isoformat e prev ∷ bodies e.entry_hash es

  walk-hash :
      (prev : Digest) (e : AuditEntry) (es : List AuditEntry)
      → walk isoformat sha256_json prev (e ∷ es) ≡ (true, none)
      → (e.entry_hash ≡ sha256_json (body_of isoformat e prev))
        × (walk isoformat sha256_json e.entry_hash es ≡ (true, none))
  unfolding walk
  walk-hash prev e es h = elim (Bool-cases (str_eq e.prev_hash prev)) [
    | inl p ↦ elim (Bool-cases (str_eq e.entry_hash (sha256_json (body_of isoformat e prev)))) [
      | inl q ↦ ((str_eq_iff _ _).0 q, rw (p, q) at h)
      | inr q ↦ cc (rw (p, q) at h)
    ]
    | inr p ↦ cc (rw p at h)
  ]

  walk-tamper :
      (p q : Digest) (a b : List AuditEntry)
      → length a ≡ length b
      → walk isoformat sha256_json p a ≡ (true, none)
      → walk isoformat sha256_json q b ≡ (true, none)
      → tip p a ≡ tip q b
      → ((p ≡ q) × (bodies p a ≡ bodies q b)) ⊎ Collision
  walk-tamper p q [] [] n ha hb t = inl (t, refl)
  walk-tamper p q [] (f ∷ b) n ha hb t = absurd (omega arith)
  walk-tamper p q (e ∷ a) [] n ha hb t = absurd (omega arith)
  walk-tamper p q (e ∷ a) (f ∷ b) n ha hb t =
      let (he, ra) = walk-hash p e a ha in
      let (hf, rb) = walk-hash q f b hb in
      elim (walk-tamper e.entry_hash f.entry_hash a b (omega arith) ra rb t) [
        | inl (same, rest) ↦
            elim (same_or_collision (body_of isoformat e p) (body_of isoformat f q)
              (sym he ∙ same ∙ hf)) [
                | inl eq ↦ inl (ap (λ (x : Body). x.prev) eq, cc (eq, rest))
                | inr c ↦ inr c
              ]
        | inr c ↦ inr c
      ]

  -- An entry does not carry the hash before it, or not its own.
  abbrev pub IsBad : Digest → AuditEntry → Type 0
  IsBad prev e = (e.prev_hash ≢ prev) ⊎ (e.entry_hash ≢ sha256_json (body_of isoformat e prev))

  -- Each entry carries the hash of the one before it, and its own.
  abbrev pub Linked : Digest → List AuditEntry → Type 0
  Linked prev [] = Unit
  Linked prev (e ∷ es) =
      (e.prev_hash ≡ prev)
      × (e.entry_hash ≡ sha256_json (body_of isoformat e prev))
      × Linked e.entry_hash es

  abbrev pub FirstBad : Digest → List AuditEntry → ℕ → Type 0
  FirstBad prev es s =
      (good : List AuditEntry) × (e : AuditEntry) × (more : List AuditEntry) × (es
        ≡ good ++ e ∷ more)
      × Linked prev good
      × (e.seq ≡ s)
      × IsBad (tip prev good) e

  differ : (s t : String) → str_eq s t ≡ false → s ≢ t
  differ s t h e = cc (h, (str_eq_iff s t).1 e)

  walk-FirstBad :
      (prev : Digest) (es : List AuditEntry) (s : ℕ)
      → walk isoformat sha256_json prev es ≡ (false, some s)
      → FirstBad prev es s
  unfolding walk
  walk-FirstBad prev [] s h = cc
  walk-FirstBad prev (e ∷ es) s h = elim (Bool-cases (str_eq e.prev_hash prev)) [
    | inl p ↦ elim (Bool-cases (str_eq e.entry_hash (sha256_json (body_of isoformat e prev)))) [
      | inl q ↦
          let (good, bad, more, split, fine, number, wrong) =
            walk-FirstBad e.entry_hash es s (rw (p, q) at h) in
          (
            e ∷ good,
            bad,
            more,
            ap (λ t. e ∷ t) split,
            ((str_eq_iff _ _).0 p, (str_eq_iff _ _).0 q, fine),
            number,
            wrong,
          )
      | inr q ↦ ([], e, es, refl, tt, cc (rw (p, q) at h), inr (differ _ _ q))
    ]
    | inr p ↦ ([], e, es, refl, tt, cc (rw p at h), inl (differ _ _ p))
  ]

-- Two logs that both verify, have as many entries and end in the same hash cover the same contents, entry by entry, or two different entries with the same hash are exhibited.
pub verify-tamper :
    (isoformat : ℕ → String) (sha256_json : Body → Digest) (driver : DateTime → DateTime)
    (log log' : List AuditEntry)
    → verify_chain isoformat sha256_json driver log ≡ (true, none)
    → verify_chain isoformat sha256_json driver log' ≡ (true, none)
    → length (rows driver log) ≡ length (rows driver log')
    → tip genesis (rows driver log) ≡ tip genesis (rows driver log')
    → (bodies isoformat sha256_json genesis (rows driver log)
        ≡ bodies isoformat sha256_json genesis (rows driver log'))
      ⊎ Collision isoformat sha256_json
verify-tamper isoformat sha256_json driver log log' h h' n t =
    elim (walk-tamper isoformat sha256_json genesis genesis (rows driver log) (rows driver log') n
      (unfold verify_chain in h) (unfold verify_chain in h') t) [
        | inl (_, same) ↦ inl same
        | inr c ↦ inr c
      ]

-- Where `verify_chain` reports a number, each row in front carries the hash of the one before it and the hash of its own contents, and the entry with that number is the first that does not.
pub verify-FirstBad :
    (isoformat : ℕ → String) (sha256_json : Body → Digest) (driver : DateTime → DateTime)
    (log : List AuditEntry) (s : ℕ)
    → verify_chain isoformat sha256_json driver log ≡ (false, some s)
    → FirstBad isoformat sha256_json genesis (rows driver log) s
verify-FirstBad isoformat sha256_json driver log s h =
    walk-FirstBad isoformat sha256_json genesis (rows driver log) s (unfold verify_chain in h)
