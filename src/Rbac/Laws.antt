-- ===== src/Rbac/Laws.antt =====
-- What the grant table gives to whom.
use skyrecon.Base.{
  String, ◌≡◌, refl, ◌↔◌, Bool, true, false, ◌⊎◌, inl, inr, none, some, arith, List, str_eq_iff,
}
use skyrecon.Rbac.{
  viewer, analyst, admin, Permission, ioc_delete, rule_write, user_manage, audit_read, key_rotate,
  role_of, grants, holds, permissions_for, can, ioc_read, ioc_write, event_read, event_ingest,
  alert_read, alert_triage, rule_read,
}

-- The three tests of `Role(role)`, one after the other.
role_of-cases :
    (s : String)
    → ((s ≡ "viewer") × (role_of s ≡ some viewer))
      ⊎ ((s ≡ "analyst") × (role_of s ≡ some analyst))
      ⊎ ((s ≡ "admin") × (role_of s ≡ some admin))
      ⊎ (role_of s ≡ none)
unfolding role_of
role_of-cases s =
    ground (arith, str_eq_iff s "viewer", str_eq_iff s "analyst", str_eq_iff s "admin")

-- The permissions that the table gives to administrators alone.
abbrev pub is_reserved : Permission → Bool
is_reserved ioc_delete = true
is_reserved rule_write = true
is_reserved user_manage = true
is_reserved audit_read = true
is_reserved key_rotate = true
is_reserved _ = false

-- Every permission of one role is one of the other.
abbrev pub Includes : List Permission → List Permission → Type 0
Includes ps qs = (p : Permission) → holds ps p ≡ true → holds qs p ≡ true

grants-analyst : Includes (grants viewer) (grants analyst)
unfolding grants
grants-analyst ioc_read h = refl
grants-analyst event_read h = refl
grants-analyst alert_read h = refl
grants-analyst rule_read h = refl
grants-analyst _ h = cc

grants-admin : (p : Permission) → holds (grants admin) p ≡ true
unfolding grants
grants-admin ioc_read = refl
grants-admin _ = refl

grants-reserved :
    (p : Permission)
    → is_reserved p ≡ true
    → (holds (grants viewer) p ≡ false) × (holds (grants analyst) p ≡ false)
unfolding grants
grants-reserved ioc_read h = cc
grants-reserved ioc_write h = cc
grants-reserved event_read h = cc
grants-reserved event_ingest h = cc
grants-reserved alert_read h = cc
grants-reserved alert_triage h = cc
grants-reserved rule_read h = cc
grants-reserved _ h = (refl, refl)

role_of-admin : role_of "admin" ≡ some admin
unfolding role_of
role_of-admin = refl

-- The roles are nested: what a viewer may do an analyst may do, and what any role may do, known or
-- not, an administrator may do.
pub can-hierarchy :
    (s : String) (p : Permission)
    → (can "viewer" p ≡ true → can "analyst" p ≡ true) × (can s p ≡ true → can "admin" p ≡ true)
unfolding can permissions_for role_of
can-hierarchy s p = (grants-analyst p, λ _. grants-admin p)

-- A role text outside the three known ones grants nothing, and each reserved permission (deleting
-- indicators, writing rules, managing users, reading the audit log, rotating keys) is granted to
-- the role text "admin" and to no other.
pub can-reserved :
    (s : String) (p : Permission)
    → (role_of s ≡ none → can s p ≡ false)
      × (is_reserved p ≡ true → (can s p ≡ true) ↔ (s ≡ "admin"))
unfolding can permissions_for
can-reserved s p = elim (role_of-cases s) [
  | inl (e, r) ↦
      (λ u. cc, λ h. rw r (λ t. cc ((grants-reserved p h).0), λ q. cc (q, r, role_of-admin)))
  | inr (inl (e, r)) ↦
      (λ u. cc, λ h. rw r (λ t. cc ((grants-reserved p h).1), λ q. cc (q, r, role_of-admin)))
  | inr (inr (inl (e, r))) ↦ (λ u. cc, λ h. rw r (λ t. e, λ q. grants-admin p))
  | inr (inr (inr r)) ↦ (λ u. rw r, λ h. rw r (λ t. cc, λ q. cc (q, r, role_of-admin)))
]
