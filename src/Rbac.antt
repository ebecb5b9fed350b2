-- ===== src/Rbac.antt =====
-- Roles, permissions and the grant table of app/security/rbac.py.
pub mod Laws
mod Tests
use skyrecon.Base.{
  String, Bool, true, false, ◌||◌, Option, none, some, List, [], ◌∷◌, str_eq, any, if◌then◌else◌,
}

pub data Role : Type 0 where
  viewer analyst admin : Role

pub data Permission : Type 0 where
  ioc_read ioc_write ioc_delete : Permission
  event_read event_ingest : Permission
  alert_read alert_triage : Permission
  rule_read rule_write : Permission
  user_manage audit_read key_rotate : Permission

-- The value of a member of the enumeration, a text that is unique to it.
abbrev pub role_value : Role → String
role_value viewer = "viewer"
role_value analyst = "analyst"
role_value admin = "admin"

abbrev pub permission_value : Permission → String
permission_value ioc_read = "ioc:read"
permission_value ioc_write = "ioc:write"
permission_value ioc_delete = "ioc:delete"
permission_value event_read = "event:read"
permission_value event_ingest = "event:ingest"
permission_value alert_read = "alert:read"
permission_value alert_triage = "alert:triage"
permission_value rule_read = "rule:read"
permission_value rule_write = "rule:write"
permission_value user_manage = "user:manage"
permission_value audit_read = "audit:read"
permission_value key_rotate = "key:rotate"

-- `Role(role)`: the member with that value, or a ValueError.
unfoldable pub role_of : String → Option Role
role_of s =
    if str_eq s "viewer"
    then some viewer
    else if str_eq s "analyst"
    then some analyst
    else if str_eq s "admin"
    then some admin
    else none

abbrev all_permissions : List Permission
all_permissions =
    ioc_read ∷ ioc_write ∷ ioc_delete ∷ event_read ∷ event_ingest ∷ alert_read ∷ alert_triage
    ∷ rule_read ∷ rule_write ∷ user_manage ∷ audit_read ∷ key_rotate ∷ []

-- `_GRANTS`
unfoldable pub grants : Role → List Permission
grants viewer = ioc_read ∷ event_read ∷ alert_read ∷ rule_read ∷ []
grants analyst =
    ioc_read ∷ ioc_write ∷ event_read ∷ event_ingest ∷ alert_read ∷ alert_triage ∷ rule_read ∷ []
grants admin = all_permissions

abbrev pub permissions_of : Option Role → List Permission
permissions_of none = []
permissions_of (some r) = grants r

unfoldable pub permissions_for : String → List Permission
permissions_for s = permissions_of (role_of s)

abbrev pub holds : List Permission → Permission → Bool
holds ps p = any (λ q. str_eq (permission_value q) (permission_value p)) ps

unfoldable pub can : String → Permission → Bool
can s p = holds (permissions_for s) p
