-- ===== src/Rbac/Tests.antt =====
-- The grant table at the roles of the database.
use skyrecon.Base.{◌≡◌, refl, false}
use skyrecon.Rbac.{can, role_of, ioc_delete, ioc_read, permissions_for, grants}

unknown_role : can "root" ioc_read ≡ false
unfolding can permissions_for role_of
unknown_role = refl

analyst_cannot_delete : can "analyst" ioc_delete ≡ false
unfolding can permissions_for role_of grants
analyst_cannot_delete = refl
