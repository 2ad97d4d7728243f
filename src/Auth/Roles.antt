-- ===== src/Auth/Roles.antt =====
-- domain.go: roles, permissions and the table between them.
use opendeploy.Common.{Bool, true, false, List, [], ◌∷◌, String, any}

-- Role is a string type: an unknown one is `other`.
pub data Role : Type 0 where
  admin operator viewer : Role
  other : String → Role

pub data Permission : Type 0 where
  dashboard_view process_manage : Permission
  module_view module_install module_uninstall module_enable module_disable module_configure :
      Permission
  site_view site_create site_update site_delete : Permission
  service_view service_manage server_view server_manage : Permission
  settings_view settings_update settings_security : Permission
  audit_view user_manage : Permission

pub Permission-discrete : Discrete Permission
Permission-discrete = hlevel

abbrev pub same : Permission → Permission → Bool
same p q = elim (Permission-discrete p q) [ yes e ↦ true | no n ↦ false ]

unfoldable pub role_permissions : Role → List Permission
role_permissions admin =
    dashboard_view ∷ process_manage ∷ module_view ∷ module_install ∷ module_uninstall
    ∷ module_enable ∷ module_disable ∷ module_configure ∷ site_view ∷ site_create ∷ site_update
    ∷ site_delete ∷ service_view ∷ service_manage ∷ server_view ∷ server_manage ∷ settings_view
    ∷ settings_update ∷ settings_security ∷ audit_view ∷ user_manage ∷ []
role_permissions operator =
    dashboard_view ∷ process_manage ∷ module_view ∷ module_enable ∷ module_disable
    ∷ module_configure ∷ site_view ∷ site_create ∷ site_update ∷ site_delete ∷ service_view
    ∷ service_manage ∷ server_view ∷ server_manage ∷ settings_view ∷ audit_view ∷ []
role_permissions viewer =
    dashboard_view ∷ module_view ∷ site_view ∷ service_view ∷ server_view ∷ settings_view
    ∷ audit_view ∷ []
role_permissions (other name) = []

-- Role.HasPermission
unfoldable pub has_permission : Role → Permission → Bool
unfolding role_permissions
has_permission r p = any (λ q. same q p) (role_permissions r)

-- Role.IsValid
unfoldable pub is_valid : Role → Bool
is_valid admin = true
is_valid operator = true
is_valid viewer = true
is_valid (other name) = false
