-- ===== src/Authz/Tests.antt =====
-- Checks of the roles and of access policies, and the theorems at them.
use modelserver.Prelude.{◌≡◌, ◌≢◌, false, ◌&&◌, [], ◌∷◌, some, arith, contains, eq_iff}
use modelserver.Authz.Permissions.{scope_system}
use modelserver.Authz.Roles.{CapabilitySet, Principal, is_authenticated, has_project_permission}
use modelserver.Authz.Grants.{granted_to, has_project_permission-Granted}
use modelserver.Authz.Access.{
  AccessPolicy, with_resource, with_policies, project_access, public_access,
}
use modelserver.Authz.Policies.{PolicyInput}

abbrev alice : Principal
alice = record { user_id = "alice"; superadmin = false }

has_project_permission-Granted_example :
    has_project_permission alice "developer" "project.archive"
    ≡ (is_authenticated alice && contains (granted_to "developer") "project.archive")
has_project_permission-Granted_example =
    has_project_permission-Granted alice "developer" "project.archive"

abbrev keys_read : AccessPolicy
keys_read =
    project_access "project.keys.read" "projectID"
      (with_resource "api_key" "keyID" ∷ with_policies ("own-resource" ∷ []) ∷ [])

none_is_not_system : public_access.scope ≢ scope_system
none_is_not_system h = ground (arith, eq_iff "none" "system")

abbrev input : PolicyInput
input = record {
  principal = alice;
  role = "developer";
  project_id = "p1";
  resource = some (record { kind = "api_key"; id = "k1"; project_id = "p1"; owner_id = "alice" });
}

abbrev two_capabilities : CapabilitySet
two_capabilities = record { permissions = "project.read" ∷ "project.archive" ∷ [] }
