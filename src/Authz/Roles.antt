-- ===== src/Authz/Roles.antt =====
-- The roles and capability sets of internal/authz/role.go, and the principal of principal.go.
use modelserver.Prelude.{
  ℕ, String, Bool, false, not, ◌&&◌, ◌||◌, List, [], ◌∷◌, ◌++◌, Option, none, some, any, contains,
  str_eq, length, if◌then◌else◌,
}
use modelserver.Types.{map_get}
use modelserver.Prelude.Blank.{is_blank}
use modelserver.Authz.Permissions.{
  scope_system, scope_project, scope_of, is_valid_permission, permissions_in_scope,
  sort_permissions,
}

abbrev pub role_owner : String
role_owner = "owner"

abbrev pub role_maintainer : String
role_maintainer = "maintainer"

abbrev pub role_developer : String
role_developer = "developer"

abbrev pub all_project_roles : List String
all_project_roles = role_owner ∷ role_maintainer ∷ role_developer ∷ []

-- `ProjectRole.Valid`
unfoldable pub is_valid_role : String → Bool
is_valid_role r = any (λ s. str_eq s r) all_project_roles

unfoldable pub developer_permissions : List String
developer_permissions =
    "project.read" ∷ "project.models.read" ∷ "project.members.read" ∷ "project.members.usage.read"
    ∷ "project.keys.create" ∷ "project.keys.read" ∷ "project.keys.manage"
    ∷ "project.oauth_grants.read" ∷ "project.policies.read" ∷ "project.subscriptions.read"
    ∷ "project.plans.read" ∷ "project.orders.read" ∷ "project.billing.read"
    ∷ "project.requests.read" ∷ "project.usage.read" ∷ "project.traces.read"
    ∷ "project.extra_usage.read" ∷ []

unfoldable pub maintainer_additions : List String
maintainer_additions =
    "project.settings.write" ∷ "project.members.manage" ∷ "project.oauth_grants.manage"
    ∷ "project.policies.manage" ∷ "project.orders.create" ∷ "project.orders.manage"
    ∷ "project.billing.manage" ∷ "project.extra_usage.write" ∷ "project.extra_usage.topup" ∷ []

unfoldable pub owner_additions : List String
owner_additions = "project.archive" ∷ "project.ownership.transfer" ∷ []

-- `appendPermissions`
abbrev pub append_permissions : List String → List String → List String
append_permissions base additions = base ++ additions

unfoldable pub maintainer_permissions : List String
maintainer_permissions = append_permissions developer_permissions maintainer_additions

unfoldable pub owner_permissions : List String
owner_permissions = append_permissions maintainer_permissions owner_additions

abbrev pub permissions_by_role : List (String × List String)
permissions_by_role =
    (role_developer, developer_permissions)
    ∷ (role_maintainer, maintainer_permissions)
    ∷ (role_owner, owner_permissions)
    ∷ []

-- `CapabilitySet`: the keys of its map, each once, in the order they were put in.
pub record CapabilitySet : Type 0 where
  pub permissions : List String

abbrev pub no_capabilities : CapabilitySet
no_capabilities = record { permissions = [] }

-- `set.permissions[permission] = struct{}{}`
unfoldable pub put : List String → String → List String
put ps p = if contains ps p then ps else ps ++ p ∷ []

unfoldable pub put_all : List String → List String → List String
put_all ps [] = ps
put_all ps (q ∷ qs) = put_all (if is_valid_permission q then put ps q else ps) qs

-- `NewCapabilitySet`
unfoldable pub new_capability_set : List String → CapabilitySet
unfolding put_all
new_capability_set qs = record { permissions = put_all [] qs }

-- `Has`
unfoldable pub has : CapabilitySet → String → Bool
has s p = contains s.permissions p

-- `Len`
unfoldable pub size : CapabilitySet → ℕ
size s = length s.permissions

-- `Permissions`, and `Strings`, which gives the same texts.
unfoldable pub sorted_permissions : CapabilitySet → List String
unfolding sort_permissions
sorted_permissions s = sort_permissions s.permissions

abbrev pub capabilities_of : Option (List String) → Option CapabilitySet
capabilities_of none = none
capabilities_of (some ps) = some (new_capability_set ps)

-- `PermissionsForRole`; `none` is the source's empty set with `false`.
unfoldable pub permissions_for_role : String → Option CapabilitySet
permissions_for_role role = capabilities_of (map_get permissions_by_role role)

pub record Principal : Type 0 where
  pub user_id : String
  pub superadmin : Bool

-- `Authenticated`
unfoldable pub is_authenticated : Principal → Bool
is_authenticated p = not (is_blank p.user_id)

pub data PrincipalError : Type 0 where
  anonymous_superadmin : PrincipalError
  missing_user_id : PrincipalError

-- `Principal.Validate`; `none` is the source's nil error.
unfoldable pub validate_principal : Principal → Option PrincipalError
unfolding is_authenticated
validate_principal p =
    if is_authenticated p
    then none
    else if p.superadmin
    then some anonymous_superadmin
    else some missing_user_id

abbrev pub or_none : Option CapabilitySet → CapabilitySet
or_none none = no_capabilities
or_none (some s) = s

-- `ProjectCapabilities`
unfoldable pub project_capabilities : Principal → String → CapabilitySet
project_capabilities p role =
    if not (is_authenticated p)
    then no_capabilities
    else if p.superadmin
    then new_capability_set (permissions_in_scope scope_project)
    else or_none (permissions_for_role role)

-- `SystemCapabilities`
unfoldable pub system_capabilities : Principal → CapabilitySet
system_capabilities p =
    if not (is_authenticated p) || not p.superadmin
    then no_capabilities
    else new_capability_set (permissions_in_scope scope_system)

-- The permission is of the catalogue, with that scope.
abbrev pub is_of_scope : String → Option String → Bool
is_of_scope scope none = false
is_of_scope scope (some s) = str_eq s scope

-- `HasProjectPermission`
unfoldable pub has_project_permission : Principal → String → String → Bool
has_project_permission p role permission =
    is_of_scope scope_project (scope_of permission) && has (project_capabilities p role) permission

-- `HasSystemPermission`
unfoldable pub has_system_permission : Principal → String → Bool
has_system_permission p permission =
    is_of_scope scope_system (scope_of permission) && has (system_capabilities p) permission
