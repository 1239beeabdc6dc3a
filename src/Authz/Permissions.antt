-- ===== src/Authz/Permissions.antt =====
-- The permission catalogue of internal/authz/permission.go, and the scopes and modes of access.go.
-- A permission is its text, as in the source.
use modelserver.Prelude.{
  String, Bool, true, false, List, [], ◌∷◌, Option, none, some, any, str_eq, str_lt, if◌then◌else◌,
}
use modelserver.Types.{map_get}

abbrev pub scope_none : String
scope_none = "none"

abbrev pub scope_system : String
scope_system = "system"

abbrev pub scope_project : String
scope_project = "project"

unfoldable pub permission_scopes : List (String × String)
permission_scopes =
    ("system.users.read", scope_system)
    ∷ ("system.users.write", scope_system)
    ∷ ("system.plans.read", scope_system)
    ∷ ("system.plans.manage", scope_system)
    ∷ ("system.models.read", scope_system)
    ∷ ("system.models.manage", scope_system)
    ∷ ("system.projects.read", scope_system)
    ∷ ("system.requests.read", scope_system)
    ∷ ("system.extra_usage.read", scope_system)
    ∷ ("system.extra_usage.manage", scope_system)
    ∷ ("system.upstreams.read", scope_system)
    ∷ ("system.upstreams.manage", scope_system)
    ∷ ("system.upstream_groups.read", scope_system)
    ∷ ("system.upstream_groups.manage", scope_system)
    ∷ ("system.oauth_clients.read", scope_system)
    ∷ ("system.oauth_clients.manage", scope_system)
    ∷ ("system.routing.read", scope_system)
    ∷ ("system.routing.manage", scope_system)
    ∷ ("system.subscription.override", scope_system)
    ∷ ("system.notifications.read", scope_system)
    ∷ ("system.notifications.manage", scope_system)
    ∷ ("project.read", scope_project)
    ∷ ("project.settings.write", scope_project)
    ∷ ("project.archive", scope_project)
    ∷ ("project.ownership.transfer", scope_project)
    ∷ ("project.models.read", scope_project)
    ∷ ("project.members.read", scope_project)
    ∷ ("project.members.manage", scope_project)
    ∷ ("project.keys.create", scope_project)
    ∷ ("project.keys.read", scope_project)
    ∷ ("project.keys.manage", scope_project)
    ∷ ("project.oauth_grants.read", scope_project)
    ∷ ("project.oauth_grants.manage", scope_project)
    ∷ ("project.policies.read", scope_project)
    ∷ ("project.policies.manage", scope_project)
    ∷ ("project.subscriptions.read", scope_project)
    ∷ ("project.plans.read", scope_project)
    ∷ ("project.orders.read", scope_project)
    ∷ ("project.orders.create", scope_project)
    ∷ ("project.orders.manage", scope_project)
    ∷ ("project.billing.read", scope_project)
    ∷ ("project.billing.manage", scope_project)
    ∷ ("project.requests.read", scope_project)
    ∷ ("project.usage.read", scope_project)
    ∷ ("project.traces.read", scope_project)
    ∷ ("project.members.usage.read", scope_project)
    ∷ ("project.extra_usage.read", scope_project)
    ∷ ("project.extra_usage.write", scope_project)
    ∷ ("project.extra_usage.topup", scope_project)
    ∷ []

-- `Scope.Valid`
unfoldable pub is_valid_scope : String → Bool
is_valid_scope s = any (λ t. str_eq t s) (scope_none ∷ scope_system ∷ scope_project ∷ [])

-- `Permission.Scope`; `none` is the source's `ScopeNone, false`.
unfoldable pub scope_of : String → Option String
scope_of p = map_get permission_scopes p

abbrev is_some : Option String → Bool
is_some none = false
is_some (some s) = true

-- `Permission.Valid`
unfoldable pub is_valid_permission : String → Bool
unfolding scope_of
is_valid_permission p = is_some (scope_of p)

-- The keys that a map gives a value that passes the test, in its order.
abbrev pub keys_where : (String → Bool) → List (String × String) → List String
keys_where f [] = []
keys_where f ((p, s) ∷ rest) = if f s then p ∷ keys_where f rest else keys_where f rest

-- `permissionsInScope`
unfoldable pub permissions_in_scope : String → List String
permissions_in_scope scope = keys_where (λ s. str_eq s scope) permission_scopes

-- One pass of the inner loop of `sortPermissions`: the new element moves down past the larger ones.
abbrev pub insert_sorted : String → List String → List String
insert_sorted p [] = p ∷ []
insert_sorted p (q ∷ qs) = if str_lt q p then q ∷ insert_sorted p qs else p ∷ q ∷ qs

-- `sortPermissions`: the elements from the left, each put in its place among those before it.
unfoldable pub sort_permissions_onto : List String → List String → List String
sort_permissions_onto sorted [] = sorted
sort_permissions_onto sorted (p ∷ ps) = sort_permissions_onto (insert_sorted p sorted) ps

unfoldable pub sort_permissions : List String → List String
unfolding sort_permissions_onto
sort_permissions ps = sort_permissions_onto [] ps

-- `AllPermissions`
unfoldable pub all_permissions : List String
unfolding sort_permissions
all_permissions = sort_permissions (keys_where (λ s. true) permission_scopes)
