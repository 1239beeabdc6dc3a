-- ===== src/Authz/Grants.antt =====
-- About `HasProjectPermission` and `HasSystemPermission`, by role and for the superadmin.
use modelserver.Prelude.{
  String, ◌≡◌, refl, sym, ◌∙◌, inl, inr, Bool, true, false, ◌&&◌, List, [], ◌++◌, arith, contains,
  str_eq, Bool-cases, if◌then◌else◌,
}
use modelserver.Authz.Permissions.{
  scope_system, scope_project, scope_of, is_valid_permission, permissions_in_scope,
}
use modelserver.Authz.Roles.{
  role_owner, role_maintainer, role_developer, developer_permissions, maintainer_permissions,
  owner_permissions, no_capabilities, new_capability_set, has, permissions_for_role, Principal,
  is_authenticated, project_capabilities, system_capabilities, or_none, is_of_scope,
  has_project_permission, has_system_permission,
}
use modelserver.Authz.Capabilities.{
  contains-append, contains-permissions_in_scope, has-new_capability_set, of_scope,
  owner_permissions-of-project,
}

-- The permissions that a role names; none for a text that is no role.
abbrev pub granted_to : String → List String
granted_to role =
    if str_eq role_developer role
    then developer_permissions
    else if str_eq role_maintainer role
    then maintainer_permissions
    else if str_eq role_owner role
    then owner_permissions
    else []

within : (xs ys : List String) (p : String) → contains xs p ≡ true → contains (xs ++ ys) p ≡ true
within xs ys p h = contains-append xs ys p ∙ rw h refl

developer-maintainer :
    (p : String)
    → contains developer_permissions p ≡ true
    → contains maintainer_permissions p ≡ true
unfolding maintainer_permissions
developer-maintainer p h = within developer_permissions _ p h

maintainer-owner :
    (p : String) → contains maintainer_permissions p ≡ true → contains owner_permissions p ≡ true
unfolding owner_permissions
maintainer-owner p h = within maintainer_permissions _ p h

owner-granted :
    (role p : String) → contains (granted_to role) p ≡ true → contains owner_permissions p ≡ true
owner-granted role p h = ground (arith, developer-maintainer p, maintainer-owner p)

granted-of-project :
    (role p : String)
    → contains (granted_to role) p ≡ true
    → is_of_scope scope_project (scope_of p) ≡ true
granted-of-project role p h =
    of_scope scope_project owner_permissions p owner_permissions-of-project (owner-granted role p h)

has-no_capabilities : (p : String) → has no_capabilities p ≡ false
unfolding has
has-no_capabilities p = refl

has-or_none :
    (role permission : String)
    → has (or_none (permissions_for_role role)) permission
      ≡ (is_valid_permission permission && contains (granted_to role) permission)
unfolding permissions_for_role
has-or_none role permission = elim (Bool-cases (str_eq role_developer role)) [
  | inl d ↦ rw d (has-new_capability_set developer_permissions permission)
  | inr nd ↦ elim (Bool-cases (str_eq role_maintainer role)) [
    | inl m ↦ rw (nd, m) (has-new_capability_set maintainer_permissions permission)
    | inr nm ↦ elim (Bool-cases (str_eq role_owner role)) [
      | inl ow ↦ rw (nd, nm, ow) (has-new_capability_set owner_permissions permission)
      | inr nowner ↦ rw (nd, nm, nowner) (has-no_capabilities permission ∙ ground arith)
    ]
  ]
]

in_catalogue :
    (scope permission : String)
    → is_of_scope scope (scope_of permission) ≡ true
    → is_valid_permission permission ≡ true
in_catalogue scope permission h =
    let (there, valid) = contains-permissions_in_scope scope permission h in valid

combine : (a b c : Bool) → (c ≡ true → a ≡ true) → (a ≡ true → b ≡ true) → (a && (b && c)) ≡ c
combine a b c h k = ground arith

has_of_scope :
    (scope permission : String)
    → (is_of_scope scope (scope_of permission)
        && has (new_capability_set (permissions_in_scope scope)) permission)
      ≡ is_of_scope scope (scope_of permission)
has_of_scope scope permission =
    let key = contains-permissions_in_scope scope permission in
    rw (has-new_capability_set (permissions_in_scope scope) permission) (ground (arith, key))

-- Who holds a project permission: an authenticated superadmin those of the catalogue with project
-- scope, any other authenticated principal those that the role names, and nobody else any.
pub has_project_permission-Granted :
    (p : Principal) (role permission : String)
    → has_project_permission p role permission ≡ (
        is_authenticated p
        && (if p.superadmin
            then is_of_scope scope_project (scope_of permission)
            else contains (granted_to role) permission))
unfolding has_project_permission project_capabilities
has_project_permission-Granted p role permission = elim (Bool-cases (is_authenticated p)) [
  | inr unknown ↦ rw (unknown, has-no_capabilities permission) (ground arith)
  | inl known ↦ elim (Bool-cases p.superadmin) [
    | inl super ↦ rw (known, super) (has_of_scope scope_project permission)
    | inr plain ↦
        rw (known, plain, has-or_none role permission)
          (combine _ _ _ (granted-of-project role permission)
            (in_catalogue scope_project permission))
  ]
]

-- Who holds a system permission: an authenticated superadmin those of the catalogue with system
-- scope, and nobody else any.
pub has_system_permission-Granted :
    (p : Principal) (permission : String)
    → has_system_permission p permission
      ≡ (is_authenticated p && (p.superadmin && is_of_scope scope_system (scope_of permission)))
unfolding has_system_permission system_capabilities
has_system_permission-Granted p permission = elim (Bool-cases (is_authenticated p)) [
  | inr unknown ↦ rw (unknown, has-no_capabilities permission) (ground arith)
  | inl known ↦ elim (Bool-cases p.superadmin) [
    | inl super ↦ rw (known, super) (has_of_scope scope_system permission)
    | inr plain ↦ rw (known, plain, has-no_capabilities permission) (ground arith)
  ]
]

raise :
    (a s g h : Bool) → (g ≡ true → h ≡ true) → (a && (if s then h else g)) ≡ true → (a && h) ≡ true
raise a s g h k e = ground arith

widen :
    (a s k g h : Bool)
    → (g ≡ true → h ≡ true)
    → (a && (if s then k else g)) ≡ true
    → (a && (if s then k else h)) ≡ true
widen a s k g h w e = ground arith

-- A role whose permissions are among those of another grants no more than it.
wider_role :
    (p : Principal) (small large permission : String)
    → (contains (granted_to small) permission ≡ true
        → contains (granted_to large) permission ≡ true)
    → has_project_permission p small permission ≡ true
    → has_project_permission p large permission ≡ true
wider_role p small large permission w h =
    has_project_permission-Granted p large permission
    ∙ widen (is_authenticated p) p.superadmin (is_of_scope scope_project (scope_of permission)) _ _
        w (sym (has_project_permission-Granted p small permission) ∙ h)

-- A project permission of a developer is one of a maintainer, that of a maintainer is one of an
-- owner, and that of any role is one of the same principal as superadmin.
pub has_project_permission-nests :
    (p : Principal) (permission : String)
    → (has_project_permission p role_developer permission ≡ true
        → has_project_permission p role_maintainer permission ≡ true)
      × (has_project_permission p role_maintainer permission ≡ true
          → has_project_permission p role_owner permission ≡ true)
      × ((role : String)
          → has_project_permission p role permission ≡ true
          → has_project_permission (record p { superadmin = true }) role permission ≡ true)
unfolding is_authenticated
has_project_permission-nests p permission = (
  wider_role p _ _ permission (developer-maintainer permission),
  wider_role p _ _ permission (maintainer-owner permission),
  λ role h.
      has_project_permission-Granted (record p { superadmin = true }) role permission
      ∙ raise _ p.superadmin _ _ (granted-of-project role permission)
          (sym (has_project_permission-Granted p role permission) ∙ h),
)
