-- ===== src/Authz/Access.antt =====
-- The access policies of internal/authz/access.go and system_on_project_path.go: constructors,
-- options and `Validate`.
use modelserver.Prelude.{
  String, Bool, true, false, not, ◌||◌, List, [], ◌∷◌, Option, none, some, any, contains, str_eq,
  if◌then◌else◌,
}
use modelserver.Prelude.Blank.{is_blank}
use modelserver.Authz.Permissions.{
  scope_none, scope_system, scope_project, scope_of, is_valid_scope,
}

abbrev pub mode_public : String
mode_public = "public"

abbrev pub mode_authenticated : String
mode_authenticated = "authenticated"

abbrev pub mode_rbac : String
mode_rbac = "rbac"

abbrev pub mode_hmac : String
mode_hmac = "hmac"

-- `AccessMode.Valid`
unfoldable pub is_valid_mode : String → Bool
is_valid_mode m =
    any (λ n. str_eq n m) (mode_public ∷ mode_authenticated ∷ mode_rbac ∷ mode_hmac ∷ [])

abbrev pub superadmin_none : String
superadmin_none = "none"

abbrev pub superadmin_required : String
superadmin_required = "required"

abbrev pub superadmin_bypass : String
superadmin_bypass = "bypass"

pub record ResourceBinding : Type 0 where
  pub resource_type : String
  pub id_path_param : String

pub record AccessPolicy : Type 0 where
  pub mode : String
  pub scope : String
  pub permission : String
  pub project_id_path_param : String
  pub resource : Option ResourceBinding
  pub policies : List String
  pub superadmin : String
  pub system_on_project_path : Bool

-- A descriptor that names a mode, a scope and a superadmin rule, and nothing else.
abbrev pub bare : String → String → String → AccessPolicy
bare m s r = record {
  mode = m;
  scope = s;
  permission = "";
  project_id_path_param = "";
  resource = none;
  policies = [];
  superadmin = r;
  system_on_project_path = false;
}

-- `Public`
abbrev pub public_access : AccessPolicy
public_access = bare mode_public scope_none superadmin_none

-- `Authenticated`
abbrev pub authenticated_access : AccessPolicy
authenticated_access = bare mode_authenticated scope_none superadmin_none

-- `HMAC`
abbrev pub hmac_access : AccessPolicy
hmac_access = bare mode_hmac scope_none superadmin_none

-- The three functions that make an `AccessOption`.
pub data AccessOption : Type 0 where
  with_resource : String → String → AccessOption
  with_policies : List String → AccessOption
  require_project_membership : AccessOption

-- What an option does to the policy.
abbrev pub apply_option : AccessPolicy → AccessOption → AccessPolicy
apply_option a (with_resource t i) = record a {
  resource = some (record { resource_type = t; id_path_param = i });
}
apply_option a (with_policies ps) = record a { policies = ps }
apply_option a require_project_membership = record a { superadmin = superadmin_none }

abbrev pub apply_options : AccessPolicy → List AccessOption → AccessPolicy
apply_options a [] = a
apply_options a (o ∷ os) = apply_options (apply_option a o) os

-- `System`
abbrev pub system_access : String → List AccessOption → AccessPolicy
system_access p os =
    apply_options (record (bare mode_rbac scope_system superadmin_required) { permission = p }) os

-- `Project`
abbrev pub project_access : String → String → List AccessOption → AccessPolicy
project_access p path os =
    apply_options
      (record (bare mode_rbac scope_project superadmin_bypass) {
        permission = p;
        project_id_path_param = path;
      })
      os

-- `SystemOnProjectPath`
abbrev pub system_on_project_path_access : String → String → AccessPolicy
system_on_project_path_access p path = record (system_access p []) {
  project_id_path_param = path;
  system_on_project_path = true;
}

-- The errors of `Validate`, one for each of its messages.
pub data AccessError : Type 0 where
  invalid_mode : AccessError
  invalid_scope : AccessError
  scope_must_be_none : AccessError
  rbac_metadata : AccessError
  special_superadmin : AccessError
  unknown_permission : AccessError
  permission_scope_differs : AccessError
  superadmin_not_required : AccessError
  path_parameter_required : AccessError
  system_with_path_parameter : AccessError
  project_path_required : AccessError
  invalid_superadmin_rule : AccessError
  rbac_scope : AccessError
  resource_type_required : AccessError
  resource_id_required : AccessError
  policy_id_required : AccessError
  duplicate_policy : AccessError

-- An error, or else the next check.
abbrev pub or_check : Option AccessError → Option AccessError → Option AccessError
or_check none next = next
or_check (some e) next = some e

abbrev pub has_value : Option ResourceBinding → Bool
has_value none = false
has_value (some b) = true

abbrev pub is_empty : List String → Bool
is_empty [] = true
is_empty (p ∷ ps) = false

-- The case of `Validate` for the public, authenticated and HMAC modes.
unfoldable pub validate_plain : AccessPolicy → Option AccessError
validate_plain a =
    if not (str_eq a.scope scope_none)
    then some scope_must_be_none
    else if not (str_eq a.permission "")
        || not (str_eq a.project_id_path_param "")
        || has_value a.resource
        || not (is_empty a.policies)
    then some rbac_metadata
    else if not (str_eq a.superadmin superadmin_none)
    then some special_superadmin
    else none

-- `validateRBAC`: the switch on the scope.
unfoldable pub validate_scope : AccessPolicy → Option AccessError
validate_scope a =
    if str_eq a.scope scope_system
    then if not (str_eq a.superadmin superadmin_required)
      then some superadmin_not_required
      else if a.system_on_project_path
      then if is_blank a.project_id_path_param then some path_parameter_required else none
      else if not (str_eq a.project_id_path_param "")
      then some system_with_path_parameter
      else none
    else if str_eq a.scope scope_project
    then if is_blank a.project_id_path_param
      then some project_path_required
      else if not (str_eq a.superadmin superadmin_bypass || str_eq a.superadmin superadmin_none)
      then some invalid_superadmin_rule
      else none
    else some rbac_scope

-- `validateRBAC`: the resource.
unfoldable pub validate_resource : Option ResourceBinding → Option AccessError
validate_resource none = none
validate_resource (some b) =
    if is_blank b.resource_type
    then some resource_type_required
    else if is_blank b.id_path_param
    then some resource_id_required
    else none

-- `validateRBAC`: the policies, with those seen so far.
unfoldable pub validate_policies : List String → List String → Option AccessError
validate_policies seen [] = none
validate_policies seen (p ∷ ps) =
    if is_blank p
    then some policy_id_required
    else if contains seen p
    then some duplicate_policy
    else validate_policies (p ∷ seen) ps

-- `validateRBAC`: the permission.
unfoldable pub validate_permission : Option String → String → Option AccessError
validate_permission none scope = some unknown_permission
validate_permission (some s) scope = if str_eq s scope then none else some permission_scope_differs

-- `validateRBAC`
unfoldable pub validate_rbac : AccessPolicy → Option AccessError
validate_rbac a = or_check (validate_permission (scope_of a.permission) a.scope) (
    or_check (validate_scope a)
      (or_check (validate_resource a.resource) (validate_policies [] a.policies)))

-- `Validate`; `none` is the source's nil error.
unfoldable pub validate_access : AccessPolicy → Option AccessError
validate_access a =
    if not (is_valid_mode a.mode)
    then some invalid_mode
    else if not (is_valid_scope a.scope)
    then some invalid_scope
    else if str_eq a.mode mode_rbac
    then validate_rbac a
    else validate_plain a
