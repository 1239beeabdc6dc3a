-- ===== src/Authz/Policies.antt =====
-- The two conditional policies of internal/authz/policy_key_owned.go and policy_member_self.go.
use modelserver.Prelude.{String, Bool, true, false, ◌||◌, Option, none, some, str_eq, if◌then◌else◌}
use modelserver.Authz.Roles.{Principal, role_owner, role_maintainer}

-- `Resource`, without the attributes, which neither policy reads.
pub record Resource : Type 0 where
  pub kind : String
  pub id : String
  pub project_id : String
  pub owner_id : String

-- The fields of `PolicyInput` that the policies read.
pub record PolicyInput : Type 0 where
  pub principal : Principal
  pub role : String
  pub project_id : String
  pub resource : Option Resource

abbrev pub is_elevated : PolicyInput → Bool
is_elevated i =
    i.principal.superadmin || (str_eq i.role role_owner || str_eq i.role role_maintainer)

unfoldable pub is_owned_by : Option Resource → String → Bool
is_owned_by none user_id = false
is_owned_by (some r) user_id =
    if str_eq user_id "" || str_eq r.owner_id "" then false else str_eq user_id r.owner_id

-- `KeyOwnedByCallerForDeveloperPolicy.Evaluate`; its error is always nil.
unfoldable pub key_owned_by_caller : PolicyInput → Bool
key_owned_by_caller i = if is_elevated i then true else is_owned_by i.resource i.principal.user_id

unfoldable pub is_own_row : Option Resource → String → Bool
is_own_row none user_id = false
is_own_row (some r) user_id = if str_eq user_id "" then false else str_eq r.id user_id

-- `MemberSelfOrElevatedPolicy.Evaluate`; its error is always nil.
unfoldable pub member_self_or_elevated : PolicyInput → Bool
member_self_or_elevated i =
    if is_elevated i then true else is_own_row i.resource i.principal.user_id
