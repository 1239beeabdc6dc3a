-- ===== src/Authz/Checks.antt =====
-- The single checks of `Validate`, and the conditions on the fields that they stand for.
use modelserver.Prelude.{
  String, ◌≡◌, ◌≢◌, refl, ◌⊎◌, inl, inr, Bool, true, false, not, ◌||◌, List, [], ◌∷◌, Option, none,
  some, arith, contains, str_eq, eq_iff, Bool-cases, if◌then◌else◌,
}
use modelserver.Prelude.Blank.{is_blank}
use modelserver.Authz.Permissions.{scope_none, scope_system, scope_project, scope_of}
use modelserver.Authz.Access.{
  AccessPolicy, ResourceBinding, superadmin_not_required, project_path_required,
  invalid_superadmin_rule, path_parameter_required, system_with_path_parameter, mode_rbac,
  superadmin_none, superadmin_required, superadmin_bypass, is_valid_mode, validate_scope,
  validate_resource, validate_policies, validate_permission,
}

abbrev pub NotBlank : String → Type 0
NotBlank s = is_blank s ≡ false

-- What a policy of system scope has besides its permission.
abbrev pub SystemFields : AccessPolicy → Type 0
SystemFields a =
    (a.superadmin ≡ superadmin_required)
    × ((a.system_on_project_path ≡ true) × NotBlank a.project_id_path_param
        ⊎ (a.system_on_project_path ≡ false) × (a.project_id_path_param ≡ ""))

-- What a policy of project scope has besides its permission.
abbrev pub ProjectFields : AccessPolicy → Type 0
ProjectFields a =
    NotBlank a.project_id_path_param
    × ((a.superadmin ≡ superadmin_bypass) ⊎ (a.superadmin ≡ superadmin_none))

abbrev pub ScopeFields : AccessPolicy → Type 0
ScopeFields a =
    ((a.scope ≡ scope_system) × SystemFields a) ⊎ ((a.scope ≡ scope_project) × ProjectFields a)

abbrev pub ResourceFields : Option ResourceBinding → Type 0
ResourceFields none = Unit
ResourceFields (some b) = NotBlank b.resource_type × NotBlank b.id_path_param

-- No policy is blank or among those seen, and none stands twice.
abbrev pub Distinct : List String → List String → Type 0
Distinct seen [] = Unit
Distinct seen (p ∷ ps) = NotBlank p × (contains seen p ≡ false) × Distinct (p ∷ seen) ps

-- A policy that names neither a permission nor anything else of RBAC.
abbrev pub Plain : AccessPolicy → Type 0
Plain a =
    (a.mode ≢ mode_rbac)
    × (is_valid_mode a.mode ≡ true)
    × (a.scope ≡ scope_none)
    × (a.permission ≡ "")
    × (a.project_id_path_param ≡ "")
    × (a.resource ≡ none)
    × (a.policies ≡ [])
    × (a.superadmin ≡ superadmin_none)

abbrev pub Rbac : AccessPolicy → Type 0
Rbac a =
    (a.mode ≡ mode_rbac)
    × (scope_of a.permission ≡ some a.scope)
    × ScopeFields a
    × ResourceFields a.resource
    × Distinct [] a.policies

-- The checks of a system scope, on their Booleans.
system_checks :
    (required flag blank empty : Bool)
    → (if not required
        then some superadmin_not_required
        else if flag
        then if blank then some path_parameter_required else none
        else if not empty
        then some system_with_path_parameter
        else none)
      ≡ none
    → (required ≡ true) × (((flag ≡ true) × (blank ≡ false)) ⊎ ((flag ≡ false) × (empty ≡ true)))
system_checks true true false empty h = (refl, inl (refl, refl))
system_checks true false blank true h = (refl, inr (refl, refl))
system_checks true false blank false h = absurd (ground arith)
system_checks true true true empty h = absurd (ground arith)
system_checks false flag blank empty h = absurd (ground arith)

project_checks :
    (blank bypass none_rule : Bool)
    → (if blank
        then some project_path_required
        else if not (bypass || none_rule)
        then some invalid_superadmin_rule
        else none)
      ≡ none
    → (blank ≡ false) × ((bypass ≡ true) ⊎ (none_rule ≡ true))
project_checks false true n h = (refl, inl refl)
project_checks false false true h = (refl, inr refl)
project_checks false false false h = absurd (ground arith)
project_checks true b n h = absurd (ground arith)

pub text : (s t : String) → str_eq s t ≡ true → s ≡ t
text s t h = ground (arith, eq_iff s t)

pub same : (s t : String) → s ≡ t → str_eq s t ≡ true
same s t h = ground (arith, eq_iff s t)

pub not_same : (s t : String) → s ≢ t → str_eq s t ≡ false
not_same s t h = ground (arith, eq_iff s t)

pub validate_scope_sound : (a : AccessPolicy) → validate_scope a ≡ none → ScopeFields a
unfolding validate_scope
validate_scope_sound a h = elim (Bool-cases (str_eq a.scope scope_system)) [
  | inl s ↦ inl (
    text a.scope scope_system s,
    fields (
        system_checks (str_eq a.superadmin superadmin_required) a.system_on_project_path
          (is_blank a.project_id_path_param) (str_eq a.project_id_path_param "") (rw s at h)),
  )
  | inr ns ↦ elim (Bool-cases (str_eq a.scope scope_project)) [
    | inr np ↦ absurd (ground (arith, (rw (ns, np) at h)))
    | inl p ↦
        let (path, rule) =
          project_checks (is_blank a.project_id_path_param) (str_eq a.superadmin superadmin_bypass)
            (str_eq a.superadmin superadmin_none) (rw (ns, p) at h) in
        inr (
          text a.scope scope_project p,
          (
            path,
            elim rule [
              | inl b ↦ inl (text a.superadmin superadmin_bypass b)
              | inr n ↦ inr (text a.superadmin superadmin_none n)
            ],
          ),
        )
  ]
]
  where
    fields :
        (str_eq a.superadmin superadmin_required ≡ true)
          × (((a.system_on_project_path ≡ true) × NotBlank a.project_id_path_param)
              ⊎ ((a.system_on_project_path ≡ false) × (str_eq a.project_id_path_param "" ≡ true)))
        → SystemFields a
    fields (r, inl (f, b)) = (text a.superadmin superadmin_required r, inl (f, b))
    fields (r, inr (f, e)) =
        (text a.superadmin superadmin_required r, inr (f, text a.project_id_path_param "" e))

pub validate_scope_complete : (a : AccessPolicy) → ScopeFields a → validate_scope a ≡ none
unfolding validate_scope
validate_scope_complete a (inl (s, (r, inl (f, b)))) = rw (s, r, f, b) refl
validate_scope_complete a (inl (s, (r, inr (f, e)))) = rw (s, r, f, e) refl
validate_scope_complete a (inr (s, (b, inl r))) = rw (s, r, b) refl
validate_scope_complete a (inr (s, (b, inr r))) = rw (s, r, b) refl

pub validate_resource_sound :
    (r : Option ResourceBinding) → validate_resource r ≡ none → ResourceFields r
unfolding validate_resource
validate_resource_sound none h = tt
validate_resource_sound (some b) h = ground arith

pub validate_resource_complete :
    (r : Option ResourceBinding) → ResourceFields r → validate_resource r ≡ none
unfolding validate_resource
validate_resource_complete none h = refl
validate_resource_complete (some b) (t, i) = rw (t, i) refl

pub validate_policies_sound :
    (seen ps : List String) → validate_policies seen ps ≡ none → Distinct seen ps
unfolding validate_policies
validate_policies_sound seen [] h = tt
validate_policies_sound seen (p ∷ ps) h = elim (Bool-cases (is_blank p)) [
  | inl blank ↦ absurd (ground arith)
  | inr text_p ↦ elim (Bool-cases (contains seen p)) [
    | inl twice ↦ absurd (ground arith)
    | inr new ↦ (text_p, new, validate_policies_sound (p ∷ seen) ps (rw (text_p, new) at h))
  ]
]

pub validate_policies_complete :
    (seen ps : List String) → Distinct seen ps → validate_policies seen ps ≡ none
unfolding validate_policies
validate_policies_complete seen [] h = refl
validate_policies_complete seen (p ∷ ps) (t, n, d) =
    rw (t, n) (validate_policies_complete (p ∷ seen) ps d)

pub validate_permission_sound :
    (o : Option String) (scope : String) → validate_permission o scope ≡ none → o ≡ some scope
unfolding validate_permission
validate_permission_sound none scope h = absurd (ground arith)
validate_permission_sound (some s) scope h = ground (arith, eq_iff s scope)

pub validate_permission_complete :
    (o : Option String) (scope : String) → o ≡ some scope → validate_permission o scope ≡ none
unfolding validate_permission
validate_permission_complete o scope h = rw (h, same scope scope refl) refl
