-- ===== src/Authz/Valid.antt =====
-- About `Validate` of internal/authz/access.go.
use modelserver.Prelude.{
  String, ◌≡◌, ◌≢◌, refl, ap, ◌∙◌, ◌⊎◌, inl, inr, ◌↔◌, Bool, true, false, not, ◌||◌, List, [], ◌∷◌,
  Option, none, some, arith, str_eq, Bool-cases, if◌then◌else◌,
}
use modelserver.Authz.Permissions.{
  scope_none, scope_system, scope_project, scope_of, is_valid_scope,
}
use modelserver.Authz.Access.{
  AccessPolicy, AccessError, ResourceBinding, has_value, is_empty, scope_must_be_none,
  rbac_metadata, special_superadmin, mode_rbac, superadmin_none, or_check, is_valid_mode,
  validate_plain, validate_scope, validate_rbac, validate_access, system_on_project_path_access,
}
use modelserver.Authz.Checks.{
  NotBlank, ScopeFields, Plain, Rbac, text, same, not_same, validate_scope_sound,
  validate_scope_complete, validate_resource_sound, validate_resource_complete,
  validate_policies_sound, validate_policies_complete, validate_permission_sound,
  validate_permission_complete,
}

or_check-none : (o p : Option AccessError) → or_check o p ≡ none → (o ≡ none) × (p ≡ none)
or_check-none none p h = (refl, h)
or_check-none (some e) p h = absurd (ground arith)

validate_rbac_sound : (a : AccessPolicy) → a.mode ≡ mode_rbac → validate_rbac a ≡ none → Rbac a
unfolding validate_rbac
validate_rbac_sound a m h =
    let (permission, rest) = or_check-none _ _ h in
    let (scope, others) = or_check-none _ _ rest in
    let (resource, policies) = or_check-none _ _ others in
    (
      m,
      validate_permission_sound _ _ permission,
      validate_scope_sound a scope,
      validate_resource_sound _ resource,
      validate_policies_sound [] _ policies,
    )

validate_rbac_complete : (a : AccessPolicy) → Rbac a → validate_rbac a ≡ none
unfolding validate_rbac
validate_rbac_complete a (m, p, s, r, d) =
    rw
      (
        validate_permission_complete (scope_of a.permission) a.scope p,
        validate_scope_complete a s,
        validate_resource_complete a.resource r,
        validate_policies_complete [] a.policies d,
      )
      refl

plain_checks :
    (s p path : Bool) (r : Option ResourceBinding) (ps : List String) (rule : Bool)
    → (if not s
        then some scope_must_be_none
        else if not p || not path || has_value r || not (is_empty ps)
        then some rbac_metadata
        else if not rule
        then some special_superadmin
        else none)
      ≡ none
    → (s ≡ true) × (p ≡ true) × (path ≡ true) × (r ≡ none) × (ps ≡ []) × (rule ≡ true)
plain_checks true true true none [] true h = (refl, refl, refl, refl, refl, refl)
plain_checks true true true none [] false h = absurd (ground arith)
plain_checks true true true none (q ∷ qs) rule h = absurd (ground arith)
plain_checks true true true (some b) ps rule h = absurd (ground arith)
plain_checks true true false r ps rule h = absurd (ground arith)
plain_checks true false path r ps rule h = absurd (ground arith)
plain_checks false p path r ps rule h = absurd (ground arith)

validate_plain_sound :
    (a : AccessPolicy)
    → str_eq a.mode mode_rbac ≡ false
    → is_valid_mode a.mode ≡ true
    → validate_plain a ≡ none
    → Plain a
unfolding validate_plain
validate_plain_sound a m v h =
    let (s, p, path, r, ps, rule) =
      plain_checks (str_eq a.scope scope_none) (str_eq a.permission "")
        (str_eq a.project_id_path_param "") a.resource a.policies
        (str_eq a.superadmin superadmin_none) h in
    (
      (λ e. ground (arith, same a.mode mode_rbac e)),
      v,
      text a.scope scope_none s,
      text a.permission "" p,
      text a.project_id_path_param "" path,
      r,
      ps,
      text a.superadmin superadmin_none rule,
    )

validate_plain_complete : (a : AccessPolicy) → Plain a → validate_plain a ≡ none
unfolding validate_plain
validate_plain_complete a (m, v, s, p, path, r, ps, rule) = rw (s, p, path, r, ps, rule) refl

ScopeFields-valid : (a : AccessPolicy) → ScopeFields a → is_valid_scope a.scope ≡ true
unfolding is_valid_scope
ScopeFields-valid a (inl (s, f)) = rw s refl
ScopeFields-valid a (inr (s, f)) = rw s refl

rbac_mode : is_valid_mode mode_rbac ≡ true
unfolding is_valid_mode
rbac_mode = refl

none_scope : is_valid_scope scope_none ≡ true
unfolding is_valid_scope
none_scope = refl

validate_access_sound : (a : AccessPolicy) → validate_access a ≡ none → Plain a ⊎ Rbac a
unfolding validate_access
validate_access_sound a h = elim (Bool-cases (is_valid_mode a.mode)) [
  | inr bad ↦ absurd (ground (arith, (rw bad at h)))
  | inl mode ↦ elim (Bool-cases (is_valid_scope a.scope)) [
    | inr bad ↦ absurd (ground (arith, (rw (mode, bad) at h)))
    | inl scope ↦ elim (Bool-cases (str_eq a.mode mode_rbac)) [
      | inl rbac ↦
          inr (validate_rbac_sound a (text a.mode mode_rbac rbac) (rw (mode, scope, rbac) at h))
      | inr other ↦ inl (validate_plain_sound a other mode (rw (mode, scope, other) at h))
    ]
  ]
]

validate_access_complete : (a : AccessPolicy) → Plain a ⊎ Rbac a → validate_access a ≡ none
unfolding validate_access
validate_access_complete a (inl plain) =
    let (m, v, s, q1, q2, q3, q4, q5) = plain in
    rw (v, ap is_valid_scope s ∙ none_scope, not_same a.mode mode_rbac m)
      (validate_plain_complete a plain)
validate_access_complete a (inr rbac) =
    let (m, p, s, r, d) = rbac in
    rw (ap is_valid_mode m ∙ rbac_mode, ScopeFields-valid a s, same a.mode mode_rbac m)
      (validate_rbac_complete a rbac)

pub validate_access-accepts : (a : AccessPolicy) → (validate_access a ≡ none) ↔ (Plain a ⊎ Rbac a)
validate_access-accepts a = (validate_access_sound a, validate_access_complete a)

flag_differs : true ≢ false
flag_differs h = ground arith

scope_differs : scope_system ≢ scope_project
scope_differs h = ground (arith, same scope_system scope_project h)

-- Outside the system scope the flag `SystemOnProjectPath` changes no verdict, so that `Validate`
-- accepts a policy with the flag on where it accepts the policy with the flag off.
pub validate_access-flag :
    (a : AccessPolicy) (flag : Bool)
    → a.scope ≢ scope_system
    → validate_access (record a { system_on_project_path = flag }) ≡ validate_access a
unfolding validate_access validate_rbac validate_scope validate_plain is_valid_mode is_valid_scope
validate_access-flag a flag other = rw (not_same a.scope scope_system other) refl

-- `SystemOnProjectPath` makes an accepted policy exactly of a permission with system scope and a path
-- parameter that is not blank.
pub validate_access-system_on_project_path_access :
    (p path : String)
    → (validate_access (system_on_project_path_access p path) ≡ none)
      ↔ ((scope_of p ≡ some scope_system) × NotBlank path)
validate_access-system_on_project_path_access p path =
    let (sound, complete) = validate_access-accepts (system_on_project_path_access p path) in
    (
      λ h. needs (sound h),
      λ (s, b). complete (inr (refl, s, inl (refl, (refl, inl (refl, b))), tt, tt)),
    )
  where
    needs :
        Plain (system_on_project_path_access p path) ⊎ Rbac (system_on_project_path_access p path)
        → (scope_of p ≡ some scope_system) × NotBlank path
    needs (inl (m, v, s, q1, q2, q3, q4, q5)) = absurd (m refl)
    needs (inr (m, s, inl (e, (r, inl (f, b))), d, e1)) = (s, b)
    needs (inr (m, s, inl (e, (r, inr (f, b))), d, e1)) = absurd (flag_differs f)
    needs (inr (m, s, inr (e, r), d, e1)) = absurd (scope_differs e)
