-- ===== src/Authz/Capabilities.antt =====
-- About the capability sets of Roles: membership, against the list that a set is built from.
use modelserver.Prelude.{
  String, ◌≡◌, refl, sym, ap, ◌∙◌, inl, inr, Bool, true, ◌&&◌, ◌||◌, List, [], ◌∷◌, ◌++◌, Option,
  none, some, arith, contains, str_eq, eq_iff, Bool-cases,
}
use modelserver.Types.{map_get}
use modelserver.Authz.Permissions.{
  permission_scopes, keys_where, scope_project, scope_of, is_valid_permission, permissions_in_scope,
}
use modelserver.Authz.Roles.{
  developer_permissions, maintainer_permissions, owner_permissions, put, put_all,
  new_capability_set, has, maintainer_additions, owner_additions, is_of_scope,
}

pub same_text : (s t : String) → str_eq s t ≡ true → s ≡ t
same_text s t h = ground (arith, eq_iff s t)

pub contains-append :
    (xs ys : List String) (p : String) → contains (xs ++ ys) p ≡ (contains xs p || contains ys p)
contains-append [] ys p = refl
contains-append (x ∷ xs) ys p = ground (arith, contains-append xs ys p)

pub contains-put :
    (ps : List String) (q p : String) → contains (put ps q) p ≡ (contains ps p || str_eq q p)
unfolding put
contains-put ps q p = elim (Bool-cases (contains ps q)) [
  | inr new ↦ rw (new, contains-append ps (q ∷ []) p) (ground arith)
  | inl there ↦ elim (Bool-cases (str_eq q p)) [
    | inr other ↦ rw (there, other) (ground arith)
    | inl same ↦ let here = ap (contains ps) (same_text q p same) in rw there (ground arith)
  ]
]

-- What a capability set holds: the valid ones of the permissions it is built from.
pub contains-put_all :
    (ps qs : List String) (p : String)
    → contains (put_all ps qs) p ≡ (contains ps p || (is_valid_permission p && contains qs p))
unfolding put_all
contains-put_all ps [] p = ground arith
contains-put_all ps (q ∷ qs) p = elim (Bool-cases (is_valid_permission q)) [
  | inl good ↦ elim (Bool-cases (str_eq q p)) [
    | inl same ↦
        let valid = ap is_valid_permission (same_text q p same) in
        rw (good, contains-put_all (put ps q) qs p, contains-put ps q p) (ground arith)
    | inr other ↦ rw (good, contains-put_all (put ps q) qs p, contains-put ps q p) (ground arith)
  ]
  | inr bad ↦ elim (Bool-cases (str_eq q p)) [
    | inl same ↦
        let invalid = ap is_valid_permission (same_text q p same) in
        rw (bad, contains-put_all ps qs p) (ground arith)
    | inr other ↦ rw (bad, contains-put_all ps qs p) (ground arith)
  ]
]

pub has-new_capability_set :
    (qs : List String) (p : String)
    → has (new_capability_set qs) p ≡ (is_valid_permission p && contains qs p)
unfolding has new_capability_set
has-new_capability_set qs p = contains-put_all [] qs p

-- A key that the map gives a value of the tested kind is among the keys with such a value.
pub contains-keys_where :
    (f : String → Bool) (m : List (String × String)) (p s : String)
    → map_get m p ≡ some s
    → f s ≡ true
    → contains (keys_where f m) p ≡ true
contains-keys_where f [] p s found good = absurd (ground arith)
contains-keys_where f ((q, t) ∷ m) p s found good = elim (Bool-cases (f t)) [
  | inl kept ↦ elim (Bool-cases (str_eq q p)) [
    | inl same ↦ rw (kept, same) (ground arith)
    | inr other ↦ rw (kept, other) (contains-keys_where f m p s (rw other at found) good)
  ]
  | inr dropped ↦ elim (Bool-cases (str_eq q p)) [
    | inl same ↦ absurd (ground arith)
    | inr other ↦ rw dropped (contains-keys_where f m p s (rw other at found) good)
  ]
]

pub Option-scope :
    (o : Option String) (scope : String)
    → is_of_scope scope o ≡ true
    → (s : String) × (o ≡ some s) × (str_eq s scope ≡ true)
Option-scope none scope h = absurd (ground arith)
Option-scope (some s) scope h = (s, refl, h)

-- A permission of a scope is among the permissions in that scope, and it is valid.
pub contains-permissions_in_scope :
    (scope p : String)
    → is_of_scope scope (scope_of p) ≡ true
    → (contains (permissions_in_scope scope) p ≡ true) × (is_valid_permission p ≡ true)
unfolding permissions_in_scope scope_of is_valid_permission
contains-permissions_in_scope scope p h =
    let (s, found, same) = Option-scope (map_get permission_scopes p) scope h in
    (contains-keys_where (λ t. str_eq t scope) permission_scopes p s found same, rw found refl)

pub all_of_scope : String → List String → Bool
unfolding scope_of
all_of_scope scope [] = true
all_of_scope scope (p ∷ ps) = is_of_scope scope (scope_of p) && all_of_scope scope ps

pub owner_permissions-of-project : all_of_scope scope_project owner_permissions ≡ true
unfolding all_of_scope scope_of permission_scopes owner_permissions maintainer_permissions
    developer_permissions maintainer_additions owner_additions
owner_permissions-of-project = refl

pub both : (a b : Bool) → (a && b) ≡ true → (a ≡ true) × (b ≡ true)
both a b h = (ground arith, ground arith)

pub of_scope :
    (scope : String) (ps : List String) (p : String)
    → all_of_scope scope ps ≡ true
    → contains ps p ≡ true
    → is_of_scope scope (scope_of p) ≡ true
unfolding all_of_scope
of_scope scope [] p good there = absurd (ground arith)
of_scope scope (q ∷ qs) p good there =
    let (head, rest) = both _ _ good in
    elim (Bool-cases (str_eq q p)) [
      | inl same ↦ ap (λ r. is_of_scope scope (scope_of r)) (sym (same_text q p same)) ∙ head
      | inr other ↦ of_scope scope qs p rest (rw other at there)
    ]
