-- ===== src/Authz/Conditions.antt =====
-- About the two conditional policies, and the listing of a capability set.
use mathlib.Core.List.{Perm, perm_middle, append-nil}
use mathlib.Core.List.Perm
use mathlib.Core.Path.{subst}
use modelserver.Prelude.{
  String, ◌≡◌, ◌≢◌, refl, ◌⊎◌, inl, inr, ◌↔◌, true, false, ◌||◌, List, [], ◌∷◌, ◌++◌, Option, none,
  some, arith, str_eq, str_lt, str_lt_asym, str_le_trans, eq_iff, Bool-cases, if◌then◌else◌, All,
}
use modelserver.Authz.Permissions.{insert_sorted, sort_permissions_onto, sort_permissions}
use modelserver.Authz.Roles.{CapabilitySet, sorted_permissions}
use modelserver.Authz.Policies.{
  Resource, PolicyInput, is_elevated, is_owned_by, key_owned_by_caller, is_own_row,
  member_self_or_elevated,
}

-- The resource is there, and the caller, who is named, is what the field says.
abbrev pub Names : (Resource → String) → PolicyInput → Type 0
Names field i =
    (r : Resource) × (i.resource ≡ some r)
    × (field r ≡ i.principal.user_id)
    × (i.principal.user_id ≢ "")

-- The test of the two policies on a field's text and the caller's id.
named :
    (f u : String)
    → (if str_eq u "" || str_eq f "" then false else str_eq u f) ≡ true
    → (f ≡ u) × (u ≢ "")
named f u h = (ground (arith, eq_iff u f), λ e. ground (arith, eq_iff u ""))

named_complete :
    (f u : String)
    → f ≡ u
    → u ≢ ""
    → (if str_eq u "" || str_eq f "" then false else str_eq u f) ≡ true
named_complete f u e n = ground (arith, eq_iff u "", eq_iff f "", eq_iff u f)

is_owned_by_sound :
    (o : Option Resource) (u : String)
    → is_owned_by o u ≡ true
    → (r : Resource) × (o ≡ some r) × (r.owner_id ≡ u) × (u ≢ "")
unfolding is_owned_by
is_owned_by_sound none u h = absurd (ground arith)
is_owned_by_sound (some r) u h = let (same, there) = named r.owner_id u h in (r, refl, same, there)

is_owned_by_complete :
    (o : Option Resource) (u : String) (r : Resource)
    → o ≡ some r
    → r.owner_id ≡ u
    → u ≢ ""
    → is_owned_by o u ≡ true
unfolding is_owned_by
is_owned_by_complete o u r e f n = rw e (named_complete r.owner_id u f n)

is_own_row_sound :
    (o : Option Resource) (u : String)
    → is_own_row o u ≡ true
    → (r : Resource) × (o ≡ some r) × (r.id ≡ u) × (u ≢ "")
unfolding is_own_row
is_own_row_sound none u h = absurd (ground arith)
is_own_row_sound (some r) u h =
    (r, refl, ground (arith, eq_iff r.id u), λ e. ground (arith, eq_iff u ""))

is_own_row_complete :
    (o : Option Resource) (u : String) (r : Resource)
    → o ≡ some r
    → r.id ≡ u
    → u ≢ ""
    → is_own_row o u ≡ true
unfolding is_own_row
is_own_row_complete o u r e f n = rw e (ground (arith, eq_iff r.id u, eq_iff u ""))

-- Who is let through to a key: the elevated callers (a superadmin, an owner or a maintainer) and the
-- owner of the key. And who is let through to a member's row: the elevated callers and the member.
-- A caller without an id, and a request without a resource, are let through by neither for the last
-- reason.
pub policies-Allow :
    (i : PolicyInput)
    → ((key_owned_by_caller i ≡ true) ↔ ((is_elevated i ≡ true) ⊎ Names (λ r. r.owner_id) i))
      × ((member_self_or_elevated i ≡ true) ↔ ((is_elevated i ≡ true) ⊎ Names (λ r. r.id) i))
unfolding key_owned_by_caller member_self_or_elevated
policies-Allow i = elim (Bool-cases (is_elevated i)) [
  | inl high ↦ rw high ((λ h. inl refl, λ h. refl), (λ h. inl refl, λ h. refl))
  | inr low ↦ rw low (
    (λ h. inr (is_owned_by_sound i.resource _ h), λ h. owned h),
    (λ h. inr (is_own_row_sound i.resource _ h), λ h. own h),
  )
]
  where
    owned :
        (false ≡ true) ⊎ Names (λ r. r.owner_id) i
        → is_owned_by i.resource i.principal.user_id ≡ true
    owned (inl h) = absurd (ground arith)
    owned (inr (r, e, f, n)) = is_owned_by_complete i.resource _ r e f n

    own : (false ≡ true) ⊎ Names (λ r. r.id) i → is_own_row i.resource i.principal.user_id ≡ true
    own (inl h) = absurd (ground arith)
    own (inr (r, e, f, n)) = is_own_row_complete i.resource _ r e f n

-- No later element is below an earlier one.
abbrev pub Ascending : List String → Type 0
Ascending [] = Unit
Ascending (p ∷ ps) = All (λ q. str_lt q p ≡ false) ps × Ascending ps

insert-All :
    (P : String → Type 0) (p : String) (qs : List String)
    → P p
    → All P qs
    → All P (insert_sorted p qs)
insert-All P p [] h k = (h, tt)
insert-All P p (q ∷ qs) h (k, ks) = elim (Bool-cases (str_lt q p)) [
  | inl below ↦ rw below (k, insert-All P p qs h ks)
  | inr here ↦ rw here (h, (k, ks))
]

raise-All :
    (p q : String) (qs : List String)
    → str_lt q p ≡ false
    → All (λ x. str_lt x q ≡ false) qs
    → All (λ x. str_lt x p ≡ false) qs
raise-All p q [] h k = tt
raise-All p q (x ∷ qs) h (k, ks) = (str_le_trans p q x h k, raise-All p q qs h ks)

insert-Ascending : (p : String) (qs : List String) → Ascending qs → Ascending (insert_sorted p qs)
insert-Ascending p [] h = (tt, tt)
insert-Ascending p (q ∷ qs) (h, hs) = elim (Bool-cases (str_lt q p)) [
  | inl below ↦ rw below (
    insert-All (λ x. str_lt x q ≡ false) p qs (str_lt_asym q p below) h,
    insert-Ascending p qs hs,
  )
  | inr here ↦ rw here ((here, raise-All p q qs here h), (h, hs))
]

insert-perm : (p : String) (qs : List String) → Perm (insert_sorted p qs) (p ∷ qs)
insert-perm p [] = Perm.rfl
insert-perm p (q ∷ qs) = elim (Bool-cases (str_lt q p)) [
  | inl below ↦ rw below (Perm.trans (Perm.cons q (insert-perm p qs)) (Perm.swap p q qs))
  | inr here ↦ rw here Perm.rfl
]

sort_onto-Ascending :
    (sorted ps : List String) → Ascending sorted → Ascending (sort_permissions_onto sorted ps)
unfolding sort_permissions_onto
sort_onto-Ascending sorted [] h = h
sort_onto-Ascending sorted (p ∷ ps) h =
    sort_onto-Ascending (insert_sorted p sorted) ps (insert-Ascending p sorted h)

sort_onto-perm : (sorted ps : List String) → Perm (sort_permissions_onto sorted ps) (ps ++ sorted)
unfolding sort_permissions_onto
sort_onto-perm sorted [] = Perm.rfl
sort_onto-perm sorted (p ∷ ps) =
    Perm.trans (sort_onto-perm (insert_sorted p sorted) ps)
      (Perm.trans (Perm.append_left ps (insert-perm p sorted)) (perm_middle ps sorted))

-- The listing of a capability set is in lexical order, and holds each of its permissions as often as
-- the set does.
pub sorted_permissions-Ascending :
    (s : CapabilitySet)
    → Ascending (sorted_permissions s) × Perm (sorted_permissions s) s.permissions
unfolding sorted_permissions sort_permissions
sorted_permissions-Ascending s = (
  sort_onto-Ascending [] s.permissions tt,
  subst (λ l. Perm (sort_permissions_onto [] s.permissions) l) (append-nil s.permissions)
      (sort_onto-perm [] s.permissions),
)
