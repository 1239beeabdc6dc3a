-- ===== src/Auth/Hydration.antt =====
-- The hydration of the caches, against the row of the member in the store.
use mathlib.Core.Path.{subst}
use modelserver.Prelude.{
  String, ◌≡◌, refl, sym, ap, ◌⊎◌, inl, inr, true, false, ◌&&◌, List, [], Option, none, some, arith,
  eq_iff, Bool-cases, Option-cases,
}
use modelserver.Prelude.Int.{ℤ, ◌≤ℤ◌}
use modelserver.Types.{or_else}
use modelserver.Ratelimit.Cache.{CreditCache, get, set}
use modelserver.Auth.Members.{
  ProjectMember, Quotas, MemberCaches, Membership, absent, member, answer_of, cached_quota, is_hit,
  fill, or_row, load, hydrate,
}

-- The cache holds the value under the key, or nothing.
abbrev Holds : {A : Type 0} → ℤ → String → A → CreditCache A → Type 0
Holds now key v c = (get now key c ≡ none) ⊎ (get now key c ≡ some v)

Holds-later :
    {A : Type 0} (now later : ℤ) (key : String) (v : A) (c : CreditCache A)
    → now ≤ℤ later
    → Holds now key v c
    → Holds later key v c
unfolding get
Holds-later now later key v c h k = elim (Option-cases (c.entries key)) [
  | inl empty ↦ inl (rw empty refl)
  | inr (e, there) ↦ ground arith
]

set-Holds :
    {A : Type 0} (now later : ℤ) (key : String) (v : A) (c : CreditCache A)
    → Holds later key v (set now key v c)
unfolding get set
set-Holds now later key v c = ground (arith, eq_iff key key)

module _ {F : Type 0} (quotas : Quotas F) where
  open quotas use {no_quota, is_quota}

  -- The share of a member of the store is one that the caches keep.
  abbrev pub IsKept : Option F → Type 0
  IsKept none = Unit
  IsKept (some v) = is_quota v ≡ true

  abbrev quota_of : Option (ProjectMember F) → F
  quota_of none = no_quota
  quota_of (some m) = or_else m.credit_quota_pct no_quota

  abbrev denied_of : Option (ProjectMember F) → List String
  denied_of none = []
  denied_of (some m) = m.denied_models

  -- The caches hold nothing else under the key than what the row says.
  pub record Coherent (now : ℤ) (key : String) (row : Option (ProjectMember F)) (c : MemberCaches F)
      : Type 0 where
    pub present : Holds now key (is_hit row) c.present
    pub quota : Holds now key (quota_of row) c.quota
    pub denied : Holds now key (denied_of row) c.denied

  -- What the row itself says of the caller.
  abbrev pub of_row : Option (ProjectMember F) → Membership F
  of_row none = absent
  of_row (some m) = member m.credit_quota_pct m.denied_models

  abbrev pub share_of : Option (ProjectMember F) → Option F
  share_of none = none
  share_of (some m) = m.credit_quota_pct

  fill-Holds :
      {A : Type 0} (now later : ℤ) (key : String) (v : A) (c : CreditCache A)
      → now ≤ℤ later
      → Holds now key v c
      → Holds later key v (fill now key (get now key c) v c)
  fill-Holds now later key v c h (inl miss) = rw miss (set-Holds now later key v c)
  fill-Holds now later key v c h (inr hit) = rw hit (Holds-later now later key v c h (inr hit))

  stored_quota :
      (pct : Option F)
      → is_quota no_quota ≡ false
      → IsKept pct
      → cached_quota quotas (some (or_else pct no_quota)) ≡ pct
  stored_quota none mark h = ground arith
  stored_quota (some v) mark h = ground arith

  Coherent-later :
      (now later : ℤ) (key : String) (row : Option (ProjectMember F)) (c : MemberCaches F)
      → now ≤ℤ later
      → Coherent now key row c
      → Coherent later key row c
  Coherent-later now later key row c t k = record {
    present = Holds-later now later key (is_hit row) c.present t (k.present);
    quota = Holds-later now later key (quota_of row) c.quota t (k.quota);
    denied = Holds-later now later key (denied_of row) c.denied t (k.denied);
  }

  load-Coherent :
      (now later : ℤ) (key : String) (row : Option (ProjectMember F)) (c : MemberCaches F)
      → now ≤ℤ later
      → Coherent now key row c
      → Coherent later key row (load quotas now key (some row) c).1
  unfolding load
  load-Coherent now later key none c h k = record {
    present = set-Holds now later key false c.present;
    quota = fill-Holds now later key no_quota c.quota h (k.quota);
    denied = fill-Holds now later key [] c.denied h (k.denied);
  }
  load-Coherent now later key (some m) c h k = record {
    present = set-Holds now later key true c.present;
    quota = fill-Holds now later key (or_else m.credit_quota_pct no_quota) c.quota h (k.quota);
    denied = fill-Holds now later key m.denied_models c.denied h (k.denied);
  }

  or_stored :
      (pct : Option F) (o : Option F)
      → is_quota no_quota ≡ false
      → IsKept pct
      → (o ≡ none) ⊎ (o ≡ some (or_else pct no_quota))
      → or_row o (cached_quota quotas o) pct ≡ pct
  or_stored pct o mark h (inl miss) = rw miss refl
  or_stored pct o mark h (inr hit) = rw hit (stored_quota pct mark h)

  or_denied :
      (ds : List String) (o : Option (List String))
      → (o ≡ none) ⊎ (o ≡ some ds)
      → or_row o (or_else o []) ds ≡ ds
  or_denied ds o (inl miss) = rw miss refl
  or_denied ds o (inr hit) = rw hit refl

  load-of_row :
      (now : ℤ) (key : String) (row : Option (ProjectMember F)) (c : MemberCaches F)
      → is_quota no_quota ≡ false
      → IsKept (share_of row)
      → Coherent now key row c
      → (load quotas now key (some row) c).0 ≡ of_row row
  unfolding load
  load-of_row now key none c mark h k = refl
  load-of_row now key (some m) c mark h k =
      rw
        (
          or_stored m.credit_quota_pct (get now key c.quota) mark h (k.quota),
          or_denied m.denied_models (get now key c.denied) (k.denied),
        )
        refl

  hit_value :
      {A : Type 0} (o : Option A) (v : A) → is_hit o ≡ true → (o ≡ none) ⊎ (o ≡ some v) → o ≡ some v
  hit_value o v h (inl miss) = cc (rw miss at h)
  hit_value o v h (inr hit) = hit

  hits-of_row :
      (row : Option (ProjectMember F))
      → is_quota no_quota ≡ false
      → IsKept (share_of row)
      → answer_of (is_hit row) (cached_quota quotas (some (quota_of row))) (denied_of row)
        ≡ of_row row
  hits-of_row none mark h = refl
  hits-of_row (some m) mark h =
      ap (λ q. member q m.denied_models) (stored_quota m.credit_quota_pct mark h)

  -- While the row of a member stays as it is, the caches are transparent: where they hold nothing else
  -- under its key, the hydration tells of the caller what the row says, whether it asks the store or
  -- not, and at any later time they still hold nothing else. The row's quota is not negative, and the
  -- mark for no quota is.
  pub hydrate-Coherent :
      (now later : ℤ) (key : String) (row : Option (ProjectMember F)) (c : MemberCaches F)
      → is_quota no_quota ≡ false
      → IsKept (share_of row)
      → now ≤ℤ later
      → Coherent now key row c
      → ((hydrate quotas now key (some row) c).0 ≡ of_row row)
        × Coherent later key row (hydrate quotas now key (some row) c).1
  unfolding hydrate
  hydrate-Coherent now later key row c mark h t k =
      elim (Bool-cases (
        is_hit (get now key c.present)
        && is_hit (get now key c.quota)
        && is_hit (get now key c.denied))) [
          | inr ask ↦
              rw ask (load-of_row now key row c mark h k, load-Coherent now later key row c t k)
          | inl hits ↦
              let p = hit_value (get now key c.present) (is_hit row) (ground arith) (k.present) in
              let q = hit_value (get now key c.quota) (quota_of row) (ground arith) (k.quota) in
              let d = hit_value (get now key c.denied) (denied_of row) (ground arith) (k.denied) in
              let same : hydrate quotas now key (some row) c ≡ (of_row row, c) =
                rw (p, q, d) (ap (λ x. (x, c)) (hits-of_row row mark h)) in
              (
                ap (λ r. r.0) same,
                subst (λ r. Coherent later key row r.1) (sym same)
                    (Coherent-later now later key row c t k),
              )
        ]
