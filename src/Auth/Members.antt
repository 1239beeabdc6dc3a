-- ===== src/Auth/Members.antt =====
-- The caches of internal/proxy/auth_middleware.go on a member of a project, and the part of
-- `AuthMiddleware`, and of `handleTokenIntrospectionAuth` alike, that reads and fills them. The maps are
-- functions of the key, with the lifetime of `creditCache`. Percentages are of a type of their own.
use Prim.Native.String.{◌++◌}
use modelserver.Prelude.{
  String, Bool, true, false, ◌&&◌, List, [], Option, none, some, str_eq, if◌then◌else◌,
}
use modelserver.Prelude.Int.{ℤ}
use modelserver.Types.{or_else}
use modelserver.Ratelimit.Cache.{CreditCache, get, set}

-- The fields of `ProjectMember` that are read.
pub record ProjectMember (F : Type 0) : Type 0 where
  pub credit_quota_pct : Option F
  pub denied_models : List String

-- The mark for "no quota", which is -1, and the test `quotaCached >= 0`.
pub record Quotas (F : Type 0) : Type 0 where
  pub no_quota : F
  pub is_quota : F → Bool

-- `memberPresentCache`, `quotaCache` and `deniedModelsCache`.
pub record MemberCaches (F : Type 0) : Type 0 where
  pub present : CreditCache Bool
  pub quota : CreditCache F
  pub denied : CreditCache (List String)

-- What is known of the caller: the lookup fails, the caller is no member, or is one with a share of
-- the credits and the models that are denied.
pub data Membership (F : Type 0) : Type 0 where
  unavailable : Membership F
  absent : Membership F
  member : Option F → List String → Membership F

abbrev pub member_cache_key : String → String → String
member_cache_key project user = project ++ ":" ++ user

abbrev pub is_hit {ℓ} : {A : Type ℓ} → Option A → Bool
is_hit none = false
is_hit (some a) = true

-- A deletion from a cache.
abbrev pub remove : {A : Type 0} → String → CreditCache A → CreditCache A
remove key c = record c { entries = λ k. if str_eq key k then none else c.entries k }

module _ {F : Type 0} where
  -- `InvalidateMemberPresentCache`
  unfoldable pub invalidate_member_present_cache : String → String → MemberCaches F → MemberCaches F
  invalidate_member_present_cache project user c = record c {
    present = remove (member_cache_key project user) c.present;
  }

  -- `InvalidateDeniedModelsCache`
  unfoldable pub invalidate_denied_models_cache : String → String → MemberCaches F → MemberCaches F
  invalidate_denied_models_cache project user c = record c {
    denied = remove (member_cache_key project user) c.denied;
  }

abbrev pub cached_quota : {F : Type 0} → Quotas F → Option F → Option F
cached_quota quotas none = none
cached_quota quotas (some v) = if quotas.is_quota v then some v else none

-- A value is stored where there was none.
abbrev pub fill : {A : Type 0} → ℤ → String → Option A → A → CreditCache A → CreditCache A
fill now key none v c = set now key v c
fill now key (some old) v c = c

-- Without a value of the cache the one of the row is taken.
abbrev pub or_row {ℓ} : {A B : Type ℓ} → Option A → B → B → B
or_row none cached row = row
or_row (some hit) cached row = cached

-- A caller with what the caches hold.
abbrev pub answer_of : {F : Type 0} → Bool → Option F → List String → Membership F
answer_of present quota denied = if present then member quota denied else absent

module _ {F : Type 0} (quotas : Quotas F) (now : ℤ) (key : String) where
  open quotas use {no_quota}

  -- The answer of `GetProjectMember`: an error, no row, or a row.
  unfoldable pub load :
      Option (Option (ProjectMember F)) → MemberCaches F → Membership F × MemberCaches F
  load none c = (unavailable, c)
  load (some none) c = (
    absent,
    record c {
      present = set now key false c.present;
      quota = fill now key (get now key c.quota) no_quota c.quota;
      denied = fill now key (get now key c.denied) [] c.denied;
    },
  )
  load (some (some m)) c =
      let quota = get now key c.quota in
      let denied = get now key c.denied in
      (
        member (or_row quota (cached_quota quotas quota) m.credit_quota_pct)
            (or_row denied (or_else denied []) m.denied_models),
        record c {
          present = set now key true c.present;
          quota = fill now key quota (or_else m.credit_quota_pct no_quota) c.quota;
          denied = fill now key denied m.denied_models c.denied;
        },
      )

  -- The hydration of the three caches, for the answer that the store would give.
  unfoldable pub hydrate :
      Option (Option (ProjectMember F)) → MemberCaches F → Membership F × MemberCaches F
  unfolding load
  hydrate answer c =
      let present = get now key c.present in
      let quota = get now key c.quota in
      let denied = get now key c.denied in
      if is_hit present && is_hit quota && is_hit denied
      then (answer_of (or_else present false) (cached_quota quotas quota) (or_else denied []), c)
      else load answer c
