-- ===== src/Ratelimit/Composite.antt =====
-- `CompositeRateLimiter` of internal/ratelimit/composite.go: `PreCheck`, `PreCheckClassicOnly` and
-- `PostRecord`. The operations on `float64` and the sums of the request store are parameters; a sum that
-- fails is `none`. One call reads the clock once. A call that panics (a fixed window of zero length, see
-- Windows) is `none`.
use Prim.Native.String.{◌++◌}
use modelserver.Prelude.{
  String, Bool, true, false, List, [], ◌∷◌, Option, none, some, str_eq, if◌then◌else◌,
}
use modelserver.Prelude.Int.{ℤ, pos}
use modelserver.Ratelimit.Counters.{MemoryCounters}
use modelserver.Ratelimit.Classic.{ClassicRule, TokenUsage, check, record_usage}
use modelserver.Ratelimit.Cache.{CreditCache, get, set, invalidate_prefix}
use modelserver.Ratelimit.Windows.{TimeLib, window_start_time_at, window_reset_duration_at}

pub record CreditRule : Type 0 where
  pub window : String
  pub window_type : String
  pub max_credits : ℤ
  pub scope : String
  pub anchor_time : Option ℤ

-- `EffectiveScope`
abbrev pub effective_scope : CreditRule → String
effective_scope r = if str_eq r.scope "" then "project" else r.scope

abbrev pub is_project_scope : CreditRule → Bool
is_project_scope r = str_eq (effective_scope r) "project"

-- The fields of `RateLimitPolicy` that the limiter reads.
pub record RateLimitPolicy : Type 0 where
  pub credit_rules : List CreditRule
  pub classic_rules : List ClassicRule

pub data LimitType : Type 0 where
  limit_none : LimitType
  limit_credit : LimitType
  limit_classic : LimitType

pub record PreCheckResult : Type 0 where
  pub allowed : Bool
  pub retry_after : ℤ
  pub limit_type : LimitType

abbrev pub allow : PreCheckResult
allow = record { allowed = true; retry_after = pos 0; limit_type = limit_none }

abbrev pub deny : LimitType → ℤ → PreCheckResult
deny kind wait = record { allowed = false; retry_after = wait; limit_type = kind }

-- The operations on `float64` that the limiter uses.
module _ (F : Type 0) where
  pub record Floats : Type 0 where
    pub of_int : ℤ → F
    pub at_least : F → F → Bool
    pub quota_of : F → F → F

  -- The sums of internal/store/requests.go, by key, project and user, since an instant.
  pub record CreditStore : Type 0 where
    pub sum_by_key : String → ℤ → Option F
    pub sum_by_project : String → ℤ → Option F
    pub sum_by_user : String → String → ℤ → Option F

  pub record Limiter : Type 0 where
    pub classic : MemoryCounters
    pub cache : CreditCache F

abbrev window_key : CreditRule → String
window_key r = r.window ++ ("|" ++ r.window_type)

abbrev pub key_sum_key : String → String → CreditRule → String
key_sum_key project_id api_key_id r = project_id ++ ("|" ++ (api_key_id ++ ("|" ++ window_key r)))

abbrev pub project_sum_key : String → CreditRule → String
project_sum_key project_id r = "p:" ++ (project_id ++ ("|" ++ window_key r))

abbrev pub user_sum_key : String → String → CreditRule → String
user_sum_key project_id user_id r =
    "u:" ++ (project_id ++ (":" ++ (user_id ++ ("|" ++ window_key r))))

unfoldable pub sum_key : String → String → CreditRule → String
sum_key project_id api_key_id r =
    if is_project_scope r then project_sum_key project_id r else key_sum_key project_id api_key_id r

-- How the loop over the credit rules ends.
pub data CreditOutcome : Type 0 where
  -- The store failed: the request is allowed at once.
  failed_open : CreditOutcome
  hit : ℤ → CreditOutcome
  clear : CreditOutcome
  panicked : CreditOutcome

abbrev pub hit_of : Option ℤ → CreditOutcome
hit_of none = panicked
hit_of (some wait) = hit wait

module _ {F : Type 0} (time : TimeLib) (floats : Floats F) (store : CreditStore F) (now : ℤ) where
  -- What a query gives, and the cache with it put in.
  abbrev pub queried : String → CreditCache F → Option F → Option (F × CreditCache F)
  queried key c none = none
  queried key c (some v) = some (v, set now key v c)

  -- The cached value, or else the query's.
  abbrev pub cached_or : String → CreditCache F → Option F → Option F → Option (F × CreditCache F)
  cached_or key c (some v) query = some (v, c)
  cached_or key c none query = queried key c query

  unfoldable pub sum_of : String → String → CreditRule → ℤ → Option F
  sum_of project_id api_key_id r start =
      if is_project_scope r
      then store.sum_by_project project_id start
      else store.sum_by_key api_key_id start

  -- The rule has no credit left.
  abbrev pub is_spent : CreditRule → F → Bool
  is_spent r used = floats.at_least used (floats.of_int r.max_credits)

  -- The end of an iteration, with what the later rules give.
  abbrev pub judge :
      CreditRule
      → CreditCache F
      → Option (F × CreditCache F)
      → (CreditCache F → CreditOutcome × CreditCache F)
      → CreditOutcome × CreditCache F
  judge r c none later = (failed_open, c)
  judge r c (some (used, filled)) later =
      if is_spent r used
      then (hit_of (window_reset_duration_at time now r.window r.window_type r.anchor_time), filled)
      else later filled

  abbrev pub with_start :
      Option ℤ → CreditCache F → (ℤ → CreditOutcome × CreditCache F) → CreditOutcome × CreditCache F
  with_start none c body = (panicked, c)
  with_start (some start) c body = body start

  -- The loop over the credit rules of `PreCheck`.
  unfoldable pub check_credits :
      String → String → List CreditRule → CreditCache F → CreditOutcome × CreditCache F
  check_credits project_id api_key_id [] c = (clear, c)
  check_credits project_id api_key_id (r ∷ rs) c =
      with_start (window_start_time_at time now r.window r.window_type r.anchor_time) c (λ start.
        judge r c
          (cached_or (sum_key project_id api_key_id r) c
            (get now (sum_key project_id api_key_id r) c) (sum_of project_id api_key_id r start))
          (check_credits project_id api_key_id rs))

  abbrev pub verdict : PreCheckResult → Option ℤ → PreCheckResult
  verdict otherwise none = otherwise
  verdict otherwise (some wait) = deny limit_classic wait

  abbrev pub conclude : CreditOutcome → Option ℤ → Option PreCheckResult
  conclude failed_open classic = some allow
  conclude panicked classic = none
  conclude (hit wait) classic = some (verdict (deny limit_credit wait) classic)
  conclude clear classic = some (verdict allow classic)

  abbrev pub keep_cache :
      Limiter F → Option ℤ → CreditOutcome × CreditCache F → Option PreCheckResult × Limiter F
  keep_cache l classic (outcome, c) = (conclude outcome classic, record l { cache = c })

  -- `PreCheck`
  unfoldable pub pre_check :
      String
      → String
      → String
      → Option RateLimitPolicy
      → Limiter F
      → Option PreCheckResult × Limiter F
  unfolding check_credits
  pre_check project_id api_key_id model none l = (some allow, l)
  pre_check project_id api_key_id model (some policy) l =
      keep_cache l (check now api_key_id model policy.classic_rules l.classic)
        (check_credits project_id api_key_id policy.credit_rules l.cache)

  -- `PreCheckClassicOnly`
  unfoldable pub pre_check_classic_only :
      String → String → Option RateLimitPolicy → Limiter F → PreCheckResult
  pre_check_classic_only api_key_id model none l = allow
  pre_check_classic_only api_key_id model (some policy) l =
      verdict allow (check now api_key_id model policy.classic_rules l.classic)

  -- `PostRecord`
  unfoldable pub post_record :
      String → String → String → String → TokenUsage → Limiter F → Limiter F
  post_record project_id api_key_id user_id model usage l = record {
    classic = record_usage now api_key_id model usage l.classic;
    cache =
        let c = invalidate_prefix ("p:" ++ project_id) (invalidate_prefix api_key_id l.cache) in
        if str_eq user_id ""
        then c
        else invalidate_prefix ("u:" ++ (project_id ++ (":" ++ user_id))) c;
  }
