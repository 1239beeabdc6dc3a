-- ===== src/Admission/Gates.antt =====
-- `RateLimitMiddleware` of internal/proxy/ratelimit_middleware.go. The rows that record a rejection
-- are left out.
use modelserver.Prelude.{String, Bool, not, Option, none, some, str_eq, if◌then◌else◌}
use modelserver.Prelude.Int.{ℤ}
use modelserver.Ratelimit.Windows.{TimeLib}
use modelserver.Ratelimit.Composite.{
  RateLimitPolicy, Floats, CreditStore, Limiter, PreCheckResult, LimitType, limit_none,
  limit_credit, limit_classic, pre_check, pre_check_classic_only,
}
use modelserver.Ratelimit.Quota.{check_user_quota}
use modelserver.Pricing.Rates.{Model}
use modelserver.Admission.Eligibility.{SubscriptionEligibility, rate_limited}

-- What the earlier middlewares have put into the context of a request: the path, the resolved
-- model and the kind of the client, and of the authentication the project, the key with its
-- creator, the policy, and the member's share of the credits.
pub record Caller (F : Type 0) : Type 0 where
  pub is_count_tokens : Bool
  pub model : Option (Model F)
  pub client_kind : String
  pub project : Option String
  pub api_key : Option (String × String)
  pub policy : Option RateLimitPolicy
  pub user_quota_pct : Option F

-- `withExtraUsageIntent`: an empty reason sets no intent.
abbrev pub intent_of : String → Option String
intent_of reason = if str_eq reason "" then none else some reason

-- A middleware calls the next one, with the reason of an intent for extra usage, or answers with a
-- wait. `gate_panicked` is a panic of the limiter.
pub data Gate : Type 0 where
  pass : Option String → Gate
  limited : ℤ → Gate
  gate_panicked : Gate

abbrev pub by_limit : PreCheckResult → LimitType → Gate
by_limit res limit_credit = pass (intent_of rate_limited)
by_limit res limit_classic = limited res.retry_after
by_limit res limit_none = limited res.retry_after

module _ {F : Type 0} (time : TimeLib) (floats : Floats F) (store : CreditStore F) (now : ℤ) where
  abbrev pub quota_gate : Option (Option ℤ) × Limiter F → Gate × Limiter F
  quota_gate (none, l) = (gate_panicked, l)
  quota_gate (some none, l) = (pass none, l)
  quota_gate (some (some wait), l) = (limited wait, l)

  abbrev pub check_quota_of :
      String → String → RateLimitPolicy → Option F → Limiter F → Gate × Limiter F
  check_quota_of project user policy none l = (pass none, l)
  check_quota_of project user policy (some pct) l =
      quota_gate (check_user_quota time floats store now project user pct (some policy) l)

  abbrev pub after_pre_check :
      String
      → String
      → RateLimitPolicy
      → Option F
      → Option PreCheckResult × Limiter F
      → Gate × Limiter F
  after_pre_check project user policy pct (none, l) = (gate_panicked, l)
  after_pre_check project user policy pct (some res, l) =
      if res.allowed
      then check_quota_of project user policy pct l
      else (by_limit res res.limit_type, l)

  abbrev pub limit_caller :
      SubscriptionEligibility
      → Caller F
      → RateLimitPolicy
      → String
      → String × String
      → Limiter F
      → Gate × Limiter F
  limit_caller elig c policy project (key, user) l =
      if not elig.eligible
      then (let res = pre_check_classic_only time floats store now key "" (some policy) l in
          (if not res.allowed then limited res.retry_after else pass (intent_of elig.reason), l))
      else after_pre_check project user policy c.user_quota_pct
          (pre_check time floats store now project key "" (some policy) l)

  abbrev pub limit_known :
      SubscriptionEligibility
      → Caller F
      → Option RateLimitPolicy
      → Option String
      → Option (String × String)
      → Limiter F
      → Gate × Limiter F
  limit_known elig c none project key l = (pass none, l)
  limit_known elig c (some policy) none key l = (pass none, l)
  limit_known elig c (some policy) (some project) none l = (pass none, l)
  limit_known elig c (some policy) (some project) (some key) l =
      limit_caller elig c policy project key l

  -- `RateLimitMiddleware`
  unfoldable pub rate_limit : SubscriptionEligibility → Caller F → Limiter F → Gate × Limiter F
  rate_limit elig c l = limit_known elig c c.policy c.project c.api_key l
