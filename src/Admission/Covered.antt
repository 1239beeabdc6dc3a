-- ===== src/Admission/Covered.antt =====
-- What a request has passed that reaches the handler without extra usage.
use modelserver.Prelude.{String, ◌≡◌, ◌⊎◌, true, none, some}
use modelserver.Prelude.Int.{ℤ}
use modelserver.Ratelimit.Windows.{TimeLib}
use modelserver.Ratelimit.Composite.{
  Floats, CreditStore, Limiter, RateLimitPolicy, PreCheckResult, pre_check,
}
use modelserver.Ratelimit.Quota.{check_user_quota}
use modelserver.Admission.Eligibility.{subscription_eligibility}
use modelserver.Admission.Gates.{Caller}

module _ {F : Type 0} (time : TimeLib) (floats : Floats F) (credits : CreditStore F) (now : ℤ)
    (c : Caller F) where
  -- The member's share of the credits is not used up.
  abbrev pub InQuota : String → String → RateLimitPolicy → Limiter F → Type 0
  InQuota project user policy after =
      (c.user_quota_pct ≡ none)
      ⊎ ((pct : F) × (c.user_quota_pct ≡ some pct)
          × ((check_user_quota time floats credits now project user pct (some policy) after).0
              ≡ some none))

  -- What a request without an intent has passed.
  pub record Covered (policy : RateLimitPolicy) (project key user : String) (l : Limiter F)
      : Type 0 where
    pub eligible : (subscription_eligibility c.model c.client_kind).eligible ≡ true
    pub checked : PreCheckResult
    pub after : Limiter F
    pub result :
        pre_check time floats credits now project key "" (some policy) l ≡ (some checked, after)
    pub allowed : checked.allowed ≡ true
    pub quota : InQuota project user policy after
