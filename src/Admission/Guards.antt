-- ===== src/Admission/Guards.antt =====
-- `ExtraUsageGuardMiddleware` of internal/proxy/extra_usage_guard_middleware.go, and the chain of
-- middlewares in `MountRoutes` of internal/proxy/router.go from the eligibility on. The rows and the
-- counters that record a rejection are left out.
use modelserver.Prelude.{String, Bool, true, false, not, Option, none, some, if◌then◌else◌}
use modelserver.Prelude.Int.{ℤ, pos, ltb_ℤ, leb_ℤ}
use modelserver.Ratelimit.Windows.{TimeLib}
use modelserver.Ratelimit.Composite.{Floats, CreditStore, Limiter}
use modelserver.Ledger.Accounts.{ExtraUsageSettings}
use modelserver.Pricing.Rates.{Model, CreditRate}
use modelserver.Admission.Eligibility.{subscription_eligibility}
use modelserver.Admission.Gates.{Caller, Gate, pass, limited, gate_panicked, rate_limit}

pub record ExtraUsageContext : Type 0 where
  pub reason : String
  pub balance_credits_at_entry : ℤ
  pub monthly_limit_credits : ℤ
  pub monthly_spent_credits : ℤ

-- The two settings of the configuration that the guard reads.
pub record ExtraUsageConfig : Type 0 where
  pub enabled : Bool
  pub credit_price_cny_fen : ℤ

-- The guard's reads of the store; `none` is an error.
pub record GuardStore : Type 0 where
  pub get_extra_usage_settings : String → Option (Option ExtraUsageSettings)
  pub get_monthly_extra_spend_credits : String → Option ℤ

-- The guard calls the next handler, with the context for the settlement where the request goes
-- through extra usage, or answers with a status and a sub-reason.
pub data Guard : Type 0 where
  unguarded : Guard
  approved : ExtraUsageContext → Guard
  rejected : ℤ → String → Guard

abbrev has_rate : {F : Type 0} → Option (CreditRate F) → Bool
has_rate none = false
has_rate (some rate) = true

-- The model is resolved and has a default rate.
abbrev pub is_priced : {F : Type 0} → Option (Model F) → Bool
is_priced none = false
is_priced (some m) = has_rate m.default_credit_rate

module _ (cfg : ExtraUsageConfig) where
  abbrev pub approve : String → ExtraUsageSettings → ℤ → Guard
  approve reason s spent = approved (record {
    reason = reason;
    balance_credits_at_entry = s.balance_credits;
    monthly_limit_credits = s.monthly_limit_credits;
    monthly_spent_credits = spent;
  })

  abbrev pub with_spent : String → ExtraUsageSettings → Option ℤ → Guard
  with_spent reason s none = rejected (pos 500) "spend_lookup_failed"
  with_spent reason s (some spent) =
      if leb_ℤ s.monthly_limit_credits spent
      then rejected (pos 429) "monthly_limit"
      else approve reason s spent

  -- From the monthly limit on.
  abbrev pub guard_month : GuardStore → String → String → ExtraUsageSettings → Guard
  guard_month store project reason s =
      if ltb_ℤ (pos 0) s.monthly_limit_credits
      then with_spent reason s (store.get_monthly_extra_spend_credits project)
      else approve reason s (pos 0)

  -- The checks that a bypass skips.
  abbrev pub guard_settings :
      {F : Type 0}
      → GuardStore
      → String
      → String
      → Option (Model F)
      → Option ExtraUsageSettings
      → Guard
  guard_settings store project reason model none = rejected (pos 429) "not_enabled"
  guard_settings store project reason model (some s) =
      if s.bypass_balance_check
      then guard_month store project reason s
      else if not s.enabled
      then rejected (pos 429) "not_enabled"
      else if leb_ℤ s.balance_credits (pos 0)
      then rejected (pos 429) "balance_depleted"
      else if leb_ℤ cfg.credit_price_cny_fen (pos 0)
      then rejected (pos 429) "model_unpriced_credit_price_unset"
      else if not (is_priced model)
      then rejected (pos 429) "model_unpriced_missing_default_rate"
      else guard_month store project reason s

  abbrev pub guard_lookup :
      {F : Type 0}
      → GuardStore
      → String
      → String
      → Option (Model F)
      → Option (Option ExtraUsageSettings)
      → Guard
  guard_lookup store project reason model none = rejected (pos 500) "settings_lookup_failed"
  guard_lookup store project reason model (some s) = guard_settings store project reason model s

  abbrev pub guard_intent : {F : Type 0} → GuardStore → Caller F → String → Option String → Guard
  guard_intent store c reason none = rejected (pos 500) "no_project"
  guard_intent store c reason (some project) =
      guard_lookup store project reason c.model (store.get_extra_usage_settings project)

  abbrev pub guard_intended : {F : Type 0} → GuardStore → Caller F → Option String → Guard
  guard_intended store c none = unguarded
  guard_intended store c (some reason) =
      if not cfg.enabled
      then rejected (pos 429) "global_disabled"
      else guard_intent store c reason c.project

  -- `ExtraUsageGuardMiddleware`, at the intent of the request.
  unfoldable pub extra_usage_guard : {F : Type 0} → GuardStore → Caller F → Option String → Guard
  extra_usage_guard store c intent =
      if c.is_count_tokens then unguarded else guard_intended store c intent

-- What the chain does with a request: it reaches the handler, without or through extra usage, or
-- is answered.
pub data Admission : Type 0 where
  plain : Admission
  on_extra_usage : ExtraUsageContext → Admission
  refused : ℤ → Admission
  panicked : Admission

abbrev pub of_guard : Guard → Admission
of_guard unguarded = plain
of_guard (approved ctx) = on_extra_usage ctx
of_guard (rejected status sub_reason) = refused status

module _ {F : Type 0} (time : TimeLib) (floats : Floats F) (credits : CreditStore F) (now : ℤ)
    (cfg : ExtraUsageConfig) (store : GuardStore) where
  -- `writeRateLimitError` answers with 400.
  abbrev pub after_gate : Caller F → Gate × Limiter F → Admission × Limiter F
  after_gate c (pass intent, l) = (of_guard (extra_usage_guard cfg store c intent), l)
  after_gate c (limited wait, l) = (refused (pos 400), l)
  after_gate c (gate_panicked, l) = (panicked, l)

  -- The chain of `MountRoutes` behind the resolution of the model.
  unfoldable pub admit : Caller F → Limiter F → Admission × Limiter F
  admit c l =
      after_gate c
        (rate_limit time floats credits now (subscription_eligibility c.model c.client_kind) c l)
