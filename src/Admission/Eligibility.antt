-- ===== src/Admission/Eligibility.antt =====
-- `SubscriptionEligibilityMiddleware` of internal/proxy/subscription_eligibility_middleware.go.
use modelserver.Prelude.{
  String, Bool, true, false, not, ◌&&◌, ◌||◌, Option, none, some, str_eq, if◌then◌else◌,
}
use modelserver.Pricing.Rates.{Model}

abbrev pub client_restriction : String
client_restriction = "client_restriction"

abbrev pub rate_limited : String
rate_limited = "rate_limited"

pub record SubscriptionEligibility : Type 0 where
  pub eligible : Bool
  pub reason : String

abbrev pub is_eligible : SubscriptionEligibility
is_eligible = record { eligible = true; reason = "" }

abbrev pub is_restricted : SubscriptionEligibility
is_restricted = record { eligible = false; reason = client_restriction }

-- `isAnthropicSubscriptionClient`
unfoldable pub is_anthropic_subscription_client : String → Bool
is_anthropic_subscription_client kind = str_eq kind "claude-code" || str_eq kind "claude-desktop"

-- The switch on the resolved model and the kind of the client.
unfoldable pub subscription_eligibility :
    {F : Type 0} → Option (Model F) → String → SubscriptionEligibility
unfolding is_anthropic_subscription_client
subscription_eligibility none kind = is_eligible
subscription_eligibility (some m) kind =
    if m.extra_usage_only
    then is_restricted
    else if str_eq m.publisher ""
    then is_eligible
    else if str_eq m.publisher "anthropic" && not (is_anthropic_subscription_client kind)
    then is_restricted
    else is_eligible
