-- ===== src/Auth/Accounts.antt =====
-- The rows that authentication reads: internal/types/apikey.go, project.go, plan.go and policy.go, with
-- the fields that it uses.
use modelserver.Prelude.{
  String, Bool, true, not, ◌&&◌, List, map, Option, none, some, str_eq, if◌then◌else◌,
}
use modelserver.Prelude.Int.{ℤ, ltb_ℤ}
use modelserver.Ratelimit.Classic.{ClassicRule}
use modelserver.Ratelimit.Composite.{CreditRule, RateLimitPolicy}

pub record ApiKey : Type 0 where
  pub id : String
  pub project_id : String
  pub created_by : String
  pub name : String
  pub status : String
  pub allowed_models : List String
  pub expires_at : Option ℤ

pub record Project : Type 0 where
  pub id : String
  pub status : String

pub record Subscription : Type 0 where
  pub plan_id : String
  pub starts_at : ℤ

pub record Plan : Type 0 where
  pub credit_rules : List CreditRule
  pub classic_rules : List ClassicRule

-- A policy with its validity window.
pub record DatedPolicy : Type 0 where
  pub rules : RateLimitPolicy
  pub starts_at : Option ℤ
  pub expires_at : Option ℤ

abbrev is_before : ℤ → Option ℤ → Bool
is_before now none = true
is_before now (some t) = not (ltb_ℤ t now)

abbrev is_after : ℤ → Option ℤ → Bool
is_after now none = true
is_after now (some t) = not (ltb_ℤ now t)

-- `IsActive` of a policy
unfoldable pub is_active : ℤ → DatedPolicy → Bool
is_active now p = is_after now p.starts_at && is_before now p.expires_at

abbrev pub anchor : ℤ → CreditRule → CreditRule
anchor start r = if str_eq r.window_type "fixed" then record r { anchor_time = some start } else r

abbrev anchored : Option ℤ → List CreditRule → List CreditRule
anchored none rules = rules
anchored (some start) rules = map (anchor start) rules

-- `ToPolicy`
unfoldable pub to_policy : Plan → Option ℤ → DatedPolicy
to_policy plan starts_at = record {
  rules = record {
    credit_rules = anchored starts_at plan.credit_rules;
    classic_rules = plan.classic_rules;
  };
  starts_at = none;
  expires_at = none;
}
