-- ===== src/Admission/Tests.antt =====
-- Requests on their way through the middlewares, and the theorems at them.
use modelserver.Prelude.{
  String, ◌≡◌, ◌≢◌, refl, sym, ◌∙◌, some_inj, inl, inr, true, false, [], ◌∷◌, none, some, arith,
  eq_iff,
}
use modelserver.Prelude.Int.{ℤ, pos, ◌+ℤ◌, ◌-ℤ◌, ◌*ℤ◌, leb_ℤ, wrap_int64, in_int64}
use modelserver.Ratelimit.Counters.{new_memory_counters, count_requests, count_after}
use modelserver.Ratelimit.Classic.{
  ClassicRule, check, current, counter_key, metric_window, is_request_metric,
}
use modelserver.Ratelimit.Classic as Classic
use modelserver.Ratelimit.Recording.{record_all}
use modelserver.Ratelimit.Windows.{TimeLib}
use modelserver.Ratelimit.Composite.{
  RateLimitPolicy, Floats, CreditStore, Limiter, pre_check_classic_only,
}
use modelserver.Ledger.Accounts.{ExtraUsageSettings, Ledger, month_spend}
use modelserver.Pricing.Rates.{
  Arith, CreditRate, Model, TokenUsage, compute_extra_usage_cost_credits, credits_at,
  apply_long_context_credit_rate,
}
use modelserver.Pricing.Settlement.{settle_extra_usage}
use modelserver.Admission.Eligibility.{is_eligible, subscription_eligibility}
use modelserver.Admission.Gates.{Caller, pass, rate_limit}
use modelserver.Admission.Guards.{
  ExtraUsageContext, ExtraUsageConfig, GuardStore, on_extra_usage, extra_usage_guard, admit,
}
use modelserver.Admission.Paid.{Approved, admit-Approved}
use modelserver.Admission.Covered.{Covered}
use modelserver.Admission.PerModel.{rate_limit-PerModel}
use modelserver.Admission.Charged.{Charged, store_of, settle_extra_usage-Charged}

-- Integers in place of floats.
abbrev ops : Arith ℤ
ops = record {
  zero = pos 0;
  of_int = λ n. n;
  times = λ a b. a *ℤ b;
  plus = λ a b. a +ℤ b;
  not_positive = λ a. leb_ℤ a (pos 0);
  ceil_int = λ a. a;
}

abbrev rate : CreditRate ℤ
rate = record {
  input_rate = pos 1;
  output_rate = pos 2;
  cache_creation_rate = pos 1;
  cache_read_rate = pos 1;
  long_context = none;
}

-- A model that only extra usage pays for.
abbrev premium : Model ℤ
premium = record {
  name = "opus";
  aliases = [];
  publisher = "anthropic";
  status = "active";
  extra_usage_only = true;
  default_credit_rate = some rate;
  default_image_credit_rate = none;
}

abbrev per_model_rule : ClassicRule
per_model_rule = record { metric = "rpm"; limit = pos 1; per_model = true }

abbrev policy : RateLimitPolicy
policy = record { credit_rules = []; classic_rules = per_model_rule ∷ [] }

abbrev caller : Model ℤ → Caller ℤ
caller m = record {
  is_count_tokens = false;
  model = some m;
  client_kind = "claude-code";
  project = some "p1";
  api_key = some ("k1", "u1");
  policy = some policy;
  user_quota_pct = none;
}

abbrev time : TimeLib
time = record {
  parse_duration = λ s. none;
  month_start = λ now. now;
  next_month_start = λ now. now;
}

abbrev floats : Floats ℤ
floats = record { of_int = λ n. n; at_least = λ a b. leb_ℤ b a; quota_of = λ a b. a }

abbrev credits : CreditStore ℤ
credits = record {
  sum_by_key = λ key start. none;
  sum_by_project = λ project start. none;
  sum_by_user = λ project user start. none;
}

abbrev limiter : Limiter ℤ
limiter = record {
  classic = new_memory_counters;
  cache = record { entries = λ k. none; ttl = pos 10 };
}

abbrev cfg : ExtraUsageConfig
cfg = record { enabled = true; credit_price_cny_fen = pos 3 }

abbrev settings_50 : ExtraUsageSettings
settings_50 = record {
  enabled = true;
  balance_credits = pos 50;
  monthly_limit_credits = pos 100;
  bypass_balance_check = false;
}

abbrev ledger : Ledger
ledger = record { settings = λ p. some settings_50; rows = [] }

abbrev tables : GuardStore
tables = store_of (pos 5) ledger

abbrev entry : ExtraUsageContext
entry = record {
  reason = "client_restriction";
  balance_credits_at_entry = pos 50;
  monthly_limit_credits = pos 100;
  monthly_spent_credits = pos 0;
}

premium_admitted :
    (admit time floats credits (pos 120) cfg tables (caller premium) limiter).0
    ≡ on_extra_usage entry
unfolding admit rate_limit subscription_eligibility pre_check_classic_only check current counter_key
    is_request_metric count_requests count_after metric_window extra_usage_guard month_spend ◌-ℤ◌
premium_admitted = refl

admit-Approved_example : Approved cfg tables (caller premium) entry
admit-Approved_example =
    admit-Approved time floats credits (pos 120) cfg tables (caller premium) limiter entry
      premium_admitted

-- A model of the subscription.
abbrev bundled : Model ℤ
bundled = record premium { extra_usage_only = false }

abbrev recorded_usage : Classic.TokenUsage
recorded_usage = record { input_tokens = pos 7; output_tokens = pos 5 }

opus_named : ◌≢◌ {A = String} "opus" ""
opus_named h = ground (arith, eq_iff "opus" "")

abbrev after_two : Limiter ℤ
after_two = record limiter {
  classic = record_all (pos 110 ∷ pos 100 ∷ []) "k1" "opus" recorded_usage new_memory_counters;
}

-- Two requests within the minute under a limit of one.
rate_limit-PerModel_example :
    (rate_limit time floats credits (pos 120) is_eligible (caller bundled) after_two).0 ≡ pass none
rate_limit-PerModel_example =
    rate_limit-PerModel time floats credits (pos 120) is_eligible (caller bundled) policy "p1" "k1"
      "u1" "opus" (pos 110 ∷ pos 100 ∷ []) recorded_usage limiter.cache refl refl refl refl refl
      (record { per_model = refl; counts = inl refl; positive = ground arith }, tt) opus_named

abbrev small : TokenUsage
small = record {
  input_tokens = pos 10;
  output_tokens = pos 5;
  cache_creation_tokens = pos 0;
  cache_read_tokens = pos 0;
}

small_cost : compute_extra_usage_cost_credits ops (some premium) small ≡ some (pos 20)
unfolding compute_extra_usage_cost_credits credits_at apply_long_context_credit_rate ◌*ℤ◌ ◌+ℤ◌
small_cost = refl

small_fits :
    (cost : ℤ)
    → compute_extra_usage_cost_credits ops (some premium) small ≡ some cost
    → in_int64 (pos 50 -ℤ cost) ≡ true
unfolding ◌-ℤ◌ in_int64
small_fits cost e = rw (sym (some_inj (sym small_cost ∙ e))) refl

settle_extra_usage-Charged_example :
    Charged
      (pos 130)
      (pos 5)
      ledger
      "p1"
      settings_50
      (compute_extra_usage_cost_credits ops (some premium) small)
      (settle_extra_usage ops
        (λ n. false)
        (pos 130)
        (pos 5)
        (record { has_extra_usage_ctx = true; project_id = "p1"; model_ref = some premium })
        small
        ledger)
unfolding month_spend wrap_int64 ◌+ℤ◌
settle_extra_usage-Charged_example =
    settle_extra_usage-Charged ops (pos 130) (pos 5) ledger cfg (caller premium) entry
      (record {
        project = "p1";
        settings = settings_50;
        of_project = refl;
        enabled = refl;
        funded = record {
          known = refl;
          allowed = inr (refl, ground arith, ground arith, refl);
          below_limit = inr (pos 0, refl, ground arith);
        };
        at_entry = refl;
        limit = refl;
      })
      small (ground arith) refl small_fits
