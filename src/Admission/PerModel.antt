-- ===== src/Admission/PerModel.antt =====
-- The classic rules with `per_model`, as `RateLimitMiddleware` of
-- internal/proxy/ratelimit_middleware.go holds a request against them: with an empty model.
use Prim.Native.String.{len, count, ◌++◌ as str_append}
use text.Mathlib.TextLemmas.{append_cancel_left, append_inj}
use text.Mathlib.TextPositions.{len-append}
use modelserver.Prelude.{
  String, ◌≡◌, ◌≢◌, refl, sym, ap, ◌∙◌, inl, inr, Bool, true, false, List, [], ◌∷◌, none, some,
  arith, str_eq, eq_iff, if◌then◌else◌, All, Bool-cases,
}
use modelserver.Prelude.Int.{ℤ, pos, ◌<ℤ◌, leb_ℤ}
use modelserver.Ratelimit.Counters.{
  MemoryCounters, new_memory_counters, count_requests, count_after, count_requests-add_request,
  count_requests-add_tokens,
}
use modelserver.Ratelimit.Classic.{
  ClassicRule, TokenUsage, counter_key, metric_window, is_request_metric, current, check,
  record_usage,
}
use modelserver.Ratelimit.Cache.{CreditCache}
use modelserver.Ratelimit.Windows.{TimeLib}
use modelserver.Ratelimit.Composite.{
  Floats, CreditStore, Limiter, RateLimitPolicy, check_credits, pre_check, pre_check_classic_only,
}
use modelserver.Admission.Eligibility.{SubscriptionEligibility}
use modelserver.Admission.Gates.{Caller, pass, intent_of, rate_limit}
use modelserver.Ratelimit.Recording.{CountsRequests, record_all}

apart_test : (s t : String) → s ≢ t → str_eq s t ≡ false
apart_test s t h = ground (arith, eq_iff s t)

-- The key of a request of no model is none of the keys under which a request of a model is recorded.
module _ (id model m n : String) (named : model ≢ "") (lm : count m ≡ 3) (ln : count n ≡ 3)
    (bm : len m ≡ 3) (bn : len n ≡ 3) where
  counter_key-apart :
      (b : Bool) → str_eq (counter_key id n model b) (counter_key id m "" true) ≡ false
  unfolding counter_key
  counter_key-apart true = apart_test _ _ (λ e. named (
      append_cancel_left ":" model ""
        (append_inj (append_cancel_left ":" _ _ (append_cancel_left id _ _ e)) (ln ∙ sym lm)).1))
  counter_key-apart false = apart_test _ _ (λ e.
      let f : n ≡ str_append m (str_append ":" "") =
        append_cancel_left ":" _ _ (append_cancel_left id _ _ e) in
      omega (arith, ap len f, len-append m (str_append ":" "")))

module _ (at now window : ℤ) (id model m : String) (usage : TokenUsage) (c : MemoryCounters)
    (named : model ≢ "") (lm : count m ≡ 3) (bm : len m ≡ 3) where
  apart_rpm : (b : Bool) → str_eq (counter_key id "rpm" model b) (counter_key id m "" true) ≡ false
  apart_rpm b = counter_key-apart id model m "rpm" named lm refl bm refl b

  apart_rpd : (b : Bool) → str_eq (counter_key id "rpd" model b) (counter_key id m "" true) ≡ false
  apart_rpd b = counter_key-apart id model m "rpd" named lm refl bm refl b

  unrecorded :
      count_requests now (counter_key id m "" true) window (record_usage at id model usage c)
      ≡ count_requests now (counter_key id m "" true) window c
  unfolding record_usage
  unrecorded =
      simp (count_requests-add_tokens, count_requests-add_request, apart_rpm, apart_rpd)
        (ground arith)

-- The rule counts requests per model, up to a positive limit.
pub record PerModel (rule : ClassicRule) : Type 0 where
  pub per_model : rule.per_model ≡ true
  pub counts : CountsRequests rule.metric
  pub positive : pos 0 <ℤ rule.limit

module _ (now : ℤ) (id model : String) (usage : TokenUsage) (named : model ≢ "") where
  count-unrecorded :
      (ts : List ℤ) (window : ℤ) (m : String)
      → count m ≡ 3
      → len m ≡ 3
      → count_requests now
          (counter_key id m "" true)
          window
          (record_all ts id model usage new_memory_counters)
        ≡ 0
  unfolding count_requests count_after
  count-unrecorded [] window m lm bm = refl
  count-unrecorded (t ∷ ts) window m lm bm =
      unrecorded t now window id model m usage (record_all ts id model usage new_memory_counters)
        named lm bm
      ∙ count-unrecorded ts window m lm bm

  current-unrecorded :
      (ts : List ℤ) (rule : ClassicRule)
      → PerModel rule
      → current now id "" rule (record_all ts id model usage new_memory_counters) ≡ pos 0
  unfolding current is_request_metric
  current-unrecorded ts rule r = elim (r.counts) [
    | inl e ↦
        rw (r.per_model, e) (ap pos (count-unrecorded ts (metric_window "rpm") "rpm" refl refl))
    | inr e ↦
        rw (r.per_model, e) (ap pos (count-unrecorded ts (metric_window "rpd") "rpd" refl refl))
  ]

  check-unrecorded :
      (ts : List ℤ) (rules : List ClassicRule)
      → All PerModel rules
      → check now id "" rules (record_all ts id model usage new_memory_counters) ≡ none
  unfolding check
  check-unrecorded ts [] h = refl
  check-unrecorded ts (rule ∷ rules) h =
      let room : leb_ℤ rule.limit (pos 0) ≡ false = ground (arith, h.0.positive) in
      rw (current-unrecorded ts rule h.0, room) (check-unrecorded ts rules h.1)

-- The rate limit of the proxy never enforces a limit on requests per model: however many requests
-- of a key for a model are recorded, at whatever times, and however low the positive limits are, a
-- caller whose policy has only such rules passes. It is held against the count of an empty model,
-- under which no request of a named model is recorded.
pub rate_limit-PerModel :
    {F : Type 0} (time : TimeLib) (floats : Floats F) (credits : CreditStore F) (now : ℤ)
    (elig : SubscriptionEligibility) (c : Caller F) (policy : RateLimitPolicy)
    (project key user model : String) (ts : List ℤ) (usage : TokenUsage) (cache : CreditCache F)
    → c.policy ≡ some policy
    → c.project ≡ some project
    → c.api_key ≡ some (key, user)
    → c.user_quota_pct ≡ none
    → policy.credit_rules ≡ []
    → All PerModel policy.classic_rules
    → model ≢ ""
    → let l : Limiter F = record {
      classic = record_all ts key model usage new_memory_counters;
      cache = cache;
    } in
      (rate_limit time floats credits now elig c l).0
      ≡ pass (if elig.eligible then none else intent_of elig.reason)
unfolding rate_limit pre_check pre_check_classic_only check_credits
rate_limit-PerModel time floats credits now elig c policy project key user model ts usage cache p q
      r s t rules named =
    let free = check-unrecorded now key model usage named ts policy.classic_rules rules in
    elim (Bool-cases elig.eligible) [
      | inl eligible ↦ rw (p, q, r, eligible, t, free, s) refl
      | inr restricted ↦ rw (p, q, r, restricted, free) refl
    ]
