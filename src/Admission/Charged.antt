-- ===== src/Admission/Charged.antt =====
-- What a request pays that was let through for extra usage: `ExtraUsageGuardMiddleware` before it and
-- `settleExtraUsage` after it, on the same tables.
use mathlib.Core.Path.{subst}
use modelserver.Prelude.{
  String, ◌≡◌, ◌≢◌, refl, ap, ◌∙◌, ◌⊎◌, inl, inr, true, false, Option, none, some, arith, some_inj,
  Option-cases,
}
use modelserver.Prelude.Int.{ℤ, pos, ◌+ℤ◌, ◌-ℤ◌, ◌≤ℤ◌, ◌<ℤ◌, eqb_ℤ, in_int64}
use modelserver.Ledger.Accounts.{
  ExtraUsageSettings, Ledger, LedgerResult, Answer, balance, insufficient_balance,
  monthly_limit_reached, monthly_extra_spend, DeductExtraUsageReq, debit,
}
use modelserver.Ledger.Deduct.{Affords, Explains, deduct_extra_usage-Decided}
use modelserver.Pricing.Rates.{
  Arith, Model, TokenUsage, add_int64, compute_extra_usage_cost_credits,
}
use modelserver.Pricing.Settlement.{
  Settlement, missing_rate, priced, Purchase, charge_cost, deduct_cost, settle_extra_usage,
}
use modelserver.Admission.Gates.{Caller}
use modelserver.Admission.Guards.{ExtraUsageContext, ExtraUsageConfig, GuardStore, is_priced}
use modelserver.Admission.Paid.{Approved}

-- The guard's reads of the ledger's tables, for a month that starts at `start`.
abbrev pub store_of : ℤ → Ledger → GuardStore
store_of start l = record {
  get_extra_usage_settings = λ project. some (l.settings project);
  get_monthly_extra_spend_credits = λ project. some (monthly_extra_spend l project start);
}

abbrev pub request_of : String → ℤ → ℤ → DeductExtraUsageReq
request_of project start cost = record {
  project_id = project;
  amount_credits = cost;
  month_window_start = start;
}

-- The settlement of a request that was let through: it is paid for; or the balance or the month's
-- limit does not cover its cost, and it stays unpaid; or it has no price, which only a bypass lets
-- through.
pub data Charged (now start : ℤ) (l : Ledger) (project : String) (s : ExtraUsageSettings)
    (price : Option ℤ) (r : Settlement × Ledger) : Type 0 where
  paid :
      (cost : ℤ)
      → price ≡ some cost
      → r ≡ (
        priced cost (balance (s.balance_credits -ℤ cost)),
        debit now (request_of project start cost) l s,
      )
      → Affords s (monthly_extra_spend l project start) cost
      → Charged now start l project s price r
  over_balance :
      (cost : ℤ)
      → price ≡ some cost
      → r ≡ (priced cost insufficient_balance, l)
      → s.bypass_balance_check ≡ false
      → s.balance_credits <ℤ cost
      → Charged now start l project s price r
  over_limit :
      (cost : ℤ)
      → price ≡ some cost
      → r ≡ (priced cost monthly_limit_reached, l)
      → s.monthly_limit_credits <ℤ monthly_extra_spend l project start +ℤ cost
      → Charged now start l project s price r
  unpriced :
      price ≡ none
      → r ≡ (missing_rate, l)
      → s.bypass_balance_check ≡ true
      → Charged now start l project s price r

module _ {F : Type 0} (ops : Arith F) (now start : ℤ) (l : Ledger) (project : String)
    (s : ExtraUsageSettings) (found : l.settings project ≡ some s)
    (usable : (s.bypass_balance_check ≡ true) ⊎ (s.enabled ≡ true))
    (limit : pos 0 ≤ℤ s.monthly_limit_credits) where
  refused-Charged :
      (price : Option ℤ) (cost : ℤ) (err : LedgerResult) (r : Settlement × Ledger)
      → price ≡ some cost
      → r ≡ (priced cost err, l)
      → Explains s (monthly_extra_spend l project start) cost err
      → Charged now start l project s price r
  refused-Charged price cost err r e answer (inl (which, unchecked, off)) = absurd (ground arith)
  refused-Charged price cost err r e answer (inr (inl (which, unchecked, low))) =
      over_balance cost e (answer ∙ ap (λ x. (priced cost x, l)) which) unchecked low
  refused-Charged price cost err r e answer (inr (inr (inl (which, capped, over)))) =
      over_limit cost e (answer ∙ ap (λ x. (priced cost x, l)) which) over
  refused-Charged price cost err r e answer (inr (inr (inr (which, negative, over)))) =
      absurd (ground arith)

  deduct_cost-Charged :
      (price : Option ℤ) (cost : ℤ)
      → price ≡ some cost
      → in_int64 (s.balance_credits -ℤ cost) ≡ true
      → Charged now start l project s price (deduct_cost ops (λ n. false) now start project cost l)
  deduct_cost-Charged price cost e fits =
      let req = request_of project start cost in
      let settled : Answer → Settlement × Ledger = λ a. (priced cost a.0, a.1) in
      elim (deduct_extra_usage-Decided now req l s found fits) [
        | inl (answer, affords) ↦ paid cost e (ap settled answer) affords
        | inr (err, answer, why) ↦ refused-Charged price cost err _ e (ap settled answer) why
      ]

  charge_cost-Charged :
      (price : Option ℤ)
      → (price ≡ none → s.bypass_balance_check ≡ true)
      → ((cost : ℤ) → price ≡ some cost → in_int64 (s.balance_credits -ℤ cost) ≡ true)
      → Charged now start l project s price (charge_cost ops (λ n. false) now start project price l)
  charge_cost-Charged none bypass fits = unpriced refl refl (bypass refl)
  charge_cost-Charged (some cost) bypass fits =
      deduct_cost-Charged (some cost) cost refl (fits cost refl)

-- A model with a default rate has a price.
priced_model :
    {F : Type 0} (ops : Arith F) (m : Option (Model F)) (u : TokenUsage)
    → is_priced m ≡ true
    → compute_extra_usage_cost_credits ops m u ≢ none
unfolding compute_extra_usage_cost_credits
priced_model ops none u h e = cc
priced_model ops (some m) u h e = elim (Option-cases m.default_credit_rate) [
  | inl missing ↦ cc (rw missing at h)
  | inr (rate, has) ↦ cc (rw has at e)
]

-- A request that was let through for extra usage is settled after its response on tables that have
-- not changed since, for a project whose monthly limit is not negative: its cost is debited, and its
-- project then bypasses the check or has the balance, and the month has room; or the balance is below
-- the cost, or the month's spending with it above the limit, and the tables stay as they were; or the
-- project bypasses the check and the model has no price. The usage has tokens, no statement fails and
-- the new balance fits.
pub settle_extra_usage-Charged :
    {F : Type 0} (ops : Arith F) (now start : ℤ) (l : Ledger) (cfg : ExtraUsageConfig)
    (c : Caller F) (ctx : ExtraUsageContext) (a : Approved cfg (store_of start l) c ctx)
    (u : TokenUsage)
    → pos 0 ≤ℤ ctx.monthly_limit_credits
    → eqb_ℤ
        (add_int64
          (add_int64 (add_int64 u.input_tokens u.output_tokens) u.cache_creation_tokens)
          u.cache_read_tokens)
        (pos 0)
      ≡ false
    → ((cost : ℤ)
        → compute_extra_usage_cost_credits ops c.model u ≡ some cost
        → in_int64 (ctx.balance_credits_at_entry -ℤ cost) ≡ true)
    → let p : Purchase F = record {
      has_extra_usage_ctx = true;
      project_id = a.project;
      model_ref = c.model;
    } in
      Charged now start l a.project a.settings
        (compute_extra_usage_cost_credits ops c.model u)
        (settle_extra_usage ops (λ n. false) now start p u l)
unfolding settle_extra_usage
settle_extra_usage-Charged ops now start l cfg c ctx a u limit used fits = rw used (
    charge_cost-Charged ops now start l a.project a.settings (some_inj a.funded.known)
      (elim (a.funded.allowed) [ inl bypass ↦ inl bypass | inr on ↦ inr on.0 ])
      (subst (λ n. pos 0 ≤ℤ n) a.limit limit) (compute_extra_usage_cost_credits ops c.model u)
      (λ missing. elim (a.funded.allowed) [
        | inl bypass ↦ bypass
        | inr on ↦ absurd (priced_model ops c.model u on.3 missing)
      ])
      (λ cost e. subst (λ b. in_int64 (b -ℤ cost) ≡ true) a.at_entry (fits cost e)))
