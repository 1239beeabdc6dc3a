-- ===== src/Pricing/Settlement.antt =====
-- `settleExtraUsage` and `settleImageExtraUsage` of internal/proxy/executor.go, over the ledger. The
-- logs and the counters of Prometheus are left out.
use modelserver.Prelude.{ℕ, String, Bool, Option, none, some, if◌then◌else◌}
use modelserver.Prelude.Int.{ℤ, pos, eqb_ℤ}
use modelserver.Ledger.Accounts.{Ledger, LedgerResult, deduct_extra_usage}
use modelserver.Pricing.Rates.{
  Arith, Model, TokenUsage, ImageTokenUsage, add_int64, compute_extra_usage_cost_credits,
  compute_image_extra_usage_cost_credits,
}

-- How a settlement ends: not through extra usage, without usage, without a rate, or with the cost
-- and the answer of the ledger.
pub data Settlement : Type 0 where
  not_extra : Settlement
  no_usage : Settlement
  missing_rate : Settlement
  priced : ℤ → LedgerResult → Settlement

-- What the request context holds for the settlement.
pub record Purchase (F : Type 0) : Type 0 where
  pub has_extra_usage_ctx : Bool
  pub project_id : String
  pub model_ref : Option (Model F)

-- `requests.extra_usage_cost_credits`: the cost once it is computed, also where the ledger refuses.
abbrev pub recorded_cost : Settlement → ℤ
recorded_cost not_extra = pos 0
recorded_cost no_usage = pos 0
recorded_cost missing_rate = pos 0
recorded_cost (priced cost answer) = cost

-- The steps of one call of the ledger that fail, the time, and the start of the month.
module _ {F : Type 0} (arith : Arith F) (fails : ℕ → Bool) (now month_window_start : ℤ) where
  abbrev pub deduct_cost : String → ℤ → Ledger → Settlement × Ledger
  deduct_cost project cost l =
      let (answer, l') =
        deduct_extra_usage fails now
          (record {
            project_id = project;
            amount_credits = cost;
            month_window_start = month_window_start;
          })
          l in
      (priced cost answer, l')

  abbrev pub charge_cost : String → Option ℤ → Ledger → Settlement × Ledger
  charge_cost project none l = (missing_rate, l)
  charge_cost project (some cost) l = deduct_cost project cost l

  -- `settleExtraUsage`
  unfoldable pub settle_extra_usage : Purchase F → TokenUsage → Ledger → Settlement × Ledger
  settle_extra_usage p u l =
      if p.has_extra_usage_ctx
      then if eqb_ℤ
          (add_int64 (add_int64 (add_int64 u.input_tokens u.output_tokens) u.cache_creation_tokens)
            u.cache_read_tokens)
          (pos 0)
        then (no_usage, l)
        else charge_cost p.project_id (compute_extra_usage_cost_credits arith p.model_ref u) l
      else (not_extra, l)

  -- `settleImageExtraUsage`
  unfoldable pub settle_image_extra_usage :
      Purchase F → ImageTokenUsage → Ledger → Settlement × Ledger
  settle_image_extra_usage p u l =
      if p.has_extra_usage_ctx
      then if eqb_ℤ (add_int64 u.input_tokens u.output_tokens) (pos 0)
        then (no_usage, l)
        else charge_cost p.project_id (compute_image_extra_usage_cost_credits arith p.model_ref u) l
      else (not_extra, l)
