-- ===== src/Ledger/Accounts.antt =====
-- The operations on extra usage, internal/store/extra_usage.go. A call runs in one transaction, and the
-- transactions run one after another; `fails n` says whether the n-th statement of the call fails, and a
-- call that fails leaves the tables as they were. A balance outside the range of bigint fails its
-- statement.
mod Tables
unfoldable pub use Tables.*
use modelserver.Prelude.{
  ℕ, String, Bool, true, false, not, ◌&&◌, ◌||◌, List, [], ◌∷◌, Option, none, some, str_eq,
  if◌then◌else◌,
}
use modelserver.Prelude.Int.{ℤ, pos, ◌+ℤ◌, ◌-ℤ◌, neg, ltb_ℤ, leb_ℤ, eqb_ℤ, in_int64}

pub record DeductExtraUsageReq : Type 0 where
  pub project_id : String
  pub amount_credits : ℤ
  pub month_window_start : ℤ

-- The WHERE clause of the conditional UPDATE.
unfoldable pub allows : ExtraUsageSettings → ℤ → ℤ → Bool
allows s spent amount =
    (s.bypass_balance_check || s.enabled)
    && ((s.bypass_balance_check || leb_ℤ amount s.balance_credits)
        && (eqb_ℤ s.monthly_limit_credits (pos 0)
            || leb_ℤ (spent +ℤ amount) s.monthly_limit_credits))

-- `classifyDeductFailure` from the settings on; `lookup_failed` is a failure of its second query.
unfoldable pub classify : Bool → ExtraUsageSettings → ℤ → ℤ → LedgerResult
classify lookup_failed s spent amount =
    if not s.bypass_balance_check && not s.enabled
    then not_enabled
    else if not s.bypass_balance_check && ltb_ℤ s.balance_credits amount
    then insufficient_balance
    else if ltb_ℤ (pos 0) s.monthly_limit_credits
    then if lookup_failed
      then db_error
      else if ltb_ℤ s.monthly_limit_credits (spent +ℤ amount)
      then monthly_limit_reached
      else insufficient_balance
    else insufficient_balance

-- The debit and its row.
abbrev pub debit : ℤ → DeductExtraUsageReq → Ledger → ExtraUsageSettings → Ledger
debit now req l s =
    post l (record s { balance_credits = s.balance_credits -ℤ req.amount_credits })
      (record {
        project_id = req.project_id;
        kind = deduction;
        amount_credits = neg req.amount_credits;
        order_id = none;
        created_at = now;
      })

abbrev pub deduct_with :
    (ℕ → Bool) → ℤ → DeductExtraUsageReq → Ledger → Option ExtraUsageSettings → Answer
deduct_with fails now req l none = (not_enabled, l)
deduct_with fails now req l (some s) =
    if allows s (month_spend req.project_id req.month_window_start l.rows) req.amount_credits
    then guard (not (in_int64 (s.balance_credits -ℤ req.amount_credits)) || (fails 2 || fails 3)) l
        (balance (s.balance_credits -ℤ req.amount_credits), debit now req l s)
    else if fails 2
    then (not_enabled, l)
    else (
      classify (fails 3) s (month_spend req.project_id req.month_window_start l.rows)
          req.amount_credits,
      l,
    )

-- `DeductExtraUsage`
unfoldable pub deduct_extra_usage : (ℕ → Bool) → ℤ → DeductExtraUsageReq → Ledger → Answer
deduct_extra_usage fails now req l =
    guard (fails 0 || fails 1) l (deduct_with fails now req l (l.settings req.project_id))

pub record TopUpExtraUsageReq : Type 0 where
  pub project_id : String
  pub amount_credits : ℤ
  pub order_id : String

-- The credit and its row.
abbrev pub credit : ℤ → TopUpExtraUsageReq → Ledger → ExtraUsageSettings → Ledger
credit now req l s =
    post l (record s { balance_credits = s.balance_credits +ℤ req.amount_credits })
      (record {
        project_id = req.project_id;
        kind = topup;
        amount_credits = req.amount_credits;
        order_id = null_string req.order_id;
        created_at = now;
      })

-- From the INSERT on; `taken` is a row that the unique index on the order finds.
unfoldable pub apply_topup : (ℕ → Bool) → ℤ → TopUpExtraUsageReq → Ledger → Bool → Answer
apply_topup fails now req l taken =
    let s = or_default (l.settings req.project_id) in
    guard
      (not (in_int64 (s.balance_credits +ℤ req.amount_credits))
        || (fails 2 || (fails 3 || (taken || fails 4))))
      l (balance (s.balance_credits +ℤ req.amount_credits), credit now req l s)

-- The settings of a row's project, as the JOIN of the fast path finds them.
abbrev pub settings_of : Ledger → Option ExtraUsageTransaction → Option ExtraUsageSettings
settings_of l none = none
settings_of l (some row) = l.settings row.project_id

abbrev pub is_there : Option ExtraUsageTransaction → Bool
is_there none = false
is_there (some row) = true

abbrev pub topup_or_existing :
    (ℕ → Bool) → ℤ → TopUpExtraUsageReq → Ledger → Option ExtraUsageSettings → Answer
topup_or_existing fails now req l (some s) = (balance s.balance_credits, l)
topup_or_existing fails now req l none =
    apply_topup fails now req l (is_there (row_of is_topup req.order_id l.rows))

-- `TopUpExtraUsage`
unfoldable pub top_up_extra_usage : (ℕ → Bool) → ℤ → TopUpExtraUsageReq → Ledger → Answer
top_up_extra_usage fails now req l = guard (fails 0) l (
    if str_eq req.order_id ""
    then apply_topup fails now req l false
    else guard (fails 1) l
        (topup_or_existing fails now req l (settings_of l (row_of is_topup req.order_id l.rows))))

-- The reversal of a top-up and its row.
abbrev pub reverse : ℤ → String → Ledger → ExtraUsageTransaction → ExtraUsageSettings → Ledger
reverse now order l row s =
    post l (record s { balance_credits = s.balance_credits -ℤ row.amount_credits })
      (record {
        project_id = row.project_id;
        kind = refund;
        amount_credits = neg row.amount_credits;
        order_id = some order;
        created_at = now;
      })

abbrev pub refund_with :
    (ℕ → Bool) → ℤ → String → Ledger → ExtraUsageTransaction → Option ExtraUsageSettings → Answer
refund_with fails now order l row none = (db_error, l)
refund_with fails now order l row (some s) =
    guard (not (in_int64 (s.balance_credits -ℤ row.amount_credits)) || (fails 2 || fails 3)) l (
      if is_there (row_of is_refund order l.rows)
      then guard (fails 4) l (balance s.balance_credits, l)
      else guard (fails 4) l
          (balance (s.balance_credits -ℤ row.amount_credits), reverse now order l row s))

abbrev pub refund_row : (ℕ → Bool) → ℤ → String → Ledger → Option ExtraUsageTransaction → Answer
refund_row fails now order l none = (no_topup, l)
refund_row fails now order l (some row) =
    refund_with fails now order l row (l.settings row.project_id)

-- `RefundExtraUsageTopup`
unfoldable pub refund_extra_usage_topup : (ℕ → Bool) → ℤ → String → Ledger → Answer
refund_extra_usage_topup fails now order l =
    guard (fails 0 || fails 1) l (refund_row fails now order l (row_of is_topup order l.rows))

-- `UpsertExtraUsageSettings`
unfoldable pub upsert_extra_usage_settings : String → Bool → ℤ → Ledger → Ledger
upsert_extra_usage_settings project enabled limit l =
    put_settings l project (record (or_default (l.settings project)) {
      enabled = enabled;
      monthly_limit_credits = limit;
    })

-- `SetExtraUsageBypass`
unfoldable pub set_extra_usage_bypass : String → Bool → Ledger → Ledger
set_extra_usage_bypass project bypass l =
    put_settings l project
      (record (or_default (l.settings project)) { bypass_balance_check = bypass })
