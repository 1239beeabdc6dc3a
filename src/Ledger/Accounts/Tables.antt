-- ===== src/Ledger/Accounts/Tables.antt =====
-- The tables of extra usage, internal/store/extra_usage.go and internal/types/extra_usage.go, with
-- their reads and writes: the settings as a function of the project, and the ledger rows as a list, the
-- newest first. The texts of a row and its time of update are left out.
use modelserver.Prelude.{
  String, Bool, true, false, ◌&&◌, List, [], ◌∷◌, Option, none, some, str_eq, if◌then◌else◌,
}
use modelserver.Prelude.Int.{ℤ, pos, ◌+ℤ◌, neg, leb_ℤ}

pub record ExtraUsageSettings : Type 0 where
  pub enabled : Bool
  pub balance_credits : ℤ
  pub monthly_limit_credits : ℤ
  pub bypass_balance_check : Bool

pub data Kind : Type 0 where
  deduction : Kind
  topup : Kind
  refund : Kind

-- `none` is an order id that is NULL, as `nullString` makes of an empty one.
pub record ExtraUsageTransaction : Type 0 where
  pub project_id : String
  pub kind : Kind
  pub amount_credits : ℤ
  pub order_id : Option String
  pub created_at : ℤ

pub record Ledger : Type 0 where
  pub settings : String → Option ExtraUsageSettings
  pub rows : List ExtraUsageTransaction

-- A balance, or one of the errors.
pub data LedgerResult : Type 0 where
  balance : ℤ → LedgerResult
  not_enabled : LedgerResult
  insufficient_balance : LedgerResult
  monthly_limit_reached : LedgerResult
  no_topup : LedgerResult
  db_error : LedgerResult

abbrev pub Answer : Type 0
Answer = LedgerResult × Ledger

-- The columns' defaults.
abbrev pub default_settings : ExtraUsageSettings
default_settings = record {
  enabled = false;
  balance_credits = pos 0;
  monthly_limit_credits = pos 0;
  bypass_balance_check = false;
}

abbrev pub or_default : Option ExtraUsageSettings → ExtraUsageSettings
or_default none = default_settings
or_default (some s) = s

abbrev pub put_settings : Ledger → String → ExtraUsageSettings → Ledger
put_settings l project s = record l {
  settings = λ p. if str_eq project p then some s else l.settings p;
}

-- A write of the settings and a new row.
abbrev pub post : Ledger → ExtraUsageSettings → ExtraUsageTransaction → Ledger
post l s row = record (put_settings l row.project_id s) { rows = row ∷ l.rows }

abbrev pub null_string : String → Option String
null_string s = if str_eq s "" then none else some s

abbrev pub is_deduction : Kind → Bool
is_deduction deduction = true
is_deduction topup = false
is_deduction refund = false

abbrev pub is_topup : Kind → Bool
is_topup deduction = false
is_topup topup = true
is_topup refund = false

abbrev pub is_refund : Kind → Bool
is_refund deduction = false
is_refund topup = false
is_refund refund = true

abbrev pub has_order : String → Option String → Bool
has_order order none = false
has_order order (some o) = str_eq o order

-- What a project has spent since an instant.
unfoldable pub month_spend : String → ℤ → List ExtraUsageTransaction → ℤ
month_spend project start [] = pos 0
month_spend project start (row ∷ rows) =
    (if str_eq row.project_id project && (is_deduction row.kind && leb_ℤ start row.created_at)
      then neg row.amount_credits
      else pos 0)
    +ℤ month_spend project start rows

-- `GetMonthlyExtraSpendCredits`
abbrev pub monthly_extra_spend : Ledger → String → ℤ → ℤ
monthly_extra_spend l project start = month_spend project start l.rows

-- The first row of an order that passes a test of its kind.
unfoldable pub row_of :
    (Kind → Bool) → String → List ExtraUsageTransaction → Option ExtraUsageTransaction
row_of is order [] = none
row_of is order (row ∷ rows) =
    if is row.kind && has_order order row.order_id then some row else row_of is order rows

-- A statement that fails ends the call, with the tables as they were.
abbrev pub guard : Bool → Ledger → Answer → Answer
guard failed l next = if failed then (db_error, l) else next
