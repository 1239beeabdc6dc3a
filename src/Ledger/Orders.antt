-- ===== src/Ledger/Orders.antt =====
-- About `TopUpExtraUsage` and `RefundExtraUsageTopup`, called again for one order.
use mathlib.Core.Path.{subst}
use modelserver.Prelude.{
  ℕ, String, ◌≡◌, ◌≢◌, refl, sym, ◌∙◌, inl, inr, Bool, true, false, ◌||◌, not, Option, none, some,
  arith, str_eq, eq_iff, Bool-cases, Option-cases, if◌then◌else◌,
}
use modelserver.Prelude.Int.{ℤ, ◌+ℤ◌, ◌-ℤ◌, in_int64}
use modelserver.Ledger.Accounts.{
  ExtraUsageSettings, ExtraUsageTransaction, Ledger, Answer, balance, or_default, guard,
  TopUpExtraUsageReq, apply_topup, top_up_extra_usage, settings_of, is_there, is_topup, is_refund,
  row_of, refund_with, refund_extra_usage_topup, credit, reverse,
}
use modelserver.Ledger.Deduct.{guard-balance}

not_empty : (s : String) → s ≢ "" → str_eq s "" ≡ false
not_empty s h = ground (arith, eq_iff s "")

eq_test : (s : String) → str_eq s s ≡ true
eq_test s = ground (arith, eq_iff s s)

-- The order has a top-up whose project has settings.
abbrev pub ToppedUp : String → Ledger → Type 0
ToppedUp order l =
    (s : ExtraUsageSettings) × (settings_of l (row_of is_topup order l.rows) ≡ some s)

guard-same : (failed : Bool) (l : Ledger) (next : Answer) → next.1 ≡ l → (guard failed l next).1 ≡ l
guard-same true l next h = refl
guard-same false l next h = h

ToppedUp-again :
    (fails : ℕ → Bool) (now : ℤ) (req : TopUpExtraUsageReq) (l : Ledger)
    → req.order_id ≢ ""
    → ToppedUp req.order_id l
    → (top_up_extra_usage fails now req l).1 ≡ l
unfolding top_up_extra_usage
ToppedUp-again fails now req l named (s, there) =
    rw (not_empty req.order_id named, there)
      (guard-same (fails 0) l _ (guard-same (fails 1) l _ refl))

credit-ToppedUp :
    (now : ℤ) (req : TopUpExtraUsageReq) (l : Ledger) (s : ExtraUsageSettings)
    → req.order_id ≢ ""
    → ToppedUp req.order_id (credit now req l s)
unfolding row_of
credit-ToppedUp now req l s named =
    rw (not_empty req.order_id named, eq_test req.order_id, eq_test req.project_id) (_, refl)

apply_topup-ToppedUp :
    (fails : ℕ → Bool) (now : ℤ) (req : TopUpExtraUsageReq) (l : Ledger) (taken : Bool) (b : ℤ)
    → req.order_id ≢ ""
    → (apply_topup fails now req l taken).0 ≡ balance b
    → ToppedUp req.order_id (apply_topup fails now req l taken).1
unfolding apply_topup
apply_topup-ToppedUp fails now req l taken b named h =
    let s = or_default (l.settings req.project_id) in
    let passed =
      guard-balance
        (not (in_int64 (s.balance_credits +ℤ req.amount_credits))
          || (fails 2 || (fails 3 || (taken || fails 4))))
        l (balance (s.balance_credits +ℤ req.amount_credits), credit now req l s) b h in
    rw passed (credit-ToppedUp now req l s named)

top_up-ToppedUp :
    (fails : ℕ → Bool) (now : ℤ) (req : TopUpExtraUsageReq) (l : Ledger) (b : ℤ)
    → req.order_id ≢ ""
    → (top_up_extra_usage fails now req l).0 ≡ balance b
    → ToppedUp req.order_id (top_up_extra_usage fails now req l).1
unfolding top_up_extra_usage
top_up-ToppedUp fails now req l b named h =
    let begun = guard-balance (fails 0) l _ b h in
    let fresh = not_empty req.order_id named in
    let looked = guard-balance (fails 1) l _ b (rw (begun, fresh) at h) in
    elim (Option-cases (settings_of l (row_of is_topup req.order_id l.rows))) [
      | inr (s, done) ↦ rw (begun, fresh, looked, done) (s, done)
      | inl missing ↦
          rw (begun, fresh, looked, missing)
            (apply_topup-ToppedUp fails now req l _ b named
              (rw (begun, fresh, looked, missing) at h))
    ]

-- A named order tops up once: after a top-up for it that answers with a balance, every further top-up
-- for it, with whatever amount and project and whatever statements failing, leaves the tables as they
-- are.
pub top_up_extra_usage-once :
    (fails again : ℕ → Bool) (now later : ℤ) (req repeat : TopUpExtraUsageReq) (l : Ledger) (b : ℤ)
    → req.order_id ≢ ""
    → repeat.order_id ≡ req.order_id
    → (top_up_extra_usage fails now req l).0 ≡ balance b
    → (top_up_extra_usage again later repeat (top_up_extra_usage fails now req l).1).1
      ≡ (top_up_extra_usage fails now req l).1
top_up_extra_usage-once fails again now later req repeat l b named same h =
    ToppedUp-again again later repeat _ (λ e. named (sym same ∙ e))
      (subst (λ o. ToppedUp o (top_up_extra_usage fails now req l).1) (sym same)
        (top_up-ToppedUp fails now req l b named h))

abbrev pub Refunded : String → Ledger → Type 0
Refunded order l = is_there (row_of is_refund order l.rows) ≡ true

Refunded-again :
    (fails : ℕ → Bool) (now : ℤ) (order : String) (l : Ledger)
    → Refunded order l
    → (refund_extra_usage_topup fails now order l).1 ≡ l
unfolding refund_extra_usage_topup
Refunded-again fails now order l done =
    guard-same (fails 0 || fails 1) l _ elim (Option-cases (row_of is_topup order l.rows)) [
      | inl never ↦ rw never refl
      | inr (row, there) ↦ elim (Option-cases (l.settings row.project_id)) [
        | inl missing ↦ rw (there, missing) refl
        | inr (s, found) ↦
            rw (there, found, done) (guard-same _ l _ (guard-same (fails 4) l _ refl))
      ]
    ]

reverse-Refunded :
    (now : ℤ) (order : String) (l : Ledger) (row : ExtraUsageTransaction) (s : ExtraUsageSettings)
    → Refunded order (reverse now order l row s)
unfolding row_of
reverse-Refunded now order l row s = rw (eq_test order) refl

refund_with-Refunded :
    (fails : ℕ → Bool) (now : ℤ) (order : String) (l : Ledger) (row : ExtraUsageTransaction)
    (o : Option ExtraUsageSettings) (b : ℤ)
    → (refund_with fails now order l row o).0 ≡ balance b
    → Refunded order (refund_with fails now order l row o).1
refund_with-Refunded fails now order l row none b h = absurd (ground arith)
refund_with-Refunded fails now order l row (some s) b h =
    let passed =
      guard-balance
        (not (in_int64 (s.balance_credits -ℤ row.amount_credits)) || (fails 2 || fails 3)) l
        (if is_there (row_of is_refund order l.rows)
          then guard (fails 4) l (balance s.balance_credits, l)
          else guard (fails 4) l
              (balance (s.balance_credits -ℤ row.amount_credits), reverse now order l row s))
        b h in
    elim (Bool-cases (is_there (row_of is_refund order l.rows))) [
      | inl done ↦
          let read = guard-balance (fails 4) l _ b (rw (passed, done) at h) in
          rw (passed, done, read) done
      | inr first ↦
          let committed = guard-balance (fails 4) l _ b (rw (passed, first) at h) in
          rw (passed, first, committed) (reverse-Refunded now order l row s)
    ]

refund-Refunded :
    (fails : ℕ → Bool) (now : ℤ) (order : String) (l : Ledger) (b : ℤ)
    → (refund_extra_usage_topup fails now order l).0 ≡ balance b
    → Refunded order (refund_extra_usage_topup fails now order l).1
unfolding refund_extra_usage_topup
refund-Refunded fails now order l b h =
    let begun = guard-balance (fails 0 || fails 1) l _ b h in
    elim (Option-cases (row_of is_topup order l.rows)) [
      | inl never ↦ absurd (ground (arith, (rw (begun, never) at h)))
      | inr (row, there) ↦
          rw (begun, there)
            (refund_with-Refunded fails now order l row (l.settings row.project_id) b
              (rw (begun, there) at h))
    ]

-- An order is refunded once: after a refund of it that answers with a balance, every further refund of
-- it, whatever statements fail, leaves the tables as they are.
pub refund_extra_usage_topup-once :
    (fails again : ℕ → Bool) (now later : ℤ) (order : String) (l : Ledger) (b : ℤ)
    → (refund_extra_usage_topup fails now order l).0 ≡ balance b
    → (refund_extra_usage_topup again later order (refund_extra_usage_topup fails now order l).1).1
      ≡ (refund_extra_usage_topup fails now order l).1
refund_extra_usage_topup-once fails again now later order l b h =
    Refunded-again again later order _ (refund-Refunded fails now order l b h)
