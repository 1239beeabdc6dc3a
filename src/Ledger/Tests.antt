-- ===== src/Ledger/Tests.antt =====
-- Runs of the ledger, and the theorems at them.
use modelserver.Prelude.{
  ℕ, String, ◌≡◌, ◌≢◌, refl, Bool, true, false, List, [], ◌∷◌, some, arith, eq_iff,
}
use modelserver.Prelude.Int.{pos, ◌+ℤ◌, ◌-ℤ◌}
use modelserver.Ledger.Accounts.{
  ExtraUsageSettings, Ledger, DeductExtraUsageReq, TopUpExtraUsageReq, topup, deduct_extra_usage,
  top_up_extra_usage, refund_extra_usage_topup, apply_topup, row_of,
}
use modelserver.Ledger.Balance.{
  Balanced, Call, deducts, tops_up, refunds, upserts, calls, empty_ledger, calls-Balanced, row_sum,
}
use modelserver.Ledger.Deduct.{Decided, deduct_extra_usage-Decided}
use modelserver.Ledger.Orders.{top_up_extra_usage-once, refund_extra_usage_topup-once}

abbrev runs : ℕ → Bool
runs n = false

abbrev order_1 : TopUpExtraUsageReq
order_1 = record { project_id = "p1"; amount_credits = pos 50; order_id = "o1" }

abbrev spend_20 : DeductExtraUsageReq
spend_20 = record { project_id = "p1"; amount_credits = pos 20; month_window_start = pos 5 }

empty_ledger-Balanced : Balanced empty_ledger
unfolding row_sum
empty_ledger-Balanced project = refl

abbrev history : List Call
history =
    tops_up runs (pos 6) order_1
    ∷ upserts "p1" true (pos 100)
    ∷ deducts runs (pos 7) spend_20
    ∷ refunds runs (pos 8) "o1"
    ∷ []

calls-Balanced_example : Balanced (calls history empty_ledger)
calls-Balanced_example = calls-Balanced history empty_ledger empty_ledger-Balanced

abbrev settings_50 : ExtraUsageSettings
settings_50 = record {
  enabled = true;
  balance_credits = pos 50;
  monthly_limit_credits = pos 100;
  bypass_balance_check = false;
}

abbrev funded : Ledger
funded = record {
  settings = λ p. some settings_50;
  rows =
      record {
        project_id = "p1";
        kind = topup;
        amount_credits = pos 50;
        order_id = some "o1";
        created_at = pos 6;
      }
      ∷ [];
}

deduct_extra_usage-Decided_example :
    Decided
      (pos 7)
      spend_20
      funded
      settings_50
      (deduct_extra_usage (λ n. false) (pos 7) spend_20 funded)
unfolding ◌-ℤ◌
deduct_extra_usage-Decided_example =
    deduct_extra_usage-Decided (pos 7) spend_20 funded settings_50 refl refl

order_named : ◌≢◌ {A = String} "o1" ""
order_named h = ground (arith, eq_iff "o1" "")

top_up_extra_usage-once_example :
    (top_up_extra_usage runs
      (pos 9)
      order_1
      (top_up_extra_usage runs (pos 6) order_1 empty_ledger).1).1
    ≡ (top_up_extra_usage runs (pos 6) order_1 empty_ledger).1
unfolding top_up_extra_usage apply_topup row_of ◌+ℤ◌
top_up_extra_usage-once_example =
    top_up_extra_usage-once runs runs (pos 6) (pos 9) order_1 order_1 empty_ledger (pos 50)
      order_named refl refl

refund_extra_usage_topup-once_example :
    (refund_extra_usage_topup runs
      (pos 9)
      "o1"
      (refund_extra_usage_topup runs (pos 8) "o1" funded).1).1
    ≡ (refund_extra_usage_topup runs (pos 8) "o1" funded).1
unfolding refund_extra_usage_topup row_of ◌-ℤ◌
refund_extra_usage_topup-once_example =
    refund_extra_usage_topup-once runs runs (pos 8) (pos 9) "o1" funded (pos 0) refl
