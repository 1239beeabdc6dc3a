-- ===== src/Delivery/Lapsed.antt =====
-- The sweep leaves no paid subscription active that is over.
use modelserver.Prelude.{ℕ, String, ◌≡◌, Bool, true, false, List, map, All, contains}
use modelserver.Prelude.Int.{ℤ}
use modelserver.Delivery.Orders.{SubscriptionRow, SoldPlan}
use modelserver.Delivery.Sweep.{is_lapsed}

abbrev row_ids : List SubscriptionRow → List String
row_ids ss = map (λ s. s.id) ss

-- Every lapsed row is one of those that are still to be expired.
abbrev Covered : ℤ → List String → SubscriptionRow → Type 0
Covered now ids s = is_lapsed now s ≡ true → contains ids s.id ≡ true

-- No row is lapsed.
abbrev pub IsClear : ℤ → List SubscriptionRow → Type 0
IsClear now ss = All (λ s. is_lapsed now s ≡ false) ss

module _ (now free_expiry : ℤ) (new_id : ℕ → String) (plan : SoldPlan)
    (free : plan.slug ≡ "free") where
  abbrev runs : ℕ → Bool
  runs n = false
