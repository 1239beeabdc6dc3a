-- ===== src/Delivery/Tests.antt =====
-- The delivery of an order for a month, and the theorems at it.
use modelserver.Prelude.{
  ℕ, ◌≡◌, refl, Bool, true, false, [], ◌∷◌, some, Option, find, arith, eq_iff,
}
use modelserver.Prelude.Int.{ℤ, pos, ◌+ℤ◌, ◌*ℤ◌}
use modelserver.Delivery.Orders.{
  Order, SubscriptionRow, SoldPlan, Tables, has_id, of_id, with_status, in_status,
  get_active_subscription, delivered_as, sold, deliver_order,
}
use modelserver.Delivery.Once.{deliver_order-once}
use modelserver.Delivery.Sale.{Due, deliver_order-Active, deliver_order-again}

-- A month has 30 days.
abbrev add_months : ℤ → ℤ → ℤ
add_months t n = t +ℤ (pos 30 *ℤ n)

abbrev runs : ℕ → Bool
runs n = false

abbrev pro : SoldPlan
pro = record { id = "plan1"; slug = "pro"; period_months = pos 1 }

abbrev order : Order
order = record {
  id = "o1";
  project_id = "p1";
  periods = pos 2;
  currency = "CNY";
  status = "paying";
  existing_subscription_id = "s1";
}

abbrev free : SubscriptionRow
free = record {
  id = "s1";
  project_id = "p1";
  plan_id = "plan0";
  plan_name = "free";
  status = "active";
  starts_at = pos 1;
  expires_at = pos 9000;
  currency = "";
}

abbrev tables : Tables
tables = record { orders = order ∷ []; subscriptions = free ∷ [] }

abbrev bought : SubscriptionRow
bought = sold add_months runs (pos 100) "s2" pro order free

due : Due "o1" "s2" tables order free
due = record {
  ordered = refl;
  paying = refl;
  named = λ h. ground (arith, eq_iff "s1" "");
  existing = refl;
  new = λ h. ground (arith, eq_iff "s2" "s1");
}

abbrev first : Tables
first = (deliver_order add_months runs (pos 100) "s2" "o1" pro tables).1

deliver_order-Active_example :
    ((deliver_order add_months runs (pos 100) "s2" "o1" pro tables).0 ≡ delivered_as bought)
    × (get_active_subscription (pos 100) "p1" first.subscriptions ≡ some bought)
    × (find (of_id "s1") first.subscriptions ≡ some (in_status "revoked" free))
    × (find (has_id "o1") first.orders ≡ some (with_status "delivered" order))
unfolding ◌+ℤ◌ ◌*ℤ◌
deliver_order-Active_example =
    deliver_order-Active add_months (pos 100) "s2" "o1" pro tables order free due (ground arith)

deliver_order-again_example :
    (deliver_order add_months runs (pos 101) "s3" "o1" pro first).0
    ≡ delivered_as (in_status "revoked" free)
deliver_order-again_example =
    deliver_order-again add_months (pos 100) "s2" "o1" pro tables order free due (pos 101) "s3" pro

first_answer :
    (deliver_order add_months runs (pos 100) "s2" "o1" pro tables).0 ≡ delivered_as bought
unfolding deliver_order
first_answer = refl

deliver_order-once_example : (deliver_order add_months runs (pos 101) "s3" "o1" pro first).1 ≡ first
deliver_order-once_example =
    deliver_order-once add_months runs runs (pos 100) (pos 101) "s2" "s3" "o1" pro pro tables bought
      first_answer

-- A paid subscription that is over, and the free plan.
abbrev over : SubscriptionRow
over = record free { id = "s7"; plan_name = "pro"; expires_at = pos 50 }

abbrev free_plan : SoldPlan
free_plan = record { id = "plan0"; slug = "free"; period_months = pos 0 }

abbrev looked_up : Option (SoldPlan × Bool)
looked_up = some (free_plan, true)
