-- ===== src/Delivery/Orders.antt =====
-- Orders and subscriptions: internal/store/orders.go and subscriptions.go. A table is the list of its
-- rows, the newest first; a statement reads and writes whole rows, and the statements of a transaction
-- fail by their numbers. `time.AddDate` is a parameter for months.
use modelserver.Prelude.{
  ℕ, String, Bool, true, false, not, ◌&&◌, ◌||◌, List, [], ◌∷◌, Option, none, some, find, any,
  str_eq, if◌then◌else◌,
}
use modelserver.Prelude.Int.{ℤ, ◌*ℤ◌, leb_ℤ}

-- The columns of `orders` that delivery reads.
pub record Order : Type 0 where
  pub id : String
  pub project_id : String
  pub periods : ℤ
  pub currency : String
  pub status : String
  pub existing_subscription_id : String

pub record SubscriptionRow : Type 0 where
  pub id : String
  pub project_id : String
  pub plan_id : String
  pub plan_name : String
  pub status : String
  pub starts_at : ℤ
  pub expires_at : ℤ
  pub currency : String

-- The fields of `Plan` that a sale reads.
pub record SoldPlan : Type 0 where
  pub id : String
  pub slug : String
  pub period_months : ℤ

pub record Tables : Type 0 where
  pub orders : List Order
  pub subscriptions : List SubscriptionRow

abbrev pub has_id : String → Order → Bool
has_id id o = str_eq o.id id

abbrev pub of_id : String → SubscriptionRow → Bool
of_id id s = str_eq s.id id

abbrev pub with_status : String → Order → Order
with_status status o = record o { status = status }

-- `UpdateOrderStatus`
unfoldable pub update_order_status : String → String → List Order → List Order
update_order_status id status [] = []
update_order_status id status (o ∷ os) =
    (if has_id id o then with_status status o else o) ∷ update_order_status id status os

abbrev pub in_status : String → SubscriptionRow → SubscriptionRow
in_status status s = record s { status = status }

-- `UpdateSubscriptionStatus`
unfoldable pub update_subscription_status :
    String → String → List SubscriptionRow → List SubscriptionRow
update_subscription_status id status [] = []
update_subscription_status id status (s ∷ ss) =
    (if of_id id s then in_status status s else s) ∷ update_subscription_status id status ss

abbrev pub is_running : ℤ → String → SubscriptionRow → Bool
is_running now project s =
    str_eq s.project_id project
    && str_eq s.status "active"
    && leb_ℤ s.starts_at now
    && leb_ℤ now s.expires_at

-- `GetActiveSubscription`
unfoldable pub get_active_subscription : ℤ → String → List SubscriptionRow → Option SubscriptionRow
get_active_subscription now project ss = find (is_running now project) ss

-- `CancelOrder`
unfoldable pub cancel_order : String → List Order → Bool × List Order
unfolding update_order_status
cancel_order id os = elim (find (has_id id) os) [
  | none ↦ (false, os)
  | some o ↦
      if str_eq o.status "pending" || str_eq o.status "paying"
      then (true, update_order_status id "cancelled" os)
      else (false, os)
]

-- `HasPayingOrder`
unfoldable pub has_paying_order : String → List Order → Bool
has_paying_order project os = any (λ o. str_eq o.project_id project && str_eq o.status "paying") os

pub data Delivery : Type 0 where
  delivered_as : SubscriptionRow → Delivery
  undelivered : Delivery

-- The months, the statements that fail, the time, and the id that the database gives a new row.
module _ (add_months : ℤ → ℤ → ℤ) (fails : ℕ → Bool) (now : ℤ) (new_id : String) where
  abbrev or_undelivered : Option SubscriptionRow → Delivery
  or_undelivered none = undelivered
  or_undelivered (some s) = delivered_as s

  abbrev active_one : Order → Tables → Delivery
  active_one o t =
      if fails 3
      then undelivered
      else or_undelivered (get_active_subscription now o.project_id t.subscriptions)

  abbrev existing_or_active : Order → Tables → Option SubscriptionRow → Delivery
  existing_or_active o t none = active_one o t
  existing_or_active o t (some s) = delivered_as s

  -- The answer for an order that was delivered before.
  abbrev pub redelivered : Order → Tables → Delivery
  redelivered o t =
      if not (str_eq o.existing_subscription_id "") && not (fails 2)
      then existing_or_active o t (find (of_id o.existing_subscription_id) t.subscriptions)
      else active_one o t

  -- The subscription that an order buys, over the one that there is.
  abbrev pub sold : SoldPlan → Order → SubscriptionRow → SubscriptionRow
  sold plan o old = record {
    id = new_id;
    project_id = o.project_id;
    plan_id = plan.id;
    plan_name = plan.slug;
    status = "active";
    starts_at = now;
    expires_at =
        add_months (if str_eq old.plan_name plan.slug then old.expires_at else now)
          (plan.period_months *ℤ o.periods);
    currency = o.currency;
  }

  abbrev pub deliver_over : SoldPlan → Order → Tables → Option SubscriptionRow → Delivery × Tables
  deliver_over plan o t none = (undelivered, t)
  deliver_over plan o t (some old) =
      if fails 3 || fails 4 || fails 5 || fails 6 then (undelivered, t) else (
        delivered_as (sold plan o old),
        record {
          orders = update_order_status o.id "delivered" t.orders;
          subscriptions =
              sold plan o old
              ∷ update_subscription_status o.existing_subscription_id "revoked" t.subscriptions;
        },
      )

  abbrev pub deliver_found : SoldPlan → Tables → Option Order → Delivery × Tables
  deliver_found plan t none = (undelivered, t)
  deliver_found plan t (some o) =
      if str_eq o.status "delivered"
      then (redelivered o t, t)
      else if not (str_eq o.status "paying") || str_eq o.existing_subscription_id "" || fails 2
      then (undelivered, t)
      else deliver_over plan o t (find (of_id o.existing_subscription_id) t.subscriptions)

  -- `DeliverOrder`
  unfoldable pub deliver_order : String → SoldPlan → Tables → Delivery × Tables
  deliver_order id plan t =
      if fails 0 || fails 1
      then (undelivered, t)
      else deliver_found plan t (find (has_id id) t.orders)
