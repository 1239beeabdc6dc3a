-- ===== src/Delivery/Once.antt =====
-- An order is delivered once.
use mathlib.Core.Path.{subst}
use modelserver.Prelude.{
  ℕ, String, ◌≡◌, refl, ap, inl, inr, Bool, not, ◌||◌, List, [], ◌∷◌, Option, none, some, some_inj,
  find, str_eq, eq_iff, Bool-cases,
}
use modelserver.Prelude.Int.{ℤ}
use modelserver.Delivery.Orders.{
  Order, SubscriptionRow, SoldPlan, Tables, has_id, with_status, update_order_status, delivered_as,
  deliver_over, deliver_found, deliver_order,
}

pub find-has_id :
    (id : String) (os : List Order) (o : Order) → find (has_id id) os ≡ some o → o.id ≡ id
find-has_id id [] o h = cc
find-has_id id (x ∷ os) o h = elim (Bool-cases (has_id id x)) [
  | inl this ↦ subst (λ y. y.id ≡ id) (some_inj (rw this at h)) ((eq_iff x.id id).0 this)
  | inr other ↦ find-has_id id os o (rw other at h)
]

pub find-update_order_status :
    (id status : String) (os : List Order) (o : Order)
    → find (has_id id) os ≡ some o
    → find (has_id id) (update_order_status id status os) ≡ some (with_status status o)
unfolding update_order_status
find-update_order_status id status [] o h = cc
find-update_order_status id status (x ∷ os) o h = elim (Bool-cases (has_id id x)) [
  | inl this ↦ rw (this, this) (ap (λ y. some (with_status status y)) (some_inj (rw this at h)))
  | inr other ↦ rw (other, other) (find-update_order_status id status os o (rw other at h))
]

-- The order has been delivered.
abbrev pub IsDelivered : String → Tables → Type 0
IsDelivered id t = (o : Order) × (find (has_id id) t.orders ≡ some o) × (o.status ≡ "delivered")

module _ (add_months : ℤ → ℤ → ℤ) (fails : ℕ → Bool) (now : ℤ) (new_id id : String)
    (plan : SoldPlan) where
  deliver_over-IsDelivered :
      (o : Order) (t : Tables) (old : Option SubscriptionRow) (s : SubscriptionRow)
      → find (has_id id) t.orders ≡ some o
      → (deliver_over add_months fails now new_id plan o t old).0 ≡ delivered_as s
      → IsDelivered id (deliver_over add_months fails now new_id plan o t old).1
  deliver_over-IsDelivered o t none s e h = cc
  deliver_over-IsDelivered o t (some old) s e h =
      elim (Bool-cases (fails 3 || fails 4 || fails 5 || fails 6)) [
        | inl failed ↦ cc (rw failed at h)
        | inr runs ↦
            rw (runs, find-has_id id t.orders o e)
              (
                with_status "delivered" o,
                find-update_order_status id "delivered" t.orders o e,
                refl,
              )
      ]

  deliver_found-IsDelivered :
      (t : Tables) (found : Option Order) (s : SubscriptionRow)
      → find (has_id id) t.orders ≡ found
      → (deliver_found add_months fails now new_id plan t found).0 ≡ delivered_as s
      → IsDelivered id (deliver_found add_months fails now new_id plan t found).1
  deliver_found-IsDelivered t none s e h = cc
  deliver_found-IsDelivered t (some o) s e h = elim (Bool-cases (str_eq o.status "delivered")) [
    | inl before ↦ rw before (o, e, (eq_iff o.status "delivered").0 before)
    | inr open_ ↦
        elim (Bool-cases
          (not (str_eq o.status "paying") || str_eq o.existing_subscription_id "" || fails 2)) [
            | inl out ↦ cc (rw (open_, out) at h)
            | inr due ↦ rw (open_, due) (deliver_over-IsDelivered o t _ s e (rw (open_, due) at h))
          ]
  ]

  deliver_order-IsDelivered :
      (t : Tables) (s : SubscriptionRow)
      → (deliver_order add_months fails now new_id id plan t).0 ≡ delivered_as s
      → IsDelivered id (deliver_order add_months fails now new_id id plan t).1
  unfolding deliver_order
  deliver_order-IsDelivered t s h = elim (Bool-cases (fails 0 || fails 1)) [
    | inl failed ↦ cc (rw failed at h)
    | inr runs ↦ rw runs (deliver_found-IsDelivered t _ s refl (rw runs at h))
  ]

  IsDelivered-again :
      (t : Tables) → IsDelivered id t → (deliver_order add_months fails now new_id id plan t).1 ≡ t
  unfolding deliver_order
  IsDelivered-again t (o, e, done) = elim (Bool-cases (fails 0 || fails 1)) [
    | inl failed ↦ rw failed refl
    | inr runs ↦ rw (runs, e, done) refl
  ]

-- After a delivery of an order that answers with a subscription, every further delivery of it, at
-- whatever time, with whatever plan and whatever statements failing, leaves the tables as they are.
pub deliver_order-once :
    (add_months : ℤ → ℤ → ℤ) (fails again : ℕ → Bool) (now later : ℤ) (new_id other_id id : String)
    (plan other : SoldPlan) (t : Tables) (s : SubscriptionRow)
    → (deliver_order add_months fails now new_id id plan t).0 ≡ delivered_as s
    → (deliver_order add_months again later other_id id other
        (deliver_order add_months fails now new_id id plan t).1).1
      ≡ (deliver_order add_months fails now new_id id plan t).1
deliver_order-once add_months fails again now later new_id other_id id plan other t s h =
    IsDelivered-again add_months again later other_id id other _
      (deliver_order-IsDelivered add_months fails now new_id id plan t s h)
