-- ===== src/Delivery/Sale.antt =====
-- What a delivery does to the subscriptions of a project, and what a second one answers.
use modelserver.Prelude.{
  ℕ, String, ◌≡◌, ◌≢◌, refl, ap, inl, inr, Bool, true, false, List, [], ◌∷◌, some, some_inj, arith,
  find, str_eq, eq_iff, Bool-cases,
}
use modelserver.Prelude.Int.{ℤ, ◌≤ℤ◌}
use modelserver.Delivery.Orders.{
  Order, SubscriptionRow, SoldPlan, Tables, has_id, of_id, with_status, in_status,
  update_order_status, update_subscription_status, is_running, get_active_subscription,
  delivered_as, sold, deliver_order,
}
use modelserver.Delivery.Once.{find-has_id, find-update_order_status}

find-update_subscription_status :
    (id status : String) (ss : List SubscriptionRow) (s : SubscriptionRow)
    → find (of_id id) ss ≡ some s
    → find (of_id id) (update_subscription_status id status ss) ≡ some (in_status status s)
unfolding update_subscription_status
find-update_subscription_status id status [] s h = cc
find-update_subscription_status id status (x ∷ ss) s h = elim (Bool-cases (of_id id x)) [
  | inl this ↦ rw (this, this) (ap (λ y. some (in_status status y)) (some_inj (rw this at h)))
  | inr other ↦ rw (other, other) (find-update_subscription_status id status ss s (rw other at h))
]

apart_id : (s t : String) → s ≢ t → str_eq s t ≡ false
apart_id s t h = ground (arith, eq_iff s t)

-- An order that is to be delivered, over a subscription that there is.
pub record Due (id new_id : String) (t : Tables) (o : Order) (old : SubscriptionRow) : Type 0 where
  pub ordered : find (has_id id) t.orders ≡ some o
  pub paying : o.status ≡ "paying"
  pub named : o.existing_subscription_id ≢ ""
  pub existing : find (of_id o.existing_subscription_id) t.subscriptions ≡ some old
  pub new : new_id ≢ o.existing_subscription_id

abbrev runs : ℕ → Bool
runs n = false

module _ (add_months : ℤ → ℤ → ℤ) (now : ℤ) (new_id id : String) (plan : SoldPlan) (t : Tables)
    (o : Order) (old : SubscriptionRow) (due : Due id new_id t o old) where
  -- The tables after the delivery.
  abbrev after : Tables
  after = record {
    orders = update_order_status id "delivered" t.orders;
    subscriptions =
        sold add_months runs now new_id plan o old
        ∷ update_subscription_status o.existing_subscription_id "revoked" t.subscriptions;
  }

  deliver_order-after :
      deliver_order add_months runs now new_id id plan t
      ≡ (delivered_as (sold add_months runs now new_id plan o old), after)
  unfolding deliver_order
  deliver_order-after =
      let open_ : str_eq o.status "delivered" ≡ false = rw (due.paying) refl in
      let pays : str_eq o.status "paying" ≡ true = rw (due.paying) refl in
      rw
        (
          due.ordered,
          open_,
          pays,
          apart_id o.existing_subscription_id "" (due.named),
          due.existing,
          find-has_id id t.orders o (due.ordered),
        )
        refl

  new_runs :
      now ≤ℤ (sold add_months runs now new_id plan o old).expires_at
      → is_running now o.project_id (sold add_months runs now new_id plan o old) ≡ true
  new_runs h = ground (arith, eq_iff o.project_id o.project_id)

  old_revoked :
      find (of_id o.existing_subscription_id) after.subscriptions ≡ some (in_status "revoked" old)
  old_revoked = rw (apart_id new_id o.existing_subscription_id (due.new)) (
      find-update_subscription_status o.existing_subscription_id "revoked" t.subscriptions old
        (due.existing))

  -- The delivery of a paying order over a subscription, no statement failing and the new period not
  -- over yet, answers with the new subscription, which then is the active one of the project; the old
  -- one is revoked, and the order is delivered. The new row has
  -- another id than the old one.
  pub deliver_order-Active :
      now ≤ℤ (sold add_months runs now new_id plan o old).expires_at
      → let r = deliver_order add_months runs now new_id id plan t in
        (r.0 ≡ delivered_as (sold add_months runs now new_id plan o old))
        × (get_active_subscription now o.project_id r.1.subscriptions
            ≡ some (sold add_months runs now new_id plan o old))
        × (find (of_id o.existing_subscription_id) r.1.subscriptions
            ≡ some (in_status "revoked" old))
        × (find (has_id id) r.1.orders ≡ some (with_status "delivered" o))
  unfolding get_active_subscription
  deliver_order-Active h = rw deliver_order-after (
    refl,
    rw (new_runs h) refl,
    old_revoked,
    find-update_order_status id "delivered" t.orders o (due.ordered),
  )

  -- A second delivery of the order, no statement failing, answers with the old subscription, which the
  -- first has revoked, and not with the new one.
  pub deliver_order-again :
      (later : ℤ) (other_id : String) (other : SoldPlan)
      → (deliver_order add_months runs later other_id id other
          (deliver_order add_months runs now new_id id plan t).1).0
        ≡ delivered_as (in_status "revoked" old)
  unfolding deliver_order
  deliver_order-again later other_id other =
      let stored = find-update_order_status id "delivered" t.orders o (due.ordered) in
      rw
        (
          deliver_order-after,
          stored,
          apart_id o.existing_subscription_id "" (due.named),
          old_revoked,
        )
        refl
