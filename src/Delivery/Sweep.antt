-- ===== src/Delivery/Sweep.antt =====
-- `ExpireAndFallbackToFree` of internal/store/subscriptions.go. `time.AddDate` for the hundred years is
-- a parameter.
use modelserver.Prelude.{
  ℕ, suc, String, Bool, true, false, not, ◌&&◌, List, [], ◌∷◌, Option, none, some, keep, length,
  str_eq, if◌then◌else◌,
}
use modelserver.Prelude.Int.{ℤ, ltb_ℤ}
use modelserver.Delivery.Orders.{SubscriptionRow, SoldPlan, in_status, update_subscription_status}

-- The condition of the query: a paid subscription that is active and over.
abbrev pub is_lapsed : ℤ → SubscriptionRow → Bool
is_lapsed now s =
    str_eq s.status "active" && not (str_eq s.plan_name "free") && ltb_ℤ s.expires_at now

-- The statement without a free plan.
unfoldable pub expire_all : ℤ → List SubscriptionRow → List SubscriptionRow
expire_all now [] = []
expire_all now (s ∷ ss) = (if is_lapsed now s then in_status "expired" s else s) ∷ expire_all now ss

-- How many subscriptions are expired, whether a statement has failed, and the table.
pub record Swept : Type 0 where
  pub count : ℕ
  pub failed : Bool
  pub subscriptions : List SubscriptionRow

abbrev pub is_sellable : Option (SoldPlan × Bool) → Option SoldPlan
is_sellable none = none
is_sellable (some (plan, active)) = if active then some plan else none

-- The transactions that fail, by their numbers, the time, the end of the free period, and the ids that
-- the database gives.
module _ (fails : ℕ → Bool) (now free_expiry : ℤ) (new_id : ℕ → String) where
  abbrev pub free_row : SoldPlan → ℕ → SubscriptionRow → SubscriptionRow
  free_row plan n e = record {
    id = new_id n;
    project_id = e.project_id;
    plan_id = plan.id;
    plan_name = plan.slug;
    status = "active";
    starts_at = now;
    expires_at = free_expiry;
    currency = "";
  }

  -- The loop over the lapsed subscriptions, each in a transaction of its own.
  unfoldable pub fall_to_free : SoldPlan → ℕ → List SubscriptionRow → List SubscriptionRow → Swept
  fall_to_free plan n [] ss = record { count = n; failed = false; subscriptions = ss }
  fall_to_free plan n (e ∷ es) ss =
      let rest =
        fall_to_free plan (suc n) es
          (free_row plan n e ∷ update_subscription_status e.id "expired" ss) in
      if fails n then record { count = n; failed = true; subscriptions = ss } else rest

  abbrev expire_only : List SubscriptionRow → Swept
  expire_only ss =
      if fails 0 then record { count = 0; failed = true; subscriptions = ss } else record {
        count = length (keep (is_lapsed now) ss);
        failed = false;
        subscriptions = expire_all now ss;
      }

  abbrev pub with_plan : Option SoldPlan → List SubscriptionRow → Swept
  with_plan none ss = expire_only ss
  with_plan (some plan) ss = fall_to_free plan 0 (keep (is_lapsed now) ss) ss

  -- `ExpireAndFallbackToFree`, for the plan that is looked up, which may be missing or not active.
  unfoldable pub expire_and_fallback_to_free :
      Option (SoldPlan × Bool) → List SubscriptionRow → Swept
  unfolding expire_all fall_to_free
  expire_and_fallback_to_free plan ss = with_plan (is_sellable plan) ss
