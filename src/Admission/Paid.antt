-- ===== src/Admission/Paid.antt =====
-- At whose cost a request reaches the handler.
use modelserver.Prelude.{
  String, ◌≡◌, ◌≢◌, refl, ap, ◌⊎◌, inl, inr, true, false, Option, none, some, arith, Bool-cases,
  Option-cases,
}
use modelserver.Prelude.Int.{ℤ, pos, ltb_ℤ, ◌≤ℤ◌, ◌<ℤ◌}
use modelserver.Ratelimit.Windows.{TimeLib}
use modelserver.Ratelimit.Composite.{Floats, CreditStore, Limiter}
use modelserver.Ledger.Accounts.{ExtraUsageSettings}
use modelserver.Admission.Gates.{Caller, Gate, pass, limited, gate_panicked}
use modelserver.Admission.Guards.{
  ExtraUsageContext, ExtraUsageConfig, GuardStore, Guard, unguarded, approved, rejected,
  extra_usage_guard, plain, on_extra_usage, guard_settings, guard_month, with_spent, guard_lookup,
  guard_intent, guard_intended, of_guard, after_gate, admit, is_priced,
}

-- The settings let a request through: unchecked, or enabled with a balance and for a model with a
-- price; and the month's spending is below a positive limit.
pub record Funded {F : Type 0} (cfg : ExtraUsageConfig) (store : GuardStore) (c : Caller F)
    (project : String) (s : ExtraUsageSettings) : Type 0 where
  pub known : store.get_extra_usage_settings project ≡ some (some s)
  pub allowed :
      (s.bypass_balance_check ≡ true)
      ⊎ ((s.enabled ≡ true)
          × (pos 0 <ℤ s.balance_credits)
          × (pos 0 <ℤ cfg.credit_price_cny_fen)
          × (is_priced c.model ≡ true))
  pub below_limit :
      (s.monthly_limit_credits ≤ℤ pos 0)
      ⊎ ((spent : ℤ) × (store.get_monthly_extra_spend_credits project ≡ some spent)
          × (spent <ℤ s.monthly_limit_credits))

-- A request that the guard lets through for extra usage.
pub record Approved {F : Type 0} (cfg : ExtraUsageConfig) (store : GuardStore) (c : Caller F)
    (ctx : ExtraUsageContext) : Type 0 where
  pub project : String
  pub settings : ExtraUsageSettings
  pub of_project : c.project ≡ some project
  pub enabled : cfg.enabled ≡ true
  pub funded : Funded cfg store c project settings
  pub at_entry : ctx.balance_credits_at_entry ≡ settings.balance_credits
  pub limit : ctx.monthly_limit_credits ≡ settings.monthly_limit_credits

module _ {F : Type 0} (cfg : ExtraUsageConfig) (store : GuardStore) (c : Caller F) (reason : String)
    (ctx : ExtraUsageContext) where
  -- The month's spending leaves room, and the context holds the settings.
  abbrev Roomy : String → ExtraUsageSettings → Type 0
  Roomy project s =
      ((s.monthly_limit_credits ≤ℤ pos 0)
        ⊎ ((spent : ℤ) × (store.get_monthly_extra_spend_credits project ≡ some spent)
            × (spent <ℤ s.monthly_limit_credits)))
      × (ctx.balance_credits_at_entry ≡ s.balance_credits)
      × (ctx.monthly_limit_credits ≡ s.monthly_limit_credits)

  with_spent-Roomy :
      (project : String) (s : ExtraUsageSettings) (o : Option ℤ)
      → store.get_monthly_extra_spend_credits project ≡ o
      → with_spent cfg reason s o ≡ approved ctx
      → Roomy project s
  with_spent-Roomy project s none e h = cc
  with_spent-Roomy project s (some spent) e h =
      (inr (spent, e, ground arith), ground arith, ground arith)

  guard_month-Roomy :
      (project : String) (s : ExtraUsageSettings)
      → guard_month cfg store project reason s ≡ approved ctx
      → Roomy project s
  guard_month-Roomy project s h = elim (Bool-cases (ltb_ℤ (pos 0) s.monthly_limit_credits)) [
    | inl capped ↦ with_spent-Roomy project s _ refl (rw capped at h)
    | inr free ↦ (inl (ground arith), ground arith, ground arith)
  ]

  guard_settings-Funded :
      (project : String) (o : Option ExtraUsageSettings)
      → store.get_extra_usage_settings project ≡ some o
      → guard_settings cfg store project reason c.model o ≡ approved ctx
      → (s : ExtraUsageSettings) × Funded cfg store c project s × Roomy project s
  guard_settings-Funded project none e h = cc
  guard_settings-Funded project (some s) e h = elim (Bool-cases s.bypass_balance_check) [
    | inl bypass ↦
        let room = guard_month-Roomy project s (rw bypass at h) in
        (s, record { known = e; allowed = inl bypass; below_limit = room.0 }, room)
    | inr checked ↦
        let month : guard_month cfg store project reason s ≡ approved ctx = ground arith in
        let room = guard_month-Roomy project s month in
        (
          s,
          record {
            known = e;
            allowed = inr (ground arith, ground arith, ground arith, ground arith);
            below_limit = room.0;
          },
          room,
        )
  ]

  guard_lookup-Approved :
      (project : String) (o : Option (Option ExtraUsageSettings))
      → c.project ≡ some project
      → cfg.enabled ≡ true
      → store.get_extra_usage_settings project ≡ o
      → guard_lookup cfg store project reason c.model o ≡ approved ctx
      → Approved cfg store c ctx
  guard_lookup-Approved project none p on e h = cc
  guard_lookup-Approved project (some o) p on e h =
      let (s, funded, room) = guard_settings-Funded project o e h in
      record {
        project = project;
        settings = s;
        of_project = p;
        enabled = on;
        funded = funded;
        at_entry = room.1;
        limit = room.2;
      }

  guard_intent-Approved :
      (o : Option String)
      → c.project ≡ o
      → cfg.enabled ≡ true
      → guard_intent cfg store c reason o ≡ approved ctx
      → Approved cfg store c ctx
  guard_intent-Approved none p on h = cc
  guard_intent-Approved (some project) p on h = guard_lookup-Approved project _ p on refl h

module _ {F : Type 0} (cfg : ExtraUsageConfig) (store : GuardStore) (c : Caller F)
    (ctx : ExtraUsageContext) where
  guard_intended-Approved :
      (intent : Option String)
      → guard_intended cfg store c intent ≡ approved ctx
      → Approved cfg store c ctx
  guard_intended-Approved none h = cc
  guard_intended-Approved (some reason) h = elim (Bool-cases cfg.enabled) [
    | inl on ↦ guard_intent-Approved cfg store c reason ctx c.project refl on (rw on at h)
    | inr off ↦ absurd (ground arith)
  ]

  extra_usage_guard-Approved :
      (intent : Option String)
      → extra_usage_guard cfg store c intent ≡ approved ctx
      → Approved cfg store c ctx
  unfolding extra_usage_guard
  extra_usage_guard-Approved intent h = elim (Bool-cases c.is_count_tokens) [
    | inl probe ↦ absurd (ground arith)
    | inr other ↦ guard_intended-Approved intent (rw other at h)
  ]

of_guard-extra :
    (g : Guard) (ctx : ExtraUsageContext) → of_guard g ≡ on_extra_usage ctx → g ≡ approved ctx
of_guard-extra unguarded ctx h = cc
of_guard-extra (approved other) ctx h = cc
of_guard-extra (rejected status sub_reason) ctx h = cc

module _ {F : Type 0} (time : TimeLib) (floats : Floats F) (credits : CreditStore F) (now : ℤ)
    (cfg : ExtraUsageConfig) (store : GuardStore) (c : Caller F) where
  after_gate-Approved :
      (g : Gate × Limiter F) (ctx : ExtraUsageContext)
      → (after_gate time floats credits now cfg store c g).0 ≡ on_extra_usage ctx
      → Approved cfg store c ctx
  after_gate-Approved (pass intent, l) ctx h =
      extra_usage_guard-Approved cfg store c ctx intent (of_guard-extra _ ctx h)
  after_gate-Approved (limited wait, l) ctx h = cc
  after_gate-Approved (gate_panicked, l) ctx h = cc

  -- A request reaches the handler through extra usage only where extra usage is on for all, and the
  -- settings of its project either bypass the check or are enabled with a positive balance, a credit
  -- price and a model with a default rate; under a positive monthly limit the month's spending is
  -- below it. The context for the settlement holds the balance and the limit of those settings.
  pub admit-Approved :
      (l : Limiter F) (ctx : ExtraUsageContext)
      → (admit time floats credits now cfg store c l).0 ≡ on_extra_usage ctx
      → Approved cfg store c ctx
  unfolding admit
  admit-Approved l ctx h = after_gate-Approved _ ctx h

  guard_month-guards :
      (project reason : String) (s : ExtraUsageSettings)
      → of_guard (guard_month cfg store project reason s) ≢ plain
  guard_month-guards project reason s h =
      elim (Bool-cases (ltb_ℤ (pos 0) s.monthly_limit_credits)) [
        | inl capped ↦ elim (Option-cases (store.get_monthly_extra_spend_credits project)) [
          | inl failed ↦ cc (rw (capped, failed) at h)
          | inr (spent, e) ↦ absurd (ground arith)
        ]
        | inr free ↦ cc (rw free at h)
      ]

  guard_settings-guards :
      (project reason : String) (o : Option ExtraUsageSettings)
      → of_guard (guard_settings cfg store project reason c.model o) ≢ plain
  guard_settings-guards project reason none h = cc
  guard_settings-guards project reason (some s) h =
      ground (arith, guard_month-guards project reason s)

  guard_intent-guards :
      (reason : String) (o : Option String) → of_guard (guard_intent cfg store c reason o) ≢ plain
  guard_intent-guards reason none h = cc
  guard_intent-guards reason (some project) h =
      elim (Option-cases (store.get_extra_usage_settings project)) [
        | inl failed ↦ cc (rw failed at h)
        | inr (o, e) ↦ guard_settings-guards project reason o (rw e at h)
      ]

  -- The guard lets a request pass as it is only without an intent.
  guard-plain :
      (intent : Option String)
      → c.is_count_tokens ≡ false
      → of_guard (extra_usage_guard cfg store c intent) ≡ plain
      → intent ≡ none
  unfolding extra_usage_guard
  guard-plain none other h = refl
  guard-plain (some reason) other h = elim (Bool-cases cfg.enabled) [
    | inl on ↦ absurd (guard_intent-guards reason c.project (rw (other, on) at h))
    | inr off ↦ absurd (ground arith)
  ]

  pub after_gate-plain :
      (g : Gate × Limiter F)
      → c.is_count_tokens ≡ false
      → (after_gate time floats credits now cfg store c g).0 ≡ plain
      → g.0 ≡ pass none
  after_gate-plain (pass intent, l) other h = ap pass (guard-plain intent other h)
  after_gate-plain (limited wait, l) other h = cc
  after_gate-plain (gate_panicked, l) other h = cc
