-- ===== src/Ledger/Deduct.antt =====
-- About `DeductExtraUsage`: the conditions on the settings, and the answers.
use modelserver.Prelude.{
  ℕ, String, ◌≡◌, ◌≢◌, refl, ap, ◌∙◌, ◌⊎◌, inl, inr, Bool, true, false, ◌||◌, not, some, arith,
  str_eq, eq_iff, Bool-cases,
}
use modelserver.Prelude.Int.{
  ℤ, pos, ◌+ℤ◌, ◌-ℤ◌, ◌≤ℤ◌, ◌<ℤ◌, neg, leb_ℤ, int_laws, eq_of_parts, in_int64,
}
use modelserver.Ledger.Accounts.{
  ExtraUsageSettings, Ledger, LedgerResult, Answer, balance, not_enabled, insufficient_balance,
  monthly_limit_reached, guard, allows, classify, month_spend, DeductExtraUsageReq, deduct_with,
  deduct_extra_usage, debit,
}

-- The settings let a deduction of the amount through.
abbrev pub Affords : ExtraUsageSettings → ℤ → ℤ → Type 0
Affords s spent amount =
    ((s.bypass_balance_check ≡ true) ⊎ ((s.enabled ≡ true) × (amount ≤ℤ s.balance_credits)))
    × ((s.monthly_limit_credits ≡ pos 0) ⊎ (spent +ℤ amount ≤ℤ s.monthly_limit_credits))

-- What a refusal says of the settings; under a limit below 0 it is always that of the balance.
abbrev pub Explains : ExtraUsageSettings → ℤ → ℤ → LedgerResult → Type 0
Explains s spent amount e =
    ((e ≡ not_enabled) × (s.bypass_balance_check ≡ false) × (s.enabled ≡ false))
    ⊎ (((e ≡ insufficient_balance)
          × (s.bypass_balance_check ≡ false)
          × (s.balance_credits <ℤ amount))
        ⊎ (((e ≡ monthly_limit_reached)
              × (pos 0 <ℤ s.monthly_limit_credits)
              × (s.monthly_limit_credits <ℤ spent +ℤ amount))
            ⊎ ((e ≡ insufficient_balance)
                × (s.monthly_limit_credits <ℤ pos 0)
                × (s.monthly_limit_credits <ℤ spent +ℤ amount))))

allows-Affords :
    (s : ExtraUsageSettings) (spent amount : ℤ)
    → allows s spent amount ≡ true
    → Affords s spent amount
unfolding allows
allows-Affords s spent amount h =
    (ground arith, ground (arith, eq_of_parts s.monthly_limit_credits (pos 0)))

classify-Explains :
    (s : ExtraUsageSettings) (spent amount : ℤ)
    → allows s spent amount ≡ false
    → Explains s spent amount (classify false s spent amount)
unfolding allows classify
classify-Explains s spent amount h = ground arith

pub guard-balance :
    (failed : Bool) (l : Ledger) (next : Answer) (b : ℤ)
    → (guard failed l next).0 ≡ balance b
    → failed ≡ false
guard-balance true l next b h = absurd (ground arith)
guard-balance false l next b h = refl

abbrev pub spent_by : DeductExtraUsageReq → Ledger → ℤ
spent_by req l = month_spend req.project_id req.month_window_start l.rows

abbrev pub Decided : ℤ → DeductExtraUsageReq → Ledger → ExtraUsageSettings → Answer → Type 0
Decided now req l s answer =
    ((answer ≡ (balance (s.balance_credits -ℤ req.amount_credits), debit now req l s))
      × Affords s (spent_by req l) req.amount_credits)
    ⊎ ((e : LedgerResult) × (answer ≡ (e, l)) × Explains s (spent_by req l) req.amount_credits e)

-- A deduction whose statements all run, on a project with settings, and with a new balance that fits:
-- it goes through just where the project is let through without a check or is enabled and has the
-- balance, and a limit that is not 0 covers the month's spending with it; the balance is then less by
-- the amount, with one new row. Otherwise the tables stay as they were, and the error says what fails;
-- a limit below 0 is reported as a balance that is too low.
pub deduct_extra_usage-Decided :
    (now : ℤ) (req : DeductExtraUsageReq) (l : Ledger) (s : ExtraUsageSettings)
    → l.settings req.project_id ≡ some s
    → in_int64 (s.balance_credits -ℤ req.amount_credits) ≡ true
    → Decided now req l s (deduct_extra_usage (λ n. false) now req l)
unfolding deduct_extra_usage
deduct_extra_usage-Decided now req l s found fits =
    rw found elim (Bool-cases (allows s (spent_by req l) req.amount_credits)) [
      | inl allowed ↦
          rw (allowed, fits)
            (inl (refl, allows-Affords s (spent_by req l) req.amount_credits allowed))
      | inr refused ↦ rw refused (
          inr (
            classify false s (spent_by req l) req.amount_credits,
            refl,
            classify-Explains s (spent_by req l) req.amount_credits refused,
          ))
    ]

balance_inj : (a b : ℤ) → balance a ≡ balance b → b ≡ a
balance_inj a b h = cc

classify-no_balance :
    (failed : Bool) (s : ExtraUsageSettings) (spent amount b : ℤ)
    → classify failed s spent amount ≡ balance b
    → ⊥
unfolding classify
classify-no_balance failed s spent amount b h = ground arith

deduct_with-balance :
    (fails : ℕ → Bool) (now : ℤ) (req : DeductExtraUsageReq) (l : Ledger) (s : ExtraUsageSettings)
    (b : ℤ)
    → (deduct_with fails now req l (some s)).0 ≡ balance b
    → (allows s (spent_by req l) req.amount_credits ≡ true)
      × (b ≡ s.balance_credits -ℤ req.amount_credits)
      × ((deduct_with fails now req l (some s)).1 ≡ debit now req l s)
deduct_with-balance fails now req l s b h =
    elim (Bool-cases (allows s (spent_by req l) req.amount_credits)) [
      | inl allowed ↦
          let passed =
            guard-balance
              (not (in_int64 (s.balance_credits -ℤ req.amount_credits)) || (fails 2 || fails 3)) l
              (balance (s.balance_credits -ℤ req.amount_credits), debit now req l s) b
              (rw allowed at h) in
          rw (allowed, passed) (refl, balance_inj _ b (rw (allowed, passed) at h), refl)
      | inr refused ↦ elim (Bool-cases (fails 2)) [
        | inl f ↦ absurd (ground (arith, (rw (refused, f) at h)))
        | inr f ↦ absurd (classify-no_balance _ _ _ _ b (rw (refused, f) at h))
      ]
    ]

same_text : (s : String) → str_eq s s ≡ true
same_text s = ground (arith, eq_iff s s)

in_window : (start now : ℤ) → start ≤ℤ now → leb_ℤ start now ≡ true
in_window start now h = ground arith

neg-neg_add : (a b : ℤ) → neg (neg a) +ℤ b ≡ b +ℤ a
neg-neg_add a b = grind int_laws

month_spend-debit :
    (now : ℤ) (req : DeductExtraUsageReq) (l : Ledger) (s : ExtraUsageSettings)
    → req.month_window_start ≤ℤ now
    → spent_by req (debit now req l s) ≡ spent_by req l +ℤ req.amount_credits
unfolding month_spend
month_spend-debit now req l s h =
    rw (same_text req.project_id, in_window req.month_window_start now h)
      (neg-neg_add req.amount_credits (spent_by req l))

not_negative :
    (s : ExtraUsageSettings) (amount b : ℤ)
    → b ≡ s.balance_credits -ℤ amount
    → s.bypass_balance_check ≡ false
    → (s.bypass_balance_check ≡ true) ⊎ ((s.enabled ≡ true) × (amount ≤ℤ s.balance_credits))
    → pos 0 ≤ℤ b
not_negative s amount b e checked (inl through) = absurd (ground arith)
not_negative s amount b e checked (inr (on, enough)) = rw e (grind int_laws)

within :
    (s : ExtraUsageSettings) (spent : ℤ)
    → s.monthly_limit_credits ≢ pos 0
    → (s.monthly_limit_credits ≡ pos 0) ⊎ (spent ≤ℤ s.monthly_limit_credits)
    → spent ≤ℤ s.monthly_limit_credits
within s spent limited (inl none_set) = absurd (limited none_set)
within s spent limited (inr fits) = fits

-- A deduction that goes through, whatever statements could have failed: its answer is the old balance
-- less the amount; where the project is not let through without a check, that is not negative; and
-- under a limit that is not 0, the month's spending with it stays within the limit.
pub deduct_extra_usage-bounds :
    (fails : ℕ → Bool) (now : ℤ) (req : DeductExtraUsageReq) (l : Ledger) (s : ExtraUsageSettings)
    (b : ℤ)
    → l.settings req.project_id ≡ some s
    → req.month_window_start ≤ℤ now
    → (deduct_extra_usage fails now req l).0 ≡ balance b
    → (b ≡ s.balance_credits -ℤ req.amount_credits)
      × (s.bypass_balance_check ≡ false → pos 0 ≤ℤ b)
      × (s.monthly_limit_credits ≢ pos 0
          → spent_by req (deduct_extra_usage fails now req l).1 ≤ℤ s.monthly_limit_credits)
unfolding deduct_extra_usage
deduct_extra_usage-bounds fails now req l s b found later answer =
    let passed = guard-balance (fails 0 || fails 1) l _ b answer in
    let (allowed, e, left) =
      deduct_with-balance fails now req l s b (rw (passed, found) at answer) in
    let (funds, limit) = allows-Affords s (spent_by req l) req.amount_credits allowed in
    (
      e,
      λ checked. not_negative s req.amount_credits b e checked funds,
      λ limited.
          rw (passed, found)
            (rw (ap (spent_by req) left ∙ month_spend-debit now req l s later)
              (within s (spent_by req l +ℤ req.amount_credits) limited limit)),
    )
