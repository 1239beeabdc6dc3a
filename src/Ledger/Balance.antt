-- ===== src/Ledger/Balance.antt =====
-- About the balances and the ledger rows, under any calls of the ledger.
use modelserver.Prelude.{
  ℕ, String, ◌≡◌, refl, sym, ap, ◌∙◌, inl, inr, Bool, true, false, ◌||◌, List, [], ◌∷◌, Option,
  none, some, arith, str_eq, eq_iff, Bool-cases, Option-cases, if◌then◌else◌,
}
use modelserver.Prelude.Int.{ℤ, pos, ◌+ℤ◌, ◌-ℤ◌, neg, int_laws}
use modelserver.Ledger.Accounts.{
  ExtraUsageSettings, ExtraUsageTransaction, Ledger, Answer, or_default, put_settings, post, guard,
  allows, month_spend, DeductExtraUsageReq, TopUpExtraUsageReq, deduct_extra_usage, apply_topup,
  top_up_extra_usage, settings_of, is_there, is_topup, is_refund, row_of, refund_extra_usage_topup,
  upsert_extra_usage_settings, set_extra_usage_bypass, debit, reverse,
}

abbrev pub balance_of : Option ExtraUsageSettings → ℤ
balance_of s = (or_default s).balance_credits

-- The sum of a project's rows.
unfoldable pub row_sum : String → List ExtraUsageTransaction → ℤ
row_sum project [] = pos 0
row_sum project (row ∷ rows) =
    (if str_eq row.project_id project then row.amount_credits else pos 0) +ℤ row_sum project rows

abbrev pub Balanced : Ledger → Type 0
Balanced l = (project : String) → balance_of (l.settings project) ≡ row_sum project l.rows

-- Any call, with its failures and its time.
pub data Call : Type 0 where
  deducts : (ℕ → Bool) → ℤ → DeductExtraUsageReq → Call
  tops_up : (ℕ → Bool) → ℤ → TopUpExtraUsageReq → Call
  refunds : (ℕ → Bool) → ℤ → String → Call
  upserts : String → Bool → ℤ → Call
  bypasses : String → Bool → Call

unfoldable pub call : Call → Ledger → Ledger
call (deducts fails now req) l = (deduct_extra_usage fails now req l).1
call (tops_up fails now req) l = (top_up_extra_usage fails now req l).1
call (refunds fails now order) l = (refund_extra_usage_topup fails now order l).1
call (upserts project enabled limit) l = upsert_extra_usage_settings project enabled limit l
call (bypasses project bypass) l = set_extra_usage_bypass project bypass l

abbrev pub calls : List Call → Ledger → Ledger
calls [] l = l
calls (c ∷ cs) l = calls cs (call c l)

abbrev pub empty_ledger : Ledger
empty_ledger = record { settings = λ p. none; rows = [] }

same_text : (s t : String) → str_eq s t ≡ true → s ≡ t
same_text s t h = ground (arith, eq_iff s t)

zero_add_ℤ : (a : ℤ) → pos 0 +ℤ a ≡ a
zero_add_ℤ a = grind int_laws

sub_as_add : (a b : ℤ) → a -ℤ b ≡ neg b +ℤ a
sub_as_add a b = grind int_laws

add_swap : (a b : ℤ) → a +ℤ b ≡ b +ℤ a
add_swap a b = grind int_laws

guard-Balanced :
    (failed : Bool) (l : Ledger) (next : Answer)
    → Balanced l
    → Balanced next.1
    → Balanced (guard failed l next).1
guard-Balanced true l next h k = h
guard-Balanced false l next h k = k

either-Balanced :
    (b : Bool) (x y : Answer) → Balanced x.1 → Balanced y.1 → Balanced (if b then x else y).1
either-Balanced true x y h k = h
either-Balanced false x y h k = k

-- A new row whose amount is what the balance changes by.
post-Balanced :
    (l : Ledger) (s : ExtraUsageSettings) (row : ExtraUsageTransaction)
    → Balanced l
    → s.balance_credits ≡ row.amount_credits +ℤ balance_of (l.settings row.project_id)
    → Balanced (post l s row)
unfolding row_sum
post-Balanced l s row h e project = elim (Bool-cases (str_eq row.project_id project)) [
  | inl same ↦
      let p = same_text row.project_id project same in
      rw same
        (e ∙ ap (λ b. row.amount_credits +ℤ b) (ap (λ q. balance_of (l.settings q)) p ∙ h project))
  | inr other ↦ rw other (h project ∙ sym (zero_add_ℤ (row_sum project l.rows)))
]

put-Balanced :
    (l : Ledger) (project : String) (s : ExtraUsageSettings)
    → Balanced l
    → s.balance_credits ≡ balance_of (l.settings project)
    → Balanced (put_settings l project s)
put-Balanced l project s h e p = elim (Bool-cases (str_eq project p)) [
  | inl same ↦ rw same (e ∙ ap (λ q. balance_of (l.settings q)) (same_text project p same) ∙ h p)
  | inr other ↦ rw other (h p)
]

debit-Balanced :
    (now : ℤ) (req : DeductExtraUsageReq) (l : Ledger) (s : ExtraUsageSettings)
    → Balanced l
    → l.settings req.project_id ≡ some s
    → Balanced (debit now req l s)
debit-Balanced now req l s h e = post-Balanced l _ _ h (
    sub_as_add s.balance_credits req.amount_credits
    ∙ ap (λ o. neg req.amount_credits +ℤ balance_of o) (sym e))

deduct-Balanced :
    (fails : ℕ → Bool) (now : ℤ) (req : DeductExtraUsageReq) (l : Ledger)
    → Balanced l
    → Balanced (deduct_extra_usage fails now req l).1
unfolding deduct_extra_usage
deduct-Balanced fails now req l h =
    guard-Balanced (fails 0 || fails 1) l _ h elim (Option-cases (l.settings req.project_id)) [
      | inl missing ↦ rw missing h
      | inr (s, found) ↦
          rw found
            elim (Bool-cases (
              allows s (month_spend req.project_id req.month_window_start l.rows)
                req.amount_credits)) [
                  | inl allowed ↦
                      rw allowed (guard-Balanced _ l _ h (debit-Balanced now req l s h found))
                  | inr refused ↦
                      rw refused elim (Bool-cases (fails 2)) [ inl f ↦ rw f h | inr f ↦ rw f h ]
                ]
    ]

apply_topup-Balanced :
    (fails : ℕ → Bool) (now : ℤ) (req : TopUpExtraUsageReq) (l : Ledger) (taken : Bool)
    → Balanced l
    → Balanced (apply_topup fails now req l taken).1
unfolding apply_topup
apply_topup-Balanced fails now req l taken h =
    guard-Balanced _ l _ h
      (post-Balanced l _ _ h (add_swap (balance_of (l.settings req.project_id)) req.amount_credits))

top_up-Balanced :
    (fails : ℕ → Bool) (now : ℤ) (req : TopUpExtraUsageReq) (l : Ledger)
    → Balanced l
    → Balanced (top_up_extra_usage fails now req l).1
unfolding top_up_extra_usage
top_up-Balanced fails now req l h = guard-Balanced (fails 0) l _ h (
    either-Balanced (str_eq req.order_id "") _ _ (apply_topup-Balanced fails now req l false h) (
      guard-Balanced (fails 1) l _ h
        elim (Option-cases (settings_of l (row_of is_topup req.order_id l.rows))) [
          | inl fresh ↦ rw fresh (apply_topup-Balanced fails now req l _ h)
          | inr (s, done) ↦ rw done h
        ]))

reverse-Balanced :
    (now : ℤ) (order : String) (l : Ledger) (row : ExtraUsageTransaction) (s : ExtraUsageSettings)
    → Balanced l
    → l.settings row.project_id ≡ some s
    → Balanced (reverse now order l row s)
reverse-Balanced now order l row s h e = post-Balanced l _ _ h (
    sub_as_add s.balance_credits row.amount_credits
    ∙ ap (λ o. neg row.amount_credits +ℤ balance_of o) (sym e))

refund-Balanced :
    (fails : ℕ → Bool) (now : ℤ) (order : String) (l : Ledger)
    → Balanced l
    → Balanced (refund_extra_usage_topup fails now order l).1
unfolding refund_extra_usage_topup
refund-Balanced fails now order l h =
    guard-Balanced (fails 0 || fails 1) l _ h elim (Option-cases (row_of is_topup order l.rows)) [
      | inl none_there ↦ rw none_there h
      | inr (row, there) ↦ rw there elim (Option-cases (l.settings row.project_id)) [
        | inl missing ↦ rw missing h
        | inr (s, found) ↦ rw found (
            guard-Balanced _ l _ h (
              either-Balanced (is_there (row_of is_refund order l.rows)) _ _
                (guard-Balanced (fails 4) l _ h h)
                (guard-Balanced (fails 4) l _ h (reverse-Balanced now order l row s h found))))
      ]
    ]

call-Balanced : (c : Call) (l : Ledger) → Balanced l → Balanced (call c l)
unfolding call upsert_extra_usage_settings set_extra_usage_bypass
call-Balanced (deducts fails now req) l h = deduct-Balanced fails now req l h
call-Balanced (tops_up fails now req) l h = top_up-Balanced fails now req l h
call-Balanced (refunds fails now order) l h = refund-Balanced fails now order l h
call-Balanced (upserts project enabled limit) l h = put-Balanced l project _ h refl
call-Balanced (bypasses project bypass) l h = put-Balanced l project _ h refl

-- After any calls, with any statements failing, every project's balance is the sum of its ledger rows,
-- where it was so before them.
pub calls-Balanced : (cs : List Call) (l : Ledger) → Balanced l → Balanced (calls cs l)
calls-Balanced [] l h = h
calls-Balanced (c ∷ cs) l h = calls-Balanced cs (call c l) (call-Balanced c l h)
