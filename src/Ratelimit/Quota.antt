-- ===== src/Ratelimit/Quota.antt =====
-- `CheckUserQuota` of internal/ratelimit/composite.go: a member's share of the project's credits.
use mathlib.Core.List.{Mem, mem-cons_self, mem-cons_of_mem}
use modelserver.Prelude.{
  String, ◌≡◌, ap, inl, inr, Bool, true, List, [], ◌∷◌, Option, none, some, arith, Bool-cases,
  Option-cases, some_inj, if◌then◌else◌,
}
use modelserver.Prelude.Int.{ℤ, pos, ◌≤ℤ◌}
use modelserver.Ratelimit.Cache.{CreditCache, get}
use modelserver.Ratelimit.Windows.{TimeLib, window_start_time_at, window_reset_duration_at}
use modelserver.Ratelimit.Composite.{
  CreditRule, RateLimitPolicy, Floats, CreditStore, Limiter, is_project_scope, user_sum_key,
  cached_or, with_start, CreditOutcome, failed_open, hit, clear, panicked, hit_of,
}
use modelserver.Ratelimit.Precheck.{Fills, cached_or-Fills}

module _ {F : Type 0} (time : TimeLib) (floats : Floats F) (store : CreditStore F) (now : ℤ)
    (project_id user_id : String) (quota_pct : F) where
  -- The member's share of the rule's credits is used up.
  abbrev pub is_over : CreditRule → F → Bool
  is_over r used = floats.at_least used (floats.quota_of (floats.of_int r.max_credits) quota_pct)

  abbrev pub judge_quota :
      CreditRule
      → CreditCache F
      → Option (F × CreditCache F)
      → (CreditCache F → CreditOutcome × CreditCache F)
      → CreditOutcome × CreditCache F
  judge_quota r c none later = (failed_open, c)
  judge_quota r c (some (used, filled)) later =
      if is_over r used
      then (hit_of (window_reset_duration_at time now r.window r.window_type r.anchor_time), filled)
      else later filled

  -- The loop over the credit rules of `CheckUserQuota`.
  unfoldable pub check_quota : List CreditRule → CreditCache F → CreditOutcome × CreditCache F
  check_quota [] c = (clear, c)
  check_quota (r ∷ rs) c =
      if is_project_scope r
      then with_start time floats store now
          (window_start_time_at time now r.window r.window_type r.anchor_time) c
          (λ start.
            judge_quota r c
              (cached_or time floats store now (user_sum_key project_id user_id r) c
                (get now (user_sum_key project_id user_id r) c)
                (store.sum_by_user project_id user_id start))
              (check_quota rs))
      else check_quota rs c

  -- The wait of a denial; `none` is a panic.
  abbrev pub quota_answer : CreditOutcome → Option (Option ℤ)
  quota_answer failed_open = some none
  quota_answer panicked = none
  quota_answer clear = some none
  quota_answer (hit wait) = some (some wait)

  abbrev pub answer_with : Limiter F → CreditOutcome × CreditCache F → Option (Option ℤ) × Limiter F
  answer_with l (o, c) = (quota_answer o, record l { cache = c })

  -- `CheckUserQuota`: no answer where it panics, else the wait where the member is denied.
  unfoldable pub check_user_quota :
      Option RateLimitPolicy → Limiter F → Option (Option ℤ) × Limiter F
  check_user_quota none l = (some none, l)
  check_user_quota (some policy) l = answer_with l (check_quota policy.credit_rules l.cache)

  -- A rule of project scope whose share is used up by the sum in the cache, with its reset.
  abbrev Exceeds : CreditCache F → ℤ → CreditRule → Type 0
  Exceeds c wait r =
      (used : F) × (is_project_scope r ≡ true)
      × (get now (user_sum_key project_id user_id r) c ≡ some used)
      × (is_over r used ≡ true)
      × (window_reset_duration_at time now r.window r.window_type r.anchor_time ≡ some wait)

  abbrev pub Found : List CreditRule → CreditOutcome × CreditCache F → Type 0
  Found rs e = (wait : ℤ) → e.0 ≡ hit wait → (r : CreditRule) × Mem r rs × Exceeds e.1 wait r

  Found-later :
      (r : CreditRule) (rs : List CreditRule) (e : CreditOutcome × CreditCache F)
      → Found rs e
      → Found (r ∷ rs) e
  Found-later r rs e f wait h =
      let (s, among, over) = f wait h in (s, mem-cons_of_mem r among, over)

  hit_of-some : (o : Option ℤ) (wait : ℤ) → hit_of o ≡ hit wait → o ≡ some wait
  hit_of-some none wait h = absurd (ground arith)
  hit_of-some (some w) wait h = ground arith

  judge_quota-Found :
      (r : CreditRule) (rs : List CreditRule) (c filled : CreditCache F) (used : F)
      → is_project_scope r ≡ true
      → Fills now (user_sum_key project_id user_id r) c filled used
      → Found rs (check_quota rs filled)
      → Found (r ∷ rs) (judge_quota r c (some (used, filled)) (check_quota rs))
  judge_quota-Found r rs c filled used scoped f ih = elim (Bool-cases (is_over r used)) [
    | inl over ↦
        rw over (λ wait h. (r, mem-cons_self, (used, scoped, f.holds, over, hit_of-some _ wait h)))
    | inr left ↦ rw left (Found-later r rs _ ih)
  ]

  check_quota-Found :
      (rs : List CreditRule) (c : CreditCache F) → pos 0 ≤ℤ c.ttl → Found rs (check_quota rs c)
  unfolding check_quota
  check_quota-Found [] c h = λ wait e. absurd (ground arith)
  check_quota-Found (r ∷ rs) c h = elim (Bool-cases (is_project_scope r)) [
    | inr own ↦ rw own (Found-later r rs _ (check_quota-Found rs c h))
    | inl scoped ↦
        elim (Option-cases (window_start_time_at time now r.window r.window_type r.anchor_time)) [
          | inl zero_window ↦ rw (scoped, zero_window) (λ wait e. absurd (ground arith))
          | inr (start, found) ↦
              elim (Option-cases (
                cached_or time floats store now (user_sum_key project_id user_id r) c
                  (get now (user_sum_key project_id user_id r) c)
                  (store.sum_by_user project_id user_id start))) [
                    | inl failed ↦ rw (scoped, found, failed) (λ wait e. absurd (ground arith))
                    | inr ((used, filled), sum) ↦
                        let f = cached_or-Fills time floats store now _ c filled _ used h sum in
                        rw (scoped, found, sum)
                          (judge_quota-Found r rs c filled used scoped f
                            (check_quota-Found rs filled (rw f.ttl h)))
                  ]
        ]
  ]

  answer-hit : (o : CreditOutcome) (wait : ℤ) → quota_answer o ≡ some (some wait) → o ≡ hit wait
  answer-hit failed_open wait h = absurd (ground arith)
  answer-hit panicked wait h = absurd (ground arith)
  answer-hit clear wait h = absurd (ground arith)
  answer-hit (hit w) wait h = ap hit (some_inj (some_inj h))

  -- Where `CheckUserQuota` denies a member, some rule of project scope is used up: by the member's sum,
  -- which the cache now holds, against the member's share of the rule's credits; and the wait is the
  -- time to that rule's reset. The cache's entries live for a time that is not negative.
  check_user_quota-Exceeds :
      (policy : RateLimitPolicy) (l : Limiter F) (wait : ℤ)
      → pos 0 ≤ℤ l.cache.ttl
      → (check_user_quota (some policy) l).0 ≡ some (some wait)
      → (r : CreditRule) × Mem r policy.credit_rules
        × Exceeds (check_user_quota (some policy) l).1.cache wait r
  unfolding check_user_quota
  check_user_quota-Exceeds policy l wait h denied =
      check_quota-Found policy.credit_rules l.cache h wait (answer-hit _ wait denied)
