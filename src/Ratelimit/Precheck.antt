-- ===== src/Ratelimit/Precheck.antt =====
-- About `PreCheck`, against the credit windows and the classic rules.
use modelserver.Prelude.{
  String, ◌≡◌, refl, ap, ◌⊎◌, inl, inr, Bool, true, false, List, Option, none, some, arith, str_eq,
  eq_iff, Bool-cases, Option-cases, some_inj, All,
}
use mathlib.Core.List.{Mem}
use mathlib.Core.Path.{subst}
use modelserver.Prelude.Int.{ℤ, pos, ◌+ℤ◌, ◌≤ℤ◌, ltb_ℤ, +ℤ_parts}
use modelserver.Ratelimit.Cache.{CreditCache, get, set}
use modelserver.Ratelimit.Limits.{HasRoom, Refuses}
use modelserver.Ratelimit.Windows.{TimeLib}
use modelserver.Ratelimit.Composite.{
  CreditRule, RateLimitPolicy, PreCheckResult, allow, deny, limit_credit, limit_classic, Floats,
  CreditStore, Limiter, sum_key, cached_or, CreditOutcome, failed_open, hit, clear, is_spent,
  check_credits,
}

same_text : (s t : String) → str_eq s t ≡ true → s ≡ t
same_text s t h = ground (arith, eq_iff s t)

eq_test : (s : String) → str_eq s s ≡ true
eq_test s = ground (arith, eq_iff s s)

not_before : (now ttl : ℤ) → pos 0 ≤ℤ ttl → ltb_ℤ (now +ℤ ttl) now ≡ false
not_before now ttl h = ground (arith, +ℤ_parts now ttl)

module _ {F : Type 0} where
  abbrev Holds : ℤ → CreditCache F → String → F → Type 0
  Holds now c key v = get now key c ≡ some v

  get-set :
      (now : ℤ) (key : String) (v : F) (c : CreditCache F)
      → pos 0 ≤ℤ c.ttl
      → Holds now (set now key v c) key v
  unfolding get set
  get-set now key v c h = rw (eq_test key, not_before now c.ttl h) refl

  set-ttl : (now : ℤ) (key : String) (v : F) (c : CreditCache F) → (set now key v c).ttl ≡ c.ttl
  unfolding set
  set-ttl now key v c = refl

  -- A put keeps what another key holds.
  set-keeps :
      (now : ℤ) (key other : String) (v w : F) (c : CreditCache F)
      → get now key c ≡ none
      → Holds now c other w
      → Holds now (set now key v c) other w
  unfolding get set
  set-keeps now key other v w c miss h = elim (Bool-cases (str_eq key other)) [
    | inl same ↦ absurd (ground (arith, ap (λ k. get now k c) (same_text key other same)))
    | inr differs ↦ rw differs h
  ]

-- What the lookup of a sum leaves in the cache.
pub record Fills {F : Type 0} (now : ℤ) (key : String) (c filled : CreditCache F) (used : F)
    : Type 0 where
  pub ttl : filled.ttl ≡ c.ttl
  pub keeps : (k : String) (v : F) → get now k c ≡ some v → get now k filled ≡ some v
  pub holds : get now key filled ≡ some used

module _ {F : Type 0} (time : TimeLib) (floats : Floats F) (store : CreditStore F) (now : ℤ) where
  pub cached_or-Fills :
      (key : String) (c filled : CreditCache F) (query : Option F) (used : F)
      → pos 0 ≤ℤ c.ttl
      → cached_or time floats store now key c (get now key c) query ≡ some (used, filled)
      → Fills now key c filled used
  cached_or-Fills key c filled query used pos_ttl h = elim (Option-cases (get now key c)) [
    | inr (v, found) ↦
        subst (λ p. Fills now key c p.1 p.0) (some_inj (rw found at h))
          (record { ttl = refl; keeps = λ k w e. e; holds = found })
    | inl miss ↦ elim (Option-cases query) [
      | inl failed ↦ absurd (ground (arith, (rw (miss, failed) at h)))
      | inr (v, sum) ↦
          subst (λ p. Fills now key c p.1 p.0) (some_inj (rw (miss, sum) at h))
            (record {
              ttl = set-ttl now key v c;
              keeps = λ k w e. set-keeps now key k v w c miss e;
              holds = get-set now key v c pos_ttl;
            })
    ]
  ]

module _ {F : Type 0} (time : TimeLib) (floats : Floats F) (store : CreditStore F) (now : ℤ)
    (project_id api_key_id : String) where
  abbrev loop : List CreditRule → CreditCache F → CreditOutcome × CreditCache F
  loop = check_credits time floats store now project_id api_key_id

  -- The rule's sum is in the cache, with the test of its budget.
  abbrev pub Spent : Bool → CreditCache F → CreditRule → Type 0
  Spent b c r =
      (used : F) × (get now (sum_key project_id api_key_id r) c ≡ some used)
      × (is_spent time floats store now r used ≡ b)

  -- What the loop over the rules guarantees: the live entries stay; where it ends clear each rule has
  -- credit left by the cache it leaves, and where it hits some rule has none left.
  pub record Loops (rs : List CreditRule) (c : CreditCache F) (e : CreditOutcome × CreditCache F)
      : Type 0 where
    pub ttl : e.1.ttl ≡ c.ttl
    pub keeps : (key : String) (v : F) → get now key c ≡ some v → get now key e.1 ≡ some v
    pub clears : e.0 ≡ clear → All (Spent false e.1) rs
    pub hits : (wait : ℤ) → e.0 ≡ hit wait → (r : CreditRule) × Mem r rs × Spent true e.1 r

  -- One of the four ways in which `PreCheck` answers for a policy, with the limiter it leaves.
  abbrev pub Decided : String → RateLimitPolicy → Limiter F → PreCheckResult → Limiter F → Type 0
  Decided model policy l r left =
      ((r ≡ allow) × ((loop policy.credit_rules l.cache).0 ≡ failed_open))
      ⊎ (((r ≡ allow)
            × All (Spent false left.cache) policy.credit_rules
            × All (HasRoom now api_key_id model l.classic) policy.classic_rules)
          ⊎ (((wait : ℤ) × (r ≡ deny limit_credit wait)
                × ((rule : CreditRule) × Mem rule policy.credit_rules × Spent true left.cache rule)
                × All (HasRoom now api_key_id model l.classic) policy.classic_rules)
              ⊎ ((wait : ℤ) × (r ≡ deny limit_classic wait)
                  × Refuses now api_key_id model l.classic (some wait) policy.classic_rules)))
