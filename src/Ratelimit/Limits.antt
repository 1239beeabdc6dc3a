-- ===== src/Ratelimit/Limits.antt =====
-- About `Check` of the classic rules.
use modelserver.Prelude.{
  String, ◌≡◌, refl, ap, ◌⊎◌, inl, inr, false, List, [], ◌∷◌, ◌++◌, Option, none, some, arith,
  Bool-cases, All,
}
use modelserver.Prelude.Int.{ℤ, ◌≤ℤ◌, ◌<ℤ◌, leb_ℤ}
use modelserver.Ratelimit.Counters.{MemoryCounters, cleanup-counts}
use modelserver.Ratelimit.Classic.{
  ClassicRule, day, counter_key, metric_window, current, check, tick,
}

-- The rule has room: its count is below its limit.
abbrev pub HasRoom : ℤ → String → String → MemoryCounters → ClassicRule → Type 0
HasRoom now api_key_id model c rule = current now api_key_id model rule c <ℤ rule.limit

-- Some rule has no room, the rules before it have, and the answer is the window of that rule.
abbrev pub Refuses : ℤ → String → String → MemoryCounters → Option ℤ → List ClassicRule → Type 0
Refuses now api_key_id model c answer rules =
    (before : List ClassicRule) × (rule : ClassicRule) × (rest : List ClassicRule) × (rules
      ≡ before ++ rule ∷ rest)
    × All (HasRoom now api_key_id model c) before
    × (rule.limit ≤ℤ current now api_key_id model rule c)
    × (answer ≡ some (metric_window rule.metric))

abbrev pub Decides : ℤ → String → String → MemoryCounters → Option ℤ → List ClassicRule → Type 0
Decides now api_key_id model c answer rules =
    ((answer ≡ none) × All (HasRoom now api_key_id model c) rules)
    ⊎ Refuses now api_key_id model c answer rules

Decides-cons :
    (now : ℤ) (api_key_id model : String) (c : MemoryCounters) (answer : Option ℤ)
    (rule : ClassicRule) (rules : List ClassicRule)
    → HasRoom now api_key_id model c rule
    → Decides now api_key_id model c answer rules
    → Decides now api_key_id model c answer (rule ∷ rules)
Decides-cons now api_key_id model c answer rule rules room (inl (e, h)) = inl (e, (room, h))
Decides-cons now api_key_id model c answer rule rules room
      (inr (before, bad, rest, e, h, full, w)) =
    inr (rule ∷ before, bad, rest, ap (λ rs. rule ∷ rs) e, (room, h), full, w)

has_room : (limit n : ℤ) → leb_ℤ limit n ≡ false → n <ℤ limit
has_room limit n h = ground arith

-- `Check` allows a request exactly where every rule has room; a denial waits for the window of a
-- rule without room, before which all rules have room.
pub check-Decides :
    (now : ℤ) (api_key_id model : String) (c : MemoryCounters) (rules : List ClassicRule)
    → Decides now api_key_id model c (check now api_key_id model rules c) rules
unfolding check
check-Decides now api_key_id model c [] = inl (refl, tt)
check-Decides now api_key_id model c (rule ∷ rules) =
    elim (Bool-cases (leb_ℤ rule.limit (current now api_key_id model rule c))) [
      | inl full ↦ rw full (inr ([], rule, rules, refl, tt, ground arith, refl))
      | inr room ↦ rw room (
          Decides-cons now api_key_id model c _ rule rules (has_room rule.limit _ room)
            (check-Decides now api_key_id model c rules))
    ]

metric_window-le-day : (metric : String) → metric_window metric ≤ℤ day
unfolding metric_window
metric_window-le-day metric = ground arith

current-tick :
    (swept now : ℤ) (api_key_id model : String) (rule : ClassicRule) (c : MemoryCounters)
    → swept ≤ℤ now
    → current now api_key_id model rule (tick swept c) ≡ current now api_key_id model rule c
unfolding current
current-tick swept now api_key_id model rule c earlier =
    let (same_count, same_sum) =
      cleanup-counts swept now day (metric_window rule.metric)
        (counter_key api_key_id rule.metric model rule.per_model) c earlier
        (metric_window-le-day rule.metric) in
    rw (same_count, same_sum)

-- A sweep at any time up to now changes no decision: every rule's window is at most a day.
pub check-tick :
    (swept now : ℤ) (api_key_id model : String) (rules : List ClassicRule) (c : MemoryCounters)
    → swept ≤ℤ now
    → check now api_key_id model rules (tick swept c) ≡ check now api_key_id model rules c
unfolding check
check-tick swept now api_key_id model [] c earlier = refl
check-tick swept now api_key_id model (rule ∷ rules) c earlier = rw (
  current-tick swept now api_key_id model rule c earlier,
  check-tick swept now api_key_id model rules c earlier,
)
