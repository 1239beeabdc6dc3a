-- ===== src/Ratelimit/Tests.antt =====
-- Runs of the counters, the windows and the composite limiter, and the theorems at them.
use modelserver.Prelude.{◌≡◌, refl, true, [], ◌∷◌, none, some, arith, str_eq, if◌then◌else◌}
use modelserver.Prelude.Int.{ℤ, pos, leb_ℤ}
use modelserver.Ratelimit.Counters.{
  MemoryCounters, new_memory_counters, add_request, count_requests, sum_tokens, cleanup,
  cleanup-counts,
}
use modelserver.Ratelimit.Classic.{ClassicRule, TokenUsage, check}
use modelserver.Ratelimit.Limits.{Decides, check-Decides}
use modelserver.Ratelimit.Windows.{TimeLib}
use modelserver.Ratelimit.Cache.{CreditCache, get, has_prefix}
use modelserver.Ratelimit.Composite.{
  CreditRule, RateLimitPolicy, Floats, CreditStore, Limiter, key_sum_key,
}
use modelserver.Ratelimit.Stale.{recorded, post_record-keeps_key_sum}

abbrev one_request : MemoryCounters
one_request = add_request (pos 100) "k1" new_memory_counters

cleanup-counts_example :
    (count_requests (pos 160) "k1" (pos 60) (cleanup (pos 150) (pos 90) one_request)
      ≡ count_requests (pos 160) "k1" (pos 60) one_request)
    × (sum_tokens (pos 160) "k1" (pos 60) (cleanup (pos 150) (pos 90) one_request)
        ≡ sum_tokens (pos 160) "k1" (pos 60) one_request)
cleanup-counts_example =
    cleanup-counts (pos 150) (pos 160) (pos 90) (pos 60) "k1" one_request (ground arith)
      (ground arith)

abbrev two_rpm : ClassicRule
two_rpm = record { metric = "rpm"; limit = pos 2; per_model = true }

check-Decides_example :
    Decides
      (pos 120)
      "k1"
      "opus"
      one_request
      (check (pos 120) "k1" "opus" (two_rpm ∷ []) one_request)
      (two_rpm ∷ [])
check-Decides_example = check-Decides (pos 120) "k1" "opus" one_request (two_rpm ∷ [])

abbrev usage : TokenUsage
usage = record { input_tokens = pos 7; output_tokens = pos 5 }

-- Only the duration `5h` parses; the months are not asked for.
abbrev time : TimeLib
time = record {
  parse_duration = λ s. if str_eq s "5h" then some (pos 18_000_000_000_000) else none;
  month_start = λ now. now;
  next_month_start = λ now. now;
}

-- Numbers in place of floats.
abbrev floats : Floats ℤ
floats = record { of_int = λ n. n; at_least = λ a b. leb_ℤ b a; quota_of = λ a b. a }

abbrev store : CreditStore ℤ
store = record {
  sum_by_key = λ key start. some (pos 3);
  sum_by_project = λ project start. some (pos 10);
  sum_by_user = λ project user start. none;
}

abbrev empty_cache : CreditCache ℤ
empty_cache = record { entries = λ k. none; ttl = pos 10_000_000_000 }

abbrev limiter : Limiter ℤ
limiter = record { classic = one_request; cache = empty_cache }

abbrev credit_rule : CreditRule
credit_rule = record {
  window = "5h";
  window_type = "sliding";
  max_credits = pos 100;
  scope = "key";
  anchor_time = none;
}

abbrev policy : RateLimitPolicy
policy = record { credit_rules = credit_rule ∷ []; classic_rules = two_rpm ∷ [] }

post_record-keeps_key_sum_example :
    get (pos 130) (key_sum_key "9f" "8e" credit_rule) (
      recorded time floats store
        (pos 120)
        (pos 130)
        "9f"
        "8e"
        "u1"
        "opus"
        usage
        limiter
        credit_rule)
    ≡ get (pos 130) (key_sum_key "9f" "8e" credit_rule) empty_cache
unfolding has_prefix
post_record-keeps_key_sum_example =
    post_record-keeps_key_sum time floats store (pos 120) (pos 130) "9f" "8e" "u1" "opus" usage
      limiter credit_rule refl refl refl (ground arith) (ground arith)

abbrev spending_store : CreditStore ℤ
spending_store = record store { sum_by_user = λ project user start. some (pos 200) }

abbrev shared : RateLimitPolicy
shared = record policy { credit_rules = record credit_rule { scope = "" } ∷ [] }
