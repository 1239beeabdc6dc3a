-- ===== src/Ratelimit/Classic.antt =====
-- `ClassicLimiter` of internal/ratelimit/classic.go: the rules on requests and tokens per minute and
-- per day, over the counters. The background sweep is `Counters.cleanup` with an age of a day.
use Prim.Native.String.{◌++◌}
use modelserver.Prelude.{
  String, Bool, true, false, ◌||◌, List, [], ◌∷◌, Option, none, some, str_eq, if◌then◌else◌,
}
use modelserver.Prelude.Int.{ℤ, pos, ◌+ℤ◌, leb_ℤ, wrap_int64}
use modelserver.Ratelimit.Counters.{
  MemoryCounters, add_request, add_tokens, count_requests, sum_tokens, cleanup,
}

pub record ClassicRule : Type 0 where
  pub metric : String
  pub limit : ℤ
  pub per_model : Bool

-- The two fields of `TokenUsage` that the limiter reads.
pub record TokenUsage : Type 0 where
  pub input_tokens : ℤ
  pub output_tokens : ℤ

abbrev pub minute : ℤ
minute = pos 60_000_000_000

abbrev pub day : ℤ
day = pos 86_400_000_000_000

-- `counterKey`
unfoldable pub counter_key : String → String → String → Bool → String
counter_key api_key_id metric model per_model =
    if per_model
    then api_key_id ++ (":" ++ (metric ++ (":" ++ model)))
    else api_key_id ++ (":" ++ metric)

-- `metricWindow`
unfoldable pub metric_window : String → ℤ
metric_window metric =
    if str_eq metric "rpm" || str_eq metric "tpm"
    then minute
    else if str_eq metric "rpd" || str_eq metric "tpd"
    then day
    else minute

unfoldable pub is_request_metric : String → Bool
is_request_metric m = str_eq m "rpm" || str_eq m "rpd"

unfoldable pub is_token_metric : String → Bool
is_token_metric m = str_eq m "tpm" || str_eq m "tpd"

-- The count that a rule is held against; 0 for a metric that is neither.
unfoldable pub current : ℤ → String → String → ClassicRule → MemoryCounters → ℤ
current now api_key_id model rule c =
    let key = counter_key api_key_id rule.metric model rule.per_model in
    let window = metric_window rule.metric in
    if is_request_metric rule.metric
    then pos (count_requests now key window c)
    else if is_token_metric rule.metric
    then sum_tokens now key window c
    else pos 0

-- `Check`; `some window` is a denial with that time to wait.
unfoldable pub check : ℤ → String → String → List ClassicRule → MemoryCounters → Option ℤ
check now api_key_id model [] c = none
check now api_key_id model (rule ∷ rules) c =
    if leb_ℤ rule.limit (current now api_key_id model rule c)
    then some (metric_window rule.metric)
    else check now api_key_id model rules c

unfoldable pub add_requests : ℤ → String → String → List String → MemoryCounters → MemoryCounters
add_requests now api_key_id model [] c = c
add_requests now api_key_id model (metric ∷ metrics) c = add_requests now api_key_id model metrics (
    add_request now (counter_key api_key_id metric model true)
      (add_request now (counter_key api_key_id metric model false) c))

unfoldable pub add_token_counts :
    ℤ → String → String → ℤ → List String → MemoryCounters → MemoryCounters
add_token_counts now api_key_id model n [] c = c
add_token_counts now api_key_id model n (metric ∷ metrics) c =
    add_token_counts now api_key_id model n metrics (
      add_tokens now (counter_key api_key_id metric model true) n
        (add_tokens now (counter_key api_key_id metric model false) n c))

-- `Record`, at one time for all its additions.
unfoldable pub record_usage : ℤ → String → String → TokenUsage → MemoryCounters → MemoryCounters
unfolding add_requests add_token_counts
record_usage now api_key_id model usage c =
    let total = wrap_int64 (usage.input_tokens +ℤ usage.output_tokens) in
    add_token_counts now api_key_id model total ("tpm" ∷ "tpd" ∷ [])
      (add_requests now api_key_id model ("rpm" ∷ "rpd" ∷ []) c)

-- `startCleanup`, one tick.
abbrev pub tick : ℤ → MemoryCounters → MemoryCounters
tick now = cleanup now day
