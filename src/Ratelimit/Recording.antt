-- ===== src/Ratelimit/Recording.antt =====
-- About `Record`, and `Check` after it.
use Prim.Native.String.{len, ◌++◌ as str_append}
use text.Mathlib.TextLemmas.{append_cancel_left, append_cancel_right}
use text.Mathlib.TextPositions.{len-append}
use modelserver.Prelude.{
  ℕ, ◌+◌, String, ◌≡◌, ◌≢◌, refl, sym, ap, ◌∙◌, ◌⊎◌, inl, inr, Bool, true, false, not, ◌&&◌, List,
  [], ◌∷◌, none, some, arith, str_eq, eq_iff, if◌then◌else◌,
}
use modelserver.Prelude.Int.{ℤ, pos, ◌-ℤ◌, leb_ℤ}
use modelserver.Ratelimit.Counters.{
  MemoryCounters, new_memory_counters, after, count_requests, count_after,
  count_requests-add_request, count_requests-add_tokens,
}
use modelserver.Ratelimit.Classic.{
  ClassicRule, TokenUsage, counter_key, metric_window, is_request_metric, current, check,
  record_usage,
}

abbrev same_flag : Bool → Bool → Bool
same_flag true b = b
same_flag false b = not b

-- An equation of texts from a test, and a test that fails from a refutation.
eq_test : (s t : String) → (s ≡ t → ⊥) → str_eq s t ≡ false
eq_test s t h = ground (arith, eq_iff s t)

eq_tests : (s t u v : String) → (s ≡ t → u ≡ v) → (u ≡ v → s ≡ t) → str_eq s t ≡ str_eq u v
eq_tests s t u v h k = ground (arith, eq_iff s t, eq_iff u v)

longer : (m n model : String) → len m ≡ 3 → len n ≡ 3 → m ≢ str_append n (str_append ":" model)
longer m n model lm ln e =
    omega (arith, ap len e, len-append n (str_append ":" model), len-append ":" model)

and_true : (b : Bool) → b ≡ (b && true)
and_true b = ground arith

and_false : (b : Bool) → false ≡ (b && false)
and_false b = ground arith

counter_key_eq :
    (id m n model : String) (b d : Bool)
    → len m ≡ 3
    → len n ≡ 3
    → str_eq (counter_key id m model b) (counter_key id n model d) ≡ (str_eq m n && same_flag b d)
unfolding counter_key
counter_key_eq id m n model false false lm ln =
    eq_tests _ _ m n
      (λ e.
        append_cancel_left ":" m n (append_cancel_left id (str_append ":" m) (str_append ":" n) e))
      (λ e. rw e)
    ∙ and_true (str_eq m n)
counter_key_eq id m n model true true lm ln =
    eq_tests _ _ m n
      (λ e.
        append_cancel_right m n (str_append ":" model)
          (append_cancel_left ":" _ _ (append_cancel_left id _ _ e)))
      (λ e. rw e)
    ∙ and_true (str_eq m n)
counter_key_eq id m n model false true lm ln =
    eq_test _ _
      (λ e. longer m n model lm ln (append_cancel_left ":" _ _ (append_cancel_left id _ _ e)))
    ∙ and_false (str_eq m n)
counter_key_eq id m n model true false lm ln =
    eq_test _ _
      (λ e. longer n m model ln lm (sym (append_cancel_left ":" _ _ (append_cancel_left id _ _ e))))
    ∙ and_false (str_eq m n)

-- The count of a request under the key of a metric.
abbrev counted : ℤ → ℤ → ℕ
counted cutoff at = if after cutoff at then 1 else 0

module _ (at now window : ℤ) (id model : String) (usage : TokenUsage) (c : MemoryCounters) where
  count-rpm :
      (b : Bool)
      → count_requests now (counter_key id "rpm" model b) window (record_usage at id model usage c)
        ≡ count_requests now (counter_key id "rpm" model b) window c + counted (now -ℤ window) at
  unfolding record_usage
  count-rpm b =
      simp (count_requests-add_tokens, count_requests-add_request, counter_key_eq) (ground arith)

  count-rpd :
      (b : Bool)
      → count_requests now (counter_key id "rpd" model b) window (record_usage at id model usage c)
        ≡ count_requests now (counter_key id "rpd" model b) window c + counted (now -ℤ window) at
  unfolding record_usage
  count-rpd b =
      simp (count_requests-add_tokens, count_requests-add_request, counter_key_eq) (ground arith)

-- The counters after a key's requests for one model, at the given times.
abbrev pub record_all : List ℤ → String → String → TokenUsage → MemoryCounters → MemoryCounters
record_all [] id model usage c = c
record_all (t ∷ ts) id model usage c =
    record_usage t id model usage (record_all ts id model usage c)

-- The metrics that count requests.
abbrev pub CountsRequests : String → Type 0
CountsRequests metric = (metric ≡ "rpm") ⊎ (metric ≡ "rpd")

count-record_usage :
    (at now window : ℤ) (id model metric : String) (usage : TokenUsage) (b : Bool)
    (c : MemoryCounters)
    → CountsRequests metric
    → count_requests now (counter_key id metric model b) window (record_usage at id model usage c)
      ≡ count_requests now (counter_key id metric model b) window c + counted (now -ℤ window) at
count-record_usage at now window id model metric usage b c (inl e) =
    rw e (count-rpm at now window id model usage c b)
count-record_usage at now window id model metric usage b c (inr e) =
    rw e (count-rpd at now window id model usage c b)

count-record_all :
    (ts : List ℤ) (now window : ℤ) (id model metric : String) (usage : TokenUsage) (b : Bool)
    → CountsRequests metric
    → count_requests now
        (counter_key id metric model b)
        window
        (record_all ts id model usage new_memory_counters)
      ≡ count_after (now -ℤ window) ts
unfolding count_requests count_after
count-record_all [] now window id model metric usage b h = refl
count-record_all (t ∷ ts) now window id model metric usage b h = omega (
  arith,
  count-record_usage t now window id model metric usage b
      (record_all ts id model usage new_memory_counters) h,
  count-record_all ts now window id model metric usage b h,
)

is_request_metric_lem : (metric : String) → CountsRequests metric → is_request_metric metric ≡ true
unfolding is_request_metric
is_request_metric_lem metric (inl e) = rw e
is_request_metric_lem metric (inr e) = rw e

current-record_all :
    (ts : List ℤ) (now : ℤ) (id model : String) (usage : TokenUsage) (rule : ClassicRule)
    → CountsRequests rule.metric
    → current now id model rule (record_all ts id model usage new_memory_counters)
      ≡ pos (count_after (now -ℤ metric_window rule.metric) ts)
unfolding current
current-record_all ts now id model usage rule h = rw (is_request_metric_lem rule.metric h) (
    ap pos (
      count-record_all ts now (metric_window rule.metric) id model rule.metric usage rule.per_model
        h))

-- A limit on requests is enforced exactly: after the requests of an API key for a model, at any
-- times, a rule on requests per minute or per day, for the model or for all, denies the next one
-- just when the requests that are younger than its window have reached its limit.
pub check-record_all :
    (ts : List ℤ) (now : ℤ) (id model : String) (usage : TokenUsage) (rule : ClassicRule)
    → CountsRequests rule.metric
    → check now id model (rule ∷ []) (record_all ts id model usage new_memory_counters) ≡ (
        if leb_ℤ rule.limit (pos (count_after (now -ℤ metric_window rule.metric) ts))
        then some (metric_window rule.metric)
        else none)
unfolding check
check-record_all ts now id model usage rule h = rw (current-record_all ts now id model usage rule h)
