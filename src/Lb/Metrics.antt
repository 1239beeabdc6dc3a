-- ===== src/Lb/Metrics.antt =====
-- `UpstreamMetrics` of internal/proxy/lb/metrics.go: the counters of one upstream, as a function of
-- its id. An upstream that is not in the map has no stats.
use modelserver.Prelude.{
  ℕ, ◌+◌, String, ◌≡◌, refl, ap, ◌∙◌, Option, none, some, List, [], ◌∷◌, Bool, arith, str_eq,
  if◌then◌else◌, eq_iff,
}
use modelserver.Types.{or_else}

-- The timestamps are nanoseconds; `none` is an `atomic.Value` that was never stored.
pub record UpstreamStats : Type 0 where
  pub total_requests : ℕ
  pub recent_errors : ℕ
  pub consecutive_fails : ℕ
  pub last_error_at : Option ℕ
  pub last_success_at : Option ℕ

abbrev pub Metrics : Type 0
Metrics = String → Option UpstreamStats

abbrev pub fresh_stats : UpstreamStats
fresh_stats = record {
  total_requests = 0;
  recent_errors = 0;
  consecutive_fails = 0;
  last_error_at = none;
  last_success_at = none;
}

abbrev store_stats : Metrics → String → UpstreamStats → Metrics
store_stats m id s j = if str_eq id j then some s else m j

-- `getOrCreate`
abbrev get_or_create : Metrics → String → UpstreamStats
get_or_create m id = or_else (m id) fresh_stats

unfoldable pub record_success : Metrics → String → ℕ → Metrics
record_success m id now =
    let s = get_or_create m id in
    store_stats m id (record s {
      total_requests = s.total_requests + 1;
      consecutive_fails = 0;
      last_success_at = some now;
    })

unfoldable pub record_error : Metrics → String → ℕ → Metrics
record_error m id now =
    let s = get_or_create m id in
    store_stats m id (record s {
      total_requests = s.total_requests + 1;
      recent_errors = s.recent_errors + 1;
      consecutive_fails = s.consecutive_fails + 1;
      last_error_at = some now;
    })

-- `GetStats`
unfoldable pub get_stats : Metrics → String → Option UpstreamStats
get_stats m id = m id

-- A request's outcome for an upstream, at a time.
pub record Outcome : Type 0 where
  pub upstream_id : String
  pub at : ℕ
  pub succeeded : Bool

unfoldable pub observe : Metrics → Outcome → Metrics
unfolding record_success record_error
observe m o =
    if o.succeeded then record_success m o.upstream_id o.at else record_error m o.upstream_id o.at

unfoldable pub observe_all : Metrics → List Outcome → Metrics
unfolding observe
observe_all m [] = m
observe_all m (o ∷ os) = observe_all (observe m o) os

-- How many of the outcomes are of the upstream, and how many of these failed.
abbrev pub mine : String → List Outcome → ℕ
mine id [] = 0
mine id (o ∷ os) = (if str_eq o.upstream_id id then 1 else 0) + mine id os

abbrev pub failed : String → List Outcome → ℕ
failed id [] = 0
failed id (o ∷ os) =
    (if str_eq o.upstream_id id then (if o.succeeded then 0 else 1) else 0) + failed id os

-- The failures at the end of the list, after the last success; `run` is those before it.
abbrev pub trailing : String → ℕ → List Outcome → ℕ
trailing id run [] = run
trailing id run (o ∷ os) =
    trailing id (if str_eq o.upstream_id id then (if o.succeeded then 0 else run + 1) else run) os

abbrev pub stats_of : Metrics → String → UpstreamStats
stats_of m id = or_else (get_stats m id) fresh_stats

module _ (m : Metrics) (o : Outcome) (id : String) where
  total-observe :
      (stats_of (observe m o) id).total_requests
      ≡ (stats_of m id).total_requests + (if str_eq o.upstream_id id then 1 else 0)
  unfolding observe get_stats
  total-observe = ground (arith, eq_iff o.upstream_id id)

  errors-observe :
      (stats_of (observe m o) id).recent_errors
      ≡ (stats_of m id).recent_errors
        + (if str_eq o.upstream_id id then (if o.succeeded then 0 else 1) else 0)
  unfolding observe get_stats
  errors-observe = ground (arith, eq_iff o.upstream_id id)

  fails-observe : (stats_of (observe m o) id).consecutive_fails ≡ (
      if str_eq o.upstream_id id
      then (if o.succeeded then 0 else (stats_of m id).consecutive_fails + 1)
      else (stats_of m id).consecutive_fails)
  unfolding observe get_stats
  fails-observe = ground (arith, eq_iff o.upstream_id id)

-- After any outcomes, the counters of an upstream are its requests, its errors, and its errors since
-- its last success; the outcomes of other upstreams leave them alone.
pub observe_all-counts :
    (m : Metrics) (os : List Outcome) (id : String)
    → ((stats_of (observe_all m os) id).total_requests
        ≡ (stats_of m id).total_requests + mine id os)
      × ((stats_of (observe_all m os) id).recent_errors
          ≡ (stats_of m id).recent_errors + failed id os)
      × ((stats_of (observe_all m os) id).consecutive_fails
          ≡ trailing id (stats_of m id).consecutive_fails os)
unfolding observe_all
observe_all-counts m [] id = (omega arith, omega arith, refl)
observe_all-counts m (o ∷ os) id =
    let (total, errors, fails) = observe_all-counts (observe m o) os id in
    (
      omega (arith, total, total-observe m o id),
      omega (arith, errors, errors-observe m o id),
      fails ∙ ap (λ run. trailing id run os) (fails-observe m o id),
    )
