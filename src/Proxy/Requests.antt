-- ===== src/Proxy/Requests.antt =====
-- What `Execute` of internal/proxy/executor.go keeps of a request while it tries upstreams, and the
-- calls it makes on the way.
use modelserver.Prelude.{ℕ, String, Bool, List, [], ◌∷◌, ◌++◌, map, contains, str_eq, if◌then◌else◌}
use modelserver.Prelude.Int.{ℤ}
use modelserver.Lb.Balancer.{State}
use modelserver.Router.Selection.{SelectedUpstream}

-- The fields of `RequestContext` that the loop reads.
pub record RequestContext : Type 0 where
  pub project_id : String
  pub model : String
  pub request_kind : String
  pub client_bucket : String
  pub session_id : String
  pub is_stream : Bool

-- The calls that a request makes on the tracker, the metrics and the sessions, each with the id of
-- an upstream; the requests it sends; and its answers to the client, a response of an upstream that
-- is forwarded or an error of the proxy, each with its status.
pub data Effect : Type 0 where
  acquired : String → Effect
  released : String → Effect
  succeeded : String → Effect
  failed : String → Effect
  unbound : String → Effect
  bound : String → Effect
  sent : String → Effect
  forwarded : ℤ → Effect
  refused : ℤ → Effect

-- The variables of the loop. The slice of candidates is the reverse of `seen`, which are those
-- tried so far, followed by `todo`; the calls stand in `log`, the latest first.
pub record Run : Type 0 where
  pub seen : List SelectedUpstream
  pub todo : List SelectedUpstream
  pub claude_code_retried : Bool
  pub codex_retried : Bool
  pub encrypted_retried : Bool
  pub attempt : ℕ
  pub retry_status : String
  pub retry_reason : String
  pub codex_capacity_error : Bool
  pub balancer : State
  pub log : List Effect

abbrev pub emit : Effect → Run → Run
emit e r = record r { log = e ∷ r.log }

abbrev pub ids : List SelectedUpstream → List String
ids cs = map (λ c. c.upstream.id) cs

abbrev pub retryable_error : String
retryable_error = "retryable_error"

abbrev pub retry_exhausted : String
retry_exhausted = "retry_exhausted"

-- `markRetryableAttempt`
unfoldable pub mark_retryable_attempt : String → Run → Run
mark_retryable_attempt reason r = record r {
  retry_status = retryable_error;
  retry_reason = if str_eq reason "" then r.retry_reason else reason;
}

-- `markRetryExhausted`
unfoldable pub mark_retry_exhausted : Run → Run
mark_retry_exhausted r = record r { retry_status = retry_exhausted }

-- The loop over the fallbacks in `handleCodexCapacity`: those whose ids are not known are appended.
unfoldable pub add_fallbacks :
    List SelectedUpstream → List String → List SelectedUpstream → List SelectedUpstream
add_fallbacks [] known todo = todo
add_fallbacks (f ∷ fs) known todo =
    let skip = add_fallbacks fs known todo in
    let add = add_fallbacks fs (f.upstream.id ∷ known) (todo ++ f ∷ []) in
    if contains known f.upstream.id then skip else add
