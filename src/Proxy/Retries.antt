-- ===== src/Proxy/Retries.antt =====
-- Which outcomes `evaluateResponse` of internal/proxy/executor.go finds retryable.
use modelserver.Prelude.{
  ◌≡◌, ◌↔◌, refl, true, false, ◌&&◌, inl, inr, Option, none, some, arith, contains, Bool-cases,
}
use modelserver.Prelude.Int.{pos, ◌≤ℤ◌, ◌<ℤ◌, eqb_ℤ}
use modelserver.Types.{RetryPolicy}
use modelserver.Proxy.Replies.{
  SendError, net_error, other_error, Response, Reply, evaluate_response,
}

-- The reasons for a retry: an error of any kind, a timeout included, under "connection_error", a
-- timeout under "timeout", and a response of one of two kinds of status, which is not looked at
-- where there is an error.
pub data Retryable {B : Type 0} (policy : RetryPolicy) (reply : Reply B) : Type 0 where
  by_error :
      (err : SendError)
      → reply.error ≡ some err
      → contains policy.retry_on "connection_error" ≡ true
      → Retryable policy reply
  by_timeout :
      reply.error ≡ some (net_error true)
      → contains policy.retry_on "timeout" ≡ true
      → Retryable policy reply
  by_server_error :
      (resp : Response B)
      → reply.error ≡ none
      → reply.response ≡ some resp
      → pos 500 ≤ℤ resp.status_code
      → resp.status_code <ℤ pos 600
      → contains policy.retry_on "5xx" ≡ true
      → Retryable policy reply
  by_rate_limit :
      (resp : Response B)
      → reply.error ≡ none
      → reply.response ≡ some resp
      → resp.status_code ≡ pos 429
      → contains policy.retry_on "429" ≡ true
      → Retryable policy reply

module _ {B : Type 0} (policy : RetryPolicy) where
  evaluate_response_sound :
      (e : Option SendError) (o : Option (Response B))
      → evaluate_response (some policy) (record { response = o; error = e }) ≡ true
      → Retryable policy (record { response = o; error = e })
  unfolding evaluate_response
  evaluate_response_sound (some (net_error true)) o h =
      elim (Bool-cases (contains policy.retry_on "connection_error")) [
        | inl any_error ↦ by_error (net_error true) refl any_error
        | inr not_any ↦ by_timeout refl (ground arith)
      ]
  evaluate_response_sound (some (net_error false)) o h =
      by_error (net_error false) refl (ground arith)
  evaluate_response_sound (some other_error) o h = by_error other_error refl (ground arith)
  evaluate_response_sound none none h = cc
  evaluate_response_sound none (some resp) h =
      elim (Bool-cases (eqb_ℤ resp.status_code (pos 429) && contains policy.retry_on "429")) [
        | inl limited ↦ by_rate_limit resp refl refl (ground arith) (ground arith)
        | inr other ↦ by_server_error resp refl refl (ground arith) (ground arith) (ground arith)
      ]

  evaluate_response_complete :
      (e : Option SendError) (o : Option (Response B))
      → Retryable policy (record { response = o; error = e })
      → evaluate_response (some policy) (record { response = o; error = e }) ≡ true
  unfolding evaluate_response
  evaluate_response_complete e o (by_error err h k) = ground arith
  evaluate_response_complete e o (by_timeout h k) = ground arith
  evaluate_response_complete e o (by_server_error resp h k lo hi on) = ground arith
  evaluate_response_complete e o (by_rate_limit resp h k code on) = ground arith

-- Under a retry policy of the group an outcome is retryable just where the policy names a reason for
-- it: an error of any kind, a timeout included, under "connection_error", a timeout under "timeout",
-- and, where there is no error, a status from 500 to 599 under "5xx" and 429 under "429".
pub evaluate_response-Retryable :
    {B : Type 0} (policy : RetryPolicy) (reply : Reply B)
    → (evaluate_response (some policy) reply ≡ true) ↔ Retryable policy reply
evaluate_response-Retryable policy reply = (
  evaluate_response_sound policy reply.error reply.response,
  evaluate_response_complete policy reply.error reply.response,
)
