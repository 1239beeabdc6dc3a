-- ===== src/Proxy/Replies.antt =====
-- What an upstream answers, and whether another one is worth a try: `evaluateResponse`,
-- `retryReason`, `isConnectionError` and `isTimeoutError` of internal/proxy/executor.go, and
-- `inspectCodexCapacityResponse` of internal/proxy/codex_capacity_retry.go. A body is of a type of
-- its own; the tests on its bytes are parameters.
use modelserver.Prelude.{
  String, Bool, false, not, ◌&&◌, ◌||◌, Option, none, some, contains, if◌then◌else◌,
}
use modelserver.Prelude.Int.{ℤ, pos, ltb_ℤ, leb_ℤ, eqb_ℤ}
use modelserver.Types.{RetryPolicy}

-- An error of the HTTP client: a `net.Error` with the answer of its `Timeout`, or any other. (A
-- `net.OpError` is a `net.Error`.)
pub data SendError : Type 0 where
  net_error : Bool → SendError
  other_error : SendError

pub record Response (B : Type 0) : Type 0 where
  pub status_code : ℤ
  pub body : B

-- The pair that `doUpstreamRequest` returns.
pub record Reply (B : Type 0) : Type 0 where
  pub response : Option (Response B)
  pub error : Option SendError

unfoldable pub is_connection_error : SendError → Bool
is_connection_error (net_error timeout) = not timeout
is_connection_error other_error = false

unfoldable pub is_timeout_error : SendError → Bool
is_timeout_error (net_error timeout) = timeout
is_timeout_error other_error = false

abbrev pub in_range : ℤ → ℤ → ℤ → Bool
in_range lo hi n = leb_ℤ lo n && ltb_ℤ n hi

abbrev is_error_retryable : RetryPolicy → SendError → Bool
is_error_retryable policy err =
    (is_connection_error err && contains policy.retry_on "connection_error")
    || (is_timeout_error err && contains policy.retry_on "timeout")
    || contains policy.retry_on "connection_error"

abbrev is_status_retryable : RetryPolicy → ℤ → Bool
is_status_retryable policy code =
    (in_range (pos 500) (pos 600) code && contains policy.retry_on "5xx")
    || (eqb_ℤ code (pos 429) && contains policy.retry_on "429")

abbrev reason_of_error : SendError → String
reason_of_error err = if is_timeout_error err then "timeout" else "connection_error"

module _ {B : Type 0} where
  abbrev pub has_status : (ℤ → Bool) → Option (Response B) → Bool
  has_status test none = false
  has_status test (some resp) = test resp.status_code

  abbrev evaluate_under : RetryPolicy → Option SendError → Option (Response B) → Bool
  evaluate_under policy (some err) resp = is_error_retryable policy err
  evaluate_under policy none resp = has_status (is_status_retryable policy) resp

  -- `evaluateResponse`: whether the outcome is retryable.
  unfoldable pub evaluate_response : Option RetryPolicy → Reply B → Bool
  unfolding is_connection_error is_timeout_error
  evaluate_response none reply = false
  evaluate_response (some policy) reply = evaluate_under policy reply.error reply.response

  abbrev reason_of_status : Option (Response B) → String
  reason_of_status resp =
      if has_status (λ code. eqb_ℤ code (pos 429)) resp
      then "429"
      else if has_status (in_range (pos 500) (pos 600)) resp
      then "5xx"
      else "retryable_error"

  -- `retryReason`
  unfoldable pub retry_reason : Reply B → String
  unfolding is_timeout_error
  retry_reason reply = elim reply.error [
    | some err ↦ reason_of_error err
    | none ↦ reason_of_status reply.response
  ]

-- The tests on the bytes of a body: `probeCodexCapacityStream`, `isCodexCapacityErrorBody` on what
-- is read, and `isInvalidEncryptedContentError`.
pub record BodyTests (B : Type 0) : Type 0 where
  pub probe_capacity : B → Bool
  pub is_capacity_error : B → Bool
  pub is_invalid_encrypted : B → Bool

module _ {B : Type 0} (tests : BodyTests B) where
  abbrev inspect_response : Bool → Response B → Bool
  inspect_response is_stream resp =
      if is_stream && in_range (pos 200) (pos 300) resp.status_code
      then tests.probe_capacity resp.body
      else if (not is_stream && ltb_ℤ resp.status_code (pos 400))
          || leb_ℤ (pos 400) resp.status_code
      then tests.is_capacity_error resp.body
      else false

  abbrev inspect_outcome : Bool → Option SendError → Option (Response B) → Bool
  inspect_outcome is_stream (some err) resp = false
  inspect_outcome is_stream none none = false
  inspect_outcome is_stream none (some resp) = inspect_response is_stream resp

  -- `inspectCodexCapacityResponse`
  unfoldable pub inspect_codex_capacity_response : Bool → Reply B → Bool
  inspect_codex_capacity_response is_stream reply =
      inspect_outcome is_stream reply.error reply.response
