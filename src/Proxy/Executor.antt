-- ===== src/Proxy/Executor.antt =====
-- `Execute` of internal/proxy/executor.go from the first candidate on, for a request that is no
-- WebSocket upgrade.
use modelserver.Prelude.{
  ℕ, suc, String, Bool, true, false, not, ◌&&◌, ◌||◌, List, [], ◌∷◌, Option, none, some, length,
  str_eq, if◌then◌else◌,
}
use modelserver.Prelude.Int.{pos, eqb_ℤ}
use modelserver.Types.{Upstream}
use modelserver.Router.Matching.{ResolvedGroup}
use modelserver.Router.Selection.{SelectedUpstream}
use modelserver.Proxy.Replies.{Response, Reply, has_status, evaluate_response, retry_reason}
use modelserver.Proxy.Requests.{
  RequestContext, acquired, released, failed, sent, refused, Run, emit, retryable_error,
  mark_retryable_attempt, mark_retry_exhausted,
}
use modelserver.Proxy.World.{
  Prepared, unprepared, no_client, ready, World, Verdict, again, done, panicked, Capacity,
  undetected, no_fallback, fall_back, crashed, Recovery, over, going, is_unauthorized,
}
use modelserver.Proxy.Capacity.{handle_codex_capacity}
use modelserver.Proxy.Commit.{commit}

-- The head of the loop.
abbrev pub started : SelectedUpstream → List SelectedUpstream → Run → Run
started c rest r = record r { seen = c ∷ r.seen; todo = rest; attempt = suc (length r.seen) }

-- All candidates are tried.
unfoldable pub all_failed : Run → Run
unfolding mark_retry_exhausted
all_failed r =
    emit (refused (pos 502))
      (if str_eq r.retry_status retryable_error then mark_retry_exhausted r else r)

module _ {B : Type 0} (w : World B) (group : ResolvedGroup) (ctx : RequestContext) where
  -- The reply to the k-th request of the attempt, over a connection that is counted.
  abbrev pub resend : Upstream → Run → Run
  resend u r = emit (sent u.id) (emit (acquired u.id) r)

  abbrev pub recover_with : Upstream → ℕ → Bool → Run → Option (Response B) → Recovery B
  recover_with u k replayed r none = over r
  recover_with u k replayed r (some resp) =
      if w.refreshes r.attempt
      then going (resend u r) (w.send r.attempt k) (suc k) replayed
      else over (emit (refused resp.status_code) r)

  -- The OAuth recoveries of the two providers, once per request each.
  unfoldable pub recover_claude_code : Upstream → Run → Reply B → Recovery B
  recover_claude_code u r reply =
      if str_eq u.provider "claudecode"
        && has_status is_unauthorized reply.response
        && not r.claude_code_retried
      then recover_with u 1 false (emit (released u.id) (record r { claude_code_retried = true }))
          reply.response
      else going r reply 1 false

  unfoldable pub recover_codex : Upstream → Run → Reply B → ℕ → Recovery B
  recover_codex u r reply k =
      if str_eq u.provider "codex"
        && has_status is_unauthorized reply.response
        && not r.codex_retried
      then recover_with u k true (emit (released u.id) (record r { codex_retried = true }))
          reply.response
      else going r reply k false

  abbrev pub is_responses_kind : String → Bool
  is_responses_kind kind = str_eq kind "openai_responses" || str_eq kind "openai_responses_compact"

  abbrev pub is_invalid_body : Option (Response B) → Bool
  is_invalid_body none = false
  is_invalid_body (some resp) = w.tests.is_invalid_encrypted resp.body

  -- The recovery from `invalid_encrypted_content`, once per request.
  unfoldable pub recover_encrypted : Upstream → Run → Reply B → ℕ → Bool → Recovery B
  recover_encrypted u r reply k replayed =
      if not r.encrypted_retried
        && has_status (λ code. eqb_ℤ code (pos 400)) reply.response
        && is_responses_kind ctx.request_kind
        && is_invalid_body reply.response
      then (if w.strips r.attempt
          then going (resend u (emit (released u.id) (record r { encrypted_retried = true })))
              (w.send r.attempt k) (suc k) true
          else going (record r { encrypted_retried = true }) reply k replayed)
      else going r reply k replayed

  abbrev pub after_capacity : Upstream → Run → Reply B → Bool → Capacity → Verdict
  after_capacity u r reply capacity undetected = commit w ctx u r reply capacity
  after_capacity u r reply capacity (no_fallback r') = commit w ctx u r' reply true
  after_capacity u r reply capacity (fall_back r') = again r'
  after_capacity u r reply capacity crashed = panicked

  -- A replayed response is held against the capacity errors again.
  abbrev pub after_replay : Upstream → Bool → Recovery B → Verdict
  after_replay u capacity (over r) = done r
  after_replay u capacity (going r reply k true) =
      after_capacity u r reply capacity (handle_codex_capacity w group ctx 1 u r reply)
  after_replay u capacity (going r reply k false) = commit w ctx u r reply capacity

  abbrev pub after_codex : Upstream → Bool → Recovery B → Verdict
  after_codex u capacity (over r) = done r
  after_codex u capacity (going r reply k replayed) =
      after_replay u capacity (recover_encrypted u r reply k replayed)

  abbrev pub after_claude_code : Upstream → Bool → Recovery B → Verdict
  after_claude_code u capacity (over r) = done r
  after_claude_code u capacity (going r reply k replayed) =
      after_codex u capacity (recover_codex u r reply k)

  unfoldable pub recover : Upstream → Run → Reply B → Bool → Verdict
  recover u r reply capacity = after_claude_code u capacity (recover_claude_code u r reply)

  -- A retryable outcome.
  unfoldable pub give_up : Upstream → Run → Reply B → Run
  unfolding mark_retry_exhausted mark_retryable_attempt
  give_up u r reply =
      let reason = retry_reason reply in
      let reasoned = record r { retry_reason = reason } in
      let marked : Run = elim r.todo [
        | [] ↦ mark_retry_exhausted reasoned
        | c ∷ rest ↦ mark_retryable_attempt reason reasoned
      ] in
      emit (failed u.id) (emit (released u.id) marked)

  abbrev pub evaluated : Upstream → Run → Reply B → Capacity → Verdict
  evaluated u r reply undetected =
      if evaluate_response group.group.retry_policy reply
      then again (give_up u r reply)
      else recover u r reply false
  evaluated u r reply (no_fallback r') = recover u r' reply true
  evaluated u r reply (fall_back r') = again r'
  evaluated u r reply crashed = panicked

  abbrev pub try_prepared : Upstream → Run → Prepared → Verdict
  try_prepared u r unprepared = again r
  try_prepared u r no_client = again (emit (failed u.id) r)
  try_prepared u r ready =
      let reply = w.send r.attempt 0 in
      evaluated u (resend u r) reply (handle_codex_capacity w group ctx 0 u (resend u r) reply)

  -- One round of the loop, at the candidate `c` before `rest`.
  unfoldable pub try_candidate : SelectedUpstream → List SelectedUpstream → Run → Verdict
  try_candidate c rest r =
      try_prepared c.upstream (started c rest r) (w.prepare (suc (length r.seen)) c.upstream)
