-- ===== src/Proxy/Capacity.antt =====
-- `handleCodexCapacity` in `Execute` of internal/proxy/executor.go: a Codex model at capacity.
use modelserver.Prelude.{
  ℕ, ◌&&◌, ◌||◌, List, any, Option, none, some, length, ltb, str_eq, if◌then◌else◌,
}
use modelserver.Types.{Upstream}
use modelserver.Lb.Balancer.{State}
use modelserver.Router.Matching.{ResolvedGroup}
use modelserver.Router.Selection.{SelectedUpstream, select_capacity_fallbacks}
use modelserver.Proxy.Replies.{Reply, inspect_codex_capacity_response}
use modelserver.Proxy.Requests.{
  RequestContext, released, failed, unbound, Run, emit, ids, mark_retryable_attempt,
  mark_retry_exhausted, add_fallbacks,
}
use modelserver.Proxy.World.{
  World, Capacity, undetected, no_fallback, fall_back, crashed, untried, known,
}

module _ {B : Type 0} (w : World B) (group : ResolvedGroup) (ctx : RequestContext) where
  unfoldable pub exhaust_capacity : Run → Capacity
  unfolding mark_retry_exhausted
  exhaust_capacity r =
      no_fallback (mark_retry_exhausted (record r { retry_reason = "codex_capacity_no_fallback" }))

  unfoldable pub retry_capacity : Upstream → Run → Capacity
  unfolding mark_retryable_attempt
  retry_capacity u r =
      fall_back
        (emit (failed u.id) (emit (released u.id) (mark_retryable_attempt "codex_capacity" r)))

  abbrev pub with_fallbacks : Upstream → Run → Option (List SelectedUpstream) × State → Capacity
  with_fallbacks u r (none, s) = crashed
  with_fallbacks u r (some fs, s) =
      let todo = add_fallbacks fs (known r) r.todo in
      if any (untried r) r.todo || ltb (length r.todo) (length todo)
      then retry_capacity u (record r { todo = todo; balancer = s })
      else exhaust_capacity (record r { todo = todo; balancer = s })

  -- `handleCodexCapacity`, at its k-th call of the attempt.
  unfoldable pub handle_codex_capacity : ℕ → Upstream → Run → Reply B → Capacity
  handle_codex_capacity k u r reply =
      if str_eq u.provider "codex" && inspect_codex_capacity_response w.tests ctx.is_stream reply
      then with_fallbacks u (emit (unbound u.id) r)
          (select_capacity_fallbacks (w.router r.attempt k) group (ids r.seen) r.balancer)
      else undetected
