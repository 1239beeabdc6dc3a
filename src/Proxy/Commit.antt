-- ===== src/Proxy/Commit.antt =====
-- The end of a request in internal/proxy/executor.go: `commitResponse`, with `commitErrorResponse`,
-- `commitStreamingResponse` and `commitNonStreamingResponse`, and what `Execute` records before it.
use modelserver.Prelude.{Bool, true, not, ◌&&◌, Option, none, some, str_eq, if◌then◌else◌}
use modelserver.Prelude.Int.{pos, ltb_ℤ}
use modelserver.Types.{Upstream}
use modelserver.Proxy.Replies.{Response, Reply, in_range, has_status}
use modelserver.Proxy.Requests.{
  RequestContext, released, succeeded, failed, unbound, bound, forwarded, refused, Run, emit,
  mark_retry_exhausted,
}
use modelserver.Proxy.World.{StreamEnd, World, Verdict, done}

module _ {B : Type 0} (w : World B) (ctx : RequestContext) where
  -- The body of a streamed response is copied, and the stream completed.
  unfoldable pub complete_stream : Upstream → StreamEnd → Run → Run
  unfolding mark_retry_exhausted
  complete_stream u end r =
      let copied = if end.interrupted then emit (failed u.id) r else r in
      let unbinds = emit (unbound u.id) (record copied {
        codex_capacity_error = true;
        retry_reason = "codex_capacity_after_commit";
      }) in
      let counted = if end.interrupted then unbinds else emit (failed u.id) unbinds in
      emit (released u.id) (if end.at_capacity then mark_retry_exhausted counted else copied)

  -- `commitResponse`
  unfoldable pub commit_response : Upstream → Run → Option (Response B) → Run
  unfolding complete_stream
  commit_response u r none = emit (refused (pos 502)) (emit (released u.id) r)
  commit_response u r (some resp) =
      if not (in_range (pos 200) (pos 300) resp.status_code)
      then emit (forwarded resp.status_code) (emit (released u.id) r)
      else if ctx.is_stream
      then complete_stream u (w.stream_end r.attempt) (emit (forwarded resp.status_code) r)
      else if w.body_read r.attempt
      then emit (forwarded resp.status_code) (emit (released u.id) r)
      else emit (refused (pos 502)) (emit (released u.id) r)

  -- A response that is counted as a success, and binds the session.
  abbrev pub is_success : Bool → Reply B → Bool
  is_success capacity reply =
      has_status (λ code. ltb_ℤ code (pos 500)) reply.response && not capacity

  abbrev pub bind_on : Bool → Upstream → Run → Run
  bind_on success u r = if not (str_eq ctx.session_id "") && success then emit (bound u.id) r else r

  -- The end of an attempt that is not retried.
  unfoldable pub commit : Upstream → Run → Reply B → Bool → Verdict
  commit u r reply capacity =
      let success = is_success capacity reply in
      let counted =
        emit (if success then succeeded u.id else failed u.id)
          (record r { codex_capacity_error = capacity }) in
      done (commit_response u (bind_on success u counted) reply.response)
