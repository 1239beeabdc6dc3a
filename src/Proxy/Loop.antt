-- ===== src/Proxy/Loop.antt =====
-- The whole of `Execute` of internal/proxy/executor.go for a request that is no WebSocket upgrade:
-- routing, selection, the reading of the body, and the loop over the candidates.
use modelserver.Prelude.{ℕ, zero, suc, ◌+◌, false, List, [], ◌∷◌, Option, none, some, length}
use modelserver.Prelude.Int.{ℤ, pos}
use modelserver.Types.{Route}
use modelserver.Lb.Balancer.{State}
use modelserver.Router.Matching.{Groups, ResolvedGroup, MatchResult, no_route, matched, match_route}
use modelserver.Router.Sessions.{SessionMap}
use modelserver.Router.Selection.{SelectedUpstream, Env, select_with_retry}
use modelserver.Proxy.Requests.{RequestContext, Run, emit, refused}
use modelserver.Proxy.World.{World, again, done, panicked}
use modelserver.Proxy.Executor.{try_candidate, all_failed}

pub data Ended : Type 0 where
  answered : Run → Ended
  fault : Ended
  out_of_fuel : Ended

-- How the reading of the request's body ends.
pub data BodyRead : Type 0 where
  unreadable : BodyRead
  too_large : BodyRead
  complete : BodyRead

module _ {B : Type 0} (w : World B) (group : ResolvedGroup) (ctx : RequestContext) where
  -- The loop over the candidates, for at most `fuel` rounds.
  unfoldable pub run_loop : ℕ → List SelectedUpstream → Run → Ended
  run_loop fuel [] r = answered (all_failed r)
  run_loop zero (c ∷ rest) r = out_of_fuel
  run_loop (suc fuel) (c ∷ rest) r = elim (try_candidate w group ctx c rest r) [
    | again r' ↦ run_loop fuel r'.todo r'
    | done r' ↦ answered r'
    | panicked ↦ fault
  ]

-- A request before its first attempt.
abbrev pub fresh_run : List SelectedUpstream → State → Run
fresh_run cs s = record {
  seen = [];
  todo = cs;
  claude_code_retried = false;
  codex_retried = false;
  encrypted_retried = false;
  attempt = 0;
  retry_status = "";
  retry_reason = "";
  codex_capacity_error = false;
  balancer = s;
  log = [];
}

abbrev pub refuse : ℤ → State → Ended
refuse status s = answered (emit (refused status) (fresh_run [] s))

module _ {B : Type 0} (w : World B) (body : BodyRead) (ctx : RequestContext) where
  abbrev pub after_body : BodyRead → ResolvedGroup → List SelectedUpstream → State → Ended
  after_body unreadable group cs s = refuse (pos 400) s
  after_body too_large group cs s = refuse (pos 413) s
  after_body complete group cs s =
      run_loop w group ctx (length cs + length group.members) cs (fresh_run cs s)

  abbrev pub after_selection :
      ResolvedGroup → Option (List SelectedUpstream) × SessionMap × State → Ended
  after_selection group (none, m, s) = fault
  after_selection group (some [], m, s) = refuse (pos 503) s
  after_selection group (some (c ∷ cs), m, s) = after_body body group (c ∷ cs) s

  abbrev pub after_match :
      Env → (SessionMap → SessionMap) → SessionMap → State → MatchResult → Ended
  after_match env others m s no_route = refuse (pos 404) s
  after_match env others m s (matched none) = fault
  after_match env others m s (matched (some group)) =
      after_selection group (select_with_retry env others group ctx.session_id ctx.model m s)

  -- `Execute`. The rounds are enough: each takes a candidate, and each fallback that is added is a
  -- member of the group that was no candidate before.
  unfoldable pub execute :
      Groups → List Route → Env → (SessionMap → SessionMap) → SessionMap → State → Ended
  execute groups routes env others m s =
      after_match env others m s
        (match_route groups routes ctx.project_id ctx.model ctx.request_kind ctx.client_bucket)
