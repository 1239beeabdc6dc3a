-- ===== src/Proxy/Balanced.antt =====
-- What `Execute` keeps in balance: the connections it counts, its answers to the client, and the
-- requests it sends.
use modelserver.Prelude.{
  ℕ, suc, ◌+◌, ◌≤◌, String, ◌≡◌, Bool, true, false, ◌&&◌, List, [], ◌∷◌, Option, none, some, arith,
  length, str_eq, if◌then◌else◌, Bool-cases, inl, inr,
}
use modelserver.Types.{Upstream}
use modelserver.Lb.Balancer.{State}
use modelserver.Router.Matching.{ResolvedGroup}
use modelserver.Router.Selection.{SelectedUpstream}
use modelserver.Proxy.Replies.{Response, Reply, evaluate_response, inspect_codex_capacity_response}
use modelserver.Proxy.Requests.{
  RequestContext, Effect, acquired, released, succeeded, unbound, bound, sent, forwarded, refused,
  Run, emit, mark_retryable_attempt, mark_retry_exhausted,
}
use modelserver.Proxy.World.{
  Prepared, unprepared, no_client, ready, StreamEnd, World, Verdict, again, done, panicked,
  Capacity, undetected, no_fallback, fall_back, crashed, Recovery, over, going,
}
use modelserver.Proxy.Capacity.{
  exhaust_capacity, retry_capacity, with_fallbacks, handle_codex_capacity,
}
use modelserver.Proxy.Commit.{complete_stream, commit_response, commit}
use modelserver.Proxy.Executor.{
  resend, recover_claude_code, recover_codex, recover_encrypted, after_capacity, after_replay,
  after_codex, after_claude_code, recover, give_up, evaluated, try_prepared, try_candidate,
  all_failed,
}

-- How often the log counts a connection of the upstream up and down, answers, and sends.
abbrev pub opens : String → List Effect → ℕ
opens id [] = 0
opens id (acquired u ∷ es) = (if str_eq u id then 1 else 0) + opens id es
opens id (e ∷ es) = opens id es

abbrev pub closes : String → List Effect → ℕ
closes id [] = 0
closes id (released u ∷ es) = (if str_eq u id then 1 else 0) + closes id es
closes id (e ∷ es) = closes id es

abbrev pub answers : List Effect → ℕ
answers [] = 0
answers (forwarded code ∷ es) = suc (answers es)
answers (refused code ∷ es) = suc (answers es)
answers (e ∷ es) = answers es

abbrev pub sends : List Effect → ℕ
sends [] = 0
sends (sent u ∷ es) = suc (sends es)
sends (e ∷ es) = sends es

-- The successes that are recorded, and the bindings of the session.
abbrev pub wins : List Effect → ℕ
wins [] = 0
wins (succeeded u ∷ es) = suc (wins es)
wins (e ∷ es) = wins es

abbrev pub binds : List Effect → ℕ
binds [] = 0
binds (bound u ∷ es) = suc (binds es)
binds (e ∷ es) = binds es

abbrev pub unused : Bool → ℕ
unused retried = if retried then 0 else 1

-- The recoveries that the request has left.
abbrev pub recoveries : Run → ℕ
recoveries r = unused r.claude_code_retried + unused r.codex_retried + unused r.encrypted_retried

module _ (id : String) where
  -- No connection is open, and the client has no answer.
  pub record Idle (r : Run) : Type 0 where
    pub level : opens id r.log ≡ closes id r.log
    pub silent : answers r.log ≡ 0
    pub unwon : wins r.log ≡ 0
    pub unbinding : binds r.log ≡ 0
    pub budget : sends r.log + recoveries r ≤ length r.seen + 3

  -- One connection is open, to the upstream `u`.
  record Holding (u : Upstream) (r : Run) : Type 0 where
    level : opens id r.log ≡ closes id r.log + (if str_eq u.id id then 1 else 0)
    silent : answers r.log ≡ 0
    unwon : wins r.log ≡ 0
    unbinding : binds r.log ≡ 0
    budget : sends r.log + recoveries r ≤ length r.seen + 3

  -- All connections are closed again, the client has one answer, at most one success is recorded,
  -- and the session is bound with it or not at all.
  pub record Settled (r : Run) : Type 0 where
    pub level : opens id r.log ≡ closes id r.log
    pub once : answers r.log ≡ 1
    pub won : wins r.log ≤ 1
    pub binding : binds r.log ≤ wins r.log
    pub budget : sends r.log ≤ length r.seen + 3

  -- The connection to `u` is open, and the outcome is recorded.
  record Judged (u : Upstream) (r : Run) : Type 0 where
    level : opens id r.log ≡ closes id r.log + (if str_eq u.id id then 1 else 0)
    silent : answers r.log ≡ 0
    won : wins r.log ≤ 1
    binding : binds r.log ≤ wins r.log
    budget : sends r.log ≤ length r.seen + 3

  abbrev pub Keeps : Verdict → Type 0
  Keeps (again r) = Idle r
  Keeps (done r) = Settled r
  Keeps panicked = Unit

  abbrev KeepsCapacity : Upstream → Capacity → Type 0
  KeepsCapacity u undetected = Unit
  KeepsCapacity u (no_fallback r) = Holding u r
  KeepsCapacity u (fall_back r) = Idle r
  KeepsCapacity u crashed = Unit

  abbrev KeepsRecovery : {B : Type 0} → Upstream → Recovery B → Type 0
  KeepsRecovery u (over r) = Settled r
  KeepsRecovery u (going r reply k replayed) = Holding u r

  module _ {B : Type 0} (w : World B) (group : ResolvedGroup) (ctx : RequestContext)
      (u : Upstream) where
    with_fallbacks-Keeps :
        (r : Run) (p : Option (List SelectedUpstream) × State)
        → Holding u r
        → KeepsCapacity u (with_fallbacks w group ctx u r p)
    unfolding exhaust_capacity retry_capacity mark_retry_exhausted mark_retryable_attempt
    with_fallbacks-Keeps r (none, s) h = tt
    with_fallbacks-Keeps r (some fs, s) h = ground arith

    handle_codex_capacity-Keeps :
        (k : ℕ) (r : Run) (reply : Reply B)
        → Holding u r
        → KeepsCapacity u (handle_codex_capacity w group ctx k u r reply)
    unfolding handle_codex_capacity
    handle_codex_capacity-Keeps k r reply h =
        elim (Bool-cases (
          str_eq u.provider "codex"
          && inspect_codex_capacity_response w.tests ctx.is_stream reply)) [
            | inl full ↦ rw full (with_fallbacks-Keeps (emit (unbound u.id) r) _ (ground arith))
            | inr other ↦ rw other tt
          ]

    complete_stream-Settled :
        (end : StreamEnd) (r : Run)
        → opens id r.log ≡ closes id r.log + (if str_eq u.id id then 1 else 0)
        → answers r.log ≡ 1
        → wins r.log ≤ 1
        → binds r.log ≤ wins r.log
        → sends r.log ≤ length r.seen + 3
        → Settled (complete_stream w ctx u end r)
    unfolding complete_stream mark_retry_exhausted
    complete_stream-Settled end r a b c d e = ground arith

    commit_response-Settled :
        (r : Run) (resp : Option (Response B))
        → Judged u r
        → Settled (commit_response w ctx u r resp)
    unfolding commit_response
    commit_response-Settled r none h = ground arith
    commit_response-Settled r (some resp) h = ground (
      arith,
      complete_stream-Settled (w.stream_end r.attempt) (emit (forwarded resp.status_code) r),
    )

    commit-Keeps :
        (r : Run) (reply : Reply B) (capacity : Bool)
        → Holding u r
        → Keeps (commit w ctx u r reply capacity)
    unfolding commit
    commit-Keeps r reply capacity h = commit_response-Settled _ reply.response (ground arith)

    after_capacity-Keeps :
        (r : Run) (reply : Reply B) (capacity : Bool) (found : Capacity)
        → Holding u r
        → KeepsCapacity u found
        → Keeps (after_capacity w group ctx u r reply capacity found)
    after_capacity-Keeps r reply capacity undetected h k = commit-Keeps r reply capacity h
    after_capacity-Keeps r reply capacity (no_fallback r') h k = commit-Keeps r' reply true k
    after_capacity-Keeps r reply capacity (fall_back r') h k = k
    after_capacity-Keeps r reply capacity crashed h k = tt

    after_replay-Keeps :
        (capacity : Bool) (rec : Recovery B)
        → KeepsRecovery u rec
        → Keeps (after_replay w group ctx u capacity rec)
    after_replay-Keeps capacity (over r) h = h
    after_replay-Keeps capacity (going r reply k true) h =
        after_capacity-Keeps r reply capacity _ h (handle_codex_capacity-Keeps 1 r reply h)
    after_replay-Keeps capacity (going r reply k false) h = commit-Keeps r reply capacity h

    recover_encrypted-Keeps :
        (r : Run) (reply : Reply B) (k : ℕ) (replayed : Bool)
        → Holding u r
        → KeepsRecovery u (recover_encrypted w group ctx u r reply k replayed)
    unfolding recover_encrypted
    recover_encrypted-Keeps r reply k replayed h = ground arith

    recover_codex-Keeps :
        (r : Run) (reply : Reply B) (k : ℕ)
        → Holding u r
        → KeepsRecovery u (recover_codex w group ctx u r reply k)
    unfolding recover_codex
    recover_codex-Keeps r reply k h = ground arith

    recover_claude_code-Keeps :
        (r : Run) (reply : Reply B)
        → Holding u r
        → KeepsRecovery u (recover_claude_code w group ctx u r reply)
    unfolding recover_claude_code
    recover_claude_code-Keeps r reply h = ground arith

    after_codex-Keeps :
        (capacity : Bool) (rec : Recovery B)
        → KeepsRecovery u rec
        → Keeps (after_codex w group ctx u capacity rec)
    after_codex-Keeps capacity (over r) h = h
    after_codex-Keeps capacity (going r reply k replayed) h =
        after_replay-Keeps capacity _ (recover_encrypted-Keeps r reply k replayed h)

    after_claude_code-Keeps :
        (capacity : Bool) (rec : Recovery B)
        → KeepsRecovery u rec
        → Keeps (after_claude_code w group ctx u capacity rec)
    after_claude_code-Keeps capacity (over r) h = h
    after_claude_code-Keeps capacity (going r reply k replayed) h =
        after_codex-Keeps capacity _ (recover_codex-Keeps r reply k h)

    recover-Keeps :
        (r : Run) (reply : Reply B) (capacity : Bool)
        → Holding u r
        → Keeps (recover w group ctx u r reply capacity)
    unfolding recover
    recover-Keeps r reply capacity h =
        after_claude_code-Keeps capacity _ (recover_claude_code-Keeps r reply h)

    give_up-Idle : (r : Run) (reply : Reply B) → Holding u r → Idle (give_up w group ctx u r reply)
    unfolding give_up mark_retry_exhausted mark_retryable_attempt
    give_up-Idle r reply h = ground arith

    evaluated-Keeps :
        (r : Run) (reply : Reply B) (found : Capacity)
        → Holding u r
        → KeepsCapacity u found
        → Keeps (evaluated w group ctx u r reply found)
    evaluated-Keeps r reply undetected h k =
        elim (Bool-cases (evaluate_response group.group.retry_policy reply)) [
          | inl retryable ↦ rw retryable (give_up-Idle r reply h)
          | inr final ↦ rw final (recover-Keeps r reply false h)
        ]
    evaluated-Keeps r reply (no_fallback r') h k = recover-Keeps r' reply true k
    evaluated-Keeps r reply (fall_back r') h k = k
    evaluated-Keeps r reply crashed h k = tt

    try_prepared-Keeps :
        (r : Run) (p : Prepared)
        → opens id r.log ≡ closes id r.log
        → answers r.log ≡ 0
        → wins r.log ≡ 0
        → binds r.log ≡ 0
        → suc (sends r.log + recoveries r) ≤ length r.seen + 3
        → Keeps (try_prepared w group ctx u r p)
    try_prepared-Keeps r unprepared a b c d e = ground arith
    try_prepared-Keeps r no_client a b c d e = ground arith
    try_prepared-Keeps r ready a b c d e =
        let held : Holding u (resend w group ctx u r) = ground arith in
        evaluated-Keeps _ _ _ held (handle_codex_capacity-Keeps 0 _ _ held)

  pub try_candidate-Keeps :
      {B : Type 0} (w : World B) (group : ResolvedGroup) (ctx : RequestContext)
      (c : SelectedUpstream) (rest : List SelectedUpstream) (r : Run)
      → Idle r
      → Keeps (try_candidate w group ctx c rest r)
  unfolding try_candidate
  try_candidate-Keeps w group ctx c rest r h =
      try_prepared-Keeps w group ctx c.upstream _ _ h.level h.silent h.unwon h.unbinding
        (ground arith)

  pub all_failed-Settled : (r : Run) → Idle r → Settled (all_failed r)
  unfolding all_failed mark_retry_exhausted
  all_failed-Settled r h = ground arith
