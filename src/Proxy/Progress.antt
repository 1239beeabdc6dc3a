-- ===== src/Proxy/Progress.antt =====
-- How an attempt moves through the candidates: the slice only grows by new members of the group.
use mathlib.Core.Path.{subst}
use modelserver.Prelude.{
  not, any, ltb, ◌||◌, sym, ◌∙◌, ℕ, ◌≡◌, refl, Bool, true, false, ◌&&◌, List, Option, none, some,
  arith, length, str_eq, Bool-cases, inl, inr,
}
use modelserver.Prelude.Int.{pos, eqb_ℤ}
use modelserver.Types.{Upstream}
use modelserver.Lb.Balancer.{State}
use modelserver.Router.Matching.{ResolvedGroup, GroupMember}
use modelserver.Router.Selection.{SelectedUpstream}
use modelserver.Proxy.Replies.{
  has_status, Response, Reply, evaluate_response, inspect_codex_capacity_response,
}
use modelserver.Proxy.Requests.{
  RequestContext, unbound, Run, emit, ids, add_fallbacks, mark_retryable_attempt,
  mark_retry_exhausted,
}
use modelserver.Proxy.World.{
  Prepared, unprepared, no_client, ready, StreamEnd, World, Verdict, again, done, panicked,
  Capacity, undetected, no_fallback, fall_back, crashed, Recovery, over, going, is_unauthorized,
  untried, known,
}
use modelserver.Proxy.Capacity.{
  exhaust_capacity, retry_capacity, with_fallbacks, handle_codex_capacity,
}
use modelserver.Proxy.Commit.{complete_stream, commit_response, commit}
use modelserver.Proxy.Executor.{
  recover_with, recover_claude_code, recover_codex, recover_encrypted, after_capacity, after_replay,
  after_codex, after_claude_code, recover, give_up, resend, evaluated, is_responses_kind,
  is_invalid_body, started, try_prepared, try_candidate,
}
use modelserver.Proxy.Fallbacks.{
  AllMembers, Extended, Extended-refl, add_fallbacks-Extended, select_capacity_fallbacks-AllMembers,
}

module _ (ms : List GroupMember) where
  -- The run `r` has tried the same candidates as `r0`, and its slice extends that of `r0`.
  pub record Moved (r0 r : Run) : Type 0 where
    pub tried : r.seen ≡ r0.seen
    pub slice : Extended ms (ids r0.seen) r0.todo r.todo

  Moved-refl : (r0 r : Run) → r.seen ≡ r0.seen → r.todo ≡ r0.todo → Moved r0 r
  Moved-refl r0 r h k = record {
    tried = h;
    slice =
        subst (Extended ms (ids r0.seen) r0.todo) (sym k) (Extended-refl ms (ids r0.seen) r0.todo);
  }

  Moved-trans : (r0 r r' : Run) → Moved r0 r → Moved r r' → Moved r0 r'
  Moved-trans r0 r r' h k =
      let later : Extended ms (ids r0.seen) r.todo r'.todo =
        subst (λ s. Extended ms (ids s) r.todo r'.todo) h.tried k.slice in
      record {
        tried = k.tried ∙ h.tried;
        slice = record {
          measure = omega (arith, h.slice.measure, later.measure);
          distinct = λ d. later.distinct (h.slice.distinct d);
        };
      }

  abbrev pub Moves : Run → Verdict → Type 0
  Moves r0 (again r) = Moved r0 r
  Moves r0 (done r) = Moved r0 r
  Moves r0 panicked = Unit

  abbrev MovesCapacity : Run → Capacity → Type 0
  MovesCapacity r0 undetected = Unit
  MovesCapacity r0 (no_fallback r) = Moved r0 r
  MovesCapacity r0 (fall_back r) = Moved r0 r
  MovesCapacity r0 crashed = Unit

  abbrev MovesRecovery : {B : Type 0} → Run → Recovery B → Type 0
  MovesRecovery r0 (over r) = Moved r0 r
  MovesRecovery r0 (going r reply k replayed) = Moved r0 r

module _ {B : Type 0} (w : World B) (group : ResolvedGroup) (ctx : RequestContext) (u : Upstream)
    (r0 : Run) where
  abbrev To : Run → Type 0
  To r = Moved group.members r0 r

  -- A step that changes neither the candidates tried nor those to come.
  stay : (r r' : Run) → r'.seen ≡ r.seen → r'.todo ≡ r.todo → To r → To r'
  stay r r' h k m = Moved-trans group.members r0 r r' m (Moved-refl group.members r r' h k)

  with_fallbacks-Moves :
      (r : Run) (p : Option (List SelectedUpstream) × State)
      → AllMembers group.members p.0
      → To r
      → MovesCapacity group.members r0 (with_fallbacks w group ctx u r p)
  unfolding exhaust_capacity retry_capacity mark_retry_exhausted mark_retryable_attempt
  with_fallbacks-Moves r (none, s) all m = tt
  with_fallbacks-Moves r (some fs, s) all m =
      let todo = add_fallbacks fs (known r) r.todo in
      let ext : Extended group.members (ids r.seen) r.todo todo =
        add_fallbacks-Extended group.members (ids r.seen) (known r) fs r.todo (λ x. refl) all in
      elim (Bool-cases (any (untried r) r.todo || ltb (length r.todo) (length todo))) [
        | inl more ↦
            rw more (Moved-trans group.members r0 r _ m (record { tried = refl; slice = ext }))
        | inr none_left ↦
            rw none_left (Moved-trans group.members r0 r _ m (record { tried = refl; slice = ext }))
      ]

  handle_codex_capacity-Moves :
      (k : ℕ) (r : Run) (reply : Reply B)
      → To r
      → MovesCapacity group.members r0 (handle_codex_capacity w group ctx k u r reply)
  unfolding handle_codex_capacity
  handle_codex_capacity-Moves k r reply m =
      elim (Bool-cases (
        str_eq u.provider "codex" && inspect_codex_capacity_response w.tests ctx.is_stream reply)) [
          | inl full ↦ rw full (
              with_fallbacks-Moves (emit (unbound u.id) r) _
                (select_capacity_fallbacks-AllMembers (w.router r.attempt k) group (ids r.seen)
                  r.balancer)
                (stay r (emit (unbound u.id) r) refl refl m))
          | inr other ↦ rw other tt
        ]

  complete_stream-Moved : (end : StreamEnd) (r : Run) → To r → To (complete_stream w ctx u end r)
  unfolding complete_stream mark_retry_exhausted
  complete_stream-Moved end r m = stay r _ (ground arith) (ground arith) m

  commit_response-Moved :
      (r : Run) (resp : Option (Response B)) → To r → To (commit_response w ctx u r resp)
  unfolding commit_response complete_stream mark_retry_exhausted
  commit_response-Moved r none m = stay r _ refl refl m
  commit_response-Moved r (some resp) m = stay r _ (ground arith) (ground arith) m

  commit-Moves :
      (r : Run) (reply : Reply B) (capacity : Bool)
      → To r
      → Moves group.members r0 (commit w ctx u r reply capacity)
  unfolding commit
  commit-Moves r reply capacity m =
      commit_response-Moved _ reply.response (stay r _ (ground arith) (ground arith) m)

  after_capacity-Moves :
      (r : Run) (reply : Reply B) (capacity : Bool) (found : Capacity)
      → To r
      → MovesCapacity group.members r0 found
      → Moves group.members r0 (after_capacity w group ctx u r reply capacity found)
  after_capacity-Moves r reply capacity undetected m k = commit-Moves r reply capacity m
  after_capacity-Moves r reply capacity (no_fallback r') m k = commit-Moves r' reply true k
  after_capacity-Moves r reply capacity (fall_back r') m k = k
  after_capacity-Moves r reply capacity crashed m k = tt

  after_replay-Moves :
      (capacity : Bool) (rec : Recovery B)
      → MovesRecovery group.members r0 rec
      → Moves group.members r0 (after_replay w group ctx u capacity rec)
  after_replay-Moves capacity (over r) m = m
  after_replay-Moves capacity (going r reply k true) m =
      after_capacity-Moves r reply capacity _ m (handle_codex_capacity-Moves 1 r reply m)
  after_replay-Moves capacity (going r reply k false) m = commit-Moves r reply capacity m

  recover_with-Moves :
      (k : ℕ) (replayed : Bool) (r : Run) (resp : Option (Response B))
      → To r
      → MovesRecovery group.members r0 (recover_with w group ctx u k replayed r resp)
  recover_with-Moves k replayed r none m = m
  recover_with-Moves k replayed r (some resp) m = elim (Bool-cases (w.refreshes r.attempt)) [
    | inl fine ↦ rw fine (stay r _ refl refl m)
    | inr refused ↦ rw refused (stay r _ refl refl m)
  ]

  recover_encrypted-Moves :
      (r : Run) (reply : Reply B) (k : ℕ) (replayed : Bool)
      → To r
      → MovesRecovery group.members r0 (recover_encrypted w group ctx u r reply k replayed)
  unfolding recover_encrypted
  recover_encrypted-Moves r reply k replayed m =
      elim (Bool-cases (
        not r.encrypted_retried
        && has_status (λ code. eqb_ℤ code (pos 400)) reply.response
        && is_responses_kind w group ctx ctx.request_kind
        && is_invalid_body w group ctx reply.response)) [
          | inl invalid ↦ elim (Bool-cases (w.strips r.attempt)) [
            | inl strips ↦ rw (invalid, strips) (stay r _ refl refl m)
            | inr keeps ↦ rw (invalid, keeps) (stay r _ refl refl m)
          ]
          | inr other ↦ rw other m
        ]

  recover_codex-Moves :
      (r : Run) (reply : Reply B) (k : ℕ)
      → To r
      → MovesRecovery group.members r0 (recover_codex w group ctx u r reply k)
  unfolding recover_codex
  recover_codex-Moves r reply k m =
      elim (Bool-cases (
        str_eq u.provider "codex"
        && has_status is_unauthorized reply.response
        && not r.codex_retried)) [
          | inl expired ↦
              rw expired (recover_with-Moves k true _ reply.response (stay r _ refl refl m))
          | inr other ↦ rw other m
        ]

  recover_claude_code-Moves :
      (r : Run) (reply : Reply B)
      → To r
      → MovesRecovery group.members r0 (recover_claude_code w group ctx u r reply)
  unfolding recover_claude_code
  recover_claude_code-Moves r reply m =
      elim (Bool-cases (
        str_eq u.provider "claudecode"
        && has_status is_unauthorized reply.response
        && not r.claude_code_retried)) [
          | inl expired ↦
              rw expired (recover_with-Moves 1 false _ reply.response (stay r _ refl refl m))
          | inr other ↦ rw other m
        ]

  after_codex-Moves :
      (capacity : Bool) (rec : Recovery B)
      → MovesRecovery group.members r0 rec
      → Moves group.members r0 (after_codex w group ctx u capacity rec)
  after_codex-Moves capacity (over r) m = m
  after_codex-Moves capacity (going r reply k replayed) m =
      after_replay-Moves capacity _ (recover_encrypted-Moves r reply k replayed m)

  after_claude_code-Moves :
      (capacity : Bool) (rec : Recovery B)
      → MovesRecovery group.members r0 rec
      → Moves group.members r0 (after_claude_code w group ctx u capacity rec)
  after_claude_code-Moves capacity (over r) m = m
  after_claude_code-Moves capacity (going r reply k replayed) m =
      after_codex-Moves capacity _ (recover_codex-Moves r reply k m)

  recover-Moves :
      (r : Run) (reply : Reply B) (capacity : Bool)
      → To r
      → Moves group.members r0 (recover w group ctx u r reply capacity)
  unfolding recover
  recover-Moves r reply capacity m =
      after_claude_code-Moves capacity _ (recover_claude_code-Moves r reply m)

  give_up-Moved : (r : Run) (reply : Reply B) → To r → To (give_up w group ctx u r reply)
  unfolding give_up mark_retry_exhausted mark_retryable_attempt
  give_up-Moved r reply m = stay r _ (ground arith) (ground arith) m

  evaluated-Moves :
      (r : Run) (reply : Reply B) (found : Capacity)
      → To r
      → MovesCapacity group.members r0 found
      → Moves group.members r0 (evaluated w group ctx u r reply found)
  evaluated-Moves r reply undetected m k =
      elim (Bool-cases (evaluate_response group.group.retry_policy reply)) [
        | inl retryable ↦ rw retryable (give_up-Moved r reply m)
        | inr final ↦ rw final (recover-Moves r reply false m)
      ]
  evaluated-Moves r reply (no_fallback r') m k = recover-Moves r' reply true k
  evaluated-Moves r reply (fall_back r') m k = k
  evaluated-Moves r reply crashed m k = tt

  try_prepared-Moves :
      (r : Run) (p : Prepared) → To r → Moves group.members r0 (try_prepared w group ctx u r p)
  try_prepared-Moves r unprepared m = m
  try_prepared-Moves r no_client m = stay r _ refl refl m
  try_prepared-Moves r ready m =
      let held : To (resend w group ctx u r) = stay r _ refl refl m in
      evaluated-Moves _ _ _ held (handle_codex_capacity-Moves 0 _ _ held)

-- A round tries one candidate, and what is then to come extends what was.
pub try_candidate-Moves :
    {B : Type 0} (w : World B) (group : ResolvedGroup) (ctx : RequestContext) (c : SelectedUpstream)
    (rest : List SelectedUpstream) (r : Run)
    → Moves group.members (started c rest r) (try_candidate w group ctx c rest r)
unfolding try_candidate
try_candidate-Moves w group ctx c rest r =
    try_prepared-Moves w group ctx c.upstream (started c rest r) (started c rest r) _
      (Moved-refl group.members _ _ refl refl)
