-- ===== src/Proxy/Tests.antt =====
-- Runs of the retry loop on small groups, and the theorems at them.
use modelserver.Prelude.{
  ℕ, String, ◌≡◌, ◌≢◌, refl, ◌≤◌, true, false, List, [], ◌∷◌, none, some, ◌==◌, if◌then◌else◌,
  str_eq, length, ◌↔◌,
}
use modelserver.Prelude.Int.{pos, wrap_int64, ◌+ℤ◌, ◌-ℤ◌}
use modelserver.Types.{Upstream, Route, RetryPolicy}
use modelserver.Lb.Balancer.{
  State, select_n, select_rounds, select, pick, least_conn_idx, least_conn_from, improves,
}
use modelserver.Router.Matching.{
  GroupMember, ResolvedGroup, Groups, match_route, match_from, matches_global_route, consider,
  improve, beats, specificity,
}
use modelserver.Router.Sessions.{SessionMap, pin_fast, pin_slow, usable}
use modelserver.Router.Selection.{
  SelectedUpstream, Env, select_with_retry, select_among, usable_candidates, candidates_of,
  is_available, attempts, pin_session, result_with_primary, without_id, select_capacity_fallbacks,
}
use modelserver.Proxy.Replies.{
  Reply, net_error, evaluate_response, inspect_codex_capacity_response, retry_reason,
}
use modelserver.Proxy.Requests.{
  RequestContext, acquired, released, succeeded, failed, unbound, bound, sent, forwarded, Run, ids,
  add_fallbacks, mark_retryable_attempt, mark_retry_exhausted,
}
use modelserver.Proxy.World.{World, ready}
use modelserver.Proxy.Loop.{
  Ended, answered, fault, out_of_fuel, complete, execute, run_loop, fresh_run,
}
use modelserver.Proxy.Capacity.{handle_codex_capacity, exhaust_capacity, retry_capacity}
use modelserver.Proxy.Commit.{commit, commit_response, complete_stream}
use modelserver.Proxy.Executor.{
  try_candidate, give_up, recover, recover_claude_code, recover_codex, recover_encrypted,
  all_failed,
}
use modelserver.Proxy.Balanced.{Settled}
use modelserver.Proxy.Fallbacks.{Distinct}
use modelserver.Proxy.Outcome.{execute-Settled, execute_ends, run_loop-Distinct, rounds_for}
use modelserver.Proxy.Retries.{Retryable, evaluate_response-Retryable}

abbrev codex : String → Upstream
codex id = record {
  id = id;
  provider = "codex";
  name = id;
  base_url = "https://api.test";
  api_key_encrypted = [];
  proxy_mode = "";
  supported_models = "gpt" ∷ [];
  model_map = [];
  weight = pos 1;
  max_concurrent = pos 0;
  status = "active";
}

abbrev member : String → GroupMember
member id = record { upstream = codex id; weight = pos 1; is_backup = false }

-- A group of three that is tried once.
abbrev group : ResolvedGroup
group = record {
  group = record {
    id = "g";
    name = "g";
    lb_policy = "least_conn";
    status = "active";
    retry_policy =
        some (record { max_retries = pos 0; retry_on = "5xx" ∷ []; retry_delay = pos 0 });
  };
  members = member "a" ∷ member "b" ∷ member "c" ∷ [];
}

abbrev groups : Groups
groups = ("g", group) ∷ []

abbrev routes : List Route
routes =
    record {
      id = "r";
      project_id = "";
      model_names = "gpt" ∷ [];
      request_kinds = "openai_responses" ∷ [];
      clients = [];
      upstream_group_id = "g";
      match_priority = pos 0;
      status = "active";
    }
    ∷ []

abbrev env : Env
env = record {
  counts = λ id. if str_eq id "a" then pos 0 else pos 1;
  decrypted_keys = [];
  rand = λ k n. 0;
  policy = "least_conn";
  session_ttl = pos 100;
  now = pos 10;
}

-- A body is a number; 9 is the error of a model at capacity.
abbrev reply : ℕ → ℕ → Reply ℕ
reply code body = record {
  response = some (record { status_code = pos code; body = body });
  error = none;
}

-- The first upstream is at capacity, the second refuses the token once and then answers.
abbrev world : World ℕ
world = record {
  tests = record {
    probe_capacity = λ b. b == 9;
    is_capacity_error = λ b. b == 9;
    is_invalid_encrypted = λ b. false;
  };
  prepare = λ n u. ready;
  send = λ n k. if n == 1 then reply 503 9 else if k == 0 then reply 401 0 else reply 200 1;
  refreshes = λ n. true;
  strips = λ n. false;
  router = λ n k. env;
  stream_end = λ n. record { interrupted = false; at_capacity = false };
  body_read = λ n. true;
}

abbrev context : RequestContext
context = record {
  project_id = "p";
  model = "gpt";
  request_kind = "openai_responses";
  client_bucket = "other";
  session_id = "s";
  is_stream = false;
}

abbrev no_sessions : SessionMap
no_sessions k = none

abbrev balancer : State
balancer = record { counter = 0; drawn = 0 }

abbrev ended : Ended
ended = execute world complete context groups routes env (λ m. m) no_sessions balancer

abbrev final : Ended → Run
final (answered r) = r
final fault = fresh_run [] balancer
final out_of_fuel = fresh_run [] balancer

abbrev ended_run : Run
ended_run = final ended

-- The failover: the first upstream is at capacity, the second answers after a new token.
ended_answered :
    (ended ≡ answered ended_run)
    × (ended_run.log
        ≡ forwarded (pos 200)
          ∷ released "b"
          ∷ bound "b"
          ∷ succeeded "b"
          ∷ sent "b"
          ∷ acquired "b"
          ∷ released "b"
          ∷ sent "b"
          ∷ acquired "b"
          ∷ failed "a"
          ∷ released "a"
          ∷ unbound "a"
          ∷ sent "a"
          ∷ acquired "a"
          ∷ [])
unfolding execute match_route match_from matches_global_route consider improve beats specificity
    select_with_retry select_among usable_candidates candidates_of is_available attempts pin_session
    pin_fast pin_slow usable result_with_primary without_id select_n select_rounds select pick
    least_conn_idx least_conn_from improves wrap_int64 ◌+ℤ◌ ◌-ℤ◌ run_loop try_candidate
    handle_codex_capacity inspect_codex_capacity_response select_capacity_fallbacks add_fallbacks
    retry_capacity exhaust_capacity mark_retryable_attempt mark_retry_exhausted evaluate_response
    retry_reason give_up recover recover_claude_code recover_codex recover_encrypted commit
    commit_response complete_stream all_failed
ended_answered = (refl, refl)

execute-Settled_example : Settled "b" ended_run
execute-Settled_example =
    execute-Settled world complete context groups routes env (λ m. m) no_sessions balancer ended_run
      "b" ended_answered.0

execute_ends_example : ended ≢ out_of_fuel
execute_ends_example =
    execute_ends world complete context groups routes env (λ m. m) no_sessions balancer

abbrev first : List SelectedUpstream
first = record { upstream = codex "a"; api_key = "" } ∷ []

abbrev looped : Run
looped =
    final (run_loop world group context (rounds_for group first) first (fresh_run first balancer))

looped_answered :
    run_loop world group context (rounds_for group first) first (fresh_run first balancer)
    ≡ answered looped
unfolding usable_candidates candidates_of is_available select_n select_rounds select pick
    least_conn_idx least_conn_from improves wrap_int64 ◌+ℤ◌ ◌-ℤ◌ run_loop try_candidate
    handle_codex_capacity inspect_codex_capacity_response select_capacity_fallbacks add_fallbacks
    retry_capacity exhaust_capacity mark_retryable_attempt mark_retry_exhausted evaluate_response
    retry_reason give_up recover recover_claude_code recover_codex recover_encrypted commit
    commit_response complete_stream all_failed
looped_answered = refl

run_loop-Distinct_example : Distinct (ids looped.seen) × (length looped.seen ≤ 4)
run_loop-Distinct_example =
    run_loop-Distinct world group context first balancer looped (refl, tt) looped_answered

abbrev timed_out : Reply ℕ
timed_out = record { response = none; error = some (net_error true) }

abbrev on_timeout : RetryPolicy
on_timeout = record { max_retries = pos 1; retry_on = "connection_error" ∷ []; retry_delay = pos 0 }

-- A timeout is retried under "connection_error" alone.
evaluate_response-Retryable_example :
    (evaluate_response (some on_timeout) timed_out ≡ true) ↔ Retryable on_timeout timed_out
evaluate_response-Retryable_example = evaluate_response-Retryable on_timeout timed_out
