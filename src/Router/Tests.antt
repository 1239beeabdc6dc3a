-- ===== src/Router/Tests.antt =====
-- Runs of the routing engine on small tables, and the theorems at them.
use mathlib.Core.Logic.Or
use mathlib.Core.List.{Mem, mem-cons, not-mem-nil}
use mathlib.Core.List.Perm
use modelserver.Prelude.{
  String, ◌≡◌, ◌≢◌, refl, inl, Bool, false, List, [], ◌∷◌, none, some, arith, find, eq_iff,
  String-IsSet, sym, ap, ◌∙◌,
}
use modelserver.Prelude.Int.{ℤ, pos, ◌-ℤ◌, ◌+ℤ◌, wrap_int64}
use modelserver.Types.{Upstream, Route}
use modelserver.Lb.Balancer.{CandidateInfo, State}
use modelserver.Lb.Select.{Calm}
use modelserver.Router.Matching.{GroupMember, ResolvedGroup, Groups, match_route, matrix_global}
use modelserver.Router.Match.{DistinctIds, match_route-perm}
use modelserver.Router.Matrix.{matrix_global-match_route, resolve_cell, is_cell}
use modelserver.Router.Sessions.{
  SessionBinding, SessionKey, SessionMap, write_binding, usable, binding_of,
}
use modelserver.Router.Selection.{
  Env, usable_candidates, candidates_of, is_available, attempts, select_with_retry,
}
use modelserver.Router.Served.{Served, select_with_retry-Served}
use modelserver.Router.Sticky.{Headed, select_with_retry-sticky}

abbrev upstream : String → ℤ → Upstream
upstream id limit = record {
  id = id;
  provider = "anthropic";
  name = id;
  base_url = "https://api.test";
  api_key_encrypted = [];
  proxy_mode = "";
  supported_models = "opus" ∷ [];
  model_map = [];
  weight = pos 1;
  max_concurrent = limit;
  status = "active";
}

abbrev up_a : Upstream
up_a = upstream "a" (pos 0)

abbrev up_b : Upstream
up_b = upstream "b" (pos 2)

abbrev up_c : Upstream
up_c = record (upstream "c" (pos 0)) { status = "draining" }

abbrev member : Upstream → Bool → GroupMember
member u backup = record { upstream = u; weight = pos 3; is_backup = backup }

abbrev group_main : ResolvedGroup
group_main = record {
  group = record {
    id = "main";
    name = "main";
    lb_policy = "least_conn";
    status = "active";
    retry_policy = some (record { max_retries = pos 1; retry_on = []; retry_delay = pos 0 });
  };
  members = member up_a false ∷ member up_b false ∷ member up_c false ∷ [];
}

abbrev groups : Groups
groups = ("main", group_main) ∷ []

abbrev route_global : Route
route_global = record {
  id = "r1";
  project_id = "";
  model_names = "opus" ∷ [];
  request_kinds = "anthropic_messages" ∷ [];
  clients = [];
  upstream_group_id = "main";
  match_priority = pos 9;
  status = "active";
}

abbrev route_project : Route
route_project = record route_global { id = "r2"; project_id = "p1"; match_priority = pos 0 }

abbrev table : List Route
table = route_global ∷ route_project ∷ []

abbrev table_sorted : List Route
table_sorted = route_project ∷ route_global ∷ []

Route-IsSet : IsSet Route
Route-IsSet = hlevel (String-IsSet)

-- Each route of the table is one of the two.
one_of_two :
    (r : Route) (P : Type 0)
    → IsProp P
    → Mem r table
    → (r ≡ route_global → P)
    → (r ≡ route_project → P)
    → P
one_of_two r P prop m f g =
    Or.elim {C = P} prop (mem-cons.0 m) f
      (λ n. Or.elim {C = P} prop (mem-cons.0 n) g (λ e. absurd (not-mem-nil e)))

ids_differ : ◌≢◌ {A = String} "r1" "r2"
ids_differ h = ground (arith, eq_iff "r1" "r2")

table-distinct : DistinctIds table
table-distinct r q m n e =
    one_of_two r (r ≡ q) (Route-IsSet r q) m
      (λ a.
        one_of_two q (r ≡ q) (Route-IsSet r q) n (λ b. a ∙ sym b)
          (λ b. absurd (ids_differ (sym (ap (λ x. x.id) a) ∙ e ∙ ap (λ x. x.id) b))))
      (λ a.
        one_of_two q (r ≡ q) (Route-IsSet r q) n
          (λ b. absurd (ids_differ (sym (ap (λ x. x.id) b) ∙ sym e ∙ ap (λ x. x.id) a)))
          (λ b. a ∙ sym b))

match_route-perm_example :
    match_route groups table "p1" "opus" "anthropic_messages" "other"
    ≡ match_route groups table_sorted "p1" "opus" "anthropic_messages" "other"
match_route-perm_example =
    match_route-perm groups "p1" "opus" "anthropic_messages" "other" table table_sorted
      (Perm.swap route_project route_global []) table-distinct

project_named : ◌≢◌ {A = String} "p1" ""
project_named h = ground (arith, eq_iff "p1" "")

matrix_global-match_route_example :
    resolve_cell groups table "opus" "anthropic_messages" "codex-cli" (
      find
        (is_cell "opus" "anthropic_messages" "codex-cli")
        (matrix_global groups table ("opus" ∷ []) ""))
    ≡ match_route groups table "" "opus" "anthropic_messages" "codex-cli"
matrix_global-match_route_example =
    matrix_global-match_route groups table "opus" "anthropic_messages" "codex-cli" ("opus" ∷ []) ""
      refl refl refl

abbrev candidate : Upstream → ℤ → CandidateInfo
candidate u conns = record { upstream = u; weight = pos 3; is_backup = false; active_conns = conns }

abbrev candidates : List CandidateInfo
candidates = candidate up_a (pos 1) ∷ candidate up_b (pos 0) ∷ []

abbrev session : SessionKey
session = record { session_id = "s1"; model = "opus" }

abbrev other_session : SessionKey
other_session = record { session_id = "s2"; model = "opus" }

abbrev unbound : SessionMap
unbound k = none

abbrev bound : SessionMap
bound = write_binding unbound session (some (record { upstream_id = "a"; used_at = pos 10 }))

abbrev quiet : SessionMap → SessionMap
quiet m = m

abbrev binding_a : SessionBinding
binding_a = record { upstream_id = "a"; used_at = pos 10 }

abbrev env : Env
env = record {
  counts = λ id. pos 0;
  decrypted_keys = ("a", "key-a") ∷ [];
  rand = λ k n. 0;
  policy = "least_conn";
  session_ttl = pos 60;
  now = pos 20;
}

abbrev fresh : State
fresh = record { counter = 0; drawn = 0 }

Calm-two : Calm (λ k n. 0) 2 (usable_candidates env.counts [] group_main.members) fresh
unfolding usable_candidates candidates_of is_available
Calm-two = record { draws = λ k n h. h; weights = ground arith; counts = ground arith }

select_with_retry-Served_example :
    Served env [] group_main 2 (select_with_retry env quiet group_main "" "opus" bound fresh).0
unfolding usable_candidates candidates_of is_available attempts wrap_int64 ◌+ℤ◌
select_with_retry-Served_example =
    select_with_retry-Served env quiet group_main "" "opus" bound fresh 2 (inl refl) refl Calm-two

session_named : session.session_id ≢ ""
session_named h = ground (arith, eq_iff "s1" "")

model_named : session.model ≢ ""
model_named h = ground (arith, eq_iff "opus" "")

select_with_retry-sticky_example :
    let (us, m', s') = select_with_retry env quiet group_main "s1" "opus" bound fresh in
    Headed env up_a (usable_candidates env.counts [] group_main.members) 2 us
    × (m' ≡ write_binding bound session (some (binding_of up_a (pos 20))))
unfolding usable_candidates candidates_of is_available attempts usable wrap_int64 ◌+ℤ◌ ◌-ℤ◌
select_with_retry-sticky_example =
    select_with_retry-sticky env quiet group_main session bound fresh up_a 1 session_named
      model_named refl refl Calm-two
