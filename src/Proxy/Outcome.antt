-- ===== src/Proxy/Outcome.antt =====
-- How `Execute` of internal/proxy/executor.go ends, over all its rounds.
use mathlib.Core.Path.{subst}
use modelserver.Prelude.{
  ℕ, zero, suc, ◌+◌, ◌≤◌, String, ◌≡◌, ◌≢◌, refl, sym, ap, ◌∙◌, false, List, [], ◌∷◌, ◌++◌, Option,
  none, some, arith, contains, length, eq_iff,
}
use modelserver.Types.{Route}
use modelserver.Lb.Balancer.{State}
use modelserver.Router.Matching.{Groups, ResolvedGroup, GroupMember, MatchResult, no_route, matched}
use modelserver.Router.Sessions.{SessionMap}
use modelserver.Router.Selection.{SelectedUpstream, Env}
use modelserver.Proxy.Requests.{RequestContext, Run, ids, mark_retry_exhausted}
use modelserver.Proxy.World.{World, Verdict, again, done, panicked}
use modelserver.Proxy.Executor.{started, try_candidate, all_failed}
use modelserver.Proxy.Loop.{
  Ended, answered, fault, out_of_fuel, BodyRead, unreadable, too_large, complete, run_loop,
  fresh_run, after_body, after_selection, after_match, execute,
}
use modelserver.Proxy.Balanced.{Idle, Settled, Keeps, try_candidate-Keeps, all_failed-Settled}
use modelserver.Proxy.Fallbacks.{fresh, Distinct, SameIds, fresh-SameIds, contains-append}
use modelserver.Proxy.Progress.{Moved, Moves, try_candidate-Moves}

-- The candidate at the head moves from those to come to those tried.
shift-SameIds : (x : String) (xs ys : List String) → SameIds ((x ∷ xs) ++ ys) (xs ++ x ∷ ys)
shift-SameIds x xs ys y = rw (contains-append xs ys y, contains-append xs (x ∷ ys) y) (ground arith)

Distinct-shift :
    (x : String) (xs ys : List String) → Distinct (xs ++ x ∷ ys) → Distinct ((x ∷ xs) ++ ys)
Distinct-shift x [] ys d = d
Distinct-shift x (z ∷ xs) ys d =
    let (apart, rest) = Distinct-shift x xs ys d.1 in
    let z_apart : contains (xs ++ x ∷ ys) z ≡ false = d.0 in
    let split : contains (x ∷ xs ++ ys) z ≡ false = shift-SameIds x xs ys z ∙ z_apart in
    (ground (arith, split, apart, eq_iff x z, eq_iff z x), (ground (arith, split), rest))

Distinct-prefix : (xs ys : List String) → Distinct (xs ++ ys) → Distinct xs
Distinct-prefix [] ys d = tt
Distinct-prefix (x ∷ xs) ys d =
    (ground (arith, contains-append xs ys x, d.0), Distinct-prefix xs ys d.1)

fresh-le-length : (ms : List GroupMember) (xs : List String) → fresh ms xs ≤ length ms
fresh-le-length [] xs = omega arith
fresh-le-length (m ∷ ms) xs = ground (arith, fresh-le-length ms xs)

-- What is left to try, at most.
abbrev measure : List GroupMember → Run → ℕ
measure ms r = length r.todo + fresh ms (ids r.seen ++ ids r.todo)

-- The run has tried no more than `n` upstreams, and, under the condition `D`, distinct ones.
record Within (D : Type 0) (n : ℕ) (r : Run) : Type 0 where
  bound : length r.seen ≤ n
  distinct : D → Distinct (ids r.seen)

module _ {B : Type 0} (w : World B) (group : ResolvedGroup) (ctx : RequestContext)
    (D : Type 0) where
  -- A run in the loop: no upstream stands twice in the slice, and `fuel` rounds are enough.
  record Ready (n fuel : ℕ) (todo : List SelectedUpstream) (r : Run) : Type 0 where
    left : r.todo ≡ todo
    rounds : length r.seen + measure group.members r ≤ n
    enough : measure group.members r ≤ fuel
    distinct : D → Distinct (ids r.seen ++ ids r.todo)

  measure-started :
      (c : SelectedUpstream) (rest : List SelectedUpstream) (r : Run)
      → r.todo ≡ c ∷ rest
      → suc (measure group.members (started c rest r)) ≡ measure group.members r
  measure-started c rest r h =
      rw (h, fresh-SameIds group.members _ _ (shift-SameIds c.upstream.id (ids r.seen) (ids rest)))
        (omega arith)

  Ready-step :
      (n fuel : ℕ) (c : SelectedUpstream) (rest : List SelectedUpstream) (r r' : Run)
      → Ready n (suc fuel) (c ∷ rest) r
      → Moved group.members (started c rest r) r'
      → Ready n fuel r'.todo r'
  Ready-step n fuel c rest r r' h m =
      let less : measure group.members r' ≤ measure group.members (started c rest r) =
        subst
          (λ s.
            length r'.todo + fresh group.members (ids s ++ ids r'.todo)
            ≤ measure group.members (started c rest r))
          (sym m.tried) m.slice.measure in
      let one = measure-started c rest r h.left in
      let longer : length r'.seen ≡ suc (length r.seen) = ap length m.tried in
      let before : D → Distinct (ids r.seen ++ c.upstream.id ∷ ids rest) =
        λ d. subst (λ t. Distinct (ids r.seen ++ ids t)) h.left (h.distinct d) in
      let after : D → Distinct (c.upstream.id ∷ ids r.seen ++ ids r'.todo) =
        λ d. m.slice.distinct (Distinct-shift c.upstream.id (ids r.seen) (ids rest) (before d)) in
      record {
        left = refl;
        rounds = omega (arith, less, one, longer, h.rounds);
        enough = omega (arith, less, one, h.enough);
        distinct = λ d. subst (λ s. Distinct (ids s ++ ids r'.todo)) (sym m.tried) (after d);
      }

  -- The end of the loop that has tried distinct upstreams, at most `n`, and is settled.
  abbrev EndsIn : ℕ → String → Ended → Type 0
  EndsIn n id (answered r) = Settled id r × Within D n r
  EndsIn n id fault = Unit
  EndsIn n id out_of_fuel = ⊥

  Within-end :
      (n fuel : ℕ) (todo : List SelectedUpstream) (r r' : Run)
      → Ready n fuel todo r
      → r'.seen ≡ r.seen
      → Within D n r'
  Within-end n fuel todo r r' h same = record {
    bound = omega (arith, h.rounds, ap length same);
    distinct = λ d.
        subst (λ s. Distinct (ids s)) (sym same)
          (Distinct-prefix (ids r.seen) (ids r.todo) (h.distinct d));
  }

  all_failed-seen : (r : Run) → (all_failed r).seen ≡ r.seen
  unfolding all_failed mark_retry_exhausted
  all_failed-seen r = ground arith

  run_loop-EndsIn :
      (n : ℕ) (id : String) (fuel : ℕ) (todo : List SelectedUpstream) (r : Run)
      → Ready n fuel todo r
      → Idle id r
      → EndsIn n id (run_loop w group ctx fuel todo r)
  unfolding run_loop
  run_loop-EndsIn n id fuel [] r h k =
      (all_failed-Settled id r k, Within-end n fuel [] r (all_failed r) h (all_failed-seen r))
  run_loop-EndsIn n id zero (c ∷ rest) r h k = absurd (omega (arith, h.enough, ap length h.left))
  run_loop-EndsIn n id (suc fuel) (c ∷ rest) r h k =
      go (try_candidate w group ctx c rest r) (try_candidate-Keeps id w group ctx c rest r k)
        (try_candidate-Moves w group ctx c rest r) (run_loop-EndsIn n id fuel)
    where
      go :
          (v : Verdict)
          → Keeps id v
          → Moves group.members (started c rest r) v
          → ((todo : List SelectedUpstream) (s : Run)
              → Ready n fuel todo s
              → Idle id s
              → EndsIn n id (run_loop w group ctx fuel todo s))
          → EndsIn n id (elim v as (λ x. Ended) [
            | again r' ↦ run_loop w group ctx fuel r'.todo r'
            | done r' ↦ answered r'
            | panicked ↦ fault
          ])
      go (again r') idle m later = later r'.todo r' (Ready-step n fuel c rest r r' h m) idle
      go (done r') settled m later =
          (settled, Within-end n fuel r'.todo r' r' (Ready-step n fuel c rest r r' h m) refl)
      go panicked idle m later = tt

abbrev pub rounds_for : ResolvedGroup → List SelectedUpstream → ℕ
rounds_for group cs = length cs + length group.members

module _ {B : Type 0} (w : World B) (ctx : RequestContext) (id : String) where
  loop-EndsIn :
      (group : ResolvedGroup) (cs : List SelectedUpstream) (s : State)
      → EndsIn w group ctx
          (Distinct (ids cs))
          (rounds_for group cs)
          id
          (run_loop w group ctx (rounds_for group cs) cs (fresh_run cs s))
  loop-EndsIn group cs s =
      let few : fresh group.members (ids cs) ≤ length group.members =
        fresh-le-length group.members (ids cs) in
      run_loop-EndsIn w group ctx (Distinct (ids cs)) (rounds_for group cs) id _ cs (fresh_run cs s)
        (record {
          left = refl;
          rounds = omega (arith, few);
          enough = omega (arith, few);
          distinct = λ d. d;
        })
        (record {
          level = refl;
          silent = refl;
          unwon = refl;
          unbinding = refl;
          budget = omega arith;
        })

  -- An end of a request that is settled, or a panic.
  abbrev SettledEnd : Ended → Type 0
  SettledEnd (answered r) = Settled id r
  SettledEnd fault = Unit
  SettledEnd out_of_fuel = ⊥

  EndsIn-SettledEnd :
      (group : ResolvedGroup) (D : Type 0) (n : ℕ) (e : Ended)
      → EndsIn w group ctx D n id e
      → SettledEnd e
  EndsIn-SettledEnd group D n (answered r) h = h.0
  EndsIn-SettledEnd group D n fault h = tt
  EndsIn-SettledEnd group D n out_of_fuel h = h

  module _ (body : BodyRead) where
    after_body-SettledEnd :
        (b : BodyRead) (group : ResolvedGroup) (cs : List SelectedUpstream) (s : State)
        → SettledEnd (after_body w body ctx b group cs s)
    after_body-SettledEnd unreadable group cs s = omega arith
    after_body-SettledEnd too_large group cs s = omega arith
    after_body-SettledEnd complete group cs s =
        EndsIn-SettledEnd group _ _ _ (loop-EndsIn group cs s)

    after_selection-SettledEnd :
        (group : ResolvedGroup) (p : Option (List SelectedUpstream) × SessionMap × State)
        → SettledEnd (after_selection w body ctx group p)
    after_selection-SettledEnd group (none, m, s) = tt
    after_selection-SettledEnd group (some [], m, s) = omega arith
    after_selection-SettledEnd group (some (c ∷ cs), m, s) =
        after_body-SettledEnd body group (c ∷ cs) s

    after_match-SettledEnd :
        (env : Env) (others : SessionMap → SessionMap) (m : SessionMap) (s : State)
        (r : MatchResult)
        → SettledEnd (after_match w body ctx env others m s r)
    after_match-SettledEnd env others m s no_route = omega arith
    after_match-SettledEnd env others m s (matched none) = tt
    after_match-SettledEnd env others m s (matched (some group)) =
        after_selection-SettledEnd group _

    execute-SettledEnd :
        (groups : Groups) (routes : List Route) (env : Env) (others : SessionMap → SessionMap)
        (m : SessionMap) (s : State)
        → SettledEnd (execute w body ctx groups routes env others m s)
    unfolding execute
    execute-SettledEnd groups routes env others m s = after_match-SettledEnd env others m s _

-- Whatever the upstreams answer and however the router changes meanwhile, a request that ends with
-- an answer has answered the client exactly once, has closed every connection that it counted as
-- open, for each upstream as often as it opened one, has recorded at most one success and bound the
-- session at most once and only with a success, and has sent at most three requests more than it
-- tried upstreams.
pub execute-Settled :
    {B : Type 0} (w : World B) (body : BodyRead) (ctx : RequestContext) (groups : Groups)
    (routes : List Route) (env : Env) (others : SessionMap → SessionMap) (m : SessionMap)
    (s : State) (r : Run) (id : String)
    → execute w body ctx groups routes env others m s ≡ answered r
    → Settled id r
execute-Settled w body ctx groups routes env others m s r id e =
    subst (SettledEnd w ctx id) e (execute-SettledEnd w ctx id body groups routes env others m s)

-- The loop over the candidates ends: the rounds that it is given, as many as there are first
-- candidates and members of the group, are enough, although the candidates may grow meanwhile.
pub execute_ends :
    {B : Type 0} (w : World B) (body : BodyRead) (ctx : RequestContext) (groups : Groups)
    (routes : List Route) (env : Env) (others : SessionMap → SessionMap) (m : SessionMap)
    (s : State)
    → execute w body ctx groups routes env others m s ≢ out_of_fuel
execute_ends w body ctx groups routes env others m s e =
    subst (SettledEnd w ctx "") e (execute-SettledEnd w ctx "" body groups routes env others m s)

-- Where the first candidates are distinct upstreams, the loop tries no upstream twice, although
-- fallbacks for a model at capacity are added on the way, and at most as many as there are first
-- candidates and members of the group.
pub run_loop-Distinct :
    {B : Type 0} (w : World B) (group : ResolvedGroup) (ctx : RequestContext)
    (cs : List SelectedUpstream) (s : State) (r : Run)
    → Distinct (ids cs)
    → run_loop w group ctx (rounds_for group cs) cs (fresh_run cs s) ≡ answered r
    → Distinct (ids r.seen) × (length r.seen ≤ rounds_for group cs)
run_loop-Distinct w group ctx cs s r d e =
    let k =
      subst (EndsIn w group ctx (Distinct (ids cs)) (rounds_for group cs) "") e
        (loop-EndsIn w ctx "" group cs s) in
    (k.1.distinct d, k.1.bound)
