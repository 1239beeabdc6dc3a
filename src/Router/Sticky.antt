-- ===== src/Router/Sticky.antt =====
-- `SelectWithRetry` for a session whose binding is young and whose upstream is available.
use mathlib.Core.Logic.Or
use mathlib.Core.List.{
  Mem, mem-cons, mem-cons_of_mem, not-mem-nil, mem-cons_self, mem-append, Mem-prop,
}
use mathlib.Core.List.Perm
use mathlib.Core.Path.{subst}
use modelserver.Prelude.{
  ℕ, suc, ◌≤◌, ◌<◌, String, ◌≡◌, ◌≢◌, refl, sym, ap, inl, inr, true, false, not, ◌&&◌, ◌||◌, List,
  [], ◌∷◌, map, Option, none, some, arith, length, leb, str_eq, Bool-cases, eq_iff,
}
use modelserver.Prelude.Int.{pos, ◌-ℤ◌}
use modelserver.Types.{Upstream}
use modelserver.Lb.Balancer.{CandidateInfo, State}
use modelserver.Lb.Weighted.{weight_sum}
use modelserver.Lb.Select.{Calm, select_n-Ranks}
use modelserver.Router.Matching.{ResolvedGroup}
use modelserver.Router.Sessions.{
  SessionKey, SessionMap, usable, pin_fast, binding_of, write_binding,
}
use modelserver.Router.Selection.{
  SelectedUpstream, Env, usable_candidates, with_key, without_id, result_with_primary, pin_session,
  pinned, attempts, select_among, select_with_retry,
}

weight_sum-without_id :
    (id : String) (cs : List CandidateInfo) → weight_sum (without_id id cs) ≤ weight_sum cs
unfolding without_id
weight_sum-without_id id [] = omega arith
weight_sum-without_id id (c ∷ cs) = ground (arith, weight_sum-without_id id cs)

length-without_id : (id : String) (cs : List CandidateInfo) → length (without_id id cs) ≤ length cs
unfolding without_id
length-without_id id [] = omega arith
length-without_id id (c ∷ cs) = ground (arith, length-without_id id cs)

abbrev Other : String → List CandidateInfo → CandidateInfo → Type 0
Other id cs d = Mem d cs × (str_eq d.upstream.id id ≡ false)

Other-cons :
    (id : String) (c : CandidateInfo) (cs : List CandidateInfo) (d : CandidateInfo)
    → Other id cs d
    → Other id (c ∷ cs) d
Other-cons id c cs d (a, b) = (mem-cons_of_mem c a, b)

without_id-Other :
    (id : String) (cs : List CandidateInfo) (d : CandidateInfo)
    → Mem d (without_id id cs)
    → Other id cs d
unfolding without_id
without_id-Other id [] d h = absurd (not-mem-nil h)
without_id-Other id (c ∷ cs) d h =
    let later =
      λ (k : Mem d (without_id id cs)). Other-cons id c cs d (without_id-Other id cs d k) in
    elim (Bool-cases (str_eq c.upstream.id id)) [
      | inl same ↦ later (rw same at h)
      | inr differs ↦
          Or.elim {C = Other id (c ∷ cs) d} (hlevel Mem-prop) (mem-cons.0 (rw differs at h))
            (λ e. subst (Other id (c ∷ cs)) (sym e) (mem-cons_self, differs)) later
    ]

-- The primary with its key, and fallbacks that are other candidates.
pub record Headed (env : Env) (u : Upstream) (cs : List CandidateInfo) (n : ℕ)
    (r : Option (List SelectedUpstream)) : Type 0 where
  pub fallbacks : List CandidateInfo
  pub result : r ≡ some (with_key env u ∷ map (λ c. with_key env c.upstream) fallbacks)
  pub count : length fallbacks < n
  pub others : (d : CandidateInfo) → Mem d fallbacks → Other u.id cs d

with_keys-map :
    (env : Env) (cs : List CandidateInfo)
    → map (with_key env) (map (λ c. c.upstream) cs) ≡ map (λ c. with_key env c.upstream) cs
with_keys-map env [] = refl
with_keys-map env (c ∷ cs) = ap (λ us. with_key env c.upstream ∷ us) (with_keys-map env cs)

pred_pos : (n : ℕ) → pos (suc n) -ℤ pos 1 ≡ pos n
unfolding ◌-ℤ◌
pred_pos n = ground arith

result_with_primary-Headed :
    (env : Env) (u : Upstream) (cs : List CandidateInfo) (n : ℕ) (s : State)
    → Calm env.rand (length cs) cs s
    → Headed env u cs (suc n) (result_with_primary env u cs (pos (suc n)) s).0
unfolding result_with_primary
result_with_primary-Headed env u cs n s calm =
    elim (Bool-cases (leb (suc n) 1 || leb (length cs) 1)) [
      | inl alone ↦ rw alone (record {
        fallbacks = [];
        result = refl;
        count = omega arith;
        others = λ d h. absurd (not-mem-nil h);
      })
      | inr more ↦
          let rest = without_id u.id cs in
          let k = select_n-Ranks env.rand env.policy rest n s (record {
            draws = calm.draws;
            weights = omega (arith, weight_sum-without_id u.id cs, calm.weights);
            counts = omega (arith, length-without_id u.id cs, calm.counts);
          }) in
          let left : pos (suc n) -ℤ pos 1 ≡ pos n = pred_pos n in
          rw (more, left)
            (record {
              fallbacks = k.ranked;
              result =
                  rw k.result (ap (λ us. some (with_key env u ∷ us)) (with_keys-map env k.ranked));
              count = omega (arith, k.count);
              others = λ d h.
                  without_id-Other u.id cs d ((Perm.mem_iff k.among).0 (mem-append.1 (Or.inl h)));
            })
    ]

pin_session-bound :
    (env : Env) (others : SessionMap → SessionMap) (key : SessionKey) (cs : List CandidateInfo)
    (m : SessionMap) (s : State) (u : Upstream)
    → usable env.session_ttl env.now cs (m key) ≡ some u
    → pin_session env others key cs m s
      ≡ (pinned u, write_binding m key (some (binding_of u env.now)), s)
unfolding pin_session pin_fast
pin_session-bound env others key cs m s u h = rw h

no_candidates :
    (env : Env) (key : SessionKey) (m : SessionMap)
    → usable env.session_ttl env.now [] (m key) ≡ none
unfolding usable
no_candidates env key m = ground arith

select_among-Headed :
    (env : Env) (others : SessionMap → SessionMap) (key : SessionKey) (cs : List CandidateInfo)
    (n : ℕ) (m : SessionMap) (s : State) (u : Upstream)
    → key.session_id ≢ ""
    → key.model ≢ ""
    → usable env.session_ttl env.now cs (m key) ≡ some u
    → Calm env.rand (length cs) cs s
    → let (us, m', s') = select_among env others key.session_id key.model cs (pos (suc n)) m s in
      Headed env u cs (suc n) us × (m' ≡ write_binding m key (some (binding_of u env.now)))
unfolding select_among
select_among-Headed env others key [] n m s u session model bound calm =
    cc (no_candidates env key m)
select_among-Headed env others key (c ∷ cs) n m s u session model bound calm =
    let given : (not (str_eq key.session_id "") && not (str_eq key.model "")) ≡ true =
      ground (arith, eq_iff key.session_id "", eq_iff key.model "") in
    rw (given, pin_session-bound env others key (c ∷ cs) m s u bound)
      (result_with_primary-Headed env u (c ∷ cs) n s calm, refl)

-- A session with a young binding to an upstream that the group still offers is served by that
-- upstream first, whatever the policy and the random source; the fallbacks are other candidates,
-- fewer than the attempts allowed; and the binding is refreshed, no other one touched.
pub select_with_retry-sticky :
    (env : Env) (others : SessionMap → SessionMap) (g : ResolvedGroup) (key : SessionKey)
    (m : SessionMap) (s : State) (u : Upstream) (n : ℕ)
    → key.session_id ≢ ""
    → key.model ≢ ""
    → attempts g.group ≡ pos (suc n)
    → let cs = usable_candidates env.counts [] g.members in
      usable env.session_ttl env.now cs (m key) ≡ some u
      → Calm env.rand (length cs) cs s
      → let (us, m', s') = select_with_retry env others g key.session_id key.model m s in
        Headed env u cs (suc n) us × (m' ≡ write_binding m key (some (binding_of u env.now)))
unfolding select_with_retry
select_with_retry-sticky env others g key m s u n session model tries bound calm = rw tries (
    select_among-Headed env others key (usable_candidates env.counts [] g.members) n m s u session
      model bound calm)
