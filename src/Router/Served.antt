-- ===== src/Router/Served.antt =====
-- Which upstreams `SelectWithRetry` and `SelectCapacityFallbacks` return.
use mathlib.Core.Logic.Or
use mathlib.Core.List.{
  Mem, Perm, mem-cons, mem-cons_of_mem, not-mem-nil, mem-cons_self, mem-append, Mem-prop,
}
use mathlib.Core.List.Perm
use mathlib.Core.Path.{subst}
use modelserver.Prelude.{
  ℕ, min, String, ◌≡◌, refl, sym, ap, ◌∙◌, ◌⊎◌, inl, inr, Bool, true, false, not, ◌&&◌, List, [],
  ◌∷◌, ◌++◌, map, any, Option, some, arith, contains, length, str_eq, Bool-cases, eq_iff,
}
use modelserver.Prelude.Int.{ℤ, pos}
use modelserver.Types.{Upstream}
use modelserver.Lb.Balancer.{CandidateInfo, State, select_n}
use modelserver.Lb.Select.{Calm, Ranks, select_n-Ranks}
use modelserver.Router.Matching.{ResolvedGroup, GroupMember}
use modelserver.Router.Sessions.{SessionMap}
use modelserver.Router.Selection.{
  is_kind, SelectedUpstream, Env, is_available, candidate_of, if_none, candidates_of,
  usable_candidates, with_key, with_keys, attempts, select_among, select_with_retry,
  select_capacity_fallbacks,
}

-- An available member that is not excluded and is no backup.
abbrev pub is_usable_primary : (String → ℤ) → List String → GroupMember → Bool
is_usable_primary counts excluded m =
    not (contains excluded m.upstream.id) && is_available counts m.upstream && is_kind false m

-- The candidate is a member of the group, not excluded, available, and a backup only where the
-- group has no usable primary.
abbrev pub Offered : (String → ℤ) → List String → List GroupMember → CandidateInfo → Type 0
Offered counts excluded ms c =
    Mem c (map (candidate_of counts) ms)
    × (contains excluded c.upstream.id ≡ false)
    × (is_available counts c.upstream ≡ true)
    × (c.is_backup ≡ true → any (is_usable_primary counts excluded) ms ≡ false)

module _ (counts : String → ℤ) (excluded : List String) where
  abbrev Listed : Bool → List GroupMember → CandidateInfo → Type 0
  Listed backup ms c =
      Mem c (map (candidate_of counts) ms)
      × (contains excluded c.upstream.id ≡ false)
      × (is_available counts c.upstream ≡ true)
      × (c.is_backup ≡ backup)

  Listed-cons :
      (backup : Bool) (m : GroupMember) (ms : List GroupMember) (c : CandidateInfo)
      → Listed backup ms c
      → Listed backup (m ∷ ms) c
  Listed-cons backup m ms c (a, b, d, e) = (mem-cons_of_mem (candidate_of counts m) a, b, d, e)

  candidates_of-Listed :
      (backup : Bool) (ms : List GroupMember) (c : CandidateInfo)
      → Mem c (candidates_of counts excluded backup ms)
      → Listed backup ms c
  unfolding candidates_of
  candidates_of-Listed backup [] c h = absurd (not-mem-nil h)
  candidates_of-Listed backup (m ∷ ms) c h =
      let later = λ (k : Mem c (candidates_of counts excluded backup ms)).
        Listed-cons backup m ms c (candidates_of-Listed backup ms c k) in
      elim (Bool-cases (
        not (contains excluded m.upstream.id)
        && is_available counts m.upstream
        && is_kind backup m)) [
          | inl offered ↦
              Or.elim {C = Listed backup (m ∷ ms) c} (hlevel Mem-prop)
                (mem-cons.0 (rw offered at h))
                (λ e.
                  subst (Listed backup (m ∷ ms)) (sym e)
                    (mem-cons_self, ground arith, ground arith, ground arith))
                later
          | inr skipped ↦ later (rw skipped at h)
        ]

  no_primaries :
      (ms : List GroupMember)
      → candidates_of counts excluded false ms ≡ []
      → any (is_usable_primary counts excluded) ms ≡ false
  unfolding candidates_of
  no_primaries [] h = refl
  no_primaries (m ∷ ms) h = ground (arith, no_primaries ms)

  -- Every candidate that the selection works on is a member of the group, not excluded, available,
  -- and a backup only where the group has no usable primary.
  pub usable_candidates-Offered :
      (ms : List GroupMember) (c : CandidateInfo)
      → Mem c (usable_candidates counts excluded ms)
      → Offered counts excluded ms c
  unfolding usable_candidates
  usable_candidates-Offered ms c h = go (candidates_of counts excluded false ms) refl h
    where
      go :
          (primaries : List CandidateInfo)
          → candidates_of counts excluded false ms ≡ primaries
          → Mem c (if_none primaries (candidates_of counts excluded true ms))
          → Offered counts excluded ms c
      go [] e k =
          let (a, b, d, kind) = candidates_of-Listed true ms c k in
          (a, b, d, λ _. no_primaries ms e)
      go (p ∷ ps) e k =
          let (a, b, d, kind) = candidates_of-Listed false ms c (subst (Mem c) (sym e) k) in
          (a, b, d, λ backup. cc)

-- What a selection returns: `n` of the candidates, none of them twice, with their keys, and each of
-- them offered by the group. `rest` are the candidates that are left.
pub record Served (env : Env) (excluded : List String) (g : ResolvedGroup) (n : ℕ)
    (r : Option (List SelectedUpstream)) : Type 0 where
  pub ranked : List CandidateInfo
  pub rest : List CandidateInfo
  pub result : r ≡ some (map (λ c. with_key env c.upstream) ranked)
  pub count : length ranked ≡ n
  pub among : Perm (ranked ++ rest) (usable_candidates env.counts excluded g.members)
  pub offered : (c : CandidateInfo) → Mem c ranked → Offered env.counts excluded g.members c

with_keys-map :
    (env : Env) (cs : List CandidateInfo)
    → map (with_key env) (map (λ c. c.upstream) cs) ≡ map (λ c. with_key env c.upstream) cs
with_keys-map env [] = refl
with_keys-map env (c ∷ cs) = ap (λ us. with_key env c.upstream ∷ us) (with_keys-map env cs)

Ranks-Served :
    (env : Env) (excluded : List String) (g : ResolvedGroup) (n : ℕ) (r : Option (List Upstream))
    → Ranks n (usable_candidates env.counts excluded g.members) r
    → Served env excluded g n (with_keys env r)
Ranks-Served env excluded g n r k = record {
  ranked = k.ranked;
  rest = k.rest;
  result = ap (with_keys env) k.result ∙ ap some (with_keys-map env k.ranked);
  count = k.count;
  among = k.among;
  offered = λ c h.
      usable_candidates-Offered env.counts excluded g.members c
        ((Perm.mem_iff k.among).0 (mem-append.1 (Or.inl h)));
}

-- The fallbacks for a model at capacity are all the candidates that the group offers outside the
-- excluded upstreams, whatever the retry policy says.
pub select_capacity_fallbacks-Served :
    (env : Env) (g : ResolvedGroup) (excluded : List String) (s : State)
    → let n = length (usable_candidates env.counts excluded g.members) in
      Calm env.rand n (usable_candidates env.counts excluded g.members) s
      → Served env excluded g n (select_capacity_fallbacks env g excluded s).0
unfolding select_capacity_fallbacks
select_capacity_fallbacks-Served env g excluded s calm =
    let cs = usable_candidates env.counts excluded g.members in
    let same : min (length cs) (length cs) ≡ length cs = omega arith in
    Ranks-Served env excluded g (length cs) (select_n env.rand env.policy cs (pos (length cs)) s).0
      (subst (λ n. Ranks n cs (select_n env.rand env.policy cs (pos (length cs)) s).0) same
        (select_n-Ranks env.rand env.policy cs (length cs) s
          (subst (λ n. Calm env.rand n cs s) (sym same) calm)))

select_among_plain :
    (env : Env) (others : SessionMap → SessionMap) (session_id model : String)
    (cs : List CandidateInfo) (n : ℤ) (m : SessionMap) (s : State)
    → (session_id ≡ "") ⊎ (model ≡ "")
    → (select_among env others session_id model cs n m s).0
      ≡ with_keys env (select_n env.rand env.policy cs n s).0
unfolding select_among select_n
select_among_plain env others session_id model [] n m s h = refl
select_among_plain env others session_id model (c ∷ cs) n m s h =
    let plain : (not (str_eq session_id "") && not (str_eq model "")) ≡ false =
      ground (arith, eq_iff session_id "", eq_iff model "") in
    rw plain

-- Without a session, a request gets as many upstreams as its group's retry policy allows attempts,
-- or all that the group offers where there are fewer.
pub select_with_retry-Served :
    (env : Env) (others : SessionMap → SessionMap) (g : ResolvedGroup) (session_id model : String)
    (m : SessionMap) (s : State) (n : ℕ)
    → (session_id ≡ "") ⊎ (model ≡ "")
    → attempts g.group ≡ pos n
    → let k = min n (length (usable_candidates env.counts [] g.members)) in
      Calm env.rand k (usable_candidates env.counts [] g.members) s
      → Served env [] g k (select_with_retry env others g session_id model m s).0
unfolding select_with_retry
select_with_retry-Served env others g session_id model m s n none_given tries calm =
    let cs = usable_candidates env.counts [] g.members in
    rw (tries, select_among_plain env others session_id model cs (pos n) m s none_given)
      (Ranks-Served env [] g (min n (length cs)) (select_n env.rand env.policy cs (pos n) s).0
        (select_n-Ranks env.rand env.policy cs n s calm))
