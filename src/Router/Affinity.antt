-- ===== src/Router/Affinity.antt =====
-- About session affinity: the fast and the slow path, and the unbinding.
use modelserver.Prelude.{
  String, ◌≡◌, ◌≢◌, refl, ap, ◌∙◌, inl, inr, true, false, ◌||◌, List, [], ◌∷◌, Option, none, some,
  arith, str_eq, Bool-cases, Option-cases, some_inj, eq_iff,
}
use modelserver.Prelude.Int.{ℤ, ◌-ℤ◌, ltb_ℤ}
use modelserver.Types.{Upstream}
use modelserver.Lb.Balancer.{CandidateInfo}
use modelserver.Router.Sessions.{
  SessionBinding, SessionKey, SessionMap, binding_of, key_eq, write_binding, find_in_candidates,
  usable, pin_fast, pin_slow, pointing_at, binding_eq, unbind_loaded, compare_and_delete,
  unbind_session,
}
use text.Mathlib.TextPositions.{eq_refl}

key_eq_refl : (k : SessionKey) → key_eq k k ≡ true
key_eq_refl k = rw (eq_refl k.session_id, eq_refl k.model)

find_own :
    (cs : List CandidateInfo) (id : String) (u : Upstream)
    → find_in_candidates cs id ≡ some u
    → u.id ≡ id
find_own [] id u h = cc
find_own (c ∷ cs) id u h = ground (arith, eq_iff c.upstream.id id, find_own cs id u)

usable-id :
    (ttl now : ℤ) (cs : List CandidateInfo) (b : SessionBinding) (u : Upstream)
    → usable ttl now cs (some b) ≡ some u
    → (u.id ≡ b.upstream_id) × (ltb_ℤ (now -ℤ b.used_at) ttl ≡ true)
unfolding usable
usable-id ttl now cs b u h = ground (arith, find_own cs b.upstream_id u)

write_binding_self :
    (m : SessionMap) (key : SessionKey) (b : Option SessionBinding) → write_binding m key b key ≡ b
write_binding_self m key b = rw (key_eq_refl key)

pin_slow_claims :
    (ttl now : ℤ) (key : SessionKey) (cs : List CandidateInfo) (p : Upstream) (m : SessionMap)
    → usable ttl now cs (m key) ≡ none
    → pin_slow ttl now key cs p m ≡ (p, write_binding m key (some (binding_of p now)))
unfolding pin_slow
pin_slow_claims ttl now key cs p m h = elim (Option-cases (m key)) [
  | inl e ↦ rw e
  | inr (b, e) ↦
      let none_usable : usable ttl now cs (some b) ≡ none = rw e at h in rw (e, none_usable)
]

pin_slow_follows :
    (ttl now : ℤ) (key : SessionKey) (cs : List CandidateInfo) (p u : Upstream) (m : SessionMap)
    (b : SessionBinding)
    → m key ≡ some b
    → usable ttl now cs (some b) ≡ some u
    → pin_slow ttl now key cs p m ≡ (u, m)
unfolding pin_slow
pin_slow_follows ttl now key cs p u m b e h = rw (e, h)

-- Two requests of one session and model, whose loads both found no usable binding, converge: the
-- second to reach its `LoadOrStore`, while the first one's binding is young and its upstream is
-- among the candidates, gets the upstream of the first and leaves the map alone, whatever the
-- balancer picked for it.
pin_slow_converges :
    (ttl t1 t2 : ℤ) (key : SessionKey) (cs1 cs2 : List CandidateInfo) (p1 p2 u : Upstream)
    (m : SessionMap)
    → usable ttl t1 cs1 (m key) ≡ none
    → ltb_ℤ (t2 -ℤ t1) ttl ≡ true
    → find_in_candidates cs2 p1.id ≡ some u
    → let (first, m') = pin_slow ttl t1 key cs1 p1 m in
      (first ≡ p1) × (pin_slow ttl t2 key cs2 p2 m' ≡ (u, m')) × (u.id ≡ p1.id)
unfolding usable
pin_slow_converges ttl t1 t2 key cs1 cs2 p1 p2 u m stale young found =
    rw (pin_slow_claims ttl t1 key cs1 p1 m stale) (
      refl,
      pin_slow_follows ttl t2 key cs2 p2 u (write_binding m key (some (binding_of p1 t1)))
          (binding_of p1 t1) (write_binding_self m key (some (binding_of p1 t1)))
          (rw (young, found)),
      find_own cs2 p1.id u found,
    )

-- A young binding to an available upstream is followed by the fast path and refreshed; no other key
-- is touched. Where there is none, the fast path changes nothing.
pub pin_fast_lem :
    (ttl now : ℤ) (key other : SessionKey) (cs : List CandidateInfo) (m : SessionMap)
    → key_eq key other ≡ false
    → ((pin_fast ttl now key cs m).0 ≡ usable ttl now cs (m key))
      × ((pin_fast ttl now key cs m).1 other ≡ m other)
      × ((u : Upstream)
          → usable ttl now cs (m key) ≡ some u
          → (pin_fast ttl now key cs m).1 key ≡ some (binding_of u now))
      × (usable ttl now cs (m key) ≡ none → (pin_fast ttl now key cs m).1 ≡ m)
unfolding pin_fast
pin_fast_lem ttl now key other cs m ne = elim (Option-cases (usable ttl now cs (m key))) [
  | inl e ↦ rw e (refl, refl, λ u h. cc, λ _. refl)
  | inr (v, e) ↦ rw e (
    refl,
    rw ne,
    λ u h. rw (key_eq_refl key) (ap (λ w. some (binding_of w now)) (some_inj h)),
    λ h. cc,
  )
]

compare_and_delete_other :
    (key other : SessionKey) (loaded : SessionBinding) (m : SessionMap)
    → key_eq key other ≡ false
    → compare_and_delete key loaded m other ≡ m other
unfolding compare_and_delete
compare_and_delete_other key other loaded m ne = elim (Option-cases (m key)) [
  | inl e ↦ rw e
  | inr (b, e) ↦
      rw e (elim (Bool-cases (binding_eq b loaded)) [
        | inl same ↦ rw (same, ne)
        | inr moved ↦ rw moved
      ])
]

compare_and_delete_newer :
    (key : SessionKey) (loaded b : SessionBinding) (m : SessionMap)
    → m key ≡ some b
    → b.upstream_id ≢ loaded.upstream_id
    → compare_and_delete key loaded m key ≡ some b
unfolding compare_and_delete
compare_and_delete_newer key loaded b m e ne =
    let moved : binding_eq b loaded ≡ false =
      ground (arith, eq_iff b.upstream_id loaded.upstream_id) in
    rw e (rw moved e)

compare_and_delete_same :
    (key : SessionKey) (b : SessionBinding) (m : SessionMap)
    → m key ≡ some b
    → compare_and_delete key b m key ≡ none
unfolding compare_and_delete
compare_and_delete_same key b m e =
    let same : binding_eq b b ≡ true = ground (arith, eq_refl b.upstream_id) in
    rw e (rw (same, key_eq_refl key))

pointing_at-id :
    (upstream_id : String) (o : Option SessionBinding) (b : SessionBinding)
    → pointing_at upstream_id o ≡ some b
    → b.upstream_id ≡ upstream_id
pointing_at-id upstream_id none b h = cc
pointing_at-id upstream_id (some a) b h = ground (arith, eq_iff a.upstream_id upstream_id)

unbind_loaded_newer :
    (key : SessionKey) (upstream_id : String) (o : Option SessionBinding) (b : SessionBinding)
    (m : SessionMap)
    → m key ≡ some b
    → b.upstream_id ≢ upstream_id
    → unbind_loaded key (pointing_at upstream_id o) m key ≡ some b
unbind_loaded_newer key upstream_id o b m e ne = elim (Option-cases (pointing_at upstream_id o)) [
  | inl none_seen ↦ rw none_seen e
  | inr (loaded, seen) ↦ rw seen (
      compare_and_delete_newer key loaded b m e
        (λ same. ne (same ∙ pointing_at-id upstream_id o loaded seen)))
]

unbind_loaded_other :
    (key other : SessionKey) (o : Option SessionBinding) (m : SessionMap)
    → key_eq key other ≡ false
    → unbind_loaded key o m other ≡ m other
unbind_loaded_other key other none m ne = refl
unbind_loaded_other key other (some b) m ne = compare_and_delete_other key other b m ne

unbind_session_newer :
    (others : SessionMap → SessionMap) (key : SessionKey) (upstream_id : String) (m : SessionMap)
    (b : SessionBinding)
    → others m key ≡ some b
    → b.upstream_id ≢ upstream_id
    → unbind_session others key upstream_id m key ≡ some b
unfolding unbind_session
unbind_session_newer others key upstream_id m b new ne =
    elim (Bool-cases (str_eq key.session_id "" || (str_eq key.model "" || str_eq upstream_id ""))) [
      | inl skipped ↦ rw skipped new
      | inr called ↦ rw called (unbind_loaded_newer key upstream_id (m key) b (others m) new ne)
    ]

unbind_session_other :
    (others : SessionMap → SessionMap) (key other : SessionKey) (upstream_id : String)
    (m : SessionMap)
    → key_eq key other ≡ false
    → unbind_session others key upstream_id m other ≡ others m other
unfolding unbind_session
unbind_session_other others key other upstream_id m ne =
    elim (Bool-cases (str_eq key.session_id "" || (str_eq key.model "" || str_eq upstream_id ""))) [
      | inl skipped ↦ rw skipped
      | inr called ↦
          rw called (unbind_loaded_other key other (pointing_at upstream_id (m key)) (others m) ne)
    ]

unbind_session_same :
    (others : SessionMap → SessionMap) (key : SessionKey) (upstream_id : String) (m : SessionMap)
    (b : SessionBinding)
    → others m key ≡ some b
    → m key ≡ some b
    → b.upstream_id ≡ upstream_id
    → key.session_id ≢ ""
    → key.model ≢ ""
    → upstream_id ≢ ""
    → unbind_session others key upstream_id m key ≡ none
unfolding unbind_session
unbind_session_same others key upstream_id m b new old here session model upstream =
    let called : (str_eq key.session_id "" || (str_eq key.model "" || str_eq upstream_id ""))
        ≡ false =
      ground (arith, eq_iff key.session_id "", eq_iff key.model "", eq_iff upstream_id "") in
    let seen : str_eq b.upstream_id upstream_id ≡ true =
      (eq_iff b.upstream_id upstream_id).1 here in
    rw (called, old) (rw seen (compare_and_delete_same key b (others m) new))

-- An unbind removes a binding only while it is the one that was seen to point at the failed
-- upstream: a binding of another upstream that a concurrent request has put in its place stays, and
-- so do all other keys. Alone, it does remove such a binding.
pub unbind_session_lem :
    (others : SessionMap → SessionMap) (key other : SessionKey) (upstream_id : String)
    (m : SessionMap) (b : SessionBinding)
    → others m key ≡ some b
    → key_eq key other ≡ false
    → (b.upstream_id ≢ upstream_id → unbind_session others key upstream_id m key ≡ some b)
      × (unbind_session others key upstream_id m other ≡ others m other)
      × (m key ≡ some b
          → b.upstream_id ≡ upstream_id
          → key.session_id ≢ ""
          → key.model ≢ ""
          → upstream_id ≢ ""
          → unbind_session others key upstream_id m key ≡ none)
unbind_session_lem others key other upstream_id m b new ne = (
  λ differs. unbind_session_newer others key upstream_id m b new differs,
  unbind_session_other others key other upstream_id m ne,
  λ old here session model upstream.
      unbind_session_same others key upstream_id m b new old here session model upstream,
)
