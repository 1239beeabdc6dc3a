-- ===== src/Router/Sessions.antt =====
-- Session affinity of internal/proxy/router_engine.go: the sync.Map of bindings as a function of the
-- key, with the steps that are atomic on it as functions of their own. Times are nanoseconds.
use modelserver.Prelude.{
  String, Bool, ◌&&◌, ◌||◌, List, [], ◌∷◌, Option, none, some, str_eq, if◌then◌else◌,
}
use modelserver.Prelude.Int.{ℤ, ◌-ℤ◌, ltb_ℤ, eqb_ℤ}
use modelserver.Types.{Upstream}
use modelserver.Lb.Balancer.{CandidateInfo}

pub record SessionBinding : Type 0 where
  pub upstream_id : String
  pub used_at : ℤ

pub record SessionKey : Type 0 where
  pub session_id : String
  pub model : String

abbrev pub SessionMap : Type 0
SessionMap = SessionKey → Option SessionBinding

abbrev pub key_eq : SessionKey → SessionKey → Bool
key_eq a b = str_eq a.session_id b.session_id && str_eq a.model b.model

-- `Store` and `Delete` of the sync.Map.
abbrev pub write_binding : SessionMap → SessionKey → Option SessionBinding → SessionMap
write_binding m key b k = if key_eq key k then b else m k

-- `findInCandidates`
abbrev pub find_in_candidates : List CandidateInfo → String → Option Upstream
find_in_candidates [] id = none
find_in_candidates (c ∷ cs) id =
    if str_eq c.upstream.id id then some c.upstream else find_in_candidates cs id

-- The upstream of a binding that is younger than the TTL and still available.
unfoldable pub usable : ℤ → ℤ → List CandidateInfo → Option SessionBinding → Option Upstream
usable ttl now cs none = none
usable ttl now cs (some b) =
    if ltb_ℤ (now -ℤ b.used_at) ttl then find_in_candidates cs b.upstream_id else none

abbrev pub binding_of : Upstream → ℤ → SessionBinding
binding_of u now = record { upstream_id = u.id; used_at = now }

abbrev refresh : ℤ → SessionKey → SessionMap → Option Upstream → Option Upstream × SessionMap
refresh now key m none = (none, m)
refresh now key m (some u) = (some u, write_binding m key (some (binding_of u now)))

-- The fast path of `pinSessionToUpstream`: load, and refresh where the binding is usable.
unfoldable pub pin_fast :
    ℤ → ℤ → SessionKey → List CandidateInfo → SessionMap → Option Upstream × SessionMap
pin_fast ttl now key cs m = refresh now key m (usable ttl now cs (m key))

abbrev claim : ℤ → SessionKey → Upstream → SessionMap → Upstream × SessionMap
claim now key primary m = (primary, write_binding m key (some (binding_of primary now)))

abbrev follow_or_claim :
    ℤ → SessionKey → Upstream → SessionMap → Option Upstream → Upstream × SessionMap
follow_or_claim now key primary m none = claim now key primary m
follow_or_claim now key primary m (some u) = (u, m)

abbrev load_or_store :
    ℤ
    → ℤ
    → SessionKey
    → List CandidateInfo
    → Upstream
    → SessionMap
    → Option SessionBinding
    → Upstream × SessionMap
load_or_store ttl now key cs primary m none = claim now key primary m
load_or_store ttl now key cs primary m (some b) =
    follow_or_claim now key primary m (usable ttl now cs (some b))

-- The slow path, for the upstream `primary` that the balancer picked: `LoadOrStore`, then follow a
-- usable binding of another goroutine, or overwrite a stale one.
unfoldable pub pin_slow :
    ℤ → ℤ → SessionKey → List CandidateInfo → Upstream → SessionMap → Upstream × SessionMap
pin_slow ttl now key cs primary m = load_or_store ttl now key cs primary m (m key)

-- `BindSession`
unfoldable pub bind_session : ℤ → SessionKey → String → SessionMap → SessionMap
bind_session now key upstream_id m =
    if str_eq key.session_id "" || str_eq key.model ""
    then m
    else write_binding m key (some (record { upstream_id = upstream_id; used_at = now }))

abbrev pub pointing_at : String → Option SessionBinding → Option SessionBinding
pointing_at upstream_id none = none
pointing_at upstream_id (some b) = if str_eq b.upstream_id upstream_id then some b else none

abbrev pub binding_eq : SessionBinding → SessionBinding → Bool
binding_eq a b = str_eq a.upstream_id b.upstream_id && eqb_ℤ a.used_at b.used_at

abbrev pub delete_same :
    SessionKey → SessionBinding → SessionMap → Option SessionBinding → SessionMap
delete_same key loaded m none = m
delete_same key loaded m (some b) = if binding_eq b loaded then write_binding m key none else m

-- `CompareAndDelete`: only the very binding that was loaded.
unfoldable pub compare_and_delete : SessionKey → SessionBinding → SessionMap → SessionMap
compare_and_delete key loaded m = delete_same key loaded m (m key)

abbrev pub unbind_loaded : SessionKey → Option SessionBinding → SessionMap → SessionMap
unbind_loaded key none m = m
unbind_loaded key (some loaded) m = compare_and_delete key loaded m

-- `UnbindSessionFromUpstream`: the load, and the deletion in the map that other goroutines have
-- made of it since.
unfoldable pub unbind_session :
    (SessionMap → SessionMap) → SessionKey → String → SessionMap → SessionMap
unfolding compare_and_delete
unbind_session others key upstream_id m =
    if str_eq key.session_id "" || (str_eq key.model "" || str_eq upstream_id "")
    then others m
    else unbind_loaded key (pointing_at upstream_id (m key)) (others m)

abbrev drop_expired : ℤ → ℤ → Option SessionBinding → Option SessionBinding
drop_expired ttl now none = none
drop_expired ttl now (some b) = if ltb_ℤ ttl (now -ℤ b.used_at) then none else some b

-- One sweep of `StartSessionCleanup`.
unfoldable pub cleanup_sessions : ℤ → ℤ → SessionMap → SessionMap
cleanup_sessions ttl now m key = drop_expired ttl now (m key)
