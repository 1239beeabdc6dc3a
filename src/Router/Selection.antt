-- ===== src/Router/Selection.antt =====
-- `SelectWithRetry`, `SelectCapacityFallbacks`, `pinSessionToUpstream` and `resultWithPrimary` of
-- internal/proxy/router_engine.go. The connection counts are one snapshot for the whole call.
use modelserver.Prelude.{
  ℕ, String, Bool, true, false, not, ◌&&◌, ◌||◌, List, [], ◌∷◌, map, Option, none, some, contains,
  keep, length, str_eq, leb, if◌then◌else◌,
}
use modelserver.Prelude.Int.{ℤ, pos, negsuc, ◌+ℤ◌, ◌-ℤ◌, ltb_ℤ, leb_ℤ, wrap_int64}
use modelserver.Types.{
  Upstream, UpstreamGroup, RetryPolicy, status_disabled, status_draining, map_get, or_else,
}
use modelserver.Lb.Balancer.{
  CandidateInfo, State, Pick, panicked, nothing, chosen, select, select_n,
}
use modelserver.Router.Matching.{ResolvedGroup, GroupMember}
use modelserver.Router.Sessions.{SessionKey, SessionMap, pin_fast, pin_slow}

pub record SelectedUpstream : Type 0 where
  pub upstream : Upstream
  pub api_key : String

-- What the functions read of a `Router`, but for the sessions: the connection counts, the keys, the
-- random source, and the policy of the group's balancer.
pub record Env : Type 0 where
  pub counts : String → ℤ
  pub decrypted_keys : List (String × String)
  pub rand : ℕ → ℕ → ℕ
  pub policy : String
  pub session_ttl : ℤ
  pub now : ℤ

-- The filters on a member's upstream: its status, and its room for one more connection.
unfoldable pub is_available : (String → ℤ) → Upstream → Bool
is_available counts u =
    not (str_eq u.status status_disabled)
    && not (str_eq u.status status_draining)
    && not (ltb_ℤ (pos 0) u.max_concurrent && leb_ℤ u.max_concurrent (counts u.id))

abbrev pub candidate_of : (String → ℤ) → GroupMember → CandidateInfo
candidate_of counts m = record {
  upstream = m.upstream;
  weight = m.weight;
  is_backup = m.is_backup;
  active_conns = counts m.upstream.id;
}

abbrev pub is_kind : Bool → GroupMember → Bool
is_kind backup m = if m.is_backup then backup else not backup

-- The candidates of one kind, primaries or backups, in the order of the members.
unfoldable pub candidates_of :
    (String → ℤ) → List String → Bool → List GroupMember → List CandidateInfo
candidates_of counts excluded backup [] = []
candidates_of counts excluded backup (m ∷ ms) =
    if not (contains excluded m.upstream.id) && is_available counts m.upstream && is_kind backup m
    then candidate_of counts m ∷ candidates_of counts excluded backup ms
    else candidates_of counts excluded backup ms

abbrev pub if_none : List CandidateInfo → List CandidateInfo → List CandidateInfo
if_none [] backups = backups
if_none (c ∷ cs) backups = c ∷ cs

-- The primaries, or the backups where no primary remains.
unfoldable pub usable_candidates :
    (String → ℤ) → List String → List GroupMember → List CandidateInfo
usable_candidates counts excluded ms =
    if_none (candidates_of counts excluded false ms) (candidates_of counts excluded true ms)

-- An upstream with its key; a missing key is the empty string.
abbrev pub with_key : Env → Upstream → SelectedUpstream
with_key env u = record { upstream = u; api_key = or_else (map_get env.decrypted_keys u.id) "" }

abbrev pub with_keys : Env → Option (List Upstream) → Option (List SelectedUpstream)
with_keys env none = none
with_keys env (some us) = some (map (with_key env) us)

unfoldable pub without_id : String → List CandidateInfo → List CandidateInfo
without_id id cs = keep (λ c. not (str_eq c.upstream.id id)) cs

abbrev with_primary :
    SelectedUpstream → Option (List SelectedUpstream) → Option (List SelectedUpstream)
with_primary u none = none
with_primary u (some us) = some (u ∷ us)

-- `resultWithPrimary`; a negative `n` is a negative capacity, at which `make` panics.
unfoldable pub result_with_primary :
    Env → Upstream → List CandidateInfo → ℤ → State → Option (List SelectedUpstream) × State
result_with_primary env primary cs (negsuc n) s = (none, s)
result_with_primary env primary cs (pos n) s =
    if leb n 1 || leb (length cs) 1
    then (some (with_key env primary ∷ []), s)
    else (let (us, s') =
          select_n env.rand env.policy (without_id primary.id cs) (pos n -ℤ pos 1) s in
        (with_primary (with_key env primary) (with_keys env us), s'))

-- `pinSessionToUpstream`, with what other goroutines write between its load and its `LoadOrStore`.
-- The result is a pick of an upstream, nothing, or a panic of the balancer.
pub data Pinned : Type 0 where
  pin_panicked : Pinned
  unpinned : Pinned
  pinned : Upstream → Pinned

abbrev pin_picked :
    Env
    → (SessionMap → SessionMap)
    → SessionKey
    → List CandidateInfo
    → SessionMap
    → Pick × State
    → Pinned × SessionMap × State
pin_picked env others key cs m (panicked, s) = (pin_panicked, m, s)
pin_picked env others key cs m (nothing, s) = (unpinned, m, s)
pin_picked env others key cs m (chosen c i, s) =
    let (u, m') = pin_slow env.session_ttl env.now key cs c.upstream (others m) in (pinned u, m', s)

abbrev pin_after_fast :
    Env
    → (SessionMap → SessionMap)
    → SessionKey
    → List CandidateInfo
    → State
    → Option Upstream × SessionMap
    → Pinned × SessionMap × State
pin_after_fast env others key cs s (some u, m) = (pinned u, m, s)
pin_after_fast env others key cs s (none, m) =
    pin_picked env others key cs m (select env.rand env.policy cs s)

unfoldable pub pin_session :
    Env
    → (SessionMap → SessionMap)
    → SessionKey
    → List CandidateInfo
    → SessionMap
    → State
    → Pinned × SessionMap × State
pin_session env others key cs m s =
    pin_after_fast env others key cs s (pin_fast env.session_ttl env.now key cs m)

abbrev max_retries : Option RetryPolicy → ℤ
max_retries none = pos 0
max_retries (some p) = p.max_retries

-- The number of upstreams to try: the primary and the retries.
unfoldable pub attempts : UpstreamGroup → ℤ
attempts g = wrap_int64 (pos 1 +ℤ max_retries g.retry_policy)

abbrev finish_pinned :
    Env
    → List CandidateInfo
    → ℤ
    → Pinned × SessionMap × State
    → Option (List SelectedUpstream) × SessionMap × State
finish_pinned env cs n (pin_panicked, m, s) = (none, m, s)
finish_pinned env cs n (unpinned, m, s) =
    let (us, s') = select_n env.rand env.policy cs n s in (with_keys env us, m, s')
finish_pinned env cs n (pinned u, m, s) =
    let (us, s') = result_with_primary env u cs n s in (us, m, s')

-- `SelectWithRetry` from the candidates on.
unfoldable pub select_among :
    Env
    → (SessionMap → SessionMap)
    → String
    → String
    → List CandidateInfo
    → ℤ
    → SessionMap
    → State
    → Option (List SelectedUpstream) × SessionMap × State
select_among env others session_id model [] n m s = (some [], m, s)
select_among env others session_id model (c ∷ cs) n m s =
    if not (str_eq session_id "") && not (str_eq model "")
    then finish_pinned env (c ∷ cs) n
        (pin_session env others (record { session_id = session_id; model = model }) (c ∷ cs) m s)
    else (let (us, s') = select_n env.rand env.policy (c ∷ cs) n s in (with_keys env us, m, s'))

-- `SelectWithRetry`
unfoldable pub select_with_retry :
    Env
    → (SessionMap → SessionMap)
    → ResolvedGroup
    → String
    → String
    → SessionMap
    → State
    → Option (List SelectedUpstream) × SessionMap × State
select_with_retry env others g session_id model m s =
    select_among env others session_id model (usable_candidates env.counts [] g.members)
      (attempts g.group) m s

-- `SelectCapacityFallbacks`
unfoldable pub select_capacity_fallbacks :
    Env → ResolvedGroup → List String → State → Option (List SelectedUpstream) × State
select_capacity_fallbacks env g excluded s =
    let cs = usable_candidates env.counts excluded g.members in
    let (us, s') = select_n env.rand env.policy cs (pos (length cs)) s in (with_keys env us, s')
