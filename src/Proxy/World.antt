-- ===== src/Proxy/World.antt =====
-- What a request of `Execute` (internal/proxy/executor.go) learns from outside, and how its steps end.
use modelserver.Prelude.{ℕ, String, Bool, not, ◌||◌, List, ◌++◌, contains}
use modelserver.Prelude.Int.{ℤ, pos, eqb_ℤ}
use modelserver.Types.{Upstream}
use modelserver.Router.Selection.{SelectedUpstream, Env}
use modelserver.Proxy.Replies.{Reply, BodyTests}
use modelserver.Proxy.Requests.{Run, ids}

-- How the preparation of an attempt ends: before the client is known, at the client, or ready.
pub data Prepared : Type 0 where
  unprepared : Prepared
  no_client : Prepared
  ready : Prepared

-- How a streamed response ends: whether the copy to the client broke off, and whether the provider
-- reported a model at capacity after its first bytes.
pub record StreamEnd : Type 0 where
  pub interrupted : Bool
  pub at_capacity : Bool

-- The outside at the n-th attempt: the transformer and the client, the reply to its k-th request,
-- the refresh of an OAuth token, the stripping of the request body, the router as its k-th look for
-- fallbacks sees it, and the reading of the response that is committed.
pub record World (B : Type 0) : Type 0 where
  pub tests : BodyTests B
  pub prepare : ℕ → Upstream → Prepared
  pub send : ℕ → ℕ → Reply B
  pub refreshes : ℕ → Bool
  pub strips : ℕ → Bool
  pub router : ℕ → ℕ → Env
  pub stream_end : ℕ → StreamEnd
  pub body_read : ℕ → Bool

pub data Verdict : Type 0 where
  again : Run → Verdict
  done : Run → Verdict
  panicked : Verdict

-- `handleCodexCapacity`: not detected, detected with no fallback, or detected and to be retried.
pub data Capacity : Type 0 where
  undetected : Capacity
  no_fallback : Run → Capacity
  fall_back : Run → Capacity
  crashed : Capacity

-- A recovery on the same upstream: the request is over, or goes on with a reply after a number of
-- requests, replayed or not.
pub data Recovery (B : Type 0) : Type 0 where
  over : Run → Recovery B
  going : Run → Reply B → ℕ → Bool → Recovery B

abbrev pub is_unauthorized : ℤ → Bool
is_unauthorized code = eqb_ℤ code (pos 401) || eqb_ℤ code (pos 403)

abbrev pub untried : Run → SelectedUpstream → Bool
untried r c = not (contains (ids r.seen) c.upstream.id)

-- The ids of the candidates of the slice.
abbrev pub known : Run → List String
known r = ids r.seen ++ ids r.todo
