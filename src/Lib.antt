-- ===== src/Lib.antt =====
-- The core logic of the model server: which upstream serves a request, how concurrent requests
-- share the upstreams and fail over, when a request is refused for its rate or its credits, what
-- it costs, and who may call the administration API.
--
-- How the parts interact. A request is authenticated by an API key or a token (`AuthMiddleware`),
-- and names a project, a model, a request kind and a client. The catalogue resolves the name of
-- its model. The middlewares decide whether it may go on the subscription, must pay by extra
-- usage, or is refused (`MountRoutes`), and the executor serves it (`Execute`): the router finds
-- the group of upstreams for it (`Match`), and ranks the group's available members with the
-- balancer of the group (`SelectWithRetry`); a session stays on the upstream it is bound to. The
-- connection tracker counts the requests in flight, by which members at capacity are skipped. The
-- executor tries the ranked members in turn, by the retry policy of the group, and for a model at
-- capacity adds further members of the group. Before a request is sent the limiter holds it
-- against the credit windows and the classic rules of its policy (`PreCheck`), and after the
-- response it records the usage (`PostRecord`). Usage beyond the credit windows is priced at the
-- rates of the model and deducted from a balance that the project has topped up. The operations
-- of the administration API each carry an access policy, which is validated at start-up.
--
-- Files, with the code they model:
--   Prelude      shared names, Boolean tests, lists, texts, integers with the wrap-around of int64,
--                and blank texts
--   Types        internal/types: upstream.go, upstream_group.go, route.go, request_kind.go,
--                client_bucket.go
--   Lb           internal/proxy/lb. Balancer is balancer.go, Tracker connection_tracker.go, Metrics
--                metrics.go; Weighted, LeastConn, Select and Members are about Balancer
--   Router       internal/proxy/router_engine.go. Matching is `matchesGlobalRoute`, `Match` and
--                `MatrixGlobal`; Sessions the map of session bindings; Selection `SelectWithRetry`,
--                `SelectCapacityFallbacks`, `pinSessionToUpstream` and `resultWithPrimary`. Best and
--                Match are about `Match`, Matrix about `MatrixGlobal`, Affinity about Sessions, Served
--                and Sticky about Selection
--   Ratelimit    internal/ratelimit. Counters is memory.go, Classic classic.go, Cache cache.go;
--                Windows, Composite and Quota are composite.go. Limits and Recording are about
--                Classic, WindowBounds about Windows, Precheck and Stale about Composite
--   Authz        internal/authz. Permissions is permission.go, Roles role.go and principal.go, Access
--                access.go and system_on_project_path.go, Policies the two conditional policies.
--                Capabilities and Grants are about Roles, Checks and Valid about Access, Conditions
--                about Policies and the listing of capabilities
--   Ledger       internal/store/extra_usage.go. Accounts has the tables, in its child Tables, and the
--                operations; Balance, Deduct and Orders are about them
--   Crypto       internal/crypto/base62.go in Base62; RoundTrip is about it
--   Proxy        internal/proxy/executor.go and codex_capacity_retry.go. Replies is `evaluateResponse`
--                and the tests on replies; Requests what a request keeps and the calls it makes; World
--                what it learns from outside; Capacity the closure `handleCodexCapacity`; Commit
--                `commitResponse`; Executor one round of the loop; Loop the loop and `Execute`. Retries
--                is about Replies; Fallbacks, Progress, Balanced and Outcome are about Loop
--   Pricing      Rates is the credit rates of internal/types/policy.go and the costs of
--                internal/proxy/executor.go and image_extra_usage_cost.go; Settlement is
--                `settleExtraUsage` and `settleImageExtraUsage`; ImageInput is about Rates
--   Admission    internal/proxy. Eligibility is subscription_eligibility_middleware.go, Gates
--                ratelimit_middleware.go, Guards extra_usage_guard_middleware.go and the chain of
--                router.go; Models is `resolveModel` and `checkModelAllowed` of handler.go and the
--                listing of router.go. Paid and Covered are about the chain, PerModel about Gates,
--                Charged about the chain and Settlement, Listed about Models
--   Auth         internal/proxy/auth_middleware.go. Members is the caches of members and their
--                hydration, Middleware `AuthMiddleware` and `handleTokenIntrospectionAuth`, Keys
--                internal/crypto/apikey.go and the making of a key in internal/admin/handle_keys.go,
--                Accounts the rows of internal/types. Hydration and Revocation are about Members, Issued
--                about Keys, Entered and Authenticated about Middleware
--   Delivery     internal/store/subscriptions.go and orders.go: Orders has the tables and
--                `DeliverOrder`, Sweep `ExpireAndFallbackToFree`. Once and Sale are about Orders, Lapsed
--                about Sweep
--   Device       internal/store/device_codes.go in Codes and `HandleTokenPoll` of
--                internal/admin/device_flow.go in Polls; Consumed is about both
--   Catalogue    internal/modelcatalog/catalog.go in Catalog; Lookup and Normalize are about it
-- Each component has a module Tests with runs at concrete inputs; those of Models are in ModelTests.
--
-- State and values. The state of a component is a record that its operations take and return. A
-- Go map is an association list, or a function of the key where only reads and writes of single
-- keys occur. A sync.Map or an atomic counter is changed by steps, and a concurrent caller
-- appears as a function that may change the map between two of them (`others`) or as further
-- steps of a relation (`Tracker.Step`). Times are nanoseconds, and one call reads the clock once.
-- An int or int64 is an integer, with its wrap-around written out where a sum can leave the
-- range; theorems name the bound that excludes it. Errors and panics are values. A database
-- transaction runs as a whole, and the transactions one after another; any of its statements may
-- fail, and then it changes nothing. The calls that a request makes on the tracker, the metrics
-- and the sessions are a log of effects.
--
-- Bounds and fuel. The loop of `Execute` can grow its list of candidates, and runs on fuel: as
-- many rounds as there are first candidates and members of the group, which is enough because
-- each round takes a candidate and each addition is a member that was none before. Every other
-- loop is over a list or a number.
--
-- Parameters: the random source, the sums of credits that the database computes, the operations
-- on float64 (their laws are never needed), `time.ParseDuration`, the first instants of the
-- months, `time.AddDate`, HMAC and SHA-256, the cipher of stored
-- tokens, the introspector of tokens, `strings.ToLower` and
-- `strings.EqualFold`, and for the executor the preparation of a request, the replies of the
-- upstreams, the refreshing of tokens and the tests on the bytes of a body.
--
-- Not modelled: the rewriting of request and response bodies, WebSocket turns, the rows that
-- record a request, the sign-in, the rest of the store, the handlers of the administration API,
-- the payment service, configuration, and the dashboard. Of the router, the loading of the tables
-- from the database is not modelled: the tables are arguments.
pub mod Prelude
pub mod Types
pub mod Lb
pub mod Router
pub mod Ratelimit
pub mod Authz
pub mod Ledger
pub mod Crypto
pub mod Proxy
pub mod Pricing
pub mod Admission
pub mod Catalogue
pub mod Auth
pub mod Delivery
pub mod Device
