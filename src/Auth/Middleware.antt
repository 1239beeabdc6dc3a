-- ===== src/Auth/Middleware.antt =====
-- `AuthMiddleware` and `handleTokenIntrospectionAuth` of internal/proxy/auth_middleware.go. A call reads
-- the clock once. Where the code drops the error of a lookup, the lookup answers with nothing.
use modelserver.Prelude.{
  String, Bool, false, not, ◌||◌, List, [], Option, none, some, ℕ, str_eq, if◌then◌else◌,
}
use modelserver.Prelude.Int.{ℤ, pos, ◌-ℤ◌, ltb_ℤ}
use modelserver.Auth.Members.{
  ProjectMember, Quotas, MemberCaches, Membership, unavailable, absent, member, member_cache_key,
  hydrate,
}
use modelserver.Auth.Keys.{
  api_key_prefix, is_empty, strip_prefix, KeyHeaders, extract_api_key, is_valid_api_key_format,
}
use modelserver.Auth.Accounts.{
  ApiKey, Project, Subscription, Plan, DatedPolicy, is_active, to_policy,
}

-- `TokenIntrospectResult` with its claims; one that is missing or no text is empty.
pub record TokenIntrospectResult : Type 0 where
  pub active : Bool
  pub project_id : String
  pub user_id : String
  pub client_id : String

-- The lookups. `none` is an error where the code looks at it; a row may be missing.
pub record AuthStore (F : Type 0) : Type 0 where
  pub get_api_key_by_hash : String → Option (Option ApiKey)
  pub get_project_by_id : String → Option (Option Project)
  pub get_active_subscription : String → Option Subscription
  pub get_plan_by_id : String → Option Plan
  pub get_default_policy : String → Option DatedPolicy
  pub get_project_member : String → String → Option (Option (ProjectMember F))
  pub get_oauth_grant : String → String → String → Option String

-- What the middleware is made with: the store, HMAC and SHA-256, the encryption key, which may be
-- empty, and the introspector, which may be missing and may fail.
pub record AuthEnv (F : Type 0) : Type 0 where
  pub store : AuthStore F
  pub mac : List ℕ → List ℕ → List ℕ
  pub enc_key : List ℕ
  pub hash : List ℕ → String
  pub introspector : Option (List ℕ → Option TokenIntrospectResult)
  pub quotas : Quotas F

-- The caches. An introspection is kept with its time.
pub record AuthState (F : Type 0) : Type 0 where
  pub members : MemberCaches F
  pub introspected : String → Option (TokenIntrospectResult × ℤ)

-- What is put into the context of the request.
pub record Identity (F : Type 0) : Type 0 where
  pub api_key : ApiKey
  pub project : Project
  pub policy : Option DatedPolicy
  pub subscription : Option Subscription
  pub user_quota_pct : Option F
  pub denied_models : List String
  pub oauth_grant_id : String

-- The request is answered with a status, or goes on.
pub data Entry (F : Type 0) : Type 0 where
  turned_away : ℤ → Entry F
  identified : Identity F → Entry F

abbrev pub introspect_cache_ttl : ℤ
introspect_cache_ttl = pos 30_000_000_000

-- `getIntrospectCache` at an entry.
abbrev pub fresh_result : ℤ → Option (TokenIntrospectResult × ℤ) → Option TokenIntrospectResult
fresh_result now none = none
fresh_result now (some (r, at)) = if ltb_ℤ introspect_cache_ttl (now -ℤ at) then none else some r

-- `setIntrospectCache`
abbrev pub remember : {F : Type 0} → ℤ → String → TokenIntrospectResult → AuthState F → AuthState F
remember now key r st = record st {
  introspected = λ k. if str_eq key k then some (r, now) else st.introspected k;
}

abbrev pub is_expired : ℤ → Option ℤ → Bool
is_expired now none = false
is_expired now (some t) = ltb_ℤ t now

abbrev pub or_text : Option String → String
or_text none = ""
or_text (some s) = s

-- The key that stands for a token.
abbrev pub synthetic_key : Project → TokenIntrospectResult → ApiKey
synthetic_key project r = record {
  id = "";
  project_id = project.id;
  created_by = r.user_id;
  name = "hydra-token";
  status = "active";
  allowed_models = [];
  expires_at = none;
}

-- An expired entry is deleted; it is then stored anew or missing.
abbrev pub forget : {F : Type 0} → String → AuthState F → AuthState F
forget key st = record st { introspected = λ k. if str_eq key k then none else st.introspected k }

module _ {F : Type 0} (env : AuthEnv F) (now : ℤ) where
  open env use {store, mac, enc_key, hash, introspector, quotas}

  abbrev plan_of : Subscription → Option Plan → Option DatedPolicy
  plan_of s none = none
  plan_of s (some plan) = some (to_policy plan (some s.starts_at))

  abbrev subscribed : Option Subscription → Option DatedPolicy
  subscribed none = none
  subscribed (some s) =
      if str_eq s.plan_id "" then none else plan_of s (store.get_plan_by_id s.plan_id)

  abbrev or_default : String → Option DatedPolicy → Option DatedPolicy
  or_default project none = store.get_default_policy project
  or_default project (some p) = some p

  abbrev pub if_active : Option DatedPolicy → Option DatedPolicy
  if_active none = none
  if_active (some p) = if is_active now p then some p else none

  -- The policy of a project: that of its subscription's plan, else its default one, within its window.
  unfoldable pub resolve_policy : String → Option Subscription → Option DatedPolicy
  resolve_policy project sub = if_active (or_default project (subscribed sub))

  -- The membership gate, and the context.
  abbrev pub identify :
      ApiKey
      → Project
      → String
      → AuthState F
      → Membership F × MemberCaches F
      → Entry F × AuthState F
  identify key project grant st (unavailable, c) =
      (turned_away (pos 503), record st { members = c })
  identify key project grant st (absent, c) = (turned_away (pos 401), record st { members = c })
  identify key project grant st (member quota denied, c) =
      let sub = store.get_active_subscription project.id in
      (
        identified (record {
          api_key = key;
          project = project;
          policy = resolve_policy project.id sub;
          subscription = sub;
          user_quota_pct = quota;
          denied_models = denied;
          oauth_grant_id = grant;
        }),
        record st { members = c },
      )

  abbrev pub membership_of : Project → String → AuthState F → Membership F × MemberCaches F
  membership_of project user st =
      hydrate quotas now (member_cache_key project.id user)
        (store.get_project_member project.id user) st.members

  abbrev pub grant_of : Project → TokenIntrospectResult → String
  grant_of project r =
      if str_eq r.client_id ""
      then ""
      else or_text (store.get_oauth_grant project.id r.user_id r.client_id)

  -- A token without a user is not held against the members.
  abbrev pub token_membership :
      Project → TokenIntrospectResult → AuthState F → Membership F × MemberCaches F
  token_membership project r st =
      if str_eq r.user_id ""
      then (member none [], st.members)
      else membership_of project r.user_id st

  abbrev pub token_project :
      TokenIntrospectResult → AuthState F → Option (Option Project) → Entry F × AuthState F
  token_project r st none = (turned_away (pos 401), st)
  token_project r st (some none) = (turned_away (pos 401), st)
  token_project r st (some (some p)) =
      if not (str_eq p.status "active")
      then (turned_away (pos 403), st)
      else identify (synthetic_key p r) p (grant_of p r) st (token_membership p r st)

  abbrev pub token_result : TokenIntrospectResult → AuthState F → Entry F × AuthState F
  token_result r st =
      if not r.active || str_eq r.project_id ""
      then (turned_away (pos 401), st)
      else token_project r st (store.get_project_by_id r.project_id)

  abbrev pub introspected_anew :
      String → AuthState F → Option TokenIntrospectResult → Entry F × AuthState F
  introspected_anew key st none = (turned_away (pos 401), st)
  introspected_anew key st (some r) = token_result r (remember now key r st)

  abbrev pub token_cached :
      List ℕ
      → (List ℕ → Option TokenIntrospectResult)
      → AuthState F
      → Option TokenIntrospectResult
      → Entry F × AuthState F
  token_cached raw ask st (some r) = token_result r st
  token_cached raw ask st none = introspected_anew (hash raw) (forget (hash raw) st) (ask raw)

  -- `handleTokenIntrospectionAuth`
  unfoldable pub handle_token_introspection_auth :
      List ℕ → (List ℕ → Option TokenIntrospectResult) → AuthState F → Entry F × AuthState F
  handle_token_introspection_auth raw ask st =
      token_cached raw ask st (fresh_result now (st.introspected (hash raw)))

  abbrev pub try_token :
      List ℕ → AuthState F → Option (List ℕ → Option TokenIntrospectResult) → Entry F × AuthState F
  try_token raw st none = (turned_away (pos 401), st)
  try_token raw st (some ask) = handle_token_introspection_auth raw ask st

  abbrev pub key_project : ApiKey → AuthState F → Option (Option Project) → Entry F × AuthState F
  key_project key st none = (turned_away (pos 500), st)
  key_project key st (some none) = (turned_away (pos 500), st)
  key_project key st (some (some p)) =
      if not (str_eq p.status "active")
      then (turned_away (pos 403), st)
      else identify key p "" st (membership_of p key.created_by st)

  abbrev pub by_key : List ℕ → AuthState F → Option (Option ApiKey) → Entry F × AuthState F
  by_key raw st none = (turned_away (pos 500), st)
  by_key raw st (some none) = try_token raw st introspector
  by_key raw st (some (some key)) =
      if not (str_eq key.status "active") || is_expired now key.expires_at
      then (turned_away (pos 401), st)
      else key_project key st (store.get_project_by_id key.project_id)

  abbrev pub by_prefix : List ℕ → AuthState F → Option (List ℕ) → Entry F × AuthState F
  by_prefix raw st none = try_token raw st introspector
  by_prefix raw st (some body) = by_key raw st (store.get_api_key_by_hash (hash raw))

  abbrev pub by_format : List ℕ → AuthState F → Entry F × AuthState F
  by_format raw st =
      if not (is_valid_api_key_format mac enc_key raw)
      then try_token raw st introspector
      else by_prefix raw st (strip_prefix api_key_prefix raw)

  -- `AuthMiddleware`
  unfoldable pub auth_middleware : KeyHeaders → AuthState F → Entry F × AuthState F
  auth_middleware headers st =
      let raw = extract_api_key headers in
      if is_empty raw then (turned_away (pos 401), st) else by_format raw st
