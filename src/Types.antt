-- ===== src/Types.antt =====
-- The plain data that the components share: internal/types (upstream.go, upstream_group.go,
-- route.go, request_kind.go, client_bucket.go and the client kinds of extra_usage.go).
use modelserver.Prelude.{
  ℕ, String, Bool, List, [], ◌∷◌, Option, none, some, any, str_eq, if◌then◌else◌,
}
use modelserver.Prelude.Int.{ℤ}

-- The secret fields of a SOCKS proxy, the timeouts and the timestamps are never read by the routing
-- code and are left out.
pub record Upstream : Type 0 where
  pub id : String
  pub provider : String
  pub name : String
  pub base_url : String
  pub api_key_encrypted : List ℕ
  pub proxy_mode : String
  pub supported_models : List String
  pub model_map : List (String × String)
  pub weight : ℤ
  pub max_concurrent : ℤ
  pub status : String

abbrev pub status_active : String
status_active = "active"

abbrev pub status_draining : String
status_draining = "draining"

abbrev pub status_disabled : String
status_disabled = "disabled"

abbrev pub proxy_mode_environment : String
proxy_mode_environment = "environment"

-- `EffectiveProxyMode`
pub effective_proxy_mode : Upstream → String
effective_proxy_mode u = if str_eq u.proxy_mode "" then proxy_mode_environment else u.proxy_mode

-- A Go map with string keys, as an association list.
module _ {ℓ} {V : Type ℓ} where
  abbrev pub map_get : List (String × V) → String → Option V
  map_get [] k = none
  map_get ((j, v) ∷ m) k = if str_eq j k then some v else map_get m k

  -- `m[k] = v`
  abbrev pub map_set : List (String × V) → String → V → List (String × V)
  map_set [] k v = (k, v) ∷ []
  map_set ((j, w) ∷ m) k v = if str_eq j k then (k, v) ∷ m else (j, w) ∷ map_set m k v

abbrev pub or_else {ℓ} : {A : Type ℓ} → Option A → A → A
or_else none a = a
or_else (some b) a = b

-- `ResolveModel`
pub resolve_model : Upstream → String → String
resolve_model u request_model = or_else (map_get u.model_map request_model) request_model

abbrev pub all_providers : List String
all_providers =
    "anthropic" ∷ "openai" ∷ "gemini" ∷ "bedrock-anthropic" ∷ "bedrock-openai" ∷ "claudecode"
    ∷ "vertex-anthropic" ∷ "vertex-google" ∷ "vertex-openai" ∷ "codex" ∷ []

-- `IsValidProvider`
unfoldable pub is_valid_provider : String → Bool
is_valid_provider s = any (λ p. str_eq p s) all_providers

pub record RetryPolicy : Type 0 where
  pub max_retries : ℤ
  pub retry_on : List String
  pub retry_delay : ℤ

pub record UpstreamGroup : Type 0 where
  pub id : String
  pub name : String
  pub lb_policy : String
  pub retry_policy : Option RetryPolicy
  pub status : String

pub record UpstreamGroupMember : Type 0 where
  pub upstream_group_id : String
  pub upstream_id : String
  pub weight : Option ℤ
  pub is_backup : Bool

abbrev pub lb_weighted_random : String
lb_weighted_random = "weighted_random"

abbrev pub lb_round_robin : String
lb_round_robin = "round_robin"

abbrev pub lb_least_conn : String
lb_least_conn = "least_conn"

pub record Route : Type 0 where
  pub id : String
  pub project_id : String
  pub model_names : List String
  pub request_kinds : List String
  pub clients : List String
  pub upstream_group_id : String
  pub match_priority : ℤ
  pub status : String

abbrev pub all_request_kinds : List String
all_request_kinds =
    "anthropic_messages" ∷ "anthropic_count_tokens" ∷ "openai_chat_completions" ∷ "openai_responses"
    ∷ "openai_responses_websocket" ∷ "openai_responses_compact" ∷ "openai_images_generations"
    ∷ "openai_images_edits" ∷ "google_generate_content" ∷ []

-- `IsValidRequestKind`
unfoldable pub is_valid_request_kind : String → Bool
is_valid_request_kind s = any (λ k. str_eq k s) all_request_kinds

abbrev pub all_client_buckets : List String
all_client_buckets =
    "claude-code-cli" ∷ "claude-desktop" ∷ "codex-cli" ∷ "codex-desktop" ∷ "other" ∷ []

-- `IsValidClientBucket`
unfoldable pub is_valid_client_bucket : String → Bool
is_valid_client_bucket s = any (λ b. str_eq b s) all_client_buckets

-- `MapClientKindToBucket`
unfoldable pub map_client_kind_to_bucket : String → String
map_client_kind_to_bucket kind =
    if str_eq kind "claude-code"
    then "claude-code-cli"
    else if str_eq kind "claude-desktop"
    then "claude-desktop"
    else if str_eq kind "codex"
    then "codex-cli"
    else "other"
