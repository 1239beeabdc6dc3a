-- ===== src/Auth/Tests.antt =====
-- Runs of the authentication, and the theorems at them.
use mathlib.Core.List.{Mem}
use modelserver.Prelude.{ℕ, ◌≡◌, refl, ◌⊎◌, inl, true, List, [], ◌∷◌, Option, none, some, arith}
use modelserver.Prelude.Int.{ℤ, pos, negsuc, ◌+ℤ◌, ◌≤ℤ◌, leb_ℤ}
use modelserver.Ratelimit.Cache.{CreditCache, get, set}
use modelserver.Auth.Members.{ProjectMember, Quotas, MemberCaches, member, load, hydrate}
use modelserver.Auth.Hydration.{Coherent, hydrate-Coherent}
use modelserver.Auth.Revocation.{Event, hydrate_all, hydrate_all-member}
use modelserver.Auth.Keys.{KeyHeaders, is_valid_api_key_format, create_api_key}
use modelserver.Auth.Issued.{create_api_key-valid}
use modelserver.Auth.Accounts.{ApiKey, Project, Subscription, Plan}
use modelserver.Auth.Middleware.{AuthStore, AuthEnv, AuthState, Identity, resolve_policy}

abbrev quotas : Quotas ℤ
quotas = record { no_quota = negsuc 0; is_quota = λ v. leb_ℤ (pos 0) v }

abbrev empty_cache : {A : Type 0} → CreditCache A
empty_cache = record { entries = λ k. none; ttl = pos 10 }

abbrev no_caches : MemberCaches ℤ
no_caches = record { present = empty_cache; quota = empty_cache; denied = empty_cache }

abbrev half : ProjectMember ℤ
half = record { credit_quota_pct = some (pos 50); denied_models = "opus" ∷ [] }

hydrate-Coherent_example :
    ((hydrate quotas (pos 100) "p1:u1" (some (some half)) no_caches).0
      ≡ member (some (pos 50)) ("opus" ∷ []))
    × Coherent quotas
        (pos 105)
        "p1:u1"
        (some half)
        (hydrate quotas (pos 100) "p1:u1" (some (some half)) no_caches).1
unfolding get
hydrate-Coherent_example =
    hydrate-Coherent quotas (pos 100) (pos 105) "p1:u1" (some half) no_caches refl refl
      (ground arith) (record { present = inl refl; quota = inl refl; denied = inl refl })

-- The member is removed after the first request, and let through once more.
abbrev earlier : List (Event quotas "p1:u1")
earlier = (pos 100, some (some half)) ∷ []

hydrate_all-member_example :
    ((m : ProjectMember ℤ) × (◌≡◌ {A = Option (Option (ProjectMember ℤ))}
        (some none)
        (some (some m))))
    ⊎ ((t : ℤ) × (m : ProjectMember ℤ) × Mem (t, some (some m)) earlier × (pos 108 ≤ℤ t +ℤ pos 10))
unfolding hydrate_all hydrate load get set ◌+ℤ◌
hydrate_all-member_example =
    hydrate_all-member quotas "p1:u1" earlier (pos 108) (some none) no_caches (some (pos 50))
      ("opus" ∷ []) refl refl

abbrev mac : List ℕ → List ℕ → List ℕ
mac k m = 200 ∷ 17 ∷ 0 ∷ 255 ∷ []

abbrev random : List ℕ
random =
    0 ∷ 1 ∷ 2 ∷ 3 ∷ 4 ∷ 5 ∷ 6 ∷ 7 ∷ 0 ∷ 1 ∷ 2 ∷ 3 ∷ 4 ∷ 5 ∷ 6 ∷ 7 ∷ 0 ∷ 1 ∷ 2 ∷ 3 ∷ 4 ∷ 5 ∷ 6 ∷ 7
    ∷ 0 ∷ 1 ∷ 2 ∷ 3 ∷ 4 ∷ 5 ∷ 6 ∷ 255 ∷ []

create_api_key-valid_example :
    (key : List ℕ) × (create_api_key mac (9 ∷ []) random ≡ some key)
    × (is_valid_api_key_format mac (9 ∷ []) key ≡ true)
create_api_key-valid_example =
    create_api_key-valid mac (9 ∷ []) random (ground arith) refl (λ k m. ground arith)
      (λ k m. ground arith)

abbrev key : ApiKey
key = record {
  id = "k1";
  project_id = "p1";
  created_by = "u1";
  name = "test";
  status = "active";
  allowed_models = [];
  expires_at = some (pos 500);
}

abbrev project : Project
project = record { id = "p1"; status = "active" }

abbrev pro : Subscription
pro = record { plan_id = "pro"; starts_at = pos 7 }

abbrev plan : Plan
plan = record {
  credit_rules =
      record {
        window = "5h";
        window_type = "fixed";
        max_credits = pos 100;
        scope = "";
        anchor_time = none;
      }
      ∷ [];
  classic_rules = [];
}

abbrev store : AuthStore ℤ
store = record {
  get_api_key_by_hash = λ h. some (some key);
  get_project_by_id = λ id. some (some project);
  get_active_subscription = λ id. some pro;
  get_plan_by_id = λ id. some plan;
  get_default_policy = λ id. none;
  get_project_member = λ p u. some (some half);
  get_oauth_grant = λ p u c. none;
}

abbrev env : AuthEnv ℤ
env = record {
  store = store;
  mac = mac;
  enc_key = [];
  hash = λ raw. "h";
  introspector = none;
  quotas = quotas;
}

abbrev state : AuthState ℤ
state = record { members = no_caches; introspected = λ k. none }

-- `ms-7`
abbrev headers : KeyHeaders
headers = record { x_api_key = 109 ∷ 115 ∷ 45 ∷ 55 ∷ []; x_goog_api_key = []; authorization = [] }

abbrev who : Identity ℤ
who = record {
  api_key = key;
  project = project;
  policy = resolve_policy env (pos 100) "p1" (some pro);
  subscription = some pro;
  user_quota_pct = some (pos 50);
  denied_models = "opus" ∷ [];
  oauth_grant_id = "";
}
