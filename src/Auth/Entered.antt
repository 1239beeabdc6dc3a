-- ===== src/Auth/Entered.antt =====
-- Whom the authentication lets through.
use mathlib.Core.Path.{subst}
use modelserver.Prelude.{
  ℕ, String, ◌≡◌, refl, ap, ◌⊎◌, inl, inr, true, false, not, ◌||◌, List, Option, none, some, sym,
  ◌∙◌, some_inj, arith, str_eq, eq_iff, Bool-cases,
}
use modelserver.Prelude.Int.{ℤ, ◌-ℤ◌, ltb_ℤ, ◌≤ℤ◌}
use modelserver.Auth.Members.{MemberCaches, Membership, unavailable, absent, member}
use modelserver.Auth.Keys.{api_key_prefix, strip_prefix, is_valid_api_key_format}
use modelserver.Auth.Accounts.{ApiKey, Project, Subscription, DatedPolicy, is_active}
use modelserver.Auth.Middleware.{
  TokenIntrospectResult, AuthEnv, AuthState, Identity, identified, fresh_result, is_expired,
  if_active, resolve_policy, identify, membership_of, token_membership, token_project, token_result,
  introspected_anew, token_cached, handle_token_introspection_auth, introspect_cache_ttl,
  synthetic_key, forget,
}

identified_inj : {F : Type 0} {v w : Identity F} → identified v ≡ identified w → v ≡ w
identified_inj h = cc

module _ {F : Type 0} (env : AuthEnv F) (now : ℤ) where
  open env use {store, mac, enc_key, hash, introspector}

  -- The project is there and active, and the policy of the caller is within its window.
  pub record Served (id : String) (who : Identity F) : Type 0 where
    pub known : store.get_project_by_id id ≡ some (some who.project)
    pub active : who.project.status ≡ "active"
    pub in_window : (p : DatedPolicy) → who.policy ≡ some p → is_active now p ≡ true

  -- The hydration finds the user to be a member of the project, with the share and the models.
  abbrev pub IsMember : String → AuthState F → Identity F → Type 0
  IsMember user st who =
      (membership_of env now who.project user st).0 ≡ member who.user_quota_pct who.denied_models

  -- An active key of the store, which is not expired, of a user who is a member.
  pub record KeyHolder (raw : List ℕ) (st : AuthState F) (who : Identity F) : Type 0 where
    pub body : List ℕ
    pub prefixed : strip_prefix api_key_prefix raw ≡ some body
    pub valid : is_valid_api_key_format mac enc_key raw ≡ true
    pub stored : store.get_api_key_by_hash (hash raw) ≡ some (some who.api_key)
    pub active : who.api_key.status ≡ "active"
    pub in_time : is_expired now who.api_key.expires_at ≡ false
    pub of_project : Served who.api_key.project_id who
    pub of_member : IsMember who.api_key.created_by st who

  -- The introspector has called the token active, now or no longer ago than the lifetime of the cache.
  abbrev Introspected : List ℕ → AuthState F → TokenIntrospectResult → Type 0
  Introspected raw st r =
      ((at : ℤ) × (st.introspected (hash raw) ≡ some (r, at)) × (now -ℤ at ≤ℤ introspect_cache_ttl))
      ⊎ ((ask : List ℕ → Option TokenIntrospectResult) × (introspector ≡ some ask)
          × (ask raw ≡ some r))

  -- An active token of a project, and of a member if it names a user.
  pub record TokenHolder (raw : List ℕ) (st : AuthState F) (who : Identity F) : Type 0 where
    pub result : TokenIntrospectResult
    pub source : Introspected raw st result
    pub active : result.active ≡ true
    pub of_project : Served result.project_id who
    pub of_member : (result.user_id ≡ "") ⊎ IsMember result.user_id st who

  -- Who is let through.
  abbrev pub Holder : List ℕ → AuthState F → Identity F → Type 0
  Holder raw st who = KeyHolder raw st who ⊎ TokenHolder raw st who

  if_active-active :
      (o : Option DatedPolicy) (p : DatedPolicy)
      → if_active env now o ≡ some p
      → is_active now p ≡ true
  if_active-active none p h = cc
  if_active-active (some q) p h = elim (Bool-cases (is_active now q)) [
    | inl on ↦ subst (λ x. is_active now x ≡ true) (some_inj (rw on at h)) on
    | inr off ↦ cc (rw off at h)
  ]

  resolve_policy-active :
      (project : String) (sub : Option Subscription) (p : DatedPolicy)
      → resolve_policy env now project sub ≡ some p
      → is_active now p ≡ true
  unfolding resolve_policy
  resolve_policy-active project sub p h = if_active-active _ p h

  -- What the context says of a request that is let through.
  pub record Told (key : ApiKey) (p : Project) (m : Membership F) (who : Identity F) : Type 0 where
    pub known : m ≡ member who.user_quota_pct who.denied_models
    pub of_key : who.api_key ≡ key
    pub of_project : who.project ≡ p
    pub in_window : (policy : DatedPolicy) → who.policy ≡ some policy → is_active now policy ≡ true

  pub identify-Told :
      (key : ApiKey) (p : Project) (grant : String) (st : AuthState F)
      (r : Membership F × MemberCaches F) (who : Identity F)
      → (identify env now key p grant st r).0 ≡ identified who
      → Told key p r.0 who
  identify-Told key p grant st (unavailable, c) who h = cc
  identify-Told key p grant st (absent, c) who h = cc
  identify-Told key p grant st (member quota denied, c) who h =
      let sub = store.get_active_subscription p.id in
      subst (Told key p (member quota denied)) (identified_inj h) (record {
        known = refl;
        of_key = refl;
        of_project = refl;
        in_window = resolve_policy-active p.id sub;
      })

  pub Told-Served :
      (id : String) (key : ApiKey) (p : Project) (m : Membership F) (who : Identity F)
      → Told key p m who
      → store.get_project_by_id id ≡ some (some p)
      → str_eq p.status "active" ≡ true
      → Served id who
  Told-Served id key p m who t known on = record {
    known = known ∙ ap (λ x. some (some x)) (sym (t.of_project));
    active = ap (λ x. x.status) (t.of_project) ∙ (eq_iff p.status "active").0 on;
    in_window = t.in_window;
  }

  -- Through a token whose introspection is `r`.
  record ByToken (r : TokenIntrospectResult) (st : AuthState F) (who : Identity F) : Type 0 where
    active : r.active ≡ true
    of_project : Served r.project_id who
    of_member : (r.user_id ≡ "") ⊎ IsMember r.user_id st who

  token_membership-IsMember :
      (p : Project) (r : TokenIntrospectResult) (st : AuthState F) (who : Identity F)
      → Told (synthetic_key p r) p (token_membership env now p r st).0 who
      → (r.user_id ≡ "") ⊎ IsMember r.user_id st who
  token_membership-IsMember p r st who t = elim (Bool-cases (str_eq r.user_id "")) [
    | inl nobody ↦ inl ((eq_iff r.user_id "").0 nobody)
    | inr named ↦ inr (
        subst
          (λ x.
            (membership_of env now x r.user_id st).0 ≡ member who.user_quota_pct who.denied_models)
          (sym (t.of_project)) (rw named at (t.known)))
  ]

  token_project-ByToken :
      (r : TokenIntrospectResult) (st : AuthState F) (o : Option (Option Project))
      (who : Identity F)
      → store.get_project_by_id r.project_id ≡ o
      → r.active ≡ true
      → (token_project env now r st o).0 ≡ identified who
      → ByToken r st who
  token_project-ByToken r st none who e on h = cc
  token_project-ByToken r st (some none) who e on h = cc
  token_project-ByToken r st (some (some p)) who e on h =
      elim (Bool-cases (str_eq p.status "active")) [
        | inl active ↦
            let t = identify-Told (synthetic_key p r) p _ st _ who (rw active at h) in
            record {
              active = on;
              of_project = Told-Served r.project_id (synthetic_key p r) p _ who t e active;
              of_member = token_membership-IsMember p r st who t;
            }
        | inr suspended ↦ cc (rw suspended at h)
      ]

  token_result-ByToken :
      (r : TokenIntrospectResult) (st : AuthState F) (who : Identity F)
      → (token_result env now r st).0 ≡ identified who
      → ByToken r st who
  token_result-ByToken r st who h = elim (Bool-cases (not r.active || str_eq r.project_id "")) [
    | inl out ↦ cc (rw out at h)
    | inr on ↦ token_project-ByToken r st _ who refl (ground arith) (rw on at h)
  ]

  fresh_result-some :
      (o : Option (TokenIntrospectResult × ℤ)) (r : TokenIntrospectResult)
      → fresh_result now o ≡ some r
      → (at : ℤ) × (o ≡ some (r, at)) × (now -ℤ at ≤ℤ introspect_cache_ttl)
  fresh_result-some none r h = cc
  fresh_result-some (some (s, at)) r h =
      elim (Bool-cases (ltb_ℤ introspect_cache_ttl (now -ℤ at))) [
        | inl old ↦ cc (rw old at h)
        | inr young ↦ (at, ap (λ x. some (x, at)) (some_inj (rw young at h)), ground (arith, young))
      ]

  module _ (raw : List ℕ) (ask : List ℕ → Option TokenIntrospectResult) (st : AuthState F)
      (who : Identity F) (there : introspector ≡ some ask) where
    ByToken-Holder :
        (r : TokenIntrospectResult)
        → Introspected raw st r
        → ByToken r st who
        → TokenHolder raw st who
    ByToken-Holder r source t = record {
      result = r;
      source = source;
      active = t.active;
      of_project = t.of_project;
      of_member = t.of_member;
    }

    introspected_anew-Holder :
        (o : Option TokenIntrospectResult)
        → ask raw ≡ o
        → (introspected_anew env now (hash raw) (forget (hash raw) st) o).0 ≡ identified who
        → TokenHolder raw st who
    introspected_anew-Holder none e h = cc
    introspected_anew-Holder (some r) e h =
        let t = token_result-ByToken r _ who h in
        ByToken-Holder r (inr (ask, there, e))
          (record { active = t.active; of_project = t.of_project; of_member = t.of_member })

    token_cached-Holder :
        (o : Option TokenIntrospectResult)
        → fresh_result now (st.introspected (hash raw)) ≡ o
        → (token_cached env now raw ask st o).0 ≡ identified who
        → TokenHolder raw st who
    token_cached-Holder none e h = introspected_anew-Holder _ refl h
    token_cached-Holder (some r) e h =
        ByToken-Holder r (inl (fresh_result-some _ r e)) (token_result-ByToken r st who h)

    pub handle_token-Holder :
        (handle_token_introspection_auth env now raw ask st).0 ≡ identified who
        → TokenHolder raw st who
    unfolding handle_token_introspection_auth
    handle_token-Holder h = token_cached-Holder _ refl h
