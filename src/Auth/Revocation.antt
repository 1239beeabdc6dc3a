-- ===== src/Auth/Revocation.antt =====
-- How long a member who is removed from a project is still let through.
use mathlib.Core.List.{Mem, mem-cons_self, mem-cons_of_mem}
use mathlib.Core.Path.{subst}
use modelserver.Prelude.{
  String, ◌≡◌, refl, sym, ap, ◌∙◌, ◌⊎◌, inl, inr, Bool, true, false, ◌&&◌, List, [], ◌∷◌, Option,
  none, some, arith, some_inj, eq_iff, Bool-cases, Option-cases,
}
use modelserver.Prelude.Int.{ℤ, ◌+ℤ◌, ◌≤ℤ◌}
use modelserver.Types.{or_else}
use modelserver.Ratelimit.Cache.{CacheEntry, CreditCache, get, set}
use modelserver.Auth.Members.{
  ProjectMember, Quotas, MemberCaches, member, answer_of, is_hit, load, hydrate,
}

module _ {F : Type 0} (quotas : Quotas F) (key : String) where
  -- A request of the member at a time, with the answer that the store would give it.
  abbrev pub Event : Type 0
  Event = ℤ × Option (Option (ProjectMember F))

  -- The caches after requests, the latest first.
  unfoldable pub hydrate_all : List Event → MemberCaches F → MemberCaches F
  hydrate_all [] c = c
  hydrate_all ((now, answer) ∷ es) c = (hydrate quotas now key answer (hydrate_all es c)).1

  -- What a request does to the cache of presence.
  data Touched (now : ℤ) (answer : Option (Option (ProjectMember F)))
      (before after : CreditCache Bool) : Type 0 where
    kept : after ≡ before → Touched now answer before after
    gone : after ≡ set now key false before → Touched now answer before after
    seen :
        (m : ProjectMember F)
        → answer ≡ some (some m)
        → after ≡ set now key true before
        → Touched now answer before after

  load-Touched :
      (now : ℤ) (answer : Option (Option (ProjectMember F))) (c : MemberCaches F)
      → Touched now answer c.present (load quotas now key answer c).1.present
  unfolding load
  load-Touched now none c = kept refl
  load-Touched now (some none) c = gone refl
  load-Touched now (some (some m)) c = seen m refl refl

  hydrate-Touched :
      (now : ℤ) (answer : Option (Option (ProjectMember F))) (c : MemberCaches F)
      → Touched now answer c.present (hydrate quotas now key answer c).1.present
  unfolding hydrate
  hydrate-Touched now answer c =
      elim (Bool-cases (
        is_hit (get now key c.present)
        && is_hit (get now key c.quota)
        && is_hit (get now key c.denied))) [
          | inl hits ↦ rw hits (kept refl)
          | inr ask ↦ rw ask (load-Touched now answer c)
        ]

  -- An entry that says the caller is a member comes from a request at which the store said so.
  record Vouched (ttl : ℤ) (es : List Event) (c : CreditCache Bool) : Type 0 where
    lifetime : c.ttl ≡ ttl
    source :
        (e : CacheEntry Bool)
        → c.entries key ≡ some e
        → e.value ≡ true
        → (t : ℤ) × (m : ProjectMember F) × Mem (t, some (some m)) es × (e.expires_at ≡ t +ℤ ttl)

  set-entry :
      (now : ℤ) (b : Bool) (c : CreditCache Bool)
      → (set now key b c).entries key ≡ some (record { value = b; expires_at = now +ℤ c.ttl })
  unfolding set
  set-entry now b c = ground (arith, eq_iff key key)

  set-ttl : (now : ℤ) (b : Bool) (c : CreditCache Bool) → (set now key b c).ttl ≡ c.ttl
  unfolding set
  set-ttl now b c = refl

  Touched-Vouched :
      (ttl now : ℤ) (answer : Option (Option (ProjectMember F))) (es : List Event)
      (before after : CreditCache Bool)
      → Vouched ttl es before
      → Touched now answer before after
      → Vouched ttl ((now, answer) ∷ es) after
  Touched-Vouched ttl now answer es before after v (kept same) = rw same (record {
    lifetime = v.lifetime;
    source = λ e there value.
        let (t, m, at, expiry) = v.source e there value in
        (t, m, mem-cons_of_mem (now, answer) at, expiry);
  })
  Touched-Vouched ttl now answer es before after v (gone new) = rw new (record {
    lifetime = set-ttl now false before ∙ v.lifetime;
    source = λ e there value. absurd (cc (sym (set-entry now false before) ∙ there, value));
  })
  Touched-Vouched ttl now answer es before after v (seen m said new) =
      rw (said, new)
        (record {
          lifetime = set-ttl now true before ∙ v.lifetime;
          source = λ e there value.
              let same = some_inj (sym there ∙ set-entry now true before) in
              (
                now,
                m,
                mem-cons_self,
                ap (λ e. e.expires_at) same ∙ ap (λ n. now +ℤ n) (v.lifetime),
              );
        })

  load-member :
      (now : ℤ) (answer : Option (Option (ProjectMember F))) (c : MemberCaches F) (q : Option F)
      (ds : List String)
      → (load quotas now key answer c).0 ≡ member q ds
      → (m : ProjectMember F) × (answer ≡ some (some m))
  unfolding load
  load-member now none c q ds h = cc
  load-member now (some none) c q ds h = cc
  load-member now (some (some m)) c q ds h = (m, refl)

  hit_answer :
      (o : Option Bool) (p q : Option F) (ds es : List String)
      → answer_of (or_else o false) p es ≡ member q ds
      → o ≡ some true
  hit_answer none p q ds es h = cc
  hit_answer (some true) p q ds es h = refl
  hit_answer (some false) p q ds es h = cc

  hydrate-member :
      (now : ℤ) (answer : Option (Option (ProjectMember F))) (c : MemberCaches F) (q : Option F)
      (ds : List String)
      → (hydrate quotas now key answer c).0 ≡ member q ds
      → ((m : ProjectMember F) × (answer ≡ some (some m))) ⊎ (get now key c.present ≡ some true)
  unfolding hydrate
  hydrate-member now answer c q ds h =
      elim (Bool-cases (
        is_hit (get now key c.present)
        && is_hit (get now key c.quota)
        && is_hit (get now key c.denied))) [
          | inl hits ↦ inr (hit_answer (get now key c.present) _ q ds _ (rw hits at h))
          | inr ask ↦ inl (load-member now answer c q ds (rw ask at h))
        ]

  hydrate_all-Vouched :
      (es : List Event) (c : MemberCaches F)
      → c.present.entries key ≡ none
      → Vouched c.present.ttl es (hydrate_all es c).present
  unfolding hydrate_all
  hydrate_all-Vouched [] c empty = record {
    lifetime = refl;
    source = λ e there value. absurd (cc (sym empty ∙ there));
  }
  hydrate_all-Vouched ((now, answer) ∷ es) c empty =
      Touched-Vouched c.present.ttl now answer es (hydrate_all es c).present _
        (hydrate_all-Vouched es c empty) (hydrate-Touched now answer (hydrate_all es c))

  get-true :
      (now : ℤ) (c : CreditCache Bool)
      → get now key c ≡ some true
      → (e : CacheEntry Bool) × (c.entries key ≡ some e) × (e.value ≡ true) × (now ≤ℤ e.expires_at)
  unfolding get
  get-true now c h = elim (Option-cases (c.entries key)) [
    | inl empty ↦ cc (rw empty at h)
    | inr (e, there) ↦ (e, there, ground arith, ground arith)
  ]

  -- Whatever requests went before, from caches that hold nothing of the caller: a request that is let
  -- through as one of a member has been told so by the store itself, or an earlier request has, no
  -- longer ago than the lifetime of the cache.
  pub hydrate_all-member :
      (es : List Event) (now : ℤ) (answer : Option (Option (ProjectMember F))) (c : MemberCaches F)
      (q : Option F) (ds : List String)
      → c.present.entries key ≡ none
      → (hydrate quotas now key answer (hydrate_all es c)).0 ≡ member q ds
      → ((m : ProjectMember F) × (answer ≡ some (some m)))
        ⊎ ((t : ℤ) × (m : ProjectMember F) × Mem (t, some (some m)) es
            × (now ≤ℤ t +ℤ c.present.ttl))
  hydrate_all-member es now answer c q ds empty h =
      elim (hydrate-member now answer (hydrate_all es c) q ds h) [
        | inl asked ↦ inl asked
        | inr hit ↦
            let (e, there, value, young) = get-true now (hydrate_all es c).present hit in
            let (t, m, at, expiry) = (hydrate_all-Vouched es c empty).source e there value in
            inr (t, m, at, subst (λ n. now ≤ℤ n) expiry young)
      ]
