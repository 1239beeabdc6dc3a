-- ===== src/Ratelimit/Stale.antt =====
-- About `PostRecord` and the credit cache.
use Prim.Native.Char.{code}
use Prim.Native.String.{◌++◌, count}
use Prim.Native.String.append
use Prim.Native.String.count
use mathlib.Core.Path.{subst}
use text.Mathlib.TextLemmas.{append_assoc}
use modelserver.Prelude.{
  ℕ, ◌≤◌, String, ◌≡◌, ◌≢◌, refl, sym, ap, ◌∙◌, Bool, true, false, ◌&&◌, none, arith, str_eq,
  eq_iff, Bool-cases, inl, inr, ◌==◌,
}
use modelserver.Prelude.Int.{ℤ}
use modelserver.Ratelimit.Cache.{CreditCache, has_prefix, get, invalidate_prefix}
use modelserver.Ratelimit.Classic.{TokenUsage}
use modelserver.Ratelimit.Windows.{TimeLib}
use modelserver.Ratelimit.Composite.{
  CreditRule, Floats, CreditStore, Limiter, key_sum_key, project_sum_key, user_sum_key, post_record,
}

same_code : (n : ℕ) → (n == n) ≡ true
same_code n = ground arith

has_prefix-append : (p s : String) → has_prefix p (p ++ s) ≡ true
unfolding has_prefix
has_prefix-append String.[] s = refl
has_prefix-append (String.◌∷◌ c p) s =
    rw (append.cons c p s, same_code (code c)) (has_prefix-append p s)

has_prefix-split : (p q s : String) → has_prefix p s ≡ false → has_prefix (p ++ q) s ≡ false
unfolding has_prefix
has_prefix-split String.[] q s h = absurd (ground arith)
has_prefix-split (String.◌∷◌ c p) q String.[] h = rw (append.cons c p q) refl
has_prefix-split (String.◌∷◌ c p) q (String.◌∷◌ d s) h =
    rw (append.cons c p q) (ground (arith, has_prefix-split p q s))

-- A text that is no prefix of `s`, and no longer than it, is no prefix of what starts with `s`.
has_prefix-longer :
    (p s t : String) → count p ≤ count s → has_prefix p s ≡ false → has_prefix p (s ++ t) ≡ false
unfolding has_prefix
has_prefix-longer String.[] s t le h = absurd (ground arith)
has_prefix-longer (String.◌∷◌ c p) String.[] t le h =
    absurd (omega (arith, le, count.cons c p, count.nil))
has_prefix-longer (String.◌∷◌ c p) (String.◌∷◌ d s) t le h = rw (append.cons d s t) (
    step (code c == code d) _ _ h
      (has_prefix-longer p s t (omega (arith, le, count.cons c p, count.cons d s))))
  where
    step : (b m n : Bool) → (b && m) ≡ false → (m ≡ false → n ≡ false) → (b && n) ≡ false
    step b m n e k = ground arith

module _ {F : Type 0} where
  get-invalidated :
      (later : ℤ) (prefix key : String) (c : CreditCache F)
      → has_prefix prefix key ≡ true
      → get later key (invalidate_prefix prefix c) ≡ none
  unfolding get invalidate_prefix
  get-invalidated later prefix key c h = rw h refl

  get-kept :
      (later : ℤ) (prefix key : String) (c : CreditCache F)
      → has_prefix prefix key ≡ false
      → get later key (invalidate_prefix prefix c) ≡ get later key c
  unfolding get invalidate_prefix
  get-kept later prefix key c h = rw h refl

  get-gone :
      (later : ℤ) (prefix key : String) (c : CreditCache F)
      → get later key c ≡ none
      → get later key (invalidate_prefix prefix c) ≡ none
  get-gone later prefix key c h = elim (Bool-cases (has_prefix prefix key)) [
    | inl starts ↦ get-invalidated later prefix key c starts
    | inr other ↦ get-kept later prefix key c other ∙ h
  ]

module _ {F : Type 0} (time : TimeLib) (floats : Floats F) (store : CreditStore F) (now later : ℤ)
    (project_id api_key_id user_id model : String) (usage : TokenUsage) (l : Limiter F)
    (r : CreditRule) where
  abbrev pub recorded : CreditCache F
  recorded = (post_record time floats store now project_id api_key_id user_id model usage l).cache

  project_gone :
      get later
        (project_sum_key project_id r)
        (invalidate_prefix ("p:" ++ project_id) (invalidate_prefix api_key_id l.cache))
      ≡ none
  project_gone = get-invalidated later _ _ _ (
      rw (sym (append_assoc "p:" project_id ("|" ++ (r.window ++ ("|" ++ r.window_type)))))
        (has_prefix-append ("p:" ++ project_id) _))

  abbrev rest : String
  rest = "|" ++ (r.window ++ ("|" ++ r.window_type))

  user_gone :
      (c : CreditCache F)
      → get later
          (user_sum_key project_id user_id r)
          (invalidate_prefix ("u:" ++ (project_id ++ (":" ++ user_id))) c)
        ≡ none
  user_gone c = get-invalidated later _ _ c (
      subst (λ s. has_prefix ("u:" ++ (project_id ++ (":" ++ user_id))) s ≡ true) split
        (has_prefix-append ("u:" ++ (project_id ++ (":" ++ user_id))) rest))
    where
      split : ("u:" ++ (project_id ++ (":" ++ user_id))) ++ rest ≡ user_sum_key project_id user_id r
      split =
          append_assoc "u:" (project_id ++ (":" ++ user_id)) rest
          ∙ ap (λ s. "u:" ++ s)
              (append_assoc project_id (":" ++ user_id) rest
                ∙ ap (λ s. project_id ++ s) (append_assoc ":" user_id rest))

  -- After `PostRecord` no sum of the project is cached, and none of the user where one is named: the
  -- next check of such a rule asks the store.
  pub post_record-forgets :
      (get later (project_sum_key project_id r) recorded ≡ none)
      × (user_id ≢ "" → get later (user_sum_key project_id user_id r) recorded ≡ none)
  unfolding post_record
  post_record-forgets = elim (Bool-cases (str_eq user_id "")) [
    | inl unnamed ↦
        rw unnamed (project_gone, λ named. absurd (ground (arith, eq_iff user_id "", named)))
    | inr named ↦ rw named (get-gone later _ _ _ project_gone, λ h. user_gone _)
  ]

  -- `PostRecord` leaves the cached sum of a rule with key scope as it is, where the key's id is no
  -- prefix of the project's, is no longer than it, and the project's id has at least two characters
  -- and starts with neither `p:` nor `u:`. The ids of the service are such.
  pub post_record-keeps_key_sum :
      has_prefix api_key_id project_id ≡ false
      → has_prefix "p:" project_id ≡ false
      → has_prefix "u:" project_id ≡ false
      → count api_key_id ≤ count project_id
      → 2 ≤ count project_id
      → get later (key_sum_key project_id api_key_id r) recorded
        ≡ get later (key_sum_key project_id api_key_id r) l.cache
  unfolding post_record
  post_record-keeps_key_sum key p u le two = elim (Bool-cases (str_eq user_id "")) [
    | inl unnamed ↦ rw unnamed kept
    | inr named ↦ rw named (get-kept later _ _ _ (mark "u:" _ refl u) ∙ kept)
  ]
    where
      mark :
          (s rest : String)
          → count s ≡ 2
          → has_prefix s project_id ≡ false
          → has_prefix (s ++ rest) (key_sum_key project_id api_key_id r) ≡ false
      mark s rest e h =
          has_prefix-split s rest _ (has_prefix-longer s project_id _ (omega (arith, e, two)) h)

      kept :
          get later
            (key_sum_key project_id api_key_id r)
            (invalidate_prefix ("p:" ++ project_id) (invalidate_prefix api_key_id l.cache))
          ≡ get later (key_sum_key project_id api_key_id r) l.cache
      kept =
          get-kept later _ _ _ (mark "p:" project_id refl p)
          ∙ get-kept later _ _ _ (has_prefix-longer api_key_id project_id _ le key)
