-- ===== src/Catalogue/Normalize.antt =====
-- About `NormalizeNames`: the canonical names in their order, or every unknown name once.
use modelserver.Prelude.{
  String, ◌≡◌, refl, sym, ap, ◌∙◌, Bool, true, false, not, ◌&&◌, ◌||◌, inl, inr, List, [], ◌∷◌,
  ◌++◌, map, Option, none, some, arith, all, contains, str_eq, str_lt, str_lt_tri, eq_iff,
  Bool-cases, Option-cases,
}
use mathlib.Core.List.{append-nil, append_assoc}
use modelserver.Types.{map_get}
use modelserver.Pricing.Rates.{Model}
use modelserver.Catalogue.Catalog.{
  TextLib, Catalog, Normalized, canonical, unknown_models, insert_string, sort_strings, add_once,
  normalize_loop, normalized, normalize_names,
}

-- The texts are in strict lexical order.
abbrev pub Follows : String → List String → Type 0
Follows s [] = Unit
Follows s (x ∷ xs) = str_lt s x ≡ true

abbrev pub Ascending : List String → Type 0
Ascending [] = Unit
Ascending (x ∷ xs) = Follows x xs × Ascending xs

contains-insert_string :
    (s : String) (xs : List String) (x : String)
    → contains (insert_string s xs) x ≡ (str_eq s x || contains xs x)
unfolding insert_string
contains-insert_string s [] x = refl
contains-insert_string s (y ∷ xs) x = ground (arith, contains-insert_string s xs x)

Follows-insert_string :
    (y s : String) (xs : List String)
    → str_lt y s ≡ true
    → Follows y xs
    → Follows y (insert_string s xs)
unfolding insert_string
Follows-insert_string y s [] h k = h
Follows-insert_string y s (x ∷ xs) h k = ground arith

insert_string-Ascending :
    (s : String) (xs : List String)
    → contains xs s ≡ false
    → Ascending xs
    → Ascending (insert_string s xs)
unfolding insert_string
insert_string-Ascending s [] h k = (tt, tt)
insert_string-Ascending s (y ∷ xs) h k = elim (Bool-cases (str_lt s y)) [
  | inl below ↦ rw below (below, k)
  | inr above ↦ elim (Bool-cases (str_lt y s)) [
    | inl over ↦
        rw above
          (Follows-insert_string y s xs over k.0, insert_string-Ascending s xs (ground arith) k.1)
    | inr level ↦ absurd (ground (arith, str_lt_tri s y above level, eq_iff y s))
  ]
]

-- No text stands twice.
abbrev Once : List String → Type 0
Once [] = Unit
Once (x ∷ xs) = (contains xs x ≡ false) × Once xs

contains-sort_strings :
    (xs : List String) (x : String) → contains (sort_strings xs) x ≡ contains xs x
unfolding sort_strings
contains-sort_strings [] x = refl
contains-sort_strings (y ∷ xs) x =
    contains-insert_string y (sort_strings xs) x
    ∙ ap (λ b. str_eq y x || b) (contains-sort_strings xs x)

sort_strings-Ascending : (xs : List String) → Once xs → Ascending (sort_strings xs)
unfolding sort_strings
sort_strings-Ascending [] h = tt
sort_strings-Ascending (x ∷ xs) h =
    insert_string-Ascending x (sort_strings xs) (contains-sort_strings xs x ∙ h.0)
      (sort_strings-Ascending xs h.1)

add_once-Once : (xs : List String) (s : String) → Once xs → Once (add_once xs s)
add_once-Once xs s h = elim (Bool-cases (contains xs s)) [
  | inl old ↦ rw old h
  | inr new ↦ rw new (new, h)
]

contains-add_once :
    (xs : List String) (s x : String) → contains (add_once xs s) x ≡ (str_eq s x || contains xs x)
contains-add_once xs s x = ground (arith, eq_iff s x)

abbrev pub is_some {ℓ} : {A : Type ℓ} → Option A → Bool
is_some none = false
is_some (some a) = true

module _ {F : Type 0} (text : TextLib) (c : Catalog F) where
  open text use {to_lower}

  abbrev entry : String → Option (Model F)
  entry raw = map_get c.index (to_lower raw)

  -- The catalogue has a row for the name.
  abbrev pub is_known : String → Bool
  is_known raw = is_some (entry raw)

  abbrev name_or : Option (Model F) → String
  name_or none = ""
  name_or (some m) = m.name

  -- The canonical name of a known name.
  abbrev pub canonical_name : String → String
  canonical_name raw = name_or (entry raw)

  loop_names :
      (raws out unknown : List String)
      → all is_known raws ≡ true
      → normalize_loop text c raws out unknown ≡ (out ++ map canonical_name raws, unknown)
  unfolding normalize_loop
  loop_names [] out unknown h = ap (λ xs. (xs, unknown)) (sym (append-nil out))
  loop_names (raw ∷ raws) out unknown h = elim (Option-cases (entry raw)) [
    | inl missing ↦ cc (rw missing at h)
    | inr (m, e) ↦
        rw (e, normalize_loop)
          (loop_names raws (out ++ m.name ∷ []) unknown (rw e at h)
            ∙ ap (λ xs. (xs, unknown)) (append_assoc out (m.name ∷ []) (map canonical_name raws)))
  ]

  known_head :
      (raw : String) (raws : List String) (x : String) (b : Bool)
      → is_known raw ≡ true
      → (b || (contains raws x && not (is_known x)))
        ≡ (b || ((str_eq raw x || contains raws x) && not (is_known x)))
  known_head raw raws x b h = elim (Bool-cases (str_eq raw x)) [
    | inl same ↦ rw (sym ((eq_iff raw x).0 same), h) (ground arith)
    | inr other ↦ rw other refl
  ]

  unknown_head :
      (raw : String) (raws : List String) (x : String) (b : Bool)
      → is_known raw ≡ false
      → ((str_eq raw x || b) || (contains raws x && not (is_known x)))
        ≡ (b || ((str_eq raw x || contains raws x) && not (is_known x)))
  unknown_head raw raws x b h = elim (Bool-cases (str_eq raw x)) [
    | inl same ↦ rw (sym ((eq_iff raw x).0 same), h) (ground arith)
    | inr other ↦ rw other (ground arith)
  ]

  -- The set of unknown names after the loop.
  record Collects (raws unknown after : List String) : Type 0 where
    once : Once after
    holds :
        (x : String)
        → contains after x ≡ (contains unknown x || (contains raws x && not (is_known x)))

  loop_unknown :
      (raws out unknown : List String)
      → Once unknown
      → Collects raws unknown (normalize_loop text c raws out unknown).1
  unfolding normalize_loop
  loop_unknown [] out unknown h = record { once = h; holds = λ x. ground arith }
  loop_unknown (raw ∷ raws) out unknown h = elim (Option-cases (entry raw)) [
    | inr (m, e) ↦
        let rest = loop_unknown raws (out ++ m.name ∷ []) unknown h in
        rw (e, normalize_loop)
          (record {
            once = rest.once;
            holds = λ x. rest.holds x ∙ known_head raw raws x (contains unknown x) (ap is_some e);
          })
    | inl missing ↦
        let rest = loop_unknown raws out (add_once unknown raw) (add_once-Once unknown raw h) in
        rw (missing, normalize_loop)
          (record {
            once = rest.once;
            holds = λ x.
                rest.holds x
                ∙ ap (λ b. b || (contains raws x && not (is_known x)))
                    (contains-add_once unknown raw x)
                ∙ unknown_head raw raws x (contains unknown x) (ap is_some missing);
          })
  ]

  some_unknown :
      (names : List String)
      → all is_known names ≡ false
      → (x : String) × (contains names x ≡ true) × (is_known x ≡ false)
  some_unknown [] h = absurd (ground arith)
  some_unknown (raw ∷ raws) h = elim (Bool-cases (is_known raw)) [
    | inr unknown ↦ (raw, ground (arith, eq_iff raw raw), unknown)
    | inl known ↦
        let (x, there, unknown) = some_unknown raws (rw known at h) in (x, ground arith, unknown)
  ]

  -- The answer lists, in strict lexical order, just those of the names that are unknown.
  abbrev pub ListsUnknown : List String → Normalized → Type 0
  ListsUnknown names r =
      (us : List String) × (r ≡ unknown_models us)
      × Ascending us
      × ((x : String) → contains us x ≡ (contains names x && not (is_known x)))

  collected :
      (names : List String) (r : List String × List String)
      → Collects names [] r.1
      → all is_known names ≡ false
      → ListsUnknown names (normalized r)
  collected names (out, []) k h =
      let (x, there, unknown) = some_unknown names h in absurd (ground (arith, k.holds x))
  collected names (out, u ∷ us) k h = (
    sort_strings (u ∷ us),
    refl,
    sort_strings-Ascending (u ∷ us) k.once,
    λ x. contains-sort_strings (u ∷ us) x ∙ k.holds x,
  )

  -- `NormalizeNames` answers with the canonical names, in their order and as often as they are given,
  -- where the catalogue knows all of them, and otherwise with an error that lists each unknown name
  -- once, in lexical order, and no other name.
  pub normalize_names_lem :
      (names : List String)
      → (all is_known names ≡ true
          → normalize_names text c names ≡ canonical (map canonical_name names))
        × (all is_known names ≡ false → ListsUnknown names (normalize_names text c names))
  unfolding normalize_names
  normalize_names_lem names = (
    λ h. ap normalized (loop_names names [] [] h),
    λ h. collected names (normalize_loop text c names [] []) (loop_unknown names [] [] tt) h,
  )
