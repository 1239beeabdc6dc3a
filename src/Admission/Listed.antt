-- ===== src/Admission/Listed.antt =====
-- The models that a caller is shown, and those that it may use.
use modelserver.Prelude.{
  String, ◌≡◌, refl, ◌≢◌, ◌⊎◌, inl, inr, Bool, true, false, not, ◌&&◌, ◌||◌, List, [], ◌∷◌, Option,
  none, some, arith, contains, find, str_eq, eq_iff, Bool-cases, if◌then◌else◌,
}
use mathlib.Core.List.{reverse}
use mathlib.Core.Path.{subst}
use modelserver.Pricing.Rates.{Model}
use modelserver.Catalogue.Catalog.{TextLib, Catalog, swap}
use modelserver.Catalogue.Lookup.{answers_to, lookup-swap}
use modelserver.Admission.Models.{
  is_empty_list, ModelAnswer, model_named, model_unknown, model_disabled, denied_to_member,
  not_of_key, check_model_allowed, subtract_strings, list_models, named_model, resolve_model_name,
  check_named, admit_model,
}

contains-subtract_strings :
    (xs b : List String) (s : String)
    → contains (subtract_strings xs b) s ≡ (contains xs s && not (contains b s))
unfolding subtract_strings
contains-subtract_strings [] b s = refl
contains-subtract_strings (x ∷ xs) b s = elim (Bool-cases (str_eq x s)) [
  | inl same ↦
      rw ((eq_iff x s).0 same) (ground (arith, contains-subtract_strings xs b s, eq_iff s s))
  | inr other ↦ ground (arith, contains-subtract_strings xs b s, other)
]

abbrev pub is_named : ModelAnswer → Bool
is_named (model_named name) = true
is_named model_unknown = false
is_named model_disabled = false
is_named denied_to_member = false
is_named not_of_key = false

nothing_in : (xs : List String) (s : String) → is_empty_list xs ≡ true → contains xs s ≡ false
nothing_in [] s h = refl
nothing_in (x ∷ xs) s h = absurd (ground arith)

-- A model is listed to a caller just where the check of a request for it lets it through and, for a
-- key without models of its own, a route serves it.
pub list_models-check_model_allowed :
    (allowed active denied : List String) (name : String)
    → contains (list_models allowed active denied) name ≡ (
        is_named (check_model_allowed denied allowed name)
        && (not (is_empty_list allowed) || contains active name))
unfolding list_models check_model_allowed
list_models-check_model_allowed allowed active denied name =
    let names = if not (is_empty_list allowed) then allowed else active in
    elim (Bool-cases (is_empty_list denied)) [
      | inl none_denied ↦ elim (Bool-cases (is_empty_list allowed)) [
        | inl any_model ↦ rw (none_denied, any_model) (ground arith)
        | inr own ↦ rw (none_denied, own) (ground arith)
      ]
      | inr some_denied ↦ elim (Bool-cases (is_empty_list allowed)) [
        | inl any_model ↦
            rw (some_denied, any_model)
              (ground (arith, contains-subtract_strings active denied name))
        | inr own ↦
            rw (some_denied, own) (ground (arith, contains-subtract_strings allowed denied name))
      ]
    ]

check_model_allowed-named :
    (denied allowed : List String) (name other : String)
    → check_model_allowed denied allowed name ≡ model_named other
    → (name ≡ other)
      × (contains denied name ≡ false)
      × ((is_empty_list allowed ≡ true) ⊎ (contains allowed name ≡ true))
unfolding check_model_allowed
check_model_allowed-named denied allowed name other h =
    elim (Bool-cases (not (is_empty_list denied) && contains denied name)) [
      | inl out ↦ cc (rw out at h)
      | inr in_ ↦ elim (Bool-cases (not (is_empty_list allowed) && not (contains allowed name))) [
        | inl out ↦ cc (rw (in_, out) at h)
        | inr own ↦ (
          cc (rw (in_, own) at h),
          ground (arith, in_, nothing_in denied name),
          elim (Bool-cases (is_empty_list allowed)) [
            | inl free ↦ inl free
            | inr some_own ↦ inr (ground (arith, own))
          ],
        )
      ]
    ]

-- The catalogue's answer to a name that a handler lets through.
named_model-row :
    {F : Type 0} (denied allowed : List String) (o : Option (Model F)) (name : String)
    → check_named denied allowed (named_model o) ≡ model_named name
    → (m : Model F) × (o ≡ some m)
      × (m.name ≡ name)
      × (m.status ≢ "disabled")
      × (contains denied name ≡ false)
      × ((is_empty_list allowed ≡ true) ⊎ (contains allowed name ≡ true))
named_model-row denied allowed none name h = cc
named_model-row denied allowed (some m) name h = elim (Bool-cases (str_eq m.status "disabled")) [
  | inl off ↦ cc (rw off at h)
  | inr on ↦
      let k : check_model_allowed denied allowed m.name ≡ model_named name = rw on at h in
      let (same, open_, own) = check_model_allowed-named denied allowed m.name name k in
      (
        m,
        refl,
        same,
        λ e. ground (arith, eq_iff m.status "disabled"),
        subst (λ n. contains denied n ≡ false) same open_,
        subst (λ n. (is_empty_list allowed ≡ true) ⊎ (contains allowed n ≡ true)) same own,
      )
]

-- A handler goes on with a model only under the name of the last row of the catalogue that answers to
-- what the client wrote, by name or by alias, after a swap; the row is not disabled, and under that
-- name, whatever alias the client wrote, the model is not denied to the member and, where the key has
-- models of its own, is one of them.
pub admit_model-named :
    {F : Type 0} (text : TextLib) (rows : List (Model F)) (c : Catalog F)
    (denied allowed : List String) (raw name : String)
    → (admit_model text denied allowed raw (swap text rows c)).0 ≡ model_named name
    → (m : Model F) × (find (answers_to text (text.to_lower raw)) (reverse rows) ≡ some m)
      × (m.name ≡ name)
      × (m.status ≢ "disabled")
      × (contains denied name ≡ false)
      × ((is_empty_list allowed ≡ true) ⊎ (contains allowed name ≡ true))
unfolding admit_model resolve_model_name
admit_model-named text rows c denied allowed raw name h =
    named_model-row denied allowed _ name (rw (lookup-swap text rows c raw) at h)
