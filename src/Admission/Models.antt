-- ===== src/Admission/Models.antt =====
-- Which model a caller may use: `resolveModel`, `checkModelAllowed` and `modelInList` of
-- internal/proxy/handler.go, and the listing of the models in internal/proxy/router.go.
use modelserver.Prelude.{
  String, Bool, true, false, not, ◌&&◌, List, [], ◌∷◌, Option, none, some, contains, str_eq,
  if◌then◌else◌,
}
use modelserver.Pricing.Rates.{Model}
use modelserver.Catalogue.Catalog.{TextLib, Catalog, lookup}

abbrev pub is_empty_list {ℓ} : {A : Type ℓ} → List A → Bool
is_empty_list [] = true
is_empty_list (x ∷ xs) = false

-- A request goes on with a canonical name; or its model is unknown, disabled, denied to the member,
-- or not among those of the key.
pub data ModelAnswer : Type 0 where
  model_named : String → ModelAnswer
  model_unknown : ModelAnswer
  model_disabled : ModelAnswer
  denied_to_member : ModelAnswer
  not_of_key : ModelAnswer

-- `checkModelAllowed`, at the member's denied models and those of the key.
unfoldable pub check_model_allowed : List String → List String → String → ModelAnswer
check_model_allowed denied allowed name =
    if not (is_empty_list denied) && contains denied name
    then denied_to_member
    else if not (is_empty_list allowed) && not (contains allowed name)
    then not_of_key
    else model_named name

-- `subtractStrings`
unfoldable pub subtract_strings : List String → List String → List String
subtract_strings [] b = []
subtract_strings (x ∷ xs) b =
    if contains b x then subtract_strings xs b else x ∷ subtract_strings xs b

-- The names that `HandleListModels` lists, for the active models of the router.
unfoldable pub list_models : List String → List String → List String → List String
unfolding subtract_strings
list_models allowed active denied =
    let names = if not (is_empty_list allowed) then allowed else active in
    if not (is_empty_list denied) then subtract_strings names denied else names

abbrev pub named_model : {F : Type 0} → Option (Model F) → ModelAnswer
named_model none = model_unknown
named_model (some m) = if str_eq m.status "disabled" then model_disabled else model_named m.name

abbrev pub check_named : List String → List String → ModelAnswer → ModelAnswer
check_named denied allowed (model_named name) = check_model_allowed denied allowed name
check_named denied allowed model_unknown = model_unknown
check_named denied allowed model_disabled = model_disabled
check_named denied allowed denied_to_member = denied_to_member
check_named denied allowed not_of_key = not_of_key

module _ {F : Type 0} (text : TextLib) where
  -- `resolveModel`, with a catalogue.
  unfoldable pub resolve_model_name : String → Catalog F → ModelAnswer × Catalog F
  resolve_model_name raw c = let (m, c') = lookup text raw c in (named_model m, c')

  -- The two checks of a handler, one after the other.
  unfoldable pub admit_model :
      List String → List String → String → Catalog F → ModelAnswer × Catalog F
  unfolding resolve_model_name
  admit_model denied allowed raw c =
      let (answer, c') = resolve_model_name raw c in (check_named denied allowed answer, c')
