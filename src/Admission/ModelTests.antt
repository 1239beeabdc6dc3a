-- ===== src/Admission/ModelTests.antt =====
-- A caller with a denied model and a key with models of its own, and the theorems at it.
use mathlib.Core.List.{reverse}
use modelserver.Prelude.{
  String, ◌≡◌, ◌≢◌, refl, ◌⊎◌, true, false, not, ◌&&◌, ◌||◌, List, [], ◌∷◌, none, some, contains,
  find, str_eq,
}
use modelserver.Pricing.Rates.{Model}
use modelserver.Catalogue.Catalog.{TextLib, Catalog, swap, index_rows, index_aliases, lookup}
use modelserver.Catalogue.Lookup.{answers_to}
use modelserver.Admission.Models.{
  is_empty_list, model_named, check_model_allowed, list_models, resolve_model_name, admit_model,
}
use modelserver.Admission.Listed.{is_named, list_models-check_model_allowed, admit_model-named}

abbrev active : List String
active = "opus" ∷ "haiku" ∷ []

abbrev denied : List String
denied = "opus" ∷ []

list_models-check_model_allowed_example : contains (list_models [] active denied) "haiku" ≡ (
    is_named (check_model_allowed denied [] "haiku")
    && (not (is_empty_list {A = String} []) || contains active "haiku"))
list_models-check_model_allowed_example = list_models-check_model_allowed [] active denied "haiku"

abbrev text : TextLib
text = record { to_lower = λ s. s; equal_fold = str_eq }

abbrev haiku : Model Unit
haiku = record {
  name = "haiku";
  aliases = "small" ∷ [];
  publisher = "";
  status = "active";
  extra_usage_only = false;
  default_credit_rate = none;
  default_image_credit_rate = none;
}

abbrev before : Catalog Unit
before = record { index = []; rows = []; alias_hits = []; unknown = []; unknown_n = 0 }

small_named :
    (admit_model text denied ("haiku" ∷ []) "small" (swap text (haiku ∷ []) before)).0
    ≡ model_named "haiku"
unfolding admit_model resolve_model_name check_model_allowed lookup swap index_rows index_aliases
small_named = refl

admit_model-named_example :
    (m : Model Unit) × (find (answers_to text "small") (reverse (haiku ∷ [])) ≡ some m)
    × (m.name ≡ "haiku")
    × (◌≢◌ {A = String} m.status "disabled")
    × (contains denied "haiku" ≡ false)
    × ((is_empty_list {A = String} ("haiku" ∷ []) ≡ true)
        ⊎ (contains ("haiku" ∷ []) "haiku" ≡ true))
admit_model-named_example =
    admit_model-named text (haiku ∷ []) before denied ("haiku" ∷ []) "small" "haiku" small_named
