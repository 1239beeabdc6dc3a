-- ===== src/Catalogue/Tests.antt =====
-- Lookups in a catalogue of two models, and the theorems at them.
use mathlib.Core.List.{reverse}
use modelserver.Prelude.{String, ◌≡◌, true, false, List, [], ◌∷◌, map, none, all, find, str_eq}
use modelserver.Pricing.Rates.{Model}
use modelserver.Catalogue.Catalog.{TextLib, Catalog, canonical, swap, lookup, normalize_names}
use modelserver.Catalogue.Lookup.{answers_to, lookup-swap}
use modelserver.Catalogue.Normalize.{is_known, canonical_name, ListsUnknown, normalize_names_lem}

-- Texts without capital letters.
abbrev text : TextLib
text = record { to_lower = λ s. s; equal_fold = str_eq }

abbrev named : String → List String → Model Unit
named name aliases = record {
  name = name;
  aliases = aliases;
  publisher = "";
  status = "active";
  extra_usage_only = false;
  default_credit_rate = none;
  default_image_credit_rate = none;
}

abbrev rows : List (Model Unit)
rows = named "opus" ("large" ∷ []) ∷ named "haiku" ("small" ∷ "large" ∷ []) ∷ []

abbrev before : Catalog Unit
before = record { index = []; rows = []; alias_hits = []; unknown = []; unknown_n = 0 }

abbrev catalog : Catalog Unit
catalog = swap text rows before

lookup-swap_example :
    (lookup text "large" catalog).0 ≡ find (answers_to text "large") (reverse rows)
lookup-swap_example = lookup-swap text rows before "large"

abbrev names : List String
names = "opus" ∷ "titan" ∷ "atlas" ∷ "titan" ∷ []

normalize_names_lem_example :
    (all (is_known text catalog) names ≡ true
      → normalize_names text catalog names ≡ canonical (map (canonical_name text catalog) names))
    × (all (is_known text catalog) names ≡ false
        → ListsUnknown text catalog names (normalize_names text catalog names))
normalize_names_lem_example = normalize_names_lem text catalog names
