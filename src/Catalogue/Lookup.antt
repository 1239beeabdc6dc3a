-- ===== src/Catalogue/Lookup.antt =====
-- `Lookup` after a `Swap`, against the list of the rows.
use mathlib.Core.List.{reverse, reverse-append}
use modelserver.Prelude.{
  String, ◌≡◌, refl, ◌∙◌, Bool, true, false, ◌||◌, List, [], ◌∷◌, Option, none, some, arith, find,
  any, find-append, first_of_two, str_eq, eq_iff, if◌then◌else◌,
}
use modelserver.Types.{map_get, map_set}
use modelserver.Pricing.Rates.{Model}
use modelserver.Catalogue.Catalog.{TextLib, Catalog, index_aliases, index_rows, swap, found, lookup}

map_get-map_set {ℓ} :
    {V : Type ℓ} (m : List (String × V)) (k : String) (v : V) (j : String)
    → map_get (map_set m k v) j ≡ (if str_eq k j then some v else map_get m j)
map_get-map_set [] k v j = refl
map_get-map_set ((i, w) ∷ m) k v j =
    ground (arith, eq_iff k j, eq_iff i k, eq_iff i j, map_get-map_set m k v j)

joined {ℓ} :
    {A : Type ℓ} (o : Option A) (b : Bool) (a : A) (p : Option A)
    → first_of_two o (if b then some a else p)
      ≡ first_of_two (first_of_two o (if b then some a else none)) p
joined none true a p = refl
joined none false a p = refl
joined (some x) b a p = refl

or_nothing {ℓ} : {A : Type ℓ} (o : Option A) → first_of_two o none ≡ o
or_nothing none = refl
or_nothing (some a) = refl

module _ {F : Type 0} (text : TextLib) where
  open text use {to_lower}

  -- The row answers to the key: by its name, or by one of its aliases.
  abbrev pub answers_to : String → Model F → Bool
  answers_to key row =
      any (λ a. str_eq (to_lower a) key) row.aliases || str_eq (to_lower row.name) key

  map_get-index_aliases :
      (row : Model F) (names : List String) (idx : List (String × Model F)) (key : String)
      → map_get (index_aliases text row names idx) key
        ≡ (if any (λ a. str_eq (to_lower a) key) names then some row else map_get idx key)
  unfolding index_aliases
  map_get-index_aliases row [] idx key = refl
  map_get-index_aliases row (a ∷ names) idx key =
      map_get-index_aliases row names (map_set idx (to_lower a) row) key
      ∙ ground (arith, map_get-map_set idx (to_lower a) row key)

  map_get-index_rows :
      (rows : List (Model F)) (idx : List (String × Model F)) (key : String)
      → map_get (index_rows text rows idx) key
        ≡ first_of_two (find (answers_to key) (reverse rows)) (map_get idx key)
  unfolding index_rows
  map_get-index_rows [] idx key = refl
  map_get-index_rows (row ∷ rows) idx key =
      let idx' = index_aliases text row row.aliases (map_set idx (to_lower row.name) row) in
      let own : map_get idx' key ≡ (if answers_to key row then some row else map_get idx key) =
        map_get-index_aliases row row.aliases (map_set idx (to_lower row.name) row) key
        ∙ ground (arith, map_get-map_set idx (to_lower row.name) row key) in
      map_get-index_rows rows idx' key
      ∙ rw
          (
            own,
            reverse-append (row ∷ []) rows,
            find-append (answers_to key) (reverse rows) (row ∷ []),
          )
          (joined (find (answers_to key) (reverse rows)) (answers_to key row) row (map_get idx key))

  found_result : (key : String) (c : Catalog F) (o : Option (Model F)) → (found text key c o).0 ≡ o
  found_result key c none = refl
  found_result key c (some m) = refl

  -- After a `Swap`, `Lookup` finds the last row, in the order of the slice, that answers to the name in
  -- lower case, by its own name or by an alias, and nothing where no row does; whatever the counters
  -- and the rows before were.
  pub lookup-swap :
      (rows : List (Model F)) (c : Catalog F) (name : String)
      → (lookup text name (swap text rows c)).0 ≡ find (answers_to (to_lower name)) (reverse rows)
  unfolding lookup swap
  lookup-swap rows c name =
      found_result (to_lower name) (swap text rows c)
        (map_get (index_rows text rows []) (to_lower name))
      ∙ map_get-index_rows rows [] (to_lower name)
      ∙ or_nothing (find (answers_to (to_lower name)) (reverse rows))
