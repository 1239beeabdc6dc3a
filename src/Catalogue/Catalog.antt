-- ===== src/Catalogue/Catalog.antt =====
-- `impl` of internal/modelcatalog/catalog.go: the index from lower-case names and aliases to rows, and
-- the counters of its lookups. Unicode's `strings.ToLower` and `strings.EqualFold` are parameters; the
-- lookups run one after another.
use modelserver.Prelude.{
  ℕ, suc, String, Bool, not, List, [], ◌∷◌, ◌++◌, Option, none, some, leb, str_eq, str_lt, contains,
  if◌then◌else◌,
}
use modelserver.Types.{map_get, map_set}
use modelserver.Pricing.Rates.{Model}

pub record TextLib : Type 0 where
  pub to_lower : String → String
  pub equal_fold : String → String → Bool

abbrev pub max_unknown_cardinality : ℕ
max_unknown_cardinality = 200

pub record Catalog (F : Type 0) : Type 0 where
  pub index : List (String × Model F)
  pub rows : List (Model F)
  pub alias_hits : List (String × ℕ)
  pub unknown : List (String × ℕ)
  pub unknown_n : ℕ

-- The end of `NormalizeNames`: the canonical names, or the sorted unknown ones.
pub data Normalized : Type 0 where
  canonical : List String → Normalized
  unknown_models : List String → Normalized

-- `sortStrings`, an insertion sort.
unfoldable pub insert_string : String → List String → List String
insert_string s [] = s ∷ []
insert_string s (x ∷ xs) = if str_lt s x then s ∷ x ∷ xs else x ∷ insert_string s xs

unfoldable pub sort_strings : List String → List String
unfolding insert_string
sort_strings [] = []
sort_strings (x ∷ xs) = insert_string x (sort_strings xs)

-- A set of texts as the list of its elements: the key is added once.
abbrev pub add_once : List String → String → List String
add_once xs s = if contains xs s then xs else s ∷ xs

abbrev pub bump : List (String × ℕ) → String → List (String × ℕ)
bump counts key = elim (map_get counts key) [
  | none ↦ map_set counts key 1
  | some n ↦ map_set counts key (suc n)
]

abbrev pub normalized : List String × List String → Normalized
normalized (out, []) = canonical out
normalized (out, u ∷ us) = unknown_models (sort_strings (u ∷ us))

module _ {F : Type 0} (text : TextLib) where
  open text use {to_lower, equal_fold}

  unfoldable pub index_aliases :
      Model F → List String → List (String × Model F) → List (String × Model F)
  index_aliases row [] idx = idx
  index_aliases row (a ∷ as_) idx = index_aliases row as_ (map_set idx (to_lower a) row)

  unfoldable pub index_rows : List (Model F) → List (String × Model F) → List (String × Model F)
  unfolding index_aliases
  index_rows [] idx = idx
  index_rows (row ∷ rows) idx =
      index_rows rows (index_aliases row row.aliases (map_set idx (to_lower row.name) row))

  -- `Swap`; the counters stay.
  unfoldable pub swap : List (Model F) → Catalog F → Catalog F
  swap rows c = record c { index = index_rows rows []; rows = rows }

  unfoldable pub bump_unknown : String → Catalog F → Catalog F
  bump_unknown key c = elim (map_get c.unknown key) [
    | some n ↦ record c { unknown = map_set c.unknown key (suc n) }
    | none ↦
        if leb max_unknown_cardinality c.unknown_n
        then c
        else record c { unknown = map_set c.unknown key 1; unknown_n = suc c.unknown_n }
  ]

  abbrev pub count_alias : String → Model F → Catalog F → Catalog F
  count_alias key m c =
      if not (str_eq key (to_lower m.name))
      then record c { alias_hits = bump c.alias_hits key }
      else c

  abbrev pub found : String → Catalog F → Option (Model F) → Option (Model F) × Catalog F
  found key c none = (none, bump_unknown key c)
  found key c (some m) = (some m, count_alias key m c)

  -- `Lookup`
  unfoldable pub lookup : String → Catalog F → Option (Model F) × Catalog F
  lookup name c = found (to_lower name) c (map_get c.index (to_lower name))

  abbrev pub if_canonical : String → Option (Model F) → Option (Model F)
  if_canonical name none = none
  if_canonical name (some m) = if not (equal_fold m.name name) then none else some m

  -- `Get`
  unfoldable pub get : String → Catalog F → Option (Model F)
  get name c = if_canonical name (map_get c.index (to_lower name))

  -- The loop of `NormalizeNames`, with the names so far and the set of unknown ones.
  unfoldable pub normalize_loop :
      Catalog F → List String → List String → List String → List String × List String
  normalize_loop c [] out unknown = (out, unknown)
  normalize_loop c (raw ∷ raws) out unknown = elim (map_get c.index (to_lower raw)) [
    | some m ↦ normalize_loop c raws (out ++ m.name ∷ []) unknown
    | none ↦ normalize_loop c raws out (add_once unknown raw)
  ]

  -- `NormalizeNames`
  unfoldable pub normalize_names : Catalog F → List String → Normalized
  normalize_names c names = normalized (normalize_loop c names [] [])
