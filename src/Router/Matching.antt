-- ===== src/Router/Matching.antt =====
-- `matchesGlobalRoute`, `Match` and `MatrixGlobal` of internal/proxy/router_engine.go. The tables of
-- a `Router` that they read are arguments: the routes, in the order of the slice, and the groups.
use modelserver.Prelude.{
  ℕ, ◌+◌, String, Bool, true, false, not, ◌&&◌, ◌||◌, List, [], ◌∷◌, ◌++◌, Option, none, some,
  contains, ltb, str_eq, str_lt, ◌==◌, if◌then◌else◌,
}
use modelserver.Prelude.Int.{ℤ, ltb_ℤ, eqb_ℤ}
use modelserver.Types.{
  Upstream, UpstreamGroup, Route, status_active, map_get, all_request_kinds, all_client_buckets,
}

pub record GroupMember : Type 0 where
  pub upstream : Upstream
  pub weight : ℤ
  pub is_backup : Bool

pub record ResolvedGroup : Type 0 where
  pub group : UpstreamGroup
  pub members : List GroupMember

abbrev pub Groups : Type 0
Groups = List (String × ResolvedGroup)

abbrev is_empty : List String → Bool
is_empty [] = true
is_empty (x ∷ xs) = false

unfoldable pub matches_global_route : Route → String → String → String → String → Bool
matches_global_route route project_id model kind client =
    str_eq route.status status_active
    && str_eq route.project_id project_id
    && contains route.model_names model
    && contains route.request_kinds kind
    && (is_empty route.clients || contains route.clients client)

abbrev pub has_group : Groups → Route → Bool
has_group groups route = elim (map_get groups route.upstream_group_id) [
  | none ↦ false
  | some g ↦ true
]

-- The score of `Match`: 10 for a project, 1 for a list of clients.
unfoldable pub specificity : Route → ℕ
specificity route =
    (if str_eq route.project_id "" then 0 else 10) + (if is_empty route.clients then 0 else 1)

-- The score of `MatrixGlobal`, where the project does not count.
unfoldable pub client_specificity : Route → ℕ
client_specificity route = if is_empty route.clients then 0 else 1

-- The test by which a candidate replaces the best one: score, then priority, then the lower id.
unfoldable pub beats : ℕ → Route → ℕ → Route → Bool
beats spec route best_spec best =
    ltb best_spec spec
    || ((spec == best_spec) && ltb_ℤ best.match_priority route.match_priority)
    || ((spec == best_spec)
        && eqb_ℤ route.match_priority best.match_priority
        && str_lt route.id best.id)

abbrev pub Candidate : Type 0
Candidate = Route × ℕ

-- The replacement, for a route whose group is there.
unfoldable pub improve : ℕ → Route → Option Candidate → Candidate
unfolding beats
improve spec route none = (route, spec)
improve spec route (some (best, best_spec)) =
    if beats spec route best_spec best then (route, spec) else (best, best_spec)

-- The closure `consider` of `Match`.
unfoldable pub consider : Groups → Route → Option Candidate → Option Candidate
consider groups route best =
    if has_group groups route then some (improve (specificity route) route best) else best

-- The two passes of `Match` over one route.
unfoldable pub eligible : String → String → String → String → Route → Bool
eligible project_id model kind client route =
    matches_global_route route project_id model kind client
    || matches_global_route route "" model kind client

module _ (groups : Groups) (project_id model kind client : String) where
  -- The loop of `Match`.
  unfoldable pub match_from : Option Candidate → List Route → Option Candidate
  match_from best [] = best
  match_from best (route ∷ routes) =
      match_from
        (if matches_global_route route project_id model kind client
          then consider groups route best
          else if matches_global_route route "" model kind client
          then consider groups route best
          else best)
        routes

pub data MatchResult : Type 0 where
  no_route : MatchResult
  matched : Option ResolvedGroup → MatchResult

abbrev pub resolve : Groups → Option Candidate → MatchResult
resolve groups none = no_route
resolve groups (some (best, spec)) = matched (map_get groups best.upstream_group_id)

-- `Match`; `no_route` is its error.
unfoldable pub match_route : Groups → List Route → String → String → String → String → MatchResult
match_route groups routes project_id model kind client =
    resolve groups (match_from groups project_id model kind client none routes)

pub record MatrixCell : Type 0 where
  pub model : String
  pub kind : String
  pub client : String
  pub upstream_group_id : String
  pub route_id : String
  pub match_priority : ℤ
  pub clients : List String

-- The innermost loop of `MatrixGlobal`: the best route of one cell.
unfoldable pub matrix_best :
    Groups → String → String → String → Option Candidate → List Route → Option Candidate
matrix_best groups model kind client best [] = best
matrix_best groups model kind client best (route ∷ routes) =
    matrix_best groups model kind client
      (if not (matches_global_route route "" model kind client)
        then best
        else if not (has_group groups route)
        then best
        else some (improve (client_specificity route) route best))
      routes

abbrev pub cell_of : String → String → String → Candidate → MatrixCell
cell_of model kind client (best, spec) = record {
  model = model;
  kind = kind;
  client = client;
  upstream_group_id = best.upstream_group_id;
  route_id = best.id;
  match_priority = best.match_priority;
  clients = best.clients;
}

abbrev pub cells_of : String → String → String → Option Candidate → List MatrixCell
cells_of model kind client none = []
cells_of model kind client (some c) = cell_of model kind client c ∷ []

module _ (groups : Groups) (routes : List Route) where
  -- The loops over the clients, the kinds and the models.
  unfoldable pub matrix_clients : String → String → List String → List MatrixCell
  matrix_clients model kind [] = []
  matrix_clients model kind (client ∷ clients) =
      cells_of model kind client (matrix_best groups model kind client none routes)
      ++ matrix_clients model kind clients

  unfoldable pub matrix_kinds : String → List String → List String → List MatrixCell
  matrix_kinds model clients [] = []
  matrix_kinds model clients (kind ∷ kinds) =
      matrix_clients model kind clients ++ matrix_kinds model clients kinds

  unfoldable pub matrix_models : List String → List String → List MatrixCell
  matrix_models clients [] = []
  matrix_models clients (model ∷ models) =
      matrix_kinds model clients all_request_kinds ++ matrix_models clients models

-- `MatrixGlobal`
unfoldable pub matrix_global : Groups → List Route → List String → String → List MatrixCell
matrix_global groups routes models filter_client =
    matrix_models groups routes
      (if str_eq filter_client "" then all_client_buckets else filter_client ∷ []) models
