-- ===== src/Router/Matrix.antt =====
-- About `MatrixGlobal`, against `Match` for a request of no project.
use modelserver.Prelude.{
  String, ◌≡◌, refl, inl, inr, Bool, true, false, not, ◌&&◌, ◌||◌, List, [], ◌∷◌, find, find-append,
  first_of_two, contains, Option, none, some, arith, Bool-cases, if◌then◌else◌, eq_iff, str_eq,
}
use text.Mathlib.TextPositions.{eq_refl}
use modelserver.Types.{Route, map_get, all_request_kinds, all_client_buckets}
use modelserver.Router.Matching.{
  Groups, has_group, specificity, client_specificity, Candidate, improve, consider,
  matches_global_route, match_from, matrix_best, MatrixCell, cell_of, cells_of, no_route, matched,
  matrix_clients, matrix_kinds, matrix_models, matrix_global, match_route, MatchResult, resolve,
}

global-specificity :
    (r : Route) (model kind client : String)
    → matches_global_route r "" model kind client ≡ true
    → specificity r ≡ client_specificity r
unfolding matches_global_route specificity client_specificity
global-specificity r model kind client h = ground arith

global_step :
    (groups : Groups) (model kind client : String) (r : Route) (best : Option Candidate)
    → (if not (matches_global_route r "" model kind client)
        then best
        else if not (has_group groups r)
        then best
        else some (improve (client_specificity r) r best))
      ≡ (if matches_global_route r "" model kind client
          then consider groups r best
          else if matches_global_route r "" model kind client
          then consider groups r best
          else best)
unfolding consider
global_step groups model kind client r best =
    elim (Bool-cases (matches_global_route r "" model kind client)) [
      | inl h ↦ rw (h, global-specificity r model kind client h) (ground arith)
      | inr h ↦ rw h
    ]

matrix_best-match_from :
    (groups : Groups) (model kind client : String) (rs : List Route) (best : Option Candidate)
    → matrix_best groups model kind client best rs ≡ match_from groups "" model kind client best rs
unfolding matrix_best match_from
matrix_best-match_from groups model kind client [] best = refl
matrix_best-match_from groups model kind client (r ∷ rs) best =
    rw (global_step groups model kind client r best) (
      matrix_best-match_from groups model kind client rs (
        if matches_global_route r "" model kind client
        then consider groups r best
        else if matches_global_route r "" model kind client
        then consider groups r best
        else best))

-- The test for the cell of a model, kind and client.
abbrev pub is_cell : String → String → String → MatrixCell → Bool
is_cell model kind client cell =
    str_eq cell.model model && (str_eq cell.kind kind && str_eq cell.client client)

-- The clients that the matrix ranges over.
abbrev pub matrix_axis : String → List String
matrix_axis filter_client =
    if str_eq filter_client "" then all_client_buckets else filter_client ∷ []

abbrev first : String → String → String → Option Candidate → Option MatrixCell
first model kind client none = none
first model kind client (some c) = some (cell_of model kind client c)

find_own :
    (model kind client : String) (o : Option Candidate)
    → find (is_cell model kind client) (cells_of model kind client o) ≡ first model kind client o
find_own model kind client none = refl
find_own model kind client (some b) = rw (eq_refl model, eq_refl kind, eq_refl client)

join_tests {ℓ} :
    {A : Type ℓ} (a b c : Bool) (o : Option A)
    → first_of_two (if a && b then o else none) (if c && b then o else none)
      ≡ (if (a || c) && b then o else none)
join_tests true true true none = refl
join_tests true true true (some x) = refl
join_tests true true false none = refl
join_tests true true false (some x) = refl
join_tests true false c o = ground arith
join_tests false b c o = refl

module _ (groups : Groups) (routes : List Route) (model kind client : String) where
  abbrev answer : Option MatrixCell
  answer = first model kind client (matrix_best groups model kind client none routes)

  found_cell :
      (m k c : String)
      → m ≡ model
      → k ≡ kind
      → c ≡ client
      → find (is_cell model kind client) (cells_of m k c (matrix_best groups m k c none routes))
        ≡ answer
  found_cell m k c em ek ec =
      rw (em, ek, ec)
        (find_own model kind client (matrix_best groups model kind client none routes))

  missed_cell :
      (m k c : String) (o : Option Candidate)
      → (str_eq m model && (str_eq k kind && str_eq c client)) ≡ false
      → find (is_cell model kind client) (cells_of m k c o) ≡ none
  missed_cell m k c none h = refl
  missed_cell m k c (some b) h = rw h

  find-cells :
      (m k c : String)
      → find (is_cell model kind client) (cells_of m k c (matrix_best groups m k c none routes))
        ≡ (if str_eq m model && (str_eq k kind && str_eq c client) then answer else none)
  find-cells m k c = elim (Bool-cases (str_eq m model && (str_eq k kind && str_eq c client))) [
    | inl hit ↦ rw hit (
        found_cell m k c ((eq_iff m model).0 (ground arith)) ((eq_iff k kind).0 (ground arith))
          ((eq_iff c client).0 (ground arith)))
    | inr miss ↦ rw miss (missed_cell m k c (matrix_best groups m k c none routes) miss)
  ]

  find-matrix_clients :
      (m k : String) (cs : List String)
      → find (is_cell model kind client) (matrix_clients groups routes m k cs)
        ≡ (if str_eq m model && (str_eq k kind && contains cs client) then answer else none)
  unfolding matrix_clients
  find-matrix_clients m k [] = ground arith
  find-matrix_clients m k (c ∷ cs) =
      rw
        (
          find-append (is_cell model kind client)
              (cells_of m k c (matrix_best groups m k c none routes))
              (matrix_clients groups routes m k cs),
          find-cells m k c,
          find-matrix_clients m k cs,
        )
        (ground arith)

  find-matrix_kinds :
      (m : String) (cs ks : List String)
      → find (is_cell model kind client) (matrix_kinds groups routes m cs ks)
        ≡ (if str_eq m model && (contains ks kind && contains cs client) then answer else none)
  unfolding matrix_kinds
  find-matrix_kinds m cs [] = ground arith
  find-matrix_kinds m cs (k ∷ ks) =
      rw
        (
          find-append (is_cell model kind client) (matrix_clients groups routes m k cs)
              (matrix_kinds groups routes m cs ks),
          find-matrix_clients m k cs,
          find-matrix_kinds m cs ks,
        )
        (ground arith)

  find-matrix_models :
      (cs ms : List String)
      → find (is_cell model kind client) (matrix_models groups routes cs ms) ≡ (
          if contains ms model && (contains all_request_kinds kind && contains cs client)
          then answer
          else none)
  unfolding matrix_models
  find-matrix_models cs [] = refl
  find-matrix_models cs (m ∷ ms) =
      rw
        (
          find-append (is_cell model kind client)
              (matrix_kinds groups routes m cs all_request_kinds)
              (matrix_models groups routes cs ms),
          find-matrix_kinds m cs all_request_kinds,
          find-matrix_models cs ms,
        )
        (join_tests (str_eq m model) (contains all_request_kinds kind && contains cs client)
          (contains ms model) answer)

  -- What the admin page reads off a cell of the matrix.
  abbrev pub resolve_cell : Option MatrixCell → MatchResult
  resolve_cell none = no_route
  resolve_cell (some cell) = matched (map_get groups cell.upstream_group_id)

  resolve-first :
      (o : Option Candidate) → resolve_cell (first model kind client o) ≡ resolve groups o
  resolve-first none = refl
  resolve-first (some (b, n)) = refl

  -- The matrix and the router cannot drift apart: for each model, request kind and client that the
  -- matrix ranges over, its cell, or the lack of one, is the answer of `Match` for a request of no
  -- project.
  pub matrix_global-match_route :
      (models : List String) (filter_client : String)
      → contains models model ≡ true
      → contains all_request_kinds kind ≡ true
      → contains (matrix_axis filter_client) client ≡ true
      → resolve_cell
          (find (is_cell model kind client) (matrix_global groups routes models filter_client))
        ≡ match_route groups routes "" model kind client
  unfolding matrix_global match_route
  matrix_global-match_route models filter_client in_models in_kinds in_axis =
      rw (find-matrix_models (matrix_axis filter_client) models, in_models, in_kinds, in_axis)
        (rw (matrix_best-match_from groups model kind client routes none)
          (resolve-first (match_from groups "" model kind client none routes)))
