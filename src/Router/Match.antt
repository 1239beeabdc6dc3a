-- ===== src/Router/Match.antt =====
-- About `Match`: the route it picks, and the order of the routes.
use mathlib.Core.List.{Mem, Perm}
use mathlib.Core.List.Perm
use modelserver.Prelude.{
  String, ◌≡◌, ◌≢◌, sym, ap, ◌∙◌, ◌⊎◌, inl, inr, true, false, List, none, some, arith, Option-cases,
  eq_iff,
}
use modelserver.Types.{Route, map_get}
use modelserver.Router.Matching.{
  Groups, ResolvedGroup, specificity, beats, eligible, matches_global_route, no_route, matched,
  match_route, resolve,
}
use modelserver.Router.Best.{
  AtLeast, AtLeast-antisym, scored, is_candidate, best_from, match_from-scored, IsBest,
  best_from-Picked, best_from-none,
}

module _ (groups : Groups) (project_id model kind client : String) where
  -- What `Match` answers where `b` is the best route: its group, which is there.
  pub record Routes (b : Route) (rs : List Route) : Type 0 where
    pub best : IsBest groups project_id model kind client b rs
    pub group : ResolvedGroup
    pub found : map_get groups b.upstream_group_id ≡ some group
    pub answer : match_route groups rs project_id model kind client ≡ matched (some group)

  abbrev pub NoCandidate : List Route → Type 0
  NoCandidate rs =
      (r : Route) → Mem r rs → is_candidate groups project_id model kind client r ≡ false

  candidate_group :
      (r : Route)
      → is_candidate groups project_id model kind client r ≡ true
      → (g : ResolvedGroup) × (map_get groups r.upstream_group_id ≡ some g)
  candidate_group r h = elim (Option-cases (map_get groups r.upstream_group_id)) [
    | inl missing ↦ absurd (ground arith)
    | inr found ↦ found
  ]

  match_route-scored :
      (rs : List Route)
      → match_route groups rs project_id model kind client
        ≡ resolve groups (scored (best_from groups project_id model kind client none rs))
  unfolding match_route
  match_route-scored rs = rw (match_from-scored groups project_id model kind client none rs)

  match_route_some :
      (rs : List Route) (b : Route)
      → best_from groups project_id model kind client none rs ≡ some b
      → Routes b rs
  match_route_some rs b e =
      let p = best_from-Picked groups project_id model kind client none rs b e in
      let source = picked p.source in
      let (g, found) = candidate_group b source.1 in
      record {
        best = record { among = source.0; candidate = source.1; greatest = p.over_rest };
        group = g;
        found = found;
        answer = match_route-scored rs ∙ rw (e, found);
      }
    where
      picked :
          ((none ≡ some b)
            ⊎ (Mem b rs × (is_candidate groups project_id model kind client b ≡ true)))
          → Mem b rs × (is_candidate groups project_id model kind client b ≡ true)
      picked (inl h) = cc
      picked (inr h) = h

  pub match_route-Routes :
      (rs : List Route)
      → ((b : Route) × Routes b rs)
        ⊎ ((match_route groups rs project_id model kind client ≡ no_route) × NoCandidate rs)
  match_route-Routes rs =
      elim (Option-cases (best_from groups project_id model kind client none rs)) [
        | inl e ↦
            inr (
              match_route-scored rs ∙ rw e,
              best_from-none groups project_id model kind client rs e,
            )
        | inr (b, e) ↦ inl (b, match_route_some rs b e)
      ]

-- No two routes of the list share an id, as in the table that the routes are loaded from.
abbrev pub DistinctIds : List Route → Type 0
DistinctIds rs = (r q : Route) → Mem r rs → Mem q rs → r.id ≡ q.id → r ≡ q

module _ (groups : Groups) (project_id model kind client : String) where
  IsBest-unique :
      (rs qs : List Route) (b c : Route)
      → Perm rs qs
      → DistinctIds rs
      → IsBest groups project_id model kind client b rs
      → IsBest groups project_id model kind client c qs
      → b ≡ c
  IsBest-unique rs qs b c perm distinct h k =
      let c_in_rs = (Perm.mem_iff perm).1 k.among in
      distinct b c h.among c_in_rs (
        AtLeast-antisym b c (h.greatest c c_in_rs k.candidate)
          (k.greatest b ((Perm.mem_iff perm).0 h.among) h.candidate))

  -- The answer of `Match` does not depend on the order of the routes, so neither on how the routes
  -- were loaded nor on the sort by priority at load time, which is not stable.
  pub match_route-perm :
      (rs qs : List Route)
      → Perm rs qs
      → DistinctIds rs
      → match_route groups rs project_id model kind client
        ≡ match_route groups qs project_id model kind client
  match_route-perm rs qs perm distinct =
      compare_answers (match_route-Routes groups project_id model kind client rs)
        (match_route-Routes groups project_id model kind client qs)
    where
      compare_answers :
          (((b : Route) × Routes groups project_id model kind client b rs)
            ⊎ ((match_route groups rs project_id model kind client ≡ no_route)
                × NoCandidate groups project_id model kind client rs))
          → (((b : Route) × Routes groups project_id model kind client b qs)
              ⊎ ((match_route groups qs project_id model kind client ≡ no_route)
                  × NoCandidate groups project_id model kind client qs))
          → match_route groups rs project_id model kind client
            ≡ match_route groups qs project_id model kind client
      compare_answers (inl (b, h)) (inl (c, k)) =
          let same = IsBest-unique rs qs b c perm distinct h.best k.best in
          let groups_same : some h.group ≡ some k.group =
            sym h.found ∙ ap (λ (r : Route). map_get groups r.upstream_group_id) same ∙ k.found in
          h.answer ∙ ap matched groups_same ∙ sym k.answer
      compare_answers (inl (b, h)) (inr (e, none_left)) =
          absurd (cc (none_left b ((Perm.mem_iff perm).0 h.best.among), h.best.candidate))
      compare_answers (inr (e, none_left)) (inl (c, k)) =
          absurd (cc (none_left c ((Perm.mem_iff perm).1 k.best.among), k.best.candidate))
      compare_answers (inr (e, _)) (inr (d, _)) = e ∙ sym d

  project_beats_global :
      (r b : Route)
      → project_id ≢ ""
      → r.project_id ≡ project_id
      → eligible project_id model kind client b ≡ true
      → AtLeast b r
      → b.project_id ≡ project_id
  unfolding eligible matches_global_route beats specificity
  project_beats_global r b named own good best =
      ground (arith, eq_iff b.project_id project_id, eq_iff b.project_id "", eq_iff r.project_id "")

  -- For a request of a project, a route of the project wins over every global route: where one of
  -- the candidates belongs to the project, so does the route whose group is returned.
  pub match_route_project_first :
      (rs : List Route) (r : Route)
      → project_id ≢ ""
      → Mem r rs
      → is_candidate groups project_id model kind client r ≡ true
      → r.project_id ≡ project_id
      → (b : Route) × Routes groups project_id model kind client b rs × (b.project_id ≡ project_id)
  match_route_project_first rs r named m good own =
      answer (match_route-Routes groups project_id model kind client rs)
    where
      answer :
          (((b : Route) × Routes groups project_id model kind client b rs)
            ⊎ ((match_route groups rs project_id model kind client ≡ no_route)
                × NoCandidate groups project_id model kind client rs))
          → (b : Route) × Routes groups project_id model kind client b rs
            × (b.project_id ≡ project_id)
      answer (inl (b, h)) = (
        b,
        h,
        project_beats_global r b named own (ground (arith, h.best.candidate))
            (h.best.greatest r m good),
      )
      answer (inr (e, none_left)) = absurd (cc (none_left r m))
