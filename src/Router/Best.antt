-- ===== src/Router/Best.antt =====
-- About the loop of `Match`, as the choice of a greatest route in a total order.
use mathlib.Core.Logic.Or
use mathlib.Core.List.{Mem, mem-cons, not-mem-nil, mem-cons_of_mem}
use modelserver.Prelude.{
  String, ◌≡◌, refl, sym, ◌∙◌, ◌⊎◌, inl, inr, Bool, true, false, ◌&&◌, List, [], ◌∷◌, Option, none,
  some, arith, str_lt_irrefl, str_lt_asym, str_lt_tri, str_le_trans, Bool-cases, if◌then◌else◌,
  some_inj,
}
use mathlib.Core.Path.{subst}
use modelserver.Types.{Route}
use modelserver.Router.Matching.{
  Groups, has_group, specificity, beats, Candidate, improve, consider, eligible,
  matches_global_route, match_from,
}

-- `b` stands at or above `r` in the order by score, priority and falling id.
abbrev pub AtLeast : Route → Route → Type 0
AtLeast b r = beats (specificity r) r (specificity b) b ≡ false

AtLeast-refl : (b : Route) → AtLeast b b
unfolding beats
AtLeast-refl b = ground (arith, str_lt_irrefl b.id)

AtLeast-trans : (a b c : Route) → AtLeast a b → AtLeast b c → AtLeast a c
unfolding beats
AtLeast-trans a b c h k = ground (arith, str_le_trans a.id b.id c.id)

AtLeast-flip : (a b : Route) → beats (specificity a) a (specificity b) b ≡ true → AtLeast a b
unfolding beats
AtLeast-flip a b h = ground (arith, str_lt_asym a.id b.id)

pub AtLeast-antisym : (a b : Route) → AtLeast a b → AtLeast b a → a.id ≡ b.id
unfolding beats
AtLeast-antisym a b h k = ground (arith, str_lt_tri a.id b.id)

-- The route that stands higher, the first one where neither does.
abbrev pub higher : Route → Option Route → Route
higher r none = r
higher r (some b) = if beats (specificity r) r (specificity b) b then r else b

abbrev pub scored : Option Route → Option Candidate
scored none = none
scored (some b) = some (b, specificity b)

abbrev pub AtLeastOption : Route → Option Route → Type 0
AtLeastOption b none = Unit
AtLeastOption b (some a) = AtLeast b a

improve-scored :
    (r : Route) (best : Option Route)
    → improve (specificity r) r (scored best) ≡ (higher r best, specificity (higher r best))
unfolding improve
improve-scored r none = refl
improve-scored r (some b) = ground arith

higher-AtLeast :
    (r : Route) (best : Option Route)
    → AtLeast (higher r best) r × AtLeastOption (higher r best) best
higher-AtLeast r none = (AtLeast-refl r, tt)
higher-AtLeast r (some b) = elim (Bool-cases (beats (specificity r) r (specificity b) b)) [
  | inl wins ↦ rw wins (AtLeast-refl r, AtLeast-flip r b wins)
  | inr loses ↦ rw loses (loses, AtLeast-refl b)
]

higher-cases :
    (r : Route) (best : Option Route) → (higher r best ≡ r) ⊎ (best ≡ some (higher r best))
higher-cases r none = inl refl
higher-cases r (some b) = elim (Bool-cases (beats (specificity r) r (specificity b) b)) [
  | inl wins ↦ inl (rw wins)
  | inr loses ↦ inr (rw loses)
]

module _ (groups : Groups) (project_id model kind client : String) where
  -- A route that `Match` considers: eligible for the request, and with a group that is there.
  abbrev pub is_candidate : Route → Bool
  is_candidate r = eligible project_id model kind client r && has_group groups r

  abbrev pub best_from : Option Route → List Route → Option Route
  best_from best [] = best
  best_from best (r ∷ rs) = best_from (if is_candidate r then some (higher r best) else best) rs

  match_step :
      (r : Route) (best : Option Route)
      → (if matches_global_route r project_id model kind client
          then consider groups r (scored best)
          else if matches_global_route r "" model kind client
          then consider groups r (scored best)
          else scored best)
        ≡ scored (if is_candidate r then some (higher r best) else best)
  unfolding eligible consider
  match_step r best = rw (improve-scored r best) (ground arith)

  pub match_from-scored :
      (best : Option Route) (rs : List Route)
      → match_from groups project_id model kind client (scored best) rs ≡ scored (best_from best rs)
  unfolding match_from
  match_from-scored best [] = refl
  match_from-scored best (r ∷ rs) =
      rw (match_step r best)
        (match_from-scored (if is_candidate r then some (higher r best) else best) rs)

  -- The route `b` is among `rs`, a candidate, and at or above every candidate of `rs`.
  pub record IsBest (b : Route) (rs : List Route) : Type 0 where
    pub among : Mem b rs
    pub candidate : is_candidate b ≡ true
    pub greatest : (r : Route) → Mem r rs → is_candidate r ≡ true → AtLeast b r

  abbrev pub AtLeastCandidates : Route → List Route → Type 0
  AtLeastCandidates b rs = (r : Route) → Mem r rs → is_candidate r ≡ true → AtLeast b r

  cons-AtLeastCandidates :
      (b r : Route) (rs : List Route)
      → (is_candidate r ≡ true → AtLeast b r)
      → AtLeastCandidates b rs
      → AtLeastCandidates b (r ∷ rs)
  cons-AtLeastCandidates b r rs first rest q m =
      Or.elim {C = is_candidate q ≡ true → AtLeast b q} (hlevel) (mem-cons.0 m)
        (λ e. subst (λ x. is_candidate x ≡ true → AtLeast b x) (sym e) first) (rest q)

  -- What `best_from` has returned: an earlier best, or a candidate of the list.
  pub record Picked (b : Route) (best : Option Route) (rs : List Route) : Type 0 where
    pub source : (best ≡ some b) ⊎ (Mem b rs × (is_candidate b ≡ true))
    pub over_best : AtLeastOption b best
    pub over_rest : AtLeastCandidates b rs

  cons-Picked :
      (b r : Route) (best : Option Route) (rs : List Route)
      → is_candidate r ≡ true
      → Picked b (some (higher r best)) rs
      → Picked b best (r ∷ rs)
  cons-Picked b r best rs good p = record {
    source = from p.source (higher-cases r best);
    over_best = over best (higher-AtLeast r best).1;
    over_rest =
        cons-AtLeastCandidates b r rs
          (λ _. AtLeast-trans b (higher r best) r p.over_best (higher-AtLeast r best).0)
          p.over_rest;
  }
    where
      over : (o : Option Route) → AtLeastOption (higher r best) o → AtLeastOption b o
      over none h = tt
      over (some a) h = AtLeast-trans b (higher r best) a p.over_best h

      from :
          ((some (higher r best) ≡ some b) ⊎ (Mem b rs × (is_candidate b ≡ true)))
          → ((higher r best ≡ r) ⊎ (best ≡ some (higher r best)))
          → (best ≡ some b) ⊎ (Mem b (r ∷ rs) × (is_candidate b ≡ true))
      from (inl e) (inl new) =
          let same : b ≡ r = sym (some_inj e) ∙ new in
          inr (mem-cons.1 (Or.inl same), subst (λ x. is_candidate x ≡ true) (sym same) good)
      from (inl e) (inr old) = inl (old ∙ e)
      from (inr (m, c)) h = inr (mem-cons_of_mem r m, c)

  pub best_from-Picked :
      (best : Option Route) (rs : List Route) (b : Route)
      → best_from best rs ≡ some b
      → Picked b best rs
  best_from-Picked best [] b h = record {
    source = inl h;
    over_best = rw h (AtLeast-refl b);
    over_rest = λ r m. absurd (not-mem-nil m);
  }
  best_from-Picked best (r ∷ rs) b h = elim (Bool-cases (is_candidate r)) [
    | inl good ↦
        cons-Picked b r best rs good (best_from-Picked (some (higher r best)) rs b (rw good at h))
    | inr bad ↦
        let p = best_from-Picked best rs b (rw bad at h) in
        record {
          source = skip p.source;
          over_best = p.over_best;
          over_rest = cons-AtLeastCandidates b r rs (λ good. cc) p.over_rest;
        }
  ]
    where
      skip :
          ((best ≡ some b) ⊎ (Mem b rs × (is_candidate b ≡ true)))
          → (best ≡ some b) ⊎ (Mem b (r ∷ rs) × (is_candidate b ≡ true))
      skip (inl e) = inl e
      skip (inr (m, c)) = inr (mem-cons_of_mem r m, c)

  -- With a best route so far there is one at the end.
  best_from-some : (a : Route) (rs : List Route) → (b : Route) × (best_from (some a) rs ≡ some b)
  best_from-some a [] = (a, refl)
  best_from-some a (r ∷ rs) = elim (Bool-cases (is_candidate r)) [
    | inl good ↦ rw good (best_from-some (higher r (some a)) rs)
    | inr bad ↦ rw bad (best_from-some a rs)
  ]

  pub best_from-none :
      (rs : List Route) → best_from none rs ≡ none → (r : Route) → Mem r rs → is_candidate r ≡ false
  best_from-none [] h r m = absurd (not-mem-nil m)
  best_from-none (r ∷ rs) h q m = elim (Bool-cases (is_candidate r)) [
    | inl good ↦
        let (b, e) = best_from-some r rs in
        let left : best_from (some r) rs ≡ none = rw good at h in cc
    | inr bad ↦
        Or.elim {C = is_candidate q ≡ false} (hlevel) (mem-cons.0 m)
          (λ e. subst (λ x. is_candidate x ≡ false) (sym e) bad) (best_from-none rs (rw bad at h) q)
  ]
