-- ===== src/Lb/LeastConn.antt =====
-- About `leastConnIdx`, in the order by connections, then by falling weight.
use modelserver.Prelude.{
  ℕ, suc, ◌+◌, ◌≡◌, refl, sym, ap, ◌⊎◌, inl, inr, List, [], ◌∷◌, some, arith, true, false,
  get_elem?, All, Bool-cases,
}
use modelserver.Prelude.Int.{◌≤ℤ◌, ◌<ℤ◌, eq_of_parts}
use mathlib.Core.Path.{subst}
use modelserver.Lb.Balancer.{CandidateInfo, chosen, improves, least_conn_from, least_conn_idx}

-- `d` has fewer connections than `e`, or as many and at least its weight.
abbrev pub AtMost : CandidateInfo → CandidateInfo → Type 0
AtMost d e =
    (d.active_conns <ℤ e.active_conns)
    ⊎ ((d.active_conns ≡ e.active_conns) × (e.weight ≤ℤ d.weight))

AtMost-trans : (c d e : CandidateInfo) → AtMost c d → AtMost d e → AtMost c e
AtMost-trans c d e h k = ground arith

improves-AtMost : (c best : CandidateInfo) → improves c best ≡ true → AtMost c best
unfolding improves
improves-AtMost c best h = ground (arith, eq_of_parts c.active_conns best.active_conns)

not_improves-AtMost : (c best : CandidateInfo) → improves c best ≡ false → AtMost best c
unfolding improves
not_improves-AtMost c best h = ground (arith, eq_of_parts best.active_conns c.active_conns)

-- The result lies in the part of the list seen, and is at most each candidate.
abbrev Found : CandidateInfo → ℕ → ℕ → List CandidateInfo → CandidateInfo × ℕ → Type 0
Found best best_idx i cs (d, j) =
    (((d ≡ best) × (j ≡ best_idx)) ⊎ ((k : ℕ) × (j ≡ i + k) × (get_elem? cs k ≡ some d)))
    × AtMost d best
    × All (AtMost d) cs

Found-here :
    (best c : CandidateInfo) (i : ℕ) (best_idx : ℕ) (cs : List CandidateInfo)
    (r : CandidateInfo × ℕ)
    → AtMost c best
    → Found c i (suc i) cs r
    → Found best best_idx i (c ∷ cs) r
Found-here best c i best_idx cs (d, j) le (inl (e, at), le_c, rest) =
    (inr (0, omega arith, ap some (sym e)), AtMost-trans d c best le_c le, (le_c, rest))
Found-here best c i best_idx cs (d, j) le (inr (k, at, e), le_c, rest) =
    (inr (suc k, omega arith, e), AtMost-trans d c best le_c le, (le_c, rest))

Found-skip :
    (best c : CandidateInfo) (best_idx i : ℕ) (cs : List CandidateInfo) (r : CandidateInfo × ℕ)
    → AtMost best c
    → Found best best_idx (suc i) cs r
    → Found best best_idx i (c ∷ cs) r
Found-skip best c best_idx i cs (d, j) le (inl e, le_best, rest) =
    (inl e, le_best, (AtMost-trans d best c le_best le, rest))
Found-skip best c best_idx i cs (d, j) le (inr (k, at, e), le_best, rest) =
    (inr (suc k, omega arith, e), le_best, (AtMost-trans d best c le_best le, rest))

least_conn_from_better :
    (best c : CandidateInfo) (best_idx i : ℕ) (cs : List CandidateInfo)
    → improves c best ≡ true
    → least_conn_from best best_idx i (c ∷ cs) ≡ least_conn_from c i (suc i) cs
unfolding least_conn_from
least_conn_from_better best c best_idx i cs h = rw h

least_conn_from_worse :
    (best c : CandidateInfo) (best_idx i : ℕ) (cs : List CandidateInfo)
    → improves c best ≡ false
    → least_conn_from best best_idx i (c ∷ cs) ≡ least_conn_from best best_idx (suc i) cs
unfolding least_conn_from
least_conn_from_worse best c best_idx i cs h = rw h

least_conn_from-Found :
    (best : CandidateInfo) (best_idx i : ℕ) (cs : List CandidateInfo)
    → Found best best_idx i cs (least_conn_from best best_idx i cs)
unfolding least_conn_from
least_conn_from-Found best best_idx i [] = (inl (refl, refl), inr (refl, omega arith), tt)
least_conn_from-Found best best_idx i (c ∷ cs) = elim (Bool-cases (improves c best)) [
  | inl yes' ↦
      Found-here best c i best_idx cs _ (improves-AtMost c best yes') (
        rw (least_conn_from_better best c best_idx i cs yes')
          (least_conn_from-Found c i (suc i) cs))
  | inr no' ↦ Found-skip best c best_idx i cs _ (not_improves-AtMost c best no') (
      rw (least_conn_from_worse best c best_idx i cs no')
        (least_conn_from-Found best best_idx (suc i) cs))
]

at-Found :
    (c : CandidateInfo) (cs : List CandidateInfo) (r : CandidateInfo × ℕ)
    → Found c 0 1 cs r
    → (get_elem? (c ∷ cs) r.1 ≡ some r.0) × All (AtMost r.0) (c ∷ cs)
at-Found c cs (d, j) (inl (e, at), le, rest) = (rw at (ap some (sym e)), (le, rest))
at-Found c cs (d, j) (inr (k, at, e), le, rest) =
    let here : suc k ≡ j = omega arith in
    (subst (λ n. get_elem? (c ∷ cs) n ≡ some d) here e, (le, rest))

-- The least-connections policy picks, at its place in the list, a candidate that no other one beats:
-- none has fewer connections, and none with as many has a higher weight.
pub least_conn_idx-AtMost :
    (c : CandidateInfo) (cs : List CandidateInfo)
    → (d : CandidateInfo) × (j : ℕ) × (least_conn_idx (c ∷ cs) ≡ chosen d j)
      × (get_elem? (c ∷ cs) j ≡ some d)
      × All (AtMost d) (c ∷ cs)
unfolding least_conn_idx
least_conn_idx-AtMost c cs =
    let r = least_conn_from c 0 1 cs in
    let (at, le) = at-Found c cs r (least_conn_from-Found c 0 1 cs) in (r.0, r.1, refl, at, le)
