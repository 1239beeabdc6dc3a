-- ===== src/Lb/Weighted.antt =====
-- The weighted draw: the sum of the weights, and which draws lead to which candidate.
use modelserver.Prelude.{
  ℕ, zero, suc, ◌+◌, ◌^◌, ◌≤◌, ◌<◌, ◌≡◌, refl, List, [], ◌∷◌, some, arith, inl, inr, get_elem?,
  take, Bool-cases,
}
use native.Mathlib.Nat.{zero-add}
use modelserver.Prelude.Int.{pos, pos_part, ◌+ℤ◌, wrap_int64, ltb_ℤ}
use modelserver.Lb.Balancer.{
  CandidateInfo, State, chosen, effective_weight, total_weight, scan_weights, draw_weighted,
  weighted_random_idx,
}

abbrev pub share : CandidateInfo → ℕ
share c = pos_part (effective_weight c)

abbrev pub weight_sum : List CandidateInfo → ℕ
weight_sum [] = 0
weight_sum (c ∷ cs) = share c + weight_sum cs

pub share_pos : (c : CandidateInfo) → 0 < share c
share_pos c = ground arith

wrap_share :
    (a : ℕ) (c : CandidateInfo)
    → a + share c < 2 ^ 63
    → wrap_int64 (pos a +ℤ effective_weight c) ≡ pos (a + share c)
unfolding wrap_int64 ◌+ℤ◌
wrap_share a c h = ground arith

pub total_weight-eq :
    (a : ℕ) (cs : List CandidateInfo)
    → a + weight_sum cs < 2 ^ 63
    → total_weight (pos a) cs ≡ pos (a + weight_sum cs)
unfolding total_weight
total_weight-eq a [] h = ground arith
total_weight-eq a (c ∷ cs) h =
    rw (wrap_share a c (omega arith))
      (rw (total_weight-eq (a + share c) cs (omega arith)) (ground arith))

-- The draw `r` lands at index `j`: it is at or above the shares before `j`, and below them and
-- the share at `j` together.
pub record Lands (r a : ℕ) (cs : List CandidateInfo) (c : CandidateInfo) (j : ℕ) : Type 0 where
  pub at_index : get_elem? cs j ≡ some c
  pub above : a + weight_sum (take j cs) ≤ r
  pub below : r < a + weight_sum (take j cs) + share c

pub scan_weights-Lands :
    (r a i : ℕ) (cs : List CandidateInfo)
    → a ≤ r
    → r < a + weight_sum cs
    → a + weight_sum cs < 2 ^ 63
    → (c : CandidateInfo) × (j : ℕ) × (scan_weights (pos r) (pos a) i cs ≡ some (c, i + j))
      × Lands r a cs c j
unfolding scan_weights
scan_weights-Lands r a i [] lo hi fit = absurd (omega arith)
scan_weights-Lands r a i (c ∷ cs) lo hi fit =
    elim (Bool-cases (ltb_ℤ (pos r) (pos (a + share c)))) [
      | inl here ↦ (
        c,
        0,
        rw (wrap_share a c (omega arith), here) (ground arith),
        record { at_index = refl; above = omega arith; below = ground arith },
      )
      | inr there ↦
          let (d, j, e, l) =
            scan_weights-Lands r (a + share c) (suc i) cs (ground arith) (omega arith)
              (omega arith) in
          (
            d,
            suc j,
            rw (wrap_share a c (omega arith), there) (rw e (ground arith)),
            record {
              at_index = l.at_index;
              above = omega (arith, l.above);
              below = omega (arith, l.below);
            },
          )
    ]

-- A random source whose `Intn(n)` is below `n`.
abbrev pub InRange : (ℕ → ℕ → ℕ) → Type 0
InRange rand = (k n : ℕ) → 0 < n → rand k n < n

draw_weighted-Lands :
    (rand : ℕ → ℕ → ℕ) (n : ℕ) (c : CandidateInfo) (cs : List CandidateInfo) (s : State)
    → InRange rand
    → n ≡ weight_sum (c ∷ cs)
    → weight_sum (c ∷ cs) < 2 ^ 63
    → (d : CandidateInfo) × (j : ℕ) × (draw_weighted rand (pos n) (c ∷ cs) s
        ≡ (chosen d j, record s { drawn = s.drawn + 1 }))
      × Lands (rand s.drawn n) 0 (c ∷ cs) d j
unfolding draw_weighted
draw_weighted-Lands rand zero c cs s ok e fit = absurd (omega (arith, share_pos c))
draw_weighted-Lands rand (suc n) c cs s ok e fit =
    let in_range = ok s.drawn (suc n) (omega arith) in
    let (d, j, found, l) =
      scan_weights-Lands (rand s.drawn (suc n)) 0 0 (c ∷ cs) (omega arith) (omega arith)
        (omega arith) in
    (d, j, rw found (ground (arith, zero-add j)), l)

-- With candidates, and weights whose sum fits an `int`, the draw `r` below that sum picks the
-- candidate whose share of the sum `r` falls into: every candidate is picked by as many draws as
-- its weight (1 for a weight of 0 or less), and there is no panic.
pub weighted_random_idx-Lands :
    (rand : ℕ → ℕ → ℕ) (c : CandidateInfo) (cs : List CandidateInfo) (s : State)
    → InRange rand
    → weight_sum (c ∷ cs) < 2 ^ 63
    → (d : CandidateInfo) × (j : ℕ) × (weighted_random_idx rand (c ∷ cs) s
        ≡ (chosen d j, record s { drawn = s.drawn + 1 }))
      × Lands (rand s.drawn (weight_sum (c ∷ cs))) 0 (c ∷ cs) d j
unfolding weighted_random_idx
weighted_random_idx-Lands rand c cs s ok fit =
    rw (total_weight-eq 0 (c ∷ cs) (omega arith), zero-add)
      (draw_weighted-Lands rand (weight_sum (c ∷ cs)) c cs s ok refl fit)
