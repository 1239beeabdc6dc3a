-- ===== src/Lb/Select.antt =====
-- `Select` and `SelectN` under every policy.
use mathlib.Core.List.Perm
use mathlib.Core.List.{Perm}
use mathlib.Core.Path.{subst}
use modelserver.Prelude.{
  Option, some_inj, ℕ, zero, suc, ◌+◌, ◌^◌, ◌%◌, ◌≤◌, ◌<◌, min, String, ◌≡◌, refl, ap, inl, inr,
  List, [], ◌∷◌, map, ◌++◌, none, some, arith, length, get_elem?, str_eq, Bool-cases,
}
use modelserver.Prelude.Int.{pos, negsuc, int_of_uint64}
use modelserver.Types.{Upstream, lb_round_robin, lb_least_conn}
use modelserver.Lb.Balancer.{
  CandidateInfo, State, Pick, chosen, at_remainder, round_robin_idx, pick, remove_at, select_rounds,
  prepend, select_n,
}
use modelserver.Lb.Weighted.{weight_sum, InRange, weighted_random_idx-Lands}
use modelserver.Lb.LeastConn.{least_conn_idx-AtMost}

-- No weights or counts near the ends of their machine types, for `n` picks to come.
pub record Calm (rand : ℕ → ℕ → ℕ) (n : ℕ) (cs : List CandidateInfo) (s : State) : Type 0 where
  pub draws : InRange rand
  pub weights : weight_sum cs < 2 ^ 63
  pub counts : s.counter + n < 2 ^ 63

get_elem?-total {ℓ} :
    {A : Type ℓ} (xs : List A) (i : ℕ) → i < length xs → (x : A) × (get_elem? xs i ≡ some x)
get_elem?-total [] i h = elim h [ ]
get_elem?-total (x ∷ xs) zero h = (x, refl)
get_elem?-total (x ∷ xs) (suc i) h = get_elem?-total xs i (omega arith)

-- A pick of a candidate of the list, and the state after it.
abbrev Picks : List CandidateInfo → State → Pick × State → Type 0
Picks cs s r =
    (d : CandidateInfo) × (j : ℕ) × (r.0 ≡ chosen d j)
    × (get_elem? cs j ≡ some d)
    × (r.1.counter ≤ s.counter + 1)

int_of_uint64_small : (n : ℕ) → n < 2 ^ 63 → int_of_uint64 n ≡ pos n
int_of_uint64_small n h = ground arith

round_robin_idx-Picks :
    (c : CandidateInfo) (cs : List CandidateInfo) (s : State)
    → s.counter + 1 < 2 ^ 63
    → Picks (c ∷ cs) s (round_robin_idx (c ∷ cs) s)
unfolding round_robin_idx at_remainder
round_robin_idx-Picks c cs s h =
    let i = s.counter % length (c ∷ cs) in
    let (d, e) = get_elem?-total (c ∷ cs) i (omega arith) in
    rw (int_of_uint64_small s.counter (omega arith)) (d, i, rw e, e, omega arith)

pick-Picks :
    (rand : ℕ → ℕ → ℕ) (policy : String) (c : CandidateInfo) (cs : List CandidateInfo) (s : State)
    → Calm rand 1 (c ∷ cs) s
    → Picks (c ∷ cs) s (pick rand policy (c ∷ cs) s)
unfolding pick
pick-Picks rand policy c cs s calm = elim (Bool-cases (str_eq policy lb_round_robin)) [
  | inl rr ↦ rw rr (round_robin_idx-Picks c cs s calm.counts)
  | inr not_rr ↦ elim (Bool-cases (str_eq policy lb_least_conn)) [
    | inl lc ↦
        let (d, j, e, at, _) = least_conn_idx-AtMost c cs in
        rw (not_rr, lc) (d, j, e, at, omega arith)
    | inr not_lc ↦
        let (d, j, e, l) = weighted_random_idx-Lands rand c cs s calm.draws calm.weights in
        rw (not_rr, not_lc) (rw e (d, j, refl, l.at_index, omega arith))
  ]
]

weight_sum-remove_at :
    (i : ℕ) (cs : List CandidateInfo) → weight_sum (remove_at i cs) ≤ weight_sum cs
weight_sum-remove_at i [] = omega arith
weight_sum-remove_at zero (c ∷ cs) = omega arith
weight_sum-remove_at (suc i) (c ∷ cs) = omega (arith, weight_sum-remove_at i cs)

length-remove_at :
    (i : ℕ) (cs : List CandidateInfo) {c : CandidateInfo}
    → get_elem? cs i ≡ some c
    → suc (length (remove_at i cs)) ≡ length cs
length-remove_at i [] h = cc
length-remove_at zero (c ∷ cs) h = refl
length-remove_at (suc i) (c ∷ cs) h = omega (arith, length-remove_at i cs h)

remove_at-perm :
    (i : ℕ) (cs : List CandidateInfo) {c : CandidateInfo}
    → get_elem? cs i ≡ some c
    → Perm (c ∷ remove_at i cs) cs
remove_at-perm i [] h = cc
remove_at-perm zero (c ∷ cs) h =
    subst (λ d. Perm (d ∷ cs) (c ∷ cs)) (some_inj h) (Perm.refl (c ∷ cs))
remove_at-perm (suc i) (c ∷ cs) h =
    Perm.trans (Perm.swap c _ (remove_at i cs)) (Perm.cons c (remove_at-perm i cs h))

-- What a ranking of `n` of the candidates is: the upstreams of `n` of them, each used at most as
-- often as it is a candidate; `rest` are those that are left.
pub record Ranks (n : ℕ) (cs : List CandidateInfo) (r : Option (List Upstream)) : Type 0 where
  pub ranked : List CandidateInfo
  pub rest : List CandidateInfo
  pub result : r ≡ some (map (λ c. c.upstream) ranked)
  pub count : length ranked ≡ n
  pub among : Perm (ranked ++ rest) cs

select_rounds_chosen :
    (rand : ℕ → ℕ → ℕ) (policy : String) (n : ℕ) (c d : CandidateInfo) (j : ℕ)
    (cs : List CandidateInfo) (s : State)
    → (pick rand policy (c ∷ cs) s).0 ≡ chosen d j
    → select_rounds rand policy (suc n) (c ∷ cs) s
      ≡ prepend d.upstream
          (select_rounds rand policy n (remove_at j (c ∷ cs)) (pick rand policy (c ∷ cs) s).1)
unfolding select_rounds
select_rounds_chosen rand policy n c d j cs s h = rw (h, select_rounds)

Ranks-prepend :
    (n j : ℕ) (d : CandidateInfo) (cs : List CandidateInfo) (r : Option (List Upstream) × State)
    → get_elem? cs j ≡ some d
    → Ranks n (remove_at j cs) r.0
    → Ranks (suc n) cs (prepend d.upstream r).0
Ranks-prepend n j d cs (none, s) h k = cc (k.result)
Ranks-prepend n j d cs (some us, s) h k = record {
  ranked = d ∷ k.ranked;
  rest = k.rest;
  result = ap (λ vs. some (d.upstream ∷ vs)) (some_inj k.result);
  count = omega (arith, k.count);
  among = Perm.trans (Perm.cons d k.among) (remove_at-perm j cs h);
}

select_rounds-Ranks :
    (rand : ℕ → ℕ → ℕ) (policy : String) (n : ℕ) (cs : List CandidateInfo) (s : State)
    → n ≤ length cs
    → Calm rand n cs s
    → Ranks n cs (select_rounds rand policy n cs s).0
unfolding select_rounds
select_rounds-Ranks rand policy zero cs s h calm = record {
  ranked = [];
  rest = cs;
  result = refl;
  count = refl;
  among = Perm.refl cs;
}
select_rounds-Ranks rand policy (suc n) [] s h calm = absurd (omega arith)
select_rounds-Ranks rand policy (suc n) (c ∷ cs) s h calm =
    let once : Calm rand 1 (c ∷ cs) s = record {
      draws = calm.draws;
      weights = calm.weights;
      counts = omega (arith, calm.counts);
    } in
    let (d, j, e, at, count) = pick-Picks rand policy c cs s once in
    rw (select_rounds_chosen rand policy n c d j cs s e) (
      Ranks-prepend n j d (c ∷ cs) _ at (
        select_rounds-Ranks rand policy n (remove_at j (c ∷ cs)) (pick rand policy (c ∷ cs) s).1
          (omega (arith, length-remove_at j (c ∷ cs) at))
          (record {
            draws = calm.draws;
            weights = omega (arith, weight_sum-remove_at j (c ∷ cs), calm.weights);
            counts = omega (arith, calm.counts, count);
          })))

-- Away from the ends of the machine types, `SelectN` does not panic under any policy: it ranks
-- `n` of the candidates, or all of them where there are fewer, and none of them twice.
pub select_n-Ranks :
    (rand : ℕ → ℕ → ℕ) (policy : String) (cs : List CandidateInfo) (n : ℕ) (s : State)
    → Calm rand (min n (length cs)) cs s
    → Ranks (min n (length cs)) cs (select_n rand policy cs (pos n) s).0
unfolding select_n
select_n-Ranks rand policy [] n s calm = record {
  ranked = [];
  rest = [];
  result = refl;
  count = omega arith;
  among = Perm.refl [];
}
select_n-Ranks rand policy (c ∷ cs) n s calm =
    select_rounds-Ranks rand policy (min n (length (c ∷ cs))) (c ∷ cs) s (omega arith) calm

-- A negative `n` is a panic, as soon as there is a candidate.
pub select_n_negative :
    (rand : ℕ → ℕ → ℕ) (policy : String) (c : CandidateInfo) (cs : List CandidateInfo) (n : ℕ)
    (s : State)
    → (select_n rand policy (c ∷ cs) (negsuc n) s).0 ≡ none
unfolding select_n
select_n_negative rand policy c cs n s = refl
