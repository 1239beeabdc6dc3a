-- ===== src/Lb/Balancer.antt =====
-- `Balancer` of internal/proxy/lb/balancer.go. The state is the atomic round-robin counter and the
-- number of draws made so far; the random source is an argument, `rand k n` for the k-th call of
-- `rand.Intn(n)`. A pick is a value, nothing (a nil upstream), or a panic of the runtime.
use modelserver.Prelude.{
  ℕ, zero, suc, ◌+◌, ◌%◌, ◌^◌, min, String, Bool, ◌&&◌, ◌||◌, List, [], ◌∷◌, Option, none, some,
  length, get_elem?, str_eq, ◌==◌, if◌then◌else◌,
}
use modelserver.Prelude.Int.{ℤ, pos, negsuc, ◌+ℤ◌, ltb_ℤ, leb_ℤ, eqb_ℤ, wrap_int64, int_of_uint64}
use modelserver.Types.{Upstream, lb_round_robin, lb_least_conn}

pub record CandidateInfo : Type 0 where
  pub upstream : Upstream
  pub weight : ℤ
  pub is_backup : Bool
  pub active_conns : ℤ

pub record State : Type 0 where
  pub counter : ℕ
  pub drawn : ℕ

pub data Pick : Type 0 where
  panicked : Pick
  nothing : Pick
  chosen : CandidateInfo → ℕ → Pick

-- The weight that the draw uses: at least 1.
abbrev pub effective_weight : CandidateInfo → ℤ
effective_weight c = if leb_ℤ c.weight (pos 0) then pos 1 else c.weight

-- The first loop of `weightedRandomIdx`; `int` addition wraps.
unfoldable pub total_weight : ℤ → List CandidateInfo → ℤ
total_weight acc [] = acc
total_weight acc (c ∷ cs) = total_weight (wrap_int64 (acc +ℤ effective_weight c)) cs

-- Its second loop, at index `i` with the sum of the weights before.
unfoldable pub scan_weights : ℤ → ℤ → ℕ → List CandidateInfo → Option (CandidateInfo × ℕ)
scan_weights r cumulative i [] = none
scan_weights r cumulative i (c ∷ cs) =
    let sum = wrap_int64 (cumulative +ℤ effective_weight c) in
    let rest = scan_weights r sum (suc i) cs in if ltb_ℤ r sum then some (c, i) else rest

-- `candidates[len(candidates)-1]`
unfoldable pub last_candidate : ℕ → CandidateInfo → List CandidateInfo → Pick
last_candidate i c [] = chosen c i
last_candidate i c (d ∷ ds) = last_candidate (suc i) d ds

abbrev pub or_last : Option (CandidateInfo × ℕ) → Pick → Pick
or_last (some (d, i)) last = chosen d i
or_last none last = last

-- `rand.Intn(total)` on, by the sign of the total: a panic where it is negative.
unfoldable pub draw_weighted : (ℕ → ℕ → ℕ) → ℤ → List CandidateInfo → State → Pick × State
unfolding scan_weights last_candidate
draw_weighted rand total [] s = (nothing, s)
draw_weighted rand (pos zero) (c ∷ cs) s = (nothing, s)
draw_weighted rand (pos (suc n)) (c ∷ cs) s = (
  or_last (scan_weights (pos (rand s.drawn (suc n))) (pos 0) 0 (c ∷ cs)) (last_candidate 0 c cs),
  record s { drawn = s.drawn + 1 },
)
draw_weighted rand (negsuc n) (c ∷ cs) s = (panicked, s)

-- `weightedRandomIdx`
unfoldable pub weighted_random_idx : (ℕ → ℕ → ℕ) → List CandidateInfo → State → Pick × State
unfolding total_weight draw_weighted
weighted_random_idx rand cs s = draw_weighted rand (total_weight (pos 0) cs) cs s

abbrev pub index_or_panic : Option CandidateInfo → ℕ → Pick
index_or_panic none i = panicked
index_or_panic (some c) i = chosen c i

-- `candidates[n % len(candidates)]` for an `int` n: a negative n leaves a negative remainder, a
-- panic unless the remainder is 0, and no candidates a division by zero.
unfoldable pub at_remainder : ℤ → List CandidateInfo → Pick
at_remainder n [] = panicked
at_remainder (pos n) (c ∷ cs) =
    index_or_panic (get_elem? (c ∷ cs) (n % length (c ∷ cs))) (n % length (c ∷ cs))
at_remainder (negsuc n) (c ∷ cs) = if suc n % length (c ∷ cs) == 0 then chosen c 0 else panicked

-- `roundRobinIdx`; the atomic counter is a `uint64`.
unfoldable pub round_robin_idx : List CandidateInfo → State → Pick × State
unfolding at_remainder
round_robin_idx cs s =
    (at_remainder (int_of_uint64 s.counter) cs, record s { counter = (s.counter + 1) % 2 ^ 64 })

-- The test of `leastConnIdx`: fewer connections, or as many and a higher weight.
unfoldable pub improves : CandidateInfo → CandidateInfo → Bool
improves c best =
    ltb_ℤ c.active_conns best.active_conns
    || (eqb_ℤ c.active_conns best.active_conns && ltb_ℤ best.weight c.weight)

-- The loop of `leastConnIdx` from index `i`, with the best candidate so far.
unfoldable pub least_conn_from : CandidateInfo → ℕ → ℕ → List CandidateInfo → CandidateInfo × ℕ
unfolding improves
least_conn_from best best_idx i [] = (best, best_idx)
least_conn_from best best_idx i (c ∷ cs) =
    least_conn_from (if improves c best then c else best) (if improves c best then i else best_idx)
      (suc i) cs

-- `leastConnIdx`
unfoldable pub least_conn_idx : List CandidateInfo → Pick
unfolding least_conn_from
least_conn_idx [] = panicked
least_conn_idx (c ∷ cs) = let (d, i) = least_conn_from c 0 1 cs in chosen d i

-- The switch on the policy in `Select` and `SelectN`.
unfoldable pub pick : (ℕ → ℕ → ℕ) → String → List CandidateInfo → State → Pick × State
unfolding weighted_random_idx round_robin_idx least_conn_idx
pick rand policy cs s =
    if str_eq policy lb_round_robin
    then round_robin_idx cs s
    else if str_eq policy lb_least_conn
    then (least_conn_idx cs, s)
    else weighted_random_idx rand cs s

-- `Select`
unfoldable pub select : (ℕ → ℕ → ℕ) → String → List CandidateInfo → State → Pick × State
select rand policy [] s = (nothing, s)
select rand policy (c ∷ cs) s = pick rand policy (c ∷ cs) s

-- `append(remaining[:i], remaining[i+1:]...)`
abbrev pub remove_at {ℓ} : {A : Type ℓ} → ℕ → List A → List A
remove_at i [] = []
remove_at zero (x ∷ xs) = xs
remove_at (suc i) (x ∷ xs) = x ∷ remove_at i xs

abbrev pub prepend : Upstream → Option (List Upstream) × State → Option (List Upstream) × State
prepend u (none, s) = (none, s)
prepend u (some us, s) = (some (u ∷ us), s)

-- The loop of `SelectN`, for the rounds that are left. `none` is a panic.
unfoldable pub select_rounds :
    (ℕ → ℕ → ℕ) → String → ℕ → List CandidateInfo → State → Option (List Upstream) × State
select_rounds rand policy zero cs s = (some [], s)
select_rounds rand policy (suc n) [] s = (some [], s)
select_rounds rand policy (suc n) (c ∷ cs) s =
    let (p, s') = pick rand policy (c ∷ cs) s in
    elim p [
      | panicked ↦ (none, s')
      | nothing ↦ select_rounds rand policy n (c ∷ cs) s'
      | chosen d i ↦ prepend d.upstream (select_rounds rand policy n (remove_at i (c ∷ cs)) s')
    ]

-- `SelectN`. A negative `n` is a negative capacity, at which `make` panics.
unfoldable pub select_n :
    (ℕ → ℕ → ℕ) → String → List CandidateInfo → ℤ → State → Option (List Upstream) × State
select_n rand policy [] n s = (some [], s)
select_n rand policy (c ∷ cs) (pos n) s =
    select_rounds rand policy (min n (length (c ∷ cs))) (c ∷ cs) s
select_n rand policy (c ∷ cs) (negsuc n) s = (none, s)
