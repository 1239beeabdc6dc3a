-- ===== src/Lb/Members.antt =====
-- Whatever `SelectN` of internal/proxy/lb/balancer.go draws, it returns candidates.
use modelserver.Prelude.{
  ℕ, zero, suc, ◌%◌, min, String, inl, inr, List, [], ◌∷◌, Option, none, some, length, get_elem?,
  str_eq, All, Bool-cases, ◌==◌,
}
use modelserver.Prelude.Int.{ℤ, pos, negsuc, ◌+ℤ◌, wrap_int64, ltb_ℤ, int_of_uint64}
use modelserver.Types.{Upstream, lb_round_robin, lb_least_conn}
use modelserver.Lb.Balancer.{
  CandidateInfo, State, Pick, panicked, nothing, chosen, effective_weight, scan_weights,
  last_candidate, draw_weighted, weighted_random_idx, at_remainder, round_robin_idx, improves,
  least_conn_from, least_conn_idx, pick, or_last, index_or_panic, remove_at, prepend, select_rounds,
  select_n,
}

module _ (P : Upstream → Type 0) where
  abbrev pub Candidates : List CandidateInfo → Type 0
  Candidates cs = All (λ c. P c.upstream) cs

  abbrev Picked : Pick → Type 0
  Picked panicked = Unit
  Picked nothing = Unit
  Picked (chosen c i) = P c.upstream

  abbrev pub Listed : Option (List Upstream) → Type 0
  Listed none = Unit
  Listed (some us) = All P us

  abbrev Scanned : Option (CandidateInfo × ℕ) → Type 0
  Scanned none = Unit
  Scanned (some (c, i)) = P c.upstream

  scan_weights-Scanned :
      (r cumulative : ℤ) (i : ℕ) (cs : List CandidateInfo)
      → Candidates cs
      → Scanned (scan_weights r cumulative i cs)
  unfolding scan_weights
  scan_weights-Scanned r cumulative i [] h = tt
  scan_weights-Scanned r cumulative i (c ∷ cs) h =
      let sum = wrap_int64 (cumulative +ℤ effective_weight c) in
      elim (Bool-cases (ltb_ℤ r sum)) [
        | inl here ↦ rw here h.0
        | inr later ↦ rw later (scan_weights-Scanned r sum (suc i) cs h.1)
      ]

  last_candidate-Picked :
      (i : ℕ) (c : CandidateInfo) (cs : List CandidateInfo)
      → P c.upstream
      → Candidates cs
      → Picked (last_candidate i c cs)
  unfolding last_candidate
  last_candidate-Picked i c [] p h = p
  last_candidate-Picked i c (d ∷ ds) p h = last_candidate-Picked (suc i) d ds h.0 h.1

  or_last-Picked :
      (o : Option (CandidateInfo × ℕ)) (last : Pick)
      → Scanned o
      → Picked last
      → Picked (or_last o last)
  or_last-Picked none last h k = k
  or_last-Picked (some (c, i)) last h k = h

  draw_weighted-Picked :
      (rand : ℕ → ℕ → ℕ) (total : ℤ) (cs : List CandidateInfo) (s : State)
      → Candidates cs
      → Picked (draw_weighted rand total cs s).0
  unfolding draw_weighted
  draw_weighted-Picked rand total [] s h = tt
  draw_weighted-Picked rand (pos zero) (c ∷ cs) s h = tt
  draw_weighted-Picked rand (pos (suc n)) (c ∷ cs) s h =
      or_last-Picked _ _ (scan_weights-Scanned (pos (rand s.drawn (suc n))) (pos 0) 0 (c ∷ cs) h)
        (last_candidate-Picked 0 c cs h.0 h.1)
  draw_weighted-Picked rand (negsuc n) (c ∷ cs) s h = tt

  get_elem?-Picked :
      (cs : List CandidateInfo) (i j : ℕ)
      → Candidates cs
      → Picked (index_or_panic (get_elem? cs i) j)
  get_elem?-Picked [] i j h = tt
  get_elem?-Picked (c ∷ cs) zero j h = h.0
  get_elem?-Picked (c ∷ cs) (suc i) j h = get_elem?-Picked cs i j h.1

  at_remainder-Picked :
      (n : ℤ) (cs : List CandidateInfo) → Candidates cs → Picked (at_remainder n cs)
  unfolding at_remainder
  at_remainder-Picked n [] h = tt
  at_remainder-Picked (pos n) (c ∷ cs) h = get_elem?-Picked (c ∷ cs) _ _ h
  at_remainder-Picked (negsuc n) (c ∷ cs) h = elim (Bool-cases (suc n % length (c ∷ cs) == 0)) [
    | inl whole ↦ rw whole h.0
    | inr part ↦ rw part tt
  ]

  least_conn_from-Picked :
      (best : CandidateInfo) (best_idx i : ℕ) (cs : List CandidateInfo)
      → P best.upstream
      → Candidates cs
      → P (least_conn_from best best_idx i cs).0.upstream
  unfolding least_conn_from
  least_conn_from-Picked best best_idx i [] p h = p
  least_conn_from-Picked best best_idx i (c ∷ cs) p h = elim (Bool-cases (improves c best)) [
    | inl better ↦ rw (better, least_conn_from) (least_conn_from-Picked c i (suc i) cs h.0 h.1)
    | inr worse ↦
        rw (worse, least_conn_from) (least_conn_from-Picked best best_idx (suc i) cs p h.1)
  ]

  least_conn_idx-Picked : (cs : List CandidateInfo) → Candidates cs → Picked (least_conn_idx cs)
  unfolding least_conn_idx
  least_conn_idx-Picked [] h = tt
  least_conn_idx-Picked (c ∷ cs) h = least_conn_from-Picked c 0 1 cs h.0 h.1

  pick-Picked :
      (rand : ℕ → ℕ → ℕ) (policy : String) (cs : List CandidateInfo) (s : State)
      → Candidates cs
      → Picked (pick rand policy cs s).0
  unfolding pick weighted_random_idx round_robin_idx
  pick-Picked rand policy cs s h = elim (Bool-cases (str_eq policy lb_round_robin)) [
    | inl rr ↦ rw rr (at_remainder-Picked (int_of_uint64 s.counter) cs h)
    | inr not_rr ↦ elim (Bool-cases (str_eq policy lb_least_conn)) [
      | inl lc ↦ rw (not_rr, lc) (least_conn_idx-Picked cs h)
      | inr not_lc ↦ rw (not_rr, not_lc) (draw_weighted-Picked rand _ cs s h)
    ]
  ]

  remove_at-Candidates :
      (i : ℕ) (cs : List CandidateInfo) → Candidates cs → Candidates (remove_at i cs)
  remove_at-Candidates i [] h = tt
  remove_at-Candidates zero (c ∷ cs) h = h.1
  remove_at-Candidates (suc i) (c ∷ cs) h = (h.0, remove_at-Candidates i cs h.1)

  prepend-Listed :
      (u : Upstream) (r : Option (List Upstream) × State)
      → P u
      → Listed r.0
      → Listed (prepend u r).0
  prepend-Listed u (none, s) p h = tt
  prepend-Listed u (some us, s) p h = (p, h)

  round-Listed :
      (rand : ℕ → ℕ → ℕ) (policy : String) (n : ℕ) (cs : List CandidateInfo) (p : Pick) (s : State)
      → Candidates cs
      → Picked p
      → ((ds : List CandidateInfo) (t : State)
          → Candidates ds
          → Listed (select_rounds rand policy n ds t).0)
      → Listed
          (elim p as (λ x. Option (List Upstream) × State) [
            | panicked ↦ (none, s)
            | nothing ↦ select_rounds rand policy n cs s
            | chosen d i ↦ prepend d.upstream (select_rounds rand policy n (remove_at i cs) s)
          ]).0
  round-Listed rand policy n cs panicked s h k later = tt
  round-Listed rand policy n cs nothing s h k later = later cs s h
  round-Listed rand policy n cs (chosen d i) s h k later =
      prepend-Listed d.upstream _ k (later (remove_at i cs) s (remove_at-Candidates i cs h))

  select_rounds-Listed :
      (rand : ℕ → ℕ → ℕ) (policy : String) (n : ℕ) (cs : List CandidateInfo) (s : State)
      → Candidates cs
      → Listed (select_rounds rand policy n cs s).0
  unfolding select_rounds
  select_rounds-Listed rand policy zero cs s h = tt
  select_rounds-Listed rand policy (suc n) [] s h = tt
  select_rounds-Listed rand policy (suc n) (c ∷ cs) s h =
      round-Listed rand policy n (c ∷ cs) (pick rand policy (c ∷ cs) s).0
        (pick rand policy (c ∷ cs) s).1 h (pick-Picked rand policy (c ∷ cs) s h)
        (select_rounds-Listed rand policy n)

  pub select_n-Listed :
      (rand : ℕ → ℕ → ℕ) (policy : String) (cs : List CandidateInfo) (n : ℤ) (s : State)
      → Candidates cs
      → Listed (select_n rand policy cs n s).0
  unfolding select_n
  select_n-Listed rand policy [] n s h = tt
  select_n-Listed rand policy (c ∷ cs) (pos n) s h =
      select_rounds-Listed rand policy (min n (length (c ∷ cs))) (c ∷ cs) s h
  select_n-Listed rand policy (c ∷ cs) (negsuc n) s h = tt
