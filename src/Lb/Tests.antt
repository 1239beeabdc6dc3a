-- ===== src/Lb/Tests.antt =====
-- Runs of the balancer, the tracker and the metrics, and the theorems at them.
use modelserver.Prelude.{ℕ, String, refl, List, [], ◌∷◌, none, arith, true, false}
use modelserver.Prelude.Int.{ℤ, pos, ◌≤ℤ◌}
use modelserver.Types.{Upstream}
use modelserver.Lb.Balancer.{CandidateInfo, State, select_n}
use modelserver.Lb.Select.{Ranks, select_n-Ranks}
use modelserver.Lb.Tracker.{
  Tracker, initial, count, acquire, Reach, here, next, acquires, enters, Reach-IsBounded, set_phase,
  loading,
}
use modelserver.Lb.Metrics.{Metrics, Outcome}

abbrev upstream : String → Upstream
upstream id = record {
  id = id;
  provider = "openai";
  name = id;
  base_url = "https://api.test";
  api_key_encrypted = [];
  proxy_mode = "";
  supported_models = [];
  model_map = [];
  weight = pos 1;
  max_concurrent = pos 0;
  status = "active";
}

abbrev candidate : String → ℤ → ℤ → CandidateInfo
candidate id weight conns = record {
  upstream = upstream id;
  weight = weight;
  is_backup = false;
  active_conns = conns;
}

abbrev first : CandidateInfo
first = candidate "a" (pos 0) (pos 4)

abbrev others : List CandidateInfo
others = candidate "b" (pos 5) (pos 2) ∷ candidate "c" (pos 3) (pos 2) ∷ []

abbrev fresh : State
fresh = record { counter = 0; drawn = 0 }

abbrev zeros : ℕ → ℕ → ℕ
zeros k n = 0

select_n-Ranks_example :
    Ranks 2 (first ∷ others) (select_n zeros "round_robin" (first ∷ others) (pos 2) fresh).0
select_n-Ranks_example =
    select_n-Ranks zeros "round_robin" (first ∷ others) 2 fresh
      (record { draws = λ k n h. h; weights = ground arith; counts = ground arith })

abbrev entered : Tracker
entered = record (acquire initial "a") {
  phases = set_phase (acquire initial "a").phases 0 (loading "a");
}

two_steps : Reach 2 entered
unfolding acquire
two_steps = next (next here (acquires "a")) (enters 0 "a" refl)

Reach-IsBounded_example : (pos 0 ≤ℤ count entered "a") × (count entered "a" ≤ℤ pos 2)
Reach-IsBounded_example = Reach-IsBounded 2 entered "a" two_steps (ground arith)

abbrev no_metrics : Metrics
no_metrics id = none

abbrev outcomes : List Outcome
outcomes =
    record { upstream_id = "a"; at = 1; succeeded = true }
    ∷ record { upstream_id = "a"; at = 2; succeeded = false }
    ∷ record { upstream_id = "b"; at = 3; succeeded = true }
    ∷ []
