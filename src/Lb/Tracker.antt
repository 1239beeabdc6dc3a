-- ===== src/Lb/Tracker.antt =====
-- `ConnectionTracker` of internal/proxy/lb/connection_tracker.go: the counters as a function of the
-- upstream's id (an id that is not in the sync.Map has a fresh counter, at 0), and the goroutines
-- that are inside `Release`, between its load and its compare-and-swap.
use mathlib.Core.Path.{subst}
use modelserver.Prelude.{
  ℕ, suc, ◌^◌, ◌<◌, String, ◌≡◌, true, arith, str_eq, ◌==◌, Bool-cases, inl, inr, if◌then◌else◌,
}
use modelserver.Prelude.Int.{ℤ, pos, ◌+ℤ◌, ◌-ℤ◌, ◌≤ℤ◌, leb_ℤ, eqb_ℤ, wrap_int64}

-- Where one goroutine stands: outside, before the load of its loop, or holding the loaded value.
pub data Phase : Type 0 where
  outside : Phase
  loading : String → Phase
  loaded : String → ℤ → Phase

pub record Tracker : Type 0 where
  pub counts : String → ℤ
  pub phases : ℕ → Phase

abbrev pub set_count : (String → ℤ) → String → ℤ → String → ℤ
set_count counts id v j = if str_eq id j then v else counts j

abbrev pub set_phase : (ℕ → Phase) → ℕ → Phase → ℕ → Phase
set_phase phases t p u = if t == u then p else phases u

-- `Count`
unfoldable pub count : Tracker → String → ℤ
count k id = k.counts id

-- `Acquire`: one atomic addition.
unfoldable pub acquire : Tracker → String → Tracker
acquire k id = record k { counts = set_count k.counts id (wrap_int64 (k.counts id +ℤ pos 1)) }

-- The load in `Release`, which returns at zero or below.
unfoldable pub release_load : Tracker → ℕ → String → Tracker
release_load k t id = record k {
  phases =
      set_phase k.phases t
        (if leb_ℤ (k.counts id) (pos 0) then outside else loaded id (k.counts id));
}

-- `CompareAndSwap(cur, cur-1)`: back to the load where the counter has moved.
unfoldable pub release_swap : Tracker → ℕ → String → ℤ → Tracker
release_swap k t id cur =
    if eqb_ℤ (k.counts id) cur
    then record k {
      counts = set_count k.counts id (wrap_int64 (cur -ℤ pos 1));
      phases = set_phase k.phases t outside;
    }
    else record k { phases = set_phase k.phases t (loading id) }

-- The atomic steps of any number of goroutines, in any order.
pub data Step (k : Tracker) : Tracker → Type 0 where
  acquires : (id : String) → Step k (acquire k id)
  enters :
      (t : ℕ) (id : String)
      → k.phases t ≡ outside
      → Step k (record k { phases = set_phase k.phases t (loading id) })
  loads : (t : ℕ) (id : String) → k.phases t ≡ loading id → Step k (release_load k t id)
  swaps :
      (t : ℕ) (id : String) (cur : ℤ)
      → k.phases t ≡ loaded id cur
      → Step k (release_swap k t id cur)

-- The states after `n` steps from an empty tracker.
abbrev pub initial : Tracker
initial = record { counts = λ id. pos 0; phases = λ t. outside }

pub data Reach : ℕ → Tracker → Type 0 where
  here : Reach 0 initial
  next : {n : ℕ} {k l : Tracker} → Reach n k → Step k l → Reach (suc n) l

-- What a goroutine holds is positive.
abbrev pub HoldsPositive : Phase → Type 0
HoldsPositive outside = Unit
HoldsPositive (loading id) = Unit
HoldsPositive (loaded id v) = pos 1 ≤ℤ v

-- After `n` steps the counters lie between 0 and `n`.
pub record IsBounded (n : ℕ) (k : Tracker) : Type 0 where
  pub nonneg : (id : String) → pos 0 ≤ℤ k.counts id
  pub bounded : (id : String) → k.counts id ≤ℤ pos n
  pub holding : (t : ℕ) → HoldsPositive (k.phases t)

acquire-IsBounded :
    (n : ℕ) (k : Tracker) (id : String)
    → suc n < 2 ^ 63
    → IsBounded n k
    → IsBounded (suc n) (acquire k id)
unfolding acquire wrap_int64 ◌+ℤ◌
acquire-IsBounded n k id fit h = record {
  nonneg = λ j. ground (arith, h.nonneg id, h.nonneg j, h.bounded id);
  bounded = λ j. ground (arith, h.bounded id, h.bounded j, h.nonneg id);
  holding = h.holding;
}

set_phase-HoldsPositive :
    (phases : ℕ → Phase) (t : ℕ) (p : Phase)
    → HoldsPositive p
    → ((u : ℕ) → HoldsPositive (phases u))
    → (u : ℕ) → HoldsPositive (set_phase phases t p u)
set_phase-HoldsPositive phases t p hp h u = elim (Bool-cases (t == u)) [
  | inl same ↦ rw same hp
  | inr other ↦ rw other (h u)
]

later :
    (n : ℕ) (k : Tracker) (phases : ℕ → Phase)
    → ((u : ℕ) → HoldsPositive (phases u))
    → IsBounded n k
    → IsBounded (suc n) (record k { phases = phases })
later n k phases hp h = record {
  nonneg = h.nonneg;
  bounded = λ j. omega (arith, h.bounded j);
  holding = hp;
}

release_load-IsBounded :
    (n : ℕ) (k : Tracker) (t : ℕ) (id : String)
    → IsBounded n k
    → IsBounded (suc n) (release_load k t id)
unfolding release_load
release_load-IsBounded n k t id h =
    later n k _ (set_phase-HoldsPositive k.phases t _ (held (k.counts id)) h.holding) h
  where
    held : (v : ℤ) → HoldsPositive (if leb_ℤ v (pos 0) then outside else loaded id v)
    held v = ground arith

eqb-bound : (n : ℕ) (a b : ℤ) → eqb_ℤ a b ≡ true → a ≤ℤ pos n → b ≤ℤ pos n
eqb-bound n a b h k = ground arith

taken-bounds :
    (n : ℕ) (cur : ℤ)
    → suc n < 2 ^ 63
    → pos 1 ≤ℤ cur
    → cur ≤ℤ pos n
    → (pos 0 ≤ℤ wrap_int64 (cur -ℤ pos 1)) × (wrap_int64 (cur -ℤ pos 1) ≤ℤ pos n)
unfolding wrap_int64 ◌-ℤ◌
taken-bounds n cur fit h k = ground arith

release_swap-IsBounded :
    (n : ℕ) (k : Tracker) (t : ℕ) (id : String) (cur : ℤ)
    → suc n < 2 ^ 63
    → k.phases t ≡ loaded id cur
    → IsBounded n k
    → IsBounded (suc n) (release_swap k t id cur)
unfolding release_swap
release_swap-IsBounded n k t id cur fit e h = elim (Bool-cases (eqb_ℤ (k.counts id) cur)) [
  | inl same ↦
      let held : pos 1 ≤ℤ cur = subst HoldsPositive e (h.holding t) in
      let falls = taken-bounds n cur fit held (eqb-bound n (k.counts id) cur same (h.bounded id)) in
      rw same (record {
        nonneg = λ j. ground (arith, h.nonneg j, falls);
        bounded = λ j. ground (arith, h.bounded j, falls);
        holding = set_phase-HoldsPositive k.phases t outside tt h.holding;
      })
  | inr moved ↦
      rw moved (later n k _ (set_phase-HoldsPositive k.phases t (loading id) tt h.holding) h)
]

-- The state after `n` atomic steps.
Reach-IsBounded_lem : {n : ℕ} {k : Tracker} → Reach n k → n < 2 ^ 63 → IsBounded n k
Reach-IsBounded_lem here fit = record {
  nonneg = λ id. omega arith;
  bounded = λ id. omega arith;
  holding = λ t. tt;
}
Reach-IsBounded_lem (next {n} {k} r (acquires id)) fit =
    acquire-IsBounded n k id fit (Reach-IsBounded_lem r (omega arith))
Reach-IsBounded_lem (next {n} {k} r (enters t id at)) fit =
    let h = Reach-IsBounded_lem r (omega arith) in
    later n k _ (set_phase-HoldsPositive k.phases t (loading id) tt h.holding) h
Reach-IsBounded_lem (next {n} {k} r (loads t id at)) fit =
    release_load-IsBounded n k t id (Reach-IsBounded_lem r (omega arith))
Reach-IsBounded_lem (next {n} {k} r (swaps t id cur at)) fit =
    release_swap-IsBounded n k t id cur fit at (Reach-IsBounded_lem r (omega arith))

-- Under every interleaving of acquires and of the loads and swaps of concurrent releases, fewer
-- than 2^63 steps in all, no connection count is negative or above the number of steps.
pub Reach-IsBounded :
    (n : ℕ) (k : Tracker) (id : String)
    → Reach n k
    → n < 2 ^ 63
    → (pos 0 ≤ℤ count k id) × (count k id ≤ℤ pos n)
unfolding count
Reach-IsBounded n k id r fit = let h = Reach-IsBounded_lem r fit in (h.nonneg id, h.bounded id)
