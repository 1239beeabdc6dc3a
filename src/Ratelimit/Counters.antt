-- ===== src/Ratelimit/Counters.antt =====
-- `MemoryCounters` of internal/ratelimit/memory.go. The maps are functions of the key: a key that is
-- not in the map and a key with an empty slice read the same. Times and windows are nanoseconds.
use modelserver.Prelude.{
  ℕ, ◌+◌, String, ◌≡◌, refl, Bool, false, List, [], ◌∷◌, ◌++◌, arith, str_eq, keep, Bool-cases, inl,
  inr, if◌then◌else◌,
}
use modelserver.Prelude.Int.{ℤ, pos, ◌+ℤ◌, ◌-ℤ◌, ◌≤ℤ◌, ltb_ℤ, wrap_int64, int_laws}

pub record TokenEntry : Type 0 where
  pub at : ℤ
  pub count : ℤ

pub record MemoryCounters : Type 0 where
  pub requests : String → List ℤ
  pub tokens : String → List TokenEntry

-- `NewMemoryCounters`
abbrev pub new_memory_counters : MemoryCounters
new_memory_counters = record { requests = λ k. []; tokens = λ k. [] }

-- `AddRequest`
unfoldable pub add_request : ℤ → String → MemoryCounters → MemoryCounters
add_request now key c = record c {
  requests = λ k. if str_eq key k then c.requests k ++ now ∷ [] else c.requests k;
}

-- `AddTokens`
unfoldable pub add_tokens : ℤ → String → ℤ → MemoryCounters → MemoryCounters
add_tokens now key n c = record c {
  tokens =
      λ k. if str_eq key k then c.tokens k ++ record { at = now; count = n } ∷ [] else c.tokens k;
}

-- `t.After(cutoff)`
abbrev pub after : ℤ → ℤ → Bool
after cutoff t = ltb_ℤ cutoff t

abbrev pub entry_after : ℤ → TokenEntry → Bool
entry_after cutoff e = ltb_ℤ cutoff e.at

-- The loop of `CountRequests`.
unfoldable pub count_after : ℤ → List ℤ → ℕ
count_after cutoff [] = 0
count_after cutoff (t ∷ ts) = (if after cutoff t then 1 else 0) + count_after cutoff ts

-- `CountRequests`
unfoldable pub count_requests : ℤ → String → ℤ → MemoryCounters → ℕ
count_requests now key window c = count_after (now -ℤ window) (c.requests key)

-- The loop of `SumTokens`; the `int64` sum wraps.
unfoldable pub sum_after : ℤ → ℤ → List TokenEntry → ℤ
sum_after cutoff acc [] = acc
sum_after cutoff acc (e ∷ es) =
    sum_after cutoff (if entry_after cutoff e then wrap_int64 (acc +ℤ e.count) else acc) es

-- `SumTokens`
unfoldable pub sum_tokens : ℤ → String → ℤ → MemoryCounters → ℤ
sum_tokens now key window c = sum_after (now -ℤ window) (pos 0) (c.tokens key)

-- `Cleanup`
unfoldable pub cleanup : ℤ → ℤ → MemoryCounters → MemoryCounters
cleanup now max_age c = record {
  requests = λ k. keep (after (now -ℤ max_age)) (c.requests k);
  tokens = λ k. keep (entry_after (now -ℤ max_age)) (c.tokens k);
}

count_after-keep :
    (low high : ℤ) (ts : List ℤ)
    → low ≤ℤ high
    → count_after high (keep (after low) ts) ≡ count_after high ts
unfolding count_after
count_after-keep low high [] h = refl
count_after-keep low high (t ∷ ts) h = ground (arith, count_after-keep low high ts)

sum_after-keep :
    (low high acc : ℤ) (es : List TokenEntry)
    → low ≤ℤ high
    → sum_after high acc (keep (entry_after low) es) ≡ sum_after high acc es
unfolding sum_after
sum_after-keep low high acc [] h = refl
sum_after-keep low high acc (e ∷ es) h = elim (Bool-cases (entry_after low e)) [
  | inl kept ↦ rw kept (
      sum_after-keep low high (if entry_after high e then wrap_int64 (acc +ℤ e.count) else acc) es
        h)
  | inr dropped ↦
      let old : entry_after high e ≡ false = ground arith in
      rw (dropped, old) (sum_after-keep low high acc es h)
]

-- A sweep changes no later count over a window that is at most the sweep's age: neither the number
-- of requests nor the sum of tokens, under any key.
pub cleanup-counts :
    (swept now max_age window : ℤ) (key : String) (c : MemoryCounters)
    → swept ≤ℤ now
    → window ≤ℤ max_age
    → (count_requests now key window (cleanup swept max_age c) ≡ count_requests now key window c)
      × (sum_tokens now key window (cleanup swept max_age c) ≡ sum_tokens now key window c)
unfolding count_requests sum_tokens cleanup
cleanup-counts swept now max_age window key c later short =
    let low : swept -ℤ max_age ≤ℤ now -ℤ window = omega int_laws in
    (
      count_after-keep (swept -ℤ max_age) (now -ℤ window) (c.requests key) low,
      sum_after-keep (swept -ℤ max_age) (now -ℤ window) (pos 0) (c.tokens key) low,
    )

pub count_after-append :
    (cutoff : ℤ) (ts us : List ℤ)
    → count_after cutoff (ts ++ us) ≡ count_after cutoff ts + count_after cutoff us
unfolding count_after
count_after-append cutoff [] us = omega arith
count_after-append cutoff (t ∷ ts) us = omega (arith, count_after-append cutoff ts us)

-- A recorded request counts once under its own key, while it is younger than the window, and not at
-- all under any other key.
pub count_requests-add_request :
    (at now window : ℤ) (key other : String) (c : MemoryCounters)
    → count_requests now other window (add_request at key c)
      ≡ count_requests now other window c
        + (if str_eq key other then (if after (now -ℤ window) at then 1 else 0) else 0)
unfolding count_requests add_request
count_requests-add_request at now window key other c = elim (Bool-cases (str_eq key other)) [
  | inl same ↦
      rw (same, count_after-append (now -ℤ window) (c.requests other) (at ∷ []))
        (unfold count_after in omega arith)
  | inr differs ↦ rw differs (omega arith)
]

pub count_requests-add_tokens :
    (at now window n : ℤ) (key other : String) (c : MemoryCounters)
    → count_requests now other window (add_tokens at key n c) ≡ count_requests now other window c
unfolding count_requests add_tokens
count_requests-add_tokens at now window n key other c = refl
