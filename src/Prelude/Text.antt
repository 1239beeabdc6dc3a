-- ===== src/Prelude/Text.antt =====
-- Texts: equality and Go's order of strings, which is that of their bytes and so that of their
-- characters.
use Prim.Native.Nat.{ℕ, Ordering, compare as compare_ℕ}
use Prim.Native.Char.{IsScalar, IsLt, code}
use Prim.Native.String.compare
use Prim.Native.String.{String, compare, then}
use mathlib.Core.Path.{◌≡◌, refl, sym, subst}
use mathlib.Core.Logic.{◌⊎◌, inl, inr}
use modelserver.Prelude.Tests.{Bool-cases}
use mathlib.Core.Bool.{Bool, true, false, ◌||◌}
use mathlib.Core.List.{List, [], ◌∷◌}
use native.Mathlib.Omega.{arith}
use text.Mathlib.Text.{◌==◌, is_lt}
use text.Mathlib.TextPositions.{compare_refl}
use text.Mathlib.TextEquality.{path_by_compare}

abbrev pub str_eq : String → String → Bool
str_eq s t = s == t

abbrev pub str_lt : String → String → Bool
str_lt s t = is_lt (compare s t)

-- `slices.Contains`
abbrev pub contains : List String → String → Bool
contains [] s = false
contains (x ∷ xs) s = str_eq x s || contains xs s

abbrev flip : Ordering → Ordering
flip Ordering.lt = Ordering.gt
flip Ordering.eq = Ordering.eq
flip Ordering.gt = Ordering.lt

flip-then :
    (a b : ℕ) (o p : Ordering) → p ≡ flip o → then (compare_ℕ b a) p ≡ flip (then (compare_ℕ a b) o)
flip-then a b o p h = ground arith

compare-flip : (s t : String) → compare t s ≡ flip (compare s t)
compare-flip String.[] String.[] = refl
compare-flip String.[] (String.◌∷◌ d t) = rw (compare.nil-cons, compare.cons-nil)
compare-flip (String.◌∷◌ c s) String.[] = rw (compare.nil-cons, compare.cons-nil)
compare-flip (String.◌∷◌ c s) (String.◌∷◌ d t) =
    rw (compare.cons-cons c d s t, compare.cons-cons d c t s)
      (flip-then (code c) (code d) (compare s t) (compare t s) (compare-flip s t))

abbrev IsLess : Ordering → Type 0
IsLess o = o ≡ Ordering.lt

then_trans :
    (a b c : ℕ) (o p q : Ordering)
    → (IsLess o → IsLess p → IsLess q)
    → IsLess (then (compare_ℕ a b) o)
    → IsLess (then (compare_ℕ b c) p)
    → IsLess (then (compare_ℕ a c) q)
then_trans a b c o p q ih h k = ground arith

compare_trans :
    (s t u : String) → IsLess (compare s t) → IsLess (compare t u) → IsLess (compare s u)
compare_trans String.[] String.[] u h k = k
compare_trans String.[] (String.◌∷◌ d t) String.[] h k = cc (compare.cons-nil d t)
compare_trans String.[] (String.◌∷◌ d t) (String.◌∷◌ e u) h k = compare.nil-cons e u
compare_trans (String.◌∷◌ c s) String.[] u h k = cc (compare.cons-nil c s)
compare_trans (String.◌∷◌ c s) (String.◌∷◌ d t) String.[] h k = cc (compare.cons-nil d t)
compare_trans (String.◌∷◌ c s) (String.◌∷◌ d t) (String.◌∷◌ e u) h k =
    rw (compare.cons-cons c e s u) (
      then_trans (code c) (code d) (code e) _ _ _ (compare_trans s t u)
        (rw (compare.cons-cons c d s t) at h) (rw (compare.cons-cons d e t u) at k))

pub str_lt_irrefl : (s : String) → str_lt s s ≡ false
str_lt_irrefl s = rw (compare_refl s)

pub str_lt_trans : (s t u : String) → str_lt s t ≡ true → str_lt t u ≡ true → str_lt s u ≡ true
str_lt_trans s t u h k = ground (arith, compare_trans s t u)

pub str_lt_asym : (s t : String) → str_lt s t ≡ true → str_lt t s ≡ false
str_lt_asym s t h = ground (arith, compare-flip s t)

-- Two texts, neither of which is below the other, are equal.
pub str_lt_tri : (s t : String) → str_lt s t ≡ false → str_lt t s ≡ false → s ≡ t
str_lt_tri s t h k = path_by_compare s t (ground (arith, compare-flip s t))

pub str_le_trans : (s t u : String) → str_lt t s ≡ false → str_lt u t ≡ false → str_lt u s ≡ false
str_le_trans s t u h k = elim (Bool-cases (str_lt u s)) [
  | inr above ↦ above
  | inl below ↦ elim (Bool-cases (str_lt s t)) [
    | inl lt ↦ cc (str_lt_trans u s t below lt)
    | inr ge ↦ subst (λ x. str_lt u x ≡ false) (sym (str_lt_tri s t ge h)) k
  ]
]

ordering_cases : (o : Ordering) → (o ≡ Ordering.lt) ⊎ ((o ≡ Ordering.eq) ⊎ (o ≡ Ordering.gt))
ordering_cases Ordering.lt = inl refl
ordering_cases Ordering.eq = inr (inl refl)
ordering_cases Ordering.gt = inr (inr refl)

abbrev Both : Ordering → Ordering → Type 0
Both Ordering.lt o = IsLt o
Both Ordering.eq o = ⊥
Both Ordering.gt o = ⊥

below : (o : Ordering) → IsSet (IsLt o)
below Ordering.lt = hlevel
below Ordering.eq = hlevel
below Ordering.gt = hlevel

-- The scalar values are a set of numbers, so that texts and the records of texts are sets.
IsScalar-IsSet : (n : ℕ) → IsSet (IsScalar n)
IsScalar-IsSet n = elim (ordering_cases (compare_ℕ n 55296)) [
  | inl low ↦ rw low (hlevel)
  | inr (inl at) ↦ rw at high
  | inr (inr above) ↦ rw above high
]
  where
    high : IsSet (Both (compare_ℕ 57343 n) (compare_ℕ n 1_114_112))
    high = elim (ordering_cases (compare_ℕ 57343 n)) [
      | inl above ↦ rw above (below (compare_ℕ n 1_114_112))
      | inr (inl at) ↦ rw at (hlevel)
      | inr (inr low) ↦ rw low (hlevel)
    ]

pub String-IsSet : IsSet String
String-IsSet = hlevel (IsScalar-IsSet)
