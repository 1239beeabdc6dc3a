-- ===== src/Pricing/ImageInput.antt =====
-- How `computeImageCredits` of internal/proxy/image_extra_usage_cost.go shares the cached tokens out.
use native.Mathlib.Nat.{mul-le-mul_right, div-le_of_le-mul, div-le_self, le-div_iff_mul-le}
use mathlib.Core.Path.{subst}
use modelserver.Prelude.{
  ℕ, ◌+◌, ◌-◌, ◌*◌, ◌/◌, ◌^◌, ◌≤◌, ◌<◌, ◌≡◌, refl, sym, ◌&&◌, arith, inl, inr, Bool-cases, ltb,
}
use modelserver.Prelude.Int.{pos, ◌+ℤ◌, ◌-ℤ◌, ◌*ℤ◌, ◌/ℤ◌, ltb_ℤ, wrap_int64}
use modelserver.Pricing.Rates.{
  ImageTokenUsage, add_int64, sub_int64, mul_int64, at_least_0, image_input,
}

-- The text's part of the cached tokens is no more than the text, and the rest no more than the images.
share-le : (c t i : ℕ) → c ≤ t + i → c * t / (t + i) ≤ t
share-le c t i h = div-le_of_le-mul (t + i) (mul-le-mul_right t h)

part-le : (c t i : ℕ) → c * t / (t + i) ≤ c
part-le c t i = div-le_of_le-mul (t + i) (grind (arith, mul-le-mul_right c))

excess-le : (d t i : ℕ) → d ≤ t → d * (t + i) ≤ (d + i) * t
excess-le d t i h = grind (arith, mul-le-mul_right i h)

rest-le : (c t i : ℕ) → c ≤ t + i → 0 < t + i → c ≤ c * t / (t + i) + i
rest-le c t i h p = elim (Bool-cases (ltb c i)) [
  | inl few ↦ ground arith
  | inr enough ↦
      let split : c ≡ (c - i) + i = ground arith in
      let room : (c - i) * (t + i) ≤ c * t =
        subst (λ n. (c - i) * (t + i) ≤ n * t) (sym split) (excess-le (c - i) t i (omega arith)) in
      omega (arith, (le-div_iff_mul-le p).1 room, split)
]

add_small : (a b : ℕ) → a + b < 2 ^ 63 → add_int64 (pos a) (pos b) ≡ pos (a + b)
unfolding ◌+ℤ◌ wrap_int64
add_small a b h = ground arith

sub_small : (a b : ℕ) → b ≤ a → a < 2 ^ 63 → sub_int64 (pos a) (pos b) ≡ pos (a - b)
unfolding ◌-ℤ◌ wrap_int64
sub_small a b h k = ground arith

wrap_small : (a : ℕ) → a < 2 ^ 63 → wrap_int64 (pos a) ≡ pos a
unfolding wrap_int64
wrap_small a h = ground arith

clamp : (n : ℕ) → at_least_0 (pos n) ≡ pos n
clamp n = ground arith

share_small :
    (c t n : ℕ) → c * t < 2 ^ 63 → wrap_int64 (mul_int64 (pos c) (pos t) /ℤ pos n) ≡ pos (c * t / n)
unfolding ◌*ℤ◌ ◌/ℤ◌
share_small c t n h =
    rw (wrap_small (c * t) h) (wrap_small (c * t / n) (omega (arith, div-le_self (c * t) n)))

-- Where the counts are not negative, no more tokens are cached than there are, and neither the sum nor
-- the product overflows an int64, every input token of an image request is billed exactly once: the
-- cached ones are shared out among text and images, no part is negative, and in each class the
-- cached and the others make up the tokens of the class.
pub image_input-once :
    (u : ImageTokenUsage) (c t i : ℕ)
    → u.cached_input_tokens ≡ pos c
    → u.text_input_tokens ≡ pos t
    → u.image_input_tokens ≡ pos i
    → c ≤ t + i
    → t + i < 2 ^ 63
    → c * t < 2 ^ 63
    → (b : ℕ) × (d : ℕ) × (e : ℕ) × (f : ℕ) × (image_input u ≡ record {
      cached_text = pos b;
      cached_image = pos d;
      billed_text = pos e;
      billed_image = pos f;
    })
      × (b + d ≡ c)
      × (b + e ≡ t)
      × (d + f ≡ i)
unfolding image_input
image_input-once u c t i hc ht hi le sum product =
    elim (Bool-cases (ltb_ℤ (pos 0) (pos (t + i)) && ltb_ℤ (pos 0) (pos c))) [
      | inl shared ↦
          let b = c * t / (t + i) in
          let b_le_c : b ≤ c = part-le c t i in
          let b_le_t : b ≤ t = share-le c t i le in
          let d_le_i : c ≤ b + i = rest-le c t i le (ground arith) in
          (
            b,
            c - b,
            t - b,
            i - (c - b),
            rw
                (
                  hc,
                  ht,
                  hi,
                  add_small t i sum,
                  shared,
                  share_small c t (t + i) product,
                  sub_small c b b_le_c (omega arith),
                  sub_small t b b_le_t (omega arith),
                  sub_small i (c - b) (omega arith) (omega arith),
                  clamp (t - b),
                  clamp (i - (c - b)),
                )
                refl,
            omega arith,
            omega arith,
            omega arith,
          )
      | inr whole ↦ (
        0,
        0,
        t,
        i,
        rw
            (
              hc,
              ht,
              hi,
              add_small t i sum,
              whole,
              sub_small t 0 (omega arith) (omega arith),
              sub_small i 0 (omega arith) (omega arith),
              clamp (t - 0),
              clamp (i - 0),
            )
            (ground arith),
        ground arith,
        omega arith,
        omega arith,
      )
    ]
