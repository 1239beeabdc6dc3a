-- ===== src/Pricing/Tests.antt =====
-- The bill of a small request for an image.
use modelserver.Prelude.{ℕ, ◌+◌, ◌≡◌, refl, arith}
use modelserver.Prelude.Int.{pos}
use modelserver.Pricing.Rates.{ImageTokenUsage, image_input}
use modelserver.Pricing.ImageInput.{image_input-once}

-- Five of seven input tokens are cached.
abbrev drawing : ImageTokenUsage
drawing = record {
  input_tokens = pos 7;
  output_tokens = pos 9;
  cached_input_tokens = pos 5;
  text_input_tokens = pos 3;
  image_input_tokens = pos 4;
  text_output_tokens = pos 0;
  image_output_tokens = pos 9;
}

image_input-once_example :
    (b : ℕ) × (d : ℕ) × (e : ℕ) × (f : ℕ) × (image_input drawing ≡ record {
      cached_text = pos b;
      cached_image = pos d;
      billed_text = pos e;
      billed_image = pos f;
    })
    × (b + d ≡ 5)
    × (b + e ≡ 3)
    × (d + f ≡ 4)
image_input-once_example =
    image_input-once drawing 5 3 4 refl refl refl (ground arith) (ground arith) (ground arith)
