-- ===== src/Crypto/Tests.antt =====
-- A run of the encoding, and the theorem at it.
use modelserver.Prelude.{ℕ, ◌≡◌, refl, List, [], ◌∷◌, some, arith, length}
use modelserver.Crypto.Base62.{
  base62_encode, base62_decode, places, value_from, digit_code, read_digits, base62_index,
}
use modelserver.Crypto.RoundTrip.{base62_decode-encode}

abbrev three_bytes : List ℕ
three_bytes = 0 ∷ 200 ∷ 7 ∷ []

three_bytes_encoded : base62_encode three_bytes 5 ≡ some (48 ∷ 48 ∷ 68 ∷ 74 ∷ 118 ∷ [])
unfolding base62_encode places value_from digit_code
three_bytes_encoded = refl

-- The character U+0130 reads as the digit 0, whose number it shares in the low eight bits.
wide_character : base62_decode (304 ∷ 49 ∷ []) 1 ≡ some (1 ∷ [])
unfolding base62_decode read_digits base62_index places
wide_character = refl

base62_decode-encode_example :
    (s : List ℕ) × (base62_encode three_bytes 5 ≡ some s)
    × (length s ≡ 5)
    × (base62_decode s 3 ≡ some three_bytes)
base62_decode-encode_example =
    base62_decode-encode three_bytes 5 (ground arith, (ground arith, (ground arith, tt)))
      (ground arith)
