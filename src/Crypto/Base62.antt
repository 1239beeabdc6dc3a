-- ===== src/Crypto/Base62.antt =====
-- `Base62Encode`, `Base62Decode` and `base62Index` of internal/crypto/base62.go. A text is the list of
-- its characters' numbers, and data are lists of bytes; `big.Int` is ℕ, as no number is negative.
use modelserver.Prelude.{
  ℕ, zero, suc, ◌+◌, ◌-◌, ◌*◌, ◌/◌, ◌%◌, ◌&&◌, List, [], ◌∷◌, map, Option, none, some, ltb, leb,
  ◌==◌, if◌then◌else◌,
}

-- `base62Alphabet[i]`
unfoldable pub digit_code : ℕ → ℕ
digit_code i = if ltb i 10 then 48 + i else if ltb i 36 then 55 + i else 61 + i

-- `base62Index`; `none` is its -1.
unfoldable pub base62_index : ℕ → Option ℕ
base62_index c =
    if leb 48 c && leb c 57
    then some (c - 48)
    else if leb 65 c && leb c 90
    then some (c - 65 + 10)
    else if leb 97 c && leb c 122
    then some (c - 97 + 36)
    else none

-- The digits of a number in a base, the highest first, in a number of places; `none` where they are too
-- few. The places left of the number hold zeros.
unfoldable pub places : ℕ → ℕ → ℕ → List ℕ → Option (List ℕ)
places base zero n acc = if n == 0 then some acc else none
places base (suc k) n acc = places base k (n / base) (n % base ∷ acc)

-- The number of the digits, after one that is read.
unfoldable pub value_from : ℕ → ℕ → List ℕ → ℕ
value_from base n [] = n
value_from base n (d ∷ ds) = value_from base (n * base + d) ds

abbrev pub codes_of : Option (List ℕ) → Option (List ℕ)
codes_of none = none
codes_of (some ds) = some (map digit_code ds)

-- `Base62Encode`; `none` is its panic.
unfoldable pub base62_encode : List ℕ → ℕ → Option (List ℕ)
base62_encode bytes fixed_len = codes_of (places 62 fixed_len (value_from 256 0 bytes) [])

abbrev pub add_digit : ℕ → Option ℕ → Option ℕ
add_digit n none = none
add_digit n (some d) = some (n * 62 + d)

-- The loop of `Base62Decode`; `byte(c)` keeps the low eight bits of the character's number.
abbrev pub then_read : Option ℕ → (ℕ → Option ℕ) → Option ℕ
then_read none rest = none
then_read (some n) rest = rest n

unfoldable pub read_digits : ℕ → List ℕ → Option ℕ
read_digits n [] = some n
read_digits n (c ∷ cs) = then_read (add_digit n (base62_index (c % 256))) (λ m. read_digits m cs)

abbrev pub to_bytes : ℕ → Option ℕ → Option (List ℕ)
to_bytes len none = none
to_bytes len (some n) = places 256 len n []

-- `Base62Decode`; `none` is an error.
unfoldable pub base62_decode : List ℕ → ℕ → Option (List ℕ)
base62_decode s expected_byte_len = to_bytes expected_byte_len (read_digits 0 s)
