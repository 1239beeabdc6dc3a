-- ===== src/Auth/Issued.antt =====
-- A key that the administration API makes passes the check of the proxy.
use modelserver.Prelude.{
  ℕ, zero, suc, ◌^◌, ◌≤◌, ◌<◌, ◌≡◌, refl, ap, true, List, [], ◌∷◌, ◌++◌, some, arith, length, take,
  drop, length-append, All,
}
use mathlib.Core.Path.{subst}
use modelserver.Crypto.Base62.{base62_encode, base62_decode}
use modelserver.Crypto.RoundTrip.{base62_decode-encode, base62_encode-digits, IsBase62}
use modelserver.Auth.Keys.{
  api_key_prefix, strip_prefix, is_base62, utf8_len, byte_len, bytes_equal,
  compute_api_key_checksum, validate_api_key_checksum, checks, is_valid_body,
  is_valid_api_key_format, create_api_key,
}

bytes_equal_refl : (bs : List ℕ) → bytes_equal bs bs ≡ true
unfolding bytes_equal
bytes_equal_refl [] = refl
bytes_equal_refl (b ∷ bs) = ground (arith, bytes_equal_refl bs)

take-append : (xs ys : List ℕ) → take (length xs) (xs ++ ys) ≡ xs
take-append [] ys = refl
take-append (x ∷ xs) ys = ap (λ zs. x ∷ zs) (take-append xs ys)

drop-append : (xs ys : List ℕ) → drop (length xs) (xs ++ ys) ≡ ys
drop-append [] ys = refl
drop-append (x ∷ xs) ys = drop-append xs ys

length-take : (n : ℕ) (xs : List ℕ) → n ≤ length xs → length (take n xs) ≡ n
length-take zero xs h = refl
length-take (suc n) [] h = absurd (omega (arith, h))
length-take (suc n) (x ∷ xs) h = ap suc (length-take n xs (omega (arith, h)))

All-take : (P : ℕ → Type 0) (n : ℕ) (xs : List ℕ) → All P xs → All P (take n xs)
All-take P zero xs h = tt
All-take P (suc n) [] h = tt
All-take P (suc n) (x ∷ xs) h = (h.0, All-take P n xs h.1)

All-append : (P : ℕ → Type 0) (xs ys : List ℕ) → All P xs → All P ys → All P (xs ++ ys)
All-append P [] ys h k = k
All-append P (x ∷ xs) ys h k = (h.0, All-append P xs ys h.1 k)

is_base62-All : (s : List ℕ) → All IsBase62 s → is_base62 s ≡ true
unfolding is_base62
is_base62-All [] h = refl
is_base62-All (c ∷ s) h = ground (arith, h.0, is_base62-All s h.1)

byte_len-All : (s : List ℕ) → All IsBase62 s → byte_len s ≡ length s
unfolding byte_len
byte_len-All [] h = refl
byte_len-All (c ∷ s) h =
    let one : utf8_len c ≡ 1 = ground (arith, h.0) in rw one (omega (arith, byte_len-All s h.1))

module _ (mac : List ℕ → List ℕ → List ℕ) (enc_key random : List ℕ)
    (bytes : All (λ b. b < 256) random) (size : length random ≡ 32)
    (mac_bytes : (k m : List ℕ) → All (λ b. b < 256) (mac k m))
    (mac_size : (k m : List ℕ) → 4 ≤ length (mac k m)) where
  abbrev checksum : List ℕ
  checksum = compute_api_key_checksum mac enc_key random

  checksum-bytes : All (λ b. b < 256) checksum
  unfolding compute_api_key_checksum
  checksum-bytes = All-take (λ b. b < 256) 4 _ (mac_bytes _ random)

  checksum-size : length checksum ≡ 4
  unfolding compute_api_key_checksum
  checksum-size = length-take 4 _ (mac_size _ random)

  combined-size : length (random ++ checksum) ≡ 36
  combined-size = rw (length-append random checksum, size, checksum-size) refl

  checks-combined : checks mac enc_key (some (random ++ checksum)) ≡ true
  checks-combined =
      subst
        (λ n.
          bytes_equal (compute_api_key_checksum mac enc_key (take n (random ++ checksum)))
            (drop n (random ++ checksum))
          ≡ true)
        size
        (rw (take-append random checksum, drop-append random checksum) (bytes_equal_refl checksum))

  is_valid_body-encoded :
      (s : List ℕ)
      → base62_encode (random ++ checksum) 49 ≡ some s
      → length s ≡ 49
      → base62_decode s (length (random ++ checksum)) ≡ some (random ++ checksum)
      → is_valid_body mac enc_key (some s) ≡ true
  unfolding validate_api_key_checksum
  is_valid_body-encoded s encoded len back =
      let digits = base62_encode-digits (random ++ checksum) 49 s encoded in
      let decoded : base62_decode s 36 ≡ some (random ++ checksum) =
        subst (λ n. base62_decode s n ≡ some (random ++ checksum)) combined-size back in
      rw (byte_len-All s digits, len, is_base62-All s digits, decoded) checks-combined

  room : 256 ^ length (random ++ checksum) ≤ 62 ^ 49
  room = rw combined-size (ground arith)

-- Of any 32 random bytes the administration API makes a key, without a panic, which passes the
-- proxy's check of the format and the checksum under the same encryption key. HMAC gives at least
-- four bytes.
pub create_api_key-valid :
    (mac : List ℕ → List ℕ → List ℕ) (enc_key random : List ℕ)
    → All (λ b. b < 256) random
    → length random ≡ 32
    → ((k m : List ℕ) → All (λ b. b < 256) (mac k m))
    → ((k m : List ℕ) → 4 ≤ length (mac k m))
    → (key : List ℕ) × (create_api_key mac enc_key random ≡ some key)
      × (is_valid_api_key_format mac enc_key key ≡ true)
unfolding create_api_key is_valid_api_key_format strip_prefix
create_api_key-valid mac enc_key random bytes size mac_bytes mac_size =
    let sum = compute_api_key_checksum mac enc_key random in
    let (s, encoded, len, back) =
      base62_decode-encode (random ++ sum) 49
        (All-append (λ b. b < 256) random sum bytes
          (checksum-bytes mac enc_key random bytes size mac_bytes mac_size))
        (room mac enc_key random bytes size mac_bytes mac_size) in
    let good =
      is_valid_body-encoded mac enc_key random bytes size mac_bytes mac_size s encoded len back in
    (api_key_prefix ++ s, rw encoded refl, ground (arith, good))
