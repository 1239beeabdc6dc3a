-- ===== src/Auth/Keys.antt =====
-- API keys: internal/crypto/apikey.go, the making of a key in internal/admin/handle_keys.go, and
-- `extractAPIKey` and the check of the format in internal/proxy/auth_middleware.go. A text is the list of
-- its characters' numbers. HMAC-SHA256 is a parameter, a function of the key and the message.
use modelserver.Prelude.{
  ℕ, ◌+◌, Bool, true, false, not, ◌&&◌, ◌||◌, List, [], ◌∷◌, ◌++◌, Option, none, some, all, take,
  drop, leb, ltb, ◌==◌, if◌then◌else◌,
}
use modelserver.Crypto.Base62.{base62_encode, base62_decode}

-- `ms-`
abbrev pub api_key_prefix : List ℕ
api_key_prefix = 109 ∷ 115 ∷ 45 ∷ []

-- `Bearer `
abbrev bearer : List ℕ
bearer = 66 ∷ 101 ∷ 97 ∷ 114 ∷ 101 ∷ 114 ∷ 32 ∷ []

-- `apikey-checksum`
abbrev api_key_hmac_label : List ℕ
api_key_hmac_label =
    97 ∷ 112 ∷ 105 ∷ 107 ∷ 101 ∷ 121 ∷ 45 ∷ 99 ∷ 104 ∷ 101 ∷ 99 ∷ 107 ∷ 115 ∷ 117 ∷ 109 ∷ []

abbrev pub api_key_random_len : ℕ
api_key_random_len = 32

abbrev pub api_key_checksum_len : ℕ
api_key_checksum_len = 4

abbrev pub api_key_body_len : ℕ
api_key_body_len = 49

abbrev pub is_empty {ℓ} : {A : Type ℓ} → List A → Bool
is_empty [] = true
is_empty (x ∷ xs) = false

-- What is left behind a prefix.
unfoldable pub strip_prefix : List ℕ → List ℕ → Option (List ℕ)
strip_prefix [] s = some s
strip_prefix (c ∷ p) [] = none
strip_prefix (c ∷ p) (d ∷ s) = if c == d then strip_prefix p s else none

-- The three headers that may hold a key; a missing one is empty.
pub record KeyHeaders : Type 0 where
  pub x_api_key : List ℕ
  pub x_goog_api_key : List ℕ
  pub authorization : List ℕ

abbrev or_empty : Option (List ℕ) → List ℕ
or_empty none = []
or_empty (some s) = s

-- `extractAPIKey`
unfoldable pub extract_api_key : KeyHeaders → List ℕ
unfolding strip_prefix
extract_api_key h =
    if not (is_empty h.x_api_key)
    then h.x_api_key
    else if not (is_empty h.x_goog_api_key)
    then h.x_goog_api_key
    else or_empty (strip_prefix bearer h.authorization)

abbrev pub is_base62_char : ℕ → Bool
is_base62_char c = (leb 48 c && leb c 57) || (leb 65 c && leb c 90) || (leb 97 c && leb c 122)

-- `isBase62`
unfoldable pub is_base62 : List ℕ → Bool
is_base62 s = all is_base62_char s

-- The bytes of the characters in UTF-8, which `len` counts.
abbrev pub utf8_len : ℕ → ℕ
utf8_len c = if ltb c 128 then 1 else if ltb c 2048 then 2 else if ltb c 65536 then 3 else 4

unfoldable pub byte_len : List ℕ → ℕ
byte_len [] = 0
byte_len (c ∷ s) = utf8_len c + byte_len s

-- `hmac.Equal`
unfoldable pub bytes_equal : List ℕ → List ℕ → Bool
bytes_equal [] [] = true
bytes_equal [] (b ∷ bs) = false
bytes_equal (a ∷ as_) [] = false
bytes_equal (a ∷ as_) (b ∷ bs) = (a == b) && bytes_equal as_ bs

module _ (mac : List ℕ → List ℕ → List ℕ) (enc_key : List ℕ) where
  -- `deriveSubkey`
  abbrev pub derive_subkey : List ℕ
  derive_subkey = mac enc_key api_key_hmac_label

  -- `ComputeAPIKeyChecksum`
  unfoldable pub compute_api_key_checksum : List ℕ → List ℕ
  compute_api_key_checksum random = take api_key_checksum_len (mac derive_subkey random)

  abbrev pub checks : Option (List ℕ) → Bool
  checks none = false
  checks (some raw) =
      bytes_equal (compute_api_key_checksum (take api_key_random_len raw))
        (drop api_key_random_len raw)

  -- `ValidateAPIKeyChecksum`
  unfoldable pub validate_api_key_checksum : List ℕ → Bool
  validate_api_key_checksum body = checks (base62_decode body 36)

  abbrev pub is_valid_body : Option (List ℕ) → Bool
  is_valid_body none = true
  is_valid_body (some body) =
      if not (byte_len body == api_key_body_len) || not (is_base62 body)
      then false
      else validate_api_key_checksum body

  -- The check of a key before the lookup; without an encryption key there is none.
  unfoldable pub is_valid_api_key_format : List ℕ → Bool
  unfolding validate_api_key_checksum
  is_valid_api_key_format raw =
      if not (is_empty enc_key) then is_valid_body (strip_prefix api_key_prefix raw) else true

  abbrev pub with_prefix : Option (List ℕ) → Option (List ℕ)
  with_prefix none = none
  with_prefix (some body) = some (api_key_prefix ++ body)

  -- The key that `handleCreateKey` makes of random bytes; `none` is a panic.
  unfoldable pub create_api_key : List ℕ → Option (List ℕ)
  create_api_key random =
      with_prefix (base62_encode (random ++ compute_api_key_checksum random) api_key_body_len)
