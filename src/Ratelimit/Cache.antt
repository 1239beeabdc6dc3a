-- ===== src/Ratelimit/Cache.antt =====
-- `creditCache` of internal/ratelimit/cache.go. The map is a function of the key; the texts are those
-- of the code's bytes, so that a prefix of characters is one of bytes.
use Prim.Native.Char.{code}
use modelserver.Prelude.{
  String, Bool, true, false, ◌&&◌, Option, none, some, str_eq, ◌==◌, if◌then◌else◌,
}
use modelserver.Prelude.Int.{ℤ, ◌+ℤ◌, ltb_ℤ}

-- `key[:len(prefix)] == prefix`, with the test of the length before it.
unfoldable pub has_prefix : String → String → Bool
has_prefix String.[] key = true
has_prefix (String.◌∷◌ c p) String.[] = false
has_prefix (String.◌∷◌ c p) (String.◌∷◌ d key) = (code c == code d) && has_prefix p key

module _ (F : Type 0) where
  pub record CacheEntry : Type 0 where
    pub value : F
    pub expires_at : ℤ

  pub record CreditCache : Type 0 where
    pub entries : String → Option CacheEntry
    pub ttl : ℤ

module _ {F : Type 0} where
  abbrev pub live : ℤ → Option (CacheEntry F) → Option F
  live now none = none
  live now (some e) = if ltb_ℤ e.expires_at now then none else some e.value

  -- `Get`
  unfoldable pub get : ℤ → String → CreditCache F → Option F
  get now key c = live now (c.entries key)

  -- `Set`
  unfoldable pub set : ℤ → String → F → CreditCache F → CreditCache F
  set now key v c = record c {
    entries = λ k.
        if str_eq key k
        then some (record { value = v; expires_at = now +ℤ c.ttl })
        else c.entries k;
  }

  -- `invalidatePrefix`
  unfoldable pub invalidate_prefix : String → CreditCache F → CreditCache F
  invalidate_prefix prefix c = record c {
    entries = λ k. if has_prefix prefix k then none else c.entries k;
  }
