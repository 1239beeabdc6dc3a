-- ===== src/Crypto/RoundTrip.antt =====
-- About `Base62Encode` and `Base62Decode`, one after the other.
use Prim.Native.Nat.pow
use mathlib.Core.List.{append-nil}
use mathlib.Core.Path.{subst}
use modelserver.Prelude.{
  ℕ, zero, suc, ◌+◌, ◌*◌, ◌/◌, ◌%◌, ◌^◌, ◌≤◌, ◌<◌, ◌≡◌, refl, sym, ap, ◌∙◌, List, [], ◌∷◌, ◌++◌,
  map, none, some, some_inj, ◌==◌, if◌then◌else◌, arith, length, All, leb, ◌&&◌, ◌||◌, true, inl,
  inr, Option-cases,
}
use modelserver.Crypto.Base62.{
  digit_code, base62_index, places, value_from, base62_encode, base62_decode, read_digits,
}

index-digit_code : (d : ℕ) → d < 62 → base62_index (digit_code d % 256) ≡ some d
unfolding base62_index digit_code
index-digit_code d h = ground arith

abbrev AreDigits : List ℕ → Type 0
AreDigits ds = All (λ d. d < 62) ds

split_62 : (n : ℕ) → n / 62 * 62 + n % 62 ≡ n
split_62 n = omega arith

join_256 : (n d : ℕ) → d < 256 → ((n * 256 + d) / 256 ≡ n) × ((n * 256 + d) % 256 ≡ d)
join_256 n d h = (omega arith, omega arith)

-- No places are left: the number is 0, and the digits are those given.
fits :
    (n : ℕ) (acc ds : List ℕ) → (if n == 0 then some acc else none) ≡ some ds → (n ≡ 0) × (ds ≡ acc)
fits zero acc ds h = (refl, sym (some_inj h))
fits (suc n) acc ds h = absurd (ground arith)

room : (n : ℕ) (acc : List ℕ) → n < 1 → (if n == 0 then some acc else none) ≡ some acc
room zero acc h = refl
room (suc n) acc h = absurd (omega (arith, h))

below_next : (n p : ℕ) → n < p * 62 → n / 62 < p
below_next n p h = omega (arith, h)

places-value :
    (k n : ℕ) (acc ds : List ℕ)
    → places 62 k n acc ≡ some ds
    → AreDigits acc
    → (value_from 62 0 ds ≡ value_from 62 n acc) × AreDigits ds × (length ds ≡ k + length acc)
unfolding places value_from
places-value zero n acc ds h digits =
    let (n_zero, same) = fits n acc ds h in rw (n_zero, same) (refl, digits, omega arith)
places-value (suc k) n acc ds h digits =
    let (same, all_digits, len) =
      places-value k (n / 62) (n % 62 ∷ acc) ds h (omega arith, digits) in
    (same ∙ ap (λ m. value_from 62 m acc) (split_62 n), all_digits, omega (arith, len))

places-total : (k n : ℕ) (acc : List ℕ) → n < 62 ^ k → (ds : List ℕ) × (places 62 k n acc ≡ some ds)
unfolding places
places-total zero n acc h = (acc, room n acc (omega (arith, h, pow.zero 62)))
places-total (suc k) n acc h =
    places-total k (n / 62) (n % 62 ∷ acc) (below_next n (62 ^ k) (omega (arith, h, pow.suc 62 k)))

zero_add : (k : ℕ) → 0 + k ≡ k
zero_add k = omega arith

add_zero : (k : ℕ) → k + 0 ≡ k
add_zero k = omega arith

one_more : (m k : ℕ) → suc m + k ≡ m + suc k
one_more m k = omega arith

bytes-places :
    (ds : List ℕ) (k n : ℕ) (acc : List ℕ)
    → All (λ d. d < 256) ds
    → places 256 (length ds + k) (value_from 256 n ds) acc ≡ places 256 k n (ds ++ acc)
unfolding places value_from
bytes-places [] k n acc h = ap (λ m. places 256 m n acc) (zero_add k)
bytes-places (d ∷ ds) k n acc (h, hs) =
    let (d_back, n_back) = join_256 n d h in
    ap (λ m. places 256 m (value_from 256 (n * 256 + d) ds) acc) (one_more (length ds) k)
    ∙ bytes-places ds (suc k) (n * 256 + d) acc hs
    ∙ rw (n_back, d_back) refl

read-codes :
    (n : ℕ) (ds : List ℕ)
    → AreDigits ds
    → read_digits n (map digit_code ds) ≡ some (value_from 62 n ds)
unfolding read_digits value_from
read-codes n [] h = refl
read-codes n (d ∷ ds) (h, hs) = rw (index-digit_code d h) (read-codes (n * 62 + d) ds hs)

shift : (p q : ℕ) → p * (q * 256) ≡ p * 256 * q
shift p q = grind arith

length-map : (f : ℕ → ℕ) (ds : List ℕ) → length (map f ds) ≡ length ds
length-map f [] = refl
length-map f (d ∷ ds) = ap suc (length-map f ds)

decoded :
    (bytes : List ℕ)
    → All (λ b. b < 256) bytes
    → places 256 (length bytes) (value_from 256 0 bytes) [] ≡ some bytes
unfolding places
decoded bytes h =
    ap (λ m. places 256 m (value_from 256 0 bytes) []) (sym (add_zero (length bytes)))
    ∙ bytes-places bytes 0 0 [] h
    ∙ ap some (append-nil bytes)

value-below :
    (ds : List ℕ) (n p : ℕ)
    → All (λ d. d < 256) ds
    → n < p
    → value_from 256 n ds < p * 256 ^ length ds
unfolding value_from
value-below [] n p h k = omega (arith, k, pow.zero 256)
value-below (d ∷ ds) n p (h, hs) k =
    let rest = value-below ds (n * 256 + d) (p * 256) hs (omega (arith, h, k)) in
    rw (pow.suc 256 (length ds), shift p (256 ^ length ds)) rest

-- Encoding bytes in enough places does not panic: it gives as many characters as there are places, and
-- decoding them to as many bytes gives the bytes back. There are enough places where 256 to the
-- number of the bytes is at most 62 to theirs.
pub base62_decode-encode :
    (bytes : List ℕ) (fixed_len : ℕ)
    → All (λ b. b < 256) bytes
    → 256 ^ length bytes ≤ 62 ^ fixed_len
    → (s : List ℕ) × (base62_encode bytes fixed_len ≡ some s)
      × (length s ≡ fixed_len)
      × (base62_decode s (length bytes) ≡ some bytes)
unfolding base62_encode base62_decode value_from
base62_decode-encode bytes fixed_len are_bytes enough =
    let below = value-below bytes 0 1 are_bytes (omega arith) in
    let (ds, found) =
      places-total fixed_len (value_from 256 0 bytes) [] (omega (arith, below, enough)) in
    let (same, digits, len) = places-value fixed_len (value_from 256 0 bytes) [] ds found tt in
    (
      map digit_code ds,
      rw found refl,
      length-map digit_code ds ∙ len ∙ omega arith,
      rw (read-codes 0 ds digits, same) (decoded bytes are_bytes),
    )

-- The characters of the alphabet.
abbrev pub IsBase62 : ℕ → Type 0
IsBase62 c = (leb 48 c && leb c 57) || (leb 65 c && leb c 90) || (leb 97 c && leb c 122) ≡ true

digit_code-IsBase62 : (d : ℕ) → d < 62 → IsBase62 (digit_code d)
unfolding digit_code
digit_code-IsBase62 d h = ground arith

digits-IsBase62 : (ds : List ℕ) → AreDigits ds → All IsBase62 (map digit_code ds)
digits-IsBase62 [] h = tt
digits-IsBase62 (d ∷ ds) h = (digit_code-IsBase62 d h.0, digits-IsBase62 ds h.1)

-- An encoding has characters of the alphabet alone.
pub base62_encode-digits :
    (bytes : List ℕ) (fixed_len : ℕ) (s : List ℕ)
    → base62_encode bytes fixed_len ≡ some s
    → All IsBase62 s
unfolding base62_encode
base62_encode-digits bytes fixed_len s h =
    elim (Option-cases (places 62 fixed_len (value_from 256 0 bytes) [])) [
      | inl none_left ↦ cc (rw none_left at h)
      | inr (ds, found) ↦
          let digits = places-value fixed_len (value_from 256 0 bytes) [] ds found tt in
          subst (All IsBase62) (some_inj (rw found at h)) (digits-IsBase62 ds digits.1)
    ]
