-- ===== src/Id/RoundTrip.antt =====
-- `encodeID` then `decodeID`: every identifier is read back from its text.
use trail.Prelude.{
  ℕ, zero, suc, ◌+◌, ◌-◌, ◌*◌, ◌/◌, ◌%◌, ◌^◌, ◌≤◌, ◌<◌, ◌≡◌, refl, sym, ap, ap₂, ◌∙◌, Bool, true,
  false, ◌&&◌, Option, none, some, List, [], ◌∷◌, ◌++◌, append-nil, map, Text, All, length,
  length-map, replicate, ltb, ◌==◌, arith, Bool-cases, inl, inr,
}
use native.Mathlib.Nat.{pow-suc}
use trail.Id.{
  Identifier, IsId, ok, digit_char, set_bytes, encode_loop, encode_id, crockford_value, decode_loop,
  min_bytes, copy_right, decode_id,
}
use trail.Id.Radix.{
  digits, value, digits-suc, value-digits, digits-value, value-lt, digits-All, digits-zero,
  length-digits,
}

-- `test` passes at every number below `bound`: a table over the characters or the digits.
unfoldable pub table_holds : (ℕ → Bool) → ℕ → Bool
table_holds test zero = true
table_holds test (suc bound) = table_holds test bound && test bound

pub table_lookup :
    (test : ℕ → Bool) (bound i : ℕ) → table_holds test bound ≡ true → i < bound → test i ≡ true
unfolding table_holds
table_lookup test zero i table below = absurd (omega arith)
table_lookup test (suc bound) i table below = ground (arith, table_lookup test bound i)

abbrev holds : Option ℕ → ℕ → Bool
holds none d = false
holds (some v) d = v == d

holds_sound : (o : Option ℕ) (d : ℕ) → holds o d ≡ true → o ≡ some d
holds_sound none d h = cc
holds_sound (some v) d h = ground arith

value_table : table_holds (λ d. holds (crockford_value (digit_char d)) d) 32 ≡ true
unfolding table_holds crockford_value
value_table = refl

pub crockford_value-digit_char : (d : ℕ) → d < 32 → crockford_value (digit_char d) ≡ some d
crockford_value-digit_char d h = holds_sound _ d (table_lookup _ 32 d value_table h)

pub set_bytes-value : (n : ℕ) (bs : Text) → set_bytes n bs ≡ value 256 n bs
unfolding set_bytes value
set_bytes-value n [] = refl
set_bytes-value n (b ∷ bs) = set_bytes-value (n * 256 + b) bs

pub encode_loop-digits :
    (k x : ℕ) (ds : List ℕ)
    → encode_loop k x (map digit_char ds) ≡ map digit_char (digits 32 k x ds)
unfolding encode_loop digits
encode_loop-digits zero x ds = refl
encode_loop-digits (suc k) x ds = encode_loop-digits k (x / 32) ((x % 32) ∷ ds)

-- One round of the loop that accepts its character.
pub decode_loop_step :
    (i c x v : ℕ) (text : Text)
    → crockford_value c ≡ some v
    → (i == 0 && ltb 7 v) ≡ false
    → decode_loop i (c ∷ text) x ≡ decode_loop (suc i) text (x * 32 + v)
unfolding decode_loop
decode_loop_step i c x v text h ok7 = ground arith

-- Past the first character every digit is accepted.
decode_loop-map :
    (i x : ℕ) (ds : List ℕ)
    → All (λ d. d < 32) ds
    → decode_loop (suc i) (map digit_char ds) x ≡ some (value 32 x ds)
unfolding value
decode_loop-map i x [] h = unfold decode_loop in refl
decode_loop-map i x (d ∷ ds) h =
    decode_loop_step (suc i) (digit_char d) x d (map digit_char ds)
      (crockford_value-digit_char d h.0) (ground arith)
    ∙ decode_loop-map (suc i) (x * 32 + d) ds h.1

decode_loop-first :
    (d : ℕ) (ds : List ℕ)
    → d ≤ 7
    → All (λ d. d < 32) ds
    → decode_loop 0 (map digit_char (d ∷ ds)) 0 ≡ some (value 32 (0 * 32 + d) ds)
decode_loop-first d ds h hs =
    decode_loop_step 0 (digit_char d) 0 d (map digit_char ds)
      (crockford_value-digit_char d (omega arith)) (ground arith)
    ∙ decode_loop-map 0 (0 * 32 + d) ds hs

min_bytes_step :
    (k x : ℕ) (out : Text)
    → (x == 0) ≡ false
    → min_bytes (suc k) x out ≡ min_bytes k (x / 256) ((x % 256) ∷ out)
unfolding min_bytes
min_bytes_step k x out h = ground arith

-- `x.Bytes()` padded to `k` bytes is the `k` low bytes of `x`, if `x` has no more.
min_bytes_pad :
    (k f x : ℕ) (out : Text)
    → k ≤ f
    → x < 256 ^ k
    → (z : ℕ) × (z + length (min_bytes f x out) ≡ k + length out)
      × (replicate z 0 ++ min_bytes f x out ≡ digits 256 k x out)
unfolding min_bytes digits
min_bytes_pad zero zero x out h lt = (0, omega arith, refl)
min_bytes_pad zero (suc f) x out h lt = (0, ground arith, ground arith)
min_bytes_pad (suc k) zero x out h lt = absurd (omega arith)
min_bytes_pad (suc k) (suc f) x out h lt = elim (Bool-cases (x == 0)) [
  | inl z ↦ (suc k, ground arith, ground (arith, digits-zero 256 (suc k) out))
  | inr nz ↦
      let (z, len, eq) =
        min_bytes_pad k f (x / 256) ((x % 256) ∷ out) (omega arith)
          (omega (arith, pow-suc 256 k)) in
      (z, rw (min_bytes_step f x out nz) (omega arith), rw (min_bytes_step f x out nz) eq)
]

-- A number below 2 ^ 128 is copied into the identifier whose bytes spell it: no panic.
pub copy_right-min_bytes :
    (x : ℕ) → x < 2 ^ 128 → copy_right (min_bytes 17 x []) ≡ ok (digits 256 16 x [])
copy_right-min_bytes x h =
    let (z, len, eq) = min_bytes_pad 16 17 x [] (omega arith) h in copy z (min_bytes 17 x []) len eq
  where
    copy :
        (z : ℕ) (b : Text) {id : Identifier}
        → z + length b ≡ 16
        → replicate z 0 ++ b ≡ id
        → copy_right b ≡ ok id
    copy z b len eq =
        let fit : 16 - length b ≡ z = omega arith in unfold copy_right in ground (arith, fit, eq)

-- The text of a number below 2 ^ 128 has 26 digits, the first at most 7, and spells the number.
decode_loop-encode_loop : (x : ℕ) → x < 2 ^ 128 → decode_loop 0 (encode_loop 26 x []) 0 ≡ some x
unfolding value
decode_loop-encode_loop x h =
    ap (λ t. decode_loop 0 t 0)
      (encode_loop-digits 26 x [] ∙ ap (map digit_char) (digits-suc 32 25 x []))
    ∙ decode_loop-first top (digits 32 25 x []) (omega arith)
        (digits-All 32 (omega arith) 25 x [] tt)
    ∙ ap some (value-digits 32 25 (0 * 32 + top) x [] ∙ omega arith)
  where
    top : ℕ
    top = x / 32 ^ 25 % 32

length-encode_loop : (x : ℕ) → length (encode_loop 26 x []) ≡ 26
length-encode_loop x =
    ap length (encode_loop-digits 26 x [])
    ∙ length-map (digits 32 26 x []) digit_char
    ∙ length-digits 32 26 x []

set_bytes-lt : (id : Identifier) → IsId id → set_bytes 0 id < 2 ^ 128
set_bytes-lt id (len, bytes) =
    omega (arith, set_bytes-value 0 id, value-lt 256 (omega arith) id bytes, ap (λ n. 256 ^ n) len)

-- The bytes of an identifier are the digits of its number to base 256.
digits-set_bytes : (id : Identifier) → IsId id → digits 256 16 (set_bytes 0 id) [] ≡ id
digits-set_bytes id (len, bytes) =
    ap₂ (λ k x. digits 256 k x []) (sym len) (set_bytes-value 0 id)
    ∙ digits-value 256 (omega arith) 0 id [] bytes
    ∙ append-nil id

pub decode_id_of_value :
    (text : Text) (x : ℕ)
    → length text ≡ 26
    → decode_loop 0 text 0 ≡ some x
    → decode_id text ≡ copy_right (min_bytes 17 x [])
unfolding decode_id
decode_id_of_value text x len h = ground arith

-- Every identifier of sixteen bytes is read back by decodeID from the text that encodeID gives.
pub decode_id-encode_id : (id : Identifier) → IsId id → decode_id (encode_id id) ≡ ok id
unfolding encode_id
decode_id-encode_id id h =
    decode_id_of_value (encode_loop 26 x []) x (length-encode_loop x)
      (decode_loop-encode_loop x (set_bytes-lt id h))
    ∙ copy_right-min_bytes x (set_bytes-lt id h)
    ∙ ap ok (digits-set_bytes id h)
  where
    x : ℕ
    x = set_bytes 0 id

pub length-encode_id : (id : Identifier) → length (encode_id id) ≡ 26
unfolding encode_id
length-encode_id id = length-encode_loop (set_bytes 0 id)
