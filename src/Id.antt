-- ===== src/Id.antt =====
-- id.go: the identifiers of events, flows and executions, their generator and their text form.
-- A `[16]byte` is the list of its bytes (`IsId`); `big.Int` is a natural number.
pub mod Radix
pub mod RoundTrip
pub mod Canonical
pub mod Generator
mod Tests
use trail.Prelude.{
  ℕ, zero, suc, ◌+◌, ◌-◌, ◌*◌, ◌/◌, ◌%◌, ◌^◌, ◌≤◌, ◌<◌, ◌≡◌, Bool, true, false, ◌&&◌, ◌||◌, not,
  Option, none, some, List, [], ◌∷◌, ◌++◌, Text, codes, All, length, replicate, take, get_or, ltb,
  leb, ◌==◌, if◌then◌else◌,
}

abbrev pub Identifier : Type 0
Identifier = Text

abbrev pub IsByte : ℕ → Type 0
IsByte b = b < 256

abbrev pub IsId : Identifier → Type 0
IsId id = (length id ≡ 16) × All IsByte id

-- What a call that can fail, or panic, returns.
pub data Outcome {ℓ} (A : Type ℓ) : Type ℓ where
  ok : A → Outcome A
  invalid : Outcome A
  panic : Outcome A

abbrev pub crockford_alphabet : Text
crockford_alphabet = codes "0123456789abcdefghjkmnpqrstvwxyz"

abbrev pub digit_char : ℕ → ℕ
digit_char d = get_or crockford_alphabet d 0

-- `new(big.Int).SetBytes(id[:])`: the bytes, most significant first, behind the number `n`.
unfoldable pub set_bytes : ℕ → Text → ℕ
set_bytes n [] = n
set_bytes n (b ∷ bs) = set_bytes (n * 256 + b) bs

-- The loop of `encodeID`: `x & 31` is the digit, and `x >>= 5`. The array is filled from its end.
unfoldable pub encode_loop : ℕ → ℕ → Text → Text
encode_loop zero x out = out
encode_loop (suc i) x out = encode_loop i (x / 32) (digit_char (x % 32) ∷ out)

unfoldable pub encode_id : Identifier → Text
encode_id id = encode_loop 26 (set_bytes 0 id) []

-- `c += 'a' - 'A'` for an upper-case letter.
unfoldable pub lower : ℕ → ℕ
lower c = if leb b'A' c && leb c b'Z' then c + 32 else c

-- The first index from `i` on at which the alphabet holds `c`, of the `n` indices left.
unfoldable pub find_char : ℕ → ℕ → ℕ → Option ℕ
find_char zero i c = none
find_char (suc n) i c =
    let rest = find_char n (i + 1) c in if digit_char i == c then some i else rest

unfoldable pub crockford_value : ℕ → Option ℕ
unfolding lower find_char
crockford_value c =
    let l = lower c in if leb b'0' l && leb l b'9' then some (l - b'0') else find_char 22 10 l

-- The loop of `decodeID` at index `i`. `x.Lsh(&x, 5)` leaves the low five bits clear, so that
-- `Or` with a digit adds it.
unfoldable pub decode_loop : ℕ → Text → ℕ → Option ℕ
decode_loop i [] x = some x
decode_loop i (c ∷ text) x = elim (crockford_value c) [
  | none ↦ none
  | some v ↦ elim (i == 0 && ltb 7 v) [
    | true ↦ none
    | false ↦ decode_loop (suc i) text (x * 32 + v)
  ]
]

-- `x.Bytes()`: big endian, with no leading zero. At most `k` bytes are made.
unfoldable pub min_bytes : ℕ → ℕ → Text → Text
min_bytes zero x out = out
min_bytes (suc k) x out = elim (x == 0) [
  | true ↦ out
  | false ↦ min_bytes k (x / 256) ((x % 256) ∷ out)
]

-- `copy(id[len(id)-len(b):], b)` into a zeroed array. The slice panics if `b` is longer.
unfoldable pub copy_right : Text → Outcome Identifier
copy_right b = if ltb 16 (length b) then panic else ok (replicate (16 - length b) 0 ++ b)

unfoldable pub decode_id : Text → Outcome Identifier
decode_id text =
    if length text == 26
    then elim (decode_loop 0 text 0) [ none ↦ invalid | some x ↦ copy_right (min_bytes 17 x []) ]
    else invalid

-- `id == EventID{}`
unfoldable pub is_zero_id : Identifier → Bool
is_zero_id [] = true
is_zero_id (b ∷ bs) = b == 0 && is_zero_id bs

abbrev pub zero_id : Identifier
zero_id = replicate 16 0
