-- ===== src/Payload/Hex.antt =====
-- `checksumText`, and `hex.DecodeString` of the standard library.
use trail.Prelude.{
  ℕ, ◌+◌, ◌-◌, ◌*◌, ◌/◌, ◌%◌, ◌<◌, ◌≡◌, refl, ap, Bool, true, false, ◌&&◌, Option, none, some, [],
  ◌∷◌, Text, codes, All, get_or, leb, ◌==◌, if◌then◌else◌, arith,
}
use trail.Id.RoundTrip.{table_holds, table_lookup}

abbrev pub hex_digits : Text
hex_digits = codes "0123456789abcdef"

-- `value>>4` and `value&15` of each byte.
unfoldable pub checksum_text : Text → Text
checksum_text [] = []
checksum_text (b ∷ bytes) =
    get_or hex_digits (b / 16) 0 ∷ get_or hex_digits (b % 16) 0 ∷ checksum_text bytes

-- A hexadecimal digit of either case.
unfoldable pub hex_value : ℕ → Option ℕ
hex_value c =
    if leb b'0' c && leb c b'9'
    then some (c - b'0')
    else if leb b'a' c && leb c b'f'
    then some (c - b'a' + 10)
    else if leb b'A' c && leb c b'F'
    then some (c - b'A' + 10)
    else none

abbrev join_digits : Option ℕ → Option ℕ → Option Text → Option Text
join_digits (some h) (some l) (some rest) = some ((h * 16 + l) ∷ rest)
join_digits _ _ _ = none

unfoldable pub decode_hex : Text → Option Text
decode_hex [] = some []
decode_hex (_ ∷ []) = none
decode_hex (h ∷ l ∷ text) = join_digits (hex_value h) (hex_value l) (decode_hex text)

abbrev is_digit_of : Option ℕ → ℕ → Bool
is_digit_of none d = false
is_digit_of (some v) d = v == d

is_digit_of_sound : (o : Option ℕ) (d : ℕ) → is_digit_of o d ≡ true → o ≡ some d
is_digit_of_sound (some v) d h = ground arith
is_digit_of_sound none d h = absurd (ground arith)

hex_table : table_holds (λ d. is_digit_of (hex_value (get_or hex_digits d 0)) d) 16 ≡ true
unfolding table_holds hex_value
hex_table = refl

hex_value-digit : (d : ℕ) → d < 16 → hex_value (get_or hex_digits d 0) ≡ some d
hex_value-digit d h = is_digit_of_sound _ d (table_lookup _ 16 d hex_table h)

-- A checksum is read back from its text.
pub decode_hex-checksum_text :
    (bytes : Text) → All (λ b. b < 256) bytes → decode_hex (checksum_text bytes) ≡ some bytes
unfolding decode_hex checksum_text
decode_hex-checksum_text [] h = refl
decode_hex-checksum_text (b ∷ bytes) (lt, rest) =
    rw
      (
        hex_value-digit (b / 16) (omega arith),
        hex_value-digit (b % 16) (omega arith),
        decode_hex-checksum_text bytes rest,
      )
      (ap (λ c. some (c ∷ bytes)) (omega arith))
