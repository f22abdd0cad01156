-- ===== src/Explorer/Base64.antt =====
-- encoding/base64: `RawURLEncoding`, by which explorerapi/server.go codes its cursors.
use trail.Prelude.{
  ℕ, ◌+◌, ◌-◌, ◌*◌, ◌/◌, ◌%◌, ◌≡◌, refl, ap, ◌∙◌, Bool, true, false, not, ◌&&◌, ◌||◌, Option, none,
  some, [], ◌∷◌, Text, codes, All, get_or, leb, ◌==◌, if◌then◌else◌, arith,
}
use trail.Id.{IsByte}
use trail.Id.RoundTrip.{table_holds, table_lookup}

abbrev url_alphabet : Text
url_alphabet = codes "ABCDEFGHIJKLMNOPQRSTUVWXYZabcdefghijklmnopqrstuvwxyz0123456789-_"

-- The character of six bits.
unfoldable pub char_of : ℕ → ℕ
char_of d = get_or url_alphabet (d % 64) 0

-- `RawURLEncoding.EncodeToString`: three bytes are four characters.
unfoldable pub encode_base64 : Text → Text
encode_base64 [] = []
encode_base64 (a ∷ []) = char_of (a / 4) ∷ char_of (a * 16) ∷ []
encode_base64 (a ∷ b ∷ []) = char_of (a / 4) ∷ char_of (a * 16 + b / 16) ∷ char_of (b * 4) ∷ []
encode_base64 (a ∷ b ∷ c ∷ bytes) =
    char_of (a / 4)
    ∷ char_of (a * 16 + b / 16)
    ∷ char_of (b * 4 + c / 64)
    ∷ char_of c
    ∷ encode_base64 bytes

unfoldable pub char_value : ℕ → Option ℕ
char_value c =
    if leb b'A' c && leb c b'Z'
    then some (c - b'A')
    else if leb b'a' c && leb c b'z'
    then some (c - b'a' + 26)
    else if leb b'0' c && leb c b'9'
    then some (c - b'0' + 52)
    else if c == b'-'
    then some 62
    else if c == b'_'
    then some 63
    else none

-- Newlines and carriage returns are skipped.
unfoldable pub skip_newlines : Text → Text
skip_newlines [] = []
skip_newlines (c ∷ text) =
    let rest = skip_newlines text in if c == 10 || c == 13 then rest else c ∷ rest

abbrev pub join_two : Option ℕ → Option ℕ → Option Text
join_two (some x) (some y) = some ((x * 4 + y / 16) ∷ [])
join_two _ _ = none

abbrev pub join_three : Option ℕ → Option ℕ → Option ℕ → Option Text
join_three (some x) (some y) (some z) = some ((x * 4 + y / 16) ∷ (y * 16 + z / 4) % 256 ∷ [])
join_three _ _ _ = none

abbrev pub join_four : Option ℕ → Option ℕ → Option ℕ → Option ℕ → Option Text → Option Text
join_four (some x) (some y) (some z) (some w) (some rest) =
    some ((x * 4 + y / 16) ∷ (y * 16 + z / 4) % 256 ∷ (z * 64 + w) % 256 ∷ rest)
join_four _ _ _ _ _ = none

-- Groups of four characters. The last group may have two or three; its spare bits are ignored.
unfoldable pub decode_groups : Text → Option Text
decode_groups [] = some []
decode_groups (a ∷ []) = none
decode_groups (a ∷ b ∷ []) = join_two (char_value a) (char_value b)
decode_groups (a ∷ b ∷ c ∷ []) = join_three (char_value a) (char_value b) (char_value c)
decode_groups (a ∷ b ∷ c ∷ d ∷ text) =
    join_four (char_value a) (char_value b) (char_value c) (char_value d) (decode_groups text)

-- `RawURLEncoding.DecodeString`
unfoldable pub decode_base64 : Text → Option Text
decode_base64 text = decode_groups (skip_newlines text)

abbrev holds : Option ℕ → ℕ → Bool
holds none d = false
holds (some v) d = v == d

-- The character of a value has that value, and is no newline.
abbrev char_test : ℕ → Bool
char_test d = holds (char_value (char_of d)) d && not (char_of d == 10) && not (char_of d == 13)

char_table : table_holds char_test 64 ≡ true
unfolding table_holds char_value char_of
char_table = refl

char_mod : (d : ℕ) → char_of (d % 64) ≡ char_of d
unfolding char_of
char_mod d = let e : d % 64 % 64 ≡ d % 64 = omega arith in ap (λ (n : ℕ). get_or url_alphabet n 0) e

holds_sound : (o : Option ℕ) (d : ℕ) → holds o d ≡ true → o ≡ some d
holds_sound none d h = cc
holds_sound (some v) d h = ground arith

char_value-char_of : (d : ℕ) → char_value (char_of d) ≡ some (d % 64)
char_value-char_of d = ground (
  arith,
  char_mod d,
  holds_sound (char_value (char_of (d % 64))) (d % 64),
  table_lookup char_test 64 (d % 64) char_table,
)

skip_newlines-char :
    (d : ℕ) (text : Text) → skip_newlines (char_of d ∷ text) ≡ char_of d ∷ skip_newlines text
unfolding skip_newlines
skip_newlines-char d text =
    ground (arith, char_mod d, table_lookup char_test 64 (d % 64) char_table)

skip_newlines-encode_base64 :
    (bytes : Text) → skip_newlines (encode_base64 bytes) ≡ encode_base64 bytes
unfolding encode_base64
skip_newlines-encode_base64 [] = unfold skip_newlines in refl
skip_newlines-encode_base64 (a ∷ []) = simp (skip_newlines-char) (unfold skip_newlines in refl)
skip_newlines-encode_base64 (a ∷ b ∷ []) = simp (skip_newlines-char) (unfold skip_newlines in refl)
skip_newlines-encode_base64 (a ∷ b ∷ c ∷ bytes) =
    simp (skip_newlines-char, skip_newlines-encode_base64 bytes) refl

decode_groups-encode_base64 :
    (bytes : Text) → All IsByte bytes → decode_groups (encode_base64 bytes) ≡ some bytes
unfolding encode_base64 decode_groups
decode_groups-encode_base64 [] h = refl
decode_groups-encode_base64 (a ∷ []) (ha, _) = simp (char_value-char_of) (ground (arith))
decode_groups-encode_base64 (a ∷ b ∷ []) (ha, (hb, _)) = simp (char_value-char_of) (ground (arith))
decode_groups-encode_base64 (a ∷ b ∷ c ∷ bytes) (ha, (hb, (hc, hs))) =
    simp (char_value-char_of, decode_groups-encode_base64 bytes hs) (ground (arith))

pub decode_base64-encode_base64 :
    (bytes : Text) → All IsByte bytes → decode_base64 (encode_base64 bytes) ≡ some bytes
unfolding decode_base64
decode_base64-encode_base64 bytes h =
    ap decode_groups (skip_newlines-encode_base64 bytes) ∙ decode_groups-encode_base64 bytes h
