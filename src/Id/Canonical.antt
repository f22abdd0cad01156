-- ===== src/Id/Canonical.antt =====
-- What `decodeID` accepts: its result is an identifier whose text is the input in lower case.
use trail.Prelude.{
  ℕ, suc, ◌+◌, ◌*◌, ◌^◌, ◌≤◌, ◌<◌, ◌≡◌, ◌≢◌, refl, sym, ap, ap₂, ◌∙◌, ◌⊎◌, Bool, true, false, ◌&&◌,
  Option, none, some, List, [], ◌∷◌, append-nil, map, Text, All, length, length-map, ltb, ◌==◌,
  arith, Bool-cases, Option-cases, inl, inr,
}
use trail.Id.{
  Identifier, IsId, IsByte, ok, invalid, panic, digit_char, encode_loop, encode_id, lower,
  crockford_value, decode_loop, decode_id,
}
use trail.Id.Radix.{
  digits, value, value-digits, digits-value, value-lt_suc, digits-All, length-digits,
}
use trail.Id.RoundTrip.{
  table_holds, table_lookup, set_bytes-value, encode_loop-digits, copy_right-min_bytes,
  decode_id_of_value,
}

abbrev accepted : ℕ → Option ℕ → Bool
accepted c none = true
accepted c (some v) = ltb v 32 && digit_char v == lower c

accepted_table : table_holds (λ c. accepted c (crockford_value c)) 256 ≡ true
unfolding table_holds crockford_value
accepted_table = refl

-- A character with a value is, in lower case, the alphabet's character at that value.
pub crockford_value_sound :
    (c v : ℕ) → c < 256 → crockford_value c ≡ some v → (v < 32) × (digit_char v ≡ lower c)
crockford_value_sound c v h e =
    ground (arith, table_lookup (λ c. accepted c (crockford_value c)) 256 c accepted_table h)

-- The digits that an accepted text spells.
pub record Spells (text : Text) (x y : ℕ) : Type 0 where
  pub ds : List ℕ
  pub small : All (λ d. d < 32) ds
  pub chars : map digit_char ds ≡ map lower text
  pub total : value 32 x ds ≡ y

decode_loop_inv :
    (i c x y : ℕ) (text : Text)
    → decode_loop i (c ∷ text) x ≡ some y
    → (v : ℕ) × (crockford_value c ≡ some v)
      × ((i == 0 && ltb 7 v) ≡ false)
      × (decode_loop (suc i) text (x * 32 + v) ≡ some y)
unfolding decode_loop
decode_loop_inv i c x y text h = elim (Option-cases (crockford_value c)) [
  | inl e ↦ absurd (ground arith)
  | inr (v, e) ↦ (v, e, ground arith, ground arith)
]

decode_loop_sound :
    (i x y : ℕ) (text : Text) → All IsByte text → decode_loop i text x ≡ some y → Spells text x y
unfolding value
decode_loop_sound i x y [] b h = record {
  ds = [];
  small = tt;
  chars = refl;
  total = unfold decode_loop in ground arith;
}
decode_loop_sound i x y (c ∷ text) b h =
    let (v, value_c, _, rest) = decode_loop_inv i c x y text h in
    let r = decode_loop_sound (suc i) (x * 32 + v) y text b.1 rest in
    let (small, char) = crockford_value_sound c v b.0 value_c in
    record {
      ds = v ∷ r.ds;
      small = (small, r.small);
      chars = ap₂ ◌∷◌ char r.chars;
      total = r.total;
    }

lt_top : (p v x w : ℕ) → p ≡ 32 ^ 25 → v ≤ 7 → w < p * (0 * 32 + v + 1) → w ≡ x → x < 2 ^ 128
lt_top p v x w e h7 h same = let h' = rw e at h in omega arith

decode_loop_lt :
    (x : ℕ) (text : Text)
    → length text ≡ 26
    → All IsByte text
    → decode_loop 0 text 0 ≡ some x
    → x < 2 ^ 128
decode_loop_lt x [] len b h = absurd (omega arith)
decode_loop_lt x (c ∷ text) len b h =
    let (v, _, first, rest) = decode_loop_inv 0 c 0 x text h in
    let r = decode_loop_sound 1 (0 * 32 + v) x text b.1 rest in
    let count : length r.ds ≡ 25 =
      sym (length-map r.ds digit_char) ∙ ap length r.chars ∙ length-map text lower ∙ omega arith in
    let v7 : v ≤ 7 = ground arith in
    let bound = value-lt_suc 32 (omega arith) (0 * 32 + v) r.ds r.small in
    let power : 32 ^ length r.ds ≡ 32 ^ 25 = ap (λ n. 32 ^ n) count in
    lt_top (32 ^ length r.ds) v x (value 32 (0 * 32 + v) r.ds) power v7 bound r.total

-- The two ways in which `decodeID` returns.
decode_id_cases :
    (text : Text)
    → All IsByte text
    → (decode_id text ≡ invalid)
      ⊎ ((x : ℕ) × (length text ≡ 26)
          × (decode_loop 0 text 0 ≡ some x)
          × (x < 2 ^ 128)
          × (decode_id text ≡ ok (digits 256 16 x [])))
decode_id_cases text b = elim (Bool-cases (length text == 26)) [
  | inl len ↦ elim (Option-cases (decode_loop 0 text 0)) [
    | inl e ↦ inl (unfold decode_id in ground arith)
    | inr (x, e) ↦
        let n : length text ≡ 26 = ground arith in
        let small = decode_loop_lt x text n b e in
        inr (x, n, e, small, decode_id_of_value text x n e ∙ copy_right-min_bytes x small)
  ]
  | inr other ↦ inl (unfold decode_id in ground arith)
]

-- decodeID does not panic on any text of bytes: the number that it reads always fits the array.
pub decode_id-ne-panic : (text : Text) → All IsByte text → decode_id text ≢ panic
decode_id-ne-panic text b h = elim (decode_id_cases text b) [
  | inl e ↦ cc
  | inr (x, _, _, _, e) ↦ cc
]

digits-IsId : (x : ℕ) → IsId (digits 256 16 x [])
digits-IsId x = (length-digits 256 16 x [], digits-All 256 (omega arith) 16 x [] tt)

encode_id-digits :
    (x : ℕ) → x < 2 ^ 128 → encode_id (digits 256 16 x []) ≡ map digit_char (digits 32 26 x [])
unfolding encode_id value
encode_id-digits x h =
    ap (λ y. encode_loop 26 y [])
      (set_bytes-value 0 (digits 256 16 x []) ∙ value-digits 256 16 0 x [] ∙ omega arith)
    ∙ encode_loop-digits 26 x []

digits_of_Spells :
    (text : Text) (x : ℕ)
    → length text ≡ 26
    → Spells text 0 x
    → map digit_char (digits 32 26 x []) ≡ map lower text
digits_of_Spells text x len r =
    ap (map digit_char) (
      ap₂ (λ k y. digits 32 k y []) (sym count) (sym r.total)
      ∙ digits-value 32 (omega arith) 0 r.ds [] r.small
      ∙ append-nil r.ds)
    ∙ r.chars
  where
    count : length r.ds ≡ 26
    count = sym (length-map r.ds digit_char) ∙ ap length r.chars ∙ length-map text lower ∙ len

-- What decodeID accepts from a text of bytes is a well-formed identifier, and the text is the
-- encoding of that identifier up to letter case.
pub decode_id_canonical :
    (text : Text) (id : Identifier)
    → All IsByte text
    → decode_id text ≡ ok id
    → IsId id × (encode_id id ≡ map lower text)
decode_id_canonical text id b h = elim (decode_id_cases text b) [
  | inl e ↦ absurd (cc)
  | inr (x, len, loop, small, e) ↦
      let same : digits 256 16 x [] ≡ id = cc in
      rw (← same) (
        digits-IsId x,
        encode_id-digits x small
            ∙ digits_of_Spells text x len (decode_loop_sound 0 0 x text b loop),
      )
]
