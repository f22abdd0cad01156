-- ===== src/Id/Tests.antt =====
-- Runs of id.go, and the theorems at concrete identifiers.
use trail.Prelude.{◌≡◌, refl, List, [], ◌∷◌, ◌++◌, map, Text, codes, All, replicate, arith}
use trail.Id.{
  Identifier, IsId, ok, invalid, encode_id, decode_id, encode_loop, decode_loop, crockford_value,
  set_bytes, min_bytes, copy_right, lower,
}
use trail.Id.RoundTrip.{decode_id-encode_id}
use trail.Id.Canonical.{decode_id_canonical}
use trail.Id.Generator.{Generator, IsValid, Distinct, next_ids, next_ids-Distinct}

abbrev sample : Identifier
sample = 255 ∷ 1 ∷ 2 ∷ 3 ∷ 4 ∷ 5 ∷ 6 ∷ 7 ∷ 8 ∷ 9 ∷ 10 ∷ 11 ∷ 12 ∷ 13 ∷ 14 ∷ 15 ∷ []

abbrev sample_text : Text
sample_text = codes "7Z0410608G50W70Y0805GJR31E1R7"

abbrev seven : Identifier
seven = replicate 15 0 ++ 7 ∷ []

encode_seven : encode_id seven ≡ codes "00000000000000000000000007"
unfolding encode_id encode_loop set_bytes
encode_seven = refl

decode_upper : decode_id (codes "0000000000000000000000000Z") ≡ ok (replicate 15 0 ++ 31 ∷ [])
unfolding decode_id decode_loop crockford_value copy_right min_bytes
decode_upper = refl

decode_overflow : decode_id (codes "80000000000000000000000000") ≡ invalid
unfolding decode_id decode_loop crockford_value
decode_overflow = refl

decode_excluded_letter : decode_id (codes "0000000000000000000000000i") ≡ invalid
unfolding decode_id decode_loop crockford_value
decode_excluded_letter = refl

decode_id-encode_id_example : decode_id (encode_id sample) ≡ ok sample
decode_id-encode_id_example = decode_id-encode_id sample (omega arith)

abbrev upper_text : Text
upper_text = codes "0000000000000000000000000Z"

decode_id_canonical_example :
    IsId (replicate 15 0 ++ 31 ∷ [])
    × (encode_id (replicate 15 0 ++ 31 ∷ []) ≡ map lower upper_text)
decode_id_canonical_example =
    decode_id_canonical upper_text (replicate 15 0 ++ 31 ∷ []) (omega arith) decode_upper

abbrev generator : Generator
generator = record { prefix = 9 ∷ replicate 9 1; counter = 41 }

generator-IsValid : IsValid generator
generator-IsValid = record { ten = refl; bytes = omega arith; counter_lt = omega arith }

next_ids-Distinct_example :
    (ids : List Identifier) × ((next_ids 3 generator).0 ≡ map ok ids) × Distinct ids × All IsId ids
next_ids-Distinct_example = next_ids-Distinct 3 generator generator-IsValid (omega arith)
