-- ===== src/Retention/Archived.antt =====
-- retention/retention.go: `sameArchiveEvents`, which compares the loaded records with the events.
use trail.Prelude.{
  ◌-◌, ◌≡◌, inl, inr, Bool, true, false, ◌&&◌, ◌||◌, List, [], ◌∷◌, ◌++◌, map, Text, text_eq,
  text_eq_iff, text_eq_refl, length, ltb, replicate, ◌==◌, if◌then◌else◌, All, Bool-cases, arith,
}
use trail.Payload.Hex.{checksum_text}
use trail.Storage.{EventRecord}
use trail.Retention.{Event}

-- An identifier in 32 digits, filled up with zeros at the left.
abbrev pub padded : Text → Text
padded id = if ltb (length id) 32 then replicate (32 - length id) b'0' ++ id else id

-- `want[key]`, where `want` is the list of the keys that it maps to true.
unfoldable pub has_key : Text → List Text → Bool
has_key key [] = false
has_key key (other ∷ keys) = text_eq key other || has_key key keys

unfoldable pub add_key : Text → List Text → List Text
add_key key keys = if has_key key keys then keys else key ∷ keys

-- `delete(want, key)`
unfoldable pub remove_key : Text → List Text → List Text
remove_key key [] = []
remove_key key (other ∷ keys) =
    let rest = remove_key key keys in if text_eq key other then rest else other ∷ rest

unfoldable pub wanted : List Event → List Text → List Text
wanted [] want = want
wanted (event ∷ events) want = wanted events (add_key (padded event.id) want)

-- The loop over the records, and the last test.
unfoldable pub check_records : List EventRecord → List Text → Bool
check_records [] [] = true
check_records [] (_ ∷ _) = false
check_records (r ∷ records) want =
    let rest = check_records records (remove_key (checksum_text r.id) want) in
    if has_key (checksum_text r.id) want then rest else false

unfoldable pub same_archive_events : List EventRecord → List Event → Bool
same_archive_events records eligible =
    length records == length eligible && check_records records (wanted eligible [])

abbrev pub record_keys : List EventRecord → List Text
record_keys records = map (λ r. checksum_text r.id) records

has_key-remove_key :
    (key other : Text) (keys : List Text)
    → has_key key keys ≡ true
    → text_eq other key ≡ false
    → has_key key (remove_key other keys) ≡ true
unfolding has_key remove_key
has_key-remove_key key other [] h differ = h
has_key-remove_key key other (k ∷ keys) h differ = elim (Bool-cases (text_eq other k)) [
  | inl same ↦ rw same (elim (Bool-cases (text_eq key k)) [
    | inl here ↦
        absurd (ground (arith, text_eq_iff other k, text_eq_iff key k, text_eq_iff other key))
    | inr there ↦ has_key-remove_key key other keys (ground (arith, h, there)) differ
  ])
  | inr apart ↦ rw apart (ground (arith, h, has_key-remove_key key other keys))
]

check_records-has_key :
    (records : List EventRecord) (want : List Text) (key : Text)
    → check_records records want ≡ true
    → has_key key want ≡ true
    → has_key key (record_keys records) ≡ true
unfolding check_records has_key
check_records-has_key [] [] key ok h = h
check_records-has_key [] (k ∷ want) key ok h = absurd (ground arith)
check_records-has_key (r ∷ records) want key ok h =
    elim (Bool-cases (has_key (checksum_text r.id) want)) [
      | inr missing ↦ absurd (ground (arith, ok, missing))
      | inl found ↦ elim (Bool-cases (text_eq (checksum_text r.id) key)) [
        | inl same ↦
            ground
              (arith, text_eq_iff (checksum_text r.id) key, text_eq_iff key (checksum_text r.id))
        | inr differ ↦ ground (
          arith,
          check_records-has_key records (remove_key (checksum_text r.id) want) key
              (ground (arith, ok, found))
              (has_key-remove_key key (checksum_text r.id) want h differ),
        )
      ]
    ]

has_key-add_key :
    (key other : Text) (keys : List Text)
    → has_key key keys ≡ true
    → has_key key (add_key other keys) ≡ true
unfolding add_key has_key
has_key-add_key key other keys h = elim (Bool-cases (has_key other keys)) [
  | inl there ↦ rw there h
  | inr new ↦ rw new (ground (arith, h))
]

has_key-add_key_self : (key : Text) (keys : List Text) → has_key key (add_key key keys) ≡ true
unfolding add_key has_key
has_key-add_key_self key keys = elim (Bool-cases (has_key key keys)) [
  | inl there ↦ rw there there
  | inr new ↦ rw new (ground (arith, text_eq_refl key))
]

wanted-keeps :
    (events : List Event) (want : List Text) (key : Text)
    → has_key key want ≡ true
    → has_key key (wanted events want) ≡ true
unfolding wanted
wanted-keeps [] want key h = h
wanted-keeps (v ∷ events) want key h =
    wanted-keeps events _ key (has_key-add_key key (padded v.id) want h)

-- All events of the list have a key among the given ones.
abbrev pub AllIn : List Text → List Event → Type 0
AllIn keys events = All (λ v. has_key (padded v.id) keys ≡ true) events

covered :
    (records : List EventRecord) (events : List Event) (want : List Text)
    → check_records records (wanted events want) ≡ true
    → AllIn (record_keys records) events
unfolding wanted
covered records [] want ok = tt
covered records (v ∷ events) want ok = (
  check_records-has_key records (wanted events (add_key (padded v.id) want)) (padded v.id) ok (
      wanted-keeps events (add_key (padded v.id) want) (padded v.id)
        (has_key-add_key_self (padded v.id) want)),
  covered records events (add_key (padded v.id) want) ok,
)

-- Where sameArchiveEvents holds of records and events, there are as many records as events, and
-- every event has a record with its identifier, padded to 32 digits.
pub same_archive_events-AllIn :
    (records : List EventRecord) (events : List Event)
    → same_archive_events records events ≡ true
    → (length records ≡ length events) × AllIn (record_keys records) events
unfolding same_archive_events
same_archive_events-AllIn records events same =
    (ground (arith, same), covered records events [] (ground (arith, same)))
