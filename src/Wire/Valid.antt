-- ===== src/Wire/Valid.antt =====
-- What `fromEvent` makes of a well-formed event passes `validateEvent`.
use trail.Prelude.{
  ℕ, suc, ◌≤◌, ◌≡◌, ◌≢◌, refl, Bool, true, false, none, some, List, [], ◌∷◌, map, Text, is_empty,
  All, length, Bool-cases, inl, inr, arith, text_eq,
}
use trail.Prelude.Int.{is_zero}
use trail.Id.{Identifier, IsId, encode_id, is_zero_id}
use trail.Id.RoundTrip.{decode_id-encode_id, length-encode_id}
use trail.Event.{
  FieldKind, unset, string_kind, int_kind, int64_kind, bool_kind, float64_kind, duration_kind,
  error_kind, Field, Event, Metadata, level_string, Level,
}
use trail.Wire.{
  Envelope, parses, parses_if_set, known_level, known_type, same_bool, validate_fields,
  validate_event, validate_events, validate,
}
use trail.Wire.Encode.{
  field_type, encode_field, encode_if_set, from_event, envelope_of, Result, Json, marshal_batch,
  marshal, unmarshal,
}

-- A field that one of the constructors of field.go makes, under a key.
abbrev pub IsTyped : Field → Type 0
IsTyped f = (is_empty f.key ≡ false) × (f.kind ≢ unset)

-- What the wire requires of an event. The identifiers are sixteen bytes by their Go type.
pub record IsTransportable (e : Event) : Type 0 where
  pub id : IsId e.id
  pub flow_id : IsId e.flow_id
  pub execution_id : IsId e.execution_id
  pub parent_execution_id : IsId e.parent_execution_id
  pub retry_of_execution_id : IsId e.retry_of_execution_id
  pub parent_id : IsId e.parent_id
  pub timestamp : is_zero e.timestamp ≡ false
  pub kind : is_empty e.kind ≡ false
  pub level : e.level ≤ 3
  pub scope : is_empty e.scope_type ≡ is_empty e.scope_id
  pub fields : All IsTyped e.fields

pub parses-encode_id : (id : Identifier) → IsId id → parses (encode_id id) ≡ true
unfolding parses
parses-encode_id id h = ground (arith, decode_id-encode_id id h)

nonempty_of_length : (text : Text) (n : ℕ) → length text ≡ suc n → is_empty text ≡ false
nonempty_of_length [] n h = absurd (omega arith)
nonempty_of_length (c ∷ text) n h = refl

pub is_empty-encode_id : (id : Identifier) → is_empty (encode_id id) ≡ false
is_empty-encode_id id = nonempty_of_length (encode_id id) 25 (length-encode_id id)

parses-encode_if_set : (id : Identifier) → IsId id → parses_if_set (encode_if_set id) ≡ true
parses-encode_if_set id h = elim (Bool-cases (is_zero_id id)) [
  | inl zero ↦ rw zero
  | inr other ↦ rw other (ground (arith, parses-encode_id id h))
]

known_level-level_string : (l : Level) → l ≤ 3 → known_level (level_string l) ≡ true
unfolding known_level level_string text_eq
known_level-level_string l h = ground arith

known_type-field_type : (kind : FieldKind) → kind ≢ unset → known_type (field_type kind) ≡ true
unfolding known_type field_type text_eq
known_type-field_type unset h = absurd (h refl)
known_type-field_type string_kind h = refl
known_type-field_type int_kind h = refl
known_type-field_type int64_kind h = refl
known_type-field_type bool_kind h = refl
known_type-field_type float64_kind h = refl
known_type-field_type duration_kind h = refl
known_type-field_type error_kind h = refl

validate_fields-map :
    (fields : List Field) → All IsTyped fields → validate_fields (map encode_field fields) ≡ none
unfolding validate_fields encode_field
validate_fields-map [] h = refl
validate_fields-map (f ∷ fields) (typed, rest) =
    ground (arith, typed.0, known_type-field_type f.kind typed.1, validate_fields-map fields rest)

same_bool_self : (a b : Bool) → a ≡ b → same_bool a b ≡ true
same_bool_self true b h = ground arith
same_bool_self false b h = ground arith

-- A transportable event passes validateEvent in the form that fromEvent gives it.
pub validate_event-from_event :
    (e : Event) → IsTransportable e → validate_event (from_event e) ≡ none
unfolding validate_event from_event
validate_event-from_event e t =
    rw
      (
        is_empty-encode_id e.id,
        t.timestamp,
        t.kind,
        parses-encode_id e.id t.id,
        parses-encode_if_set e.flow_id t.flow_id,
        parses-encode_if_set e.execution_id t.execution_id,
        parses-encode_if_set e.parent_execution_id t.parent_execution_id,
        parses-encode_if_set e.retry_of_execution_id t.retry_of_execution_id,
        parses-encode_if_set e.parent_id t.parent_id,
        same_bool_self (is_empty e.scope_type) (is_empty e.scope_id) t.scope,
        known_level-level_string e.level t.level,
      )
      (validate_fields-map e.fields t.fields)

validate_events-map :
    (i : ℕ) (events : List Event)
    → All IsTransportable events
    → validate_events i (map from_event events) ≡ none
unfolding validate_events
validate_events-map i [] h = refl
validate_events-map i (e ∷ events) (t, rest) =
    rw (validate_event-from_event e t, validate_events) (validate_events-map (suc i) events rest)

-- The envelope of a batch.
abbrev pub made_envelope : Metadata → Event → List Event → Envelope
made_envelope metadata e events = record {
  schema_version = 1;
  batch_id = encode_id e.id;
  metadata = metadata;
  events = map from_event (e ∷ events);
}

-- The envelope of a batch of transportable events, under a service name, is valid.
pub validate-made_envelope :
    (metadata : Metadata) (e : Event) (events : List Event)
    → is_empty metadata.service ≡ false
    → All IsTransportable (e ∷ events)
    → validate (made_envelope metadata e events) ≡ none
unfolding validate
validate-made_envelope metadata e events service h =
    rw (is_empty-encode_id e.id, service, parses-encode_id e.id h.0.id)
      (validate_events-map 0 (e ∷ events) h)

-- Where the JSON codec writes the envelope of a batch of transportable events under a service name
-- and reads it back, MarshalBatch gives the JSON text, and Unmarshal of the text gives that
-- envelope.
pub unmarshal-marshal_batch :
    (json : Json) (metadata : Metadata) (e : Event) (events : List Event) (bytes : Text)
    → is_empty metadata.service ≡ false
    → All IsTransportable (e ∷ events)
    → json.write (made_envelope metadata e events) ≡ some bytes
    → json.read bytes ≡ some (made_envelope metadata e events)
    → (marshal_batch json (record { metadata = metadata; events = e ∷ events }) ≡ Result.ok bytes)
      × (unmarshal json bytes ≡ Result.ok (made_envelope metadata e events))
unfolding envelope_of marshal marshal_batch unmarshal
unmarshal-marshal_batch json metadata e events bytes service h write read =
    ground (arith, validate-made_envelope metadata e events service h)
