-- ===== src/Wire/Encode.antt =====
-- `fromEvent`, `MarshalBatch`, `Marshal` and `Unmarshal`.
use trail.Prelude.{
  Bool, true, false, Option, none, some, List, [], ◌∷◌, map, Text, codes, if◌then◌else◌,
}
use trail.Id.{Identifier, encode_id, is_zero_id}
use trail.Event.{
  FieldKind, unset, string_kind, int_kind, int64_kind, bool_kind, float64_kind, duration_kind,
  error_kind, Field, Event, Batch, level_string,
}
use trail.Wire.{WireField, WireEvent, Envelope, WireError, empty_batch, not_json, version, validate}

unfoldable pub field_type : FieldKind → Text
field_type string_kind = codes "string"
field_type int_kind = codes "int"
field_type int64_kind = codes "int64"
field_type bool_kind = codes "bool"
field_type float64_kind = codes "float64"
field_type duration_kind = codes "duration"
field_type error_kind = codes "error"
field_type unset = codes "unknown"

abbrev is_text : FieldKind → Bool
is_text string_kind = true
is_text error_kind = true
is_text _ = false

-- `uint64(field.Int64())` is the number itself.
unfoldable pub encode_field : Field → WireField
encode_field f = record {
  key = f.key;
  type = field_type f.kind;
  text = if is_text f.kind then f.text else [];
  num = if is_text f.kind then 0 else f.num;
}

-- An identifier that is zero is left out.
abbrev pub encode_if_set : Identifier → Text
encode_if_set id = if is_zero_id id then [] else encode_id id

unfoldable pub from_event : Event → WireEvent
from_event e = record {
  event_id = encode_id e.id;
  timestamp_unix_nano = e.timestamp;
  kind = e.kind;
  level = level_string e.level;
  flow_id = encode_if_set e.flow_id;
  execution_id = encode_if_set e.execution_id;
  parent_execution_id = encode_if_set e.parent_execution_id;
  retry_of_execution_id = encode_if_set e.retry_of_execution_id;
  execution_attempt = e.execution_attempt;
  execution_source = e.execution_source;
  scope_type = e.scope_type;
  scope_id = e.scope_id;
  entity_type = e.entity_type;
  entity_id = e.entity_id;
  parent_id = encode_if_set e.parent_id;
  fields = map encode_field e.fields;
}

pub data Result {ℓ} (A : Type ℓ) : Type ℓ where
  ok : A → Result A
  err : WireError → Result A

-- The part of `MarshalBatch` that makes the envelope.
unfoldable pub envelope_of : Batch → List Event → Result Envelope
envelope_of batch [] = err empty_batch
envelope_of batch (e ∷ events) = ok (record {
  schema_version = version;
  batch_id = encode_id e.id;
  metadata = batch.metadata;
  events = map from_event (e ∷ events);
})

-- `encoding/json` on envelopes: `write` is `json.Marshal`, which can fail, and `read` is
-- `json.Unmarshal`.
pub record Json : Type 0 where
  pub write : Envelope → Option Text
  pub read : Text → Option Envelope

module _ (json : Json) where
  unfoldable pub marshal : Envelope → Result Text
  marshal envelope = elim (validate envelope) [
    | some e ↦ err e
    | none ↦ elim (json.write envelope) [ some bytes ↦ ok bytes | none ↦ err not_json ]
  ]

  unfoldable pub marshal_batch : Batch → Result Text
  marshal_batch batch = elim (envelope_of batch batch.events) [
    | err e ↦ err e
    | ok envelope ↦ marshal envelope
  ]

  unfoldable pub unmarshal : Text → Result Envelope
  unmarshal bytes = elim (json.read bytes) [
    | none ↦ err not_json
    | some envelope ↦ elim (validate envelope) [ some e ↦ err e | none ↦ ok envelope ]
  ]
