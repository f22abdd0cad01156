-- ===== src/Wire.antt =====
-- wire/wire.go: the transport envelope, made from a batch and validated.
pub mod Valid
pub mod Encode
pub mod Tests
use trail.Prelude.{
  ℕ, suc, Bool, true, false, not, ◌&&◌, ◌||◌, Option, none, some, List, [], ◌∷◌, map, Text, codes,
  text_eq, is_empty, ◌==◌, if◌then◌else◌,
}
use trail.Prelude.Int.{ℤ, is_zero}
use trail.Id.{Outcome, ok, invalid, panic, decode_id}
use trail.Event.{Metadata}

abbrev pub version : ℕ
version = 1

-- `Field`, the wire's own.
pub record WireField : Type 0 where
  pub key : Text
  pub type : Text
  pub text : Text
  pub num : ℕ

pub record WireEvent : Type 0 where
  pub event_id : Text
  pub timestamp_unix_nano : ℤ
  pub kind : Text
  pub level : Text
  pub flow_id : Text
  pub execution_id : Text
  pub parent_execution_id : Text
  pub retry_of_execution_id : Text
  pub execution_attempt : ℕ
  pub execution_source : Text
  pub scope_type : Text
  pub scope_id : Text
  pub entity_type : Text
  pub entity_id : Text
  pub parent_id : Text
  pub fields : List WireField

pub record Envelope : Type 0 where
  pub schema_version : ℕ
  pub batch_id : Text
  pub metadata : Metadata
  pub events : List WireEvent

pub data EventError : Type 0 where
  missing_required_value invalid_event_id invalid_flow_id invalid_execution_id
        invalid_parent_execution_id invalid_retry_of_execution_id invalid_parent_id scope_incomplete
        invalid_level empty_field_key invalid_field_type :
      EventError

pub data WireError : Type 0 where
  unsupported_version invalid_envelope empty_batch invalid_batch_id not_json : WireError
  invalid_event : ℕ → EventError → WireError

-- `_, err := trail.Parse…ID(text)`, and whether `err` is nil.
unfoldable pub parses : Text → Bool
parses text = elim (decode_id text) [ ok id ↦ true | invalid ↦ false | panic ↦ false ]

-- An identifier that may be left out.
abbrev pub parses_if_set : Text → Bool
parses_if_set text = is_empty text || parses text

-- The `switch` over the levels.
unfoldable pub known_level : Text → Bool
known_level level =
    text_eq level (codes "debug")
    || text_eq level (codes "info")
    || text_eq level (codes "warn")
    || text_eq level (codes "error")

-- The `switch` over the field types.
unfoldable pub known_type : Text → Bool
known_type type =
    text_eq type (codes "string")
    || text_eq type (codes "int")
    || text_eq type (codes "int64")
    || text_eq type (codes "bool")
    || text_eq type (codes "float64")
    || text_eq type (codes "duration")
    || text_eq type (codes "error")

-- The loop over the fields at the end of `validateEvent`.
unfoldable pub validate_fields : List WireField → Option EventError
validate_fields [] = none
validate_fields (f ∷ fields) =
    let rest = validate_fields fields in
    if is_empty f.key
    then some empty_field_key
    else if known_type f.type
    then rest
    else some invalid_field_type

abbrev same_bool : Bool → Bool → Bool
same_bool true b = b
same_bool false b = not b

unfoldable pub validate_event : WireEvent → Option EventError
validate_event e =
    if is_empty e.event_id || is_zero e.timestamp_unix_nano || is_empty e.kind
    then some missing_required_value
    else if not (parses e.event_id)
    then some invalid_event_id
    else if not (parses_if_set e.flow_id)
    then some invalid_flow_id
    else if not (parses_if_set e.execution_id)
    then some invalid_execution_id
    else if not (parses_if_set e.parent_execution_id)
    then some invalid_parent_execution_id
    else if not (parses_if_set e.retry_of_execution_id)
    then some invalid_retry_of_execution_id
    else if not (parses_if_set e.parent_id)
    then some invalid_parent_id
    else if not (same_bool (is_empty e.scope_type) (is_empty e.scope_id))
    then some scope_incomplete
    else if not (known_level e.level)
    then some invalid_level
    else validate_fields e.fields

-- The loop over the events; the error names the index.
unfoldable pub validate_events : ℕ → List WireEvent → Option WireError
validate_events i [] = none
validate_events i (e ∷ events) = elim (validate_event e) [
  | some err ↦ some (invalid_event i err)
  | none ↦ validate_events (suc i) events
]

abbrev pub no_events : List WireEvent → Bool
no_events [] = true
no_events (_ ∷ _) = false

unfoldable pub validate : Envelope → Option WireError
validate envelope =
    if not (envelope.schema_version == version)
    then some unsupported_version
    else if is_empty envelope.batch_id
        || no_events envelope.events
        || is_empty envelope.metadata.service
    then some invalid_envelope
    else if not (parses envelope.batch_id)
    then some invalid_batch_id
    else validate_events 0 envelope.events
