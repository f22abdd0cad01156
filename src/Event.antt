-- ===== src/Event.antt =====
-- event.go, field.go, level.go, scope.go, execution.go: the event, its fields and the options of
-- `Log`. Text is bytes; `time.Time` values do not occur here; a float64 is its IEEE bits.
pub mod Options
pub mod Build
mod Tests
use trail.Prelude.{
  ℕ, zero, suc, ◌≡◌, Bool, true, false, ◌&&◌, Option, none, some, List, [], ◌∷◌, ◌++◌, Text, codes,
  is_empty, ◌==◌, if◌then◌else◌,
}
use trail.Prelude.Int.{ℤ, pos, to_bits64, from_bits64}
use trail.Id.{Identifier, zero_id}

-- `Level` is a uint8.
abbrev pub Level : Type 0
Level = ℕ

abbrev pub level_debug : Level
level_debug = 0

abbrev pub level_info : Level
level_info = 1

abbrev pub level_warn : Level
level_warn = 2

abbrev pub level_error : Level
level_error = 3

-- `Level.String`
unfoldable pub level_string : Level → Text
level_string l =
    if l == level_debug
    then codes "debug"
    else if l == level_info
    then codes "info"
    else if l == level_warn
    then codes "warn"
    else if l == level_error
    then codes "error"
    else codes "unknown"

-- `unset` is the zero value, which no constructor of field.go gives.
pub data FieldKind : Type 0 where
  unset string_kind int_kind int64_kind bool_kind float64_kind duration_kind error_kind : FieldKind

pub record Field : Type 0 where
  pub key : Text
  pub kind : FieldKind
  pub text : Text
  pub num : ℕ

abbrev pub no_field : Field
no_field = record { key = []; kind = unset; text = []; num = 0 }

-- The accessors `Int64`, `Bool` and `Duration`; `Float64` gives the number with these bits.
unfoldable pub field_int64 : Field → ℤ
field_int64 f = from_bits64 f.num

unfoldable pub field_bool : Field → Bool
field_bool f = if f.num == 0 then false else true

unfoldable pub field_duration : Field → ℤ
field_duration f = from_bits64 f.num

pub record Scope : Type 0 where
  pub type : Text
  pub id : Text

unfoldable pub is_zero_scope : Scope → Bool
is_zero_scope s = is_empty s.type && is_empty s.id

pub record Event : Type 0 where
  pub id : Identifier
  pub timestamp : ℤ
  pub kind : Text
  pub level : Level
  pub flow_id : Identifier
  pub execution_id : Identifier
  pub parent_execution_id : Identifier
  pub retry_of_execution_id : Identifier
  pub execution_attempt : ℕ
  pub execution_source : Text
  pub scope_type : Text
  pub scope_id : Text
  pub entity_type : Text
  pub entity_id : Text
  pub parent_id : Identifier
  pub fields : List Field

pub record Metadata : Type 0 where
  pub service : Text
  pub environment : Text
  pub version : Text

pub record Batch : Type 0 where
  pub metadata : Metadata
  pub events : List Event
