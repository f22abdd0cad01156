-- ===== src/Event/Options.antt =====
-- field.go: the options of `Log` and their constructors.
use trail.Prelude.{ℕ, ◌≡◌, Bool, true, false, Option, none, some, [], Text, codes, arith}
use trail.Prelude.Int.{ℤ, to_bits64, IsInt64, from_bits64-to_bits64}
use trail.Id.{Identifier, zero_id}
use trail.Event.{
  Level, Field, string_kind, int_kind, int64_kind, bool_kind, float64_kind, duration_kind,
  error_kind, no_field, field_int64, field_bool, field_duration,
}

-- `no_option` is the kind of the zero `Option`, which `Log` passes over.
pub data OptionKind : Type 0 where
  no_option option_field option_flow option_execution option_scope option_entity option_parent
        option_level option_parent_execution option_retry_of_execution option_execution_attempt
        option_execution_source :
      OptionKind

pub record EventOption : Type 0 where
  pub kind : OptionKind
  pub field : Field
  pub id : Identifier
  pub entity_type : Text
  pub entity_id : Text
  pub level : Level
  pub attempt : ℕ
  pub source : Text

-- The zero value with a kind.
abbrev pub of_kind : OptionKind → EventOption
of_kind k = record {
  kind = k;
  field = no_field;
  id = zero_id;
  entity_type = [];
  entity_id = [];
  level = 0;
  attempt = 0;
  source = [];
}

abbrev of_field : Field → EventOption
of_field f = record (of_kind option_field) { field = f }

unfoldable pub string : Text → Text → EventOption
string key value = of_field (record { key = key; kind = string_kind; text = value; num = 0 })

unfoldable pub int : Text → ℤ → EventOption
int key value = of_field (record { key = key; kind = int_kind; text = []; num = to_bits64 value })

unfoldable pub int64 : Text → ℤ → EventOption
int64 key value =
    of_field (record { key = key; kind = int64_kind; text = []; num = to_bits64 value })

abbrev bit : Bool → ℕ
bit true = 1
bit false = 0

unfoldable pub bool : Text → Bool → EventOption
bool key value = of_field (record { key = key; kind = bool_kind; text = []; num = bit value })

-- The value is given by `math.Float64bits`.
unfoldable pub float64 : Text → ℕ → EventOption
float64 key bits = of_field (record { key = key; kind = float64_kind; text = []; num = bits })

unfoldable pub duration : Text → ℤ → EventOption
duration key value =
    of_field (record { key = key; kind = duration_kind; text = []; num = to_bits64 value })

abbrev error_text : Option Text → Text
error_text none = codes "<nil>"
error_text (some text) = text

-- `none` is the nil error, `some` the result of `err.Error()`.
unfoldable pub error : Option Text → EventOption
error err =
    of_field (record { key = codes "error"; kind = error_kind; text = error_text err; num = 0 })

unfoldable pub flow : Identifier → EventOption
flow id = record (of_kind option_flow) { id = id }

unfoldable pub execution : Identifier → EventOption
execution id = record (of_kind option_execution) { id = id }

unfoldable pub parent : Identifier → EventOption
parent id = record (of_kind option_parent) { id = id }

unfoldable pub with_scope : Text → Text → EventOption
with_scope scope_type scope_id = record (of_kind option_scope) {
  entity_type = scope_type;
  entity_id = scope_id;
}

unfoldable pub entity : Text → Text → EventOption
entity entity_type entity_id = record (of_kind option_entity) {
  entity_type = entity_type;
  entity_id = entity_id;
}

unfoldable pub with_level : Level → EventOption
with_level level = record (of_kind option_level) { level = level }

unfoldable pub parent_execution : Identifier → EventOption
parent_execution id = record (of_kind option_parent_execution) { id = id }

unfoldable pub retry_of_execution : Identifier → EventOption
retry_of_execution id = record (of_kind option_retry_of_execution) { id = id }

unfoldable pub execution_attempt : ℕ → EventOption
execution_attempt attempt = record (of_kind option_execution_attempt) { attempt = attempt }

unfoldable pub with_execution_source : Text → EventOption
with_execution_source source = record (of_kind option_execution_source) { source = source }

-- A value in the range of int64 put into a field by Int, Int64 or Duration, and a boolean put by
-- Bool, is what the accessor of that kind reads back.
pub field_values :
    (key : Text) (v : ℤ) (b : Bool)
    → IsInt64 v
    → (field_int64 (int key v).field ≡ v)
      × (field_int64 (int64 key v).field ≡ v)
      × (field_duration (duration key v).field ≡ v)
      × (field_bool (bool key b).field ≡ b)
unfolding int int64 duration bool field_int64 field_duration field_bool
field_values key v b h =
    (from_bits64-to_bits64 v h, from_bits64-to_bits64 v h, from_bits64-to_bits64 v h, ground arith)
