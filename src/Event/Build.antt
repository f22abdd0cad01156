-- ===== src/Event/Build.antt =====
-- trail.go `Log`: how the options make the event.
use trail.Prelude.{
  ℕ, ◌≡◌, refl, ◌∙◌, Option, none, some, List, [], ◌∷◌, ◌++◌, append_assoc, append-nil, Text, arith,
}
use trail.Prelude.Int.{ℤ}
use trail.Id.{Identifier, zero_id}
use trail.Event.{Event, Field, Level, level_info}
use trail.Event.Options.{
  OptionKind, EventOption, no_option, option_field, option_flow, option_execution, option_scope,
  option_entity, option_parent, option_level, option_parent_execution, option_retry_of_execution,
  option_execution_attempt, option_execution_source,
}

-- The event before its options.
abbrev pub new_event : Identifier → ℤ → Text → Event
new_event id now kind = record {
  id = id;
  timestamp = now;
  kind = kind;
  level = level_info;
  flow_id = zero_id;
  execution_id = zero_id;
  parent_execution_id = zero_id;
  retry_of_execution_id = zero_id;
  execution_attempt = 0;
  execution_source = [];
  scope_type = [];
  scope_id = [];
  entity_type = [];
  entity_id = [];
  parent_id = zero_id;
  fields = [];
}

-- The `switch` of `Log`.
unfoldable pub apply_kind : OptionKind → EventOption → Event → Event
apply_kind no_option o e = e
apply_kind option_field o e = record e { fields = e.fields ++ o.field ∷ [] }
apply_kind option_flow o e = record e { flow_id = o.id }
apply_kind option_execution o e = record e { execution_id = o.id }
apply_kind option_scope o e = record e { scope_type = o.entity_type; scope_id = o.entity_id }
apply_kind option_entity o e = record e { entity_type = o.entity_type; entity_id = o.entity_id }
apply_kind option_parent o e = record e { parent_id = o.id }
apply_kind option_level o e = record e { level = o.level }
apply_kind option_parent_execution o e = record e { parent_execution_id = o.id }
apply_kind option_retry_of_execution o e = record e { retry_of_execution_id = o.id }
apply_kind option_execution_attempt o e = record e { execution_attempt = o.attempt }
apply_kind option_execution_source o e = record e { execution_source = o.source }

-- The loop over the options. The loop that counts the fields only sizes the slice.
unfoldable pub apply_options : List EventOption → Event → Event
apply_options [] e = e
apply_options (o ∷ options) e = apply_options options (apply_kind o.kind o e)

unfoldable pub build_event : Identifier → ℤ → Text → List EventOption → Event
build_event id now kind options = apply_options options (new_event id now kind)

-- What the options say, read independently of the loop: the fields in order, and for everything
-- else the value of the last option that has one.
abbrev pub field_of : OptionKind → EventOption → List Field
field_of option_field o = o.field ∷ []
field_of _ o = []

abbrev pub fields_of : List EventOption → List Field
fields_of [] = []
fields_of (o ∷ options) = field_of o.kind o ++ fields_of options

abbrev over {ℓ} : {A : Type ℓ} → Option A → A → A
over none a = a
over (some b) a = b

abbrev pub last_of {ℓ} :
    {A : Type ℓ} → (OptionKind → EventOption → Option A) → A → List EventOption → A
last_of pick a [] = a
last_of pick a (o ∷ options) = last_of pick (over (pick o.kind o) a) options

abbrev pub flow_of : OptionKind → EventOption → Option Identifier
flow_of option_flow o = some o.id
flow_of _ o = none

abbrev pub execution_of : OptionKind → EventOption → Option Identifier
execution_of option_execution o = some o.id
execution_of _ o = none

abbrev pub parent_of : OptionKind → EventOption → Option Identifier
parent_of option_parent o = some o.id
parent_of _ o = none

abbrev pub parent_execution_of : OptionKind → EventOption → Option Identifier
parent_execution_of option_parent_execution o = some o.id
parent_execution_of _ o = none

abbrev pub retry_of : OptionKind → EventOption → Option Identifier
retry_of option_retry_of_execution o = some o.id
retry_of _ o = none

abbrev pub level_of : OptionKind → EventOption → Option Level
level_of option_level o = some o.level
level_of _ o = none

abbrev pub attempt_of : OptionKind → EventOption → Option ℕ
attempt_of option_execution_attempt o = some o.attempt
attempt_of _ o = none

abbrev pub source_of : OptionKind → EventOption → Option Text
source_of option_execution_source o = some o.source
source_of _ o = none

abbrev pub scope_of : OptionKind → EventOption → Option (Text × Text)
scope_of option_scope o = some (o.entity_type, o.entity_id)
scope_of _ o = none

abbrev pub entity_of : OptionKind → EventOption → Option (Text × Text)
entity_of option_entity o = some (o.entity_type, o.entity_id)
entity_of _ o = none

-- An event that carries what `options` say, over the event `e`.
pub record Carries (options : List EventOption) (e r : Event) : Type 0 where
  pub same_id : r.id ≡ e.id
  pub same_timestamp : r.timestamp ≡ e.timestamp
  pub same_kind : r.kind ≡ e.kind
  pub fields : r.fields ≡ e.fields ++ fields_of options
  pub level : r.level ≡ last_of level_of e.level options
  pub flow : r.flow_id ≡ last_of flow_of e.flow_id options
  pub execution : r.execution_id ≡ last_of execution_of e.execution_id options
  pub parent_execution :
      r.parent_execution_id ≡ last_of parent_execution_of e.parent_execution_id options
  pub retry : r.retry_of_execution_id ≡ last_of retry_of e.retry_of_execution_id options
  pub attempt : r.execution_attempt ≡ last_of attempt_of e.execution_attempt options
  pub source : r.execution_source ≡ last_of source_of e.execution_source options
  pub parent : r.parent_id ≡ last_of parent_of e.parent_id options
  pub scope : (r.scope_type, r.scope_id) ≡ last_of scope_of (e.scope_type, e.scope_id) options
  pub entity : (r.entity_type, r.entity_id) ≡ last_of entity_of (e.entity_type, e.entity_id) options

Carries-cons :
    (k : OptionKind) (o : EventOption) (options : List EventOption) (e r : Event)
    → o.kind ≡ k
    → Carries options (apply_kind k o e) r
    → Carries (o ∷ options) e r
unfolding apply_kind
Carries-cons option_field o options e r same c = record {
  same_id = c.same_id;
  same_timestamp = c.same_timestamp;
  same_kind = c.same_kind;
  fields = rw (same) (c.fields ∙ append_assoc e.fields (o.field ∷ []) (fields_of options));
  level = rw same c.level;
  flow = rw same c.flow;
  execution = rw same c.execution;
  parent_execution = rw same c.parent_execution;
  retry = rw same c.retry;
  attempt = rw same c.attempt;
  source = rw same c.source;
  parent = rw same c.parent;
  scope = rw same c.scope;
  entity = rw same c.entity;
}
Carries-cons _ o options e r same c = record {
  same_id = c.same_id;
  same_timestamp = c.same_timestamp;
  same_kind = c.same_kind;
  fields = rw (same) c.fields;
  level = rw same c.level;
  flow = rw same c.flow;
  execution = rw same c.execution;
  parent_execution = rw same c.parent_execution;
  retry = rw same c.retry;
  attempt = rw same c.attempt;
  source = rw same c.source;
  parent = rw same c.parent;
  scope = rw same c.scope;
  entity = rw same c.entity;
}

apply_options-Carries :
    (options : List EventOption) (e : Event) → Carries options e (apply_options options e)
unfolding apply_options
apply_options-Carries [] e = ground (arith, append-nil e.fields)
apply_options-Carries (o ∷ options) e =
    Carries-cons o.kind o options e (apply_options options (apply_kind o.kind o e)) refl
      (apply_options-Carries options (apply_kind o.kind o e))

-- The event that Log builds keeps its identifier, time and kind, has the fields of the field
-- options in their order, and in every other place the value of the last option that sets it, or
-- the default.
pub build_event-Carries :
    (id : Identifier) (now : ℤ) (kind : Text) (options : List EventOption)
    → Carries options (new_event id now kind) (build_event id now kind options)
unfolding build_event
build_event-Carries id now kind options = apply_options-Carries options (new_event id now kind)
