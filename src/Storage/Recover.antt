-- ===== src/Storage/Recover.antt =====
-- What `Normalize` stores of an event that `Log` built and `MarshalBatch` wrote.
use trail.Prelude.{
  ◌≤◌, ◌≡◌, refl, sym, ap, ap₂, ◌∙◌, replicate, length, true, false, none, some, List, [], ◌∷◌, map,
  Text, codes, text_eq, is_empty, All, Bool-cases, Option-cases, inl, inr, arith,
}
use trail.Id.{ok, Identifier, IsId, encode_id, decode_id, is_zero_id, zero_id}
use trail.Id.RoundTrip.{decode_id-encode_id}
use trail.Event.{Event, Metadata, Level, level_string}
use trail.Wire.{WireField, WireEvent, Envelope, validate}
use trail.Wire.Encode.{encode_field, encode_if_set, from_event, Result}
use trail.Wire.Valid.{IsTransportable, is_empty-encode_id, made_envelope, validate-made_envelope}
use trail.Storage.{Delivery, EventRecord, Batch, no_http}
use trail.Storage.Normalize.{
  parse_level, parse_or_zero, parse_if_set, set_known, Scan, apply_field, apply_fields,
  apply_default, start_record, finish_record, normalize_event, normalize,
}

-- A record without what the loop over the fields fills in.
abbrev pub core : EventRecord → EventRecord
core r = record r {
  flow_status = [];
  execution_status = [];
  execution_kind = [];
  retention_class = [];
  provider = [];
  has_error = false;
  http = no_http;
  payloads = [];
}

core-set_known : (f : WireField) (r r' : EventRecord) → set_known f r ≡ some r' → core r' ≡ core r
unfolding set_known
core-set_known f r r' h = ground arith

core-apply_default :
    (f : WireField) (s : Scan) → core (apply_default f s).record_of ≡ core s.record_of
unfolding apply_default
core-apply_default f s = elim (Bool-cases (text_eq f.type (codes "error"))) [
  | inl h ↦ rw h refl
  | inr h ↦ rw h refl
]

apply_field_known :
    (f : WireField) (s : Scan) (r : EventRecord)
    → set_known f s.record_of ≡ some r
    → (apply_field f s).record_of ≡ r
unfolding apply_field
apply_field_known f s r h = ground (arith, h)

apply_field_default :
    (f : WireField) (s : Scan)
    → set_known f s.record_of ≡ none
    → apply_field f s ≡ apply_default f s
unfolding apply_field
apply_field_default f s h = ground (arith, h)

core-apply_field : (f : WireField) (s : Scan) → core (apply_field f s).record_of ≡ core s.record_of
core-apply_field f s = elim (Option-cases (set_known f s.record_of)) [
  | inl h ↦ rw (apply_field_default f s h) (core-apply_default f s)
  | inr (r, h) ↦ rw (apply_field_known f s r h) (core-set_known f s.record_of r h)
]

core-apply_fields :
    (fields : List WireField) (s : Scan) → core (apply_fields fields s).record_of ≡ core s.record_of
unfolding apply_fields
core-apply_fields [] s = refl
core-apply_fields (f ∷ fields) s = core-apply_fields fields (apply_field f s) ∙ core-apply_field f s

-- Apart from what the fields fill in, the record is the one that the loop starts from.
pub core-normalize_event :
    (e : WireEvent) (metadata : Metadata) (batch_id : Identifier) (delivery : Delivery)
    → core (normalize_event e metadata batch_id delivery)
      ≡ start_record e metadata batch_id delivery
unfolding normalize_event finish_record start_record
core-normalize_event e metadata batch_id delivery = core-apply_fields e.fields _

parse_level-level_string : (l : Level) → l ≤ 3 → parse_level (level_string l) ≡ l
unfolding parse_level level_string text_eq
parse_level-level_string l h = ground arith

parse_or_zero_ok :
    (text : Text) (id : Identifier) → decode_id text ≡ ok id → parse_or_zero text ≡ id
unfolding parse_or_zero
parse_or_zero_ok text id h = ground (arith, h)

parse_or_zero-encode_id : (id : Identifier) → IsId id → parse_or_zero (encode_id id) ≡ id
parse_or_zero-encode_id id h = parse_or_zero_ok (encode_id id) id (decode_id-encode_id id h)

is_zero_id-replicate : (bs : Identifier) → is_zero_id bs ≡ true → bs ≡ replicate (length bs) 0
unfolding is_zero_id
is_zero_id-replicate [] h = refl
is_zero_id-replicate (b ∷ bs) h = ground (arith, is_zero_id-replicate bs)

zero_id_of_is_zero : (id : Identifier) → is_zero_id id ≡ true → IsId id → id ≡ zero_id
zero_id_of_is_zero id zero h = is_zero_id-replicate id zero ∙ ap (λ n. replicate n 0) h.0

parse_if_set-encode_if_set : (id : Identifier) → IsId id → parse_if_set (encode_if_set id) ≡ id
parse_if_set-encode_if_set id h = elim (Bool-cases (is_zero_id id)) [
  | inl zero ↦ rw zero (sym (zero_id_of_is_zero id zero h))
  | inr other ↦ rw (other, is_empty-encode_id id) (parse_or_zero-encode_id id h)
]

-- The stored form of an event, told without the wire: its own identifiers, time, kind and level.
abbrev pub stored : Event → Metadata → Identifier → Delivery → EventRecord
stored e metadata batch_id delivery = record {
  id = e.id;
  timestamp = e.timestamp;
  kind = e.kind;
  level = e.level;
  flow_id = e.flow_id;
  execution_id = e.execution_id;
  parent_execution_id = e.parent_execution_id;
  retry_of_execution_id = e.retry_of_execution_id;
  execution_attempt = e.execution_attempt;
  execution_source = e.execution_source;
  scope = record { type = e.scope_type; id = e.scope_id };
  entity_type = e.entity_type;
  entity_id = e.entity_id;
  parent_id = e.parent_id;
  fields = map encode_field e.fields;
  flow_status = [];
  execution_status = [];
  execution_kind = [];
  retention_class = [];
  provider = [];
  has_error = false;
  http = no_http;
  payloads = [];
  batch_id = batch_id;
  metadata = metadata;
  delivery = delivery;
}

start_record-from_event :
    (e : Event) (metadata : Metadata) (batch_id : Identifier) (delivery : Delivery)
    → IsTransportable e
    → start_record (from_event e) metadata batch_id delivery ≡ stored e metadata batch_id delivery
unfolding start_record from_event
start_record-from_event e metadata batch_id delivery t =
    rw
      (
        parse_or_zero-encode_id e.id t.id,
        parse_level-level_string e.level t.level,
        parse_if_set-encode_if_set e.flow_id t.flow_id,
        parse_if_set-encode_if_set e.execution_id t.execution_id,
        parse_if_set-encode_if_set e.parent_execution_id t.parent_execution_id,
        parse_if_set-encode_if_set e.retry_of_execution_id t.retry_of_execution_id,
        parse_if_set-encode_if_set e.parent_id t.parent_id,
      )
      refl

abbrev stored_batch : Metadata → Event → List Event → Delivery → List EventRecord
stored_batch metadata e events delivery = map (λ x. stored x metadata e.id delivery) (e ∷ events)

cores :
    (metadata : Metadata) (b batch_id : Identifier) (delivery : Delivery) (events : List Event)
    → b ≡ batch_id
    → All IsTransportable events
    → map core (map (λ x. normalize_event x metadata b delivery) (map from_event events))
      ≡ map (λ x. stored x metadata batch_id delivery) events
cores metadata b batch_id delivery [] same h = refl
cores metadata b batch_id delivery (e ∷ events) same (t, rest) =
    ap₂ ◌∷◌
      (core-normalize_event (from_event e) metadata b delivery
        ∙ (start_record-from_event e metadata b delivery t
            ∙ ap (λ x. stored e metadata x delivery) same))
      (cores metadata b batch_id delivery events same rest)

-- A batch, seen apart from what is read out of the fields.
abbrev pub core_batch : Batch → Batch
core_batch b = record b { events = map core b.events }

abbrev pub core_result : Result Batch → Result Batch
core_result (Result.ok b) = Result.ok (core_batch b)
core_result (Result.err e) = Result.err e

normalize_valid :
    (envelope : Envelope) (delivery : Delivery)
    → validate envelope ≡ none
    → normalize envelope delivery
      ≡ Result.ok (record {
        batch_id = parse_or_zero envelope.batch_id;
        metadata = envelope.metadata;
        delivery = delivery;
        events =
            map
              (λ x. normalize_event x envelope.metadata (parse_or_zero envelope.batch_id) delivery)
              envelope.events;
      })
unfolding normalize
normalize_valid envelope delivery h = ground (arith, h)

-- The envelope made of transportable events under a service name is normalised without an error
-- into records that carry, apart from what is read out of the fields, exactly the identifiers,
-- times, kinds, levels, scope, entities and fields of the events, in their order, with the
-- delivery and with the first event as the batch identifier.
pub normalize-made_envelope :
    (metadata : Metadata) (e : Event) (events : List Event) (delivery : Delivery)
    → is_empty metadata.service ≡ false
    → All IsTransportable (e ∷ events)
    → core_result (normalize (made_envelope metadata e events) delivery)
      ≡ Result.ok (record {
        batch_id = e.id;
        metadata = metadata;
        delivery = delivery;
        events = stored_batch metadata e events delivery;
      })
normalize-made_envelope metadata e events delivery service h =
    ap core_result (normalize_valid _ delivery (validate-made_envelope metadata e events service h))
    ∙ ap₂
        (λ b rs.
          Result.ok
            (record { batch_id = b; metadata = metadata; delivery = delivery; events = rs }))
        (parse_or_zero-encode_id e.id h.0.id)
        (cores metadata _ e.id delivery (e ∷ events) (parse_or_zero-encode_id e.id h.0.id) h)
