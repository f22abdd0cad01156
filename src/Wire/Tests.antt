-- ===== src/Wire/Tests.antt =====
-- A batch of one event on the wire.
use trail.Prelude.{◌≡◌, refl, some, [], ◌∷◌, codes, replicate, ◌++◌, arith}
use trail.Prelude.Int.{pos}
use trail.Id.{zero_id}
use trail.Event.{Event, Metadata, level_warn, string_kind}
use trail.Wire.{Envelope}
use trail.Wire.Encode.{Json, marshal_batch, unmarshal, Result}
use trail.Wire.Valid.{IsTransportable, unmarshal-marshal_batch, made_envelope}

abbrev pub sample_event : Event
sample_event = record {
  id = replicate 15 0 ++ 7 ∷ [];
  timestamp = pos 5;
  kind = codes "http";
  level = level_warn;
  flow_id = replicate 15 0 ++ 9 ∷ [];
  execution_id = zero_id;
  parent_execution_id = zero_id;
  retry_of_execution_id = zero_id;
  execution_attempt = 0;
  execution_source = [];
  scope_type = [];
  scope_id = [];
  entity_type = [];
  entity_id = [];
  parent_id = zero_id;
  fields = record { key = codes "provider"; kind = string_kind; text = codes "x"; num = 0 } ∷ [];
}

pub sample_event-IsTransportable : IsTransportable sample_event
sample_event-IsTransportable = record {
  id = ground arith;
  flow_id = ground arith;
  execution_id = ground arith;
  parent_execution_id = ground arith;
  retry_of_execution_id = ground arith;
  parent_id = ground arith;
  timestamp = refl;
  kind = refl;
  level = omega arith;
  scope = refl;
  fields = ground arith;
}

abbrev pub service : Metadata
service = record { service = codes "shop"; environment = []; version = [] }

abbrev one_event : Envelope
one_event = made_envelope service sample_event []

-- A codec that knows one envelope.
abbrev json : Json
json = record { write = λ envelope. some (codes "{}"); read = λ bytes. some one_event }

unmarshal-marshal_batch_example :
    (marshal_batch json (record { metadata = service; events = sample_event ∷ [] })
      ≡ Result.ok (codes "{}"))
    × (unmarshal json (codes "{}") ≡ Result.ok one_event)
unmarshal-marshal_batch_example =
    unmarshal-marshal_batch json service sample_event [] (codes "{}") refl
      (sample_event-IsTransportable, tt) refl refl
