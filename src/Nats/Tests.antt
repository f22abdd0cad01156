-- ===== src/Nats/Tests.antt =====
-- A sink of NATS that gets a batch, is closed, and gets another one.
use trail.Prelude.{◌≡◌, refl, ◌∷◌, [], List, true, false, some, none, contains, codes, ◌&&◌}
use trail.Prelude.Int.{pos}
use trail.Event.{Batch}
use trail.Wire.Encode.{Json}
use trail.Wire.Tests.{sample_event, service}
use trail.Nats.{
  Config, World, Sink, made, fresh, with_defaults, new_sink, valid_publish_subject, normalize,
  all_set, split,
}
use trail.Nats.Publish.{Operation, write_operation, close_operation, apply_all}
use trail.Nats.Published.{AllFit, closes, once_if, apply_all-Limited}
use trail.Nats.Counted.{Counts, over_calls, if_sent, failures, sent_messages, apply_all-Counted}

abbrev raw : Config
raw = record { subject = []; mode = 1; publish_timeout = pos 0; max_message_bytes = pos 100 }

abbrev sink : Sink
sink = fresh (with_defaults raw) true

abbrev json : Json
json = record { write = λ envelope. some (codes "{}"); read = λ text. none }

abbrev world : World
world = record {
  is_closed = λ calls. false;
  publishes = λ calls message. true;
  flushes = λ calls. true;
  stores = λ calls message id. true;
}

abbrev batch : Batch
batch = record { metadata = service; events = sample_event ∷ [] }

abbrev operations : List Operation
operations = write_operation batch ∷ close_operation ∷ write_operation batch ∷ close_operation ∷ []

sink_is_made : new_sink true false true raw true ≡ made sink
unfolding new_sink normalize valid_publish_subject contains all_set split
sink_is_made = refl

apply_all-Limited_example :
    let t = apply_all world json operations sink in
    (valid_publish_subject sink.cfg.subject ≡ true)
    × AllFit sink.cfg t.calls
    × (closes t.calls ≡ once_if (t.closed && true))
apply_all-Limited_example =
    apply_all-Limited true false true true raw sink world json operations sink_is_made

apply_all-Counted_example :
    Counts
      (apply_all world json operations sink)
      (over_calls world json sent_messages operations sink)
      (over_calls world json if_sent operations sink)
      (over_calls world json failures operations sink)
apply_all-Counted_example =
    apply_all-Counted world json true false true true raw sink operations sink_is_made
