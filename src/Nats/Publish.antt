-- ===== src/Nats/Publish.antt =====
-- sink/nats/nats.go: `WriteBatch`, `PublishEnvelope`, `publish` and `Close`.
use trail.Prelude.{
  ℕ, Bool, true, false, not, Option, none, some, List, [], ◌∷◌, Text, codes, length, ltb, ◌==◌,
  if◌then◌else◌,
}
use trail.Prelude.Int.{ℤ, pos, negsuc}
use trail.Id.{encode_id}
use trail.Event.{Event, Batch}
use trail.Writer.{add64}
use trail.Wire.{Envelope, WireError}
use trail.Wire.Encode.{Json, Result, ok, err, marshal, marshal_batch}
use trail.Nats.{
  Config, jet_stream, Message, Call, publish_call, flush_call, store_call, close_call, World, Sink,
}

pub data SinkError : Type 0 where
  marshal_error : WireError → SinkError
  sink_closed connection_closed message_too_large send_failed : SinkError

abbrev pub did : Call → Sink → Sink
did call s = record s { calls = call ∷ s.calls }

unfoldable pub count_error : Sink → Sink
count_error s = record s {
  statistics = record (s.statistics) { errors = add64 s.statistics.errors 1 };
}

unfoldable pub count_bytes : ℕ → Sink → Sink
count_bytes n s = record s {
  statistics = record (s.statistics) { bytes = add64 s.statistics.bytes n };
}

unfoldable pub count_sent : ℕ → Sink → Sink
count_sent n s = record s {
  statistics = record (s.statistics) {
    messages = add64 s.statistics.messages 1;
    events = add64 s.statistics.events n;
  };
}

abbrev pub message_of : Config → Text → Message
message_of cfg content = record {
  subject = cfg.subject;
  content = content;
  content_type = codes "application/vnd.vestavision.trail.batch+json";
  schema_version = codes "1";
}

abbrev pub too_large : ℕ → ℤ → Bool
too_large n (pos max) = ltb max n
too_large n (negsuc _) = true

-- What follows the call that sends.
unfoldable pub settle : ℕ → Sink × Bool → Sink × Option SinkError
settle count (s, false) = (count_error s, some send_failed)
settle count (s, true) = (count_sent count s, none)

-- The identifier of the first event; a batch without events is not marshalled.
abbrev pub first_id : List Event → Text
first_id [] = []
first_id (e ∷ _) = encode_id e.id

-- The calls of a sink.
pub data Operation : Type 0 where
  write_operation : Batch → Operation
  envelope_operation : Envelope → Operation
  close_operation : Operation

module _ (world : World) where
  unfoldable pub flush : Sink → Sink × Bool
  flush s =
      (did (flush_call s.cfg.publish_timeout (world.flushes s.calls)) s, world.flushes s.calls)

  unfoldable pub flush_after : Sink × Bool → Sink × Bool
  flush_after (s, false) = (s, false)
  flush_after (s, true) = flush s

  unfoldable pub send : Text → Text → Sink → Sink × Bool
  send content batch_id s =
      let message = message_of s.cfg content in
      if s.cfg.mode == jet_stream
      then (let stored = world.stores s.calls message batch_id in
          (did (store_call message batch_id stored) s, stored))
      else (let published = world.publishes s.calls message in
          flush_after (did (publish_call message published) s, published))

  unfoldable pub publish : Text → Text → ℕ → Sink → Sink × Option SinkError
  publish content batch_id count s =
      if s.closed
      then (s, some sink_closed)
      else if world.is_closed s.calls
      then (count_error s, some connection_closed)
      else if too_large (length content) s.cfg.max_message_bytes
      then (count_error (count_bytes (length content) s), some message_too_large)
      else settle count (send content batch_id (count_bytes (length content) s))

  -- `Close`, and whether it gives an error: that of the last flush of a borrowed connection.
  unfoldable pub close_open : Sink → Sink × Bool
  close_open s =
      if s.owned
      then (did close_call s, false)
      else if world.is_closed s.calls
      then (s, false)
      else ((flush s).0, not (flush s).1)

  unfoldable pub close_sink : Sink → Sink × Bool
  close_sink s = if s.closed then (s, false) else close_open (record s { closed = true })

  -- What follows the marshalling.
  unfoldable pub publish_marshalled : Result Text → Text → ℕ → Sink → Sink × Option SinkError
  publish_marshalled (err e) batch_id count s = (count_error s, some (marshal_error e))
  publish_marshalled (ok content) batch_id count s = publish content batch_id count s

  module _ (json : Json) where
    unfoldable pub write_batch : Batch → Sink → Sink × Option SinkError
    write_batch batch s =
        publish_marshalled (marshal_batch json batch) (first_id batch.events) (length batch.events)
          s

    unfoldable pub publish_envelope : Envelope → Sink → Sink × Option SinkError
    publish_envelope envelope s =
        publish_marshalled (marshal json envelope) envelope.batch_id (length envelope.events) s

    unfoldable pub apply_operation : Operation → Sink → Sink
    apply_operation (write_operation batch) s = (write_batch batch s).0
    apply_operation (envelope_operation envelope) s = (publish_envelope envelope s).0
    apply_operation close_operation s = (close_sink s).0

    unfoldable pub apply_all : List Operation → Sink → Sink
    apply_all [] s = s
    apply_all (o ∷ operations) s = apply_all operations (apply_operation o s)
