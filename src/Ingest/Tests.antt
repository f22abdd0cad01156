-- ===== src/Ingest/Tests.antt =====
-- A fetch of two messages: one that is decoded, and one without metadata.
use trail.Prelude.{◌≡◌, Bool, true, false, none, some, List, [], ◌∷◌, codes, ◌==◌, ◌+◌}
use trail.Prelude.Int.{pos}
use trail.Wire.Valid.{made_envelope}
use trail.Wire.Encode.{Json}
use trail.Wire.Tests.{sample_event, service}
use trail.Ingest.{Settings, Message, State, World}
use trail.Ingest.Engine.{Turn, run, messages_loop, no_group}
use trail.Ingest.Safety.{Safe, run-Safe}
use trail.Ingest.Settle.{settled, among, messages_loop-settled}
use trail.Ingest.Limits.{Limited, run-Limited}

abbrev settings : Settings
settings = record {
  max_messages = 2;
  max_events = 1;
  max_bytes = 10;
  fetch_wait = 1;
  write_timeout = 1;
  ack_timeout = 1;
  max_deliveries = 2;
  nak_delay = 1;
  dlq_subject = codes "dlq";
}

-- A world in which every call succeeds.
abbrev world : World
world = record {
  writes = λ trace group. true;
  double_acks = λ trace m. true;
  publishes = λ trace m. true;
  acks = λ trace m. true;
  clock = λ trace. pos 9;
  describe = λ cause. codes "error";
}

abbrev json : Json
json = record {
  write = λ envelope. some (codes "{}");
  read = λ bytes. some (made_envelope service sample_event []);
}

abbrev good : Message
good = record {
  token = 1;
  subject = codes "events";
  body = codes "{}";
  metadata = some (record {
    stream = codes "s";
    consumer = codes "c";
    stream_sequence = 1;
    consumer_sequence = 1;
    num_delivered = 1;
  });
}

abbrev bad : Message
bad = record { token = 2; subject = codes "events"; body = codes "{}"; metadata = none }

abbrev start : State
start = record {
  counters = record {
    messages_fetched = 0;
    messages_decoded = 0;
    messages_acked = 0;
    messages_dlq = 0;
    redeliveries = 0;
    events_written = 0;
    bytes_fetched = 0;
    decode_errors = 0;
    write_errors = 0;
    ack_errors = 0;
  };
  trace = [];
}

abbrev turns : List Turn
turns = Turn.fetched (good ∷ bad ∷ []) (some false) ∷ Turn.cancelled ∷ []

run-Safe_example : Safe (run world settings json turns start).0.trace
run-Safe_example = run-Safe world settings json turns start tt

run-Limited_example : Limited settings (run world settings json turns start).0.trace
run-Limited_example = run-Limited settings world json turns start tt

abbrev is_bad : Message → Bool
is_bad m = m.token == 2

messages_loop-settled_example :
    settled is_bad (messages_loop world settings json (good ∷ bad ∷ []) no_group start).trace
    ≡ among is_bad (good ∷ bad ∷ []) + settled is_bad start.trace
messages_loop-settled_example =
    messages_loop-settled is_bad world settings json (good ∷ bad ∷ []) start
