-- ===== src/Ingest/Engine.antt =====
-- ingestor/ingestor.go: the methods of `Engine`.
use trail.Prelude.{
  ℕ, ◌+◌, ◌%◌, ◌^◌, Bool, true, false, ◌&&◌, ◌||◌, Option, none, some, List, [], ◌∷◌, ◌++◌, Text,
  codes, length, take, leb, ltb, if◌then◌else◌,
}
use trail.Wire.Encode.{Result, Json, unmarshal}
use trail.Wire.{Envelope}
use trail.Storage.{Batch}
use trail.Storage.Normalize.{normalize}
use trail.Ingest.{
  Settings, MessageMetadata, Message, Pending, Counters, Cause, no_metadata, write_failed,
  oversized, undecodable, not_normal, Header, Action, write_call, double_ack_call, dlq_call,
  ack_call, nak_call, State, World,
}

-- `Add` on an `atomic.Uint64`.
abbrev pub plus64 : ℕ → ℕ → ℕ
plus64 a b = (a + b) % 2 ^ 64

unfoldable pub bounded_error : Option Text → Text
bounded_error none = []
bounded_error (some text) = if ltb 512 (length text) then take 512 text else text

abbrev pub did : Action → State → State
did a s = record s { trace = a ∷ s.trace }

abbrev pub count : (Counters → Counters) → State → State
count change s = record s { counters = change s.counters }

abbrev pub more_fetched : Message → Counters → Counters
more_fetched m c = record c {
  messages_fetched = plus64 c.messages_fetched 1;
  bytes_fetched = plus64 c.bytes_fetched (length m.body);
}

abbrev pub more_decoded : Counters → Counters
more_decoded c = record c { messages_decoded = plus64 c.messages_decoded 1 }

abbrev pub more_redeliveries : Counters → Counters
more_redeliveries c = record c { redeliveries = plus64 c.redeliveries 1 }

abbrev pub more_decode_errors : Counters → Counters
more_decode_errors c = record c { decode_errors = plus64 c.decode_errors 1 }

abbrev pub more_write_errors : Counters → Counters
more_write_errors c = record c { write_errors = plus64 c.write_errors 1 }

abbrev pub more_ack_errors : Counters → Counters
more_ack_errors c = record c { ack_errors = plus64 c.ack_errors 1 }

abbrev pub more_acked : Counters → Counters
more_acked c = record c { messages_acked = plus64 c.messages_acked 1 }

abbrev pub more_dlq : Counters → Counters
more_dlq c = record c {
  messages_dlq = plus64 c.messages_dlq 1;
  messages_acked = plus64 c.messages_acked 1;
}

abbrev pub more_events : ℕ → Counters → Counters
more_events n c = record c { events_written = plus64 c.events_written n }

-- The number of events of a group.
abbrev pub events_of : List Pending → ℕ
events_of [] = 0
events_of (item ∷ group) = length item.batch.events + events_of group

abbrev pub bytes_of : List Pending → ℕ
bytes_of [] = 0
bytes_of (item ∷ group) = item.bytes + bytes_of group

-- One turn of the loop of `Run`: what `Fetch` gives, and whether the context is done when it is asked.
pub data Turn : Type 0 where
  cancelled fetch_failed fetch_failed_cancelled : Turn
  fetched : List Message → Option Bool → Turn

-- How `Run` ends. It is `running` while more turns follow.
pub data Exit : Type 0 where
  running stopped failed : Exit

-- The group that `Run` gathers, with its sums `events` and `bytes`.
pub record Group : Type 0 where
  pub items : List Pending
  pub events : ℕ
  pub bytes : ℕ

abbrev pub no_group : Group
no_group = record { items = []; events = 0; bytes = 0 }

abbrev pub is_nonempty : List Pending → Bool
is_nonempty [] = false
is_nonempty (_ ∷ _) = true

unfoldable pub append_item : Group → Pending → Group
append_item g item = record {
  items = g.items ++ item ∷ [];
  events = g.events + length item.batch.events;
  bytes = g.bytes + item.bytes;
}

module _ (world : World) where
  abbrev header_of : Message → Text → Cause → Header
  header_of m reason cause = record {
    reason = reason;
    error = bounded_error (some (world.describe cause));
    original_subject = m.subject;
  }

  -- The end of `deadLetter`, after a publication.
  unfoldable pub ack_dead : Message → State → State
  ack_dead m s = elim (world.acks s.trace m) [
    | true ↦ count more_dlq (did (ack_call m true) s)
    | false ↦ count more_ack_errors (did (ack_call m false) s)
  ]

  unfoldable pub dead_letter : Message → Text → Cause → State → State
  dead_letter m reason cause s = elim (world.publishes s.trace m) [
    | true ↦ ack_dead m (did (dlq_call m (header_of m reason cause) true) s)
    | false ↦ did (nak_call m) (did (dlq_call m (header_of m reason cause) false) s)
  ]

  -- The loop of `write` over the group, and its body.
  unfoldable pub ack_one : Pending → State → State
  ack_one item s = elim (world.double_acks s.trace item.message) [
    | true ↦ count more_acked (did (double_ack_call item.message true) s)
    | false ↦ count more_ack_errors (did (double_ack_call item.message false) s)
  ]

  unfoldable pub ack_group : List Pending → State → State
  ack_group [] s = s
  ack_group (item ∷ group) s = ack_group group (ack_one item s)

  abbrev spent : ℕ → Option MessageMetadata → Bool
  spent limit none = false
  spent limit (some metadata) = leb limit metadata.num_delivered

  module _ (cfg : Settings) where
    -- The loop of `reject`, and its body.
    unfoldable pub reject_one : Pending → State → State
    reject_one item s = elim (spent cfg.max_deliveries item.message.metadata) [
      | true ↦ dead_letter item.message (codes "max-deliveries") write_failed s
      | false ↦ did (nak_call item.message) s
    ]

    unfoldable pub reject : List Pending → State → State
    reject [] s = s
    reject (item ∷ group) s = reject group (reject_one item s)

    -- `write`, and `reject` where it fails, as `Run` calls them.
    unfoldable pub write : List Pending → State → State
    write group s = elim (world.writes s.trace group) [
      | true ↦
          ack_group group (count (more_events (events_of group)) (did (write_call group true) s))
      | false ↦ reject group (count more_write_errors (did (write_call group false) s))
    ]

    unfoldable pub give_up_on : Message → Text → Cause → State → State × Option Pending
    give_up_on m reason cause s = (dead_letter m reason cause (count more_decode_errors s), none)

    unfoldable pub decode_batch : Message → Result Batch → State → State × Option Pending
    decode_batch m (Result.err e) s = give_up_on m (codes "normalize") (not_normal e) s
    decode_batch m (Result.ok batch) s =
        (count more_decoded s, some (record { message = m; batch = batch; bytes = length m.body }))

    unfoldable pub decode_envelope :
        Message → MessageMetadata → Result Envelope → State → State × Option Pending
    decode_envelope m metadata (Result.err e) s = give_up_on m (codes "decode") (undecodable e) s
    decode_envelope m metadata (Result.ok envelope) s =
        decode_batch m
          (normalize envelope (record {
            stream = metadata.stream;
            consumer = metadata.consumer;
            stream_sequence = metadata.stream_sequence;
            consumer_sequence = metadata.consumer_sequence;
            delivered = metadata.num_delivered;
            received_at = world.clock s.trace;
          }))
          s

    abbrev count_redelivery : MessageMetadata → State → State
    count_redelivery metadata s =
        if ltb 1 metadata.num_delivered then count more_redeliveries s else s

    unfoldable pub decode_sized : Json → Message → MessageMetadata → State → State × Option Pending
    decode_sized json m metadata s =
        if ltb cfg.max_bytes (length m.body)
        then give_up_on m (codes "oversized") (oversized (length m.body)) s
        else decode_envelope m metadata (unmarshal json m.body) s

    unfoldable pub decode_known :
        Json → Message → Option MessageMetadata → State → State × Option Pending
    decode_known json m none s = give_up_on m (codes "metadata") no_metadata s
    decode_known json m (some metadata) s =
        decode_sized json m metadata (count_redelivery metadata s)

    unfoldable pub decode : Json → Message → State → State × Option Pending
    decode json m s = decode_known json m m.metadata (count (more_fetched m) s)

    -- The test for a full group.
    unfoldable pub is_full : Group → Pending → Bool
    is_full g item =
        is_nonempty g.items
        && (ltb cfg.max_events (g.events + length item.batch.events)
            || ltb cfg.max_bytes (g.bytes + item.bytes))

    -- The body of the loop over the messages, after `decode`: a full group is written first.
    unfoldable pub join : Option Pending → Group → State → State × Group
    join none g s = (s, g)
    join (some item) g s = elim (is_full g item) [
      | true ↦ (write g.items s, append_item no_group item)
      | false ↦ (s, append_item g item)
    ]

    -- `if len(group) != 0` after the loop.
    unfoldable pub write_last : List Pending → State → State
    write_last [] s = s
    write_last (item ∷ group) s = write (item ∷ group) s

    -- The loop over the messages of one fetch, and the write of the last group.
    unfoldable pub messages_loop : Json → List Message → Group → State → State
    messages_loop json [] g s = write_last g.items s
    messages_loop json (m ∷ messages) g s =
        let decoded = decode json m s in
        let joined = join decoded.1 g decoded.0 in messages_loop json messages joined.1 joined.0

    -- An error of the result ends `Run` unless it is the timeout (`some false`) or the context is done.
    unfoldable pub run : Json → List Turn → State → State × Exit
    run json [] s = (s, running)
    run json (cancelled ∷ turns) s = (s, stopped)
    run json (fetch_failed ∷ turns) s = (s, failed)
    run json (fetch_failed_cancelled ∷ turns) s = (s, stopped)
    run json (fetched messages (some true) ∷ turns) s =
        (messages_loop json messages no_group s, failed)
    run json (fetched messages (some false) ∷ turns) s =
        run json turns (messages_loop json messages no_group s)
    run json (fetched messages none ∷ turns) s =
        run json turns (messages_loop json messages no_group s)
