-- ===== src/Ingest.antt =====
-- ingestor/ingestor.go: the engine that moves envelopes from the stream into the store.
pub mod Engine
pub mod Decode
pub mod Safety
pub mod Settle
pub mod Limits
pub mod Made
mod Tests
use trail.Prelude.{
  ℕ, ◌%◌, ◌^◌, ◌+◌, Bool, false, Option, List, [], ◌∷◌, Text, is_empty, codes, ◌==◌, not, ◌||◌,
  if◌then◌else◌, none, some,
}
use trail.Prelude.Int.{ℤ, pos, negsuc}
use trail.Wire.{WireError}
use trail.Payload.{Time}
use trail.Storage.{Batch}

pub record Config : Type 0 where
  pub max_messages : ℤ
  pub max_events : ℤ
  pub max_bytes : ℤ
  pub fetch_wait : ℤ
  pub write_timeout : ℤ
  pub ack_timeout : ℤ
  pub max_deliveries : ℕ
  pub nak_delay : ℤ
  pub dlq_subject : Text

-- The configuration of a made `Engine`. Its sizes and times are positive, so they are natural.
pub record Settings : Type 0 where
  pub max_messages : ℕ
  pub max_events : ℕ
  pub max_bytes : ℕ
  pub fetch_wait : ℕ
  pub write_timeout : ℕ
  pub ack_timeout : ℕ
  pub max_deliveries : ℕ
  pub nak_delay : ℕ
  pub dlq_subject : Text

-- `if value <= 0 { value = default }`
abbrev pub positive_or : ℤ → ℕ → ℕ
positive_or (pos n) default = if n == 0 then default else n
positive_or (negsuc _) default = default

-- `New`: whether there are a consumer, a store and a publisher, and the configuration.
unfoldable pub new : Bool → Bool → Bool → Config → Option Settings
new consumer store dlq cfg =
    if not consumer || not store || not dlq
    then none
    else some (record {
      max_messages = positive_or cfg.max_messages 64;
      max_events = positive_or cfg.max_events 4096;
      max_bytes = positive_or cfg.max_bytes 8_388_608;
      fetch_wait = positive_or cfg.fetch_wait 1_000_000_000;
      write_timeout = positive_or cfg.write_timeout 10_000_000_000;
      ack_timeout = positive_or cfg.ack_timeout 2_000_000_000;
      max_deliveries = if cfg.max_deliveries == 0 then 5 else cfg.max_deliveries;
      nak_delay = positive_or cfg.nak_delay 1_000_000_000;
      dlq_subject =
          if is_empty cfg.dlq_subject then codes "trail.events.dlq.v1" else cfg.dlq_subject;
    })

-- What `message.Metadata()` gives.
pub record MessageMetadata : Type 0 where
  pub stream : Text
  pub consumer : Text
  pub stream_sequence : ℕ
  pub consumer_sequence : ℕ
  pub num_delivered : ℕ

-- A message of the stream; `body` is `Data()`. Its metadata is missing where `Metadata` fails; the token tells messages
-- apart.
pub record Message : Type 0 where
  pub token : ℕ
  pub subject : Text
  pub body : Text
  pub metadata : Option MessageMetadata

pub record Pending : Type 0 where
  pub message : Message
  pub batch : Batch
  pub bytes : ℕ

pub record Counters : Type 0 where
  pub messages_fetched : ℕ
  pub messages_decoded : ℕ
  pub messages_acked : ℕ
  pub messages_dlq : ℕ
  pub redeliveries : ℕ
  pub events_written : ℕ
  pub bytes_fetched : ℕ
  pub decode_errors : ℕ
  pub write_errors : ℕ
  pub ack_errors : ℕ

-- Why a message is given up.
pub data Cause : Type 0 where
  no_metadata write_failed : Cause
  oversized : ℕ → Cause
  undecodable not_normal : WireError → Cause

-- The headers that `deadLetter` sets.
pub record Header : Type 0 where
  pub reason : Text
  pub error : Text
  pub original_subject : Text

-- The calls of the outside world, each with whether it succeeded. `nak_call` is `NakWithDelay`, whose
-- result is not looked at.
pub data Action : Type 0 where
  write_call : List Pending → Bool → Action
  double_ack_call : Message → Bool → Action
  dlq_call : Message → Header → Bool → Action
  ack_call : Message → Bool → Action
  nak_call : Message → Action

-- The state of the engine: the counters, and what it has done, the last call first.
pub record State : Type 0 where
  pub counters : Counters
  pub trace : List Action

-- The outside world: what each call answers after the calls before it, the clock, and the text of
-- errors.
pub record World : Type 0 where
  pub writes : List Action → List Pending → Bool
  pub double_acks : List Action → Message → Bool
  pub publishes : List Action → Message → Bool
  pub acks : List Action → Message → Bool
  pub clock : List Action → Time
  pub describe : Cause → Text
