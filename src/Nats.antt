-- ===== src/Nats.antt =====
-- sink/nats/nats.go: the sink that publishes each batch as one message.
pub mod Publish
pub mod Cases
pub mod Published
pub mod Counted
mod Tests
use trail.Prelude.{
  ℕ, Bool, true, false, not, ◌&&◌, ◌||◌, Option, none, some, List, [], ◌∷◌, Text, codes, contains,
  is_empty, length, ltb, ◌==◌, if◌then◌else◌,
}
use trail.Prelude.Int.{ℤ, pos, negsuc}
use trail.Id.{encode_id}
use trail.Event.{Event, Batch}
use trail.Writer.{add64}
use trail.Config.{is_negative, or_default}
use trail.Wire.{Envelope, WireError}
use trail.Wire.Encode.{Json, Result, ok, err, marshal, marshal_batch}

-- `Config`; the mode is a uint8, the timeout a count of nanoseconds.
pub record Config : Type 0 where
  pub subject : Text
  pub mode : ℕ
  pub publish_timeout : ℤ
  pub max_message_bytes : ℤ

abbrev core : ℕ
core = 0

abbrev pub jet_stream : ℕ
jet_stream = 1

pub data ConfigError : Type 0 where
  unknown_mode negative_limit invalid_subject : ConfigError

pub data Normalized : Type 0 where
  normal : Config → Normalized
  invalid : ConfigError → Normalized

-- The characters of the literal `" \t\r\n*>"`
abbrev pub is_forbidden : ℕ → Bool
is_forbidden c = c == 32 || c == 9 || c == 13 || c == 10 || c == b'*' || c == b'>'

abbrev onto_first : ℕ → List Text → List Text
onto_first c [] = (c ∷ []) ∷ []
onto_first c (token ∷ tokens) = (c ∷ token) ∷ tokens

-- `strings.Split(subject, ".")`
unfoldable pub split : Text → List Text
split [] = [] ∷ []
split (c ∷ s) = let tokens = split s in if c == b'.' then [] ∷ tokens else onto_first c tokens

unfoldable pub all_set : List Text → Bool
all_set [] = true
all_set (token ∷ tokens) = not (is_empty token) && all_set tokens

unfoldable pub valid_publish_subject : Text → Bool
valid_publish_subject subject =
    if is_empty subject || contains is_forbidden subject then false else all_set (split subject)

abbrev pub with_defaults : Config → Config
with_defaults cfg = record cfg {
  subject = if is_empty cfg.subject then codes "trail.events.v1" else cfg.subject;
  publish_timeout = or_default cfg.publish_timeout (pos 2_000_000_000);
  max_message_bytes = or_default cfg.max_message_bytes (pos 1_048_576);
}

unfoldable pub normalize : Config → Normalized
normalize cfg =
    if not (cfg.mode == core || cfg.mode == jet_stream)
    then invalid unknown_mode
    else if is_negative cfg.publish_timeout || is_negative cfg.max_message_bytes
    then invalid negative_limit
    else if not (valid_publish_subject (with_defaults cfg).subject)
    then invalid invalid_subject
    else normal (with_defaults cfg)

-- A message with its two headers, `Content-Type` and `Trail-Schema-Version`.
pub record Message : Type 0 where
  pub subject : Text
  pub content : Text
  pub content_type : Text
  pub schema_version : Text

-- The calls of the connection and whether they succeeded; `store_call`, with the identifier of the
-- message, is the `PublishMsg` of JetStream.
pub data Call : Type 0 where
  publish_call : Message → Bool → Call
  flush_call : ℤ → Bool → Call
  store_call : Message → Text → Bool → Call
  close_call : Call

-- What the connection answers after the calls before. It may close by itself.
pub record World : Type 0 where
  pub is_closed : List Call → Bool
  pub publishes : List Call → Message → Bool
  pub flushes : List Call → Bool
  pub stores : List Call → Message → Text → Bool

pub record Statistics : Type 0 where
  pub messages : ℕ
  pub events : ℕ
  pub bytes : ℕ
  pub errors : ℕ

-- The sink, with the calls it has made, the last first. The locks and the atomic counters make each
-- operation one step, but that calls of `publish` that run at once may call the connection at once.
pub record Sink : Type 0 where
  pub cfg : Config
  pub owned : Bool
  pub closed : Bool
  pub statistics : Statistics
  pub calls : List Call

pub data NewError : Type 0 where
  nil_connection closed_connection no_jet_stream dial_failed : NewError
  bad_config : ConfigError → NewError

-- A sink, or an error with the calls that were made.
pub data Made : Type 0 where
  made : Sink → Made
  refused : NewError → List Call → Made

abbrev pub fresh : Config → Bool → Sink
fresh cfg owned = record {
  cfg = cfg;
  owned = owned;
  closed = false;
  statistics = record { messages = 0; events = 0; bytes = 0; errors = 0 };
  calls = [];
}

abbrev pub sink_of : Bool → Bool → Normalized → Made
sink_of streams owned (invalid e) = refused (bad_config e) []
sink_of streams owned (normal cfg) =
    if cfg.mode == jet_stream && not streams
    then refused no_jet_stream []
    else made (fresh cfg owned)

-- `newSink`, `New` where the connection is not owned: whether the connection is there, whether it
-- is closed, and whether `jetstream.New` succeeds.
unfoldable pub new_sink : Bool → Bool → Bool → Config → Bool → Made
new_sink present closed streams cfg owned =
    if not present
    then refused nil_connection []
    else if closed
    then refused closed_connection []
    else sink_of streams owned (normalize cfg)

abbrev or_close : Made → Made
or_close (made s) = made s
or_close (refused e calls) = refused e (close_call ∷ calls)

abbrev connect_with : Bool → Bool → Bool → Normalized → Made
connect_with dials closed streams (invalid e) = refused (bad_config e) []
connect_with false closed streams (normal cfg) = refused dial_failed []
connect_with true closed streams (normal cfg) = or_close (new_sink true closed streams cfg true)

-- `Connect`: whether the connection is made comes first.
unfoldable pub connect : Bool → Bool → Bool → Config → Made
connect dials closed streams cfg = connect_with dials closed streams (normalize cfg)
