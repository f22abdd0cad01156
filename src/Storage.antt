-- ===== src/Storage.antt =====
-- storage/storage.go: the records that ingestion stores.
pub mod Query
pub mod Normalize
pub mod Recover
pub mod Sorted
pub mod Links
pub mod RefFields
mod Tests
use trail.Prelude.{ℕ, Bool, false, List, [], Text}
use trail.Prelude.Int.{ℤ, pos}
use trail.Id.{Identifier}
use trail.Event.{Level, Scope, Metadata}
use trail.Wire.{WireField}
use trail.Payload.{Time, Ref, no_ref}

pub record Delivery : Type 0 where
  pub stream : Text
  pub consumer : Text
  pub stream_sequence : ℕ
  pub consumer_sequence : ℕ
  pub delivered : ℕ
  pub received_at : Time

pub record PayloadLink : Type 0 where
  pub role : Text
  pub ref : Ref
  pub original_size : ℤ
  pub captured_size : ℤ
  pub truncated : Bool
  pub error : Text

-- `&PayloadLink{Role: role}`
abbrev pub new_link : Text → PayloadLink
new_link role = record {
  role = role;
  ref = no_ref;
  original_size = pos 0;
  captured_size = pos 0;
  truncated = false;
  error = [];
}

pub record HttpRecord : Type 0 where
  pub method : Text
  pub scheme : Text
  pub host : Text
  pub path : Text
  pub status_code : ℤ
  pub duration : ℤ
  pub success : Bool
  pub request_size : ℤ
  pub response_size : ℤ
  pub request_preview : Text
  pub response_preview : Text

abbrev pub no_http : HttpRecord
no_http = record {
  method = [];
  scheme = [];
  host = [];
  path = [];
  status_code = pos 0;
  duration = pos 0;
  success = false;
  request_size = pos 0;
  response_size = pos 0;
  request_preview = [];
  response_preview = [];
}

pub record EventRecord : Type 0 where
  pub id : Identifier
  pub timestamp : Time
  pub kind : Text
  pub level : Level
  pub flow_id : Identifier
  pub execution_id : Identifier
  pub parent_execution_id : Identifier
  pub retry_of_execution_id : Identifier
  pub execution_attempt : ℕ
  pub execution_source : Text
  pub scope : Scope
  pub entity_type : Text
  pub entity_id : Text
  pub parent_id : Identifier
  pub fields : List WireField
  pub flow_status : Text
  pub execution_status : Text
  pub execution_kind : Text
  pub retention_class : Text
  pub provider : Text
  pub has_error : Bool
  pub http : HttpRecord
  pub payloads : List PayloadLink
  pub batch_id : Identifier
  pub metadata : Metadata
  pub delivery : Delivery

pub record Batch : Type 0 where
  pub batch_id : Identifier
  pub metadata : Metadata
  pub delivery : Delivery
  pub events : List EventRecord
