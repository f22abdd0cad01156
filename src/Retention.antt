-- ===== src/Retention.antt =====
-- retention/retention.go: the data of the retention engine.
pub mod Policy
pub mod Archived
pub mod Engine
pub mod Run
pub mod Fuel
pub mod Guard
pub mod Dry
pub mod Expiry
pub mod Collect
pub mod Candidate
pub mod Collected
pub mod Whole
pub mod Rounds
mod Tests
use trail.Prelude.{ℕ, Bool, Option, List, Text}
use trail.Prelude.Int.{ℤ}
use trail.Event.{Level}
use trail.Payload.{Time, Ref}
use trail.Storage.{EventRecord}
use trail.Archive.{Receipt}

-- Nil pointers are `none`.
pub record EventMatch : Type 0 where
  pub kind : Text
  pub service : Text
  pub environment : Text
  pub level : Option Level
  pub flow_status : Text
  pub execution_status : Text
  pub http_status_class : ℤ
  pub http_success : Option Bool

pub record EventPolicy : Type 0 where
  pub name : Text
  pub match_event : EventMatch
  pub ttl : ℤ

-- The embedded `EventMatch` is the field `event`.
pub record PayloadMatch : Type 0 where
  pub event : EventMatch
  pub role : Text
  pub content_type : Text
  pub retention_class : Text

pub record PayloadPolicy : Type 0 where
  pub name : Text
  pub match_payload : PayloadMatch
  pub ttl : ℤ

-- The maps of classes are lists of their entries. The clock and the archiver belong to the world.
pub record Config : Type 0 where
  pub event_policies : List EventPolicy
  pub event_classes : List (Text × ℤ)
  pub default_event_ttl : ℤ
  pub payload_policies : List PayloadPolicy
  pub payload_classes : List (Text × ℤ)
  pub default_payload_ttl : ℤ
  pub event_batch_size : ℤ
  pub payload_batch_size : ℤ
  pub payload_concurrency : ℤ
  pub max_events : ℤ
  pub max_payloads : ℤ
  pub max_runtime : ℤ
  pub payload_grace_period : ℤ

pub record Payload : Type 0 where
  pub role : Text
  pub ref : Ref

pub record Event : Type 0 where
  pub id : Text
  pub cursor : Text
  pub flow_id : Text
  pub execution_id : Text
  pub timestamp : Time
  pub kind : Text
  pub service : Text
  pub environment : Text
  pub level : Level
  pub flow_status : Text
  pub execution_status : Text
  pub retention_class : Text
  pub http_status_code : ℤ
  pub http_success : Bool
  pub payloads : List Payload

pub record ScanRequest : Type 0 where
  pub cursor : Text
  pub limit : ℕ

pub record EventPage : Type 0 where
  pub events : List Event
  pub next_cursor : Text
  pub has_more : Bool

pub record DeleteRequest : Type 0 where
  pub events : List Event
  pub payload_eligible_at : List (Text × Time)
  pub archive_id : Text
  pub dry_run : Bool

pub record DeleteResult : Type 0 where
  pub events_deleted : ℕ
  pub payload_candidates : ℕ

-- `Result`; its times are left out.
pub record Result : Type 0 where
  pub events_scanned : ℕ
  pub events_matched : ℕ
  pub events_eligible : ℕ
  pub events_deleted : ℕ
  pub payload_candidates : ℕ
  pub errors : ℕ
  pub archives_created : ℕ
  pub events_archived : ℕ
  pub payloads_archived : ℕ
  pub archive_bytes_written : ℕ
  pub archive_failures : ℕ

-- The calls of the outside world and what they gave; `none` or false is an error.
pub data Action : Type 0 where
  reconcile_call : Bool → Action
  scan_call : ScanRequest → Option EventPage → Action
  load_call : List Event → Option (List EventRecord) → Action
  archive_call : List EventRecord → Option Receipt → Action
  record_call : Receipt → Bool → Action
  delete_call : DeleteRequest → DeleteResult → Bool → Action

-- What each call gives after the calls before it; `stopped` is whether the context is done.
pub record World : Type 0 where
  pub reconciles : List Action → Bool
  pub scans : List Action → ScanRequest → Option EventPage
  pub loads : List Action → List Event → Option (List EventRecord)
  pub archives : List Action → List EventRecord → Option Receipt
  pub records : List Action → Receipt → Bool
  pub deletes : List Action → DeleteRequest → DeleteResult × Bool
  pub stopped : List Action → Bool
