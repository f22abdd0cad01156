-- ===== src/Archive.antt =====
-- archive/archive.go: the data of archives.
pub mod Io
pub mod Write
pub mod Read
pub mod Restore
pub mod Steps
pub mod Made
pub mod Complete
pub mod Scan
pub mod RoundTrip
pub mod Restored
mod Tests
use trail.Prelude.{ℕ, Bool, Option, List, Text, codes}
use trail.Prelude.Int.{ℤ}
use trail.Payload.{Time, Ref}
use trail.Payload.Store.{Gunzip}
use trail.Storage.{EventRecord}

abbrev pub version : Text
version = codes "trail.archive/v1"

pub record PayloadEntry : Type 0 where
  pub source : Ref
  pub archive : Ref

pub record Manifest : Type 0 where
  pub version : Text
  pub id : Text
  pub created_at : Time
  pub event_count : ℤ
  pub event_ids : List Text
  pub events : Ref
  pub payloads : List PayloadEntry

pub record Receipt : Type 0 where
  pub manifest : Manifest
  pub manifest_ref : Ref

-- `RestoreResult`
pub record RestoreResult : Type 0 where
  pub archive_id : Text
  pub restored : ℤ
  pub next_offset : ℤ
  pub complete : Bool

-- What the package calls: the hash, gzip, the JSON of events and manifests, and the clock.
-- `stopped` is whether the context is done at a line of a scan.
pub record Library : Type 0 where
  pub sha256 : Text → Text
  pub gunzip : Gunzip
  pub encode_event : EventRecord → Option Text
  pub decode_event : Text → Option EventRecord
  pub encode_manifest : Manifest → Option Text
  pub decode_manifest : Text → Option Manifest
  pub now : Time
  pub stopped : ℕ → Bool
