-- ===== src/Storage/Query.antt =====
-- storage/storage.go: the filters, the pages and the views that the Explorer reads.
use trail.Prelude.{ℕ, Bool, Option, List, Text, codes}
use trail.Prelude.Int.{ℤ}
use trail.Id.{Identifier}
use trail.Event.{Level, Scope}
use trail.Payload.{Time}
use trail.Payload.Store.{Answer}
use trail.Storage.{EventRecord}

pub record Cursor : Type 0 where
  pub timestamp : Time
  pub id : Text

pub record PageRequest : Type 0 where
  pub limit : ℤ
  pub cursor : Cursor
  pub desc : Bool

pub record Page (A : Type 0) : Type 0 where
  pub items : List A
  pub next_cursor : Cursor
  pub has_more : Bool

pub record TimeRange : Type 0 where
  pub from : Time
  pub to : Time

pub record FlowFilter : Type 0 where
  pub time : TimeRange
  pub service : Text
  pub environment : Text
  pub status : Text
  pub entity_type : Text
  pub entity_id : Text
  pub execution_id : Identifier
  pub scope : Scope

pub record ExecutionFilter : Type 0 where
  pub time : TimeRange
  pub service : Text
  pub environment : Text
  pub status : Text
  pub source : Text
  pub kind : Text
  pub scope : Scope

pub record EntityFilter : Type 0 where
  pub time : TimeRange
  pub service : Text
  pub environment : Text
  pub entity_type : Text
  pub id_prefix : Text
  pub scope : Scope

-- Nil pointers are `none`.
pub record EventFilter : Type 0 where
  pub time : TimeRange
  pub service : Text
  pub environment : Text
  pub kind : Text
  pub level : Option Level
  pub http_status_class : ℤ
  pub http_method : Text
  pub http_status : ℤ
  pub provider : Text
  pub has_error : Option Bool
  pub flow_id : Identifier
  pub execution_id : Identifier
  pub entity_type : Text
  pub entity_id : Text
  pub scope : Scope

pub record OverviewFilter : Type 0 where
  pub time : TimeRange
  pub service : Text
  pub environment : Text
  pub scope : Scope

abbrev pub activity_hour : Text
activity_hour = codes "hour"

abbrev pub activity_day : Text
activity_day = codes "day"

-- The embedded filter is the field `overview`.
pub record OverviewActivityFilter : Type 0 where
  pub overview : OverviewFilter
  pub interval : Text

pub record FlowSummary : Type 0 where
  pub id : Identifier
  pub service : Text
  pub environment : Text
  pub scope : Scope
  pub entity_type : Text
  pub entity_id : Text
  pub execution_id : Identifier
  pub status : Text
  pub started_at : Time
  pub finished_at : Time
  pub event_count : ℕ

pub record FlowDetail : Type 0 where
  pub summary : FlowSummary
  pub first_kind : Text
  pub last_kind : Text

-- `ExecutionSummary`, and `ExecutionDetail`, which embeds it alone.
pub record ExecutionSummary : Type 0 where
  pub id : Identifier
  pub service : Text
  pub environment : Text
  pub scope : Scope
  pub kind : Text
  pub source : Text
  pub status : Text
  pub attempt : ℕ
  pub parent_execution_id : Identifier
  pub retry_of_execution_id : Identifier
  pub started_at : Time
  pub finished_at : Time
  pub event_count : ℕ
  pub flow_count : ℕ

pub record EntityKey : Type 0 where
  pub scope : Scope
  pub type : Text
  pub id : Text

-- `EntitySummary`, and `EntityDetail`, which embeds it alone.
pub record EntitySummary : Type 0 where
  pub key : EntityKey
  pub first_seen : Time
  pub last_seen : Time
  pub flow_count : ℕ

pub record Overview : Type 0 where
  pub as_of : Time
  pub estimated : Bool
  pub first_event : Time
  pub last_event : Time
  pub events : ℕ
  pub flows : ℕ
  pub executions : ℕ
  pub entities : ℕ
  pub failed_flows : ℕ
  pub failed_executions : ℕ
  pub http_5xx : ℕ

pub record ActivityBucket : Type 0 where
  pub timestamp : Time
  pub events : ℕ
  pub errors : ℕ
  pub http_5xx : ℕ

pub record CountByName : Type 0 where
  pub name : Text
  pub count : ℕ

pub record OverviewActivity : Type 0 where
  pub from : Time
  pub to : Time
  pub interval : Text
  pub buckets : List ActivityBucket
  pub flow_statuses : List CountByName
  pub execution_sources : List CountByName

-- `ExplorerStore`: a store at one moment, which only reads. `overview_activity` is `none` where the
-- store is no `OverviewActivityReader`.
pub record ExplorerStore : Type 0 where
  pub list_flows : FlowFilter → PageRequest → Answer (Page FlowSummary)
  pub get_flow : Identifier → Answer FlowDetail
  pub list_flow_events : Identifier → EventFilter → PageRequest → Answer (Page EventRecord)
  pub list_executions : ExecutionFilter → PageRequest → Answer (Page ExecutionSummary)
  pub get_execution : Identifier → Answer ExecutionSummary
  pub list_execution_flows : Identifier → FlowFilter → PageRequest → Answer (Page FlowSummary)
  pub get_retry_chain : Identifier → Answer (List ExecutionSummary)
  pub search_entities : EntityFilter → PageRequest → Answer (Page EntitySummary)
  pub get_entity : EntityKey → Answer EntitySummary
  pub list_entity_flows : EntityKey → FlowFilter → PageRequest → Answer (Page FlowSummary)
  pub list_events : EventFilter → PageRequest → Answer (Page EventRecord)
  pub get_event : Identifier → Answer EventRecord
  pub overview : OverviewFilter → Answer Overview
  pub overview_activity : Option (OverviewActivityFilter → Answer OverviewActivity)
