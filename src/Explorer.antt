-- ===== src/Explorer.antt =====
-- explorerapi/server.go: the Explorer's HTTP API. Its configuration, requests and responses.
pub mod Base64
pub mod Parse
pub mod Filters
pub mod Respond
pub mod Handlers
pub mod Archives
pub mod Routes
pub mod Bodies
pub mod Cases
pub mod Scope
pub mod Answers
pub mod Paging
pub mod Sent
mod Tests
use trail.Prelude.{ℕ, ◌==◌, Bool, Option, none, some, List, Text, if◌then◌else◌}
use trail.Prelude.Int.{ℤ, pos, ltb_ℤ}
use trail.Payload.{Time, Ref}
use trail.Payload.Store.{Stores, Answer}
use trail.Storage.{EventRecord}
use trail.Storage.Query.{
  Cursor, FlowSummary, FlowDetail, ExecutionSummary, EntitySummary, Overview, OverviewActivity,
  ExplorerStore,
}
use trail.Archive.{Receipt, RestoreResult, Library}
use trail.Archive.Restore.{Target}

-- What the handlers read of a request. `segments` is the path; `query` is `r.URL.Query().Get`, the
-- empty text for a key that is missing, and `origin` is the header `Origin`.
pub record Request : Type 0 where
  pub method : Text
  pub segments : List Text
  pub query : Text → Text
  pub origin : Text

-- `r.PathValue(name)`, by the list of the values.
abbrev pub PathValues : Type 0
PathValues = List (Text × Text)

pub data PageItems : Type 0 where
  flow_items : List FlowSummary → PageItems
  execution_items : List ExecutionSummary → PageItems
  entity_items : List EntitySummary → PageItems
  event_items : List EventRecord → PageItems

-- The value that a response's JSON encodes, the bytes of a payload, or nothing. `error` holds a
-- code and a message, `page` the next cursor and whether there is more.
pub data Body : Type 0 where
  overview_body : Overview → Body
  activity_body : OverviewActivity → Body
  flow_body : FlowDetail → Body
  execution_body : ExecutionSummary → Body
  retries_body : List ExecutionSummary → Body
  entity_body : EntitySummary → Body
  event_body : EventRecord → Body
  page : PageItems → Text → Bool → Body
  archives_body : List Receipt → Bool → Body
  archive_body : Receipt → Body
  chunk_body : List EventRecord → ℤ → Bool → Body
  restore_body : RestoreResult → Body
  content : Text → Body
  error : Text → Text → Body
  no_body : Body

pub record Response : Type 0 where
  pub status : ℕ
  pub headers : List (Text × Text)
  pub body : Body

-- `archive.Catalog`
pub record Catalog : Type 0 where
  pub list_archives : ℤ → ℤ → Answer (List Receipt × Bool)
  pub get_archive : Text → Answer Receipt

-- What the package calls of the standard library: RFC 3339 times (`none` is an error), the JSON of
-- cursors, and what `http.ServeMux` answers where no pattern matches.
pub record Web : Type 0 where
  pub parse_time : Text → Option Time
  pub encode_cursor_json : Cursor → Text
  pub decode_cursor_json : Text → Option Cursor
  pub unrouted : Request → Response

-- `Config`. A nil field is `none`.
pub record Config (S : Stores) (lib : Library) : Type 0 where
  pub store : ExplorerStore
  pub payload_stores : Text → Option S.Handle
  pub max_payload_bytes : ℤ
  pub allowed_origins : List Text
  pub archive_catalog : Option Catalog
  pub archive_store : Option S.Handle
  pub archive_restore : Option (Target S lib)
  pub enable_restore : Bool

-- `New`: the default of the limit. The store is not nil.
unfoldable pub new : (S : Stores) (lib : Library) → Config S lib → Config S lib
new S lib cfg =
    if ltb_ℤ (pos 0) cfg.max_payload_bytes
    then cfg
    else record cfg { max_payload_bytes = pos 1_048_576 }
