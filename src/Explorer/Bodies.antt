-- ===== src/Explorer/Bodies.antt =====
-- explorerapi/server.go: the kinds of errors, and what the store answered for a scope.
use trail.Prelude.{ℕ, ◌≡◌, some, Text, codes, ◌⊎◌}
use trail.Id.{Identifier}
use trail.Event.{Scope}
use trail.Payload.Store.{Answer, found}
use trail.Storage.{EventRecord}
use trail.Storage.Query.{
  OverviewActivityFilter, OverviewActivity, Page, ExecutionSummary, ExplorerStore, FlowFilter,
  PageRequest, FlowSummary, EntityKey, ExecutionFilter, EntityFilter, EntitySummary, EventFilter,
  OverviewFilter,
}
use trail.Explorer.{PageItems, Body}

-- The kinds of error responses.
pub data ErrorKind : Type 0 where
  invalid_request not_there store_unavailable too_large internal not_available : ErrorKind

abbrev pub status_of : ErrorKind → ℕ
status_of invalid_request = 400
status_of not_there = 404
status_of store_unavailable = 404
status_of too_large = 413
status_of internal = 500
status_of not_available = 501

abbrev pub code_of : ErrorKind → Text
code_of invalid_request = codes "invalid_request"
code_of not_there = codes "not_found"
code_of store_unavailable = codes "payload_store_unavailable"
code_of too_large = codes "payload_too_large"
code_of internal = codes "internal_error"
code_of not_available = codes "capability_unavailable"

-- A response 500 says nothing of its cause.
abbrev pub Silent : ErrorKind → Text → Type 0
Silent internal message = message ≡ codes "request failed"
Silent _ message = Unit

-- What the store listed for a scope.
module _ (store : ExplorerStore) (requested : Scope) where
  abbrev pub Listed : PageItems → Type 0
  Listed (PageItems.flow_items vs) =
      (f : FlowFilter) × (q : PageRequest) × (page : Page FlowSummary) × (f.scope ≡ requested)
      × (page.items ≡ vs)
      × ((store.list_flows f q ≡ found page)
          ⊎ (((id : Identifier) × (store.list_execution_flows id f q ≡ found page))
              ⊎ ((key : EntityKey) × (key.scope ≡ requested)
                  × (store.list_entity_flows key f q ≡ found page))))
  Listed (PageItems.execution_items vs) =
      (f : ExecutionFilter) × (q : PageRequest) × (page : Page ExecutionSummary) × (f.scope
        ≡ requested)
      × (page.items ≡ vs)
      × (store.list_executions f q ≡ found page)
  Listed (PageItems.entity_items vs) =
      (f : EntityFilter) × (q : PageRequest) × (page : Page EntitySummary) × (f.scope ≡ requested)
      × (page.items ≡ vs)
      × (store.search_entities f q ≡ found page)
  Listed (PageItems.event_items vs) =
      (f : EventFilter) × (q : PageRequest) × (page : Page EventRecord) × (f.scope ≡ requested)
      × (page.items ≡ vs)
      × ((store.list_events f q ≡ found page)
          ⊎ ((id : Identifier) × (store.list_flow_events id f q ≡ found page)))

  -- The bodies that hold no single resource with a scope of its own, and no bytes. What the store
  -- was asked for had the scope; the archives have none.
  abbrev pub Plain : Body → Type 0
  Plain (Body.overview_body v) =
      (f : OverviewFilter) × (f.scope ≡ requested) × (store.overview f ≡ found v)
  Plain (Body.activity_body v) =
      (f : OverviewActivityFilter) × (read : OverviewActivityFilter → Answer OverviewActivity)
      × (f.overview.scope ≡ requested)
      × (store.overview_activity ≡ some read)
      × (read f ≡ found v)
  Plain (Body.entity_body v) =
      (key : EntityKey) × (key.scope ≡ requested) × (store.get_entity key ≡ found v)
  Plain (Body.page items _ _) = Listed items
  Plain (Body.archives_body _ _) = Unit
  Plain (Body.archive_body _) = Unit
  Plain (Body.chunk_body _ _ _) = Unit
  Plain (Body.restore_body _) = Unit
  Plain _ = ⊥
