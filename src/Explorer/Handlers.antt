-- ===== src/Explorer/Handlers.antt =====
-- explorerapi/server.go: the handlers of flows, executions, entities and events.
use trail.Prelude.{
  Bool, true, not, ◌&&◌, ◌||◌, Option, none, some, List, [], ◌∷◌, Text, codes, text_eq, is_empty,
  if◌then◌else◌,
}
use trail.Prelude.Int.{ltb_ℤ}
use trail.Id.{Identifier, Outcome, ok, invalid, panic, decode_id}
use trail.Event.{Scope}
use trail.Payload.{Ref}
use trail.Payload.Store.{Stores, Answer, found, missed, not_found}
use trail.Storage.{EventRecord, PayloadLink}
use trail.Storage.Query.{
  FlowDetail, ExecutionSummary, EntityKey, OverviewActivity, OverviewActivityFilter,
}
use trail.Archive.{Library}
use trail.Explorer.{Request, PathValues, PageItems, Body, Response, Web, Config}
use trail.Explorer.Filters.{
  Asked, ask, wrong, page_request, scope_filter, scope_allowed, overview_filter,
  overview_activity_filter, flow_filter, execution_filter, entity_filter, event_filter,
}
use trail.Explorer.Respond.{respond, respond_page, respond_error, bad, internal_error, send_content}

-- `r.PathValue(name)`: the empty text where the pattern has no such name.
unfoldable pub path_value : Text → PathValues → Text
path_value name [] = []
path_value name (entry ∷ values) =
    let rest = path_value name values in if text_eq name entry.0 then entry.1 else rest

unfoldable pub id_message : Text
id_message = codes "trail: invalid ID"

-- An identifier of the path. A panic is answered by `recoverMiddleware`.
unfoldable pub with_id : Outcome Identifier → (Identifier → Response) → Response
with_id (ok id) k = k id
with_id invalid k = bad id_message
with_id panic k = internal_error

unfoldable pub with_asked : {A : Type 0} → Asked A → (A → Response) → Response
with_asked (ask a) k = k a
with_asked (wrong message) k = bad message

-- `if e == nil && !allowed { e = storage.ErrNotFound }`
unfoldable pub only_if : {A : Type 0} → (A → Bool) → Answer A → Answer A
only_if allowed (missed e) = missed e
only_if allowed (found v) = if allowed v then found v else missed not_found

unfoldable pub scopes_allowed : Scope → List ExecutionSummary → Bool
scopes_allowed requested [] = true
scopes_allowed requested (e ∷ executions) =
    scope_allowed requested e.scope && scopes_allowed requested executions

-- The first link with a role.
unfoldable pub find_link : Text → List PayloadLink → Option PayloadLink
find_link role [] = none
find_link role (link ∷ links) =
    let rest = find_link role links in if text_eq link.role role then some link else rest

module _ (S : Stores) (lib : Library) (web : Web) (cfg : Config S lib) (r : Request)
    (values : PathValues) where
  -- `r.PathValue(name)`, read as an identifier.
  abbrev pub path_id : Text → Outcome Identifier
  path_id name = decode_id (path_value name values)

  abbrev pub requested : Scope
  requested = scope_filter web r

  unfoldable pub overview : Response
  overview = respond Body.overview_body (cfg.store.overview (overview_filter web r))

  abbrev pub activity : Option (OverviewActivityFilter → Answer OverviewActivity) → Response
  activity none =
      respond_error 501 (codes "capability_unavailable")
        (codes "overview activity is not supported by this storage adapter")
  activity (some read) =
      with_asked (overview_activity_filter web r) λ f. respond Body.activity_body (read f)

  unfoldable pub overview_activity : Response
  overview_activity = activity cfg.store.overview_activity

  unfoldable pub flows : Response
  flows =
      with_asked (page_request web r)
        λ p. respond_page web PageItems.flow_items (cfg.store.list_flows (flow_filter web r) p)

  unfoldable pub flow : Response
  flow = with_id (path_id (codes "id")) λ id. respond Body.flow_body (
      only_if (λ (v : FlowDetail). scope_allowed requested v.summary.scope) (cfg.store.get_flow id))

  unfoldable pub flow_events : Response
  flow_events = with_id (path_id (codes "id")) λ id. with_asked (page_request web r) λ p.
      respond_page web PageItems.event_items (cfg.store.list_flow_events id (event_filter web r) p)

  unfoldable pub executions : Response
  executions = with_asked (page_request web r) λ p.
      respond_page web PageItems.execution_items
        (cfg.store.list_executions (execution_filter web r) p)

  unfoldable pub execution : Response
  execution = with_id (path_id (codes "id")) λ id. respond Body.execution_body (
      only_if (λ (v : ExecutionSummary). scope_allowed requested v.scope)
        (cfg.store.get_execution id))

  unfoldable pub execution_flows : Response
  execution_flows = with_id (path_id (codes "id")) λ id. with_asked (page_request web r) λ p.
      respond_page web PageItems.flow_items
        (cfg.store.list_execution_flows id (record (flow_filter web r) { execution_id = id }) p)

  unfoldable pub retries : Response
  retries = with_id (path_id (codes "id")) λ id.
      respond Body.retries_body (only_if (scopes_allowed requested) (cfg.store.get_retry_chain id))

  unfoldable pub entities : Response
  entities = with_asked (page_request web r) λ p.
      respond_page web PageItems.entity_items (cfg.store.search_entities (entity_filter web r) p)

  abbrev pub entity_key : EntityKey
  entity_key = record {
    scope = requested;
    type = path_value (codes "type") values;
    id = path_value (codes "id") values;
  }

  unfoldable pub entity : Response
  entity =
      if is_empty (path_value (codes "type") values) || is_empty (path_value (codes "id") values)
      then bad (codes "entity type and ID are required")
      else respond Body.entity_body (cfg.store.get_entity entity_key)

  unfoldable pub entity_flows : Response
  entity_flows = with_asked (page_request web r) λ p.
      respond_page web PageItems.flow_items
        (cfg.store.list_entity_flows entity_key (flow_filter web r) p)

  unfoldable pub events : Response
  events =
      with_asked (page_request web r)
        λ p. respond_page web PageItems.event_items (cfg.store.list_events (event_filter web r) p)

  unfoldable pub event : Response
  event = with_id (path_id (codes "id")) λ id.
      respond Body.event_body
        (only_if (λ (v : EventRecord). scope_allowed requested v.scope) (cfg.store.get_event id))

  -- A payload of a configured store, unless it is too large.
  unfoldable pub open_payload : Ref → Option S.Handle → S.State → Response
  open_payload ref none s =
      respond_error 404 (codes "payload_store_unavailable")
        (codes "payload store is not configured")
  open_payload ref (some store) s =
      if ltb_ℤ cfg.max_payload_bytes ref.size
      then respond_error 413 (codes "payload_too_large")
          (codes "payload exceeds Explorer read limit")
      else send_content cfg.max_payload_bytes ref
          ((codes "Content-Disposition", codes "inline") ∷ []) (S.open_object store ref s)

  unfoldable pub link_payload : Option PayloadLink → S.State → Response
  link_payload none s = respond Body.event_body (missed not_found)
  link_payload (some link) s = open_payload link.ref (cfg.payload_stores link.ref.store) s

  unfoldable pub found_payload : Answer EventRecord → S.State → Response
  found_payload (missed e) s = respond Body.event_body (missed e)
  found_payload (found v) s =
      if not (scope_allowed requested v.scope)
      then respond Body.event_body (missed not_found)
      else link_payload (find_link (path_value (codes "role") values) v.payloads) s

  unfoldable pub event_payload : S.State → Response
  event_payload s = with_id (path_id (codes "event")) λ id. found_payload (cfg.store.get_event id) s
