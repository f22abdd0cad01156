-- ===== src/Explorer/Cases.antt =====
-- explorerapi/server.go: what a response can be, handler by handler.
use trail.Prelude.{
  ◌≡◌, refl, Bool, true, false, Option, none, some, List, Text, codes, if◌then◌else◌, inl, inr,
  arith,
}
use mathlib.Core.Path.{subst}
use trail.Prelude.Int.{ℤ, pos}
use trail.Id.{Identifier, Outcome, ok, invalid, panic}
use trail.Payload.{Ref}
use trail.Payload.Store.{
  Stores, Stream, Failure, Answer, found, missed, not_found, invalid_cursor, other_failure,
}
use trail.Storage.{EventRecord, PayloadLink}
use trail.Storage.Query.{
  OverviewActivityFilter, OverviewActivity, Page, FlowDetail, ExecutionSummary,
}
use trail.Archive.{Library, PayloadEntry, Receipt, RestoreResult}
use trail.Archive.Io.{done, failed, Outcome as ArchiveOutcome, ArchiveError}
use trail.Archive.Restore.{Target}
use trail.Explorer.{Request, PathValues, PageItems, Body, Response, Web, Config, Catalog}
use trail.Explorer.Bodies.{
  ErrorKind, invalid_request, not_there, store_unavailable, too_large, internal, not_available,
  status_of, code_of, Silent, Listed, Plain,
}
use trail.Explorer.Filters.{
  Asked, ask, wrong, scope_filter, scope_allowed, overview_filter, overview_activity_filter,
  flow_filter, execution_filter, entity_filter, event_filter,
}
use trail.Explorer.Respond.{
  write_json, respond_error, bad, respond_failure, respond, respond_page, send_content,
}
use trail.Explorer.Handlers.{
  with_id, with_asked, only_if, scopes_allowed, overview, overview_activity, flows, flow,
  flow_events, executions, execution, execution_flows, retries, entities, entity, entity_flows,
  events, event, open_payload, link_payload, found_payload, event_payload, id_message, path_value,
  activity, entity_key,
}
use trail.Explorer.Archives.{
  archives, archive_detail, archive_events, archive_payload, restore_archive, archive_request,
  request_chunk, read_chunk, restore_chunk, restore_if, payload_in, ask_chunk, answered,
  Asked as AskedChunk, bounds_wrong, offset_of, limit_of, list_page, detail, asked_receipt,
  respond_chunk, send_entry, payload_of, respond_restore, wrong_bounds,
}
use trail.Explorer.Routes.{
  Handler, on_overview, on_overview_activity, on_flows, on_flow, on_flow_events, on_executions,
  on_execution, on_execution_flows, on_retries, on_entities, on_entity, on_entity_flows, on_events,
  on_event, on_event_payload, on_archives, on_archive_detail, on_archive_events, on_archive_payload,
  on_restore_archive, handle, dispatch,
}

-- To show Q of a response, show it of each error response, and of what is left.
module _ {κ} (Q : Response → Type κ)
    (errors : (k : ErrorKind) (message : Text)
      → Silent k message
      → Q (respond_error (status_of k) (code_of k) message)) where
  failure_by : (e : Failure) → Q (respond_failure e)
  unfolding respond_failure bad
  failure_by not_found = errors not_there _ tt
  failure_by invalid_cursor = errors invalid_request _ tt
  failure_by other_failure = errors internal _ refl

  bad_by : (message : Text) → Q (bad message)
  unfolding bad
  bad_by message = errors invalid_request message tt

  with_id_by :
      (x : Outcome Identifier) (k : Identifier → Response)
      → ((id : Identifier) → Q (k id))
      → Q (with_id x k)
  unfolding with_id
  with_id_by (ok id) k h = h id
  with_id_by invalid k h = bad_by id_message
  with_id_by panic k h = errors internal _ refl

  with_asked_by :
      {A : Type 0} (x : Asked A) (k : A → Response)
      → ((a : A) → x ≡ ask a → Q (k a))
      → Q (with_asked x k)
  unfolding with_asked
  with_asked_by (ask a) k h = h a refl
  with_asked_by (wrong message) k h = bad_by message

  respond_by :
      {A : Type 0} (body : A → Body) (x : Answer A)
      → ((v : A) → x ≡ found v → Q (write_json 200 (body v)))
      → Q (respond body x)
  unfolding respond
  respond_by body (found v) h = h v refl
  respond_by body (missed e) h = failure_by e

  page_by :
      {A : Type 0} (web : Web) (items : List A → PageItems) (x : Answer (Page A))
      → ((p : Page A) (next : Text) (more : Bool)
          → x ≡ found p
          → Q (write_json 200 (Body.page (items p.items) next more)))
      → Q (respond_page web items x)
  unfolding respond_page
  page_by web items (missed e) h = failure_by e
  page_by web items (found p) h = h p _ _ refl

  send_by :
      (limit : ℤ) (ref : Ref) (headers : List (Text × Text)) (x : Answer Stream)
      → ((r : Stream) → x ≡ found r → Q (send_content limit ref headers (found r)))
      → Q (send_content limit ref headers x)
  send_by limit ref headers (missed e) h = unfold send_content in failure_by e
  send_by limit ref headers (found r) h = h r refl

found-injective : {A : Type 0} {v w : A} → found v ≡ found w → v ≡ w
found-injective e = cc

kept :
    {A : Type 0} (allowed : A → Bool) (w v : A) (b : Bool)
    → allowed w ≡ b
    → (if b then found w else missed not_found) ≡ found v
    → (found w ≡ found v) × (allowed v ≡ true)
kept allowed w v true e h = (h, subst (λ x. allowed x ≡ true) (found-injective h) e)
kept allowed w v false e h = absurd (cc)

pub only_if-found :
    {A : Type 0} (allowed : A → Bool) (x : Answer A) (v : A)
    → only_if allowed x ≡ found v
    → (x ≡ found v) × (allowed v ≡ true)
unfolding only_if
only_if-found allowed (missed e) v h = absurd (cc)
only_if-found allowed (found w) v h = kept allowed w v _ refl h

activity_scope :
    (web : Web) (r : Request) (f : OverviewActivityFilter)
    → overview_activity_filter web r ≡ ask f
    → f.overview.scope ≡ scope_filter web r
unfolding overview_activity_filter overview_filter
activity_scope web r f h = ground (arith, h)

module _ {κ} (S : Stores) (lib : Library) (web : Web) (cfg : Config S lib) (r : Request)
    (Q : Response → Type κ)
    (errors : (k : ErrorKind) (message : Text)
      → Silent k message
      → Q (respond_error (status_of k) (code_of k) message))
    (plain : (b : Body) → Plain cfg.store (scope_filter web r) b → Q (write_json 200 b))
    (one_flow : (v : FlowDetail)
      → scope_allowed (scope_filter web r) v.summary.scope ≡ true
      → Q (write_json 200 (Body.flow_body v)))
    (one_execution : (v : ExecutionSummary)
      → scope_allowed (scope_filter web r) v.scope ≡ true
      → Q (write_json 200 (Body.execution_body v)))
    (chain : (vs : List ExecutionSummary)
      → scopes_allowed (scope_filter web r) vs ≡ true
      → Q (write_json 200 (Body.retries_body vs)))
    (one_event : (v : EventRecord)
      → scope_allowed (scope_filter web r) v.scope ≡ true
      → Q (write_json 200 (Body.event_body v)))
    (bytes : (limit : ℤ) (ref : Ref) (headers : List (Text × Text)) (stream : Stream)
      → Q (send_content limit ref headers (found stream))) where
  list_by :
      {A : Type 0} (items : List A → PageItems) (x : Answer (Page A))
      → ((p : Page A) → x ≡ found p → Listed cfg.store (scope_filter web r) (items p.items))
      → Q (respond_page web items x)
  list_by items x h = page_by Q errors web items x λ p next more e. plain _ (h p e)

  if_by : (b : Bool) (x y : Response) → Q x → Q y → Q (if b then x else y)
  if_by true x y hx hy = hx
  if_by false x y hx hy = hy

  module _ (values : PathValues) where
    activity_by :
        (x : Option (OverviewActivityFilter → Answer OverviewActivity))
        → cfg.store.overview_activity ≡ x
        → Q (activity S lib web cfg r values x)
    activity_by none e = errors not_available _ tt
    activity_by (some read) e = with_asked_by Q errors _ _ λ f asked.
        respond_by Q errors _ _
          λ v answered. plain _ (f, read, activity_scope web r f asked, e, answered)

    open_by :
        (ref : Ref) (store : Option S.Handle) (s : S.State)
        → Q (open_payload S lib web cfg r values ref store s)
    unfolding open_payload
    open_by ref none s = errors store_unavailable _ tt
    open_by ref (some store) s =
        if_by _ _ _ (errors too_large _ tt)
          (send_by Q errors _ _ _ _ λ stream _. bytes _ _ _ stream)

    link_by :
        (link : Option PayloadLink) (s : S.State) → Q (link_payload S lib web cfg r values link s)
    unfolding link_payload respond
    link_by none s = failure_by Q errors not_found
    link_by (some link) s = open_by _ _ s

    payload_by :
        (x : Answer EventRecord) (s : S.State) → Q (found_payload S lib web cfg r values x s)
    unfolding found_payload respond
    payload_by (missed e) s = failure_by Q errors e
    payload_by (found v) s = if_by _ _ _ (failure_by Q errors not_found) (link_by _ s)

    archives_by : (catalog : Option Catalog) → Q (list_page S lib cfg r values catalog)
    archives_by none = errors not_available _ tt
    archives_by (some catalog) =
        if_by _ _ _ (bad_by Q errors _) (respond_by Q errors _ _ λ v _. plain _ tt)

    detail_by : (catalog : Option Catalog) → Q (detail S lib cfg r values catalog)
    detail_by none = errors not_available _ tt
    detail_by (some catalog) = respond_by Q errors _ _ λ v _. plain _ tt

    abbrev AskedWell : AskedChunk → Type κ
    AskedWell (ask_chunk receipt offset limit) = Unit
    AskedWell (answered response) = Q response

    asked_by :
        (x : Answer Receipt) (offset limit : ℤ)
        → AskedWell (asked_receipt S lib cfg r values offset limit x)
    asked_by (missed e) offset limit = failure_by Q errors e
    asked_by (found receipt) offset limit = tt

    bounded_by :
        (b : Bool) (x : AskedChunk)
        → AskedWell x
        → AskedWell (if b then answered wrong_bounds else x)
    bounded_by true x h = bad_by Q errors _
    bounded_by false x h = h

    request_by :
        (catalog : Option Catalog) (store : Option S.Handle)
        → AskedWell (request_chunk S lib cfg r values catalog store)
    unfolding request_chunk
    request_by none store = errors not_available _ tt
    request_by (some catalog) none = errors not_available _ tt
    request_by (some catalog) (some store) =
        let answer = catalog.get_archive (path_value (codes "id") values) in
        bounded_by (bounds_wrong (pos 10_000) (offset_of r) (limit_of r))
          (asked_receipt S lib cfg r values (offset_of r) (limit_of r) answer)
          (asked_by answer (offset_of r) (limit_of r))

    respond_chunk_by :
        (offset : ℤ) (x : ArchiveOutcome (List EventRecord × Bool))
        → Q (respond_chunk S lib cfg r values offset x)
    respond_chunk_by offset (failed e) = failure_by Q errors _
    respond_chunk_by offset (done (chunk, complete)) = unfold respond in plain _ tt

    read_chunk_by :
        (x : AskedChunk) (s : S.State) → AskedWell x → Q (read_chunk S lib cfg r values x s)
    unfolding read_chunk
    read_chunk_by (answered response) s h = h
    read_chunk_by (ask_chunk receipt offset limit) s h = respond_chunk_by offset _

    entry_by :
        (store : S.Handle) (x : Option PayloadEntry) (s : S.State)
        → Q (send_entry S lib cfg r values store x s)
    entry_by store none s = bad_by Q errors _
    entry_by store (some entry) s =
        if_by _ _ _ (errors too_large _ tt)
          (send_by Q errors _ _ _ _ λ stream _. bytes _ _ _ stream)

    payload_of_by :
        (store : S.Handle) (x : Answer Receipt) (s : S.State)
        → Q (payload_of S lib cfg r values store x s)
    payload_of_by store (missed e) s = failure_by Q errors e
    payload_of_by store (found receipt) s = entry_by store _ s

    payload_in_by :
        (catalog : Option Catalog) (store : Option S.Handle) (s : S.State)
        → Q (payload_in S lib cfg r values catalog store s)
    unfolding payload_in
    payload_in_by none store s = errors not_available _ tt
    payload_in_by (some catalog) none s = errors not_available _ tt
    payload_in_by (some catalog) (some store) s = payload_of_by store _ s

    respond_restore_by :
        (x : S.State × RestoreResult × Option ArchiveError)
        → Q ((respond_restore S lib cfg r values x).1)
    respond_restore_by (s, result, none) = unfold respond in plain _ tt
    respond_restore_by (s, result, some e) = failure_by Q errors _

    restore_chunk_by :
        (target : Target S lib) (x : AskedChunk) (s : S.State)
        → AskedWell x
        → Q ((restore_chunk S lib cfg r values target x s).1)
    unfolding restore_chunk
    restore_chunk_by target (answered response) s h = h
    restore_chunk_by target (ask_chunk receipt offset limit) s h = respond_restore_by _

    restore_by :
        (enabled : Bool) (target : Option (Target S lib)) (s : S.State)
        → Q ((restore_if S lib cfg r values enabled target s).1)
    unfolding restore_if archive_request
    restore_by false target s = errors not_there _ tt
    restore_by true none s = errors not_there _ tt
    restore_by true (some target) s = restore_chunk_by target _ s (request_by _ _)

    read_by : (h : Handler) (s : S.State) → Q ((handle S lib web cfg r h values s).1)
    unfolding handle overview overview_activity flows flow flow_events executions execution
        execution_flows retries entities entity entity_flows events event event_payload archives
        archive_detail archive_events archive_payload restore_archive overview_filter flow_filter
        execution_filter entity_filter event_filter
    read_by on_overview s = respond_by Q errors _ _ λ v e. plain _ (overview_filter web r, refl, e)
    read_by on_overview_activity s = activity_by _ refl
    read_by on_flows s =
        with_asked_by Q errors _ _
          λ q _. list_by _ _ λ p e. (flow_filter web r, q, p, refl, refl, inl e)
    read_by on_flow s =
        with_id_by Q errors _ _
          λ id. respond_by Q errors _ _ λ v e. one_flow v ((only_if-found _ _ v e).1)
    read_by on_flow_events s = with_id_by Q errors _ _ λ id.
        with_asked_by Q errors _ _
          λ q _. list_by _ _ λ p e. (event_filter web r, q, p, refl, refl, inr (id, e))
    read_by on_executions s =
        with_asked_by Q errors _ _
          λ q _. list_by _ _ λ p e. (execution_filter web r, q, p, refl, refl, e)
    read_by on_execution s =
        with_id_by Q errors _ _
          λ id. respond_by Q errors _ _ λ v e. one_execution v ((only_if-found _ _ v e).1)
    read_by on_execution_flows s = with_id_by Q errors _ _ λ id. with_asked_by Q errors _ _ λ q _.
        list_by _ _ λ p e.
          (record (flow_filter web r) { execution_id = id }, q, p, refl, refl, inr (inl (id, e)))
    read_by on_retries s =
        with_id_by Q errors _ _
          λ id. respond_by Q errors _ _ λ v e. chain v ((only_if-found _ _ v e).1)
    read_by on_entities s =
        with_asked_by Q errors _ _
          λ q _. list_by _ _ λ p e. (entity_filter web r, q, p, refl, refl, e)
    read_by on_entity s =
        if_by _ _ _ (bad_by Q errors _)
          (respond_by Q errors _ _ λ v e. plain _ (entity_key S lib web cfg r values, refl, e))
    read_by on_entity_flows s = with_asked_by Q errors _ _ λ q _. list_by _ _ λ p e. (
      flow_filter web r,
      q,
      p,
      refl,
      refl,
      inr (inr (entity_key S lib web cfg r values, refl, e)),
    )
    read_by on_events s =
        with_asked_by Q errors _ _
          λ q _. list_by _ _ λ p e. (event_filter web r, q, p, refl, refl, inl e)
    read_by on_event s =
        with_id_by Q errors _ _
          λ id. respond_by Q errors _ _ λ v e. one_event v ((only_if-found _ _ v e).1)
    read_by on_event_payload s = with_id_by Q errors _ _ λ id. payload_by _ s
    read_by on_archives s = archives_by _
    read_by on_archive_detail s = detail_by _
    read_by on_archive_events s = read_chunk_by _ s (unfold archive_request in request_by _ _)
    read_by on_archive_payload s = payload_in_by _ _ s
    read_by on_restore_archive s = restore_by _ _ s

  -- The response of the server, for a method that is not OPTIONS.
  pub dispatch_by :
      (x : Option (Handler × PathValues)) (s : S.State)
      → (x ≡ none → Q (web.unrouted r))
      → Q ((dispatch S lib web cfg r x s).1)
  unfolding dispatch
  dispatch_by none s h = h refl
  dispatch_by (some (handler, values')) s h = read_by values' handler s
