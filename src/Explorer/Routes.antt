-- ===== src/Explorer/Routes.antt =====
-- explorerapi/server.go: the patterns of `New`, `cors` and `ServeHTTP`.
use trail.Prelude.{
  Bool, true, false, ◌&&◌, ◌||◌, Option, none, some, List, [], ◌∷◌, ◌++◌, Text, codes, text_eq,
  if◌then◌else◌,
}
use trail.Payload.Store.{Stores}
use trail.Archive.{Library}
use trail.Explorer.{Request, PathValues, Body, Response, Web, Config}
use trail.Explorer.Handlers.{
  overview, overview_activity, flows, flow, flow_events, executions, execution, execution_flows,
  retries, entities, entity, entity_flows, events, event, event_payload,
}
use trail.Explorer.Archives.{
  archives, archive_detail, archive_events, archive_payload, restore_archive,
}

-- The handlers, as the names of the server's methods.
pub data Handler : Type 0 where
  on_overview on_overview_activity on_flows on_flow on_flow_events : Handler
  on_executions on_execution on_execution_flows on_retries : Handler
  on_entities on_entity on_entity_flows on_events on_event on_event_payload : Handler
  on_archives on_archive_detail on_archive_events on_archive_payload : Handler
  on_restore_archive : Handler

-- A segment of a pattern: a literal, or a wildcard with its name.
pub data Segment : Type 0 where
  literal : Text → Segment
  wildcard : Text → Segment

pub record Route : Type 0 where
  pub method : Text
  pub pattern : List Segment
  pub handler : Handler

-- The pattern of the segments behind "/api/v1/"
abbrev read_at : List Segment → Handler → Route
read_at pattern handler = record { method = codes "GET"; pattern = pattern; handler = handler }

abbrev pub id_segment : Segment
id_segment = wildcard (codes "id")

abbrev at : List Segment → List Segment
at pattern = literal (codes "api") ∷ literal (codes "v1") ∷ pattern

abbrev name : Text → List Segment → List Segment
name text pattern = literal text ∷ pattern

abbrev entity_at : List Segment → List Segment
entity_at pattern = name (codes "entities") (wildcard (codes "type") ∷ id_segment ∷ pattern)

unfoldable pub routes : List Route
routes =
    read_at (at (name (codes "overview") [])) on_overview
    ∷ read_at (at (name (codes "overview") (name (codes "activity") []))) on_overview_activity
    ∷ read_at (at (name (codes "flows") [])) on_flows
    ∷ read_at (at (name (codes "flows") (id_segment ∷ []))) on_flow
    ∷ read_at (at (name (codes "flows") (id_segment ∷ name (codes "events") []))) on_flow_events
    ∷ read_at (at (name (codes "executions") [])) on_executions
    ∷ read_at (at (name (codes "executions") (id_segment ∷ []))) on_execution
    ∷ read_at (at (name (codes "executions") (id_segment ∷ name (codes "flows") [])))
        on_execution_flows
    ∷ read_at (at (name (codes "executions") (id_segment ∷ name (codes "retries") []))) on_retries
    ∷ read_at (at (name (codes "entities") [])) on_entities
    ∷ read_at (at (entity_at [])) on_entity
    ∷ read_at (at (entity_at (name (codes "flows") []))) on_entity_flows
    ∷ read_at (at (name (codes "events") [])) on_events
    ∷ read_at (at (name (codes "events") (id_segment ∷ []))) on_event
    ∷ read_at
        (at (
          name (codes "events")
            (wildcard (codes "event") ∷ name (codes "payloads") (wildcard (codes "role") ∷ []))))
        on_event_payload
    ∷ read_at (at (name (codes "archives") [])) on_archives
    ∷ read_at (at (name (codes "archives") (id_segment ∷ []))) on_archive_detail
    ∷ read_at (at (name (codes "archives") (id_segment ∷ name (codes "events") [])))
        on_archive_events
    ∷ read_at
        (at (
          name (codes "archives")
            (id_segment ∷ name (codes "payloads") (wildcard (codes "index") ∷ []))))
        on_archive_payload
    ∷ record {
      method = codes "POST";
      pattern = at (name (codes "archives") (id_segment ∷ name (codes "restore") []));
      handler = on_restore_archive;
    }
    ∷ []

abbrev add_value : Text → Text → Option PathValues → Option PathValues
add_value name text none = none
add_value name text (some values) = some ((name, text) ∷ values)

-- The values of a path that matches a pattern.
unfoldable pub match_path : List Segment → List Text → Option PathValues
match_path [] [] = some []
match_path [] (_ ∷ _) = none
match_path (_ ∷ _) [] = none
match_path (literal text ∷ pattern) (segment ∷ path) =
    let rest = match_path pattern path in if text_eq text segment then rest else none
match_path (wildcard name ∷ pattern) (segment ∷ path) =
    add_value name segment (match_path pattern path)

-- A pattern for GET takes HEAD requests too.
unfoldable pub method_matches : Text → Text → Bool
method_matches wanted method =
    text_eq wanted method || text_eq wanted (codes "GET") && text_eq method (codes "HEAD")

abbrev first_match :
    Bool
    → Handler
    → Option PathValues
    → Option (Handler × PathValues)
    → Option (Handler × PathValues)
first_match true handler (some values) rest = some (handler, values)
first_match true handler none rest = rest
first_match false handler _ rest = rest

-- The handler of a request and its path values. No path fits two patterns for one method.
unfoldable pub find_route : List Route → Request → Option (Handler × PathValues)
find_route [] r = none
find_route (route ∷ routes) r =
    first_match (method_matches route.method r.method) route.handler
      (match_path route.pattern r.segments) (find_route routes r)

module _ (S : Stores) (lib : Library) (web : Web) (cfg : Config S lib) (r : Request) where
  unfoldable pub handle : Handler → PathValues → S.State → S.State × Response
  handle on_overview values s = (s, overview S lib web cfg r values)
  handle on_overview_activity values s = (s, overview_activity S lib web cfg r values)
  handle on_flows values s = (s, flows S lib web cfg r values)
  handle on_flow values s = (s, flow S lib web cfg r values)
  handle on_flow_events values s = (s, flow_events S lib web cfg r values)
  handle on_executions values s = (s, executions S lib web cfg r values)
  handle on_execution values s = (s, execution S lib web cfg r values)
  handle on_execution_flows values s = (s, execution_flows S lib web cfg r values)
  handle on_retries values s = (s, retries S lib web cfg r values)
  handle on_entities values s = (s, entities S lib web cfg r values)
  handle on_entity values s = (s, entity S lib web cfg r values)
  handle on_entity_flows values s = (s, entity_flows S lib web cfg r values)
  handle on_events values s = (s, events S lib web cfg r values)
  handle on_event values s = (s, event S lib web cfg r values)
  handle on_event_payload values s = (s, event_payload S lib web cfg r values s)
  handle on_archives values s = (s, archives S lib cfg r values)
  handle on_archive_detail values s = (s, archive_detail S lib cfg r values)
  handle on_archive_events values s = (s, archive_events S lib cfg r values s)
  handle on_archive_payload values s = (s, archive_payload S lib cfg r values s)
  handle on_restore_archive values s = restore_archive S lib cfg r values s

  -- The multiplexer.
  unfoldable pub dispatch : Option (Handler × PathValues) → S.State → S.State × Response
  dispatch none s = (s, web.unrouted r)
  dispatch (some (handler, values)) s = handle handler values s

  -- The loop over the allowed origins.
  unfoldable pub cors_headers : List Text → List (Text × Text)
  cors_headers [] = []
  cors_headers (allowed ∷ origins) =
      let rest = cors_headers origins in
      if text_eq r.origin allowed
      then (codes "Access-Control-Allow-Origin", r.origin) ∷ (codes "Vary", codes "Origin") ∷ []
      else rest

  abbrev pub preflight : Response
  preflight = record {
    status = 204;
    headers =
        (codes "Access-Control-Allow-Methods", codes "GET, OPTIONS")
        ∷ (codes "Access-Control-Allow-Headers", codes "Content-Type")
        ∷ [];
    body = Body.no_body;
  }

  abbrev pub add_headers : S.State × Response → S.State × Response
  add_headers (s, response) =
      (s, record response { headers = cors_headers cfg.allowed_origins ++ response.headers })

  unfoldable pub routed : Bool → S.State → S.State × Response
  routed true s = (s, preflight)
  routed false s = dispatch (find_route routes r) s

  -- `ServeHTTP`
  unfoldable pub serve : S.State → S.State × Response
  serve s = add_headers (routed (text_eq r.method (codes "OPTIONS")) s)
