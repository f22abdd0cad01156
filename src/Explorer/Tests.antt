-- ===== src/Explorer/Tests.antt =====
-- A flow of a scope, a payload, and a page with a cursor.
use trail.Prelude.{
  ◌≡◌, refl, true, false, none, some, [], ◌∷◌, Text, codes, text_eq, arith, if◌then◌else◌,
}
use trail.Prelude.Int.{pos, ◌≤ℤ◌}
use trail.Id.{
  zero_id, decode_id, decode_loop, crockford_value, copy_right, min_bytes, lower, find_char,
}
use trail.Event.{Scope, is_zero_scope}
use trail.Payload.Store.{Stores, reader, found, missed, not_found}
use trail.Storage.{EventRecord, PayloadLink, new_link, no_http}
use trail.Storage.Query.{Cursor, PageRequest, ExplorerStore, FlowDetail}
use trail.Archive.{Library}
use trail.Explorer.{Request, PathValues, Body, Response, Web, Config}
use trail.Explorer.Base64.{
  encode_base64, decode_base64, skip_newlines, decode_groups, char_of, char_value,
}
use trail.Explorer.Filters.{
  ask, scope_filter, scope_allowed, encode_cursor, decode_cursor, page_request, page_at,
}
use trail.Explorer.Respond.{respond, write_json, send_content}
use trail.Explorer.Handlers.{
  event_payload, found_payload, link_payload, open_payload, with_id, find_link, path_value, flow,
  only_if,
}
use trail.Explorer.Routes.{
  serve, routed, dispatch, handle, find_route, routes, match_path, method_matches, cors_headers,
}
use trail.Explorer.Scope.{Shown, serve-InScope}
use trail.Explorer.Answers.{Answered, serve-Fits}
use trail.Explorer.Paging.{CursorJson, page_request-encode_cursor}
use trail.Explorer.Sent.{Sent, event_payload-Sent}

abbrev stores : Stores
stores = record {
  State = Unit {0};
  Handle = Unit {0};
  put = λ h r options s. (s, missed not_found);
  open_object = λ h ref s. found (reader (codes "payload"));
}

abbrev library : Library
library = record {
  sha256 = λ text. text;
  gunzip = λ r. some r;
  encode_event = λ e. none;
  decode_event = λ line. none;
  encode_manifest = λ m. none;
  decode_manifest = λ text. none;
  now = pos 0;
  stopped = λ i. false;
}

abbrev scope : Scope
scope = record { type = codes "tenant"; id = codes "7" }

abbrev shown_flow : FlowDetail
shown_flow = record {
  summary = record {
    id = zero_id;
    service = [];
    environment = [];
    scope = scope;
    entity_type = [];
    entity_id = [];
    execution_id = zero_id;
    status = [];
    started_at = pos 0;
    finished_at = pos 0;
    event_count = 1;
  };
  first_kind = codes "a";
  last_kind = codes "b";
}

abbrev link : PayloadLink
link = record (new_link (codes "request")) { truncated = false }

abbrev shown_event : EventRecord
shown_event = record {
  id = zero_id;
  timestamp = pos 0;
  kind = codes "a";
  level = 1;
  flow_id = zero_id;
  execution_id = zero_id;
  parent_execution_id = zero_id;
  retry_of_execution_id = zero_id;
  execution_attempt = 0;
  execution_source = [];
  scope = scope;
  entity_type = [];
  entity_id = [];
  parent_id = zero_id;
  fields = [];
  flow_status = [];
  execution_status = [];
  execution_kind = [];
  retention_class = [];
  provider = [];
  has_error = false;
  http = no_http;
  payloads = link ∷ [];
  batch_id = zero_id;
  metadata = record { service = []; environment = []; version = [] };
  delivery = record {
    stream = [];
    consumer = [];
    stream_sequence = 0;
    consumer_sequence = 0;
    delivered = 0;
    received_at = pos 0;
  };
}

abbrev store : ExplorerStore
store = record {
  list_flows = λ f p. missed not_found;
  get_flow = λ id. found shown_flow;
  list_flow_events = λ id f p. missed not_found;
  list_executions = λ f p. missed not_found;
  get_execution = λ id. missed not_found;
  list_execution_flows = λ id f p. missed not_found;
  get_retry_chain = λ id. missed not_found;
  search_entities = λ f p. missed not_found;
  get_entity = λ key. missed not_found;
  list_entity_flows = λ key f p. missed not_found;
  list_events = λ f p. missed not_found;
  get_event = λ id. found shown_event;
  overview = λ f. missed not_found;
  overview_activity = none;
}

abbrev config : Config stores library
config = record {
  store = store;
  payload_stores = λ name. some tt;
  max_payload_bytes = pos 3;
  allowed_origins = [];
  archive_catalog = none;
  archive_store = none;
  archive_restore = none;
  enable_restore = false;
}

abbrev cursor : Cursor
cursor = record { timestamp = pos 5; id = codes "x" }

abbrev web : Web
web = record {
  parse_time = λ text. none;
  encode_cursor_json = λ c. codes "{}";
  decode_cursor_json = λ bytes. some cursor;
  unrouted = λ r. record {
    status = 404;
    headers = [];
    body = Body.content (codes "404 page not found\n");
  };
}

abbrev query : Text → Text
query key =
    if text_eq key (codes "scope_type")
    then codes "tenant"
    else if text_eq key (codes "scope_id")
    then codes "7"
    else if text_eq key (codes "cursor")
    then codes "e30"
    else []

abbrev id_text : Text
id_text = codes "00000000000000000000000000"

abbrev request : Request
request = record {
  method = codes "GET";
  segments = codes "api" ∷ codes "v1" ∷ codes "flows" ∷ id_text ∷ [];
  query = query;
  origin = [];
}

abbrev answer : Response
answer = record {
  status = 200;
  headers = (codes "Content-Type", codes "application/json") ∷ [];
  body = Body.flow_body shown_flow;
}

serve_flow : serve stores library web config request tt ≡ (tt, answer)
unfolding serve routed cors_headers dispatch find_route routes method_matches match_path handle flow
    with_id respond write_json only_if scope_allowed scope_filter is_zero_scope text_eq decode_id
    path_value decode_loop crockford_value copy_right min_bytes lower find_char
serve_flow = refl

serve-InScope_example :
    Shown stores library web config request ((serve stores library web config request tt).1.body)
serve-InScope_example = serve-InScope stores library web config request tt

serve-Fits_example :
    Answered stores library web config request
      ((serve stores library web config request tt).1.status)
      ((serve stores library web config request tt).1.body)
serve-Fits_example = serve-Fits stores library web config request tt

cursor_json : CursorJson web cursor
cursor_json = record { bytes = omega arith; some_bytes = λ e. absurd (cc); decodes = refl }

abbrev asked_page : PageRequest
asked_page = record { limit = pos 100; cursor = cursor; desc = true }

cursor_sent : query (codes "cursor") ≡ encode_cursor web cursor
unfolding encode_cursor encode_base64 text_eq char_of
cursor_sent = refl

page_asked : page_request web request ≡ ask asked_page
unfolding page_request page_at text_eq decode_cursor decode_base64 decode_groups skip_newlines
    char_value
page_asked = refl

page_request-encode_cursor_example :
    (asked_page.cursor ≡ cursor) × (pos 1 ≤ℤ asked_page.limit) × (asked_page.limit ≤ℤ pos 500)
page_request-encode_cursor_example =
    page_request-encode_cursor web request cursor asked_page refl cursor_json cursor_sent page_asked

abbrev values : PathValues
values = (codes "event", id_text) ∷ (codes "role", codes "request") ∷ []

payload_sent :
    (event_payload stores library web config request values tt).body ≡ Body.content (codes "pay")
unfolding event_payload with_id found_payload link_payload open_payload find_link send_content
    scope_allowed scope_filter is_zero_scope text_eq decode_id path_value decode_loop
    crockford_value copy_right min_bytes lower find_char
payload_sent = refl

event_payload-Sent_example : Sent stores library web config request values tt (codes "pay")
event_payload-Sent_example =
    event_payload-Sent stores library web config request values tt (codes "pay") payload_sent
