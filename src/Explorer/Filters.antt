-- ===== src/Explorer/Filters.antt =====
-- explorerapi/server.go: the page, the filters and the cursors that a request asks for.
use trail.Prelude.{
  Bool, not, ◌&&◌, ◌||◌, Option, none, some, [], Text, codes, text_eq, is_empty, if◌then◌else◌,
}
use trail.Prelude.Int.{ℤ, pos, ltb_ℤ}
use trail.Event.{Level, Scope, level_debug, level_info, level_warn, level_error, is_zero_scope}
use trail.Payload.{Time, zero_time, is_zero_time}
use trail.Storage.Normalize.{parse_if_set}
use trail.Storage.Query.{
  Cursor, PageRequest, TimeRange, FlowFilter, ExecutionFilter, EntityFilter, EventFilter,
  OverviewFilter, OverviewActivityFilter, activity_hour, activity_day,
}
use trail.Explorer.{Request, Web}
use trail.Explorer.Base64.{decode_base64, encode_base64}
use trail.Explorer.Parse.{Parsed, number, out_of_range, wrong_syntax, atoi, value_of, parse_bool}

-- A value, or the message of a response 400.
pub data Asked (A : Type 0) : Type 0 where
  ask : A → Asked A
  wrong : Text → Asked A

-- `q.Get(name)`
abbrev pub get : Request → Text → Text
get r name = r.query name

abbrev no_cursor : Cursor
no_cursor = record { timestamp = zero_time; id = [] }

abbrev pub cursor_message : Text
cursor_message = codes "trail/storage: invalid cursor"

abbrev pub limit_message : Text
limit_message = codes "limit must be between 1 and 500"

-- An integer of the query, 0 where it has none or it is wrong.
abbrev get_int : Request → Text → ℤ
get_int r name = if is_empty (get r name) then pos 0 else value_of (atoi (get r name))

module _ (web : Web) where
  abbrev from_json : Option Text → Asked Cursor
  from_json none = wrong cursor_message
  from_json (some bytes) = elim (web.decode_cursor_json bytes) [
    | none ↦ wrong cursor_message
    | some c ↦ ask c
  ]

  unfoldable pub decode_cursor : Text → Asked Cursor
  decode_cursor raw = if is_empty raw then ask no_cursor else from_json (decode_base64 raw)

  unfoldable pub encode_cursor : Cursor → Text
  encode_cursor c = if is_empty c.id then [] else encode_base64 (web.encode_cursor_json c)

  unfoldable pub page_limit : Parsed → Option ℤ
  page_limit (number n) = if ltb_ℤ n (pos 1) || ltb_ℤ (pos 500) n then none else some n
  page_limit (out_of_range n) = none
  page_limit wrong_syntax = none

  abbrev pub asked_limit : Request → Option ℤ
  asked_limit r =
      if is_empty (get r (codes "limit"))
      then some (pos 100)
      else page_limit (atoi (get r (codes "limit")))

  unfoldable pub page_at : Option ℤ → Asked Cursor → Bool → Asked PageRequest
  page_at none c desc = wrong limit_message
  page_at (some limit) (wrong message) desc = wrong message
  page_at (some limit) (ask c) desc = ask (record { limit = limit; cursor = c; desc = desc })

  unfoldable pub page_request : Request → Asked PageRequest
  page_request r =
      page_at (asked_limit r) (decode_cursor (get r (codes "cursor")))
        (not (text_eq (get r (codes "order")) (codes "asc")))

  abbrev time_or_zero : Option Time → Time
  time_or_zero none = zero_time
  time_or_zero (some t) = t

  unfoldable pub time_range : Request → TimeRange
  time_range r = record {
    from = time_or_zero (web.parse_time (get r (codes "from")));
    to = time_or_zero (web.parse_time (get r (codes "to")));
  }

  unfoldable pub scope_filter : Request → Scope
  scope_filter r = record { type = get r (codes "scope_type"); id = get r (codes "scope_id") }

  unfoldable pub overview_filter : Request → OverviewFilter
  overview_filter r = record {
    time = time_range r;
    service = get r (codes "service");
    environment = get r (codes "environment");
    scope = scope_filter r;
  }

  abbrev interval_of : Text → Text
  interval_of raw = if is_empty raw then activity_day else raw

  unfoldable pub overview_activity_filter : Request → Asked OverviewActivityFilter
  overview_activity_filter r =
      let base = overview_filter r in
      let interval = interval_of (get r (codes "interval")) in
      if not (is_zero_time base.time.from)
        && not (is_zero_time base.time.to)
        && not (ltb_ℤ base.time.from base.time.to)
      then wrong (codes "from must be before to")
      else if not (text_eq interval activity_hour) && not (text_eq interval activity_day)
      then wrong (codes "interval must be hour or day")
      else ask (record { overview = base; interval = interval })

  unfoldable pub flow_filter : Request → FlowFilter
  flow_filter r = record {
    time = time_range r;
    service = get r (codes "service");
    environment = get r (codes "environment");
    status = get r (codes "status");
    entity_type = get r (codes "entity_type");
    entity_id = get r (codes "entity_id");
    execution_id = parse_if_set (get r (codes "execution_id"));
    scope = scope_filter r;
  }

  unfoldable pub execution_filter : Request → ExecutionFilter
  execution_filter r = record {
    time = time_range r;
    service = get r (codes "service");
    environment = get r (codes "environment");
    status = get r (codes "status");
    source = get r (codes "source");
    kind = get r (codes "kind");
    scope = scope_filter r;
  }

  unfoldable pub entity_filter : Request → EntityFilter
  entity_filter r = record {
    time = time_range r;
    service = get r (codes "service");
    environment = get r (codes "environment");
    entity_type = get r (codes "entity_type");
    id_prefix = get r (codes "q");
    scope = scope_filter r;
  }

  unfoldable pub parse_level : Text → Level
  parse_level s =
      if text_eq s (codes "debug")
      then level_debug
      else if text_eq s (codes "warn")
      then level_warn
      else if text_eq s (codes "error")
      then level_error
      else level_info

  unfoldable pub event_filter : Request → EventFilter
  event_filter r = record {
    time = time_range r;
    service = get r (codes "service");
    environment = get r (codes "environment");
    kind = get r (codes "kind");
    level =
        if is_empty (get r (codes "level"))
        then none
        else some (parse_level (get r (codes "level")));
    http_status_class = get_int r (codes "http_status_class");
    http_method = get r (codes "http_method");
    http_status = get_int r (codes "http_status");
    provider = get r (codes "provider");
    has_error =
        if is_empty (get r (codes "has_error"))
        then none
        else parse_bool (get r (codes "has_error"));
    flow_id = parse_if_set (get r (codes "flow_id"));
    execution_id = parse_if_set (get r (codes "execution_id"));
    entity_type = get r (codes "entity_type");
    entity_id = get r (codes "entity_id");
    scope = scope_filter r;
  }

-- `scopeAllowed`
unfoldable pub scope_allowed : Scope → Scope → Bool
scope_allowed requested actual =
    is_zero_scope requested || text_eq requested.type actual.type && text_eq requested.id actual.id
