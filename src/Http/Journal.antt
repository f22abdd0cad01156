-- ===== src/Http/Journal.antt =====
-- trailhttp/trailhttp.go: `log`, and what it puts into an event.
use trail.Prelude.{
  Bool, true, false, not, ◌&&◌, ◌||◌, Option, none, some, List, [], ◌∷◌, ◌++◌, Text, codes,
  is_empty, length, ltb, ◌==◌, if◌then◌else◌,
}
use trail.Prelude.Int.{ℤ, pos}
use trail.Id.{is_zero_id}
use trail.Event.{level_warn, level_error, is_zero_scope}
use trail.Event.Options.{
  EventOption, string, int, int64, bool, error, duration, flow, execution, with_scope, entity,
  with_level,
}
use trail.Payload.{when}
use trail.Http.{
  Correlation, Web, Config, Url, Header, Request, Response, SpoolBody, SpoolJob, Entry,
}
use trail.Http.Settings.{max_preview_bytes, has_name}
use trail.Http.Capture.{Capture, cut}

abbrev pub redacted : Text
redacted = codes "[REDACTED]"

-- `header.Get("Content-Type")`
abbrev first_value : Option (List Text) → Text
first_value none = []
first_value (some []) = []
first_value (some (value ∷ _)) = value

abbrev pub content_type : Header → Text
content_type header = first_value (header (codes "Content-Type"))

-- `strings.Join(values, ", ")`
unfoldable pub join : List Text → Text
join [] = []
join (value ∷ []) = value
join (value ∷ next ∷ values) = value ++ (codes ", " ++ join (next ∷ values))

-- A value of `http.Header` is added under its name.
abbrev pub header_value : Config → Text → List Text → Text
header_value cfg name values = if has_name name cfg.header_sensitive then redacted else join values

abbrev pub header_key : Web → Text → Text → Text
header_key web prefix name = prefix ++ web.to_lower name

abbrev pub add_header :
    Web → Config → Text → Text → Option (List Text) → List EventOption → List EventOption
add_header web cfg prefix name none fields = fields
add_header web cfg prefix name (some values) fields =
    string (header_key web prefix name) (header_value cfg name values) ∷ fields

-- The loop of `headerFields`, in some order of the names.
unfoldable pub header_fields : Web → Config → Text → Header → List Text → List EventOption
header_fields web cfg prefix header [] = []
header_fields web cfg prefix header (name ∷ names) =
    add_header web cfg prefix name (header name) (header_fields web cfg prefix header names)

-- The loop over the parameters of a query.
unfoldable pub redact_query : Web → Config → List (Text × List Text) → List (Text × List Text)
redact_query web cfg [] = []
redact_query web cfg ((key, values) ∷ query) =
    (key, if has_name (web.to_lower key) cfg.query_sensitive then redacted ∷ [] else values)
    ∷ redact_query web cfg query

abbrev normalized : Option (Text → Text) → Text → Text
normalized none path = path
normalized (some normalizer) path = normalizer path

unfoldable pub request_path : Web → Config → Option Url → Text
request_path web cfg none = []
request_path web cfg (some url) =
    let path = normalized cfg.path_normalizer url.escaped_path in
    if cfg.include_query && not (is_empty url.raw_query)
    then path ++ (codes "?" ++ web.encode_query (redact_query web cfg url.query))
    else path

abbrev redact_by : Option (Text → Text → Text) → Text → Text → Text
redact_by none kind preview = preview
redact_by (some redactor) kind preview = cut max_preview_bytes (redactor kind preview)

-- `redact`
unfoldable pub redact : Config → Text → Text → Text
redact cfg kind preview = redact_by cfg.redactor kind preview

abbrev spool_content : Config → Option (Text → Text → Text) → Text → Text → Text
spool_content cfg none kind content = content
spool_content cfg (some redactor) kind content = cut cfg.payload_bytes (redactor kind content)

abbrev pub no_spool_body : SpoolBody
no_spool_body = record {
  role = [];
  content_type = [];
  content = [];
  original = 0;
  truncated = false;
}

-- `spoolBody`
unfoldable pub spool_body : Config → Text → Text → Option Capture → SpoolBody
spool_body cfg role kind none = no_spool_body
spool_body cfg role kind (some c) = if is_empty c.payload then no_spool_body else record {
  role = role;
  content_type = kind;
  content = spool_content cfg cfg.redactor kind c.payload;
  original = c.n;
  truncated = ltb (length c.payload) c.n;
}

-- The size that was read, or else the length of the header.
unfoldable pub body_size : ℤ → Option Capture → ℤ
body_size content_length none = content_length
body_size content_length (some c) = if c.n == 0 then content_length else pos c.n

-- How an exchange ended: with an error's text, or with a response.
pub data End : Type 0 where
  failed : Text → End
  responded : Response → End

module _ (web : Web) (cfg : Config) where
  abbrev correlation_options : Correlation → List EventOption
  correlation_options c =
      when (not (is_zero_id c.flow_id)) (flow c.flow_id)
      ++ (when (not (is_zero_id c.execution_id)) (execution c.execution_id)
          ++ (when (not (is_zero_scope c.scope)) (with_scope c.scope.type c.scope.id)
              ++ when (not (is_empty c.entity_type) || not (is_empty c.entity_id))
                  (entity c.entity_type c.entity_id)))

  unfoldable pub end_options : End → Option Capture → List EventOption
  end_options (failed message) c =
      bool (codes "http.success") false ∷ error (some message) ∷ with_level level_error ∷ []
  end_options (responded response) c =
      int (codes "http.status_code") response.status_code
      ∷ bool (codes "http.success") (cfg.success response.status_code)
      ∷ int64 (codes "http.response_size") (body_size response.content_length c)
      ∷ when (not (cfg.success response.status_code)) (with_level level_warn)

  abbrev response_headers : End → List EventOption
  response_headers (failed message) = []
  response_headers (responded response) =
      header_fields web cfg (codes "http.response.header.") response.header cfg.header_allow

  abbrev preview_option : Text → Text → Text → List EventOption
  preview_option key kind preview =
      when (not (is_empty preview)) (string key (redact cfg kind preview))

  abbrev response_preview : End → Option Capture → List EventOption
  response_preview (responded response) (some c) =
      preview_option (codes "http.response_preview") (content_type response.header) c.preview
  response_preview _ _ = []

  -- The options of an event, up to those of payloads.
  unfoldable pub event_options :
      Request → End → Correlation → ℤ → Capture → Option Capture → List EventOption
  event_options request end correlation elapsed sent received =
      string (codes "http.method") request.method
      ∷ string (codes "http.scheme") request.url.scheme
      ∷ string (codes "http.host") request.url.host
      ∷ string (codes "http.path") (request_path web cfg (some request.url))
      ∷ duration (codes "http.duration") elapsed
      ∷ int64 (codes "http.request_size") (body_size request.content_length (some sent))
      ∷ (cfg.fields
          ++ (correlation_options correlation
              ++ (end_options end received
                  ++ (header_fields web cfg (codes "http.request.header.") request.header
                        cfg.header_allow
                      ++ (response_headers end
                          ++ (preview_option (codes "http.request_preview")
                                (content_type request.header) sent.preview
                              ++ response_preview end received))))))

  abbrev response_body : End → Option Capture → SpoolBody
  response_body (responded response) (some c) =
      spool_body cfg (codes "response") (content_type response.header) (some c)
  response_body _ _ = no_spool_body

  abbrev has_payload : Option Capture → Bool
  has_payload none = false
  has_payload (some c) = not (is_empty c.payload)

  -- The job is accepted by the spooler, or the event is logged with an error.
  abbrev spool_or_log : Bool → SpoolJob → Entry
  spool_or_log true job = Entry.spooled job
  spool_or_log false job =
      Entry.logged job.kind
        (job.options ++ string (codes "payload.error") (codes "spool queue full") ∷ [])

  -- `log`; `accepts` is the answer of `enqueue`, and `elapsed` is the time since the start.
  unfoldable pub log :
      (SpoolJob → Bool) → Request → End → Correlation → ℤ → Capture → Option Capture → Entry
  log accepts request end correlation elapsed sent received =
      let options = event_options request end correlation elapsed sent received in
      let job : SpoolJob = record {
        kind = cfg.kind;
        options = options;
        request = spool_body cfg (codes "request") (content_type request.header) (some sent);
        response = response_body end received;
      } in
      if cfg.spooling && (not (is_empty sent.payload) || has_payload received)
      then spool_or_log (accepts job) job
      else Entry.logged cfg.kind options
