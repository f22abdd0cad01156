-- ===== src/Storage/Normalize.antt =====
-- storage/normalize.go: from a valid envelope to the stored records.
use trail.Prelude.{
  Bool, true, false, not, ◌&&◌, ◌||◌, Option, none, some, List, [], ◌∷◌, map, Text, codes, text_eq,
  is_empty, starts_with, drop, length, ltb, ◌==◌, if◌then◌else◌,
}
use trail.Prelude.Int.{from_bits64}
use trail.Id.{Identifier, ok, invalid, panic, decode_id, zero_id}
use trail.Event.{Level, level_debug, level_info, level_warn, level_error, Metadata}
use trail.Wire.{WireField, WireEvent, Envelope, validate}
use trail.Wire.Encode.{Result}
use trail.Payload.Hex.{decode_hex}
use trail.Storage.{Delivery, PayloadLink, new_link, no_http, EventRecord, Batch}

unfoldable pub parse_level : Text → Level
parse_level level =
    if text_eq level (codes "debug")
    then level_debug
    else if text_eq level (codes "warn")
    then level_warn
    else if text_eq level (codes "error")
    then level_error
    else level_info

-- `id, _ = trail.Parse…ID(text)`: an identifier that is not read is the zero value.
unfoldable pub parse_or_zero : Text → Identifier
parse_or_zero text = elim (decode_id text) [ ok id ↦ id | invalid ↦ zero_id | panic ↦ zero_id ]

abbrev pub parse_if_set : Text → Identifier
parse_if_set text = if is_empty text then zero_id else parse_or_zero text

-- `strings.SplitN(s, ".", 2)` where it has two parts.
unfoldable pub split_dot : Text → Option (Text × Text)
split_dot [] = none
split_dot (c ∷ s) =
    let rest = split_dot s in
    if c == b'.'
    then some ([], s)
    else elim rest [ none ↦ none | some parts ↦ some (c ∷ parts.0, parts.1) ]

-- The checksum is copied only when it has the length of the array.
unfoldable pub copy_checksum : Option Text → Text → Text
copy_checksum none old = old
copy_checksum (some decoded) old = if length decoded == length old then decoded else old

-- The second `switch` of `applyPayloadField`.
unfoldable pub set_link : Text → WireField → PayloadLink → PayloadLink
set_link name f link =
    if text_eq name (codes "store")
    then record link { ref = record link.ref { store = f.text } }
    else if text_eq name (codes "key")
    then record link { ref = record link.ref { key = f.text } }
    else if text_eq name (codes "content_type")
    then record link { ref = record link.ref { content_type = f.text } }
    else if text_eq name (codes "size")
    then record link { ref = record link.ref { size = from_bits64 f.num } }
    else if text_eq name (codes "stored_size")
    then record link { ref = record link.ref { stored_size = from_bits64 f.num } }
    else if text_eq name (codes "sha256")
    then record link {
      ref = record link.ref { sha256 = copy_checksum (decode_hex f.text) link.ref.sha256 };
    }
    else if text_eq name (codes "compression")
    then record link { ref = record link.ref { compression = f.text } }
    else if text_eq name (codes "retain_until_unix_nano")
    then record link { ref = record link.ref { retain_until = from_bits64 f.num } }
    else if text_eq name (codes "retention_class")
    then record link { ref = record link.ref { retention_class = f.text } }
    else if text_eq name (codes "original_size")
    then record link { original_size = from_bits64 f.num }
    else if text_eq name (codes "captured_size")
    then record link { captured_size = from_bits64 f.num }
    else if text_eq name (codes "truncated")
    then record link { truncated = not (f.num == 0) }
    else if text_eq name (codes "error")
    then record link { error = f.text }
    else link

-- `links[role]`, made when it is not there, and changed in place.
unfoldable pub change_link :
    Text → (PayloadLink → PayloadLink) → List PayloadLink → List PayloadLink
change_link role change [] = change (new_link role) ∷ []
change_link role change (link ∷ links) =
    let rest = change_link role change links in
    if text_eq role link.role then change link ∷ links else link ∷ rest

-- The key, after "payload.", in two parts.
unfoldable pub apply_parts : Option (Text × Text) → WireField → List PayloadLink → List PayloadLink
apply_parts none f links = links
apply_parts (some parts) f links =
    if is_empty parts.0 then links else change_link parts.0 (set_link parts.1 f) links

unfoldable pub apply_payload_field : WireField → List PayloadLink → List PayloadLink
apply_payload_field f links = apply_parts (split_dot (drop 8 f.key)) f links

-- The cases of the `switch` of `normalizeEvent` that name a key; none for `default`.
unfoldable pub set_known : WireField → EventRecord → Option EventRecord
set_known f r =
    if text_eq f.key (codes "trail.flow.status")
    then some (record r { flow_status = f.text })
    else if text_eq f.key (codes "trail.execution.status")
    then some (record r { execution_status = f.text })
    else if text_eq f.key (codes "trail.execution.kind")
    then some (record r { execution_kind = f.text })
    else if text_eq f.key (codes "trail.retention.class")
    then some (record r { retention_class = f.text })
    else if text_eq f.key (codes "provider")
    then some (record r { provider = f.text })
    else if text_eq f.key (codes "http.method")
    then some (record r { http = record r.http { method = f.text } })
    else if text_eq f.key (codes "http.scheme")
    then some (record r { http = record r.http { scheme = f.text } })
    else if text_eq f.key (codes "http.host")
    then some (record r { http = record r.http { host = f.text } })
    else if text_eq f.key (codes "http.path")
    then some (record r { http = record r.http { path = f.text } })
    else if text_eq f.key (codes "http.status_code")
    then some (record r { http = record r.http { status_code = from_bits64 f.num } })
    else if text_eq f.key (codes "http.duration")
    then some (record r { http = record r.http { duration = from_bits64 f.num } })
    else if text_eq f.key (codes "http.success")
    then some (record r { http = record r.http { success = not (f.num == 0) } })
    else if text_eq f.key (codes "http.request_size")
    then some (record r { http = record r.http { request_size = from_bits64 f.num } })
    else if text_eq f.key (codes "http.response_size")
    then some (record r { http = record r.http { response_size = from_bits64 f.num } })
    else if text_eq f.key (codes "http.request_preview")
    then some (record r { http = record r.http { request_preview = f.text } })
    else if text_eq f.key (codes "http.response_preview")
    then some (record r { http = record r.http { response_preview = f.text } })
    else none

-- The record and the map of links as the loop over the fields leaves them.
pub record Scan : Type 0 where
  pub record_of : EventRecord
  pub links : List PayloadLink

-- The `default` case.
unfoldable pub apply_default : WireField → Scan → Scan
apply_default f s = record {
  record_of =
      if text_eq f.type (codes "error")
      then record (s.record_of) { has_error = true }
      else s.record_of;
  links = if starts_with (codes "payload.") f.key then apply_payload_field f s.links else s.links;
}

unfoldable pub apply_field : WireField → Scan → Scan
apply_field f s = elim (set_known f s.record_of) [
  | some r ↦ record s { record_of = r }
  | none ↦ apply_default f s
]

unfoldable pub apply_fields : List WireField → Scan → Scan
apply_fields [] s = s
apply_fields (f ∷ fields) s = apply_fields fields (apply_field f s)

-- `<` on strings, by bytes.
unfoldable pub ltb_text : Text → Text → Bool
ltb_text _ [] = false
ltb_text [] (_ ∷ _) = true
ltb_text (a ∷ s) (b ∷ t) = ltb a b || (a == b && ltb_text s t)

-- `sort.Strings(roles)`: the links are stored in the order of their roles.
unfoldable pub insert_link : PayloadLink → List PayloadLink → List PayloadLink
insert_link link [] = link ∷ []
insert_link link (other ∷ links) =
    let rest = insert_link link links in
    if ltb_text other.role link.role then other ∷ rest else link ∷ other ∷ links

unfoldable pub sort_links : List PayloadLink → List PayloadLink
sort_links [] = []
sort_links (link ∷ links) = insert_link link (sort_links links)

-- `link.Ref.Store != "" || link.Ref.Key != "" || link.Error != ""`
abbrev pub is_kept : PayloadLink → Bool
is_kept link =
    not (is_empty link.ref.store) || not (is_empty link.ref.key) || not (is_empty link.error)

unfoldable pub kept_links : List PayloadLink → List PayloadLink
kept_links [] = []
kept_links (link ∷ links) =
    let rest = kept_links links in if is_kept link then link ∷ rest else rest

-- The record before the loop over the fields.
unfoldable pub start_record : WireEvent → Metadata → Identifier → Delivery → EventRecord
start_record e metadata batch_id delivery = record {
  id = parse_or_zero e.event_id;
  timestamp = e.timestamp_unix_nano;
  kind = e.kind;
  level = parse_level e.level;
  flow_id = parse_if_set e.flow_id;
  execution_id = parse_if_set e.execution_id;
  parent_execution_id = parse_if_set e.parent_execution_id;
  retry_of_execution_id = parse_if_set e.retry_of_execution_id;
  execution_attempt = e.execution_attempt;
  execution_source = e.execution_source;
  scope = record { type = e.scope_type; id = e.scope_id };
  entity_type = e.entity_type;
  entity_id = e.entity_id;
  parent_id = parse_if_set e.parent_id;
  fields = e.fields;
  flow_status = [];
  execution_status = [];
  execution_kind = [];
  retention_class = [];
  provider = [];
  has_error = false;
  http = no_http;
  payloads = [];
  batch_id = batch_id;
  metadata = metadata;
  delivery = delivery;
}

unfoldable pub finish_record : Scan → EventRecord
finish_record s = record (s.record_of) { payloads = kept_links (sort_links s.links) }

unfoldable pub normalize_event : WireEvent → Metadata → Identifier → Delivery → EventRecord
normalize_event e metadata batch_id delivery = finish_record (
    apply_fields e.fields
      (record { record_of = start_record e metadata batch_id delivery; links = [] }))

unfoldable pub normalize : Envelope → Delivery → Result Batch
normalize envelope delivery = elim (validate envelope) [
  | some e ↦ Result.err e
  | none ↦ Result.ok (record {
    batch_id = parse_or_zero envelope.batch_id;
    metadata = envelope.metadata;
    delivery = delivery;
    events =
        map (λ e. normalize_event e envelope.metadata (parse_or_zero envelope.batch_id) delivery)
          envelope.events;
  })
]
