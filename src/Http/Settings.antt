-- ===== src/Http/Settings.antt =====
-- trailhttp/trailhttp.go: the options, `Wrap`, and the correlation of a request.
use trail.Prelude.{
  ℕ, Bool, true, false, ◌&&◌, ◌||◌, Option, none, some, List, [], ◌∷◌, ◌++◌, Text, codes, text_eq,
  is_empty, ltb, if◌then◌else◌, ◌≡◌, arith,
}
use trail.Prelude.Int.{ℤ, pos, negsuc, leb_ℤ, ltb_ℤ}
use trail.Id.{Identifier, zero_id}
use trail.Event.Options.{EventOption}
use trail.Http.{Correlation, Web, Config}

abbrev pub max_preview_bytes : ℕ
max_preview_bytes = 65_536

-- A set of names as a list.
unfoldable pub has_name : Text → List Text → Bool
has_name name [] = false
has_name name (n ∷ names) = text_eq name n || has_name name names

abbrev pub add_name : Text → List Text → List Text
add_name name names = if has_name name names then names else name ∷ names

-- `for _, name := range names { if name != "" { set[key(name)] = struct{}{} } }`
unfoldable pub add_names : (Text → Text) → List Text → List Text → List Text
add_names key [] set = set
add_names key (name ∷ names) set =
    add_names key names (if is_empty name then set else add_name (key name) set)

-- The functions of type `Option`. `payload_spooling` has the limit of the spooler, if there is one.
pub data HttpOption : Type 0 where
  event_kind : Text → HttpOption
  body_preview : ℤ → HttpOption
  include_query : Bool → HttpOption
  normalize_path : Option (Text → Text) → HttpOption
  capture_headers : List Text → HttpOption
  sensitive_headers : List Text → HttpOption
  sensitive_query_parameters : List Text → HttpOption
  redact_preview : Option (Text → Text → Text) → HttpOption
  classify_success : Option (ℤ → Bool) → HttpOption
  attach_fields : List EventOption → HttpOption
  payload_spooling : Option ℕ → HttpOption

-- The clamp of `BodyPreview`.
unfoldable pub preview_limit : ℤ → ℕ
preview_limit (negsuc _) = 0
preview_limit (pos n) = if ltb max_preview_bytes n then max_preview_bytes else n

unfoldable pub apply_option : Web → HttpOption → Config → Config
apply_option web (event_kind kind) c = if is_empty kind then c else record c { kind = kind }
apply_option web (body_preview limit) c = record c { preview_bytes = preview_limit limit }
apply_option web (include_query include) c = record c { include_query = include }
apply_option web (normalize_path normalizer) c = record c { path_normalizer = normalizer }
apply_option web (capture_headers names) c = record c {
  header_allow = add_names web.canonical names c.header_allow;
}
apply_option web (sensitive_headers names) c = record c {
  header_sensitive = add_names web.canonical names c.header_sensitive;
}
apply_option web (sensitive_query_parameters names) c = record c {
  query_sensitive = add_names web.to_lower names c.query_sensitive;
}
apply_option web (redact_preview redactor) c = record c { redactor = redactor }
apply_option web (classify_success none) c = c
apply_option web (classify_success (some classifier)) c = record c { success = classifier }
apply_option web (attach_fields options) c = record c { fields = c.fields ++ options }
apply_option web (payload_spooling none) c = record c { spooling = false }
apply_option web (payload_spooling (some limit)) c = record c {
  spooling = true;
  payload_bytes = limit;
}

abbrev pub default_success : ℤ → Bool
default_success code = leb_ℤ (pos 200) code && ltb_ℤ code (pos 400)

abbrev pub default_config : Config
default_config = record {
  kind = codes "provider.http";
  preview_bytes = 0;
  include_query = false;
  header_allow = [];
  header_sensitive =
      codes "Authorization"
      ∷ codes "Proxy-Authorization"
      ∷ codes "Cookie"
      ∷ codes "Set-Cookie"
      ∷ codes "X-Api-Key"
      ∷ codes "X-Auth-Token"
      ∷ [];
  query_sensitive =
      codes "access_token"
      ∷ codes "api_key"
      ∷ codes "key"
      ∷ codes "password"
      ∷ codes "secret"
      ∷ codes "signature"
      ∷ codes "token"
      ∷ [];
  redactor = none;
  success = default_success;
  spooling = false;
  payload_bytes = 0;
  fields = [];
  path_normalizer = none;
}

unfoldable pub apply_options : Web → List HttpOption → Config → Config
apply_options web [] c = c
apply_options web (option ∷ options) c = apply_options web options (apply_option web option c)

-- The configuration that `Wrap` makes.
unfoldable pub wrap : Web → List HttpOption → Config
wrap web options = apply_options web options default_config

-- `correlationFrom`: the value of the context, or the zero value.
abbrev pub correlation_from : Option Correlation → Correlation
correlation_from (some c) = c
correlation_from none = record {
  flow_id = zero_id;
  execution_id = zero_id;
  scope = record { type = []; id = [] };
  entity_type = [];
  entity_id = [];
}

abbrev pub with_flow : Option Correlation → Identifier → Correlation
with_flow c id = record (correlation_from c) { flow_id = id }

abbrev pub with_execution : Option Correlation → Identifier → Correlation
with_execution c id = record (correlation_from c) { execution_id = id }

abbrev pub with_scope : Option Correlation → Text → Text → Correlation
with_scope c scope_type scope_id = record (correlation_from c) {
  scope = record { type = scope_type; id = scope_id };
}

abbrev pub with_entity : Option Correlation → Text → Text → Correlation
with_entity c entity_type entity_id = record (correlation_from c) {
  entity_type = entity_type;
  entity_id = entity_id;
}

-- What was sensitive by default stays so.
add_names-has :
    (key : Text → Text) (names set : List Text) (name : Text)
    → has_name name set ≡ true
    → has_name name (add_names key names set) ≡ true
unfolding add_names has_name
add_names-has key [] set name h = h
add_names-has key (n ∷ names) set name h = add_names-has key names _ name (ground (arith, h))

apply_option-keeps :
    (web : Web) (option : HttpOption) (c : Config) (name : Text)
    → (has_name name c.header_sensitive ≡ true
        → has_name name (apply_option web option c).header_sensitive ≡ true)
unfolding apply_option
apply_option-keeps web (event_kind kind) c name h = ground (arith, h)
apply_option-keeps web (body_preview limit) c name h = h
apply_option-keeps web (include_query include) c name h = h
apply_option-keeps web (normalize_path normalizer) c name h = h
apply_option-keeps web (capture_headers names) c name h = h
apply_option-keeps web (sensitive_headers names) c name h =
    add_names-has web.canonical names c.header_sensitive name h
apply_option-keeps web (sensitive_query_parameters names) c name h = h
apply_option-keeps web (redact_preview redactor) c name h = h
apply_option-keeps web (classify_success none) c name h = h
apply_option-keeps web (classify_success (some classifier)) c name h = h
apply_option-keeps web (attach_fields options) c name h = h
apply_option-keeps web (payload_spooling none) c name h = h
apply_option-keeps web (payload_spooling (some limit)) c name h = h

apply_options-keeps :
    (web : Web) (options : List HttpOption) (c : Config) (name : Text)
    → has_name name c.header_sensitive ≡ true
    → has_name name (apply_options web options c).header_sensitive ≡ true
unfolding apply_options
apply_options-keeps web [] c name h = h
apply_options-keeps web (option ∷ options) c name h =
    apply_options-keeps web options _ name (apply_option-keeps web option c name h)

pub wrap-sensitive :
    (web : Web) (options : List HttpOption) (name : Text)
    → has_name name default_config.header_sensitive ≡ true
    → has_name name (wrap web options).header_sensitive ≡ true
unfolding wrap
wrap-sensitive web options name h = apply_options-keeps web options default_config name h
