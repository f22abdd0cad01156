-- ===== src/Http.antt =====
-- trailhttp/trailhttp.go and trailhttp/spool.go: the journal of outgoing HTTP requests. Its
-- configuration, and what it reads of a request and a response.
pub mod Settings
pub mod Capture
pub mod Journal
pub mod Exchange
pub mod Spool
pub mod Once
pub mod Redacted
pub mod Accepted
mod Tests
use trail.Prelude.{ℕ, Bool, Option, List, Text}
use trail.Prelude.Int.{ℤ}
use trail.Id.{Identifier}
use trail.Event.{Scope}
use trail.Event.Options.{EventOption}

pub record Correlation : Type 0 where
  pub flow_id : Identifier
  pub execution_id : Identifier
  pub scope : Scope
  pub entity_type : Text
  pub entity_id : Text

-- What the package calls of the standard library: `http.CanonicalHeaderKey`, `strings.ToLower` and
-- `url.Values.Encode`.
pub record Web : Type 0 where
  pub canonical : Text → Text
  pub to_lower : Text → Text
  pub encode_query : List (Text × List Text) → Text

-- The sets of names are lists. Nil functions are `none`. `spooling` is whether there is a spooler.
pub record Config : Type 0 where
  pub kind : Text
  pub preview_bytes : ℕ
  pub include_query : Bool
  pub header_allow : List Text
  pub header_sensitive : List Text
  pub query_sensitive : List Text
  pub redactor : Option (Text → Text → Text)
  pub success : ℤ → Bool
  pub spooling : Bool
  pub payload_bytes : ℕ
  pub fields : List EventOption
  pub path_normalizer : Option (Text → Text)

-- `value.EscapedPath()`, and the parsed query.
pub record Url : Type 0 where
  pub scheme : Text
  pub host : Text
  pub escaped_path : Text
  pub raw_query : Text
  pub query : List (Text × List Text)

-- `http.Header`: the values under a canonical name.
abbrev pub Header : Type 0
Header = Text → Option (List Text)

pub record Request : Type 0 where
  pub method : Text
  pub url : Url
  pub content_length : ℤ
  pub header : Header

pub record Response : Type 0 where
  pub status_code : ℤ
  pub content_length : ℤ
  pub header : Header

-- `spoolBody`
pub record SpoolBody : Type 0 where
  pub role : Text
  pub content_type : Text
  pub content : Text
  pub original : ℕ
  pub truncated : Bool

-- `spoolJob`
pub record SpoolJob : Type 0 where
  pub kind : Text
  pub options : List EventOption
  pub request : SpoolBody
  pub response : SpoolBody

-- What the journal of an exchange does: a call of `trail.Log`, or a job for the spooler.
pub data Entry : Type 0 where
  logged : Text → List EventOption → Entry
  spooled : SpoolJob → Entry
