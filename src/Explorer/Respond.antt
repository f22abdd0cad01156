-- ===== src/Explorer/Respond.antt =====
-- explorerapi/server.go: how a handler answers.
use trail.Prelude.{
  ℕ, Bool, true, false, ◌||◌, List, [], ◌∷◌, ◌++◌, Text, codes, text_eq, starts_with, take, ◌==◌,
  if◌then◌else◌,
}
use trail.Prelude.Int.{ℤ, pos_part}
use trail.Payload.{Ref}
use trail.Payload.Store.{
  Stream, Failure, Answer, found, missed, not_found, invalid_cursor, other_failure, gzip,
}
use trail.Storage.Query.{Page}
use trail.Explorer.{Body, PageItems, Response, Web}
use trail.Explorer.Filters.{cursor_message, encode_cursor}

-- `writeJSON`
unfoldable pub write_json : ℕ → Body → Response
write_json status body = record {
  status = status;
  headers = (codes "Content-Type", codes "application/json") ∷ [];
  body = body;
}

unfoldable pub respond_error : ℕ → Text → Text → Response
respond_error status code message = write_json status (Body.error code message)

unfoldable pub bad : Text → Response
bad message = respond_error 400 (codes "invalid_request") message

abbrev pub internal_error : Response
internal_error = respond_error 500 (codes "internal_error") (codes "request failed")

-- `respond` with an error
unfoldable pub respond_failure : Failure → Response
respond_failure not_found = respond_error 404 (codes "not_found") (codes "resource not found")
respond_failure invalid_cursor = bad cursor_message
respond_failure other_failure = internal_error

-- `respond`, with the value's JSON
unfoldable pub respond : {A : Type 0} → (A → Body) → Answer A → Response
respond body (found v) = write_json 200 (body v)
respond body (missed e) = respond_failure e

unfoldable pub respond_page : {A : Type 0} → Web → (List A → PageItems) → Answer (Page A) → Response
respond_page web items (missed e) = respond_failure e
respond_page web items (found p) =
    write_json 200 (Body.page (items p.items) (encode_cursor web p.next_cursor) p.has_more)

-- `strings.Split(value, ";")[0]`
unfoldable pub before_semicolon : Text → Text
before_semicolon [] = []
before_semicolon (c ∷ text) = let rest = before_semicolon text in if c == b';' then [] else c ∷ rest

-- The ASCII characters that `strings.TrimSpace` takes off.
unfoldable pub is_space : ℕ → Bool
is_space c = c == 32 || c == 9 || c == 10 || c == 11 || c == 12 || c == 13

unfoldable pub trim_left : Text → Text
trim_left [] = []
trim_left (c ∷ text) = let rest = trim_left text in if is_space c then rest else c ∷ text

abbrev pub keep_char : ℕ → Text → Text
keep_char c [] = if is_space c then [] else c ∷ []
keep_char c (d ∷ rest) = c ∷ d ∷ rest

unfoldable pub trim_right : Text → Text
trim_right [] = []
trim_right (c ∷ text) = keep_char c (trim_right text)

-- `safeContentType`, for a content type of ASCII characters.
unfoldable pub safe_content_type : Text → Text
safe_content_type value =
    let trimmed = trim_right (trim_left (before_semicolon value)) in
    if starts_with (codes "text/") trimmed
      || text_eq trimmed (codes "application/json")
      || text_eq trimmed (codes "application/xml")
    then trimmed
    else codes "application/octet-stream"

abbrev encoding : Bool → List (Text × Text)
encoding true = (codes "Content-Encoding", codes "gzip") ∷ []
encoding false = []

-- A payload is copied to the response, up to the limit. A read that fails ends it.
unfoldable pub send_content : ℤ → Ref → List (Text × Text) → Answer Stream → Response
send_content limit ref headers (missed e) = respond_failure e
send_content limit ref headers (found r) = record {
  status = 200;
  headers =
      (codes "Content-Type", safe_content_type ref.content_type)
      ∷ (codes "X-Content-Type-Options", codes "nosniff")
      ∷ (headers ++ encoding (text_eq ref.compression gzip));
  body = Body.content (take (pos_part limit) r.bytes);
}
