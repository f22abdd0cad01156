-- ===== src/Http/Tests.antt =====
-- An exchange with a preview, two headers that differ in a cookie, and a spooler for one job.
use trail.Prelude.{
  ◌≡◌, refl, Bool, true, false, none, some, List, [], ◌∷◌, Text, codes, text_eq, arith,
  if◌then◌else◌,
}
use trail.Prelude.Int.{pos}
use trail.Http.{Correlation, Web, Header, Request, Response, SpoolJob}
use trail.Http.Settings.{
  HttpOption, body_preview, capture_headers, wrap, correlation_from, has_name, default_config,
}
use trail.Http.Capture.{new_capture}
use trail.Http.Journal.{responded, log, no_spool_body}
use trail.Http.Exchange.{with_body, request_read, response_read, response_close, Read, round_trip}
use trail.Http.Once.{round_trip-journal, entry_of}
use trail.Http.Redacted.{Alike, AlikeAt, log-Alike}
use trail.Http.Spool.{
  Puts, put_failed, SpoolStep, enqueue_job, take_job, close_queue, run, close, empty_spooler,
  enqueue, take_next, accepts,
}
use trail.Http.Accepted.{accepted, logged_jobs, close-accepted}

abbrev web : Web
web = record { canonical = λ t. t; to_lower = λ t. t; encode_query = λ q. [] }

abbrev options : List HttpOption
options = body_preview (pos 3) ∷ capture_headers (codes "Cookie" ∷ []) ∷ []

abbrev header : Text → Header
header cookie name = if text_eq name (codes "Cookie") then some (cookie ∷ []) else none

abbrev request : Text → Request
request cookie = record {
  method = codes "GET";
  url = record {
    scheme = codes "https";
    host = codes "h";
    escaped_path = codes "/";
    raw_query = [];
    query = [];
  };
  content_length = pos 0;
  header = header cookie;
}

abbrev response : Text → Response
response cookie = record { status_code = pos 200; content_length = pos 2; header = header cookie }

abbrev correlation : Correlation
correlation = correlation_from none

abbrev refuses : SpoolJob → Bool
refuses job = false

abbrev reads : List Read
reads =
    response_read (codes "ab") false (pos 1)
    ∷ request_read (codes "q")
    ∷ response_read (codes "cd") true (pos 2)
    ∷ response_close (pos 3)
    ∷ []

round_trip-journal_example :
    (round_trip web
      (wrap web options)
      refuses
      (request (codes "a"))
      correlation
      (codes "p" ∷ [])
      (with_body (response (codes "b")))
      reads).journal
    ≡ entry_of web
        (wrap web options)
        refuses
        (request (codes "a"))
        correlation
        (response (codes "b"))
        (codes "pq")
        (codes "abcd")
        (pos 2)
      ∷ []
round_trip-journal_example =
    round_trip-journal web (wrap web options) refuses (request (codes "a")) correlation
      (response (codes "b")) (codes "p" ∷ []) reads

-- A name that is no cookie has the same values in both.
alike_at :
    (name : Text) (cookie sensitive : Bool)
    → (cookie ≡ true → sensitive ≡ true)
    → AlikeAt sensitive
        (if cookie then some (codes "a" ∷ []) else none)
        (if cookie then some (codes "b" ∷ []) else none)
alike_at name true true h = tt
alike_at name true false h = absurd (ground (arith, h))
alike_at name false sensitive h = tt

alike : Alike default_config.header_sensitive (header (codes "a")) (header (codes "b"))
unfolding has_name
alike name =
    alike_at name (text_eq name (codes "Cookie")) (has_name name default_config.header_sensitive)
      (λ h. ground (arith, h))

same_kind : header (codes "a") (codes "Content-Type") ≡ header (codes "b") (codes "Content-Type")
unfolding text_eq
same_kind = refl

log-Alike_example :
    log web
      (wrap web options)
      refuses
      (request (codes "a"))
      (responded (response (codes "a")))
      correlation
      (pos 1)
      (new_capture 3 0)
      none
    ≡ log web
        (wrap web options)
        refuses
        (request (codes "b"))
        (responded (response (codes "b")))
        correlation
        (pos 1)
        (new_capture 3 0)
        none
log-Alike_example =
    log-Alike web options refuses (request (codes "a")) (response (codes "a")) (header (codes "a"))
      (header (codes "b")) (header (codes "a")) (header (codes "b")) correlation (pos 1)
      (new_capture 3 0) none alike same_kind alike same_kind

abbrev job : SpoolJob
job = record {
  kind = codes "provider.http";
  options = [];
  request = record {
    role = codes "request";
    content_type = [];
    content = codes "x";
    original = 1;
    truncated = false;
  };
  response = no_spool_body;
}

abbrev puts : Puts
puts body opts = put_failed (codes "down")

abbrev steps : List SpoolStep
steps = enqueue_job job ∷ enqueue_job job ∷ take_job puts ∷ enqueue_job job ∷ close_queue ∷ []

two_accepted : accepted 1 [] steps empty_spooler ≡ job ∷ job ∷ []
unfolding accepted enqueue take_next accepts
two_accepted = refl

close-accepted_example :
    logged_jobs (close 1 [] puts (run 1 [] steps empty_spooler)) ≡ accepted 1 [] steps empty_spooler
close-accepted_example = close-accepted 1 [] steps puts
