-- ===== src/Http/Exchange.antt =====
-- trailhttp/trailhttp.go: `RoundTrip`, `capturingBody` and `responseBody`: one exchange.
use trail.Prelude.{Bool, true, false, Option, none, some, List, [], ◌∷◌, ◌++◌, Text}
use trail.Prelude.Int.{ℤ}
use trail.Http.{Correlation, Web, Config, Request, Response, SpoolJob, Entry}
use trail.Http.Capture.{Capture, new_capture, add, add_chunks}
use trail.Http.Journal.{End, failed, responded, log}

-- What the base transport gives: an error, a response without a body, or one with a body. Each
-- time is the time since the start.
pub data Transport : Type 0 where
  transport_failed : Text → ℤ → Transport
  without_body : Response → ℤ → Transport
  with_body : Response → Transport

-- What happens while the response's body is open: the transport goes on reading of the request's
-- body; the caller reads some bytes of the response, at its end (`io.EOF`) or not; or closes it.
pub data Read : Type 0 where
  request_read : Text → Read
  response_read : Text → Bool → ℤ → Read
  response_close : ℤ → Read

-- The captures, whether `once` is done, and the calls of `log`.
pub record Exchange : Type 0 where
  pub sent : Capture
  pub received : Capture
  pub finished : Bool
  pub journal : List Entry

module _ (web : Web) (cfg : Config) (accepts : SpoolJob → Bool) (request : Request)
    (correlation : Correlation) where
  abbrev pub log_end : End → ℤ → Capture → Option Capture → Entry
  log_end end elapsed sent received =
      log web cfg accepts request end correlation elapsed sent received

  module _ (response : Response) where
    -- `once.Do(finish)`
    unfoldable pub finish : Bool → ℤ → Exchange → Exchange
    finish true elapsed x = x
    finish false elapsed x = record x {
      finished = true;
      journal = x.journal ++ log_end (responded response) elapsed x.sent (some x.received) ∷ [];
    }

    abbrev pub finish_if : Bool → ℤ → Exchange → Exchange
    finish_if true elapsed x = finish x.finished elapsed x
    finish_if false elapsed x = x

    unfoldable pub step : Read → Exchange → Exchange
    step (request_read chunk) x = record x { sent = add x.sent chunk }
    step (response_read chunk eof elapsed) x =
        finish_if eof elapsed (record x { received = add x.received chunk })
    step (response_close elapsed) x = finish x.finished elapsed x

    unfoldable pub run : List Read → Exchange → Exchange
    run [] x = x
    run (read ∷ reads) x = run reads (step read x)

  abbrev pub open_exchange : Capture → List Entry → Exchange
  open_exchange sent journal = record {
    sent = sent;
    received = new_capture cfg.preview_bytes cfg.payload_bytes;
    finished = false;
    journal = journal;
  }

  abbrev after : Transport → Capture → List Read → Exchange
  after (transport_failed message elapsed) sent reads =
      open_exchange sent (log_end (failed message) elapsed sent none ∷ [])
  after (without_body response elapsed) sent reads =
      open_exchange sent (log_end (responded response) elapsed sent none ∷ [])
  after (with_body response) sent reads = run response reads (open_exchange sent [])

  -- `RoundTrip`, whose transport reads these chunks of the request before it returns, and the
  -- reads after it.
  unfoldable pub round_trip : List Text → Transport → List Read → Exchange
  round_trip chunks transport reads =
      after transport (add_chunks (new_capture cfg.preview_bytes cfg.payload_bytes) chunks) reads
