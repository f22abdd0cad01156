-- ===== src/Http/Spool.antt =====
-- trailhttp/spool.go: `PayloadSpooler`. Its goroutine takes one job after the other.
use trail.Prelude.{
  ℕ, Bool, true, false, not, ◌||◌, ◌&&◌, Option, none, some, List, [], ◌∷◌, ◌++◌, Text, codes,
  is_empty, length, ltb, if◌then◌else◌,
}
use trail.Prelude.Int.{ℤ, pos, ltb_ℤ, leb_ℤ}
use trail.Event.Options.{EventOption, string, int64, bool}
use trail.Payload.{Ref, ref_fields, payload_key}
use trail.Payload.Store.{PutOptions, plain_options}
use trail.Http.{SpoolBody, SpoolJob}

abbrev pub max_payload_capture_bytes : ℤ
max_payload_capture_bytes = pos 16_777_216

-- `PayloadSpoolConfig`
pub record SpoolConfig : Type 0 where
  pub max_capture_bytes : ℤ
  pub queue_capacity : ℤ
  pub put_timeout : ℤ
  pub compression : Text

abbrev or_default : ℤ → ℤ → ℤ
or_default value default = if leb_ℤ value (pos 0) then default else value

-- `NewPayloadSpooler`: whether there is a store, and the configuration of the spooler.
unfoldable pub new_payload_spooler : Bool → SpoolConfig → Option SpoolConfig
new_payload_spooler store cfg =
    if not store || leb_ℤ cfg.max_capture_bytes (pos 0)
    then none
    else some (record {
      max_capture_bytes =
          if ltb_ℤ max_payload_capture_bytes cfg.max_capture_bytes
          then max_payload_capture_bytes
          else cfg.max_capture_bytes;
      queue_capacity = or_default cfg.queue_capacity (pos 64);
      put_timeout = or_default cfg.put_timeout (pos 15_000_000_000);
      compression = cfg.compression;
    })

-- What a put gives: the reference, or the text of the error.
pub data Put : Type 0 where
  stored : Ref → Put
  put_failed : Text → Put

-- The answers of the store to the puts of a body.
abbrev pub Puts : Type 0
Puts = SpoolBody → PutOptions → Put

abbrev put_options : SpoolBody → Put → List EventOption
put_options body (put_failed message) = string (payload_key body.role (codes "error")) message ∷ []
put_options body (stored ref) =
    ref_fields ref body.role
    ++ (int64 (payload_key body.role (codes "original_size")) (pos body.original)
        ∷ int64 (payload_key body.role (codes "captured_size")) (pos (length body.content))
        ∷ bool (payload_key body.role (codes "truncated")) body.truncated
        ∷ [])

-- The body of the loop over the bodies of a job.
unfoldable pub spool_body_options : Text → Puts → SpoolBody → List EventOption
spool_body_options compression puts body =
    if is_empty body.content
    then []
    else put_options body (puts body (plain_options body.content_type compression))

-- The options of the event of a job.
unfoldable pub job_options : Text → Puts → SpoolJob → List EventOption
job_options compression puts job =
    job.options
    ++ (spool_body_options compression puts job.request
        ++ spool_body_options compression puts job.response)

-- The jobs in the queue, whether it is closed, and the jobs that were logged, with their options.
pub record Spooler : Type 0 where
  pub jobs : List SpoolJob
  pub closed : Bool
  pub logged : List (SpoolJob × List EventOption)

abbrev pub empty_spooler : Spooler
empty_spooler = record { jobs = []; closed = false; logged = [] }

-- `enqueue`, and the goroutine, which takes a job with these answers of the store.
pub data SpoolStep : Type 0 where
  enqueue_job : SpoolJob → SpoolStep
  take_job : Puts → SpoolStep
  close_queue : SpoolStep

module _ (capacity : ℕ) (compression : Text) where
  -- Whether `enqueue` accepts.
  unfoldable pub accepts : Spooler → Bool
  accepts s = not s.closed && ltb (length s.jobs) capacity

  unfoldable pub enqueue : SpoolJob → Spooler → Spooler
  enqueue job s = if accepts s then record s { jobs = s.jobs ++ job ∷ [] } else s

  -- One round of `run`.
  unfoldable pub take_next : Puts → List SpoolJob → Spooler → Spooler
  take_next puts [] s = s
  take_next puts (job ∷ jobs) s = record s {
    jobs = jobs;
    logged = s.logged ++ (job, job_options compression puts job) ∷ [];
  }

  unfoldable pub step : SpoolStep → Spooler → Spooler
  step (enqueue_job job) s = enqueue job s
  step (take_job puts) s = take_next puts s.jobs s
  step close_queue s = record s { closed = true }

  unfoldable pub run : List SpoolStep → Spooler → Spooler
  run [] s = s
  run (st ∷ steps) s = run steps (step st s)

  -- What `Close` waits for: the goroutine takes the jobs that are left.
  unfoldable pub drain : Puts → List SpoolJob → Spooler → Spooler
  drain puts [] s = s
  drain puts (job ∷ jobs) s = drain puts jobs (take_next puts (job ∷ jobs) s)

  unfoldable pub close : Puts → Spooler → Spooler
  close puts s = drain puts s.jobs (record s { closed = true })
