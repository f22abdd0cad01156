-- ===== src/Http/Once.antt =====
-- trailhttp/trailhttp.go: an exchange is journaled once, with what was read until it ended.
use trail.Prelude.{
  ◌≡◌, refl, sym, ap, ◌∙◌, Bool, true, false, Option, none, some, List, [], ◌∷◌, ◌++◌, append_assoc,
  append-nil, Text,
}
use mathlib.Core.Path.{subst}
use trail.Prelude.Int.{ℤ}
use trail.Http.{Correlation, Web, Config, Request, Response, SpoolJob, Entry}
use trail.Http.Capture.{
  Capture, add, concat, capture_of, capture_of-nil, add-capture_of, add_chunks-concat,
}
use trail.Http.Journal.{responded}
use trail.Http.Exchange.{
  with_body, Read, request_read, response_read, response_close, Exchange, log_end, finish, step,
  run, round_trip,
}

-- The bytes that were sent and received until the first end, and its time.
abbrev pub Seen : Type 0
Seen = Text × Text × ℤ

abbrev more_sent : Text → Option Seen → Option Seen
more_sent chunk none = none
more_sent chunk (some (sent, received, elapsed)) = some (chunk ++ sent, received, elapsed)

abbrev more_received : Text → Option Seen → Option Seen
more_received chunk none = none
more_received chunk (some (sent, received, elapsed)) = some (sent, chunk ++ received, elapsed)

abbrev pub seen : List Read → Option Seen
seen [] = none
seen (request_read chunk ∷ reads) = more_sent chunk (seen reads)
seen (response_read chunk true elapsed ∷ reads) = some ([], chunk, elapsed)
seen (response_read chunk false elapsed ∷ reads) = more_received chunk (seen reads)
seen (response_close elapsed ∷ reads) = some ([], [], elapsed)

same_pair : {c c' d d' : Capture} → c ≡ c' → d ≡ d' → ◌≡◌ {A = Capture × Capture} (c, d) (c', d')
same_pair p q = cc

module _ (web : Web) (cfg : Config) (accepts : SpoolJob → Bool) (request : Request)
    (correlation : Correlation) (response : Response) where
  abbrev pub captured : Text → Capture
  captured text = capture_of cfg.preview_bytes cfg.payload_bytes text

  abbrev pub entry_of : Text → Text → ℤ → Entry
  entry_of sent received elapsed =
      log_end web cfg accepts request correlation (responded response) elapsed (captured sent)
        (some (captured received))

  -- The journal of an exchange that sent and received these bytes before.
  abbrev pub journal_of : Text → Text → Option Seen → List Entry
  journal_of sent received none = []
  journal_of sent received (some (sent', received', elapsed)) =
      entry_of (sent ++ sent') (received ++ received') elapsed ∷ []

  abbrev open_at : Text → Text → Exchange
  open_at sent received = record {
    sent = captured sent;
    received = captured received;
    finished = false;
    journal = [];
  }

  -- Once finished, the journal stays as it is.
  finished-run :
      (reads : List Read) (x : Exchange)
      → x.finished ≡ true
      → (run web cfg accepts request correlation response reads x).journal ≡ x.journal
  unfolding run step finish
  finished-run [] x h = refl
  finished-run (request_read chunk ∷ reads) x h = finished-run reads _ h
  finished-run (response_read chunk true elapsed ∷ reads) x h =
      subst
        (λ (b : Bool).
          (run web cfg accepts request correlation response reads (
            finish web cfg accepts request correlation response b elapsed
              (record x { received = add x.received chunk }))).journal
          ≡ x.journal)
        (sym h) (finished-run reads _ h)
  finished-run (response_read chunk false elapsed ∷ reads) x h = finished-run reads _ h
  finished-run (response_close elapsed ∷ reads) x h =
      subst
        (λ (b : Bool).
          (run web cfg accepts request correlation response reads
            (finish web cfg accepts request correlation response b elapsed x)).journal
          ≡ x.journal)
        (sym h) (finished-run reads _ h)

  shift_sent :
      (sent received chunk : Text) (o : Option Seen)
      → journal_of (sent ++ chunk) received o ≡ journal_of sent received (more_sent chunk o)
  shift_sent sent received chunk none = refl
  shift_sent sent received chunk (some (sent', received', elapsed)) =
      ap (λ (t : Text). entry_of t (received ++ received') elapsed ∷ [])
        (append_assoc sent chunk sent')

  shift_received :
      (sent received chunk : Text) (o : Option Seen)
      → journal_of sent (received ++ chunk) o ≡ journal_of sent received (more_received chunk o)
  shift_received sent received chunk none = refl
  shift_received sent received chunk (some (sent', received', elapsed)) =
      ap (λ (t : Text). entry_of (sent ++ sent') t elapsed ∷ [])
        (append_assoc received chunk received')

  same_entry :
      (sent sent' received received' : Capture) (elapsed : ℤ)
      → sent ≡ sent'
      → received ≡ received'
      → ◌≡◌ {A = List Entry}
          (log_end web cfg accepts request correlation
              (responded response)
              elapsed
              sent
              (some received)
            ∷ [])
          (log_end web cfg accepts request correlation
              (responded response)
              elapsed
              sent'
              (some received')
            ∷ [])
  same_entry sent sent' received received' elapsed p q =
      ap
        (λ (c : Capture).
          log_end web cfg accepts request correlation (responded response) elapsed c (some received)
          ∷ [])
        p
      ∙ ap
          (λ (c : Capture).
            log_end web cfg accepts request correlation (responded response) elapsed sent' (some c)
            ∷ [])
          q

  add-captured : (text chunk : Text) → add (captured text) chunk ≡ captured (text ++ chunk)
  add-captured text chunk = add-capture_of cfg.preview_bytes cfg.payload_bytes text chunk

  captured-nil : (text : Text) → captured text ≡ captured (text ++ [])
  captured-nil text = ap captured (sym (append-nil text))

  pub run-journal :
      (reads : List Read) (sent received : Text)
      → (run web cfg accepts request correlation response reads (open_at sent received)).journal
        ≡ journal_of sent received (seen reads)
  unfolding run step finish
  run-journal [] sent received = refl
  run-journal (request_read chunk ∷ reads) sent received =
      ap
        (λ (c : Capture).
          (run web cfg accepts request correlation response reads
            (record (open_at sent received) { sent = c })).journal)
        (add-captured sent chunk)
      ∙ run-journal reads (sent ++ chunk) received
      ∙ shift_sent sent received chunk (seen reads)
  run-journal (response_read chunk true elapsed ∷ reads) sent received =
      finished-run reads _ refl
      ∙ same_entry _ _ _ _ elapsed (captured-nil sent) (add-captured received chunk)
  run-journal (response_read chunk false elapsed ∷ reads) sent received =
      ap
        (λ (c : Capture).
          (run web cfg accepts request correlation response reads
            (record (open_at sent received) { received = c })).journal)
        (add-captured received chunk)
      ∙ run-journal reads sent (received ++ chunk)
      ∙ shift_received sent received chunk (seen reads)
  run-journal (response_close elapsed ∷ reads) sent received =
      finished-run reads _ refl
      ∙ same_entry _ _ _ _ elapsed (captured-nil sent) (captured-nil received)

  -- An exchange whose response has a body is journaled by exactly one entry if some read ends it,
  -- at EOF or by Close, and by none otherwise; the captures of that entry are the beginnings, up
  -- to their limits, of all that was sent and received until the first end.
  pub round_trip-journal :
      (chunks : List Text) (reads : List Read)
      → (round_trip web cfg accepts request correlation chunks (with_body response) reads).journal
        ≡ journal_of (concat chunks) [] (seen reads)
  unfolding round_trip
  round_trip-journal chunks reads =
      ap
        (λ (p : Capture × Capture).
          (run web cfg accepts request correlation response reads
            (record { sent = p.0; received = p.1; finished = false; journal = [] })).journal)
        (same_pair (add_chunks-concat cfg.preview_bytes cfg.payload_bytes chunks)
          (sym (capture_of-nil cfg.preview_bytes cfg.payload_bytes)))
      ∙ run-journal reads (concat chunks) []
