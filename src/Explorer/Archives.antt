-- ===== src/Explorer/Archives.antt =====
-- explorerapi/server.go: the handlers of archives.
use trail.Prelude.{
  ℕ, suc, zero, Bool, true, false, ◌||◌, Option, none, some, List, [], ◌∷◌, Text, codes, is_empty,
  length, if◌then◌else◌,
}
use trail.Prelude.Int.{ℤ, pos, negsuc, ltb_ℤ, ◌+ℤ◌}
use trail.Payload.Store.{Stores, Failure, Answer, found, missed, other_failure}
use trail.Storage.{EventRecord}
use trail.Archive.{PayloadEntry, Receipt, RestoreResult, Library}
use trail.Archive.Io.{ArchiveError, Outcome, done, failed, call_failed}
use trail.Archive.Read.{read_events}
use trail.Archive.Restore.{Target, restore}
use trail.Explorer.{Request, PathValues, Body, Response, Config, Catalog}
use trail.Explorer.Parse.{Parsed, number, out_of_range, wrong_syntax, atoi, value_of}
use trail.Explorer.Filters.{get}
use trail.Explorer.Respond.{respond, respond_failure, respond_error, bad, send_content}
use trail.Explorer.Handlers.{path_value}

-- What the Explorer makes of an error of package archive: only an error that was passed on can be
-- one that it knows.
unfoldable pub failure_of : ArchiveError → Failure
failure_of (call_failed e) = e
failure_of _ = other_failure

abbrev pub unavailable : Text → Response
unavailable message = respond_error 501 (codes "capability_unavailable") message

abbrev pub archive_unavailable : Response
archive_unavailable = unavailable (codes "archive access is not configured")

abbrev pub wrong_bounds : Response
wrong_bounds = bad (codes "offset and limit are invalid")

abbrev pub offset_of : Request → ℤ
offset_of r = value_of (atoi (get r (codes "offset")))

abbrev pub limit_of : Request → ℤ
limit_of r =
    if is_empty (get r (codes "limit")) then pos 100 else value_of (atoi (get r (codes "limit")))

abbrev pub bounds_wrong : ℤ → ℤ → ℤ → Bool
bounds_wrong most offset limit = ltb_ℤ offset (pos 0) || ltb_ℤ limit (pos 1) || ltb_ℤ most limit

-- `receipt.Manifest.Payloads[index]`
unfoldable pub entry_at : ℕ → List PayloadEntry → Option PayloadEntry
entry_at n [] = none
entry_at zero (entry ∷ payloads) = some entry
entry_at (suc n) (entry ∷ payloads) = entry_at n payloads

-- The entry with the index of the path: none where it is no index.
unfoldable pub entry_of : Parsed → List PayloadEntry → Option PayloadEntry
entry_of (number (pos n)) payloads = entry_at n payloads
entry_of (number (negsuc _)) payloads = none
entry_of (out_of_range n) payloads = none
entry_of wrong_syntax payloads = none

-- A receipt and the bounds of a read, or the response that ends the request.
pub data Asked : Type 0 where
  ask_chunk : Receipt → ℤ → ℤ → Asked
  answered : Response → Asked

module _ (S : Stores) (lib : Library) (cfg : Config S lib) (r : Request) (values : PathValues) where
  abbrev pub list_page : Option Catalog → Response
  list_page none = unavailable (codes "archive catalog is not configured")
  list_page (some catalog) =
      if bounds_wrong (pos 500) (offset_of r) (limit_of r)
      then wrong_bounds
      else respond (λ (p : List Receipt × Bool). Body.archives_body p.0 p.1)
          (catalog.list_archives (offset_of r) (limit_of r))

  unfoldable pub archives : Response
  archives = list_page cfg.archive_catalog

  abbrev pub detail : Option Catalog → Response
  detail none = unavailable (codes "archive catalog is not configured")
  detail (some catalog) =
      respond Body.archive_body (catalog.get_archive (path_value (codes "id") values))

  unfoldable pub archive_detail : Response
  archive_detail = detail cfg.archive_catalog

  abbrev pub asked_receipt : ℤ → ℤ → Answer Receipt → Asked
  asked_receipt offset limit (missed e) = answered (respond_failure e)
  asked_receipt offset limit (found receipt) = ask_chunk receipt offset limit

  unfoldable pub request_chunk : Option Catalog → Option S.Handle → Asked
  request_chunk none _ = answered archive_unavailable
  request_chunk (some catalog) none = answered archive_unavailable
  request_chunk (some catalog) (some store) =
      if bounds_wrong (pos 10_000) (offset_of r) (limit_of r)
      then answered wrong_bounds
      else asked_receipt (offset_of r) (limit_of r)
          (catalog.get_archive (path_value (codes "id") values))

  -- `archiveRequest`
  unfoldable pub archive_request : Asked
  archive_request = request_chunk cfg.archive_catalog cfg.archive_store

  abbrev pub respond_chunk : ℤ → Outcome (List EventRecord × Bool) → Response
  respond_chunk offset (failed e) = respond_failure (failure_of e)
  respond_chunk offset (done (events, complete)) =
      respond (λ (b : Body). b)
        (found (Body.chunk_body events (offset +ℤ pos (length events)) complete))

  unfoldable pub read_chunk : Asked → S.State → Response
  read_chunk (answered response) s = response
  read_chunk (ask_chunk receipt offset limit) s =
      respond_chunk offset ((read_events S lib cfg.archive_store receipt.manifest offset limit s).1)

  unfoldable pub archive_events : S.State → Response
  archive_events s = read_chunk archive_request s

  abbrev pub send_entry : S.Handle → Option PayloadEntry → S.State → Response
  send_entry store none s = bad (codes "invalid payload index")
  send_entry store (some entry) s =
      if ltb_ℤ cfg.max_payload_bytes entry.archive.size
      then respond_error 413 (codes "payload_too_large")
          (codes "payload exceeds Explorer read limit")
      else send_content cfg.max_payload_bytes entry.archive [] (S.open_object store entry.archive s)

  abbrev pub payload_of : S.Handle → Answer Receipt → S.State → Response
  payload_of store (missed e) s = respond_failure e
  payload_of store (found receipt) s =
      send_entry store
        (entry_of (atoi (path_value (codes "index") values)) receipt.manifest.payloads) s

  unfoldable pub payload_in : Option Catalog → Option S.Handle → S.State → Response
  payload_in none _ s = archive_unavailable
  payload_in (some catalog) none s = archive_unavailable
  payload_in (some catalog) (some store) s =
      payload_of store (catalog.get_archive (path_value (codes "id") values)) s

  unfoldable pub archive_payload : S.State → Response
  archive_payload s = payload_in cfg.archive_catalog cfg.archive_store s

  abbrev pub respond_restore : S.State × RestoreResult × Option ArchiveError → S.State × Response
  respond_restore (s, result, none) = (s, respond Body.restore_body (found result))
  respond_restore (s, result, some e) = (s, respond_failure (failure_of e))

  unfoldable pub restore_chunk : Target S lib → Asked → S.State → S.State × Response
  restore_chunk target (answered response) s = (s, response)
  restore_chunk target (ask_chunk receipt offset limit) s =
      respond_restore
        (restore S lib cfg.archive_store cfg.payload_stores (some target) receipt offset limit s)

  abbrev pub not_enabled : Response
  not_enabled = respond_error 404 (codes "not_found") (codes "archive restore is not enabled")

  -- `!s.cfg.EnableRestore || s.cfg.ArchiveRestore == nil`
  unfoldable pub restore_if : Bool → Option (Target S lib) → S.State → S.State × Response
  restore_if false _ s = (s, not_enabled)
  restore_if true none s = (s, not_enabled)
  restore_if true (some target) s = restore_chunk target archive_request s

  unfoldable pub restore_archive : S.State → S.State × Response
  restore_archive s = restore_if cfg.enable_restore cfg.archive_restore s
