-- ===== src/Archive/Restore.antt =====
-- archive/archive.go: `Restore`.
use trail.Prelude.{Bool, true, false, not, Option, none, some, List, [], ◌∷◌, Text, text_eq, length}
use trail.Prelude.Int.{ℤ, pos, ◌+ℤ◌}
use trail.Payload.Store.{Stores, Failure}
use trail.Storage.{EventRecord, PayloadLink}
use trail.Archive.{PayloadEntry, Receipt, RestoreResult, Library}
use trail.Archive.Io.{
  ArchiveError, Io, Outcome, done, failed, pure, or_fail, fail_if, ◌>>=◌, ◌>>◌, restore_required,
  call_failed, identity_mismatch, destination_not_configured, restored_unverified, library_failed,
}
use trail.Archive.Write.{link_key, has_key, same_content, options_of, copy_object}
use trail.Archive.Read.{read_manifest, read_events}

-- The loop over the links of an event: `needed`, the list of the keys that it maps to true.
unfoldable pub need_links : List PayloadLink → List Text → List Text
need_links [] needed = needed
need_links (link ∷ links) needed = need_links links (link_key link.ref ∷ needed)

unfoldable pub need_events : List EventRecord → List Text → List Text
need_events [] needed = needed
need_events (e ∷ events) needed = need_events events (need_links e.payloads needed)

abbrev pub no_result : Text → RestoreResult
no_result id = record { archive_id = id; restored = pos 0; next_offset = pos 0; complete = false }

-- `offset + len(events)`, unless this was the last chunk
unfoldable pub next_of : Bool → ℤ → List EventRecord → ℤ
next_of true offset events = pos 0
next_of false offset events = offset +ℤ pos (length events)

module _ (S : Stores) (lib : Library) where
  -- `RestoreStore`: what it answers is the number of restored events, and its error.
  abbrev pub Target : Type 0
  Target = Text → List EventRecord → S.State → S.State × ℤ × Option Failure

  module _ (archive : Option S.Handle) (active : Text → Option S.Handle) where
    -- A payload is copied back, unless no event of the chunk needs it.
    unfoldable pub restore_entry : S.Handle → Bool → PayloadEntry → Io (S.State) (Unit {0})
    restore_entry store false entry = pure tt
    restore_entry store true entry = do
      destination ← or_fail destination_not_configured (active entry.source.store)
      restored ← copy_object S lib store entry.archive destination (options_of entry.source)
      fail_if (not (same_content restored entry.source)) restored_unverified

    unfoldable pub restore_entries :
        S.Handle → List Text → List PayloadEntry → Io (S.State) (Unit {0})
    restore_entries store needed [] = pure tt
    restore_entries store needed (entry ∷ payloads) =
        restore_entry store (has_key (link_key entry.source) needed) entry >>= λ _.
        restore_entries store needed payloads

    -- What stands before the call of `RestoreArchiveEvents`: the chunk is read and its payloads
    -- are put back.
    unfoldable pub prepare : Receipt → ℤ → ℤ → Io (S.State) (Text × List EventRecord × Bool)
    prepare receipt offset limit = do
      manifest ← read_manifest S lib archive receipt.manifest_ref
      fail_if (not (text_eq manifest.id receipt.manifest.id)) identity_mismatch
      chunk ← read_events S lib archive manifest offset limit
      store ← or_fail library_failed archive
      restore_entries store (need_events chunk.0 []) manifest.payloads
      pure (manifest.id, chunk.0, chunk.1)

    abbrev pub merged :
        Receipt
        → ℤ
        → List EventRecord
        → Bool
        → S.State × ℤ × Option Failure
        → S.State × RestoreResult × Option ArchiveError
    merged receipt offset events complete (s, restored, some e) =
        (s, record (no_result receipt.manifest.id) { restored = restored }, some (call_failed e))
    merged receipt offset events complete (s, restored, none) = (
      s,
      record {
        archive_id = receipt.manifest.id;
        restored = restored;
        next_offset = next_of complete offset events;
        complete = complete;
      },
      none,
    )

    unfoldable pub merge :
        Target
        → Receipt
        → ℤ
        → S.State × Outcome (Text × List EventRecord × Bool)
        → S.State × RestoreResult × Option ArchiveError
    merge target receipt offset (s, failed e) = (s, no_result receipt.manifest.id, some e)
    merge target receipt offset (s, done (id, events, complete)) =
        merged receipt offset events complete (target id events s)

    -- `Restore`; none is a nil store.
    unfoldable pub restore :
        Option Target → Receipt → ℤ → ℤ → S.State → S.State × RestoreResult × Option ArchiveError
    restore none receipt offset limit s = (s, no_result receipt.manifest.id, some restore_required)
    restore (some target) receipt offset limit s =
        merge target receipt offset (prepare receipt offset limit s)
