-- ===== src/Archive/Read.antt =====
-- archive/archive.go: `ReadManifest` and `ReadEvents`.
use trail.Prelude.{
  ℕ, suc, ◌+◌, Bool, not, ◌&&◌, ◌||◌, Option, none, some, List, [], ◌∷◌, ◌++◌, Text, is_empty,
  text_eq, length, leb, ltb, ◌==◌, if◌then◌else◌,
}
use trail.Prelude.Int.{ℤ, pos, negsuc, eq_ℤ, leb_ℤ, ltb_ℤ}
use trail.Payload.{Ref}
use trail.Payload.Store.{Stream, read_limited, Stores, logical}
use trail.Storage.{EventRecord}
use trail.Archive.{version, Manifest, Library}
use trail.Archive.Io.{
  Io, Outcome, done, failed, pure, or_fail, fail_if, ◌>>=◌, ◌>>◌, store_required, manifest_checksum,
  invalid_manifest, invalid_read, event_count, event_checksum, library_failed,
}
use trail.Archive.Write.{open_stream}

-- `16<<20`
abbrev pub max_read : ℕ
max_read = 16_777_216

unfoldable pub invalid : Manifest → Bool
invalid m =
    not (text_eq m.version version)
    || is_empty m.id
    || ltb_ℤ m.event_count (pos 1)
    || not (eq_ℤ (pos (length m.event_ids)) m.event_count)

abbrev prefix_char : ℕ → List Text → List Text
prefix_char c [] = (c ∷ []) ∷ []
prefix_char c (line ∷ lines) = (c ∷ line) ∷ lines

-- The lines of a text. After its last newline nothing is a line.
unfoldable pub lines_of : Text → List Text
lines_of [] = []
lines_of (c ∷ text) =
    let lines = lines_of text in if c == 10 then [] ∷ lines else prefix_char c lines

-- `dropCR` of the scanner: one '\r' at the end of a line is left out.
unfoldable pub drop_cr : Text → Text
drop_cr [] = []
drop_cr (c ∷ []) = if c == 13 then [] else c ∷ []
drop_cr (c ∷ d ∷ line) = c ∷ drop_cr (d ∷ line)

-- A bounded read: an offset from 0, and 1 to 10,000 events.
unfoldable pub bounded_read : ℤ → ℤ → Option (ℕ × ℕ)
bounded_read (pos offset) (pos limit) =
    if ltb limit 1 || ltb 10_000 limit then none else some (offset, limit)
bounded_read (negsuc _) _ = none
bounded_read _ (negsuc _) = none

-- The next step of a scan, unless it failed.
abbrev pub scanned : {A B : Type 0} → Outcome A → (A → Outcome B) → Outcome B
scanned (failed e) k = failed e
scanned (done a) k = k a

module _ (lib : Library) (offset limit : ℕ) where
  abbrev keep : Option EventRecord → List EventRecord → Outcome (List EventRecord)
  keep none result = failed library_failed
  keep (some event) result = done (result ++ event ∷ [])

  -- A line is scanned: too long for the buffer, left out, or decoded.
  unfoldable pub scan_line : Text → ℕ → List EventRecord → Outcome (List EventRecord)
  scan_line line index result =
      if leb max_read (length line) || lib.stopped index
      then failed library_failed
      else if leb offset index && ltb (length result) limit
      then keep (lib.decode_event (drop_cr line)) result
      else done result

  -- `for scanner.Scan()`: the number of lines, and the events.
  unfoldable pub scan_lines : List Text → ℕ → List EventRecord → Outcome (ℕ × List EventRecord)
  scan_lines [] index result = done (index, result)
  scan_lines (line ∷ lines) index result =
      scanned (scan_line line index result) (scan_lines lines (suc index))

  -- The tests after the loop.
  unfoldable pub check_scan :
      Manifest → Stream → ℕ × List EventRecord → Outcome (List EventRecord × Bool)
  check_scan manifest r (index, result) =
      if not r.whole
      then failed library_failed
      else if not (eq_ℤ (pos index) manifest.event_count)
      then failed event_count
      else if not (text_eq (lib.sha256 r.bytes) manifest.events.sha256)
      then failed event_checksum
      else done (result, leb_ℤ manifest.event_count (pos (offset + length result)))

module _ (S : Stores) (lib : Library) where
  -- `ReadManifest`; none is a nil store.
  unfoldable pub read_manifest : Option S.Handle → Ref → Io (S.State) Manifest
  read_manifest store ref = do
    archive ← or_fail store_required store
    r ← open_stream S lib archive ref
    content ← or_fail library_failed (read_limited max_read r)
    fail_if (not (text_eq (lib.sha256 content) ref.sha256)) manifest_checksum
    manifest ← or_fail library_failed (lib.decode_manifest content)
    fail_if (invalid manifest) invalid_manifest
    pure manifest

  abbrev pub scan : Manifest → ℕ → ℕ → Stream → Io (S.State) (List EventRecord × Bool)
  scan manifest offset limit r s = (
    s,
    scanned (scan_lines lib offset limit (lines_of r.bytes) 0 [])
        (check_scan lib offset limit manifest r),
  )

  -- `ReadEvents`
  unfoldable pub read_events :
      Option S.Handle → Manifest → ℤ → ℤ → Io (S.State) (List EventRecord × Bool)
  read_events store manifest from count = do
    archive ← or_fail invalid_read store
    bounds ← or_fail invalid_read (bounded_read from count)
    r ← open_stream S lib archive manifest.events
    content ← or_fail library_failed (logical lib.gunzip manifest.events.compression r)
    scan manifest bounds.0 bounds.1 content
