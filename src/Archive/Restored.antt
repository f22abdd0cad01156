-- ===== src/Archive/Restored.antt =====
-- archive/archive.go: what `Restore` gives the restore store of an archive that `Write` wrote.
use trail.Prelude.{
  ℕ, ◌≤◌, ◌≡◌, refl, Bool, false, Option, none, some, List, [], Text, All, length, text_eq_refl,
  arith,
}
use mathlib.Core.Path.{subst}
use trail.Prelude.Int.{ℤ, pos}
use trail.Payload.Store.{Failure, Stores, IsLawful}
use trail.Storage.{EventRecord}
use trail.Archive.{Receipt, RestoreResult, Library}
use trail.Archive.Io.{Outcome, done, failed, and_then, pure}
use trail.Archive.Write.{write}
use trail.Archive.Read.{read_manifest, read_events}
use trail.Archive.Restore.{
  Target, need_events, next_of, restore_entries, prepare, merged, merge, restore,
}
use trail.Archive.Steps.{UniqueEvents}
use trail.Archive.Scan.{Readable}
use trail.Archive.RoundTrip.{ManifestReads, chunk, read_events-write}

module _ (S : Stores) (lib : Library) (archive : S.Handle) (active : Text → Option S.Handle) where
  -- The result of a restore that succeeded.
  unfoldable pub restored_chunk : Receipt → ℕ → ℤ → List EventRecord × Bool → RestoreResult
  restored_chunk receipt offset restored c = record {
    archive_id = receipt.manifest.id;
    restored = restored;
    next_offset = next_of c.1 (pos offset) c.0;
    complete = c.1;
  }

  -- The restore store took this chunk, and answered.
  abbrev pub Took :
      Target S lib → Receipt → ℕ → List EventRecord × Bool → S.State → RestoreResult → Type 0
  Took target receipt offset c s' result =
      (before : S.State) × (restored : ℤ) × (target receipt.manifest.id c.0 before
        ≡ (s', restored, none))
      × (result ≡ restored_chunk receipt offset restored c)

  merged-Took :
      (target : Target S lib) (receipt : Receipt) (offset : ℕ) (c : List EventRecord × Bool)
      (before : S.State) (y : S.State × ℤ × Option Failure) (s' : S.State) (result : RestoreResult)
      → target receipt.manifest.id c.0 before ≡ y
      → merged S lib (some archive) active receipt (pos offset) c.0 c.1 y ≡ (s', result, none)
      → Took target receipt offset c s' result
  unfolding restored_chunk
  merged-Took target receipt offset c before (s2, n, some failure) s' result e h = absurd (cc)
  merged-Took target receipt offset c before (s2, n, none) s' result e h = (before, n, cc, cc)

  merge-Took :
      (target : Target S lib) (receipt : Receipt) (offset : ℕ) (c : List EventRecord × Bool)
      (x : S.State × Outcome (Unit {0})) (s' : S.State) (result : RestoreResult)
      → merge S lib
          (some archive)
          active
          target
          receipt
          (pos offset)
          (and_then x (λ _. pure (receipt.manifest.id, c.0, c.1)))
        ≡ (s', result, none)
      → Took target receipt offset c s' result
  unfolding merge restored_chunk
  merge-Took target receipt offset c (s, failed e) s' result h = absurd (cc)
  merge-Took target receipt offset c (s, done _) s' result h =
      merged-Took target receipt offset c s _ s' result refl h

  prepare_lem :
      (receipt : Receipt) (offset limit : ℤ) (c : List EventRecord × Bool) (s : S.State)
      → read_manifest S lib (some archive) receipt.manifest_ref s ≡ (s, done receipt.manifest)
      → read_events S lib (some archive) receipt.manifest offset limit s ≡ (s, done c)
      → prepare S lib (some archive) active receipt offset limit s
        ≡ and_then
            (restore_entries S lib
              (some archive)
              active
              archive
              (need_events c.0 [])
              receipt.manifest.payloads
              s)
            (λ _. pure (receipt.manifest.id, c.0, c.1))
  unfolding prepare
  prepare_lem receipt offset limit c s e1 e2 =
      ground (arith, e1, e2, text_eq_refl receipt.manifest.id)

  module _ (lawful : IsLawful S lib.gunzip lib.sha256) (sources : Text → Option S.Handle) where
    -- Under the conditions of the round trip, a Restore without an error of an archive, in the
    -- state in which Write left it, gave the restore store the identifier of the archive and
    -- exactly the events from the offset on, up to the limit; the result holds the number it
    -- answered, whether no event is left, and otherwise the offset of the next chunk.
    pub restore-write :
        (events : List EventRecord) (offset limit : ℕ) (s s1 s2 : S.State) (receipt : Receipt)
        (target : Target S lib) (result : RestoreResult)
        → ((text : Text) → length (lib.sha256 text) ≡ 32)
        → UniqueEvents lib events
        → ((i : ℕ) → lib.stopped i ≡ false)
        → All (Readable lib) events
        → ManifestReads S lib archive receipt.manifest
        → 1 ≤ limit
        → limit ≤ 10_000
        → write S lib archive sources events s ≡ (s1, done receipt)
        → restore S lib (some archive) active (some target) receipt (pos offset) (pos limit) s1
          ≡ (s2, result, none)
        → Took target receipt offset (chunk offset limit events) s2 result
    unfolding restore
    restore-write events offset limit s s1 s2 receipt target result hash unique running readable
          reads low high written restored =
        let (e1, e2) =
          read_events-write S lib archive lawful sources events offset limit s s1 receipt hash
            unique running readable reads low high written in
        merge-Took target receipt offset (chunk offset limit events)
          (restore_entries S lib (some archive) active archive
            (need_events (chunk offset limit events).0 []) receipt.manifest.payloads s1)
          s2 result
          (subst
            (λ (x : S.State × Outcome (Text × List EventRecord × Bool)).
              merge S lib (some archive) active target receipt (pos offset) x ≡ (s2, result, none))
            (prepare_lem receipt (pos offset) (pos limit) (chunk offset limit events) s1 e1 e2)
            restored)
