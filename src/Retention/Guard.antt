-- ===== src/Retention/Guard.antt =====
-- What stands before a deletion in the calls of `Run`.
use trail.Prelude.{
  ℕ, ◌≡◌, refl, ◌⊎◌, inl, inr, Bool, true, false, Option, none, some, List, [], ◌∷◌, Text, All,
  All-append, Bool-cases, arith, ap,
}
use trail.Payload.{Time}
use trail.Storage.{EventRecord}
use trail.Archive.{Receipt}
use trail.Retention.{
  Config, Event, EventPage, ScanRequest, DeleteRequest, DeleteResult, Action, load_call,
  archive_call, record_call, delete_call, World,
}
use trail.Retention.Policy.{event_expiry}
use trail.Retention.Archived.{same_archive_events}
use trail.Retention.Engine.{
  State, Picked, pick, pick_one, is_expired, recorded, archived, loaded, deleted, count_archive,
  archive_eligible, delete_events, delete_archived, remove_eligible,
}
use trail.Retention.Run.{
  Keeps, after_removal, take_picked, take_events, take_page, goes_on, turn, loop_by, reconciled,
  run_events,
}

-- The three calls before were: the events were loaded, all of them, their records were archived, and
-- the receipt, of the given identifier, was recorded.
abbrev pub ArchivedAs : Text → List Event → List Action → Type 0
ArchivedAs id events
      (record_call receipt true
        ∷ archive_call records (some receipt')
        ∷ load_call events' (some records')
        ∷ earlier) =
    (id ≡ receipt.manifest.id)
    × ((receipt' ≡ receipt)
        × ((records' ≡ records)
            × ((events' ≡ events) × (same_archive_events records events ≡ true))))
ArchivedAs id events _ = ⊥

module _ (cfg : Config) (now : Time) where
  -- The retention time of the event is over.
  abbrev pub Expired : Event → Type 0
  Expired v = is_expired now (event_expiry cfg v) ≡ true

  abbrev pub Allowed : Action → List Action → Type 0
  Allowed (delete_call request _ _) earlier =
      ((request.dry_run ≡ true) ⊎ ArchivedAs request.archive_id request.events earlier)
      × All Expired request.events
  Allowed _ earlier = Unit

  -- Every deletion is allowed by the calls before it.
  abbrev pub Guarded : List Action → Type 0
  Guarded [] = Unit
  Guarded (a ∷ earlier) = Allowed a earlier × Guarded earlier

  pick_one-Expired :
      (v : Event) (p : Picked)
      → All Expired p.eligible
      → All Expired (pick_one cfg now v p).eligible
  unfolding pick_one
  pick_one-Expired v p h = elim (Bool-cases (is_expired now (event_expiry cfg v))) [
    | inl gone ↦ rw gone (All-append Expired p.eligible (v ∷ []) h (gone, tt))
    | inr stays ↦ rw stays h
  ]

  pick-Expired :
      (events : List Event) (p : Picked)
      → All Expired p.eligible
      → All Expired (pick cfg now events p).eligible
  unfolding pick
  pick-Expired [] p h = h
  pick-Expired (v ∷ events) p h =
      pick-Expired events (pick_one cfg now v p) (pick_one-Expired v p h)

  module _ (world : World) where
    -- A result of archiving: no deletion is added, and an identifier is that of the archive.
    abbrev Archives : List Event → State × Option Text → Type 0
    Archives events (s, none) = Guarded s.trace
    Archives events (s, some id) = Guarded s.trace × ArchivedAs id events s.trace

    recorded-Archives :
        (events : List Event) (records : List EventRecord) (receipt : Receipt) (answer : Bool)
        (s : State) (earlier : List Action)
        → s.trace ≡ archive_call records (some receipt) ∷ load_call events (some records) ∷ earlier
        → same_archive_events records events ≡ true
        → Guarded s.trace
        → Archives events (recorded receipt answer s)
    unfolding recorded count_archive
    recorded-Archives events records receipt true s earlier before same h =
        ((tt, h), rw before (refl, (refl, (refl, (refl, same)))))
    recorded-Archives events records receipt false s earlier before same h = (tt, h)

    archived-Archives :
        (events : List Event) (records : List EventRecord) (answer : Option Receipt) (s : State)
        (earlier : List Action)
        → s.trace ≡ load_call events (some records) ∷ earlier
        → same_archive_events records events ≡ true
        → Guarded s.trace
        → Archives events (archived world records answer s)
    unfolding archived
    archived-Archives events records none s earlier before same h = (tt, h)
    archived-Archives events records (some receipt) s earlier before same h =
        recorded-Archives events records receipt _ _ earlier
          (ap (λ t. archive_call records (some receipt) ∷ t) before) same (tt, h)

    loaded-Archives :
        (events : List Event) (answer : Option (List EventRecord)) (s : State)
        → Guarded s.trace
        → Archives events (loaded world events answer s)
    unfolding loaded
    loaded-Archives events none s h = (tt, h)
    loaded-Archives events (some records) s h =
        elim (Bool-cases (same_archive_events records events)) [
          | inl same ↦ rw same (archived-Archives events records _ _ s.trace refl same (tt, h))
          | inr other ↦ rw other (tt, h)
        ]

    deleted-Guarded :
        (request : DeleteRequest) (dr : DeleteResult) (answer : Bool) (s : State)
        → Allowed (delete_call request dr answer) s.trace
        → Guarded s.trace
        → Guarded (deleted world request (dr, answer) s).0.trace
    unfolding deleted
    deleted-Guarded request dr true s allowed h = ground arith
    deleted-Guarded request dr false s allowed h = ground arith

    delete_archived-Guarded :
        (events : List Event) (times : List (Text × Time)) (r : State × Option Text)
        → All Expired events
        → Archives events r
        → Guarded (delete_archived world events times r).0.trace
    unfolding delete_archived delete_events
    delete_archived-Guarded events times (s, none) expired h = h
    delete_archived-Guarded events times (s, some id) expired h =
        deleted-Guarded _ _ _ s (inr h.1, expired) h.0

    remove_eligible-Guarded :
        (dry : Bool) (keys : List Text) (events : List Event) (times : List (Text × Time))
        (s : State)
        → All Expired events
        → Guarded s.trace
        → Guarded (remove_eligible world dry keys events times s).0.trace
    unfolding remove_eligible delete_events archive_eligible
    remove_eligible-Guarded dry keys [] times s expired h = h
    remove_eligible-Guarded true keys (v ∷ events) times s expired h =
        deleted-Guarded _ _ _ _ (inl refl, expired) h
    remove_eligible-Guarded false keys (v ∷ events) times s expired h =
        delete_archived-Guarded (v ∷ events) times _ expired
          (loaded-Archives (v ∷ events) (world.loads s.trace (v ∷ events)) s h)

    module _ (dry : Bool) where
      after_removal-Keeps :
          (page : EventPage) (keys : List Text) (s : State) (on : Bool)
          → Guarded s.trace
          → Keeps (λ s. Guarded s.trace) (after_removal world cfg now dry page keys (s, on))
      unfolding after_removal
      after_removal-Keeps page keys s false h = h
      after_removal-Keeps page keys s true h = elim (Bool-cases page.has_more) [
        | inl more ↦ rw more h
        | inr last ↦ rw last h
      ]

      take_events-Keeps :
          (page : EventPage) (events : List Event) (keys : List Text) (s : State)
          → Guarded s.trace
          → Keeps (λ s. Guarded s.trace) (take_events world cfg now dry page events keys s)
      unfolding take_events take_picked
      take_events-Keeps page [] keys s h = h
      take_events-Keeps page (v ∷ events) keys s h =
          after_removal-Keeps page _ _ _
            (remove_eligible-Guarded dry keys _ _ _ (pick-Expired (v ∷ events) _ tt) h)

      take_page-Keeps :
          (req : ScanRequest) (answer : Option EventPage) (keys : List Text) (s : State)
          → Guarded s.trace
          → Keeps (λ s. Guarded s.trace) (take_page world cfg now dry req answer keys s)
      unfolding take_page
      take_page-Keeps req none keys s h = (tt, h)
      take_page-Keeps req (some page) keys s h = take_events-Keeps page page.events keys _ (tt, h)

      turn-Keeps :
          (cursor : Text) (keys : List Text) (s : State)
          → Guarded s.trace
          → Keeps (λ s. Guarded s.trace) (turn world cfg now dry cursor keys s)
      unfolding turn
      turn-Keeps cursor keys s h = elim (Bool-cases (goes_on world cfg now dry s)) [
        | inl on ↦ rw on (take_page-Keeps _ _ keys s h)
        | inr stop ↦ rw stop h
      ]

      reconciled-Guarded :
          (fuel : ℕ) (answer : Bool) (s : State)
          → Guarded s.trace
          → Guarded (reconciled world cfg now dry fuel answer s).0.trace
      unfolding reconciled
      reconciled-Guarded fuel true s h =
          loop_by world cfg now dry (λ s. Guarded s.trace) turn-Keeps fuel [] [] _ (tt, h)
      reconciled-Guarded fuel false s h = (tt, h)

  -- However the store and the archiver answer, from a trace that is so, whether dry or not, every
  -- deletion that Run asks for is of events whose retention time is over at the time of the run,
  -- and is dry or comes right after three calls: all its events were loaded, the records passed
  -- sameArchiveEvents, they were archived, and the receipt with the identifier of the deletion was
  -- recorded.
  pub run_events-Guarded :
      (world : World) (dry : Bool) (fuel : ℕ) (s : State)
      → Guarded s.trace
      → Guarded (run_events world cfg now dry fuel s).0.trace
  unfolding run_events
  run_events-Guarded world true fuel s h =
      loop_by world cfg now true (λ s. Guarded s.trace) (turn-Keeps world true) fuel [] [] s h
  run_events-Guarded world false fuel s h = reconciled-Guarded world false fuel _ s h
