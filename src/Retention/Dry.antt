-- ===== src/Retention/Dry.antt =====
-- A dry run of `Run` asks the store for pages and counts; it changes nothing.
use trail.Prelude.{
  ℕ, ◌≡◌, refl, Bool, true, false, Option, none, some, List, [], ◌∷◌, Text, Bool-cases, inl, inr,
  arith, All,
}
use trail.Payload.{Time}
use trail.Retention.{
  Config, Event, EventPage, ScanRequest, DeleteRequest, DeleteResult, Action, scan_call,
  delete_call, World,
}
use trail.Retention.Engine.{State, deleted, delete_events, remove_eligible}
use trail.Retention.Run.{
  Keeps, after_removal, take_picked, take_events, take_page, goes_on, turn, loop_by, run_events,
}

-- A scan, or a deletion that is asked to be dry.
abbrev pub IsHarmless : Action → Type 0
IsHarmless (scan_call _ _) = Unit
IsHarmless (delete_call request _ _) = request.dry_run ≡ true
IsHarmless _ = ⊥

abbrev pub Harmless : State → Type 0
Harmless s = All IsHarmless s.trace

module _ (world : World) (cfg : Config) (now : Time) where
  deleted-Harmless :
      (request : DeleteRequest) (dr : DeleteResult) (answer : Bool) (s : State)
      → request.dry_run ≡ true
      → Harmless s
      → Harmless (deleted world request (dr, answer) s).0
  unfolding deleted
  deleted-Harmless request dr true s dry h = ground arith
  deleted-Harmless request dr false s dry h = ground arith

  remove_eligible-Harmless :
      (keys : List Text) (events : List Event) (times : List (Text × Time)) (s : State)
      → Harmless s
      → Harmless (remove_eligible world true keys events times s).0
  unfolding remove_eligible delete_events
  remove_eligible-Harmless keys [] times s h = h
  remove_eligible-Harmless keys (v ∷ events) times s h = deleted-Harmless _ _ _ _ refl h

  after_removal-Keeps :
      (page : EventPage) (keys : List Text) (s : State) (on : Bool)
      → Harmless s
      → Keeps Harmless (after_removal world cfg now true page keys (s, on))
  unfolding after_removal
  after_removal-Keeps page keys s false h = h
  after_removal-Keeps page keys s true h = elim (Bool-cases page.has_more) [
    | inl more ↦ rw more h
    | inr last ↦ rw last h
  ]

  take_events-Keeps :
      (page : EventPage) (events : List Event) (keys : List Text) (s : State)
      → Harmless s
      → Keeps Harmless (take_events world cfg now true page events keys s)
  unfolding take_events take_picked
  take_events-Keeps page [] keys s h = h
  take_events-Keeps page (v ∷ events) keys s h =
      after_removal-Keeps page _ _ _ (remove_eligible-Harmless keys _ _ _ h)

  take_page-Keeps :
      (req : ScanRequest) (answer : Option EventPage) (keys : List Text) (s : State)
      → Harmless s
      → Keeps Harmless (take_page world cfg now true req answer keys s)
  unfolding take_page
  take_page-Keeps req none keys s h = (tt, h)
  take_page-Keeps req (some page) keys s h = take_events-Keeps page page.events keys _ (tt, h)

  turn-Keeps :
      (cursor : Text) (keys : List Text) (s : State)
      → Harmless s
      → Keeps Harmless (turn world cfg now true cursor keys s)
  unfolding turn
  turn-Keeps cursor keys s h = elim (Bool-cases (goes_on world cfg now true s)) [
    | inl on ↦ rw on (take_page-Keeps _ _ keys s h)
    | inr stop ↦ rw stop h
  ]

  -- A dry run, from a trace that is so, makes no call but scans and deletions that are asked to be
  -- dry: it reconciles, archives and records nothing.
  pub run_events-Harmless :
      (fuel : ℕ) (s : State) → Harmless s → Harmless (run_events world cfg now true fuel s).0
  unfolding run_events
  run_events-Harmless fuel s h = loop_by world cfg now true Harmless turn-Keeps fuel [] [] s h
