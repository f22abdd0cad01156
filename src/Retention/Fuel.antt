-- ===== src/Retention/Fuel.antt =====
-- The loop of `Run` stays within its number of events, and ends.
use trail.Prelude.{
  ℕ, zero, suc, ◌+◌, ◌%◌, ◌^◌, ◌≤◌, ◌<◌, ◌≡◌, ◌≢◌, refl, ◌∙◌, Bool, true, false, Option, none, some,
  List, [], ◌∷◌, Text, length, Bool-cases, inl, inr, arith,
}
use mathlib.Core.Path.{subst}
use trail.Prelude.Int.{pos_part}
use trail.Payload.{Time}
use trail.Storage.{EventRecord}
use trail.Archive.{Receipt}
use trail.Retention.{
  Config, Event, EventPage, ScanRequest, DeleteRequest, DeleteResult, Action, World,
}
use trail.Retention.Archived.{same_archive_events}
use trail.Retention.Engine.{
  State, Picked, pick, pick_one, recorded, archived, loaded, deleted, count_archive,
  archive_eligible, delete_events, delete_archived, remove_eligible,
}
use trail.Retention.Run.{
  out_of_fuel, Turn, ended, next, after_removal, take_picked, take_events, take_page, goes_on, turn,
  loop, limit, request, reconciled, run_events, Turn-cases, ended_of, next_of,
}

-- `ScanRetentionEvents` gives at most as many events as it is asked for.
abbrev pub Respects : World → Type 0
Respects world =
    (trace : List Action) (req : ScanRequest) (page : EventPage)
    → world.scans trace req ≡ some page
    → length page.events ≤ req.limit

abbrev pub scanned : State → ℕ
scanned s = s.result.events_scanned

module _ (cfg : Config) (now : Time) where
  pick_one-scanned :
      (v : Event) (p : Picked)
      → (pick_one cfg now v p).result.events_scanned ≡ (p.result.events_scanned + 1) % 2 ^ 64
  unfolding pick_one
  pick_one-scanned v p = ground arith

  pick-scanned :
      (events : List Event) (p : Picked)
      → p.result.events_scanned + length events < 2 ^ 64
      → (pick cfg now events p).result.events_scanned ≡ p.result.events_scanned + length events
  unfolding pick
  pick-scanned [] p h = omega arith
  pick-scanned (v ∷ events) p h = omega (
    arith,
    pick-scanned events (pick_one cfg now v p) (omega (arith, pick_one-scanned v p)),
    pick_one-scanned v p,
  )

module _ (world : World) where
  recorded-scanned :
      (receipt : Receipt) (answer : Bool) (s : State)
      → scanned (recorded receipt answer s).0 ≡ scanned s
  unfolding recorded count_archive
  recorded-scanned receipt true s = refl
  recorded-scanned receipt false s = refl

  archived-scanned :
      (records : List EventRecord) (answer : Option Receipt) (s : State)
      → scanned (archived world records answer s).0 ≡ scanned s
  unfolding archived
  archived-scanned records none s = refl
  archived-scanned records (some receipt) s = recorded-scanned receipt _ _

  loaded-scanned :
      (events : List Event) (answer : Option (List EventRecord)) (s : State)
      → scanned (loaded world events answer s).0 ≡ scanned s
  unfolding loaded
  loaded-scanned events none s = refl
  loaded-scanned events (some records) s = elim (Bool-cases (same_archive_events records events)) [
    | inl same ↦ rw same (archived-scanned records _ _)
    | inr other ↦ rw other refl
  ]

  deleted-scanned :
      (req : DeleteRequest) (dr : DeleteResult) (answer : Bool) (s : State)
      → scanned (deleted world req (dr, answer) s).0 ≡ scanned s
  unfolding deleted
  deleted-scanned req dr true s = ground arith
  deleted-scanned req dr false s = ground arith

  delete_archived-scanned :
      (events : List Event) (times : List (Text × Time)) (r : State × Option Text)
      → scanned (delete_archived world events times r).0 ≡ scanned r.0
  unfolding delete_archived delete_events
  delete_archived-scanned events times (s, none) = refl
  delete_archived-scanned events times (s, some id) = deleted-scanned _ _ _ s

  remove_eligible-scanned :
      (dry : Bool) (keys : List Text) (events : List Event) (times : List (Text × Time)) (s : State)
      → scanned (remove_eligible world dry keys events times s).0 ≡ scanned s
  unfolding remove_eligible delete_events archive_eligible
  remove_eligible-scanned dry keys [] times s = refl
  remove_eligible-scanned true keys (v ∷ events) times s = deleted-scanned _ _ _ _
  remove_eligible-scanned false keys (v ∷ events) times s =
      delete_archived-scanned (v ∷ events) times _ ∙ loaded-scanned (v ∷ events) _ s

module _ (world : World) (cfg : Config) (now : Time) (dry : Bool) where
  abbrev most : ℕ
  most = limit world cfg now dry

  -- A turn from a number of scanned events: it ends within the limit, or scans at least one event.
  abbrev Advances : ℕ → Turn → Type 0
  Advances n (ended exit s) = (exit ≢ out_of_fuel) × (scanned s ≤ most)
  Advances n (next cursor keys s) = (n < scanned s) × (scanned s ≤ most)

  after_removal-Advances :
      (n : ℕ) (page : EventPage) (keys : List Text) (s : State) (on : Bool)
      → n < scanned s
      → scanned s ≤ most
      → Advances n (after_removal world cfg now dry page keys (s, on))
  unfolding after_removal
  after_removal-Advances n page keys s false lt le = (λ e. ground arith, le)
  after_removal-Advances n page keys s true lt le = elim (Bool-cases page.has_more) [
    | inl more ↦ rw more (lt, le)
    | inr last ↦ rw last (λ e. ground arith, le)
  ]

  take_events-Advances :
      (page : EventPage) (events : List Event) (keys : List Text) (s : State)
      → most < 2 ^ 64
      → scanned s + length events ≤ most
      → Advances (scanned s) (take_events world cfg now dry page events keys s)
  unfolding take_events take_picked
  take_events-Advances page [] keys s small le = (λ e. ground arith, omega arith)
  take_events-Advances page (v ∷ events) keys s small le =
      let start : Picked = record { result = s.result; eligible = []; times = [] } in
      let p : Picked = pick cfg now (v ∷ events) start in
      let grown = pick-scanned cfg now (v ∷ events) start (omega arith) in
      let removed =
        remove_eligible-scanned world dry keys p.eligible p.times
          (record s { result = p.result }) in
      after_removal-Advances (scanned s) page _ _ _ (omega (arith, removed, grown))
        (omega (arith, removed, grown))

  take_page-Advances :
      (req : ScanRequest) (answer : Option EventPage) (keys : List Text) (s : State)
      → most < 2 ^ 64
      → scanned s ≤ most
      → ((page : EventPage) → answer ≡ some page → scanned s + length page.events ≤ most)
      → Advances (scanned s) (take_page world cfg now dry req answer keys s)
  unfolding take_page
  take_page-Advances req none keys s small le fits = (λ e. ground arith, le)
  take_page-Advances req (some page) keys s small le fits =
      take_events-Advances page page.events keys _ small (fits page refl)

  turn-Advances :
      (cursor : Text) (keys : List Text) (s : State)
      → Respects world
      → most < 2 ^ 64
      → scanned s ≤ most
      → Advances (scanned s) (turn world cfg now dry cursor keys s)
  unfolding turn
  turn-Advances cursor keys s respects small le = elim (Bool-cases (goes_on world cfg now dry s)) [
    | inl on ↦ rw on (
        take_page-Advances _ _ keys s small le
          (λ page e. omega (arith, respects s.trace (request world cfg now dry cursor s) page e)))
    | inr stop ↦ rw stop (λ e. ground arith, le)
  ]

  loop_ends :
      (fuel : ℕ) (cursor : Text) (keys : List Text) (s : State)
      → Respects world
      → most < 2 ^ 64
      → scanned s ≤ most
      → most < scanned s + fuel
      → ((loop world cfg now dry fuel cursor keys s).1 ≢ out_of_fuel)
        × (scanned (loop world cfg now dry fuel cursor keys s).0 ≤ most)
  loop_ends zero cursor keys s respects small le enough = absurd (omega arith)
  loop_ends (suc fuel) cursor keys s respects small le enough =
      elim (Turn-cases world cfg now dry (turn world cfg now dry cursor keys s)) [
        | inl (exit, s', e) ↦
            rw (ended_of world cfg now dry fuel cursor keys s s' exit e)
              (subst (Advances (scanned s)) e (turn-Advances cursor keys s respects small le))
        | inr (cursor', keys', s', e) ↦
            let step =
              subst (Advances (scanned s)) e (turn-Advances cursor keys s respects small le) in
            rw (next_of world cfg now dry fuel cursor cursor' keys keys' s s' e)
              (loop_ends fuel cursor' keys' s' respects small step.1 (omega (arith, step.0)))
      ]

  reconciled_ends :
      (answer : Bool) (s : State)
      → Respects world
      → most < 2 ^ 64
      → scanned s ≡ 0
      → ((reconciled world cfg now dry (suc most) answer s).1 ≢ out_of_fuel)
        × (scanned (reconciled world cfg now dry (suc most) answer s).0 ≤ most)
  unfolding reconciled
  reconciled_ends true s respects small zero_scanned =
      loop_ends (suc most) [] [] _ respects small (omega arith) (omega arith)
  reconciled_ends false s respects small zero_scanned = (λ e. ground arith, omega arith)

  run_dry :
      (fuel : ℕ) (s : State)
      → dry ≡ true
      → run_events world cfg now dry fuel s ≡ loop world cfg now dry fuel [] [] s
  unfolding run_events
  run_dry fuel s h = ground (arith, h)

  run_live :
      (fuel : ℕ) (s : State)
      → dry ≡ false
      → run_events world cfg now dry fuel s
        ≡ reconciled world cfg now dry fuel (world.reconciles s.trace) s
  unfolding run_events
  run_live fuel s h = ground (arith, h)

  -- Where a page has no more events than asked for, and the limit of events fits uint64, the loop
  -- of Run over the pages, begun with no event scanned and given one turn more than the limit,
  -- ends by itself with at most that many events scanned.
  pub run_events_ends :
      (s : State)
      → Respects world
      → pos_part cfg.max_events < 2 ^ 64
      → scanned s ≡ 0
      → ((run_events world cfg now dry (suc (pos_part cfg.max_events)) s).1 ≢ out_of_fuel)
        × (scanned (run_events world cfg now dry (suc (pos_part cfg.max_events)) s).0
            ≤ pos_part cfg.max_events)
  run_events_ends s respects small zero_scanned = elim (Bool-cases dry) [
    | inl is_dry ↦
        rw (run_dry (suc most) s is_dry)
          (loop_ends (suc most) [] [] s respects small (omega arith) (omega arith))
    | inr live ↦ rw (run_live (suc most) s live) (reconciled_ends _ s respects small zero_scanned)
  ]
