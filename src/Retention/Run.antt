-- ===== src/Retention/Run.antt =====
-- retention/retention.go: the loop of `Run` over the pages of events.
use trail.Prelude.{
  ℕ, zero, suc, ◌-◌, Bool, true, false, not, ◌&&◌, Option, none, some, List, [], ◌∷◌, Text, ltb,
  min, if◌then◌else◌, arith, ◌≡◌, refl, ◌⊎◌, inl, inr,
}
use mathlib.Core.Path.{subst}
use trail.Prelude.Int.{pos_part}
use trail.Payload.{Time}
use trail.Retention.{Config, Event, ScanRequest, EventPage, scan_call, reconcile_call, World}
use trail.Retention.Engine.{State, Picked, pick, did, with_error, remove_eligible, add_keys}

-- How `Run` ends before the payloads; `out_of_fuel` is the model's own.
pub data Exit : Type 0 where
  done failed out_of_fuel : Exit

-- One turn of the loop: it ends, or goes on from a cursor with the keys of a dry run.
pub data Turn : Type 0 where
  ended : Exit → State → Turn
  next : Text → List Text → State → Turn

-- A property of the state that a turn leaves.
abbrev pub Keeps {κ} : (State → Type κ) → Turn → Type κ
Keeps P (ended exit s) = P s
Keeps P (next cursor keys s) = P s

module _ (world : World) (cfg : Config) (now : Time) (dry : Bool) where
  abbrev pub limit : ℕ
  limit = pos_part cfg.max_events

  abbrev pub request : Text → State → ScanRequest
  request cursor s = record {
    cursor = cursor;
    limit = min (pos_part cfg.event_batch_size) (limit - s.result.events_scanned);
  }

  unfoldable pub after_removal : EventPage → List Text → State × Bool → Turn
  after_removal page keys (s, false) = ended failed s
  after_removal page keys (s, true) =
      if page.has_more then next page.next_cursor keys s else ended done s

  abbrev pub picked : List Event → State → Picked
  picked events s = pick cfg now events (record { result = s.result; eligible = []; times = [] })

  unfoldable pub take_picked : EventPage → List Text → Picked → State → Turn
  take_picked page keys p s =
      after_removal page (if dry then add_keys world p.times keys else keys)
        (remove_eligible world dry keys p.eligible p.times (record s { result = p.result }))

  unfoldable pub take_events : EventPage → List Event → List Text → State → Turn
  take_events page [] keys s = ended done s
  take_events page (v ∷ events) keys s = take_picked page keys (picked (v ∷ events) s) s

  unfoldable pub take_page : ScanRequest → Option EventPage → List Text → State → Turn
  take_page req none keys s = ended failed (with_error (did (scan_call req none) s))
  take_page req (some page) keys s =
      take_events page page.events keys (did (scan_call req (some page)) s)

  -- The condition of the loop.
  abbrev pub goes_on : State → Bool
  goes_on s = ltb s.result.events_scanned limit && not (world.stopped s.trace)

  unfoldable pub turn : Text → List Text → State → Turn
  turn cursor keys s =
      if goes_on s
      then take_page (request cursor s) (world.scans s.trace (request cursor s)) keys s
      else ended done s

  unfoldable pub loop : ℕ → Text → List Text → State → State × Exit
  loop zero cursor keys s = (s, out_of_fuel)
  loop (suc fuel) cursor keys s = elim (turn cursor keys s) [
    | ended exit s' ↦ (s', exit)
    | next cursor' keys' s' ↦ loop fuel cursor' keys' s'
  ]

  unfoldable pub reconciled : ℕ → Bool → State → State × Exit
  reconciled fuel true s = loop fuel [] [] (did (reconcile_call true) s)
  reconciled fuel false s = (with_error (did (reconcile_call false) s), failed)

  -- `Run` up to the collection of payloads.
  unfoldable pub run_events : ℕ → State → State × Exit
  run_events fuel s =
      if dry then loop fuel [] [] s else reconciled fuel (world.reconciles s.trace) s

  pub ended_of :
      (fuel : ℕ) (cursor : Text) (keys : List Text) (s s' : State) (exit : Exit)
      → turn cursor keys s ≡ ended exit s'
      → loop (suc fuel) cursor keys s ≡ (s', exit)
  unfolding loop
  ended_of fuel cursor keys s s' exit h = ground (arith, h)

  pub next_of :
      (fuel : ℕ) (cursor cursor' : Text) (keys keys' : List Text) (s s' : State)
      → turn cursor keys s ≡ next cursor' keys' s'
      → loop (suc fuel) cursor keys s ≡ loop fuel cursor' keys' s'
  unfolding loop
  next_of fuel cursor cursor' keys keys' s s' h = ground (arith, h)

  pub Turn-cases :
      (t : Turn)
      → ((exit : Exit) × (s : State) × (t ≡ ended exit s))
        ⊎ ((cursor : Text) × (keys : List Text) × (s : State) × (t ≡ next cursor keys s))
  Turn-cases (ended exit s) = inl (exit, s, refl)
  Turn-cases (next cursor keys s) = inr (cursor, keys, s, refl)

  -- What a turn keeps holds of the state after the loop.
  pub loop_by {κ} :
      (P : State → Type κ)
      → ((cursor : Text) (keys : List Text) (s : State) → P s → Keeps P (turn cursor keys s))
      → (fuel : ℕ) (cursor : Text) (keys : List Text) (s : State) → P s
      → P (loop fuel cursor keys s).0
  unfolding loop
  loop_by P keeps zero cursor keys s h = h
  loop_by P keeps (suc fuel) cursor keys s h = elim (Turn-cases (turn cursor keys s)) [
    | inl (exit, s', e) ↦
        rw (ended_of fuel cursor keys s s' exit e) (subst (Keeps P) e (keeps cursor keys s h))
    | inr (cursor', keys', s', e) ↦
        rw (next_of fuel cursor cursor' keys keys' s s' e)
          (loop_by P keeps fuel cursor' keys' s' (subst (Keeps P) e (keeps cursor keys s h)))
  ]
