-- ===== src/Retention/Whole.antt =====
-- retention/retention.go: the whole of `Run`, the events and then the payloads.
use trail.Prelude.{
  ℕ, suc, ◌≡◌, refl, ◌≢◌, ◌≤◌, ◌<◌, ◌^◌, sym, Bool, true, false, List, [], if◌then◌else◌, ◌==◌,
  arith,
}
use mathlib.Core.Path.{subst}
use trail.Prelude.Int.{pos_part}
use trail.Payload.{Time}
use trail.Retention.{Config, World, Action}
use trail.Retention.Engine.{State, plus64}
use trail.Retention.Run.{Exit, done, failed, out_of_fuel, run_events}
use trail.Retention.Candidate.{PayloadState, PayloadWorld}
use trail.Retention.Collect.{Round, finished, broken, more, no_fuel, collect_payloads}
use trail.Retention.Fuel.{Respects, scanned, run_events_ends}
use trail.Retention.Rounds.{IsOver, collect_payloads-IsOver}
use trail.Retention.Dry.{Harmless, run_events-Harmless}

-- What `Run` leaves: the two parts of its result with the calls of each, and whether it gives an
-- error. The number of errors is that of `payloads`.
pub record Report : Type 0 where
  pub events : State
  pub payloads : PayloadState
  pub exit : Exit

-- The payload part of the result before the collection.
abbrev pub no_payloads : State → PayloadState
no_payloads s = record {
  result = record {
    payloads_referenced = 0;
    payloads_orphaned = 0;
    payloads_unknown = 0;
    payloads_deleted = 0;
    payload_bytes_reclaimed = 0;
    errors = s.result.errors;
  };
  trace = [];
}

-- An error of the collection is counted, unless it has counted errors itself.
unfoldable pub count_if_same : ℕ → PayloadState → PayloadState
count_if_same previous p =
    if p.result.errors == previous
    then record p { result = record (p.result) { errors = plus64 p.result.errors 1 } }
    else p

-- The world of the payloads answers after the calls of the events.
module _ (world : World) (payloads : List Action → PayloadWorld) (cfg : Config) where
  -- `ctx.Err()` at the end
  abbrev last_error : State → PayloadState → Exit
  last_error s p = if (payloads s.trace).stopped p.trace then failed else done

  unfoldable pub after_collection : State → Round → Report
  after_collection s (finished p) = record { events = s; payloads = p; exit = last_error s p }
  after_collection s (broken p) = record {
    events = s;
    payloads = count_if_same s.result.errors p;
    exit = failed;
  }
  after_collection s (no_fuel p) = record { events = s; payloads = p; exit = out_of_fuel }
  after_collection s (more _ p) = record { events = s; payloads = p; exit = out_of_fuel }

  unfoldable pub after_events : ℕ → Bool → State × Exit → Report
  after_events rounds dry (s, failed) = record {
    events = s;
    payloads = no_payloads s;
    exit = failed;
  }
  after_events rounds dry (s, out_of_fuel) = record {
    events = s;
    payloads = no_payloads s;
    exit = out_of_fuel;
  }
  after_events rounds true (s, done) = record {
    events = s;
    payloads = no_payloads s;
    exit = last_error s (no_payloads s);
  }
  after_events rounds false (s, done) = after_collection s (
      collect_payloads (payloads s.trace) (pos_part cfg.payload_batch_size) rounds
        (pos_part cfg.max_payloads) (no_payloads s))

  -- `Run`, with fuel for its two loops
  unfoldable pub run : ℕ → ℕ → Time → Bool → State → Report
  run fuel rounds now dry s = after_events rounds dry (run_events world cfg now dry fuel s)

  after_events-events :
      (rounds : ℕ) (dry : Bool) (x : State × Exit) → (after_events rounds dry x).events ≡ x.0
  unfolding after_events after_collection
  after_events-events rounds dry (s, failed) = refl
  after_events-events rounds dry (s, out_of_fuel) = refl
  after_events-events rounds true (s, done) = refl
  after_events-events rounds false (s, done) =
      elim (collect_payloads (payloads s.trace) (pos_part cfg.payload_batch_size) rounds
          (pos_part cfg.max_payloads) (no_payloads s))
        as (λ r. (after_collection s r).events ≡ s) [
          | finished p ↦ refl
          | broken p ↦ refl
          | no_fuel p ↦ refl
          | more n p ↦ refl
        ]

  if_stopped : (b : Bool) → (if b then failed else done) ≢ out_of_fuel
  if_stopped true h = cc
  if_stopped false h = cc

  after_collection_ends :
      (s : State) (r : Round) → IsOver r → (after_collection s r).exit ≢ out_of_fuel
  unfolding after_collection
  after_collection_ends s (finished p) h = if_stopped _
  after_collection_ends s (broken p) h = λ e. cc
  after_collection_ends s (no_fuel p) h = absurd h
  after_collection_ends s (more n p) h = absurd h

  after_events_ends :
      (rounds : ℕ) (dry : Bool) (x : State × Exit)
      → 0 < pos_part cfg.payload_batch_size
      → pos_part cfg.max_payloads < rounds
      → x.1 ≢ out_of_fuel
      → (after_events rounds dry x).exit ≢ out_of_fuel
  unfolding after_events
  after_events_ends rounds dry (s, failed) batch enough h = h
  after_events_ends rounds dry (s, out_of_fuel) batch enough h = h
  after_events_ends rounds true (s, done) batch enough h = if_stopped _
  after_events_ends rounds false (s, done) batch enough h = after_collection_ends s _ (
      collect_payloads-IsOver (payloads s.trace) (pos_part cfg.payload_batch_size) rounds
        (pos_part cfg.max_payloads) (no_payloads s) batch enough)

  -- Where a page has no more events than asked for, the limit of events fits uint64, and the batch
  -- size of payloads is positive, Run, begun with no event scanned and given one turn more than
  -- the limit of events and one round more than that of payloads, ends by itself, with at most
  -- MaxEvents events scanned.
  pub run_ends :
      (now : Time) (dry : Bool) (s : State)
      → Respects world
      → pos_part cfg.max_events < 2 ^ 64
      → 0 < pos_part cfg.payload_batch_size
      → scanned s ≡ 0
      → let report =
          run (suc (pos_part cfg.max_events)) (suc (pos_part cfg.max_payloads)) now dry s in
        (report.exit ≢ out_of_fuel) × (scanned report.events ≤ pos_part cfg.max_events)
  unfolding run
  run_ends now dry s respects small batch none_scanned =
      let (ends, few) = run_events_ends world cfg now dry s respects small none_scanned in
      let rounds = suc (pos_part cfg.max_payloads) in
      (
        after_events_ends rounds dry _ batch (omega arith) ends,
        subst (λ t. scanned t ≤ pos_part cfg.max_events) (sym (after_events-events rounds dry _))
            few,
      )

  dry_payloads : (rounds : ℕ) (x : State × Exit) → (after_events rounds true x).payloads.trace ≡ []
  unfolding after_events
  dry_payloads rounds (s, failed) = refl
  dry_payloads rounds (s, out_of_fuel) = refl
  dry_payloads rounds (s, done) = refl

  -- A dry run, from a trace that is so, makes no call for events but scans and deletions that are
  -- asked to be dry, and no call for payloads: it reconciles, archives, records and deletes
  -- nothing.
  pub run-Harmless :
      (fuel rounds : ℕ) (now : Time) (s : State)
      → Harmless s
      → Harmless (run fuel rounds now true s).events
        × ((run fuel rounds now true s).payloads.trace ≡ [])
  unfolding run
  run-Harmless fuel rounds now s h = (
    subst Harmless (sym (after_events-events rounds true _))
        (run_events-Harmless world cfg now fuel s h),
    dry_payloads rounds _,
  )
