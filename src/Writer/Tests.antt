-- ===== src/Writer/Tests.antt =====
-- Schedules of the writer, and the theorems at them.
use trail.Prelude.{ℕ, ◌<◌, ◌≡◌, ◌⊎◌, refl, true, none, List, [], ◌∷◌, ◌++◌, replicate, codes, arith}
use trail.Prelude.Int.{pos}
use trail.Id.{zero_id}
use trail.Event.{Event}
use trail.Event.Build.{new_event}
use trail.Writer.{Params, drop, parked, closed}
use trail.Writer.Produce.{proceed, alternative, produce, log}
use trail.Writer.Run.{run_phase, receive, stop, go, answer}
use trail.Writer.Step.{Action, call, producer, runner, closer, init, close, produce_at, step, run}
use trail.Writer.Sums.{total}
use trail.Writer.Accounting.{Inv, run-Inv}
use trail.Writer.Delivery.{InOrder, run-InOrder}
use trail.Writer.Bounds.{Bounded, run-Bounded}
use trail.Writer.Shutdown.{signalling}
use trail.Writer.Shutdown.Close.{Settled, closed-Settled, parked_wakes}

abbrev pub event_a : Event
event_a = new_event zero_id (pos 1) (codes "a")

abbrev event_b : Event
event_b = new_event zero_id (pos 2) (codes "b")

abbrev pub params : Params
params = record { policy = drop; capacity = 1; batch_size = 2 }

abbrev steps_of : ℕ → ℕ → List Action
steps_of i n = replicate n (producer i proceed)

-- `a` is queued, `b` finds the queue full and is dropped, and `Close` flushes `a`.
abbrev pub schedule : List Action
schedule =
    (call event_a ∷ call event_b ∷ [])
    ++ steps_of 0 7
    ++ steps_of 1 4
    ++ (producer 1 alternative ∷ steps_of 1 4)
    ++ (closer ∷ closer ∷ closer ∷ runner stop ∷ runner go ∷ runner receive ∷ runner go ∷ [])
    ++ (runner (answer none) ∷ runner go ∷ runner go ∷ runner (answer none) ∷ closer ∷ [])

pub schedule_flushes :
    let s = run params schedule init in
    (s.runner.delivered ≡ (event_a ∷ []) ∷ [])
    × (s.shared.counters.written ≡ 1)
    × (s.shared.counters.dropped ≡ 1)
    × (s.shared.counters.buffered ≡ 0)
    × (s.closer ≡ closed)
unfolding run step init log close produce_at produce run_phase
schedule_flushes = (refl, refl, refl, refl, refl)

-- `run` finds a call that has entered, and sleeps.
abbrev sleepy : List Action
sleepy =
    (call event_a ∷ []) ++ steps_of 0 2 ++ (closer ∷ closer ∷ closer ∷ runner stop ∷ runner go ∷ [])

sleepy_parks : (run params sleepy init).runner.phase ≡ parked
unfolding run step init log close produce_at produce run_phase
sleepy_parks = refl

closed-Settled_example : Settled (run params schedule init)
closed-Settled_example = closed-Settled params schedule (omega arith) schedule_flushes.4

parked_wakes_example :
    let s = run params sleepy init in (s.shared.wake ≡ true) ⊎ (0 < total signalling s.producers)
parked_wakes_example = parked_wakes params sleepy sleepy_parks

run-Bounded_example : Bounded params (run params schedule init)
run-Bounded_example = run-Bounded params schedule (omega arith)

run-Inv_example : Inv (run params sleepy init)
run-Inv_example = run-Inv params sleepy

run-InOrder_example : InOrder (run params schedule init)
run-InOrder_example = run-InOrder params schedule
