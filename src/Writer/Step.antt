-- ===== src/Writer/Step.antt =====
-- The system: `Init`, `Close`, and a schedule of steps.
use trail.Prelude.{
  ℕ, zero, suc, Bool, true, false, Option, none, some, List, [], ◌∷◌, ◌++◌, if◌then◌else◌,
}
use trail.Event.{Event}
use trail.Writer.{
  Params, Producer, Shared, Phase, selecting, done, Closer, idle, swapped, refusing, awaiting,
  closed, State,
}
use trail.Writer.Produce.{Choice, produce, log}
use trail.Writer.Run.{Input, run_phase}

-- The writer that `Init` stores: nothing queued, accepting. The counters of the process are zero.
unfoldable pub init : State
init = record {
  shared = record {
    installed = true;
    accepting = true;
    stopped = false;
    queue = [];
    inflight = 0;
    wake = false;
    counters = record { written = 0; dropped = 0; buffered = 0; publish_errors = 0 };
    accepted = [];
  };
  producers = [];
  runner = record {
    phase = selecting;
    batch = [];
    delivered = [];
    publish_err = none;
    close_err = none;
    sink_closes = 0;
    calls = [];
  };
  closer = idle;
}

abbrev pub is_done : Phase → Bool
is_done done = true
is_done _ = false

-- `Close`: `global.current.Swap(nil)`, `w.accepting.Store(false)`, `close(w.stop)`, `<-w.done`.
unfoldable pub close : Closer → State → Option State
close idle s =
    some (record s { closer = swapped; shared = record (s.shared) { installed = false } })
close swapped s =
    some (record s { closer = refusing; shared = record (s.shared) { accepting = false } })
close refusing s =
    some (record s { closer = awaiting; shared = record (s.shared) { stopped = true } })
close awaiting s = if is_done s.runner.phase then some (record s { closer = closed }) else none
close closed s = none

-- Whose step comes next: a new call of `Log`, the call of index `i`, `run`, or `Close`.
pub data Action : Type 0 where
  call : Event → Action
  producer : ℕ → Choice → Action
  runner : Input → Action
  closer : Action

-- The producer of index `i` makes a step.
unfoldable pub produce_at :
    ℕ → Choice → Params → List Producer → Shared → Option (List Producer × Shared)
produce_at i k c [] s = none
produce_at zero k c (p ∷ ps) s = elim (produce p.pc k c p s) [
  | none ↦ none
  | some (p', s') ↦ some (p' ∷ ps, s')
]
produce_at (suc i) k c (p ∷ ps) s = elim (produce_at i k c ps s) [
  | none ↦ none
  | some (ps', s') ↦ some (p ∷ ps', s')
]

-- One step; `none` if it is not enabled.
unfoldable pub step : Params → Action → State → Option State
step c (call e) s = some (record s { producers = s.producers ++ log e s.shared ∷ [] })
step c (producer i k) s = elim (produce_at i k c s.producers s.shared) [
  | none ↦ none
  | some (ps, sh) ↦ some (record s { producers = ps; shared = sh })
]
step c (runner input) s = elim (run_phase s.runner.phase input c s.runner s.shared) [
  | none ↦ none
  | some (r, sh) ↦ some (record s { runner = r; shared = sh })
]
step c closer s = close s.closer s

-- A schedule: an action that is not enabled is passed over.
unfoldable pub run : Params → List Action → State → State
run c [] s = s
run c (a ∷ actions) s = run c actions (elim (step c a s) [ none ↦ s | some s' ↦ s' ])
