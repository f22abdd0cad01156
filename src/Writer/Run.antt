-- ===== src/Writer/Run.antt =====
-- `run`, `waitForProducers` and `publish`.
use trail.Prelude.{
  ◌+◌, Bool, true, false, Option, none, some, List, [], ◌∷◌, ◌++◌, Text, length, ◌==◌,
  if◌then◌else◌,
}
use trail.Event.{Event}
use trail.Writer.{
  Params, add64, minus64, Shared, Resume, to_select, to_drain, to_close, Phase, selecting,
  publishing, counting, dropping, releasing, waiting, parked, draining, closing, done, Runner,
  deliver, sink_close,
}

-- What happens at the step: which ready case a `select` takes, what the sink returns.
pub data Input : Type 0 where
  receive tick stop go : Input
  answer : Option Text → Input

abbrev pub at : Runner → Phase → Runner
at r phase = record r { phase = phase }

-- `batch = append(batch, event)`, and `publish` when the batch is full.
abbrev pub take_event : Params → Resume → Phase → Runner → Shared → Option (Runner × Shared)
take_event c next stay r s = elim (s.queue) [
  | [] ↦ none
  | e ∷ queue ↦ some (
    record r {
      batch = r.batch ++ e ∷ [];
      phase = if length (r.batch ++ e ∷ []) == c.batch_size then publishing next else stay;
    },
    record s { queue = queue },
  )
]

abbrev is_nil : List Event → Bool
is_nil [] = true
is_nil (_ ∷ _) = false

abbrev resume : Resume → Phase
resume to_select = selecting
resume to_drain = draining
resume to_close = closing

abbrev first_error : Option Text → Text → Option Text
first_error none err = some err
first_error (some old) err = some old

abbrev pub keep_error : Option Text → Option Text → Option Text
keep_error none old = old
keep_error (some err) old = some err

-- The last `publish` empties the batch too, which nothing reads any more.
unfoldable pub run_phase : Phase → Input → Params → Runner → Shared → Option (Runner × Shared)
run_phase selecting receive c r s = take_event c to_select selecting r s
run_phase selecting tick c r s = some (if is_nil r.batch then r else at r (publishing to_select), s)
run_phase selecting stop c r s = if s.stopped then some (at r waiting, s) else none
run_phase (publishing next) (answer err) c r s = some (
  record r {
    delivered = r.delivered ++ r.batch ∷ [];
    calls = r.calls ++ deliver (r.batch) ∷ [];
    phase = counting next err;
  },
  s,
)
run_phase (counting next none) go c r s = some (
  at r (releasing next),
  record s {
    counters = record (s.counters) { written = add64 s.counters.written (length r.batch) };
  },
)
run_phase (counting next (some err)) go c r s = some (
  at r (dropping next err),
  record s {
    counters = record (s.counters) { publish_errors = add64 s.counters.publish_errors 1 };
  },
)
run_phase (dropping next err) go c r s = some (
  record r { phase = releasing next; publish_err = first_error r.publish_err err },
  record s {
    counters = record (s.counters) { dropped = add64 s.counters.dropped (length r.batch) };
  },
)
run_phase (releasing next) go c r s = some (
  record r { phase = resume next; batch = [] },
  record s {
    counters = record (s.counters) {
      buffered = add64 s.counters.buffered (minus64 (length r.batch));
    };
  },
)
run_phase waiting go c r s = some (at r (if s.inflight == 0 then draining else parked), s)
run_phase parked go c r s = if s.wake then some (at r waiting, record s { wake = false }) else none
run_phase draining receive c r s = take_event c to_drain draining r s
run_phase draining go c r s =
    if is_nil s.queue
    then some (at r (if is_nil r.batch then closing else publishing to_close), s)
    else none
run_phase closing (answer err) c r s = some (
  record r {
    phase = done;
    close_err = keep_error err r.close_err;
    sink_closes = r.sink_closes + 1;
    calls = r.calls ++ sink_close ∷ [];
  },
  s,
)
run_phase _ _ c r s = none
