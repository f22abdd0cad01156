-- ===== src/Memory/Stores.antt =====
-- The writer of trail.go with the memory sink behind it.
use trail.Prelude.{◌≡◌, ◌<◌, refl, ◌∙◌, ap, List, [], ◌∷◌, ◌++◌}
use mathlib.Core.Path.{subst}
use trail.Event.{Event, Metadata}
use trail.Writer.{Params, SinkCall, deliver, sink_close, closed}
use trail.Writer.Step.{Action, run, init}
use trail.Writer.Calls.{deliveries, last_calls, run-Sequenced}
use trail.Writer.Delivery.{concat}
use trail.Writer.Shutdown.Close.{closed-Settled, closed-done}
use trail.Memory.{
  Operation, write_operation, close_operation, apply_all, empty_sink, written_before,
  apply_all-empty_sink,
}

-- The calls of the writer as calls of this sink, with the metadata of the writer.
abbrev pub calls_of : Metadata → List SinkCall → List Operation
calls_of metadata [] = []
calls_of metadata (deliver batch ∷ calls) =
    write_operation (record { metadata = metadata; events = batch }) ∷ calls_of metadata calls
calls_of metadata (sink_close ∷ calls) = close_operation ∷ calls_of metadata calls

written_before-calls_of :
    (metadata : Metadata) (batches : List (List Event))
    → written_before (calls_of metadata (deliveries batches ++ sink_close ∷ [])) ≡ concat batches
written_before-calls_of metadata [] = refl
written_before-calls_of metadata (batch ∷ batches) =
    ap (λ events. batch ++ events) (written_before-calls_of metadata batches)

closed_calls :
    (c : Params) (actions : List Action)
    → (run c actions init).closer ≡ closed
    → (run c actions init).runner.calls
      ≡ deliveries (run c actions init).runner.delivered ++ sink_close ∷ []
closed_calls c actions h =
    let phase = closed-done c actions h in
    subst
      (λ p.
        (run c actions init).runner.calls
        ≡ deliveries (run c actions init).runner.delivered ++ last_calls p)
      phase (run-Sequenced c actions)

-- Once Close has returned, after any schedule, with a batch size of at least one, a new memory
-- sink that got the calls that the writer made of its sink, WriteBatch and Close in the order in
-- which it made them, holds exactly the events that the queue accepted, in the order of
-- acceptance.
pub closed-stores :
    (c : Params) (actions : List Action) (metadata : Metadata)
    → 0 < c.batch_size
    → (run c actions init).closer ≡ closed
    → (apply_all (calls_of metadata (run c actions init).runner.calls) empty_sink).events
      ≡ (run c actions init).shared.accepted
closed-stores c actions metadata one h =
    let batches = (run c actions init).runner.delivered in
    (apply_all-empty_sink (calls_of metadata (run c actions init).runner.calls)).0
    ∙ (ap (λ calls. written_before (calls_of metadata calls)) (closed_calls c actions h)
        ∙ (written_before-calls_of metadata batches ∙ (closed-Settled c actions one h).order))
