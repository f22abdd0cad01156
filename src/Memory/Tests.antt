-- ===== src/Memory/Tests.antt =====
-- A sink that is closed between two batches.
use trail.Prelude.{◌≡◌, List, [], ◌∷◌}
use trail.Wire.Tests.{sample_event, service}
use trail.Prelude.{arith}
use trail.Writer.Step.{run, init}
use trail.Writer.Tests.{params, schedule, schedule_flushes}
use trail.Memory.Stores.{calls_of, closed-stores}
use trail.Memory.{
  Operation, write_operation, close_operation, apply_all, empty_sink, apply_all-empty_sink,
}

abbrev operations : List Operation
operations =
    write_operation (record { metadata = service; events = sample_event ∷ [] })
    ∷ close_operation
    ∷ write_operation (record { metadata = service; events = sample_event ∷ [] })
    ∷ []

apply_all-empty_sink_example :
    ((apply_all operations empty_sink).events ≡ sample_event ∷ [])
    × ((apply_all operations empty_sink).metadata ≡ service)
apply_all-empty_sink_example = apply_all-empty_sink operations

closed-stores_example :
    (apply_all (calls_of service (run params schedule init).runner.calls) empty_sink).events
    ≡ (run params schedule init).shared.accepted
closed-stores_example = closed-stores params schedule service (omega arith) schedule_flushes.4
