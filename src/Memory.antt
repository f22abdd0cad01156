-- ===== src/Memory.antt =====
-- sink/memory/memory.go: the sink that keeps what it is given.
pub mod Stores
mod Tests
use trail.Prelude.{
  ◌≡◌, refl, sym, ◌∙◌, Bool, true, false, List, [], ◌∷◌, ◌++◌, append_assoc, append-nil, arith,
}
use mathlib.Core.Path.{subst}
use trail.Event.{Event, Metadata, Batch}

-- The lock makes each operation one step. An event here is a value, so that a copy of it is the event.
pub record Sink : Type 0 where
  pub events : List Event
  pub metadata : Metadata
  pub closed : Bool

-- `New`
abbrev pub empty_sink : Sink
empty_sink = record {
  events = [];
  metadata = record { service = []; environment = []; version = [] };
  closed = false;
}

-- `WriteBatch`, and whether it gives `ErrClosed`.
unfoldable pub write_batch : Batch → Sink → Sink × Bool
write_batch batch s = elim (s.closed) [
  | true ↦ (s, true)
  | false ↦ (record s { metadata = batch.metadata; events = s.events ++ batch.events }, false)
]

-- `Close`
unfoldable pub close_sink : Sink → Sink
close_sink s = record s { closed = true }

-- The calls of a sink.
pub data Operation : Type 0 where
  write_operation : Batch → Operation
  close_operation : Operation

unfoldable pub apply_operation : Operation → Sink → Sink
apply_operation (write_operation batch) s = (write_batch batch s).0
apply_operation close_operation s = close_sink s

unfoldable pub apply_all : List Operation → Sink → Sink
apply_all [] s = s
apply_all (o ∷ operations) s = apply_all operations (apply_operation o s)

-- The events written before the first `Close`, and the metadata of the last of those batches.
abbrev pub written_before : List Operation → List Event
written_before [] = []
written_before (write_operation batch ∷ operations) = batch.events ++ written_before operations
written_before (close_operation ∷ operations) = []

abbrev pub last_metadata : List Operation → Metadata → Metadata
last_metadata [] m = m
last_metadata (write_operation batch ∷ operations) m = last_metadata operations batch.metadata
last_metadata (close_operation ∷ operations) m = m

write_batch_closed : (batch : Batch) (s : Sink) → s.closed ≡ true → (write_batch batch s).0 ≡ s
unfolding write_batch
write_batch_closed batch s h = ground (arith, h)

write_batch_open :
    (batch : Batch) (s : Sink)
    → s.closed ≡ false
    → (write_batch batch s).0
      ≡ record s { metadata = batch.metadata; events = s.events ++ batch.events }
unfolding write_batch
write_batch_open batch s h = ground (arith, h)

apply_all_closed :
    (operations : List Operation) (s : Sink)
    → s.closed ≡ true
    → ((apply_all operations s).events ≡ s.events)
      × ((apply_all operations s).metadata ≡ s.metadata)
unfolding apply_all apply_operation close_sink
apply_all_closed [] s h = (refl, refl)
apply_all_closed (write_operation batch ∷ operations) s h =
    subst
      (λ t.
        ((apply_all operations t).events ≡ s.events)
        × ((apply_all operations t).metadata ≡ s.metadata))
      (sym (write_batch_closed batch s h)) (apply_all_closed operations s h)
apply_all_closed (close_operation ∷ operations) s h =
    apply_all_closed operations (close_sink s) refl

apply_all_open :
    (operations : List Operation) (s : Sink)
    → s.closed ≡ false
    → ((apply_all operations s).events ≡ s.events ++ written_before operations)
      × ((apply_all operations s).metadata ≡ last_metadata operations s.metadata)
unfolding apply_all apply_operation close_sink
apply_all_open [] s h = (sym (append-nil s.events), refl)
apply_all_open (write_operation batch ∷ operations) s h =
    let s' : Sink = record s { metadata = batch.metadata; events = s.events ++ batch.events } in
    let rest = apply_all_open operations s' h in
    subst
      (λ t.
        ((apply_all operations t).events ≡ s.events ++ (batch.events ++ written_before operations))
        × ((apply_all operations t).metadata ≡ last_metadata operations batch.metadata))
      (sym (write_batch_open batch s h))
      (rest.0 ∙ append_assoc s.events batch.events (written_before operations), rest.1)
apply_all_open (close_operation ∷ operations) s h =
    let rest = apply_all_closed operations (close_sink s) refl in
    (rest.0 ∙ sym (append-nil s.events), rest.1)

-- After any calls, a new memory sink holds the events of the batches written before the first
-- Close, in their order, with the metadata of the last of these batches, or none.
pub apply_all-empty_sink :
    (operations : List Operation)
    → ((apply_all operations empty_sink).events ≡ written_before operations)
      × ((apply_all operations empty_sink).metadata ≡ last_metadata operations empty_sink.metadata)
apply_all-empty_sink operations = apply_all_open operations empty_sink refl
