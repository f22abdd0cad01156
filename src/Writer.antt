-- ===== src/Writer.antt =====
-- trail.go: the process-wide writer. Any number of goroutines call `Log`, one goroutine runs the
-- loop of `run`, and one call of `Close` ends it. Each atomic operation, channel operation and call
-- of the sink is a step of its own, and a schedule chooses whose step comes next (`Writer.Step`).
-- One writer's life is modelled, from the successful `Init` on.
pub mod Produce
pub mod Run
pub mod Step
pub mod Take
pub mod Send
pub mod Sums
pub mod Induction
pub mod Calls
pub mod Accounting
pub mod Delivery
pub mod Bounds
pub mod Shutdown
pub mod Tests
use trail.Prelude.{ℕ, ◌+◌, ◌-◌, ◌%◌, ◌^◌, Bool, true, false, Option, none, some, List, [], Text}
use trail.Event.{Event}

-- `FullPolicy`; `normalizeConfig` refuses any other value.
pub data Policy : Type 0 where
  drop block : Policy

pub record Params : Type 0 where
  pub policy : Policy
  pub capacity : ℕ
  pub batch_size : ℕ

-- stats.go: the `counters`, each an atomic uint64.
pub record Counters : Type 0 where
  pub written : ℕ
  pub dropped : ℕ
  pub buffered : ℕ
  pub publish_errors : ℕ

-- `c.Add(n)`
abbrev pub add64 : ℕ → ℕ → ℕ
add64 c n = (c + n) % 2 ^ 64

-- `^uint64(n - 1)` of a uint64 `n`: adding it subtracts `n`.
abbrev pub minus64 : ℕ → ℕ
minus64 n = (2 ^ 64 - n % 2 ^ 64) % 2 ^ 64

-- Where a call of `Log` stands, named for what it does next.
pub data Pc : Type 0 where
  loaded  -- it holds the writer, and reads `accepting`
        unheard  -- it counts the drop of a call that found no accepting writer
        checked  -- `w.inflight.Add(1)`
        entered  -- it reads `accepting` again
        admitted  -- `counters.buffered.Add(1)`
        sending  -- the `select` that sends
        backing_out  -- it takes the event out of `buffered`
        rejected  -- it counts the drop
        leaving  -- `w.inflight.Add(-1)`
        waking  -- the `select` that sends to `wake`
        returned :
      Pc

pub record Producer : Type 0 where
  pub pc : Pc
  pub event : Event

-- What the goroutines share. `accepted` is a history: the events sent to the queue, in order.
pub record Shared : Type 0 where
  pub installed : Bool
  pub accepting : Bool
  pub stopped : Bool
  pub queue : List Event
  pub inflight : ℕ
  pub wake : Bool
  pub counters : Counters
  pub accepted : List Event

-- Where `run` goes on after `publish`.
pub data Resume : Type 0 where
  to_select to_drain to_close : Resume

-- Where `run` stands. The error of `sink.WriteBatch` is `Option Text`.
pub data Phase : Type 0 where
  selecting : Phase
  publishing : Resume → Phase
  counting : Resume → Option Text → Phase
  dropping : Resume → Text → Phase
  releasing : Resume → Phase
  waiting : Phase
  parked : Phase
  draining : Phase
  closing : Phase
  done : Phase

-- The calls of the sink.
pub data SinkCall : Type 0 where
  deliver : List Event → SinkCall
  sink_close : SinkCall

-- The variables of `run`. `delivered` and `calls` are histories: the batches given to the sink, and
-- its calls in their order.
pub record Runner : Type 0 where
  pub phase : Phase
  pub batch : List Event
  pub delivered : List (List Event)
  pub calls : List SinkCall
  pub publish_err : Option Text
  pub close_err : Option Text
  pub sink_closes : ℕ

-- Where the one `Close` that finds the writer stands.
pub data Closer : Type 0 where
  idle swapped refusing awaiting closed : Closer

pub record State : Type 0 where
  pub shared : Shared
  pub producers : List Producer
  pub runner : Runner
  pub closer : Closer
