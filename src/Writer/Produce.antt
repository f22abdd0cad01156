-- ===== src/Writer/Produce.antt =====
-- `Log` behind its first load, and `enqueue`.
use trail.Prelude.{ℕ, ◌+◌, ◌-◌, true, Option, none, some, [], ◌∷◌, ◌++◌, length, ltb, if◌then◌else◌}
use trail.Event.{Event}
use trail.Writer.{
  Policy, drop, block, Params, add64, minus64, Pc, loaded, unheard, checked, entered, admitted,
  sending, backing_out, rejected, leaving, waking, returned, Producer, Shared,
}

-- Which ready case a `select` takes.
pub data Choice : Type 0 where
  proceed alternative : Choice

abbrev move : Producer → Pc → Producer
move p pc = record p { pc = pc }

abbrev count_dropped : ℕ → Shared → Shared
count_dropped n s = record s {
  counters = record (s.counters) { dropped = add64 s.counters.dropped n };
}

abbrev count_buffered : ℕ → Shared → Shared
count_buffered n s = record s {
  counters = record (s.counters) { buffered = add64 s.counters.buffered n };
}

-- `w.queue <- event` is ready while the channel has room.
abbrev send : Params → Producer → Shared → Option (Producer × Shared)
send c p s =
    if ltb (length s.queue) c.capacity
    then some (
      move p leaving,
      record s { queue = s.queue ++ p.event ∷ []; accepted = s.accepted ++ p.event ∷ [] },
    )
    else none

-- The other case: `default`, taken only if the send is not ready, or `<-w.stop`.
abbrev give_up : Policy → Params → Producer → Shared → Option (Producer × Shared)
give_up drop c p s = if ltb (length s.queue) c.capacity then none else some (move p backing_out, s)
give_up block c p s = if s.stopped then some (move p backing_out, s) else none

-- The next step of a call; `none` if it has none, or not that one.
unfoldable pub produce : Pc → Choice → Params → Producer → Shared → Option (Producer × Shared)
produce loaded proceed c p s = some (if s.accepting then move p checked else move p unheard, s)
produce unheard proceed c p s = some (move p returned, count_dropped 1 s)
produce checked proceed c p s = some (move p entered, record s { inflight = s.inflight + 1 })
produce entered proceed c p s = some (if s.accepting then move p admitted else move p rejected, s)
produce admitted proceed c p s = some (move p sending, count_buffered 1 s)
produce sending proceed c p s = send c p s
produce sending alternative c p s = give_up c.policy c p s
produce backing_out proceed c p s = some (move p rejected, count_buffered (minus64 1) s)
produce rejected proceed c p s = some (move p leaving, count_dropped 1 s)
produce leaving proceed c p s = some (move p waking, record s { inflight = s.inflight - 1 })
produce waking proceed c p s = some (move p returned, record s { wake = true })
produce _ _ c p s = none

-- `global.current.Load()` of a new call: without a writer it is only counted.
unfoldable pub log : Event → Shared → Producer
log e s = record { pc = if s.installed then loaded else unheard; event = e }
