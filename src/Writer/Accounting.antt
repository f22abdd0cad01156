-- ===== src/Writer/Accounting.antt =====
-- The four counters and `inflight`: every call of `Log` is accounted for, exactly once.
use trail.Prelude.{
  ℕ, ◌+◌, ◌%◌, ◌^◌, ◌≤◌, ◌≡◌, refl, none, some, List, [], ◌∷◌, ◌++◌, length, length-append, arith,
}
use trail.Event.{Event}
use trail.Writer.{
  Params, Pc, entered, admitted, sending, backing_out, rejected, leaving, waking, returned,
  Producer, Shared, State, Phase, selecting, counting, releasing, draining, Runner, Closer, idle,
  Resume, to_select, to_drain, to_close,
}
use trail.Writer.Produce.{Choice, proceed, produce, log}
use trail.Writer.Run.{Input, run_phase, receive, go}
use trail.Writer.Step.{Action, init, close, run}
use trail.Writer.Take.{Took, take_event-Took}
use trail.Writer.Sums.{total, total-snoc, Moved}
use trail.Writer.Induction.{Preserves, run-Preserves}

-- the calls that `inflight` counts
abbrev pub held : Pc → ℕ
held entered = 1
held admitted = 1
held sending = 1
held backing_out = 1
held rejected = 1
held leaving = 1
held _ = 0

-- the calls that have neither sent their event nor counted its drop
abbrev pub unsettled : Pc → ℕ
unsettled leaving = 0
unsettled waking = 0
unsettled returned = 0
unsettled _ = 1

-- the calls whose event `buffered` counts while it is in no list
abbrev pub charged : Pc → ℕ
charged sending = 1
charged backing_out = 1
charged _ = 0

-- the events of `batch` that neither `written` nor `dropped` counts yet
abbrev pub uncounted : Phase → List Event → ℕ
uncounted (releasing next) batch = 0
uncounted _ batch = length batch

-- What a step of one call changes of the numbers.
record Local (p p' : Producer) (s s' : Shared) : Type 0 where
  inflight : held p.pc ≤ s.inflight → s'.inflight + held p.pc ≡ s.inflight + held p'.pc
  settled :
      (s'.counters.dropped + unsettled p'.pc + length s'.queue) % 2 ^ 64
      ≡ (s.counters.dropped + unsettled p.pc + length s.queue) % 2 ^ 64
  gauge :
      (s'.counters.buffered + charged p.pc + length s.queue) % 2 ^ 64
      ≡ (s.counters.buffered + charged p'.pc + length s'.queue) % 2 ^ 64
  written : s'.counters.written ≡ s.counters.written

produce-Local :
    (pc : Pc) (k : Choice) (c : Params) (p p' : Producer) (s s' : Shared)
    → p.pc ≡ pc
    → produce pc k c p s ≡ some (p', s')
    → Local p p' s s'
unfolding produce
produce-Local sending proceed c p p' s s' same h =
    ground (arith, length-append s.queue (p.event ∷ []))
produce-Local _ _ c p p' s s' same h = ground arith

-- What a step of `run` changes of the numbers.
record RunLocal (r r' : Runner) (s s' : Shared) : Type 0 where
  inflight : s'.inflight ≡ s.inflight
  settled :
      (s'.counters.written + s'.counters.dropped + uncounted r'.phase r'.batch + length s'.queue)
        % 2 ^ 64
      ≡ (s.counters.written + s.counters.dropped + uncounted r.phase r.batch + length s.queue)
        % 2 ^ 64
  gauge :
      (s'.counters.buffered + length s.queue + length r.batch) % 2 ^ 64
      ≡ (s.counters.buffered + length s'.queue + length r'.batch) % 2 ^ 64

Took-Local :
    (c : Params) (next : Resume) (stay : Phase) (r r' : Runner) (s s' : Shared)
    → ((batch : List Event) → uncounted r.phase batch ≡ length batch)
    → ((batch : List Event) → uncounted stay batch ≡ length batch)
    → Took c next stay r r' s s'
    → RunLocal r r' s s'
Took-Local c next stay r r' s s' now later t = ground (
  arith,
  t.source,
  t.target,
  t.result,
  length-append r.batch (t.event ∷ []),
  now r.batch,
  later (r.batch ++ t.event ∷ []),
)

run_phase-Local :
    (phase : Phase) (input : Input) (c : Params) (r r' : Runner) (s s' : Shared)
    → r.phase ≡ phase
    → run_phase phase input c r s ≡ some (r', s')
    → RunLocal r r' s s'
unfolding run_phase
run_phase-Local selecting receive c r r' s s' same h =
    Took-Local c to_select selecting r r' s s' (λ batch. rw same) (λ batch. refl)
      (take_event-Took c to_select selecting r r' s s' h)
run_phase-Local draining receive c r r' s s' same h =
    Took-Local c to_drain draining r r' s s' (λ batch. rw same) (λ batch. refl)
      (take_event-Took c to_drain draining r r' s s' h)
run_phase-Local (releasing to_select) go c r r' s s' same h = ground arith
run_phase-Local (releasing to_drain) go c r r' s s' same h = ground arith
run_phase-Local (releasing to_close) go c r r' s s' same h = ground arith
run_phase-Local (counting next none) go c r r' s s' same h = ground arith
run_phase-Local (counting next (some err)) go c r r' s s' same h = ground arith
run_phase-Local _ _ c r r' s s' same h = ground arith

-- Between two steps, over the whole system.
pub record Inv (s : State) : Type 0 where
  pub inflight : s.shared.inflight ≡ total held s.producers
  pub settled :
      (s.shared.counters.written
          + s.shared.counters.dropped
          + total unsettled s.producers
          + length s.shared.queue
          + uncounted s.runner.phase s.runner.batch)
        % 2 ^ 64
      ≡ length s.producers % 2 ^ 64
  pub gauge :
      s.shared.counters.buffered % 2 ^ 64
      ≡ (total charged s.producers + length s.shared.queue + length s.runner.batch) % 2 ^ 64

pub init-Inv : Inv init
unfolding init
init-Inv = omega arith

produce-Inv :
    (k : Choice) (c : Params) (s : State) (ps : List Producer) (sh : Shared)
    → Moved k c s.producers ps s.shared sh
    → Inv s
    → Inv (record s { producers = ps; shared = sh })
produce-Inv k c s ps sh m v =
    let l = produce-Local m.before.pc k c m.before m.after s.shared sh refl m.local in
    let inflight = v.inflight in
    let settled = v.settled in
    let gauge = v.gauge in
    record {
      inflight = omega (arith, l.inflight, m.totals held, m.member held);
      settled = omega (arith, l.settled, l.written, m.totals unsettled, m.same_length);
      gauge = omega (arith, l.gauge, m.totals charged);
    }

run_phase-Inv :
    (input : Input) (c : Params) (s : State) (r : Runner) (sh : Shared)
    → run_phase s.runner.phase input c s.runner s.shared ≡ some (r, sh)
    → Inv s
    → Inv (record s { runner = r; shared = sh })
run_phase-Inv input c s r sh h v =
    let l = run_phase-Local s.runner.phase input c s.runner r s.shared sh refl h in
    let inflight = v.inflight in
    let settled = v.settled in
    let gauge = v.gauge in
    record {
      inflight = omega (arith, l.inflight);
      settled = omega (arith, l.settled);
      gauge = omega (arith, l.gauge);
    }

call-Inv :
    (e : Event) (s : State)
    → Inv s
    → Inv (record s { producers = s.producers ++ log e s.shared ∷ [] })
unfolding log
call-Inv e s v = ground (
  arith,
  total-snoc held s.producers (log e s.shared),
  total-snoc unsettled s.producers (log e s.shared),
  total-snoc charged s.producers (log e s.shared),
  length-append s.producers (log e s.shared ∷ []),
)

close-Inv : (at : Closer) (s s' : State) → close at s ≡ some s' → Inv s → Inv s'
unfolding close
close-Inv idle s s' h v = ground arith
close-Inv _ s s' h v = ground arith

pub keep-Inv : (c : Params) → Preserves c Inv
keep-Inv c = record {
  by_call = call-Inv;
  by_producer = λ k. produce-Inv k c;
  by_runner = λ input. run_phase-Inv input c;
  by_closer = λ s. close-Inv s.closer s;
}

-- After every schedule inflight counts the calls inside enqueue, written plus dropped plus the
-- events that are still on their way is the number of calls of Log, and the gauge counts the
-- events in the queue, in the batch and in the hands of a sending call, both modulo 2 ^ 64.
pub run-Inv : (c : Params) (actions : List Action) → Inv (run c actions init)
run-Inv c actions = run-Preserves c Inv (keep-Inv c) actions init init-Inv
