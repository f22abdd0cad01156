-- ===== src/Writer/Bounds.antt =====
-- The bounded queue and the size of the batches.
use trail.Prelude.{
  ℕ, ◌≤◌, ◌<◌, ◌≡◌, refl, none, some, List, [], ◌∷◌, ◌++◌, length, length-append, All, All-append,
  arith, inl, inr,
}
use trail.Event.{Event}
use trail.Writer.{
  Params, Producer, Shared, State, Phase, selecting, publishing, counting, releasing, waiting,
  parked, draining, closing, done, Runner, Closer, idle, Resume, to_select, to_drain, to_close,
}
use trail.Writer.Produce.{Choice}
use trail.Writer.Run.{Input, run_phase, receive, go, answer}
use trail.Writer.Step.{Action, init, close, run}
use trail.Writer.Take.{Took, take_event-Took}
use trail.Writer.Sums.{Moved}
use trail.Writer.Send.{produce-Sent}
use trail.Writer.Induction.{Preserves, run-Preserves}

-- how many events `batch` may hold where `run` stands
abbrev pub Room : ℕ → Phase → ℕ → Type 0
Room size selecting n = n < size
Room size waiting n = n < size
Room size parked n = n < size
Room size draining n = n < size
Room size closing n = n ≡ 0
Room size done n = n ≡ 0
Room size _ n = (0 < n) × (n ≤ size)

abbrev pub IsDeliverable : ℕ → List Event → Type 0
IsDeliverable size batch = (0 < length batch) × (length batch ≤ size)

pub record Bounded (c : Params) (s : State) : Type 0 where
  pub queue : length s.shared.queue ≤ c.capacity
  pub batch : Room c.batch_size s.runner.phase (length s.runner.batch)
  pub delivered : All (IsDeliverable c.batch_size) s.runner.delivered

produce-Bounded :
    (k : Choice) (c : Params) (s : State) (ps : List Producer) (sh : Shared)
    → Moved k c s.producers ps s.shared sh
    → Bounded c s
    → Bounded c (record s { producers = ps; shared = sh })
produce-Bounded k c s ps sh m v = record {
  queue = elim (produce-Sent m.before.pc k c m.before m.after s.shared sh refl m.local) [
    | inl kept ↦ rw kept.queue v.queue
    | inr sent ↦
        let room = sent.room in
        rw sent.queue (omega (arith, length-append s.shared.queue (m.before.event ∷ [])))
  ];
  batch = v.batch;
  delivered = v.delivered;
}

Took-Bounded :
    (c : Params) (next : Resume) (stay : Phase) (s : State) (r : Runner) (sh : Shared)
    → ((n : ℕ) → n < c.batch_size → Room c.batch_size stay n)
    → (Room c.batch_size s.runner.phase (length s.runner.batch)
        → length s.runner.batch < c.batch_size)
    → Took c next stay s.runner r s.shared sh
    → Bounded c s
    → Bounded c (record s { runner = r; shared = sh })
Took-Bounded c next stay s r sh later now t v =
    let room = now v.batch in
    let n = length (s.runner.batch ++ t.event ∷ []) in
    let len = length-append s.runner.batch (t.event ∷ []) in
    let all = v.delivered in
    let queue = v.queue in ground (arith, t.source, t.target, t.result, room, len, later n)

runner-Bounded :
    (phase : Phase) (input : Input) (c : Params) (s : State) (r : Runner) (sh : Shared)
    → 0 < c.batch_size
    → s.runner.phase ≡ phase
    → run_phase phase input c s.runner s.shared ≡ some (r, sh)
    → Bounded c s
    → Bounded c (record s { runner = r; shared = sh })
unfolding run_phase
runner-Bounded selecting receive c s r sh one same h v =
    Took-Bounded c to_select selecting s r sh (λ n lt. lt) (λ room. rw same at room)
      (take_event-Took c to_select selecting s.runner r s.shared sh h) v
runner-Bounded draining receive c s r sh one same h v =
    Took-Bounded c to_drain draining s r sh (λ n lt. lt) (λ room. rw same at room)
      (take_event-Took c to_drain draining s.runner r s.shared sh h) v
runner-Bounded (publishing next) (answer err) c s r sh one same h v = ground (
  arith,
  All-append (IsDeliverable c.batch_size) s.runner.delivered (s.runner.batch ∷ []) v.delivered,
)
runner-Bounded (releasing to_select) go c s r sh one same h v = ground arith
runner-Bounded (releasing to_drain) go c s r sh one same h v = ground arith
runner-Bounded (releasing to_close) go c s r sh one same h v = ground arith
runner-Bounded (counting next none) go c s r sh one same h v = ground arith
runner-Bounded (counting next (some err)) go c s r sh one same h v = ground arith
runner-Bounded _ _ c s r sh one same h v = ground arith

close-Bounded :
    (at : Closer) (c : Params) (s s' : State) → close at s ≡ some s' → Bounded c s → Bounded c s'
unfolding close
close-Bounded idle c s s' h v = ground arith
close-Bounded _ c s s' h v = ground arith

keep-Bounded : (c : Params) → 0 < c.batch_size → Preserves c (Bounded c)
keep-Bounded c one = record {
  by_call = λ e s v. record { queue = v.queue; batch = v.batch; delivered = v.delivered };
  by_producer = λ k. produce-Bounded k c;
  by_runner = λ input s r sh. runner-Bounded s.runner.phase input c s r sh one refl;
  by_closer = λ s. close-Bounded s.closer c s;
}

-- After every schedule, with a batch size of at least one, the queue holds at most its capacity,
-- and every batch given to the sink has at least one and at most batch_size events; the batch that
-- run holds stays below that size while it receives.
pub run-Bounded :
    (c : Params) (actions : List Action) → 0 < c.batch_size → Bounded c (run c actions init)
run-Bounded c actions one =
    run-Preserves c (Bounded c) (keep-Bounded c one) actions init (unfold init in omega arith)
