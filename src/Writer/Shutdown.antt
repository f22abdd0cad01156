-- ===== src/Writer/Shutdown.antt =====
-- `Close`: producers are waited for, no wake-up is lost, the queue is drained, the sink is closed once.
pub mod Preserve
pub mod Close
use trail.Prelude.{
  ℕ, zero, suc, ◌+◌, ◌≤◌, ◌<◌, ◌≡◌, ◌≢◌, refl, Bool, true, false, none, some, List, [], ◌∷◌, ◌++◌,
  length, ◌⊎◌, inl, inr, arith, ◌==◌, if◌then◌else◌,
}
use trail.Event.{Event}
use trail.Writer.{
  Params, Pc, entered, admitted, sending, backing_out, rejected, leaving, waking, Producer, Shared,
  State, Phase, selecting, publishing, counting, dropping, releasing, waiting, parked, draining,
  closing, done, Runner, Closer, idle, swapped, refusing, awaiting, closed, Resume, to_select,
  to_drain, to_close,
}
use trail.Writer.Produce.{Choice, proceed, alternative, produce, log}
use trail.Writer.Run.{Input, run_phase, receive, tick, stop, go, answer}
use trail.Writer.Step.{Action, init, close, run}
use trail.Writer.Take.{Took, take_event-Took}
use trail.Writer.Sums.{total, total-snoc, total_mono, Moved}
use trail.Writer.Send.{Flags, Kept, produce-Sent, produce-Flags}
use trail.Writer.Accounting.{held}
use trail.Writer.Induction.{Preserves, run-Preserves}

-- How far `run` has come in shutting down.
pub data Stage : Type 0 where
  live halting emptying emptied : Stage

abbrev stage_of : Resume → Stage
stage_of to_select = live
stage_of to_drain = emptying
stage_of to_close = emptied

abbrev pub stage : Phase → Stage
stage selecting = live
stage (publishing next) = stage_of next
stage (counting next err) = stage_of next
stage (dropping next err) = stage_of next
stage (releasing next) = stage_of next
stage waiting = halting
stage parked = halting
stage draining = emptying
stage closing = emptied
stage done = emptied

abbrev pub FlagsAt : Closer → Shared → Type 0
FlagsAt idle s = (s.installed ≡ true) × (s.accepting ≡ true) × (s.stopped ≡ false)
FlagsAt swapped s = (s.installed ≡ false) × (s.accepting ≡ true) × (s.stopped ≡ false)
FlagsAt refusing s = (s.installed ≡ false) × (s.accepting ≡ false) × (s.stopped ≡ false)
FlagsAt _ s = (s.installed ≡ false) × (s.accepting ≡ false) × (s.stopped ≡ true)

abbrev pub NeedsStop : Stage → Shared → Type 0
NeedsStop live s = Unit
NeedsStop _ s = s.stopped ≡ true

-- the calls that may still send, or have not taken their event back
abbrev pub busy : Pc → ℕ
busy admitted = 1
busy sending = 1
busy backing_out = 1
busy _ = 0

-- the calls that have still to send to `wake`
abbrev pub signalling : Pc → ℕ
signalling waking = 1
signalling pc = held pc

abbrev pub Barred : Stage → ℕ → Type 0
Barred emptying n = n ≡ 0
Barred emptied n = n ≡ 0
Barred _ n = Unit

abbrev pub Emptied : Stage → List Event → Type 0
Emptied emptied queue = queue ≡ []
Emptied _ queue = Unit

-- `run` sleeps on `wake` only while a token is there or a call is on its way to send one.
abbrev pub Awakes : Phase → Bool → ℕ → Type 0
Awakes parked wake n = (wake ≡ true) ⊎ (0 < n)
Awakes _ wake n = Unit

abbrev pub closes_at : Phase → ℕ
closes_at done = 1
closes_at _ = 0

abbrev pub Ends : Closer → Phase → Type 0
Ends closed phase = phase ≡ done
Ends _ phase = Unit

pub record Ordered (s : State) : Type 0 where
  pub flags : FlagsAt s.closer s.shared
  pub needs_stop : NeedsStop (stage s.runner.phase) s.shared
  pub barred : Barred (stage s.runner.phase) (total busy s.producers)
  pub emptied : Emptied (stage s.runner.phase) s.shared.queue
  pub awakes : Awakes s.runner.phase s.shared.wake (total signalling s.producers)
  pub closes : s.runner.sink_closes ≡ closes_at s.runner.phase
  pub ends : Ends s.closer s.runner.phase

pub refuses : (at : Closer) (s : Shared) → FlagsAt at s → s.stopped ≡ true → s.accepting ≡ false
refuses idle s f h = ground arith
refuses _ s f h = ground arith

pub record Signals (p p' : Producer) (s s' : Shared) : Type 0 where
  pub busy_le : s.accepting ≡ false → busy p'.pc ≤ busy p.pc
  pub signal : (s'.wake ≡ true) ⊎ ((s'.wake ≡ s.wake) × (signalling p.pc ≤ signalling p'.pc))

pub produce-Signals :
    (pc : Pc) (k : Choice) (c : Params) (p p' : Producer) (s s' : Shared)
    → p.pc ≡ pc
    → produce pc k c p s ≡ some (p', s')
    → Signals p p' s s'
unfolding produce
produce-Signals waking proceed c p p' s s' same h = record {
  busy_le = ground arith;
  signal = inl (ground arith);
}
produce-Signals _ _ c p p' s s' same h = record {
  busy_le = ground arith;
  signal = inr (ground arith);
}

pub held-le-signalling : (pc : Pc) → held pc ≤ signalling pc
held-le-signalling waking = omega arith
held-le-signalling _ = omega arith

pub busy-le-held : (pc : Pc) → busy pc ≤ held pc
busy-le-held admitted = omega arith
busy-le-held _ = omega arith
