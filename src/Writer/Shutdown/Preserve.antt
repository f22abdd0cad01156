-- ===== src/Writer/Shutdown/Preserve.antt =====
-- Every step keeps `Ordered`.
use trail.Prelude.{
  ℕ, ◌≤◌, ◌≡◌, refl, Bool, true, false, none, some, List, [], ◌∷◌, ◌++◌, ◌⊎◌, inl, inr, Bool-cases,
  arith,
}
use trail.Event.{Event}
use trail.Writer.{
  Params, Pc, loaded, unheard, Producer, Shared, State, Phase, selecting, publishing, counting,
  dropping, releasing, waiting, parked, draining, done, Runner, Closer, idle, swapped, refusing,
  awaiting, closed, to_select, to_drain, to_close,
}
use trail.Writer.Produce.{Choice, log}
use trail.Writer.Run.{Input, run_phase, receive, go, answer}
use trail.Writer.Step.{Action, is_done, init, close, run}
use trail.Writer.Take.{take_event-Took, List-cases}
use trail.Writer.Sums.{total, total-snoc, total_mono, Moved}
use trail.Writer.Send.{Flags, Kept, Sent, produce-Sent, produce-Flags}
use trail.Writer.Accounting.{held, Inv, init-Inv, keep-Inv}
use trail.Writer.Induction.{Preserves, run-Preserves}
use trail.Writer.Shutdown.{
  Stage, live, halting, emptied, stage, FlagsAt, NeedsStop, busy, signalling, Barred, Emptied,
  Awakes, Ends, Ordered, refuses, produce-Signals, held-le-signalling, busy-le-held,
}

FlagsAt-Flags : (at : Closer) (s s' : Shared) → Flags s s' → FlagsAt at s → FlagsAt at s'
FlagsAt-Flags idle s s' same f = ground arith
FlagsAt-Flags swapped s s' same f = ground arith
FlagsAt-Flags refusing s s' same f = ground arith
FlagsAt-Flags _ s s' same f = ground arith

NeedsStop-Flags : (st : Stage) (s s' : Shared) → Flags s s' → NeedsStop st s → NeedsStop st s'
NeedsStop-Flags live s s' same h = tt
NeedsStop-Flags _ s s' same h = ground arith

Barred-step :
    (st : Stage) (at : Closer) (s : Shared) (n n' : ℕ)
    → FlagsAt at s
    → NeedsStop st s
    → (s.accepting ≡ false → n' ≤ n)
    → Barred st n
    → Barred st n'
Barred-step live at s n n' f needs le h = tt
Barred-step halting at s n n' f needs le h = tt
Barred-step _ at s n n' f needs le h = omega (arith, le (refuses at s f needs))

Emptied-step :
    (st : Stage) (c : Params) (p : Producer) (s s' : Shared) (n : ℕ)
    → busy p.pc ≤ n
    → Barred st n
    → Kept s s' ⊎ Sent c p s s'
    → Emptied st s.queue
    → Emptied st s'.queue
Emptied-step emptied c p s s' n le bar sent h = elim sent [
  | inl kept ↦ rw kept.queue h
  | inr sent ↦ absurd (ground (arith, sent.from))
]
Emptied-step _ c p s s' n le bar sent h = tt

Awakes-step :
    (phase : Phase) (wake wake' : Bool) (n n' : ℕ)
    → (wake' ≡ true) ⊎ ((wake' ≡ wake) × (n ≤ n'))
    → Awakes phase wake n
    → Awakes phase wake' n'
Awakes-step parked wake wake' n n' change h = ground arith
Awakes-step _ wake wake' n n' change h = tt

produce-Ordered :
    (k : Choice) (c : Params) (s : State) (ps : List Producer) (sh : Shared)
    → Moved k c s.producers ps s.shared sh
    → Ordered s
    → Ordered (record s { producers = ps; shared = sh })
produce-Ordered k c s ps sh m v =
    let same = produce-Flags m.before.pc k c m.before m.after s.shared sh m.local in
    let sent = produce-Sent m.before.pc k c m.before m.after s.shared sh refl m.local in
    let signals = produce-Signals m.before.pc k c m.before m.after s.shared sh refl m.local in
    record {
      flags = FlagsAt-Flags s.closer s.shared sh same v.flags;
      needs_stop = NeedsStop-Flags (stage s.runner.phase) s.shared sh same v.needs_stop;
      barred =
          Barred-step (stage s.runner.phase) s.closer s.shared (total busy s.producers)
            (total busy ps) v.flags v.needs_stop
            (λ refused. omega (arith, signals.busy_le refused, m.totals busy)) v.barred;
      emptied =
          Emptied-step (stage s.runner.phase) c m.before s.shared sh (total busy s.producers)
            (m.member busy) v.barred sent v.emptied;
      awakes =
          Awakes-step s.runner.phase s.shared.wake sh.wake (total signalling s.producers)
            (total signalling ps)
            (elim signals.signal [
              | inl w ↦ inl w
              | inr (w, le) ↦ inr (w, omega (arith, m.totals signalling))
            ])
            v.awakes;
      closes = v.closes;
      ends = v.ends;
    }

log_weight :
    (weight : Pc → ℕ) (e : Event) (s : Shared)
    → weight loaded ≡ 0
    → weight unheard ≡ 0
    → weight (log e s).pc ≡ 0
unfolding log
log_weight weight e s a b = elim (Bool-cases s.installed) [ inl on ↦ rw on a | inr off ↦ rw off b ]

call-Ordered :
    (e : Event) (s : State)
    → Ordered s
    → Ordered (record s { producers = s.producers ++ log e s.shared ∷ [] })
call-Ordered e s v = record {
  flags = v.flags;
  needs_stop = v.needs_stop;
  barred = rw (quiet busy (log_weight busy e s.shared refl refl)) v.barred;
  emptied = v.emptied;
  awakes = rw (quiet signalling (log_weight signalling e s.shared refl refl)) v.awakes;
  closes = v.closes;
  ends = v.ends;
}
  where
    quiet :
        (weight : Pc → ℕ)
        → weight (log e s.shared).pc ≡ 0
        → total weight (s.producers ++ log e s.shared ∷ []) ≡ total weight s.producers
    quiet weight h = omega (arith, total-snoc weight s.producers (log e s.shared))

runner-Ordered :
    (phase : Phase) (input : Input) (c : Params) (s : State) (r : Runner) (sh : Shared)
    → s.runner.phase ≡ phase
    → run_phase phase input c s.runner s.shared ≡ some (r, sh)
    → Inv s
    → Ordered s
    → Ordered (record s { runner = r; shared = sh })
unfolding run_phase
runner-Ordered selecting receive c s r sh same h inv v =
    let t = take_event-Took c to_select selecting s.runner r s.shared sh h in
    ground (arith, t.source, t.target, t.result)
runner-Ordered draining receive c s r sh same h inv v =
    let t = take_event-Took c to_drain draining s.runner r s.shared sh h in
    ground (arith, t.source, t.target, t.result)
runner-Ordered waiting go c s r sh same h inv v = ground (
  arith,
  inv.inflight,
  total_mono held signalling s.producers held-le-signalling,
  total_mono busy held s.producers busy-le-held,
)
runner-Ordered draining go c s r sh same h inv v = elim (List-cases s.shared.queue) [
  | inl none_left ↦ ground arith
  | inr (e, rest, some_left) ↦ absurd (ground arith)
]
runner-Ordered (publishing to_select) (answer err) c s r sh same h inv v = ground arith
runner-Ordered (publishing to_drain) (answer err) c s r sh same h inv v = ground arith
runner-Ordered (publishing to_close) (answer err) c s r sh same h inv v = ground arith
runner-Ordered (counting to_select none) go c s r sh same h inv v = ground arith
runner-Ordered (counting to_select (some err)) go c s r sh same h inv v = ground arith
runner-Ordered (dropping to_select err) go c s r sh same h inv v = ground arith
runner-Ordered (releasing to_select) go c s r sh same h inv v = ground arith
runner-Ordered (counting to_drain none) go c s r sh same h inv v = ground arith
runner-Ordered (counting to_drain (some err)) go c s r sh same h inv v = ground arith
runner-Ordered (dropping to_drain err) go c s r sh same h inv v = ground arith
runner-Ordered (releasing to_drain) go c s r sh same h inv v = ground arith
runner-Ordered (counting to_close none) go c s r sh same h inv v = ground arith
runner-Ordered (counting to_close (some err)) go c s r sh same h inv v = ground arith
runner-Ordered (dropping to_close err) go c s r sh same h inv v = ground arith
runner-Ordered (releasing to_close) go c s r sh same h inv v = ground arith
runner-Ordered _ _ c s r sh same h inv v = ground arith

NeedsStop-later :
    (st : Stage) (s s' : Shared)
    → (s.stopped ≡ true → s'.stopped ≡ true)
    → NeedsStop st s
    → NeedsStop st s'
NeedsStop-later live s s' later h = tt
NeedsStop-later _ s s' later h = later h

-- `Close` goes on to a state of the flags, with the rest of the system as it was.
closer_moves :
    (at : Closer) (s : State) (sh : Shared)
    → FlagsAt at sh
    → (s.shared.stopped ≡ true → sh.stopped ≡ true)
    → sh.queue ≡ s.shared.queue
    → sh.wake ≡ s.shared.wake
    → Ends at s.runner.phase
    → Ordered s
    → Ordered (record s { closer = at; shared = sh })
closer_moves at s sh f later queue wake ends v = record {
  flags = f;
  needs_stop = NeedsStop-later (stage s.runner.phase) s.shared sh later v.needs_stop;
  barred = v.barred;
  emptied = rw queue v.emptied;
  awakes = rw wake v.awakes;
  closes = v.closes;
  ends = ends;
}

is_done_iff : (phase : Phase) → is_done phase ≡ true → phase ≡ done
is_done_iff done h = refl
is_done_iff _ h = absurd (ground arith)

close-Ordered :
    (at : Closer) (s s' : State) → s.closer ≡ at → close at s ≡ some s' → Ordered s → Ordered s'
unfolding close
close-Ordered idle s s' same h v =
    let sh = record (s.shared) { installed = false } in
    let target : record s { closer = swapped; shared = sh } ≡ s' = ground arith in
    rw (← target) (closer_moves swapped s sh (ground arith) (λ h. h) refl refl tt v)
close-Ordered swapped s s' same h v =
    let sh = record (s.shared) { accepting = false } in
    let target : record s { closer = refusing; shared = sh } ≡ s' = ground arith in
    rw (← target) (closer_moves refusing s sh (ground arith) (λ h. h) refl refl tt v)
close-Ordered refusing s s' same h v =
    let sh = record (s.shared) { stopped = true } in
    let target : record s { closer = awaiting; shared = sh } ≡ s' = ground arith in
    rw (← target) (closer_moves awaiting s sh (ground arith) (λ _. refl) refl refl tt v)
close-Ordered awaiting s s' same h v =
    let target : record s { closer = closed } ≡ s' = ground arith in
    let finished : is_done s.runner.phase ≡ true = ground arith in
    rw (← target) (
      closer_moves closed s s.shared (ground arith) (λ h. h) refl refl
        (is_done_iff s.runner.phase finished) v)
close-Ordered closed s s' same h v = absurd (ground arith)

abbrev pub Both : State → Type 0
Both s = Inv s × Ordered s

keep-Both : (c : Params) → Preserves c Both
keep-Both c = record {
  by_call = λ e s b. ((keep-Inv c).by_call e s b.0, call-Ordered e s b.1);
  by_producer = λ k s ps sh m b.
      ((keep-Inv c).by_producer k s ps sh m b.0, produce-Ordered k c s ps sh m b.1);
  by_runner = λ input s r sh h b. (
    (keep-Inv c).by_runner input s r sh h b.0,
    runner-Ordered s.runner.phase input c s r sh refl h b.0 b.1,
  );
  by_closer =
      λ s s' h b. ((keep-Inv c).by_closer s s' h b.0, close-Ordered s.closer s s' refl h b.1);
}

init-Ordered : Ordered init
unfolding init
init-Ordered = ground arith

-- The accounting and the order of shutting down hold after every schedule.
pub run-Both : (c : Params) (actions : List Action) → Both (run c actions init)
run-Both c actions = run-Preserves c Both (keep-Both c) actions init (init-Inv, init-Ordered)
