-- ===== src/Writer/Delivery.antt =====
-- Order and bounds: the sink is given the accepted events, in order, in batches of bounded size.
use trail.Prelude.{
  ◌≡◌, refl, ap, ◌∙◌, none, some, List, [], ◌∷◌, ◌++◌, append_assoc, append-nil, arith, inl, inr,
}
use trail.Event.{Event}
use trail.Writer.{
  Params, Producer, Shared, State, Phase, selecting, publishing, counting, dropping, releasing,
  draining, Runner, Closer, idle, Resume, to_select, to_drain, to_close,
}
use trail.Writer.Produce.{Choice}
use trail.Writer.Run.{Input, run_phase, receive, go, answer}
use trail.Writer.Step.{Action, init, close, run}
use trail.Writer.Take.{Took, take_event-Took}
use trail.Writer.Sums.{Moved}
use trail.Writer.Send.{produce-Sent}
use trail.Writer.Induction.{Preserves, run-Preserves}

abbrev pub concat {ℓ} : {A : Type ℓ} → List (List A) → List A
concat [] = []
concat (xs ∷ xss) = xs ++ concat xss

concat-snoc {ℓ} :
    {A : Type ℓ} (xss : List (List A)) (xs : List A) → concat (xss ++ xs ∷ []) ≡ concat xss ++ xs
concat-snoc [] xs = append-nil xs
concat-snoc (ys ∷ xss) xs = simp (concat-snoc xss xs, append_assoc)

append_last {ℓ} :
    {A : Type ℓ} (xs ys zs : List A) (a : A)
    → xs ++ (ys ++ (zs ++ a ∷ [])) ≡ (xs ++ (ys ++ zs)) ++ a ∷ []
append_last xs ys zs a = simp append_assoc

-- the events of `batch` that the sink has not been given
abbrev pub undelivered : Phase → List Event → List Event
undelivered (counting next err) batch = []
undelivered (dropping next err) batch = []
undelivered (releasing next) batch = []
undelivered _ batch = batch

-- What the sink was given, then what `run` holds, then the queue, are the accepted events in order.
abbrev pub InOrder : State → Type 0
InOrder s =
    concat s.runner.delivered ++ (undelivered s.runner.phase s.runner.batch ++ s.shared.queue)
    ≡ s.shared.accepted

produce-InOrder :
    (k : Choice) (c : Params) (s : State) (ps : List Producer) (sh : Shared)
    → Moved k c s.producers ps s.shared sh
    → InOrder s
    → InOrder (record s { producers = ps; shared = sh })
produce-InOrder k c s ps sh m v =
    elim (produce-Sent m.before.pc k c m.before m.after s.shared sh refl m.local) [
      | inl kept ↦ rw (kept.queue, kept.accepted) v
      | inr sent ↦
          rw (sent.queue, sent.accepted)
            (append_last (concat s.runner.delivered) (undelivered s.runner.phase s.runner.batch)
                s.shared.queue m.before.event
              ∙ ap (λ events. events ++ m.before.event ∷ []) v)
    ]

Took-InOrder :
    (c : Params) (next : Resume) (stay : Phase) (s : State) (r : Runner) (sh : Shared)
    → ((batch : List Event) → undelivered s.runner.phase batch ≡ batch)
    → ((batch : List Event) → undelivered stay batch ≡ batch)
    → Took c next stay s.runner r s.shared sh
    → InOrder s
    → InOrder (record s { runner = r; shared = sh })
Took-InOrder c next stay s r sh now later t v = ground (
  arith,
  t.source,
  t.target,
  t.result,
  now s.runner.batch,
  later (s.runner.batch ++ t.event ∷ []),
  append_assoc s.runner.batch (t.event ∷ []) t.rest,
)

runner-InOrder :
    (phase : Phase) (input : Input) (c : Params) (s : State) (r : Runner) (sh : Shared)
    → s.runner.phase ≡ phase
    → run_phase phase input c s.runner s.shared ≡ some (r, sh)
    → InOrder s
    → InOrder (record s { runner = r; shared = sh })
unfolding run_phase
runner-InOrder selecting receive c s r sh same h v =
    Took-InOrder c to_select selecting s r sh (λ batch. rw same) (λ batch. refl)
      (take_event-Took c to_select selecting s.runner r s.shared sh h) v
runner-InOrder draining receive c s r sh same h v =
    Took-InOrder c to_drain draining s r sh (λ batch. rw same) (λ batch. refl)
      (take_event-Took c to_drain draining s.runner r s.shared sh h) v
runner-InOrder (publishing next) (answer err) c s r sh same h v = ground (
  arith,
  concat-snoc s.runner.delivered s.runner.batch,
  append_assoc (concat s.runner.delivered) s.runner.batch s.shared.queue,
)
runner-InOrder (releasing to_select) go c s r sh same h v = ground arith
runner-InOrder (releasing to_drain) go c s r sh same h v = ground arith
runner-InOrder (releasing to_close) go c s r sh same h v = ground arith
runner-InOrder (counting next none) go c s r sh same h v = ground arith
runner-InOrder (counting next (some err)) go c s r sh same h v = ground arith
runner-InOrder _ _ c s r sh same h v = ground arith

close-InOrder : (at : Closer) (s s' : State) → close at s ≡ some s' → InOrder s → InOrder s'
unfolding close
close-InOrder idle s s' h v = ground arith
close-InOrder _ s s' h v = ground arith

keep-InOrder : (c : Params) → Preserves c InOrder
keep-InOrder c = record {
  by_call = λ e s v. v;
  by_producer = λ k. produce-InOrder k c;
  by_runner = λ input s r sh. runner-InOrder s.runner.phase input c s r sh refl;
  by_closer = λ s. close-InOrder s.closer s;
}

init-InOrder : InOrder init
unfolding init
init-InOrder = refl

-- After every schedule the batches given to the sink, then the batch that run holds, then the
-- queue are together the accepted events in the order of acceptance: none is lost, delivered twice
-- or reordered.
pub run-InOrder : (c : Params) (actions : List Action) → InOrder (run c actions init)
run-InOrder c actions = run-Preserves c InOrder (keep-InOrder c) actions init init-InOrder
