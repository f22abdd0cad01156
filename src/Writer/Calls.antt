-- ===== src/Writer/Calls.antt =====
-- The order of the calls of the sink: the batches, and its Close after the last of them.
use trail.Prelude.{◌+◌, ◌≡◌, refl, sym, ap, ◌∙◌, none, some, List, [], ◌∷◌, ◌++◌, append-nil, arith}
use mathlib.Core.Path.{subst}
use trail.Event.{Event}
use trail.Writer.{
  Params, Shared, State, SinkCall, deliver, sink_close, Phase, selecting, publishing, counting,
  releasing, draining, closing, done, Runner, Closer, idle, Resume, to_select, to_drain, to_close,
}
use trail.Writer.Run.{Input, run_phase, receive, go, answer, keep_error}
use trail.Writer.Step.{Action, init, close, run}
use trail.Writer.Take.{Took, take_event-Took}
use trail.Writer.Induction.{Preserves, run-Preserves}

-- The calls that deliver these batches.
abbrev pub deliveries : List (List Event) → List SinkCall
deliveries [] = []
deliveries (batch ∷ batches) = deliver batch ∷ deliveries batches

-- The sink is closed once `run` is done.
abbrev pub last_calls : Phase → List SinkCall
last_calls done = sink_close ∷ []
last_calls _ = []

abbrev pub Sequenced : Runner → Type 0
Sequenced r = r.calls ≡ deliveries r.delivered ++ last_calls r.phase

deliveries-snoc :
    (batches : List (List Event)) (batch : List Event)
    → deliveries (batches ++ batch ∷ []) ≡ deliveries batches ++ deliver batch ∷ []
deliveries-snoc [] batch = refl
deliveries-snoc (b ∷ batches) batch =
    ap (λ calls. deliver b ∷ calls) (deliveries-snoc batches batch)

calls_before :
    (r : Runner) → last_calls r.phase ≡ [] → Sequenced r → r.calls ≡ deliveries r.delivered
calls_before r none_last v =
    v
    ∙ (ap (λ calls. deliveries r.delivered ++ calls) none_last
        ∙ append-nil (deliveries r.delivered))

Took-Sequenced :
    (c : Params) (next : Resume) (stay : Phase) (r r' : Runner) (s sh : Shared)
    → last_calls r.phase ≡ []
    → last_calls stay ≡ []
    → Took c next stay r r' s sh
    → Sequenced r
    → Sequenced r'
Took-Sequenced c next stay r r' s sh now later t v = ground (arith, t.result, now, later, v)

runner-Sequenced :
    (phase : Phase) (input : Input) (c : Params) (r r' : Runner) (s sh : Shared)
    → r.phase ≡ phase
    → run_phase phase input c r s ≡ some (r', sh)
    → Sequenced r
    → Sequenced r'
unfolding run_phase
runner-Sequenced (publishing next) (answer err) c r r' s sh same h v =
    let result : record r {
      delivered = r.delivered ++ r.batch ∷ [];
      calls = r.calls ++ deliver (r.batch) ∷ [];
      phase = counting next err;
    }
        ≡ r' =
      ground arith in
    subst Sequenced result (
      ap (λ calls. calls ++ deliver (r.batch) ∷ []) (calls_before r (ap last_calls same) v)
      ∙ (sym (deliveries-snoc r.delivered r.batch) ∙ sym (append-nil _)))
runner-Sequenced closing (answer err) c r r' s sh same h v =
    let result : record r {
      phase = done;
      close_err = keep_error err r.close_err;
      sink_closes = r.sink_closes + 1;
      calls = r.calls ++ sink_close ∷ [];
    }
        ≡ r' =
      ground arith in
    subst Sequenced result
      (ap (λ calls. calls ++ sink_close ∷ []) (calls_before r (ap last_calls same) v))
runner-Sequenced selecting receive c r r' s sh same h v =
    Took-Sequenced c to_select selecting r r' s sh (ap last_calls same) refl
      (take_event-Took c to_select selecting r r' s sh h) v
runner-Sequenced draining receive c r r' s sh same h v =
    Took-Sequenced c to_drain draining r r' s sh (ap last_calls same) refl
      (take_event-Took c to_drain draining r r' s sh h) v
runner-Sequenced (releasing to_select) go c r r' s sh same h v = ground arith
runner-Sequenced (releasing to_drain) go c r r' s sh same h v = ground arith
runner-Sequenced (releasing to_close) go c r r' s sh same h v = ground arith
runner-Sequenced (counting next none) go c r r' s sh same h v = ground arith
runner-Sequenced (counting next (some err)) go c r r' s sh same h v = ground arith
runner-Sequenced _ _ c r r' s sh same h v = ground arith

close-Sequenced :
    (at : Closer) (s s' : State) → close at s ≡ some s' → Sequenced s.runner → Sequenced s'.runner
unfolding close
close-Sequenced idle s s' h v = ground arith
close-Sequenced _ s s' h v = ground arith

keep-Sequenced : (c : Params) → Preserves c (λ s. Sequenced s.runner)
keep-Sequenced c = record {
  by_call = λ e s v. v;
  by_producer = λ k s ps sh m v. v;
  by_runner =
      λ input s r sh h v. runner-Sequenced s.runner.phase input c s.runner r s.shared sh refl h v;
  by_closer = λ s s' h v. close-Sequenced s.closer s s' h v;
}

init-Sequenced : Sequenced init.runner
unfolding init
init-Sequenced = refl

-- The sink is called with the batches in their order, and its Close is the last call.
pub run-Sequenced : (c : Params) (actions : List Action) → Sequenced (run c actions init).runner
run-Sequenced c actions =
    run-Preserves c (λ s. Sequenced s.runner) (keep-Sequenced c) actions init init-Sequenced
