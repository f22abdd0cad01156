-- ===== src/Writer/Shutdown/Close.antt =====
-- What holds when `Close` returns, and while `run` waits for the producers.
use trail.Prelude.{
  ◌+◌, ◌%◌, ◌^◌, ◌≤◌, ◌<◌, ◌≡◌, refl, sym, ◌∙◌, true, List, [], ◌∷◌, length, ◌⊎◌, arith, append-nil,
}
use trail.Writer.{Params, Pc, sending, State, parked, done, closed}
use trail.Writer.Step.{Action, init, run}
use trail.Writer.Sums.{total, total_mono}
use trail.Writer.Accounting.{unsettled, charged, Inv}
use trail.Writer.Delivery.{concat, InOrder, run-InOrder}
use trail.Writer.Bounds.{Bounded, run-Bounded}
use trail.Writer.Shutdown.{Ordered, signalling, busy}
use trail.Writer.Shutdown.Preserve.{run-Both}

length-zero {ℓ} : {A : Type ℓ} (xs : List A) → length xs ≡ 0 → xs ≡ []
length-zero [] h = refl
length-zero (x ∷ xs) h = absurd (omega arith)

charged-le-busy : (pc : Pc) → charged pc ≤ busy pc
charged-le-busy sending = omega arith
charged-le-busy _ = omega arith

-- What the end of a shutdown has settled.
pub record Settled (s : State) : Type 0 where
  pub queue : s.shared.queue ≡ []
  pub batch : length s.runner.batch ≡ 0
  pub order : concat s.runner.delivered ≡ s.shared.accepted
  pub sink_closed : s.runner.sink_closes ≡ 1
  pub gauge : s.shared.counters.buffered % 2 ^ 64 ≡ 0
  pub counted :
      (s.shared.counters.written + s.shared.counters.dropped + total unsettled s.producers) % 2 ^ 64
      ≡ length s.producers % 2 ^ 64

done-Settled :
    (c : Params) (s : State)
    → Inv s
    → Ordered s
    → InOrder s
    → Bounded c s
    → s.runner.phase ≡ done
    → Settled s
done-Settled c s inv v order bounded h =
    let empty : s.shared.queue ≡ [] = ground (arith, v.emptied) in
    let zero_batch : length s.runner.batch ≡ 0 = ground (arith, bounded.batch) in
    let no_batch : s.runner.batch ≡ [] = length-zero s.runner.batch zero_batch in
    let idle : total busy s.producers ≡ 0 = ground (arith, v.barred) in
    record {
      queue = empty;
      batch = zero_batch;
      order = sym (append-nil (concat s.runner.delivered)) ∙ ground (arith, order, no_batch, empty);
      sink_closed = ground (arith, v.closes);
      gauge = ground (
        arith,
        inv.gauge,
        zero_batch,
        empty,
        total_mono charged busy s.producers charged-le-busy,
      );
      counted = ground (arith, inv.settled, empty, zero_batch);
    }

pub closed-done :
    (c : Params) (actions : List Action)
    → (run c actions init).closer ≡ closed
    → (run c actions init).runner.phase ≡ done
closed-done c actions h = let (inv, v) = run-Both c actions in ground (arith, v.ends)

-- Once Close has returned, after any schedule of the calls of Log, of run and of Close, with a
-- batch size of at least one: the queue and the batch are empty, the sink was given exactly the
-- accepted events in their order, it was closed once, the gauge of buffered events is zero modulo
-- 2 ^ 64, and written plus dropped counts, modulo 2 ^ 64, every call of Log but those that have
-- not yet finished counting.
pub closed-Settled :
    (c : Params) (actions : List Action)
    → 0 < c.batch_size
    → (run c actions init).closer ≡ closed
    → Settled (run c actions init)
closed-Settled c actions one h =
    let (inv, v) = run-Both c actions in
    done-Settled c (run c actions init) inv v (run-InOrder c actions) (run-Bounded c actions one)
      (ground (arith, v.ends))

-- After every schedule that leaves run asleep in waitForProducers, a token lies in the wake
-- channel or some call of Log has still to send one: no wake-up is lost.
pub parked_wakes :
    (c : Params) (actions : List Action)
    → (run c actions init).runner.phase ≡ parked
    → ((run c actions init).shared.wake ≡ true)
      ⊎ (0 < total signalling (run c actions init).producers)
parked_wakes c actions h = let (inv, v) = run-Both c actions in ground (arith, v.awakes)
