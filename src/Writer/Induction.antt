-- ===== src/Writer/Induction.antt =====
-- Invariants of the whole system: a property that the four kinds of step keep holds after every
-- schedule.
use trail.Prelude.{◌≡◌, some, List, [], ◌∷◌, ◌++◌, Option-cases, inl, inr, arith}
use trail.Event.{Event}
use trail.Writer.{Params, Producer, Shared, Runner, State}
use trail.Writer.Produce.{Choice, log}
use trail.Writer.Run.{Input, run_phase}
use trail.Writer.Step.{Action, close, produce_at, step, run}
use trail.Writer.Sums.{Moved, produce_at-Moved}

pub record Preserves {ℓ} (c : Params) (P : State → Type ℓ) : Type ℓ where
  pub by_call :
      (e : Event) (s : State)
      → P s
      → P (record s { producers = s.producers ++ log e s.shared ∷ [] })
  pub by_producer :
      (k : Choice) (s : State) (ps : List Producer) (sh : Shared)
      → Moved k c s.producers ps s.shared sh
      → P s
      → P (record s { producers = ps; shared = sh })
  pub by_runner :
      (input : Input) (s : State) (r : Runner) (sh : Shared)
      → run_phase s.runner.phase input c s.runner s.shared ≡ some (r, sh)
      → P s
      → P (record s { runner = r; shared = sh })
  pub by_closer : (s s' : State) → close s.closer s ≡ some s' → P s → P s'

module _ {ℓ} (c : Params) (P : State → Type ℓ) (keep : Preserves c P) where
  step-Preserves : (a : Action) (s s' : State) → step c a s ≡ some s' → P s → P s'
  unfolding step
  step-Preserves (Action.call e) s s' h p =
      let same : record s { producers = s.producers ++ log e s.shared ∷ [] } ≡ s' = ground arith in
      rw (← same) (keep.by_call e s p)
  step-Preserves (Action.producer i k) s s' h p =
      elim (Option-cases (produce_at i k c s.producers s.shared)) [
        | inl e ↦ absurd (ground arith)
        | inr ((ps, sh), e) ↦
            let same : record s { producers = ps; shared = sh } ≡ s' = ground arith in
            rw (← same)
              (keep.by_producer k s ps sh (produce_at-Moved i k c s.producers ps s.shared sh e) p)
      ]
  step-Preserves (Action.runner input) s s' h p =
      elim (Option-cases (run_phase s.runner.phase input c s.runner s.shared)) [
        | inl e ↦ absurd (ground arith)
        | inr ((r, sh), e) ↦
            let same : record s { runner = r; shared = sh } ≡ s' = ground arith in
            rw (← same) (keep.by_runner input s r sh e p)
      ]
  step-Preserves Action.closer s s' h p = keep.by_closer s s' h p

  pub run-Preserves : (actions : List Action) (s : State) → P s → P (run c actions s)
  unfolding run
  run-Preserves [] s p = p
  run-Preserves (a ∷ actions) s p = elim (Option-cases (step c a s)) [
    | inl e ↦ rw (e, run) (run-Preserves actions s p)
    | inr (s', e) ↦ rw (e, run) (run-Preserves actions s' (step-Preserves a s s' e p))
  ]
