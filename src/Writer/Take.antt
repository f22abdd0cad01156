-- ===== src/Writer/Take.antt =====
-- What `run` does when it receives an event.
use trail.Prelude.{
  ◌≡◌, refl, some, List, [], ◌∷◌, ◌++◌, ◌⊎◌, inl, inr, length, ◌==◌, if◌then◌else◌, arith,
}
use trail.Event.{Event}
use trail.Writer.{Params, Shared, Resume, Phase, publishing, Runner}
use trail.Writer.Run.{take_event}

pub List-cases {ℓ} :
    {A : Type ℓ} (xs : List A) → (xs ≡ []) ⊎ ((x : A) × (rest : List A) × (xs ≡ x ∷ rest))
List-cases [] = inl refl
List-cases (x ∷ rest) = inr (x, rest, refl)

pub record Took (c : Params) (next : Resume) (stay : Phase) (r r' : Runner) (s s' : Shared)
    : Type 0 where
  pub event : Event
  pub rest : List Event
  pub source : s.queue ≡ event ∷ rest
  pub target : s' ≡ record s { queue = rest }
  pub result : r' ≡ record r {
    batch = r.batch ++ event ∷ [];
    phase = if length (r.batch ++ event ∷ []) == c.batch_size then publishing next else stay;
  }

pub take_event-Took :
    (c : Params) (next : Resume) (stay : Phase) (r r' : Runner) (s s' : Shared)
    → take_event c next stay r s ≡ some (r', s')
    → Took c next stay r r' s s'
take_event-Took c next stay r r' s s' h = elim (List-cases s.queue) [
  | inl e ↦ absurd (ground arith)
  | inr (event, rest, e) ↦ record {
    event = event;
    rest = rest;
    source = e;
    target = ground arith;
    result = ground arith;
  }
]
