-- ===== src/Writer/Send.antt =====
-- What a step of one call of `Log` does to the queue, and when.
use trail.Prelude.{◌<◌, ◌≡◌, some, [], ◌∷◌, ◌++◌, ◌⊎◌, inl, inr, length, arith}
use trail.Writer.{Params, Pc, sending, Producer, Shared}
use trail.Writer.Produce.{Choice, proceed, produce}

pub record Kept (s s' : Shared) : Type 0 where
  pub queue : s'.queue ≡ s.queue
  pub accepted : s'.accepted ≡ s.accepted

pub record Sent (c : Params) (p : Producer) (s s' : Shared) : Type 0 where
  pub from : p.pc ≡ sending
  pub room : length s.queue < c.capacity
  pub queue : s'.queue ≡ s.queue ++ p.event ∷ []
  pub accepted : s'.accepted ≡ s.accepted ++ p.event ∷ []

pub record Flags (s s' : Shared) : Type 0 where
  pub installed : s'.installed ≡ s.installed
  pub accepting : s'.accepting ≡ s.accepting
  pub stopped : s'.stopped ≡ s.stopped

-- A call sends its event, from its `select` and into a queue with room, or leaves the queue alone.
pub produce-Sent :
    (pc : Pc) (k : Choice) (c : Params) (p p' : Producer) (s s' : Shared)
    → p.pc ≡ pc
    → produce pc k c p s ≡ some (p', s')
    → Kept s s' ⊎ Sent c p s s'
unfolding produce
produce-Sent sending proceed c p p' s s' same h =
    inr (record { from = same; room = ground arith; queue = ground arith; accepted = ground arith })
produce-Sent _ _ c p p' s s' same h = inl (ground arith)

-- A call writes none of the flags that `Init` and `Close` write.
pub produce-Flags :
    (pc : Pc) (k : Choice) (c : Params) (p p' : Producer) (s s' : Shared)
    → produce pc k c p s ≡ some (p', s')
    → Flags s s'
unfolding produce
produce-Flags sending proceed c p p' s s' h = ground arith
produce-Flags _ _ c p p' s s' h = ground arith
