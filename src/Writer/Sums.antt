-- ===== src/Writer/Sums.antt =====
-- Counting the calls of `Log` by where they stand, and what a step of one call does to a count.
use trail.Prelude.{
  ℕ, zero, suc, ◌+◌, ◌≤◌, ◌≡◌, refl, ap, some, List, [], ◌∷◌, ◌++◌, length, arith, Option-cases,
  inl, inr,
}
use trail.Writer.{Params, Pc, Producer, Shared}
use trail.Writer.Produce.{Choice, produce}
use trail.Writer.Step.{produce_at}

-- the sum of `weight` over the calls
abbrev pub total : (Pc → ℕ) → List Producer → ℕ
total weight [] = 0
total weight (p ∷ ps) = weight p.pc + total weight ps

pub total-snoc :
    (weight : Pc → ℕ) (ps : List Producer) (p : Producer)
    → total weight (ps ++ p ∷ []) ≡ total weight ps + weight p.pc
total-snoc weight [] p = omega arith
total-snoc weight (q ∷ ps) p = omega (arith, total-snoc weight ps p)

pub total_mono :
    (f g : Pc → ℕ) (ps : List Producer) → ((pc : Pc) → f pc ≤ g pc) → total f ps ≤ total g ps
total_mono f g [] h = omega arith
total_mono f g (p ∷ ps) h = omega (arith, h p.pc, total_mono f g ps h)

-- One call of the list has made its step, and the others stand where they stood.
pub record Moved (k : Choice) (c : Params) (ps ps' : List Producer) (s s' : Shared) : Type 0 where
  pub before : Producer
  pub after : Producer
  pub local : produce before.pc k c before s ≡ some (after, s')
  pub totals : (f : Pc → ℕ) → total f ps' + f before.pc ≡ total f ps + f after.pc
  pub member : (f : Pc → ℕ) → f before.pc ≤ total f ps
  pub same_length : length ps' ≡ length ps

Moved-head :
    {k : Choice} {c : Params} {p q : Producer} {s t : Shared} (ps : List Producer)
    → produce p.pc k c p s ≡ some (q, t)
    → Moved k c (p ∷ ps) (q ∷ ps) s t
Moved-head {p = p} {q = q} ps h = record {
  before = p;
  after = q;
  local = h;
  totals = λ f. omega arith;
  member = λ f. omega arith;
  same_length = refl;
}

Moved-tail :
    {k : Choice} {c : Params} {ps qs : List Producer} {s t : Shared} (p : Producer)
    → Moved k c ps qs s t
    → Moved k c (p ∷ ps) (p ∷ qs) s t
Moved-tail p m = record {
  before = m.before;
  after = m.after;
  local = m.local;
  totals = λ f. omega (arith, m.totals f);
  member = λ f. omega (arith, m.member f);
  same_length = ap suc m.same_length;
}

pub produce_at-Moved :
    (i : ℕ) (k : Choice) (c : Params) (ps ps' : List Producer) (s s' : Shared)
    → produce_at i k c ps s ≡ some (ps', s')
    → Moved k c ps ps' s s'
unfolding produce_at
produce_at-Moved i k c [] ps' s s' h = absurd (ground arith)
produce_at-Moved zero k c (p ∷ ps) ps' s s' h = elim (Option-cases (produce p.pc k c p s)) [
  | inl e ↦ absurd (ground arith)
  | inr ((q, t), e) ↦
      let same_list : q ∷ ps ≡ ps' = ground arith in
      let same_shared : t ≡ s' = ground arith in rw (← same_list, ← same_shared) (Moved-head ps e)
]
produce_at-Moved (suc i) k c (p ∷ ps) ps' s s' h = elim (Option-cases (produce_at i k c ps s)) [
  | inl e ↦ absurd (ground arith)
  | inr ((qs, t), e) ↦
      let same_list : p ∷ qs ≡ ps' = ground arith in
      let same_shared : t ≡ s' = ground arith in
      rw (← same_list, ← same_shared) (Moved-tail p (produce_at-Moved i k c ps qs s t e))
]
