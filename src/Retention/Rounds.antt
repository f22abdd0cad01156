-- ===== src/Retention/Rounds.antt =====
-- The loop of `collectPayloads` ends.
use trail.Prelude.{
  ℕ, zero, suc, ◌<◌, min, Bool, true, false, not, ◌&&◌, Option, none, some, List, [], ◌∷◌, Text,
  ltb, Bool-cases, inl, inr, arith,
}
use trail.Retention.Candidate.{Candidate, PayloadState, PayloadWorld}
use trail.Retention.Collect.{
  last_round, follow, Round, finished, broken, more, no_fuel, after_page, take_live, take_verified,
  take_list, round, collect_payloads,
}

-- The collection is over: without an error, or with one.
abbrev pub IsOver : Round → Type 0
IsOver (finished s) = Unit
IsOver (broken s) = Unit
IsOver (no_fuel s) = ⊥
IsOver (more remaining s) = ⊥

-- A round is over, or leaves less than before.
abbrev Shrinks : ℕ → Round → Type 0
Shrinks n (finished s) = Unit
Shrinks n (broken s) = Unit
Shrinks n (no_fuel s) = ⊥
Shrinks n (more remaining s) = remaining < n

module _ (world : PayloadWorld) where
  after_page-Shrinks :
      (most remaining n : ℕ) (r : PayloadState × Bool)
      → 0 < most
      → 0 < remaining
      → Shrinks remaining (after_page world most remaining n r)
  unfolding after_page
  after_page-Shrinks most remaining n (s, true) some_limit some_left = tt
  after_page-Shrinks most remaining n (s, false) some_limit some_left =
      elim (Bool-cases (ltb n most)) [
        | inl short ↦ rw short tt
        | inr full ↦ rw full (ground (arith, full))
      ]

  take_live-Shrinks :
      (most remaining : ℕ) (candidates : List Candidate) (answer : Option (List Text))
      (s : PayloadState)
      → 0 < most
      → 0 < remaining
      → Shrinks remaining (take_live world most remaining candidates answer s)
  unfolding take_live
  take_live-Shrinks most remaining candidates none s some_limit some_left = tt
  take_live-Shrinks most remaining candidates (some live) s some_limit some_left =
      after_page-Shrinks most remaining _ _ some_limit some_left

  take_verified-Shrinks :
      (most remaining : ℕ) (candidates : List Candidate) (s : PayloadState)
      → 0 < most
      → 0 < remaining
      → Shrinks remaining (take_verified world most remaining candidates s)
  unfolding take_verified
  take_verified-Shrinks most remaining [] s some_limit some_left = tt
  take_verified-Shrinks most remaining (c ∷ candidates) s some_limit some_left =
      take_live-Shrinks most remaining (c ∷ candidates) _ _ some_limit some_left

  take_list-Shrinks :
      (most remaining : ℕ) (answer : Option (List Candidate)) (s : PayloadState)
      → 0 < most
      → 0 < remaining
      → Shrinks remaining (take_list world most remaining answer s)
  unfolding take_list
  take_list-Shrinks most remaining none s some_limit some_left = tt
  take_list-Shrinks most remaining (some page) s some_limit some_left =
      take_verified-Shrinks most remaining _ _ some_limit some_left

  last_round-Shrinks : (n : ℕ) (b : Bool) (s : PayloadState) → Shrinks n (last_round b s)
  last_round-Shrinks n true s = tt
  last_round-Shrinks n false s = tt

  module _ (batch : ℕ) where
    round-Shrinks :
        (remaining : ℕ) (s : PayloadState)
        → 0 < batch
        → Shrinks remaining (round world batch remaining s)
    unfolding round
    round-Shrinks remaining s some_batch =
        elim (Bool-cases (ltb 0 remaining && not (world.stopped s.trace))) [
          | inl on ↦
              rw on (
                take_list-Shrinks (min batch remaining) remaining _ _ (ground arith) (ground arith))
          | inr stop ↦ rw stop (last_round-Shrinks remaining (world.stopped s.trace) s)
        ]

    follow-IsOver :
        (next : ℕ → PayloadState → Round) (n : ℕ) (r : Round)
        → ((remaining : ℕ) (s : PayloadState) → remaining < n → IsOver (next remaining s))
        → Shrinks n r
        → IsOver (follow next r)
    unfolding follow
    follow-IsOver next n (finished s) go h = tt
    follow-IsOver next n (broken s) go h = tt
    follow-IsOver next n (no_fuel s) go h = h
    follow-IsOver next n (more remaining s) go h = go remaining s h

    -- With a positive batch size and more rounds than payloads remain, collectPayloads ends by
    -- itself, however the stores answer.
    pub collect_payloads-IsOver :
        (fuel remaining : ℕ) (s : PayloadState)
        → 0 < batch
        → remaining < fuel
        → IsOver (collect_payloads world batch fuel remaining s)
    unfolding collect_payloads
    collect_payloads-IsOver zero remaining s some_batch enough = absurd (omega arith)
    collect_payloads-IsOver (suc fuel) remaining s some_batch enough =
        follow-IsOver (collect_payloads world batch fuel) remaining _
          (λ less s' lt.
            collect_payloads-IsOver fuel less s' some_batch (omega (arith, lt, enough)))
          (round-Shrinks remaining s some_batch)
