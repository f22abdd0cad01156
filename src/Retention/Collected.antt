-- ===== src/Retention/Collected.antt =====
-- Which payload objects `collectPayloads` deletes, and how many candidates it takes.
use trail.Prelude.{
  ℕ, zero, suc, ◌≡◌, refl, ◌∙◌, sym, ◌&&◌, inl, inr, Bool, true, false, not, Option, none, some,
  List, [], ◌∷◌, Text, is_empty, All, ltb, Bool-cases, arith,
}
use mathlib.Core.Path.{subst}
use trail.Payload.{Ref}
use trail.Retention.Archived.{has_key}
use trail.Retention.Engine.{payload_key}
use trail.Retention.Candidate.{
  Candidate, PayloadAction, list_call, referenced_call, complete_call, object_delete_call,
  PayloadState, PayloadWorld, DeleteAnswer, removed, not_found, delete_failed, did,
  valid_content_addressed_ref, after_delete, delete_object, process_candidate,
}
use trail.Retention.Collect.{
  add_outcome, verified, count_one, count_unknown, last_round, follow, Round, finished, broken,
  more, no_fuel, process_all, after_page, take_live, take_verified, take_list, round,
  collect_payloads,
}

-- What the last question for references said.
abbrev pub latest : List PayloadAction → Option (List Text)
latest [] = none
latest (referenced_call _ live ∷ earlier) = live
latest (list_call _ _ ∷ earlier) = latest earlier
latest (complete_call _ _ _ ∷ earlier) = latest earlier
latest (object_delete_call _ _ ∷ earlier) = latest earlier

abbrev pub Absent : Text → Option (List Text) → Type 0
Absent key none = ⊥
Absent key (some live) = has_key key live ≡ false

-- A deleted object was archived, has a content address, and was not referenced when last asked.
abbrev pub Permitted : PayloadAction → List PayloadAction → Type 0
Permitted (object_delete_call c _) earlier =
    (is_empty c.archive_id ≡ false)
    × ((valid_content_addressed_ref c.ref ≡ true) × Absent (payload_key c.ref) (latest earlier))
Permitted _ earlier = Unit

abbrev pub Careful : List PayloadAction → Type 0
Careful [] = Unit
Careful (a ∷ earlier) = Permitted a earlier × Careful earlier

abbrev IsVerified : Candidate → Type 0
IsVerified c = is_empty c.archive_id ≡ false

verified-IsVerified : (page : List Candidate) → All IsVerified (verified page)
unfolding verified
verified-IsVerified [] = tt
verified-IsVerified (c ∷ page) = elim (Bool-cases (is_empty c.archive_id)) [
  | inl empty ↦ rw empty (verified-IsVerified page)
  | inr set ↦ rw set (set, verified-IsVerified page)
]

-- Careful so far, under the given answer for references.
abbrev Ready : List Text → PayloadState → Type 0
Ready live s = Careful s.trace × (latest s.trace ≡ some live)

trace-count_one : (c : Candidate) (s : PayloadState) → (count_one c s).trace ≡ s.trace
unfolding count_one
trace-count_one c s = ground arith

trace-count_unknown :
    (page : List Candidate) (s : PayloadState) → (count_unknown page s).trace ≡ s.trace
unfolding count_unknown
trace-count_unknown [] s = refl
trace-count_unknown (c ∷ page) s = trace-count_unknown page (count_one c s) ∙ trace-count_one c s

module _ (world : PayloadWorld) where
  after_delete-Ready :
      (live : List Text) (c : Candidate) (answer : DeleteAnswer) (s : PayloadState)
      → Ready live s
      → Ready live (after_delete world c answer s).0
  unfolding after_delete
  after_delete-Ready live c removed s h = ((tt, h.0), h.1)
  after_delete-Ready live c not_found s h = ((tt, h.0), h.1)
  after_delete-Ready live c (delete_failed text) s h = ((tt, h.0), h.1)

  delete_object-Ready :
      (live : List Text) (c : Candidate) (s : PayloadState)
      → IsVerified c
      → valid_content_addressed_ref c.ref ≡ true
      → has_key (payload_key c.ref) live ≡ false
      → Ready live s
      → Ready live (delete_object world c s).0
  unfolding delete_object
  delete_object-Ready live c s archived valid absent h =
      after_delete-Ready live c _ _
        (((archived, (valid, subst (Absent (payload_key c.ref)) (sym h.1) absent)), h.0), h.1)

  process_candidate-Ready :
      (live : List Text) (c : Candidate) (s : PayloadState)
      → IsVerified c
      → Ready live s
      → Ready live (process_candidate world c (has_key (payload_key c.ref) live) s).0
  unfolding process_candidate
  process_candidate-Ready live c s archived h =
      elim (Bool-cases (has_key (payload_key c.ref) live)) [
        | inl there ↦ rw there ((tt, h.0), h.1)
        | inr absent ↦ rw absent (elim (Bool-cases (world.has_store c.ref.store)) [
          | inr missing ↦ rw missing ((tt, h.0), h.1)
          | inl store ↦ rw store (elim (Bool-cases (valid_content_addressed_ref c.ref)) [
            | inr invalid ↦ rw invalid ((tt, h.0), h.1)
            | inl valid ↦ rw valid (delete_object-Ready live c s archived valid absent h)
          ])
        ])
      ]

  process_all-Ready :
      (live : List Text) (candidates : List Candidate) (failed : Bool) (s : PayloadState)
      → All IsVerified candidates
      → Ready live s
      → Ready live (process_all world live candidates failed s).0
  unfolding process_all add_outcome
  process_all-Ready live [] failed s archived h = h
  process_all-Ready live (c ∷ candidates) failed s archived h =
      process_all-Ready live candidates _ _ archived.1
        (process_candidate-Ready live c s archived.0 h)

  abbrev Holds : Round → Type 0
  Holds (finished s) = Careful s.trace
  Holds (broken s) = Careful s.trace
  Holds (no_fuel s) = Careful s.trace
  Holds (more remaining s) = Careful s.trace

  after_page-Holds :
      (limit remaining n : ℕ) (s : PayloadState) (failed : Bool)
      → Careful s.trace
      → Holds (after_page world limit remaining n (s, failed))
  unfolding after_page
  after_page-Holds limit remaining n s true h = h
  after_page-Holds limit remaining n s false h = elim (Bool-cases (ltb n limit)) [
    | inl short ↦ rw short h
    | inr full ↦ rw full h
  ]

  take_live-Holds :
      (limit remaining : ℕ) (candidates : List Candidate) (refs : List Ref)
      (answer : Option (List Text)) (s : PayloadState)
      → All IsVerified candidates
      → Careful s.trace
      → Holds
          (take_live world limit remaining candidates answer (did (referenced_call refs answer) s))
  unfolding take_live
  take_live-Holds limit remaining candidates refs none s archived h = (tt, h)
  take_live-Holds limit remaining candidates refs (some live) s archived h =
      after_page-Holds limit remaining _ _ _
        (process_all-Ready live candidates false _ archived ((tt, h), refl)).0

  take_verified-Holds :
      (limit remaining : ℕ) (candidates : List Candidate) (s : PayloadState)
      → All IsVerified candidates
      → Careful s.trace
      → Holds (take_verified world limit remaining candidates s)
  unfolding take_verified
  take_verified-Holds limit remaining [] s archived h = h
  take_verified-Holds limit remaining (c ∷ candidates) s archived h =
      take_live-Holds limit remaining (c ∷ candidates) _ _ s archived h

  take_list-Holds :
      (limit remaining : ℕ) (answer : Option (List Candidate)) (s : PayloadState)
      → Careful s.trace
      → Holds (take_list world limit remaining answer s)
  unfolding take_list
  take_list-Holds limit remaining none s h = h
  take_list-Holds limit remaining (some page) s h =
      take_verified-Holds limit remaining (verified page) _ (verified-IsVerified page)
        (subst Careful (sym (trace-count_unknown page s)) h)

  last_round-Holds : (b : Bool) (s : PayloadState) → Careful s.trace → Holds (last_round b s)
  last_round-Holds true s h = h
  last_round-Holds false s h = h

  module _ (batch : ℕ) where
    round-Holds :
        (remaining : ℕ) (s : PayloadState) → Careful s.trace → Holds (round world batch remaining s)
    unfolding round
    round-Holds remaining s h = elim (Bool-cases (ltb 0 remaining && not (world.stopped s.trace))) [
      | inl on ↦ rw on (take_list-Holds _ remaining _ _ (tt, h))
      | inr stop ↦ rw stop (last_round-Holds (world.stopped s.trace) s h)
    ]

    abbrev pub final : Round → PayloadState
    final (finished s) = s
    final (broken s) = s
    final (no_fuel s) = s
    final (more remaining s) = s

    follow-Careful :
        (next : ℕ → PayloadState → Round) (r : Round)
        → ((remaining : ℕ) (s : PayloadState)
            → Careful s.trace
            → Careful (final (next remaining s)).trace)
        → Holds r
        → Careful (final (follow next r)).trace
    unfolding follow
    follow-Careful next (finished s) go h = h
    follow-Careful next (broken s) go h = h
    follow-Careful next (no_fuel s) go h = h
    follow-Careful next (more remaining s) go h = go remaining s h

    -- However the store and the payload stores answer, from a trace that is so, every payload
    -- object that collectPayloads deletes belongs to a candidate with an archive, has a valid
    -- content address, and was not among the referenced payloads when the store was last asked.
    pub collect_payloads-Careful :
        (fuel remaining : ℕ) (s : PayloadState)
        → Careful s.trace
        → Careful (final (collect_payloads world batch fuel remaining s)).trace
    unfolding collect_payloads
    collect_payloads-Careful zero remaining s h = h
    collect_payloads-Careful (suc fuel) remaining s h =
        follow-Careful (collect_payloads world batch fuel) _ (collect_payloads-Careful fuel)
          (round-Holds remaining s h)
