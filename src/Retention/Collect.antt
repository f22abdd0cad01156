-- ===== src/Retention/Collect.antt =====
-- retention/retention.go: `collectPayloads`. Its workers take the candidates of a page from one
-- channel, and add up what each gives under a lock; here they are processed in the order of the page.
use trail.Prelude.{
  ℕ, zero, suc, ◌-◌, Bool, true, false, not, ◌&&◌, ◌||◌, Option, none, some, List, [], ◌∷◌, map,
  Text, length, is_empty, ltb, min, if◌then◌else◌,
}
use trail.Retention.Archived.{has_key}
use trail.Retention.Engine.{plus64, payload_key}
use trail.Retention.Candidate.{
  Candidate, list_call, referenced_call, PayloadState, PayloadWorld, Outcome, did,
  process_candidate,
}

abbrev add_if : Bool → ℕ → ℕ
add_if true n = plus64 n 1
add_if false n = n

-- What a worker does with an outcome under the lock.
unfoldable pub add_outcome : Outcome → PayloadState → PayloadState
add_outcome o s = record s {
  result = record {
    payloads_referenced = add_if o.referenced s.result.payloads_referenced;
    payloads_orphaned = add_if o.orphaned s.result.payloads_orphaned;
    payloads_unknown = add_if o.unknown s.result.payloads_unknown;
    payloads_deleted = add_if o.deleted s.result.payloads_deleted;
    payload_bytes_reclaimed = plus64 s.result.payload_bytes_reclaimed o.bytes_reclaimed;
    errors = plus64 s.result.errors o.failures;
  };
}

-- The candidates that an archive covers.
unfoldable pub verified : List Candidate → List Candidate
verified [] = []
verified (c ∷ candidates) =
    let rest = verified candidates in if is_empty c.archive_id then rest else c ∷ rest

unfoldable pub count_one : Candidate → PayloadState → PayloadState
count_one c s =
    if is_empty c.archive_id
    then record s {
      result = record (s.result) { payloads_unknown = plus64 s.result.payloads_unknown 1 };
    }
    else s

unfoldable pub count_unknown : List Candidate → PayloadState → PayloadState
count_unknown [] s = s
count_unknown (c ∷ candidates) s = count_unknown candidates (count_one c s)

-- How the collection ends. `more` goes on with what remains; `no_fuel` is the model's own.
pub data Round : Type 0 where
  finished broken no_fuel : PayloadState → Round
  more : ℕ → PayloadState → Round

-- `return ctx.Err()` at the end of the loop
abbrev pub last_round : Bool → PayloadState → Round
last_round true s = broken s
last_round false s = finished s

-- What follows a round.
unfoldable pub follow : (ℕ → PayloadState → Round) → Round → Round
follow next (more remaining s) = next remaining s
follow next (finished s) = finished s
follow next (broken s) = broken s
follow next (no_fuel s) = no_fuel s

module _ (world : PayloadWorld) where
  -- The candidates of a page, and whether one of them failed.
  unfoldable pub process_all :
      List Text → List Candidate → Bool → PayloadState → PayloadState × Bool
  process_all live [] failed s = (s, failed)
  process_all live (c ∷ candidates) failed s =
      let processed = process_candidate world c (has_key (payload_key c.ref) live) s in
      process_all live candidates (failed || processed.1.has_error)
        (add_outcome processed.1 processed.0)

  unfoldable pub after_page : ℕ → ℕ → ℕ → PayloadState × Bool → Round
  after_page limit remaining n (s, true) = broken s
  after_page limit remaining n (s, false) =
      if ltb n limit then finished s else more (remaining - n) s

  unfoldable pub take_live : ℕ → ℕ → List Candidate → Option (List Text) → PayloadState → Round
  take_live limit remaining candidates none s = broken s
  take_live limit remaining candidates (some live) s =
      after_page limit remaining (length candidates) (process_all live candidates false s)

  unfoldable pub take_verified : ℕ → ℕ → List Candidate → PayloadState → Round
  take_verified limit remaining [] s = finished s
  take_verified limit remaining (c ∷ candidates) s =
      let refs = map (λ x. x.ref) (c ∷ candidates) in
      let answer = world.live s.trace refs in
      take_live limit remaining (c ∷ candidates) answer (did (referenced_call refs answer) s)

  unfoldable pub take_list : ℕ → ℕ → Option (List Candidate) → PayloadState → Round
  take_list limit remaining none s = broken s
  take_list limit remaining (some page) s =
      take_verified limit remaining (verified page) (count_unknown page s)

  module _ (batch : ℕ) where
    unfoldable pub round : ℕ → PayloadState → Round
    round remaining s =
        if ltb 0 remaining && not (world.stopped s.trace)
        then (let limit = min batch remaining in
            let answer = world.lists s.trace limit in
            take_list limit remaining answer (did (list_call limit answer) s))
        else last_round (world.stopped s.trace) s

    unfoldable pub collect_payloads : ℕ → ℕ → PayloadState → Round
    collect_payloads zero remaining s = no_fuel s
    collect_payloads (suc fuel) remaining s = follow (collect_payloads fuel) (round remaining s)
