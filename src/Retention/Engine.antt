-- ===== src/Retention/Engine.antt =====
-- retention/retention.go: `Run` up to the collection of payloads.
use trail.Prelude.{
  ℕ, ◌+◌, ◌%◌, ◌^◌, Bool, true, false, not, Option, none, some, List, [], ◌∷◌, ◌++◌, Text, text_eq,
  length, if◌then◌else◌,
}
use trail.Prelude.Int.{◌+ℤ◌, ltb_ℤ, to_bits64}
use trail.Payload.{Time, zero_time, Ref}
use trail.Storage.{EventRecord}
use trail.Archive.{PayloadEntry, Receipt}
use trail.Retention.{
  Config, Payload, Event, DeleteRequest, DeleteResult, Result, Action, load_call, archive_call,
  record_call, delete_call, World,
}
use trail.Retention.Policy.{event_expiry, payload_expiry, is_positive}
use trail.Retention.Archived.{same_archive_events, add_key}

abbrev pub plus64 : ℕ → ℕ → ℕ
plus64 a b = (a + b) % 2 ^ 64

-- `payloadKey`
abbrev pub payload_key : Ref → Text
payload_key r = r.store ++ (0 ∷ r.key)

-- `times[key]`: the zero time where there is none.
unfoldable pub time_of : Text → List (Text × Time) → Time
time_of key [] = zero_time
time_of key (entry ∷ times) =
    let rest = time_of key times in if text_eq key entry.0 then entry.1 else rest

unfoldable pub set_time : Text → Time → List (Text × Time) → List (Text × Time)
set_time key at [] = (key, at) ∷ []
set_time key at (entry ∷ times) =
    let rest = set_time key at times in
    if text_eq key entry.0 then (key, at) ∷ times else entry ∷ rest

-- The body of the loop over the payloads of an eligible event.
unfoldable pub keep_latest : Text → Option Time → List (Text × Time) → List (Text × Time)
keep_latest key none times = times
keep_latest key (some at) times =
    if ltb_ℤ (time_of key times) at then set_time key at times else times

unfoldable pub payload_times :
    Config → Event → List Payload → List (Text × Time) → List (Text × Time)
payload_times cfg v [] times = times
payload_times cfg v (p ∷ payloads) times =
    payload_times cfg v payloads (keep_latest (payload_key p.ref) (payload_expiry cfg v p) times)

-- What the loop over a page fills.
pub record Picked : Type 0 where
  pub result : Result
  pub eligible : List Event
  pub times : List (Text × Time)

-- `matched && !expiry.After(now)`
unfoldable pub is_expired : Time → Option Time → Bool
is_expired now none = false
is_expired now (some expiry) = not (ltb_ℤ now expiry)

abbrev count_matched : Option Time → Result → Result
count_matched none r = r
count_matched (some _) r = record r { events_matched = plus64 r.events_matched 1 }

abbrev count_scanned : Result → Result
count_scanned r = record r { events_scanned = plus64 r.events_scanned 1 }

abbrev count_eligible : Result → Result
count_eligible r = record r { events_eligible = plus64 r.events_eligible 1 }

unfoldable pub pick_one : Config → Time → Event → Picked → Picked
pick_one cfg now v p =
    if is_expired now (event_expiry cfg v)
    then record {
      result = count_eligible (count_matched (event_expiry cfg v) (count_scanned p.result));
      eligible = p.eligible ++ v ∷ [];
      times = payload_times cfg v v.payloads p.times;
    }
    else record p { result = count_matched (event_expiry cfg v) (count_scanned p.result) }

unfoldable pub pick : Config → Time → List Event → Picked → Picked
pick cfg now [] p = p
pick cfg now (v ∷ events) p = pick cfg now events (pick_one cfg now v p)

pub record State : Type 0 where
  pub result : Result
  pub trace : List Action

abbrev pub did : Action → State → State
did a s = record s { trace = a ∷ s.trace }

abbrev pub with_error : State → State
with_error s = record s { result = record (s.result) { errors = plus64 s.result.errors 1 } }

abbrev pub with_archive_failure : State → State
with_archive_failure s = record s {
  result = record (s.result) {
    errors = plus64 s.result.errors 1;
    archive_failures = plus64 s.result.archive_failures 1;
  };
}

-- The bytes of the copied payloads.
unfoldable pub add_payload_bytes : List PayloadEntry → ℕ → ℕ
add_payload_bytes [] n = n
add_payload_bytes (p ∷ payloads) n =
    add_payload_bytes payloads
      (if is_positive p.archive.stored_size then plus64 n (to_bits64 p.archive.stored_size) else n)

unfoldable pub count_archive : Receipt → State → State
count_archive receipt s = record s {
  result = record (s.result) {
    archives_created = plus64 s.result.archives_created 1;
    events_archived = plus64 s.result.events_archived (to_bits64 receipt.manifest.event_count);
    payloads_archived = plus64 s.result.payloads_archived (length receipt.manifest.payloads);
    archive_bytes_written = add_payload_bytes receipt.manifest.payloads (
        plus64 s.result.archive_bytes_written
          (to_bits64 (receipt.manifest.events.stored_size +ℤ receipt.manifest_ref.stored_size)));
  };
}

-- The answer of `RecordArchive`.
unfoldable pub recorded : Receipt → Bool → State → State × Option Text
recorded receipt true s =
    (count_archive receipt (did (record_call receipt true) s), some receipt.manifest.id)
recorded receipt false s = (with_archive_failure (did (record_call receipt false) s), none)

module _ (world : World) where
  -- The answer of the archiver.
  unfoldable pub archived : List EventRecord → Option Receipt → State → State × Option Text
  archived records none s = (with_archive_failure (did (archive_call records none) s), none)
  archived records (some receipt) s =
      let s' = did (archive_call records (some receipt)) s in
      recorded receipt (world.records s'.trace receipt) s'

  -- The answer of `LoadArchiveEvents`.
  unfoldable pub loaded : List Event → Option (List EventRecord) → State → State × Option Text
  loaded eligible none s = (with_archive_failure (did (load_call eligible none) s), none)
  loaded eligible (some records) s =
      let s' = did (load_call eligible (some records)) s in
      if same_archive_events records eligible
      then archived records (world.archives s'.trace records) s'
      else (with_archive_failure s', none)

  -- The block that is left out of a dry run. It gives the archive's identifier, unless it fails.
  unfoldable pub archive_eligible : List Event → State → State × Option Text
  archive_eligible eligible s = loaded eligible (world.loads s.trace eligible) s

  abbrev count_deleted : Bool → DeleteResult → State → State
  count_deleted true dr s = s
  count_deleted false dr s = record s {
    result = record (s.result) {
      events_deleted = plus64 s.result.events_deleted dr.events_deleted;
      payload_candidates = plus64 s.result.payload_candidates dr.payload_candidates;
    };
  }

  abbrev check_deleted : Bool → State → State × Bool
  check_deleted true s = (s, true)
  check_deleted false s = (with_error s, false)

  unfoldable pub deleted : DeleteRequest → DeleteResult × Bool → State → State × Bool
  deleted request answer s =
      check_deleted answer.1
        (count_deleted request.dry_run answer.0 (did (delete_call request answer.0 answer.1) s))

  -- `DeleteRetentionEvents`, and whether it succeeded.
  unfoldable pub delete_events : DeleteRequest → State → State × Bool
  delete_events request s = deleted request (world.deletes s.trace request) s

  unfoldable pub delete_archived :
      List Event → List (Text × Time) → State × Option Text → State × Bool
  delete_archived eligible times (s, none) = (s, false)
  delete_archived eligible times (s, some id) =
      delete_events
        (record {
          events = eligible;
          payload_eligible_at = times;
          archive_id = id;
          dry_run = false;
        })
        s

  abbrev pub dry_request : List Event → List (Text × Time) → DeleteRequest
  dry_request eligible times = record {
    events = eligible;
    payload_eligible_at = times;
    archive_id = [];
    dry_run = true;
  }

  -- `dryPayloads`
  unfoldable pub add_keys : List (Text × Time) → List Text → List Text
  add_keys [] keys = keys
  add_keys (entry ∷ times) keys = add_keys times (add_key entry.0 keys)

  abbrev count_dry : List Text → State → State
  count_dry keys s = record s { result = record (s.result) { payload_candidates = length keys } }

  -- `if len(eligible) > 0`, and whether `Run` goes on.
  unfoldable pub remove_eligible :
      Bool → List Text → List Event → List (Text × Time) → State → State × Bool
  remove_eligible dry keys [] times s = (s, true)
  remove_eligible true keys (v ∷ eligible) times s =
      delete_events (dry_request (v ∷ eligible) times) (count_dry (add_keys times keys) s)
  remove_eligible false keys (v ∷ eligible) times s =
      delete_archived (v ∷ eligible) times (archive_eligible (v ∷ eligible) s)
