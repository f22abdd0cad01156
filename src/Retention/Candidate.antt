-- ===== src/Retention/Candidate.antt =====
-- retention/retention.go: `processCandidate` and `validContentAddressedRef`.
use trail.Prelude.{
  ℕ, ◌-◌, Bool, true, false, not, ◌&&◌, ◌||◌, Option, List, ◌∷◌, ◌++◌, Text, codes, text_eq,
  is_empty, length, drop, ltb, replicate, if◌then◌else◌,
}
use trail.Prelude.Int.{to_bits64}
use trail.Payload.{Time, Ref}
use trail.Payload.Hex.{checksum_text}
use trail.Retention.Policy.{is_positive}

pub record Candidate : Type 0 where
  pub ref : Ref
  pub archive_id : Text
  pub eligible_at : Time
  pub candidate_at : Time
  pub attempts : ℕ
  pub last_error : Text

-- The text that `CompletePayloadCandidate` is given, by where it comes from.
pub data Note : Type 0 where
  referenced_note completed_note not_configured invalid_ref : Note
  delete_error : Text → Note

-- What a payload store's `Delete` returns.
pub data DeleteAnswer : Type 0 where
  removed not_found : DeleteAnswer
  delete_failed : Text → DeleteAnswer

pub data PayloadAction : Type 0 where
  list_call : ℕ → Option (List Candidate) → PayloadAction
  referenced_call : List Ref → Option (List Text) → PayloadAction
  complete_call : Candidate → Note → Bool → PayloadAction
  object_delete_call : Candidate → DeleteAnswer → PayloadAction

-- The payload part of `Result`.
pub record PayloadResult : Type 0 where
  pub payloads_referenced : ℕ
  pub payloads_orphaned : ℕ
  pub payloads_unknown : ℕ
  pub payloads_deleted : ℕ
  pub payload_bytes_reclaimed : ℕ
  pub errors : ℕ

pub record PayloadState : Type 0 where
  pub result : PayloadResult
  pub trace : List PayloadAction

-- The outside world of the collection; `live` lists the keys that are still referenced.
pub record PayloadWorld : Type 0 where
  pub lists : List PayloadAction → ℕ → Option (List Candidate)
  pub live : List PayloadAction → List Ref → Option (List Text)
  pub has_store : Text → Bool
  pub removes : List PayloadAction → Ref → DeleteAnswer
  pub completes : List PayloadAction → Ref → Note → Bool
  pub stopped : List PayloadAction → Bool

-- The seven results of `processCandidate`; of the error, whether there is one.
pub record Outcome : Type 0 where
  pub referenced : Bool
  pub orphaned : Bool
  pub unknown : Bool
  pub deleted : Bool
  pub bytes_reclaimed : ℕ
  pub failures : ℕ
  pub has_error : Bool

abbrev pub did : PayloadAction → PayloadState → PayloadState
did a s = record s { trace = a ∷ s.trace }

-- `strings.HasSuffix(s, suffix)`
abbrev pub ends_with : Text → Text → Bool
ends_with suffix s =
    not (ltb (length s) (length suffix)) && text_eq (drop (length s - length suffix) s) suffix

unfoldable pub valid_content_addressed_ref : Ref → Bool
valid_content_addressed_ref ref =
    if is_empty ref.store || is_empty ref.key || text_eq ref.sha256 (replicate 32 0)
    then false
    else ends_with (checksum_text ref.sha256) ref.key
      || ends_with (checksum_text ref.sha256 ++ codes ".gz") ref.key

abbrev referenced_outcome : Bool → Outcome
referenced_outcome completed = record {
  referenced = true;
  orphaned = false;
  unknown = false;
  deleted = false;
  bytes_reclaimed = 0;
  failures = 0;
  has_error = not completed;
}

abbrev unknown_outcome : Outcome
unknown_outcome = record {
  referenced = false;
  orphaned = false;
  unknown = true;
  deleted = false;
  bytes_reclaimed = 0;
  failures = 1;
  has_error = true;
}

abbrev kept_outcome : Outcome
kept_outcome = record {
  referenced = false;
  orphaned = true;
  unknown = false;
  deleted = false;
  bytes_reclaimed = 0;
  failures = 1;
  has_error = true;
}

abbrev reclaimed : Ref → ℕ
reclaimed ref = if is_positive ref.stored_size then to_bits64 ref.stored_size else 0

abbrev deleted_outcome : Candidate → Bool → Outcome
deleted_outcome c completed = record {
  referenced = false;
  orphaned = true;
  unknown = false;
  deleted = true;
  bytes_reclaimed = if completed then reclaimed c.ref else 0;
  failures = 0;
  has_error = not completed;
}

module _ (world : PayloadWorld) where
  abbrev pub complete : Candidate → Note → PayloadState → PayloadState
  complete c note s = did (complete_call c note (world.completes s.trace c.ref note)) s

  -- After `Delete`.
  unfoldable pub after_delete : Candidate → DeleteAnswer → PayloadState → PayloadState × Outcome
  after_delete c removed s = (
    complete c completed_note s,
    deleted_outcome c (world.completes s.trace c.ref completed_note),
  )
  after_delete c not_found s = (
    complete c completed_note s,
    deleted_outcome c (world.completes s.trace c.ref completed_note),
  )
  after_delete c (delete_failed text) s = (complete c (delete_error text) s, kept_outcome)

  unfoldable pub delete_object : Candidate → PayloadState → PayloadState × Outcome
  delete_object c s =
      let answer = world.removes s.trace c.ref in
      after_delete c answer (did (object_delete_call c answer) s)

  unfoldable pub process_candidate : Candidate → Bool → PayloadState → PayloadState × Outcome
  process_candidate c live s =
      if live
      then (
        complete c referenced_note s,
        referenced_outcome (world.completes s.trace c.ref referenced_note),
      )
      else if not (world.has_store c.ref.store)
      then (complete c not_configured s, unknown_outcome)
      else if not (valid_content_addressed_ref c.ref)
      then (complete c invalid_ref s, unknown_outcome)
      else delete_object c s
