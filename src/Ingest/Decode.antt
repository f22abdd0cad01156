-- ===== src/Ingest/Decode.antt =====
-- `decode` of the engine: its two outcomes.
use trail.Prelude.{
  ◌≤◌, ◌≡◌, refl, Option, none, some, Text, length, ltb, Bool-cases, inl, inr, arith,
}
use trail.Wire.{Envelope}
use trail.Wire.Encode.{Json, Result, unmarshal}
use trail.Storage.{Batch}
use trail.Ingest.{Settings, MessageMetadata, Message, Pending, Cause, State, World}
use trail.Ingest.Engine.{
  dead_letter, give_up_on, decode_batch, decode_envelope, decode_sized, decode_known, decode,
}

-- To show Q of the result, show it of a message given up and of a message decoded, which fits the
-- size limit; before either, `decode` only counts.
module _ {κ} (world : World) (cfg : Settings) (m : Message)
    (Q : State × Option Pending → Type κ) where
  abbrev pub Gave : State → Type κ
  Gave s =
      (reason : Text) (cause : Cause) (s' : State)
      → s'.trace ≡ s.trace
      → Q (dead_letter world m reason cause s', none)

  abbrev pub Got : State → Type κ
  Got s =
      (batch : Batch) (s' : State)
      → s'.trace ≡ s.trace
      → length m.body ≤ cfg.max_bytes
      → Q (s', some (record { message = m; batch = batch; bytes = length m.body }))

  decode_batch_by :
      (s : State) (r : Result Batch)
      → length m.body ≤ cfg.max_bytes
      → Gave s
      → Got s
      → Q (decode_batch world cfg m r s)
  unfolding decode_batch give_up_on
  decode_batch_by s (Result.err e) fits gave got = gave _ _ _ refl
  decode_batch_by s (Result.ok batch) fits gave got = got batch _ refl fits

  decode_envelope_by :
      (s : State) (metadata : MessageMetadata) (r : Result Envelope)
      → length m.body ≤ cfg.max_bytes
      → Gave s
      → Got s
      → Q (decode_envelope world cfg m metadata r s)
  unfolding decode_envelope give_up_on
  decode_envelope_by s metadata (Result.err e) fits gave got = gave _ _ _ refl
  decode_envelope_by s metadata (Result.ok envelope) fits gave got =
      decode_batch_by s _ fits gave got

  decode_sized_by :
      (json : Json) (s : State) (metadata : MessageMetadata)
      → Gave s
      → Got s
      → Q (decode_sized world cfg json m metadata s)
  unfolding decode_sized give_up_on
  decode_sized_by json s metadata gave got = elim (Bool-cases (ltb cfg.max_bytes (length m.body))) [
    | inl big ↦ rw big (gave _ _ _ refl)
    | inr small ↦
        rw small (decode_envelope_by s metadata (unmarshal json m.body) (ground arith) gave got)
  ]

  decode_known_by :
      (json : Json) (s : State) (metadata : Option MessageMetadata)
      → Gave s
      → Got s
      → Q (decode_known world cfg json m metadata s)
  unfolding decode_known give_up_on
  decode_known_by json s none gave got = gave _ _ _ refl
  decode_known_by json s (some metadata) gave got =
      elim (Bool-cases (ltb 1 metadata.num_delivered)) [
        | inl again ↦ rw again (decode_sized_by json _ metadata gave got)
        | inr once ↦ rw once (decode_sized_by json _ metadata gave got)
      ]

  pub decode_by : (json : Json) (s : State) → Gave s → Got s → Q (decode world cfg json m s)
  unfolding decode
  decode_by json s gave got = decode_known_by json _ m.metadata gave got
