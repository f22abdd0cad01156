-- ===== src/Nats/Counted.antt =====
-- sink/nats/nats.go: the counters of a sink, by the answers of its calls.
use trail.Prelude.{
  ℕ, ◌+◌, ◌%◌, ◌^◌, ◌≡◌, refl, sym, ap, ◌∙◌, ◌==◌, Bool, Bool-cases, inl, inr, true, false, Option,
  none, some, List, [], ◌∷◌, Text, length, arith,
}
use mathlib.Core.Path.{subst}
use trail.Writer.{add64}
use trail.Wire.Encode.{Json, Result, ok, err, marshal, marshal_batch}
use trail.Nats.{Config, World, Sink, jet_stream, publish_call, Statistics, made, new_sink}
use trail.Nats.Publish.{
  message_of, did, SinkError, marshal_error, sink_closed, connection_closed, message_too_large,
  send_failed, count_error, count_bytes, count_sent, settle, Operation, write_operation,
  envelope_operation, close_operation, flush, flush_after, send, publish, close_sink, write_batch,
  publish_envelope, publish_marshalled, apply_operation, apply_all,
}
use trail.Nats.Cases.{
  by_close, by_connection, by_size, by_sending, publish_cases, again, owner, borrower, flusher,
  close_cases,
}
use trail.Nats.Published.{new_parts}

-- What a call that sends some events adds to the messages or the events, by its error.
abbrev pub if_sent : Option SinkError → ℕ → ℕ
if_sent none n = n
if_sent (some _) n = 0

-- What it adds to the errors: a call after `Close` does not count.
abbrev pub if_failed : Option SinkError → ℕ
if_failed none = 0
if_failed (some sink_closed) = 0
if_failed (some (marshal_error _)) = 1
if_failed (some connection_closed) = 1
if_failed (some message_too_large) = 1
if_failed (some send_failed) = 1

abbrev pub sent_messages : Option SinkError → ℕ → ℕ
sent_messages e n = if_sent e 1

abbrev pub failures : Option SinkError → ℕ → ℕ
failures e n = if_failed e

-- The counters of messages, events and errors are these numbers, modulo 2 ^ 64.
abbrev pub Counts : Sink → ℕ → ℕ → ℕ → Type 0
Counts s messages events errors =
    (s.statistics.messages ≡ messages % 2 ^ 64)
    × (s.statistics.events ≡ events % 2 ^ 64)
    × (s.statistics.errors ≡ errors % 2 ^ 64)

-- An answer is counted, where the call was to send n events.
abbrev Advances : ℕ → Sink → Sink × Option SinkError → Type 0
Advances n s p =
    (messages events errors : ℕ)
    → Counts s messages events errors
    → Counts p.0 (messages + if_sent p.1 1) (events + if_sent p.1 n) (errors + if_failed p.1)

add64_lem : (c n k : ℕ) → c ≡ n % 2 ^ 64 → add64 c k ≡ (n + k) % 2 ^ 64
add64_lem c n k h = omega (arith, h)

same_count : (c n : ℕ) → c ≡ n % 2 ^ 64 → c ≡ (n + 0) % 2 ^ 64
same_count c n h = omega (arith, h)

refused-Advances : (n : ℕ) (s : Sink) → Advances n s (s, some sink_closed)
refused-Advances n s m e x (hm, he, hx) = (same_count _ m hm, same_count _ e he, same_count _ x hx)

failed-Advances :
    (n : ℕ) (s : Sink) (error : SinkError)
    → if_failed (some error) ≡ 1
    → Advances n s (count_error s, some error)
unfolding count_error
failed-Advances n s error one m e x (hm, he, hx) =
    (same_count _ m hm, same_count _ e he, rw one (add64_lem s.statistics.errors x 1 hx))

large-Advances :
    (n k : ℕ) (s : Sink) → Advances n s (count_error (count_bytes k s), some message_too_large)
unfolding count_bytes count_error
large-Advances n k s m e x (hm, he, hx) =
    (same_count _ m hm, same_count _ e he, add64_lem s.statistics.errors x 1 hx)

-- The calls of the connection do not count by themselves.
settle-Advances :
    (n : ℕ) (s : Sink) (x : Sink × Bool)
    → x.0.statistics.messages ≡ s.statistics.messages
    → x.0.statistics.events ≡ s.statistics.events
    → x.0.statistics.errors ≡ s.statistics.errors
    → Advances n s (settle n x)
unfolding settle count_error count_sent
settle-Advances n s (t, true) sm se sx m e x (hm, he, hx) =
    (add64_lem _ m 1 (sm ∙ hm), add64_lem _ e n (se ∙ he), same_count _ x (sx ∙ hx))
settle-Advances n s (t, false) sm se sx m e x (hm, he, hx) =
    (same_count _ m (sm ∙ hm), same_count _ e (se ∙ he), add64_lem _ x 1 (sx ∙ hx))

module _ (world : World) where
  flush_after-statistics : (x : Sink × Bool) → (flush_after world x).0.statistics ≡ x.0.statistics
  unfolding flush_after flush
  flush_after-statistics (s, true) = refl
  flush_after-statistics (s, false) = refl

  send-statistics :
      (content batch_id : Text) (s : Sink)
      → (send world content batch_id s).0.statistics ≡ s.statistics
  unfolding send
  send-statistics content batch_id s = elim (Bool-cases (s.cfg.mode == jet_stream)) [
    | inl streams ↦ ground (arith, streams)
    | inr plain ↦
        (let message = message_of s.cfg content in
          let published = world.publishes s.calls message in
          ground (
            arith,
            plain,
            flush_after-statistics (did (publish_call message published) s, published),
          ))
  ]

  publish-Advances :
      (content batch_id : Text) (n : ℕ) (s : Sink)
      → Advances n s (publish world content batch_id n s)
  publish-Advances content batch_id n s = elim (publish_cases world content batch_id n s) [
    | by_close e ↦ subst (Advances n s) (sym e) (refused-Advances n s)
    | by_connection e ↦ subst (Advances n s) (sym e) (failed-Advances n s connection_closed refl)
    | by_size e ↦ subst (Advances n s) (sym e) (large-Advances n (length content) s)
    | by_sending small e ↦
        (let same = send-statistics content batch_id (count_bytes (length content) s) in
          subst (Advances n s) (sym e) (
            unfold count_bytes in
            settle-Advances n s _ (ap (λ (t : Statistics). t.messages) same)
              (ap (λ (t : Statistics). t.events) same) (ap (λ (t : Statistics). t.errors) same)))
  ]

  publish_marshalled-Advances :
      (marshalled : Result Text) (batch_id : Text) (n : ℕ) (s : Sink)
      → Advances n s (publish_marshalled world marshalled batch_id n s)
  unfolding publish_marshalled
  publish_marshalled-Advances (err e) batch_id n s = failed-Advances n s (marshal_error e) refl
  publish_marshalled-Advances (ok content) batch_id n s = publish-Advances content batch_id n s

  close_sink-statistics : (s : Sink) → (close_sink world s).0.statistics ≡ s.statistics
  unfolding flush
  close_sink-statistics s = elim (close_cases world s) [
    | again e ↦ ap (λ (t : Sink). t.statistics) e
    | owner live own e ↦ ap (λ (t : Sink). t.statistics) e
    | borrower live lent e ↦ ap (λ (t : Sink). t.statistics) e
    | flusher live lent e ↦ ap (λ (t : Sink). t.statistics) e
  ]

  module _ (json : Json) where
    -- A number of each call that sends, by its error and its events, added up.
    module _ (f : Option SinkError → ℕ → ℕ) where
      abbrev pub over_call : Operation → Sink → ℕ
      over_call (write_operation batch) s =
          f (write_batch world json batch s).1 (length batch.events)
      over_call (envelope_operation envelope) s =
          f (publish_envelope world json envelope s).1 (length envelope.events)
      over_call close_operation s = 0

      abbrev pub over_calls : List Operation → Sink → ℕ
      over_calls [] s = 0
      over_calls (o ∷ operations) s =
          over_call o s + over_calls operations (apply_operation world json o s)

    apply_operation-Counts :
        (o : Operation) (s : Sink) (m e x : ℕ)
        → Counts s m e x
        → Counts
            (apply_operation world json o s)
            (m + over_call sent_messages o s)
            (e + over_call if_sent o s)
            (x + over_call failures o s)
    unfolding apply_operation write_batch publish_envelope
    apply_operation-Counts (write_operation batch) s m e x h =
        publish_marshalled-Advances (marshal_batch json batch) _ _ s m e x h
    apply_operation-Counts (envelope_operation envelope) s m e x h =
        publish_marshalled-Advances (marshal json envelope) _ _ s m e x h
    apply_operation-Counts close_operation s m e x (hm, he, hx) =
        let same = close_sink-statistics s in
        (
          same_count _ m (ap (λ (t : Statistics). t.messages) same ∙ hm),
          same_count _ e (ap (λ (t : Statistics). t.events) same ∙ he),
          same_count _ x (ap (λ (t : Statistics). t.errors) same ∙ hx),
        )

    Counts-equal :
        (s : Sink) (m m' e e' x x' : ℕ)
        → m ≡ m'
        → e ≡ e'
        → x ≡ x'
        → Counts s m e x
        → Counts s m' e' x'
    Counts-equal s m m' e e' x x' hm he hx (cm, ce, cx) = (rw⁻¹ hm cm, rw⁻¹ he ce, rw⁻¹ hx cx)

    apply_all-Counts :
        (operations : List Operation) (s : Sink) (m e x : ℕ)
        → Counts s m e x
        → Counts
            (apply_all world json operations s)
            (m + over_calls sent_messages operations s)
            (e + over_calls if_sent operations s)
            (x + over_calls failures operations s)
    unfolding apply_all
    apply_all-Counts [] s m e x (hm, he, hx) =
        (same_count _ m hm, same_count _ e he, same_count _ x hx)
    apply_all-Counts (o ∷ operations) s m e x h =
        let rest = apply_all-Counts operations _ _ _ _ (apply_operation-Counts o s m e x h) in
        Counts-equal (apply_all world json operations (apply_operation world json o s)) _ _ _ _ _ _
          (omega arith) (omega arith) (omega arith) rest

    -- From a sink that newSink, the common part of New and Connect, made, after any calls and
    -- however the connection answers: the counters are, modulo 2 ^ 64, the number of calls of
    -- WriteBatch and PublishEnvelope that gave no error, the number of their events, and the
    -- number of those calls that gave an error other than ErrClosed.
    pub apply_all-Counted :
        (present closed streams owned : Bool) (raw : Config) (s : Sink)
        (operations : List Operation)
        → new_sink present closed streams raw owned ≡ made s
        → Counts
            (apply_all world json operations s)
            (over_calls sent_messages operations s)
            (over_calls if_sent operations s)
            (over_calls failures operations s)
    apply_all-Counted present closed streams owned raw s operations h =
        let (valid, e) = new_parts present closed streams owned raw s h in
        Counts-equal (apply_all world json operations s) _ _ _ _ _ _ (omega arith) (omega arith)
          (omega arith)
          (apply_all-Counts operations s 0 0 0
            (subst (λ t. Counts t 0 0 0) (sym e) (refl, refl, refl)))
