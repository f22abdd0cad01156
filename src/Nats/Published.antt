-- ===== src/Nats/Published.antt =====
-- sink/nats/nats.go: the messages that a sink publishes, and the calls that close the connection.
use trail.Prelude.{
  ℕ, suc, ◌≡◌, refl, sym, ap, Bool, true, false, not, ◌&&◌, List, [], ◌∷◌, Text, length, Bool-cases,
  inl, inr, arith, ◌∙◌, ◌==◌,
}
use mathlib.Core.Path.{subst}
use trail.Wire.Encode.{Json, Result, ok, err, marshal, marshal_batch}
use trail.Nats.{
  Config, valid_publish_subject, normalize, normal, invalid, with_defaults, Message, Call,
  publish_call, flush_call, store_call, close_call, World, Sink, made, fresh, new_sink, sink_of,
  Normalized, jet_stream,
}
use trail.Nats.Publish.{
  count_error, count_bytes, count_sent, message_of, too_large, settle, Operation, write_operation,
  envelope_operation, close_operation, flush, flush_after, send, publish, close_sink, write_batch,
  publish_envelope, publish_marshalled, apply_operation, apply_all,
}
use trail.Nats.Cases.{
  by_close, by_connection, by_size, by_sending, publish_cases, again, owner, borrower, flusher,
  close_cases,
}

-- A message as `publish` makes it, of at most the configured size.
abbrev pub Fits : Config → Message → Type 0
Fits cfg m =
    (m ≡ message_of cfg m.content) × (too_large (length m.content) cfg.max_message_bytes ≡ false)

abbrev pub FitsCall : Config → Call → Type 0
FitsCall cfg (publish_call m _) = Fits cfg m
FitsCall cfg (store_call m _ _) = Fits cfg m
FitsCall cfg (flush_call _ _) = Unit
FitsCall cfg close_call = Unit

abbrev pub AllFit : Config → List Call → Type 0
AllFit cfg [] = Unit
AllFit cfg (call ∷ calls) = FitsCall cfg call × AllFit cfg calls

-- How often the connection was closed.
abbrev pub closes : List Call → ℕ
closes [] = 0
closes (close_call ∷ calls) = suc (closes calls)
closes (publish_call _ _ ∷ calls) = closes calls
closes (store_call _ _ _ ∷ calls) = closes calls
closes (flush_call _ _ ∷ calls) = closes calls

abbrev pub once_if : Bool → ℕ
once_if true = 1
once_if false = 0

-- The configuration is kept, every message fits it, and the connection was closed once where the
-- sink is closed and owns it, and else never.
abbrev pub Sound : Config → Bool → Sink → Type 0
Sound cfg owned s =
    (s.cfg ≡ cfg)
    × (s.owned ≡ owned)
    × AllFit s.cfg s.calls
    × (closes s.calls ≡ once_if (s.closed && s.owned))

module _ (cfg : Config) (owned : Bool) where
  count_error-Sound : (s : Sink) → Sound cfg owned s → Sound cfg owned (count_error s)
  unfolding count_error
  count_error-Sound s h = h

  count_bytes-Sound : (n : ℕ) (s : Sink) → Sound cfg owned s → Sound cfg owned (count_bytes n s)
  unfolding count_bytes
  count_bytes-Sound n s h = h

  settle-Sound : (n : ℕ) (x : Sink × Bool) → Sound cfg owned x.0 → Sound cfg owned (settle n x).0
  unfolding settle count_error count_sent
  settle-Sound n (s, true) h = h
  settle-Sound n (s, false) h = h

  module _ (world : World) where
    flush-Sound : (s : Sink) → Sound cfg owned s → Sound cfg owned (flush world s).0
    unfolding flush
    flush-Sound s (c, o, fit, once) = (c, o, (tt, fit), once)

    flush_after-Sound :
        (x : Sink × Bool) → Sound cfg owned x.0 → Sound cfg owned (flush_after world x).0
    unfolding flush_after
    flush_after-Sound (s, true) h = flush-Sound s h
    flush_after-Sound (s, false) h = h

    send-Sound :
        (content batch_id : Text) (s : Sink)
        → too_large (length content) s.cfg.max_message_bytes ≡ false
        → Sound cfg owned s
        → Sound cfg owned (send world content batch_id s).0
    unfolding send
    send-Sound content batch_id s small (c, o, fit, once) = elim (Bool-cases (s.cfg.mode == 1)) [
      | inl streams ↦ rw streams (c, o, ((refl, small), fit), once)
      | inr plain ↦ rw plain (flush_after-Sound _ (c, o, ((refl, small), fit), once))
    ]

    publish-Sound :
        (content batch_id : Text) (n : ℕ) (s : Sink)
        → Sound cfg owned s
        → Sound cfg owned (publish world content batch_id n s).0
    publish-Sound content batch_id n s h = elim (publish_cases world content batch_id n s) [
      | by_close e ↦ subst (λ p. Sound cfg owned p.0) (sym e) h
      | by_connection e ↦ subst (λ p. Sound cfg owned p.0) (sym e) (count_error-Sound s h)
      | by_size e ↦
          subst (λ p. Sound cfg owned p.0) (sym e)
            (count_error-Sound _ (count_bytes-Sound (length content) s h))
      | by_sending small e ↦
          subst (λ p. Sound cfg owned p.0) (sym e)
            (settle-Sound n _ (
              send-Sound content batch_id (count_bytes (length content) s)
                (unfold count_bytes in small) (count_bytes-Sound (length content) s h)))
    ]

    close_sink-Sound : (s : Sink) → Sound cfg owned s → Sound cfg owned (close_sink world s).0
    unfolding flush
    close_sink-Sound s (c, o, fit, once) = elim (close_cases world s) [
      | again e ↦ subst (Sound cfg owned) (sym e) (c, o, fit, once)
      | owner live own e ↦
          subst (Sound cfg owned) (sym e) (c, o, (tt, fit), ground (arith, once, live, own))
      | borrower live lent e ↦
          subst (Sound cfg owned) (sym e) (c, o, fit, ground (arith, once, live, lent))
      | flusher live lent e ↦
          subst (Sound cfg owned) (sym e) (c, o, (tt, fit), ground (arith, once, live, lent))
    ]

    publish_marshalled-Sound :
        (marshalled : Result Text) (batch_id : Text) (n : ℕ) (s : Sink)
        → Sound cfg owned s
        → Sound cfg owned (publish_marshalled world marshalled batch_id n s).0
    unfolding publish_marshalled
    publish_marshalled-Sound (err e) batch_id n s h = count_error-Sound s h
    publish_marshalled-Sound (ok content) batch_id n s h = publish-Sound content batch_id n s h

    module _ (json : Json) where
      apply_operation-Sound :
          (o : Operation) (s : Sink)
          → Sound cfg owned s
          → Sound cfg owned (apply_operation world json o s)
      unfolding apply_operation write_batch publish_envelope
      apply_operation-Sound (write_operation batch) s h =
          publish_marshalled-Sound (marshal_batch json batch) _ _ s h
      apply_operation-Sound (envelope_operation envelope) s h =
          publish_marshalled-Sound (marshal json envelope) _ _ s h
      apply_operation-Sound close_operation s h = close_sink-Sound s h

      pub apply_all-Sound :
          (operations : List Operation) (s : Sink)
          → Sound cfg owned s
          → Sound cfg owned (apply_all world json operations s)
      unfolding apply_all
      apply_all-Sound [] s h = h
      apply_all-Sound (o ∷ operations) s h =
          apply_all-Sound operations _ (apply_operation-Sound o s h)

normalize_valid :
    (raw cfg : Config) → normalize raw ≡ normal cfg → valid_publish_subject cfg.subject ≡ true
unfolding normalize
normalize_valid raw cfg h = elim (Bool-cases (valid_publish_subject (with_defaults raw).subject)) [
  | inl valid ↦ ground (arith, h, valid)
  | inr bad ↦ ground (arith, h, bad)
]

made-injective : {a b : Sink} → made a ≡ made b → a ≡ b
made-injective e = cc

sink_of_parts :
    (streams owned : Bool) (n : Normalized) (s : Sink)
    → sink_of streams owned n ≡ made s
    → (n ≡ normal s.cfg) × (s ≡ fresh s.cfg owned)
sink_of_parts streams owned (invalid e) s h = absurd (cc)
sink_of_parts streams owned (normal cfg) s h =
    elim (Bool-cases (cfg.mode == jet_stream && not streams)) [
      | inl missing ↦ absurd (ground (arith, h, missing))
      | inr there ↦
          (let e : fresh cfg owned ≡ s = made-injective (ground (arith, h, there)) in
            subst (λ x. (normal cfg ≡ normal x.cfg) × (x ≡ fresh x.cfg owned)) e (refl, refl))
    ]

-- What a sink that was made is.
pub new_parts :
    (present closed streams owned : Bool) (raw : Config) (s : Sink)
    → new_sink present closed streams raw owned ≡ made s
    → (valid_publish_subject s.cfg.subject ≡ true) × (s ≡ fresh s.cfg owned)
unfolding new_sink
new_parts false closed streams owned raw s h = absurd (cc)
new_parts true true streams owned raw s h = absurd (cc)
new_parts true false streams owned raw s h =
    let (normalized, e) = sink_of_parts streams owned (normalize raw) s h in
    (normalize_valid raw s.cfg normalized, e)

-- From a sink that newSink, the common part of New and Connect, made, after any calls of
-- WriteBatch, PublishEnvelope and Close and however the connection answers: the subject is valid,
-- every message was sent to it with both headers and is not larger than MaxMessageBytes, and the
-- connection was closed exactly once where the sink owns it and is closed, and else never.
pub apply_all-Limited :
    (present closed streams owned : Bool) (raw : Config) (s : Sink) (world : World) (json : Json)
    (operations : List Operation)
    → new_sink present closed streams raw owned ≡ made s
    → let t = apply_all world json operations s in
      (valid_publish_subject s.cfg.subject ≡ true)
      × AllFit s.cfg t.calls
      × (closes t.calls ≡ once_if (t.closed && owned))
apply_all-Limited present closed streams owned raw s world json operations h =
    let (valid, e) = new_parts present closed streams owned raw s h in
    let start = subst (Sound s.cfg owned) (sym e) (refl, refl, tt, refl) in
    let (c, o, fit, once) = apply_all-Sound s.cfg owned world json operations s start in
    (
      valid,
      subst (λ cfg. AllFit cfg (apply_all world json operations s).calls) c fit,
      once ∙ ap (λ (b : Bool). once_if ((apply_all world json operations s).closed && b)) o,
    )
