-- ===== src/Nats/Cases.antt =====
-- sink/nats/nats.go: the ways that `publish` and `Close` end.
use trail.Prelude.{ℕ, ◌≡◌, true, false, some, Text, length, Bool-cases, inl, inr, arith}
use trail.Nats.{close_call, World, Sink}
use trail.Nats.Publish.{
  sink_closed, connection_closed, message_too_large, did, count_error, count_bytes, too_large,
  settle, flush, send, publish, close_open, close_sink,
}

-- How a call of `publish` ends.
pub data PublishCase (world : World) (content batch_id : Text) (n : ℕ) (s : Sink) : Type 0 where
  by_close :
      publish world content batch_id n s ≡ (s, some sink_closed)
      → PublishCase world content batch_id n s
  by_connection :
      publish world content batch_id n s ≡ (count_error s, some connection_closed)
      → PublishCase world content batch_id n s
  by_size :
      publish world content batch_id n s
        ≡ (count_error (count_bytes (length content) s), some message_too_large)
      → PublishCase world content batch_id n s
  by_sending :
      too_large (length content) s.cfg.max_message_bytes ≡ false
      → publish world content batch_id n s
        ≡ settle n (send world content batch_id (count_bytes (length content) s))
      → PublishCase world content batch_id n s

pub publish_cases :
    (world : World) (content batch_id : Text) (n : ℕ) (s : Sink)
    → PublishCase world content batch_id n s
unfolding publish
publish_cases world content batch_id n s = elim (Bool-cases s.closed) [
  | inl closed ↦ by_close (ground (arith, closed))
  | inr live ↦ elim (Bool-cases (world.is_closed s.calls)) [
    | inl gone ↦ by_connection (ground (arith, live, gone))
    | inr there ↦ elim (Bool-cases (too_large (length content) s.cfg.max_message_bytes)) [
      | inl large ↦ by_size (ground (arith, live, there, large))
      | inr small ↦ by_sending small (ground (arith, live, there, small))
    ]
  ]
]

-- What a call of `Close` does.
pub data CloseCase (world : World) (s : Sink) : Type 0 where
  again : (close_sink world s).0 ≡ s → CloseCase world s
  owner :
      s.closed ≡ false
      → s.owned ≡ true
      → (close_sink world s).0 ≡ did close_call (record s { closed = true })
      → CloseCase world s
  borrower :
      s.closed ≡ false
      → s.owned ≡ false
      → (close_sink world s).0 ≡ record s { closed = true }
      → CloseCase world s
  flusher :
      s.closed ≡ false
      → s.owned ≡ false
      → (close_sink world s).0 ≡ (flush world (record s { closed = true })).0
      → CloseCase world s

pub close_cases : (world : World) (s : Sink) → CloseCase world s
unfolding close_sink close_open
close_cases world s = elim (Bool-cases s.closed) [
  | inl closed ↦ again (ground (arith, closed))
  | inr live ↦ elim (Bool-cases s.owned) [
    | inl own ↦ owner live own (ground (arith, live, own))
    | inr lent ↦ elim (Bool-cases (world.is_closed s.calls)) [
      | inl gone ↦ borrower live lent (ground (arith, live, lent, gone))
      | inr there ↦ flusher live lent (ground (arith, live, lent, there))
    ]
  ]
]
