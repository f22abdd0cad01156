-- ===== src/Ingest/Safety.antt =====
-- Acknowledgements of the engine, in the order of its calls.
use trail.Prelude.{
  ◌≡◌, refl, ◌⊎◌, inl, inr, true, false, Option, none, some, List, [], ◌∷◌, Text, codes, All, arith,
}
use trail.Wire.Encode.{Json}
use trail.Ingest.Decode.{decode_by}
use trail.Ingest.{
  Settings, write_failed, Message, Pending, Cause, Action, write_call, double_ack_call, dlq_call,
  ack_call, State, World,
}
use trail.Ingest.Engine.{
  ack_dead, ack_one, reject_one, did, count, more_events, events_of, more_write_errors, dead_letter,
  ack_group, reject, write, decode, Group, no_group, join, write_last, messages_loop, Turn, run,
}

abbrev pub HasMessage : Message → List Pending → Type 0
HasMessage m [] = ⊥
HasMessage m (item ∷ group) = (item.message ≡ m) ⊎ HasMessage m group

-- The action stores the message, or publishes it on the dead-letter subject.
abbrev pub Stores : Message → Action → Type 0
Stores m (write_call group true) = HasMessage m group
Stores m _ = ⊥

abbrev pub Publishes : Message → Action → Type 0
Publishes m (dlq_call n _ true) = n ≡ m
Publishes m _ = ⊥

abbrev pub Before : (Action → Type 0) → List Action → Type 0
Before P [] = ⊥
Before P (a ∷ trace) = P a ⊎ Before P trace

-- What an acknowledgement needs of the calls before it.
abbrev pub Justified : Action → List Action → Type 0
Justified (double_ack_call m _) earlier = Before (Stores m) earlier
Justified (ack_call m _) earlier = Before (Publishes m) earlier
Justified _ earlier = Unit

abbrev pub Safe : List Action → Type 0
Safe [] = Unit
Safe (a ∷ earlier) = Justified a earlier × Safe earlier

messages_more :
    (other : Pending) (before group : List Pending)
    → All (λ item. (m : Message) → item.message ≡ m → HasMessage m before) group
    → All (λ item. (m : Message) → item.message ≡ m → HasMessage m (other ∷ before)) group
messages_more other before [] h = tt
messages_more other before (item ∷ group) (first, rest) =
    (λ m same. inr (first m same), messages_more other before group rest)

module _ (world : World) where
  dead_letter-Safe :
      (m : Message) (reason : Text) (cause : Cause) (s : State)
      → Safe s.trace
      → Safe (dead_letter world m reason cause s).trace
  unfolding dead_letter ack_dead
  dead_letter-Safe m reason cause s h = ground arith

  -- An action that only adds an acknowledgement keeps what was before.
  ack_one-Safe :
      (item : Pending) (s : State)
      → Before (Stores item.message) s.trace
      → Safe s.trace
      → Safe (ack_one world item s).trace
  unfolding ack_one
  ack_one-Safe item s stored h = ground arith

  ack_one-Before :
      (item : Pending) (s : State) (P : Action → Type 0)
      → Before P s.trace
      → Before P (ack_one world item s).trace
  unfolding ack_one
  ack_one-Before item s P h = ground arith

  stored_still :
      (group : List Pending) (item : Pending) (s : State)
      → All (λ i. Before (Stores i.message) s.trace) group
      → All (λ i. Before (Stores i.message) (ack_one world item s).trace) group
  stored_still [] item s h = tt
  stored_still (i ∷ group) item s (first, rest) =
      (ack_one-Before item s (Stores i.message) first, stored_still group item s rest)

  ack_group-Safe :
      (group : List Pending) (s : State)
      → All (λ item. Before (Stores item.message) s.trace) group
      → Safe s.trace
      → Safe (ack_group world group s).trace
  unfolding ack_group
  ack_group-Safe [] s stored h = h
  ack_group-Safe (item ∷ group) s (first, rest) h =
      ack_group-Safe group (ack_one world item s) (stored_still group item s rest)
        (ack_one-Safe item s first h)

  -- A group that was just written has all its messages stored.
  written_group :
      (before group : List Pending) (earlier : List Action)
      → All (λ item. (m : Message) → item.message ≡ m → HasMessage m before) group
      → All (λ item. Before (Stores item.message) (write_call before true ∷ earlier)) group
  written_group before [] earlier h = tt
  written_group before (item ∷ group) earlier (first, rest) =
      (inl (first item.message refl), written_group before group earlier rest)

  messages_self :
      (group : List Pending)
      → All (λ item. (m : Message) → item.message ≡ m → HasMessage m group) group
  messages_self [] = tt
  messages_self (item ∷ group) =
      (λ m same. inl same, messages_more item group group (messages_self group))

  module _ (cfg : Settings) where
    reject_one-Safe :
        (item : Pending) (s : State) → Safe s.trace → Safe (reject_one world cfg item s).trace
    unfolding reject_one
    reject_one-Safe item s h =
        ground (arith, dead_letter-Safe item.message (codes "max-deliveries") write_failed s h)

    reject-Safe :
        (group : List Pending) (s : State) → Safe s.trace → Safe (reject world cfg group s).trace
    unfolding reject
    reject-Safe [] s h = h
    reject-Safe (item ∷ group) s h = reject-Safe group _ (reject_one-Safe item s h)

    write-Safe :
        (group : List Pending) (s : State) → Safe s.trace → Safe (write world cfg group s).trace
    unfolding write
    write-Safe group s h = ground (
      arith,
      ack_group-Safe group (count (more_events (events_of group)) (did (write_call group true) s))
          (written_group group group s.trace (messages_self group)) (tt, h),
      reject-Safe group (count more_write_errors (did (write_call group false) s)) (tt, h),
    )

    decode-Safe :
        (json : Json) (m : Message) (s : State)
        → Safe s.trace
        → Safe (decode world cfg json m s).0.trace
    decode-Safe json m s h =
        decode_by world cfg m (λ r. Safe r.0.trace) json s
          (λ reason cause s' same. dead_letter-Safe m reason cause s' (rw same h))
          (λ batch s' same fits. rw same h)

    join-Safe :
        (item : Option Pending) (g : Group) (s : State)
        → Safe s.trace
        → Safe (join world cfg item g s).0.trace
    unfolding join
    join-Safe none g s h = h
    join-Safe (some item) g s h = ground (arith, write-Safe g.items s h)

    write_last-Safe :
        (group : List Pending) (s : State)
        → Safe s.trace
        → Safe (write_last world cfg group s).trace
    unfolding write_last
    write_last-Safe [] s h = h
    write_last-Safe (item ∷ group) s h = write-Safe (item ∷ group) s h

    messages_loop-Safe :
        (json : Json) (messages : List Message) (g : Group) (s : State)
        → Safe s.trace
        → Safe (messages_loop world cfg json messages g s).trace
    unfolding messages_loop
    messages_loop-Safe json [] g s h = write_last-Safe g.items s h
    messages_loop-Safe json (m ∷ messages) g s h = messages_loop-Safe json messages _ _ (
        join-Safe (decode world cfg json m s).1 g (decode world cfg json m s).0
          (decode-Safe json m s h))

    -- However the stream, the store and the dead-letter publisher answer, a run of the ingestor
    -- from a trace that is so leaves a trace of calls in which every DoubleAck of a message comes
    -- after a successful WriteBatches of a group with that message, and every Ack after a
    -- successful publication of the message on the dead-letter subject.
    pub run-Safe :
        (json : Json) (turns : List Turn) (s : State)
        → Safe s.trace
        → Safe (run world cfg json turns s).0.trace
    unfolding run
    run-Safe json [] s h = h
    run-Safe json (Turn.cancelled ∷ turns) s h = h
    run-Safe json (Turn.fetch_failed ∷ turns) s h = h
    run-Safe json (Turn.fetch_failed_cancelled ∷ turns) s h = h
    run-Safe json (Turn.fetched messages (some true) ∷ turns) s h =
        messages_loop-Safe json messages no_group s h
    run-Safe json (Turn.fetched messages (some false) ∷ turns) s h =
        run-Safe json turns _ (messages_loop-Safe json messages no_group s h)
    run-Safe json (Turn.fetched messages none ∷ turns) s h =
        run-Safe json turns _ (messages_loop-Safe json messages no_group s h)
