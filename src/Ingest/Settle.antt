-- ===== src/Ingest/Settle.antt =====
-- Every message of a fetch is settled once: acknowledged, or handed back to the stream.
use trail.Prelude.{
  ℕ, ◌+◌, ◌≡◌, ap, Bool, true, false, Option, none, some, List, [], ◌∷◌, ◌++◌, Text, codes, arith,
}
use trail.Wire.Encode.{Json}
use trail.Ingest.Decode.{decode_by}
use trail.Ingest.{
  Settings, Message, Pending, Cause, write_failed, Action, write_call, double_ack_call, dlq_call,
  ack_call, nak_call, State, World,
}
use trail.Ingest.Engine.{
  ack_dead, ack_one, reject_one, did, count, more_events, events_of, more_write_errors, dead_letter,
  ack_group, reject, write, decode, Group, append_item, no_group, join, write_last, messages_loop,
}

-- The messages are told apart by an arbitrary test.
module _ (p : Message → Bool) where
  abbrev one : Message → ℕ
  one m = elim (p m) [ true ↦ 1 | false ↦ 0 ]

  abbrev settles : Action → ℕ
  settles (write_call _ _) = 0
  settles (dlq_call _ _ _) = 0
  settles (double_ack_call m _) = one m
  settles (ack_call m _) = one m
  settles (nak_call m) = one m

  -- How many calls settle a message of the test.
  abbrev pub settled : List Action → ℕ
  settled [] = 0
  settled (a ∷ trace) = settles a + settled trace

  -- How many of the messages pass the test.
  abbrev pub among : List Message → ℕ
  among [] = 0
  among (m ∷ messages) = one m + among messages

  abbrev in_group : List Pending → ℕ
  in_group [] = 0
  in_group (item ∷ group) = one item.message + in_group group

  in_group-append :
      (xs : List Pending) (item : Pending)
      → in_group (xs ++ item ∷ []) ≡ in_group xs + one item.message
  in_group-append [] item = omega arith
  in_group-append (x ∷ xs) item = omega (arith, in_group-append xs item)

  module _ (world : World) where
    dead_letter-settled :
        (m : Message) (reason : Text) (cause : Cause) (s : State)
        → settled (dead_letter world m reason cause s).trace ≡ one m + settled s.trace
    unfolding dead_letter ack_dead
    dead_letter-settled m reason cause s = ground arith

    ack_one-settled :
        (item : Pending) (s : State)
        → settled (ack_one world item s).trace ≡ one item.message + settled s.trace
    unfolding ack_one
    ack_one-settled item s = ground arith

    ack_group-settled :
        (group : List Pending) (s : State)
        → settled (ack_group world group s).trace ≡ in_group group + settled s.trace
    unfolding ack_group
    ack_group-settled [] s = omega arith
    ack_group-settled (item ∷ group) s =
        omega (arith, ack_group-settled group (ack_one world item s), ack_one-settled item s)

    module _ (cfg : Settings) where
      reject_one-settled :
          (item : Pending) (s : State)
          → settled (reject_one world cfg item s).trace ≡ one item.message + settled s.trace
      unfolding reject_one
      reject_one-settled item s =
          ground (arith, dead_letter-settled item.message (codes "max-deliveries") write_failed s)

      reject-settled :
          (group : List Pending) (s : State)
          → settled (reject world cfg group s).trace ≡ in_group group + settled s.trace
      unfolding reject
      reject-settled [] s = omega arith
      reject-settled (item ∷ group) s =
          omega
            (arith, reject-settled group (reject_one world cfg item s), reject_one-settled item s)

      write-settled :
          (group : List Pending) (s : State)
          → settled (write world cfg group s).trace ≡ in_group group + settled s.trace
      unfolding write
      write-settled group s = ground (
        arith,
        ack_group-settled group
            (count (more_events (events_of group)) (did (write_call group true) s)),
        reject-settled group (count more_write_errors (did (write_call group false) s)),
      )

      write_last-settled :
          (group : List Pending) (s : State)
          → settled (write_last world cfg group s).trace ≡ in_group group + settled s.trace
      unfolding write_last
      write_last-settled [] s = omega arith
      write_last-settled (item ∷ group) s = write-settled (item ∷ group) s

      abbrev in_item : Option Pending → ℕ
      in_item none = 0
      in_item (some item) = one item.message

      decode-settled :
          (json : Json) (m : Message) (s : State)
          → in_item (decode world cfg json m s).1 + settled (decode world cfg json m s).0.trace
            ≡ one m + settled s.trace
      decode-settled json m s =
          decode_by world cfg m (λ r. in_item r.1 + settled r.0.trace ≡ one m + settled s.trace)
            json s
            (λ reason cause s' same.
              omega (arith, dead_letter-settled m reason cause s', ap settled same))
            (λ batch s' same fits. omega (arith, ap settled same))

      join-settled :
          (item : Option Pending) (g : Group) (s : State)
          → in_group (join world cfg item g s).1.items + settled (join world cfg item g s).0.trace
            ≡ in_item item + (in_group g.items + settled s.trace)
      unfolding join append_item
      join-settled none g s = omega arith
      join-settled (some item) g s =
          ground (arith, write-settled g.items s, in_group-append g.items item)

      messages_loop-group :
          (json : Json) (messages : List Message) (g : Group) (s : State)
          → settled (messages_loop world cfg json messages g s).trace
            ≡ among messages + (in_group g.items + settled s.trace)
      unfolding messages_loop
      messages_loop-group json [] g s = omega (arith, write_last-settled g.items s)
      messages_loop-group json (m ∷ messages) g s = omega (
        arith,
        messages_loop-group json messages
            (join world cfg (decode world cfg json m s).1 g (decode world cfg json m s).0).1
            (join world cfg (decode world cfg json m s).1 g (decode world cfg json m s).0).0,
        join-settled (decode world cfg json m s).1 g (decode world cfg json m s).0,
        decode-settled json m s,
      )

      -- However the outside world answers, the loop over the messages of a fetch settles each of
      -- them exactly once, by DoubleAck, Ack or NakWithDelay: for any test on messages, the
      -- settling calls for messages that pass it grow by the number of fetched messages that pass
      -- it.
      pub messages_loop-settled :
          (json : Json) (messages : List Message) (s : State)
          → settled (messages_loop world cfg json messages no_group s).trace
            ≡ among messages + settled s.trace
      messages_loop-settled json messages s =
          omega (arith, messages_loop-group json messages no_group s)
