-- ===== src/Ingest/Limits.antt =====
-- The sizes of the groups that the engine writes.
use trail.Prelude.{
  ℕ, ◌+◌, ◌≤◌, ◌<◌, ◌≡◌, refl, ap, ◌⊎◌, inl, inr, true, false, Option, none, some, List, [], ◌∷◌,
  ◌++◌, Text, codes, length, All, Bool-cases, arith,
}
use trail.Wire.Encode.{Json}
use trail.Ingest.Decode.{decode_by}
use trail.Ingest.{Settings, Message, Pending, Cause, write_failed, Action, write_call, State, World}
use trail.Ingest.Engine.{
  ack_dead, ack_one, reject_one, did, count, more_events, events_of, bytes_of, more_write_errors,
  dead_letter, ack_group, reject, write, decode, Group, append_item, no_group, is_nonempty, is_full,
  join, write_last, messages_loop, Turn, run,
}

module _ (cfg : Settings) where
  -- At most the limit of bytes, and at most the limit of events unless it is one message.
  abbrev pub Fits : List Pending → Type 0
  Fits group =
      (0 < length group)
      × ((bytes_of group ≤ cfg.max_bytes)
          × ((events_of group ≤ cfg.max_events) ⊎ (length group ≡ 1)))

  abbrev pub Written : Action → Type 0
  Written (write_call group _) = Fits group
  Written _ = Unit

  abbrev pub Limited : List Action → Type 0
  Limited trace = All Written trace

  -- The group that grows: its sums are those of its items.
  abbrev Growing : Group → Type 0
  Growing g =
      (g.events ≡ events_of g.items)
      × ((g.bytes ≡ bytes_of g.items) × ((g.items ≡ []) ⊎ Fits g.items))

  events_of-append :
      (xs : List Pending) (item : Pending)
      → events_of (xs ++ item ∷ []) ≡ events_of xs + length item.batch.events
  events_of-append [] item = omega arith
  events_of-append (x ∷ xs) item = omega (arith, events_of-append xs item)

  bytes_of-append :
      (xs : List Pending) (item : Pending) → bytes_of (xs ++ item ∷ []) ≡ bytes_of xs + item.bytes
  bytes_of-append [] item = omega arith
  bytes_of-append (x ∷ xs) item = omega (arith, bytes_of-append xs item)

  length-append_one :
      (xs : List Pending) (item : Pending) → length (xs ++ item ∷ []) ≡ length xs + 1
  length-append_one [] item = omega arith
  length-append_one (x ∷ xs) item = omega (arith, length-append_one xs item)

  module _ (world : World) where
    dead_letter-Limited :
        (m : Message) (reason : Text) (cause : Cause) (s : State)
        → Limited s.trace
        → Limited (dead_letter world m reason cause s).trace
    unfolding dead_letter ack_dead
    dead_letter-Limited m reason cause s h = ground arith

    ack_one-Limited :
        (item : Pending) (s : State) → Limited s.trace → Limited (ack_one world item s).trace
    unfolding ack_one
    ack_one-Limited item s h = ground arith

    ack_group-Limited :
        (group : List Pending) (s : State)
        → Limited s.trace
        → Limited (ack_group world group s).trace
    unfolding ack_group
    ack_group-Limited [] s h = h
    ack_group-Limited (item ∷ group) s h = ack_group-Limited group _ (ack_one-Limited item s h)

    reject_one-Limited :
        (item : Pending) (s : State) → Limited s.trace → Limited (reject_one world cfg item s).trace
    unfolding reject_one
    reject_one-Limited item s h =
        ground (arith, dead_letter-Limited item.message (codes "max-deliveries") write_failed s h)

    reject-Limited :
        (group : List Pending) (s : State)
        → Limited s.trace
        → Limited (reject world cfg group s).trace
    unfolding reject
    reject-Limited [] s h = h
    reject-Limited (item ∷ group) s h = reject-Limited group _ (reject_one-Limited item s h)

    write-Limited :
        (group : List Pending) (s : State)
        → Fits group
        → Limited s.trace
        → Limited (write world cfg group s).trace
    unfolding write
    write-Limited group s fits h = ground (
      arith,
      ack_group-Limited group
          (count (more_events (events_of group)) (did (write_call group true) s)) (fits, h),
      reject-Limited group (count more_write_errors (did (write_call group false) s)) (fits, h),
    )

    write_last-Limited :
        (group : List Pending) (s : State)
        → (group ≡ []) ⊎ Fits group
        → Limited s.trace
        → Limited (write_last world cfg group s).trace
    unfolding write_last
    write_last-Limited [] s fits h = h
    write_last-Limited (item ∷ group) s fits h = elim fits [
      | inl empty ↦ absurd (ground (arith, empty))
      | inr f ↦ write-Limited (item ∷ group) s f h
    ]

    abbrev Small : Option Pending → Type 0
    Small none = Unit
    Small (some item) = item.bytes ≤ cfg.max_bytes

    decode-Limited :
        (json : Json) (m : Message) (s : State)
        → Limited s.trace
        → Small (decode world cfg json m s).1 × Limited (decode world cfg json m s).0.trace
    decode-Limited json m s h =
        decode_by world cfg m (λ r. Small r.1 × Limited r.0.trace) json s
          (λ reason cause s' same. (tt, dead_letter-Limited m reason cause s' (rw same h)))
          (λ batch s' same fits. (fits, rw same h))

    append-Fits :
        (items : List Pending) (item : Pending) (events bytes : ℕ)
        → Small (some item)
        → events ≡ events_of items
        → bytes ≡ bytes_of items
        → is_full world cfg (record { items = items; events = events; bytes = bytes }) item ≡ false
        → Fits (items ++ item ∷ [])
    unfolding is_full
    append-Fits [] item events bytes small es bs room = ground arith
    append-Fits (x ∷ xs) item events bytes small es bs room =
        ground (arith, events_of-append xs item, bytes_of-append xs item, length-append_one xs item)

    append_item-Growing :
        (g : Group) (item : Pending)
        → Small (some item)
        → Growing g
        → is_full world cfg g item ≡ false
        → Growing (append_item g item)
    unfolding append_item
    append_item-Growing g item small h room = (
      omega (arith, h.0, events_of-append g.items item),
      (
        omega (arith, h.1.0, bytes_of-append g.items item),
        inr (append-Fits g.items item g.events g.bytes small h.0 h.1.0 room),
      ),
    )

    single-Growing : (item : Pending) → Small (some item) → Growing (append_item no_group item)
    unfolding append_item
    single-Growing item small = ground arith

    join_full :
        (item : Pending) (g : Group) (s : State)
        → is_full world cfg g item ≡ true
        → join world cfg (some item) g s ≡ (write world cfg g.items s, append_item no_group item)
    unfolding join
    join_full item g s full = ground (arith, full)

    join_room :
        (item : Pending) (g : Group) (s : State)
        → is_full world cfg g item ≡ false
        → join world cfg (some item) g s ≡ (s, append_item g item)
    unfolding join
    join_room item g s room = ground (arith, room)

    is_full-Fits :
        (g : Group) (item : Pending)
        → (g.items ≡ []) ⊎ Fits g.items
        → is_full world cfg g item ≡ true
        → Fits g.items
    unfolding is_full
    is_full-Fits g item (inl empty) full = absurd (ground (arith, full, ap is_nonempty empty))
    is_full-Fits g item (inr fits) full = fits

    join-Limited :
        (item : Option Pending) (g : Group) (s : State)
        → Small item
        → Growing g
        → Limited s.trace
        → Growing (join world cfg item g s).1 × Limited (join world cfg item g s).0.trace
    unfolding join
    join-Limited none g s small h limited = (h, limited)
    join-Limited (some item) g s small h limited = elim (Bool-cases (is_full world cfg g item)) [
      | inl full ↦ rw (join_full item g s full) (
        single-Growing item small,
        write-Limited g.items s (is_full-Fits g item h.1.1 full) limited,
      )
      | inr room ↦ rw (join_room item g s room) (append_item-Growing g item small h room, limited)
    ]

    messages_loop-Limited :
        (json : Json) (messages : List Message) (g : Group) (s : State)
        → Growing g
        → Limited s.trace
        → Limited (messages_loop world cfg json messages g s).trace
    unfolding messages_loop
    messages_loop-Limited json [] g s h limited = write_last-Limited g.items s h.1.1 limited
    messages_loop-Limited json (m ∷ messages) g s h limited =
        let decoded = decode-Limited json m s limited in
        let joined = join-Limited (decode world cfg json m s).1 g _ decoded.0 h decoded.1 in
        messages_loop-Limited json messages _ _ joined.0 joined.1

    no_group-Growing : Growing no_group
    no_group-Growing = (refl, (refl, inl refl))

    -- Every group that a run of the ingestor writes, from a trace that is so, is not empty, has at
    -- most MaxBytes bytes, and has at most MaxEvents events or is a single message.
    pub run-Limited :
        (json : Json) (turns : List Turn) (s : State)
        → Limited s.trace
        → Limited (run world cfg json turns s).0.trace
    unfolding run
    run-Limited json [] s h = h
    run-Limited json (Turn.cancelled ∷ turns) s h = h
    run-Limited json (Turn.fetch_failed ∷ turns) s h = h
    run-Limited json (Turn.fetch_failed_cancelled ∷ turns) s h = h
    run-Limited json (Turn.fetched messages (some true) ∷ turns) s h =
        messages_loop-Limited json messages no_group s no_group-Growing h
    run-Limited json (Turn.fetched messages (some false) ∷ turns) s h =
        run-Limited json turns _ (messages_loop-Limited json messages no_group s no_group-Growing h)
    run-Limited json (Turn.fetched messages none ∷ turns) s h =
        run-Limited json turns _ (messages_loop-Limited json messages no_group s no_group-Growing h)
