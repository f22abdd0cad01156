-- ===== src/Explorer/Sent.antt =====
-- explorerapi/server.go: the payload that `eventPayload` sends.
use trail.Prelude.{
  ◌≡◌, refl, Bool, true, false, not, Option, none, some, [], ◌∷◌, Text, codes, take, arith,
  if◌then◌else◌,
}
use mathlib.Core.Path.{subst}
use trail.Prelude.Int.{pos_part, ltb_ℤ, ◌≤ℤ◌}
use trail.Id.{Identifier, Outcome, ok, invalid, panic, decode_id}
use trail.Payload.Store.{
  Stores, Stream, Failure, Answer, found, missed, not_found, invalid_cursor, other_failure,
}
use trail.Storage.{EventRecord, PayloadLink}
use trail.Archive.{Library}
use trail.Explorer.{Request, PathValues, Body, Response, Web, Config}
use trail.Explorer.Filters.{scope_filter, scope_allowed}
use trail.Explorer.Respond.{write_json, respond_error, bad, respond, respond_failure, send_content}
use trail.Explorer.Handlers.{
  path_value, with_id, find_link, open_payload, link_payload, found_payload, event_payload,
}
use trail.Explorer.Scope.{Within, scope_allowed-Within}

module _ (S : Stores) (lib : Library) (web : Web) (cfg : Config S lib) (r : Request)
    (values : PathValues) (s : S.State) where
  -- The bytes are the beginning of a payload of the event, which is of the scope, up to the limit.
  pub record Sent (bytes : Text) : Type 0 where
    pub id : Identifier
    pub event : EventRecord
    pub link : PayloadLink
    pub store : S.Handle
    pub stream : Stream
    pub parsed : decode_id (path_value (codes "event") values) ≡ ok id
    pub stored : cfg.store.get_event id ≡ found event
    pub within : Within (scope_filter web r) event.scope
    pub linked : find_link (path_value (codes "role") values) event.payloads ≡ some link
    pub configured : cfg.payload_stores link.ref.store ≡ some store
    pub small : link.ref.size ≤ℤ cfg.max_payload_bytes
    pub opened : S.open_object store link.ref s ≡ found stream
    pub sent : bytes ≡ take (pos_part cfg.max_payload_bytes) stream.bytes

  abbrev OnlySent : Body → Type 0
  OnlySent (Body.content bytes) = Sent bytes
  OnlySent _ = Unit

  failure-OnlySent : (e : Failure) → OnlySent ((respond_failure e).body)
  unfolding respond_failure bad respond_error write_json
  failure-OnlySent not_found = tt
  failure-OnlySent invalid_cursor = tt
  failure-OnlySent other_failure = tt

  module _ (id : Identifier) (parsed : decode_id (path_value (codes "event") values) ≡ ok id)
      (event : EventRecord) (stored : cfg.store.get_event id ≡ found event)
      (within : Within (scope_filter web r) event.scope) where
    module _ (link : PayloadLink)
        (linked : find_link (path_value (codes "role") values) event.payloads ≡ some link) where
      sent-OnlySent :
          (store : S.Handle) (x : Answer Stream)
          → cfg.payload_stores link.ref.store ≡ some store
          → S.open_object store link.ref s ≡ x
          → link.ref.size ≤ℤ cfg.max_payload_bytes
          → OnlySent (
              (send_content cfg.max_payload_bytes link.ref
                ((codes "Content-Disposition", codes "inline") ∷ [])
                x).body)
      unfolding send_content
      sent-OnlySent store (missed e) configured opened small = failure-OnlySent e
      sent-OnlySent store (found stream) configured opened small = record {
        id = id;
        event = event;
        link = link;
        store = store;
        stream = stream;
        parsed = parsed;
        stored = stored;
        within = within;
        linked = linked;
        configured = configured;
        small = small;
        opened = opened;
        sent = refl;
      }

      size-OnlySent :
          (store : S.Handle) (large : Bool) (response : Response)
          → ltb_ℤ cfg.max_payload_bytes link.ref.size ≡ large
          → (link.ref.size ≤ℤ cfg.max_payload_bytes → OnlySent (response.body))
          → OnlySent (
              (if large
                then respond_error 413
                    (codes "payload_too_large")
                    (codes "payload exceeds Explorer read limit")
                else response).body)
      unfolding respond_error write_json
      size-OnlySent store true response e h = tt
      size-OnlySent store false response e h = h (ground (arith, e))

      store-OnlySent :
          (store : Option S.Handle)
          → cfg.payload_stores link.ref.store ≡ store
          → OnlySent ((open_payload S lib web cfg r values link.ref store s).body)
      unfolding open_payload respond_error write_json
      store-OnlySent none e = tt
      store-OnlySent (some store) e =
          size-OnlySent store _ _ refl λ small. sent-OnlySent store _ e refl small

    link-OnlySent :
        (link : Option PayloadLink)
        → find_link (path_value (codes "role") values) event.payloads ≡ link
        → OnlySent ((link_payload S lib web cfg r values link s).body)
    unfolding link_payload respond
    link-OnlySent none e = failure-OnlySent not_found
    link-OnlySent (some link) e = store-OnlySent link e _ refl

  allowed-OnlySent :
      (id : Identifier) (v : EventRecord)
      → decode_id (path_value (codes "event") values) ≡ ok id
      → cfg.store.get_event id ≡ found v
      → (allowed : Bool) → scope_allowed (scope_filter web r) v.scope ≡ allowed
      → OnlySent (
          (if not allowed
            then respond Body.event_body (missed not_found)
            else link_payload S lib web cfg r values
                (find_link (path_value (codes "role") values) v.payloads)
                s).body)
  unfolding respond
  allowed-OnlySent id v parsed stored false e = failure-OnlySent not_found
  allowed-OnlySent id v parsed stored true e =
      link-OnlySent id parsed v stored (scope_allowed-Within (scope_filter web r) v.scope e) _ refl

  event-OnlySent :
      (id : Identifier) (x : Answer EventRecord)
      → decode_id (path_value (codes "event") values) ≡ ok id
      → cfg.store.get_event id ≡ x
      → OnlySent ((found_payload S lib web cfg r values x s).body)
  unfolding found_payload respond
  event-OnlySent id (missed e) parsed stored = failure-OnlySent e
  event-OnlySent id (found v) parsed stored = allowed-OnlySent id v parsed stored _ refl

  id-OnlySent :
      (x : Outcome Identifier)
      → decode_id (path_value (codes "event") values) ≡ x
      → OnlySent
          ((with_id x (λ id. found_payload S lib web cfg r values (cfg.store.get_event id) s)).body)
  unfolding with_id bad respond_error write_json
  id-OnlySent (ok id) e = event-OnlySent id _ e refl
  id-OnlySent invalid e = tt
  id-OnlySent panic e = tt

  -- The bytes that eventPayload sends are the beginning, up to the limit of the server, of a
  -- payload that the first link with the role of the path names, of the event of the path, which
  -- lies in the scope of the request; its store is configured and its size is within the limit.
  pub event_payload-Sent :
      (bytes : Text)
      → (event_payload S lib web cfg r values s).body ≡ Body.content bytes
      → Sent bytes
  unfolding event_payload
  event_payload-Sent bytes e = subst OnlySent e (id-OnlySent _ refl)
