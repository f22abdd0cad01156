-- ===== src/Retention/Tests.antt =====
-- Retention with one expired event and one payload candidate.
use trail.Prelude.{
  ℕ, suc, ◌≡◌, ◌≢◌, ◌≤◌, refl, Bool, true, false, Option, none, some, List, [], ◌∷◌, ◌++◌, Text,
  codes, replicate, length, ltb, if◌then◌else◌, arith, All,
}
use trail.Prelude.Int.{pos, pos_part}
use trail.Payload.{no_ref, zero_time}
use trail.Payload.Hex.{checksum_text}
use trail.Storage.{EventRecord, no_http}
use trail.Archive.{Receipt}
use trail.Retention.{
  Action, EventMatch, EventPolicy, PayloadPolicy, Config, Payload, Event, EventPage, ScanRequest,
  DeleteResult, Result, World,
}
use trail.Retention.Policy.{new, payload_expiry, match_event}
use trail.Retention.Archived.{same_archive_events, record_keys, AllIn, same_archive_events-AllIn}
use trail.Retention.Engine.{State}
use trail.Retention.Whole.{run, run_ends, run-Harmless}
use trail.Retention.Run.{out_of_fuel, run_events}
use trail.Retention.Guard.{Guarded, run_events-Guarded}
use trail.Retention.Dry.{Harmless}
use trail.Retention.Fuel.{scanned}
use trail.Retention.Expiry.{without_classes, payload_expiry-without_classes, Bounded, new-Bounded}
use trail.Retention.Candidate.{Candidate, PayloadState, PayloadWorld, removed}
use trail.Retention.Collect.{collect_payloads}
use trail.Retention.Collected.{Careful, final, collect_payloads-Careful}

abbrev any_event : EventMatch
any_event = record {
  kind = [];
  service = [];
  environment = [];
  level = none;
  flow_status = [];
  execution_status = [];
  http_status_class = pos 0;
  http_success = none;
}

abbrev request_policy : PayloadPolicy
request_policy = record {
  name = codes "debug";
  match_payload = record {
    event = any_event;
    role = codes "request";
    content_type = [];
    retention_class = codes "debug";
  };
  ttl = pos 5;
}

abbrev config : Config
config = record {
  event_policies = record { name = codes "all"; match_event = any_event; ttl = pos 10 } ∷ [];
  event_classes = [];
  default_event_ttl = pos 0;
  payload_policies = request_policy ∷ [];
  payload_classes = [];
  default_payload_ttl = pos 0;
  event_batch_size = pos 1000;
  payload_batch_size = pos 100;
  payload_concurrency = pos 1;
  max_events = pos 100_000;
  max_payloads = pos 10_000;
  max_runtime = pos 600_000_000_000;
  payload_grace_period = pos 86_400_000_000_000;
}

abbrev old_event : Event
old_event = record {
  id = codes "07";
  cursor = [];
  flow_id = [];
  execution_id = [];
  timestamp = pos 3;
  kind = codes "http";
  service = codes "shop";
  environment = [];
  level = 1;
  flow_status = [];
  execution_status = [];
  retention_class = [];
  http_status_code = pos 200;
  http_success = true;
  payloads = [];
}

abbrev old_record : EventRecord
old_record = record {
  id = replicate 15 0 ++ 7 ∷ [];
  timestamp = pos 3;
  kind = codes "http";
  level = 1;
  flow_id = [];
  execution_id = [];
  parent_execution_id = [];
  retry_of_execution_id = [];
  execution_attempt = 0;
  execution_source = [];
  scope = record { type = []; id = [] };
  entity_type = [];
  entity_id = [];
  parent_id = [];
  fields = [];
  flow_status = [];
  execution_status = [];
  execution_kind = [];
  retention_class = [];
  provider = [];
  has_error = false;
  http = no_http;
  payloads = [];
  batch_id = [];
  metadata = record { service = codes "shop"; environment = []; version = [] };
  delivery = record {
    stream = [];
    consumer = [];
    stream_sequence = 0;
    consumer_sequence = 0;
    delivered = 0;
    received_at = zero_time;
  };
}

abbrev receipt : Receipt
receipt = record {
  manifest = record {
    version = codes "trail.archive/v1";
    id = codes "a1";
    created_at = pos 99;
    event_count = pos 1;
    event_ids = codes "07" ∷ [];
    events = no_ref;
    payloads = [];
  };
  manifest_ref = no_ref;
}

abbrev one_page : EventPage
one_page = record { events = old_event ∷ []; next_cursor = []; has_more = false }

abbrev world : World
world = record {
  reconciles = λ trace. true;
  scans = λ trace req. if ltb 0 req.limit then some one_page else none;
  loads = λ trace events. some (old_record ∷ []);
  archives = λ trace records. some receipt;
  records = λ trace r. true;
  deletes = λ trace req. (record { events_deleted = 1; payload_candidates = 0 }, true);
  stopped = λ trace. false;
}

abbrev start : State
start = record {
  result = record {
    events_scanned = 0;
    events_matched = 0;
    events_eligible = 0;
    events_deleted = 0;
    payload_candidates = 0;
    errors = 0;
    archives_created = 0;
    events_archived = 0;
    payloads_archived = 0;
    archive_bytes_written = 0;
    archive_failures = 0;
  };
  trace = [];
}

run_events-Guarded_example :
    Guarded config (pos 50) (run_events world config (pos 50) false 3 start).0.trace
run_events-Guarded_example = run_events-Guarded config (pos 50) world false 3 start tt

same_records : same_archive_events (old_record ∷ []) (old_event ∷ []) ≡ true
unfolding same_archive_events trail.Retention.Archived.check_records trail.Retention.Archived.wanted
    trail.Retention.Archived.add_key trail.Retention.Archived.has_key
    trail.Retention.Archived.remove_key trail.Prelude.text_eq checksum_text
same_records = refl

same_archive_events-AllIn_example :
    (length (old_record ∷ []) ≡ length (old_event ∷ []))
    × AllIn (record_keys (old_record ∷ [])) (old_event ∷ [])
same_archive_events-AllIn_example =
    same_archive_events-AllIn (old_record ∷ []) (old_event ∷ []) same_records

abbrev other_payload : Payload
other_payload = record { role = codes "request"; ref = no_ref }

payload_expiry-without_classes_example :
    payload_expiry (without_classes config) old_event other_payload
    ≡ payload_expiry config old_event other_payload
payload_expiry-without_classes_example =
    payload_expiry-without_classes config old_event other_payload

config_accepted : new true true config ≡ some config
unfolding new trail.Retention.Policy.with_defaults trail.Retention.Policy.exceeds
    trail.Retention.Policy.validate trail.Retention.Policy.valid_policies
    trail.Retention.Policy.valid_payload_policies trail.Retention.Policy.valid_classes
config_accepted = refl

new-Bounded_example : Bounded config
new-Bounded_example = new-Bounded true true config config config_accepted

abbrev orphan : Candidate
orphan = record {
  ref = record no_ref {
    store = codes "files";
    key = codes "sha256/" ++ checksum_text (replicate 32 7);
    sha256 = replicate 32 7;
  };
  archive_id = codes "a1";
  eligible_at = pos 1;
  candidate_at = pos 1;
  attempts = 0;
  last_error = [];
}

abbrev payload_world : PayloadWorld
payload_world = record {
  lists = λ trace limit. some (orphan ∷ []);
  live = λ trace refs. some [];
  has_store = λ store. true;
  removes = λ trace ref. removed;
  completes = λ trace ref note. true;
  stopped = λ trace. false;
}

abbrev payload_start : PayloadState
payload_start = record {
  result = record {
    payloads_referenced = 0;
    payloads_orphaned = 0;
    payloads_unknown = 0;
    payloads_deleted = 0;
    payload_bytes_reclaimed = 0;
    errors = 0;
  };
  trace = [];
}

collect_payloads-Careful_example :
    Careful (final payload_world 2 (collect_payloads payload_world 2 5 4 payload_start)).trace
collect_payloads-Careful_example = collect_payloads-Careful payload_world 2 5 4 payload_start tt

abbrev payloads : List Action → PayloadWorld
payloads calls = payload_world

run-Harmless_example :
    Harmless (run world payloads config 3 3 (pos 50) true start).events
    × ((run world payloads config 3 3 (pos 50) true start).payloads.trace ≡ [])
run-Harmless_example = run-Harmless world payloads config 3 3 (pos 50) start tt

run_ends_example :
    let report =
      run world payloads config
        (suc (pos_part config.max_events))
        (suc (pos_part config.max_payloads))
        (pos 50)
        false
        start in
    (report.exit ≢ out_of_fuel) × (scanned report.events ≤ pos_part config.max_events)
run_ends_example =
    run_ends world payloads config (pos 50) false start (λ trace req page e. ground (arith, e))
      (omega arith) (omega arith) refl
