-- ===== src/Lib.antt =====
-- Trail records business and runtime events of a Go service, moves them to a store and keeps them
-- for as long as a policy says. Its parts, by the path of an event:
--
--   * id.go makes the identifiers; field.go, event.go, level.go and scope.go are the event and the
--     options of a call of `Log`;
--   * config.go checks the configuration, and trail.go runs the writer: calls of `Log` put events
--     into a bounded queue, and one goroutine takes batches out of it and gives them to a sink;
--   * wire/wire.go makes the transport envelope of a batch, and validates it on both sides;
--   * payload/payload.go refers to large data by fields of an event, and trailhttp journals outgoing
--     HTTP requests and keeps their bodies as payloads;
--   * ingestor/ingestor.go fetches envelopes, makes records of them with storage/normalize.go, and
--     writes them in groups to a store;
--   * retention/retention.go deletes expired events after it has archived them, and payload objects
--     that nothing refers to any more; archive/archive.go writes, reads and restores the archives;
--   * explorerapi/server.go shows what is stored over HTTP, by the queries of storage/storage.go.
--
-- The files, with the names of the code in parentheses:
--
--   * Prelude: bytes as natural numbers and strings as lists of them, Boolean tests, lists, and the
--     signed 64-bit numbers with their uint64 bits (Prelude.Int).
--   * Id (`encodeID`, `decodeID`, `crockfordValue`), Id/Generator (`nextID`); Id/Radix, Id/RoundTrip
--     and Id/Canonical are about the text form. `big.Int` is a natural number, and the two calls that
--     can fail are values of `Outcome`.
--   * Event (`Event`, `Field`, `Level`), Event/Options (the constructors of `Option`), Event/Build
--     (the loop of `Log` over the options).
--   * Config (`normalizeConfig`, and what `Init` takes from it).
--   * Writer: Writer/Produce is `enqueue`, Writer/Run the goroutine `run` with `publish` and
--     `waitForProducers`, Writer/Step the whole system. Each atomic operation, channel operation and
--     call of the sink is a step, and a schedule, a list of actions, chooses who steps; a step that
--     would block changes nothing. The theorems hold of every schedule. Writer/Take, Send, Sums and
--     Induction are the lemmas on steps; Accounting, Delivery, Calls, Bounds and Shutdown the invariants.
--   * Memory (the sink of sink/memory/memory.go), Memory/Stores (that sink behind the writer).
--   * Nats (the sink of sink/nats/nats.go: `New`, `Connect`, `normalize`), Nats/Publish (`WriteBatch`,
--     `PublishEnvelope`, `publish`, `Close`), Nats/Cases, Published and Counted. A `World` answers the
--     calls of the connection by the calls before it; the operations follow one another.
--   * Wire (`Validate`, `validateEvent`), Wire/Encode (`fromEvent`, `MarshalBatch`, `Marshal`,
--     `Unmarshal`), Wire/Valid.
--   * Payload (`Ref`, `Fields`), Payload/Hex (`checksumText`, and `hex.DecodeString`), Payload/Store
--     (`PutOptions`, and `Store` as a record of functions, with what the archive relies on as the
--     record `IsLawful`). Payload/Files (`Put`, `Open`, `Delete` and `path` of the store in
--     payload/filesystem), whose `Os` says which of the system's calls fail;
--     Payload/Files/Stored, and Payload/Files/Lawful, by which this store is an `IsLawful` one.
--   * Storage (the records), Storage/Normalize (`Normalize`, `normalizeEvent`, `applyPayloadField`),
--     Storage/Recover, Sorted, Links and RefFields. The map from roles to links is a list
--     with one link for each role; it is sorted before it is stored, as the code does.
--   * Ingest (the state of the engine, `New`), Ingest/Engine (`Run`, `decode`, `write`, `reject`,
--     `deadLetter`), Ingest/Decode, Safety, Settle, Limits and Made. The engine keeps the trace of its
--     calls; a `World` answers each of them by the calls before it, so every behaviour of the stream,
--     the store and the publisher is covered. A turn of the loop of `Run` is a value that says what
--     `Fetch` gave.
--   * Retention (the data), Retention/Policy (`New`, `validate`, `matchEvent`, `eventExpiry`,
--     `payloadExpiry`), Retention/Archived (`sameArchiveEvents`), Retention/Engine and Retention/Run
--     (`Run`, up to the collection), Retention/Candidate and Retention/Collect (`processCandidate`,
--     `collectPayloads`), Retention/Whole (`Run`, with the collection); Guard, Dry, Fuel, Expiry,
--     Collected and Rounds are about them. The store
--     and the archiver are a `World` of the same form, and maps are lists of entries. The workers of
--     the collection are one, which takes the candidates of a page in their order.
--   * Archive (the data), Archive/Io (operations on the state of the stores that may fail, as a monad),
--     Archive/Write (`Write`), Archive/Read (`ReadManifest`, `ReadEvents`), Archive/Restore
--     (`Restore`). Several handles may stand for one store. Made and Steps say what a `Write` that
--     succeeded did; Scan, RoundTrip, Complete and Restored are about what is read back. A line is
--     too long for
--     the scanner from 16 MiB on.
--   * Storage/Query (the filters and views of the Explorer, and `ExplorerStore` as a record of
--     functions). Explorer (configuration, requests, responses), Explorer/Base64 and Parse (the parts
--     of encoding/base64 and strconv that it uses), Filters (`page`, the cursors and the filters),
--     Respond, Handlers, Archives (the handlers), Routes (`New`, `cors`, `ServeHTTP`). Bodies and Cases go
--     through the handlers once for all properties of responses; Scope, Answers, Paging and Sent
--     are about them.
--   * Http (the data), Http/Settings (the options and `Wrap`), Http/Capture (`capture`), Http/Journal
--     (`log`, `headerFields`, `requestPath`), Http/Exchange (`RoundTrip` and the reads of the bodies),
--     Http/Spool (`PayloadSpooler`); Once, Redacted and Accepted are about them. The names of headers
--     are gone through in the order of a list, which may be any.
--
-- The loops of the writer and of the ingestor go over a schedule or a list of turns of any length.
-- The two loops of retention run on fuel: one turn more than the limit of events, one round more than
-- the limit of payloads, are enough, since each turn that goes on has scanned or taken at least one.
--
-- Not modelled: `encoding/json`, `net/http`, `net/url`, `compress/gzip`, `crypto/sha256` and
-- `time.Parse`, which the definitions take as functions; the SQL of storage/postgres and
-- storage/clickhouse, the S3 payload store, the library of NATS, the commands, the generator
-- of test data, and the formatting of sink/stdout, which are calls of the outside world; the contexts
-- of calls, but for the scan of an archive; the times in the result of retention.
pub mod Prelude
pub mod Id
pub mod Event
pub mod Writer
pub mod Config
pub mod Wire
pub mod Payload
pub mod Storage
pub mod Archive
pub mod Explorer
pub mod Http
pub mod Ingest
pub mod Retention
pub mod Memory
pub mod Nats
