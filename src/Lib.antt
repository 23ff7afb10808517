-- ===== src/Lib.antt =====
-- BCRSTracking watches the reverse vending machines of a bottle return scheme: it polls a directory
-- of machines and the fill of their bins, finds what has changed, and writes rows to ClickHouse in
-- batches. This library models the parts of the program that keep state and decide, and proves what
-- makes them correct.
--
-- The files, by the part of the repository that they model:
-- - Model.antt and Model/Index.antt: the records of internal/model (RVM, BinStatus, RVMEvent),
--   and maps of machines by number.
-- - Text.antt: the texts that the program builds with fmt and encoding/json.
-- - Errors.antt: Go's errors, with the wrapping of %w and errors.Is.
-- - Diff.antt: DiffState of internal/poller/diff.go. Its two loops are scan_current and
--   scan_previous, and each of the four changes that they make is a function. Diff/Spec says what
--   they are meant to find; Diff/Induction, Diff/Rows, Diff/Events, Diff/Replica and Diff/Quiet
--   hold proofs.
-- - Metrics.antt: internal/metrics/metrics.go, the vectors as maps from label values to numbers.
--   Metrics/Vectors has what New declares of each vector, Metrics/Calls any sequence of calls of the
--   methods; Metrics/Change and Metrics/Series hold proofs.
-- - Config.antt: internal/config/config.go, the settings and Load.
-- - Client.antt: doWithRetry of internal/client/bcrs_client.go. attempt_from is its loop; in each
--   round verdict says what the round comes to and record_attempt what it records. Client/Rounds,
--   Client/Retry, Client/Delays, Client/Records and Client/Effects hold proofs.
-- - Settings.antt: the settings with which New of the same file makes a client, with a proof in
--   Settings/Limits.
-- - Strings.antt: Go's package strings, as far as the program uses it.
-- - AccessToken.antt: UnmarshalJSON of internal/model/token.go, the search for the token and its
--   expiry, with a proof in AccessToken/Source.
-- - Requests.antt: EndpointURL, fetchAccessToken, GetLocations and GetBinStatus of
--   internal/client/bcrs_client.go, with proofs in Requests/Tokens and Requests/Urls.
-- - Decode.antt: UnmarshalJSON of internal/model/rvm.go and internal/model/bin.go, each into a receiver.
-- - TokenCache.antt: getAccessToken and invalidateToken of internal/client/bcrs_client.go. A state holds the shared
--   fields, every tokenCall that was made, and the place where each goroutine stands; act is one
--   section of a goroutine, step one event, run a schedule of events. TokenCache/Flight has the
--   invariant of the state; TokenCache/Followers, TokenCache/Invalidation and TokenCache/Provenance
--   hold proofs.
-- - Storage.antt: the inserts and loads of internal/storage/clickhouse.go over the rows of
--   Storage/Rows, which they exchange with the driver, with proofs in Storage/Sink and Storage/Loads.
--   Storage/Schema has the tables of SchemaDDL and the texts of the statements; Storage/Typing and
--   Storage/Scans hold proofs about them. Storage/Lifecycle has New and Close, with a proof in
--   Storage/Lifecycle/Shutdown. Storage/Merge states what the engine of rvm_current,
--   ReplacingMergeTree(updated_at), is documented to do with a row that is written.
-- - Batch.antt: BatchBuffer of internal/storage/batch_writer.go. A state holds the three
--   channels, the worker's batches, what the sink has committed, and the place where the worker
--   stands; step makes one move of a producer or of the worker, and run a schedule of moves.
--   Batch/Conservation, Batch/Bounds and Batch/Shutdown hold proofs.
-- - Batch/Callers.antt: the callers of Flush, Stop and Close of the same file, beside the buffer.
--   deed is what one of them does, take_turn one step of all, run_turns a schedule. Its children hold
--   proofs.
-- - Poller.antt and Poller/Locations.antt: the state of internal/poller/poller.go and
--   PollLocations, with proofs in the children of Poller/Locations.
-- - Poller/Workers.antt: the worker pool of PollBins; move is one step of a worker, of the collector
--   or of the surroundings, and run_pool a schedule. Its children hold proofs.
-- - Poller/Counts.antt and Poller/Bins.antt: the two-level maps of counts, and PollBins, from the
--   point where its worker pool has finished, with proofs in their children.
-- - Poller/Hydration.antt: HydrateFromStorage and applyHydratedBinSnapshots, with proofs in its
--   children.
-- - Poller/Loops.antt: Start, its two loops and their tickers. take_step is one step of a loop, of the
--   pool, of the buffer or of the surroundings, and take_steps a schedule. Its children hold proofs.
-- - Startup.antt: cmd/tracker/main.go from its beginning to the start of the poller, with proofs in
--   Startup/Ready and Startup/Launch.
-- - Prelude.antt and its children: tests, lists, Go maps and equality of keys. Tests.antt and its
--   children: runs on concrete inputs.
--
-- How they interact: poll_locations calls diff_state on the poller's map and hands its rows and
-- events to the enqueue functions of the buffer, which the other goroutines use in between; the pool
-- hands the bins to the buffer as well, and poll_bins works on what the pool has collected; all
-- record in Metrics. The worker of the buffer hands batches to a sink, which is the environment's answer in Batch, and the inserts of Storage in
-- Storage/Sink. hydrate_from_storage starts the poller from what the loads of Storage bring. The
-- attempts of do_with_retry take their tokens from getAccessToken, which TokenCache models, and
-- the refused ones go to invalidate_token; a leader's fetch is fetch_access_token, which calls
-- do_with_retry without a token and reads the answer with unmarshal_json.
--
-- Conventions. An unsigned field is a natural number. A time is in nanoseconds since the zero time,
-- a duration in nanoseconds; a delay of the client is an int64, written as its value modulo 2^64. A
-- float64 of the settings, of a coordinate or of a JSON number is its 64-bit pattern; a metric value is a whole number, exact as a float64 below 2^53. A Go map is a list
-- of entries in the order in which a range visits it, and theorems hold for every such list. The
-- clock, the context, the answers of the API, of the sink and of the database, the environment, the
-- readers of encoding/json, strconv and time, the random numbers and uuid.New are arguments. decimal
-- prints at most ten digits, which is enough for a uint32. The loops of do_with_retry and of
-- connect_from recurse on the attempts that are left; all other loops recurse on their lists.
--
-- Not modelled: goroutine scheduling below the steps named above, log lines, the headers of requests,
-- url.Parse and isHTMLPayload (it cuts and folds the bytes of a text, and only chooses between two
-- error messages), the time that passes between two ticks, the JSON names of the fields, by which
-- encoding/json decodes, what ClickHouse does with a statement, the buckets of the histograms, and
-- the HTTP server, the signals and the shutdown of the main program.
pub mod Prelude
pub mod Model
pub mod Text
pub mod Diff
pub mod Metrics
pub mod Config
pub mod Errors
pub mod Strings
pub mod AccessToken
pub mod Requests
pub mod Decode
pub mod Settings
pub mod Client
pub mod TokenCache
pub mod Storage
pub mod Startup
pub mod Batch
pub mod Poller
pub mod Tests
