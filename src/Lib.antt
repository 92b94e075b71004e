-- ===== src/Lib.antt =====
-- A model of the dependency graph auditor, and what is proved of it.
--
-- The program audits the dependencies of packages by jobs. An HTTP API (internal/httpapi) submits
-- jobs to a PostgreSQL store; workers (internal/worker, cmd/worker) claim them under leases, run a
-- handler and report how it ended; a job may end with children, and its root is settled when the
-- last child has ended.
--
-- Files:
-- - Job: internal/job/job.go and service.go, the values that all parts pass around.
-- - ServiceStore: internal/store/postgres/service.go, over the tables of db/migrations. Tables has
--   the rows, Transaction the chain of statements in one transaction, Statements the SQL that
--   several operations share. Submit, Claim (Claim and Heartbeat), Complete, Finalize
--   (finalizeRoot), Fail, Operate (Cancel, ReplayDLQ), Retry and Reclaim (ReclaimExpired) have the
--   operations, under the names of the Go methods in snake case. System puts the calls of all
--   clients and workers into one sequence.
-- - The proofs about the store: Rows, Keeps, Tails, Identity, Invariant, Selected, Expiry,
--   Claiming, Robust, Ids, Leasing and History for the invariant of every history; Fencing,
--   Superseded and Reclaiming for leases that were given up; Choice, Idempotency, Verdicts,
--   Settlement, Replays and Cancelling for single operations. Samples, Runs and Tests hold concrete
--   runs.
-- - Pypi: internal/pypi/version.go. Versions has Version and Compare, Clauses matchesClauses and
--   what it calls. The proofs are in Coherence, Order (of Compare) and Compatible (of the clause
--   ~=); runs are in VersionTests. strconv.Atoi and strings.Compare are the fields of `Texts`; that
--   strings.Compare is an order is a hypothesis of the theorems that need it.
-- - ServiceStore again, for the queries: Cursor has encodeCursor and decodeCursor, Listing List and
--   Counts, Detail Get, DlqListing ListDLQ, Metrics Metrics, and Workers RegisterWorker and
--   WorkerHeartbeat with their proof. The other proofs are in Behind and Walks (a client that
--   follows the cursors), ListingBounds, Counting, Details, DlqPages and Metering; runs are in
--   ListingTests, DetailTests and DlqTests. Undecoded tells when Get fails. fmt.Sprint and
--   fmt.Sscan of an id are the fields of `Numbers`, the averages of the database those of
--   `Averages`.
-- - Gomod: internal/gomod/selection.go and version.go. Types has the data and, as the fields of
--   `ModRules`, what is used of golang.org/x/mod; Versions the checks and the order of coordinates,
--   Modes the load modes, Choosing one round of selection, Select the loop of rounds and the edges.
--   The proofs are in Promotion, Visits and Propagation (load modes), Highest, Selecting and
--   Computing (selected versions) and Fetched (a round of metadata); runs are in Tests.
-- - QueueStore: internal/store/postgres/postgres.go, over the same tables. Operations has the
--   methods; the proofs are in Acquiring and Contract, runs in Tests.
-- - Worker: internal/worker/pool.go without a durable store, with internal/queue and internal/dlq
--   in memory. Pool has the state and the methods, Steps how they interleave; the proofs are in
--   Accounting and Finishing, runs in Tests. A step is what one goroutine does with the lock, one
--   operation on the count, the channel or Done, and what it does for itself besides; so Submit is
--   three steps and the end of a job up to three. A channel has a capacity, and a sender waits for
--   room. The backoff's length and the map `counted`, which only the poller of a durable store
--   reads, are left out.
-- - Semver: internal/semver/semver.go. Ranges has ParseRange and Resolve, over
--   github.com/Masterminds/semver and sort.Slice as the fields of `VersionLibrary`; the proof is in
--   Highest, a run in Tests.
-- - Prelude: names of the libraries, Boolean tests, lists, and texts.
--
-- How the code is read:
-- - A transaction is a function from the tables to a value and the tables that it commits, or to an
--   error, which leaves the tables as they were. A failure of the connection has the effect of such
--   an error. Transactions run one after the other; FOR UPDATE SKIP LOCKED is a parameter `locked`
--   that tells which rows others hold. Cancel reads its result after it has committed, and Retry
--   reads the job in a transaction of its own; both are one transaction here.
-- - NOW() is the same in a whole transaction, and an argument of it. Times are natural numbers.
-- - max_attempts is a natural number: the API admits 1 to 20. NULL is `none`. A JSONB column keeps
--   the text that was written to it. Whether a payload is JSON, so that its cast to JSONB succeeds,
--   is the field `is_json` of `Services`, and an argument of DeadLetterJob.
-- - google/uuid, crypto/sha256, encoding/json, fmt and the database's order of texts are the fields
--   of `Services`. Of these only this is assumed: the UUIDs drawn differ from each other, and none
--   is empty. A UUID drawn in a transaction that fails counts as not drawn.
--
-- Loops end by the structure of a list, but for three that run on fuel: propagateLoadModes, for
-- which one pass more than the cache names coordinates is enough, the client that follows the
-- cursors of List, for which one page more than there are jobs is enough, and the rounds of Select,
-- whose number depends on what is fetched and for which no bound is given. Maps of Go are lists of
-- keys and values; where Go sorts the keys of a map, the list is put in that order. The errors of
-- the Go modules are told apart by the check that fails. A limit of a page is an integer; the
-- collation of the database is the field `text_lt`, and Go's order of texts is the native one.
--
-- Not modelled: the pool over a durable store, the loop of the service worker, the API, the parsing
-- of Python versions and constraints and the choice among versions (ParseVersion, parseConstraint,
-- ResolveVersion), the clients of the registries (internal/pypi, internal/gomod but for the
-- selection, internal/github), the parsers (internal/depfile), the auditor's reports
-- (internal/auditor), and the web client.
pub mod Prelude
pub mod Job
pub mod Pypi
pub mod Semver
pub mod ServiceStore
pub mod Gomod
pub mod QueueStore
pub mod Worker
