-- ===== src/Lib.antt =====
-- AnalystWatch watches datasets: it checks each source, compares what it finds with a baseline,
-- keeps the observations, turns changes of health into incidents and notification candidates, and
-- delivers those by attempts that are claimed, completed and reconciled. This library models the
-- core of src/analystwatch, with its store in memory.
--
-- Parts, and the files they are modelled in:
-- - Models (children Kinds, Instants, Rules, Config, Profiles, Records): src/analystwatch/models.py.
--   Its enumerations are data types, its pydantic classes are records, its validators are
--   functions into Result. The patterns and least lengths of ids and names that fields declare
--   are left out, unless a definition tests them: a source with an empty id is a value here.
-- - Incidents: src/analystwatch/incidents.py, with the proofs in Incidents/Transitions and
--   Incidents/Latest.
-- - Detectors (Reference, Columns, Numeric): src/analystwatch/detectors.py, with proofs in
--   Detectors/Severity and Thresholds.
-- - DataRules: src/analystwatch/data_rules.py, with proofs in DataRules/Outcomes.
-- - Memory (State, Observations, Reads, Candidates, Attempts): the class MemoryStore of
--   src/analystwatch/memory_store.py. Each method runs under the store's one lock, so it is one
--   function from the store to a result and a store; what a method wrote before it raised stays.
-- - Service (Sources, Reviews, Notifications, Deliveries, Retries, Decisions, Checks): the class
--   MonitorService of src/analystwatch/service.py, run_decision of src/analystwatch/scheduler.py and
--   the adapter of src/analystwatch/delivery.py, over the store in memory.
-- - Persistence (Settled, Writes, Claims, Saves, Rejections, Listing, Pruning): proofs about the
--   store. Deliveries (Keeps, Runs, Leaves, Replays, Retries): about sequences of calls.
--   Baselines: about the promotion of a baseline. Health: about the observation of a check.
--   Onboarding: about adding a source.
-- - Reconciliations: src/analystwatch/reconciliation.py, with proofs in Reconciliations/Queue.
-- - Scorecards: src/analystwatch/scorecards.py, and in Scorecards/History the class
--   ReliabilityScorecardService of src/analystwatch/scorecard_service.py; proofs in
--   Scorecards/Bounds, Badges, Oldest and Reading.
-- - Workspaces: the ids and the class WorkspaceStore of src/analystwatch/workspace.py, a guard
--   before every method of the store in memory: what it reads in Workspaces/Bound, what it changes
--   in Workspaces/Calls. Proofs about sequences of calls in Steps, Filing, Untouched, Frames,
--   Writes, Apart, Separation and Isolation.
-- - Dependencies (Assets, Search): src/analystwatch/dependencies.py, with proofs in Adjacency,
--   Reach, Invariant, Found and Termination.
-- - Credentials (Packages, Crypto, Records, Store, Sealing): src/analystwatch/credential_crypto.py
--   and src/analystwatch/credential_store.py, with proofs in Unsealing, Rotation, Revocation and
--   Secrecy.
-- - Authorizations (Transactions, Store): src/analystwatch/oauth_authorization.py and the store in
--   memory of src/analystwatch/oauth_authorization_store.py, which use the keyring of Credentials
--   and the workspace ids; proofs in Authorizations/SingleUse.
-- - Refreshing: src/analystwatch/credential_refresh.py over the store of Credentials, with proofs in
--   Refreshing/Returns, Steps and Renewal.
-- - SourceCredentials: src/analystwatch/source_credentials.py, which reads that store and calls that
--   refresh, with proofs in SourceCredentials/Candidates and Bearer.
-- - Lifecycle: src/analystwatch/connection_lifecycle.py, with its proof beside it.
-- - RowDiffs (Snapshots, Comparisons): src/analystwatch/row_diff.py, with proofs in
--   RowDiffs/Partition, Limits and Unchanged.
-- - Result and Exec: exceptions as values. Prelude: tests, lists, sorting, texts, dictionaries and
--   fractions. Samples and Tests: the theorems at concrete inputs.
--
-- Conventions: a dict is an association list in order of insertion. A float is an exact fraction, a
-- number with a plus part, a minus part and a denominator; rounding is not modelled. A stored time
-- is its microseconds of UTC, and the clock's reading, the new observation's id, the preflight and
-- what ingestion, profiling and the row comparison make of the data are arguments of the service. A
-- pandas column is the list of its cells, each by what pandas makes of it; for a row snapshot, what
-- pandas answers about the dataframe is the record DataFrame, and the JSON text of a key and the
-- equality of values are the record Values. What a provider answers over HTTP is an argument.
-- Findings keep severity, detector and confidence; evidence and prose are left out. An adapter is a
-- function from a candidate to an answer, where an exception that it raises is one of the answers.
-- The packages cryptography, base64 and json are the fields of the record Library in
-- Credentials/Packages, with what they document as hypotheses.
--
-- A loop is recursion on the list that it walks, but for two, which run on fuel: the search of the
-- blast radius has one round for each edge, and the reading of a scorecard's history one more than
-- the greatest number of observations that it reads. Both are enough: a round of the search takes
-- an asset off the queue, which an edge put there, and a round of the reading doubles the limit.
--
-- Not modelled: the SQLite, Postgres and namespaced stores, which are SQL text; the web and command
-- line; ingestion, preflight and profiling, which are pandas and network; authentication; connections
-- and the exchange of tokens, which are HTTP; Power BI, Teams and email delivery; source packs.
-- Threads that interleave within one service method are not modelled.
pub mod Prelude
pub mod Result
pub mod Models
pub mod Incidents
pub mod Exec
pub mod Memory
pub mod Detectors
pub mod DataRules
pub mod Service
pub mod Persistence
pub mod Deliveries
pub mod Dependencies
pub mod Workspaces
pub mod Credentials
pub mod Authorizations
pub mod Health
pub mod Onboarding
pub mod Reconciliations
pub mod Refreshing
pub mod SourceCredentials
pub mod Lifecycle
pub mod RowDiffs
pub mod Scorecards
pub mod Baselines
pub mod Samples
pub mod Tests
