-- ===== src/Lib.antt =====
-- Nightfall photo ingress takes photos from OneDrive accounts into a staging folder, decides
-- about each by its SHA-256, and keeps three queues on disk: pending, accepted and rejected. A
-- SQLite registry is the authority on what is known; an operator accepts, rejects and purges by
-- hash. This library models the decision core of it: the registry, the moves of files, the ingest
-- of batches with their journal, the pairing of live photos, the operator's flows, the write
-- services of the HTTP API, the import of known hashes, and of the OneDrive client the poll of an
-- account, from the requests and the walk over the delta pages to the staging of the downloads.
-- The paths below are from the repository's root.
--
-- What models what.
-- - Base: Boolean tests and lists; Base.Exec: methods that mutate a state and may raise, as
--   functions from a state to a result and a state. What is written before a raise stays written.
--   Base.Exec.Keeps, Base.Exec.Ensures, Base.Exec.Returns and Base.Exec.Triples are the rules by
--   which whole flows are proved. Base.Sets: lists as sets.
-- - Sql: the statements of the registry on tables as lists of rows. Text: the operations on
--   texts, and Text.Splits is about `str.split`, Text.Lines about `str.splitlines`.
-- - Registry (src/nightfall_photo_ingress/domain/registry.py): Schema has a record for each
--   table, and Db for a database file; Conn the connection with what is committed and what the
--   open transaction sees, where `with conn:` commits on return and rolls back on a raise; Files,
--   Lifecycle, Pairs and HashCache the methods of class Registry, under their names; Migrations
--   `initialize`. Transaction has the rules for what runs inside a transaction. WellFormed states
--   the invariant, Preserve proves it for each method. Ops makes calls of these methods into
--   data, without the import of hashes, the opening and the pruning, and with a change of a
--   pair's status that is cut off between its transactions; Ops.Atomic and Ops.Log are about
--   raises and the audit log, Transitions about the row of a file.
-- - World: the registry, the files on disk, the count of clock readings and the journal. A record
--   Os has what the program takes from Python's libraries and the operating system.
-- - Storage (src/nightfall_photo_ingress/domain/storage.py): Render the names and destinations,
--   Commit the move into a queue, Lint the findings on a template; Names, Durable and
--   Durable.Raised are about these.
-- - Review (src/nightfall_photo_ingress/reject.py): Moves, Reject, Accept and Trash are the
--   flows, Sound and Outcome are about them.
-- - LivePhoto (src/nightfall_photo_ingress/live_photo.py): `DeferredPairQueue.ingest`; Heuristics
--   its settings, and Unresolved the entries without a counterpart.
-- - Ingest (src/nightfall_photo_ingress/domain/ingest.py and journal.py): Journal, Policy (the
--   pre-filter, the block rules, the quarantine), Process (`_process_one` in its stages), Batch
--   (`process_batch`), Replay (`replay_interrupted_operations`) and Drift
--   (`reconcile_staging_drift`); Sound, Identity, Batch.Order, Batch.Outcomes, Batch.Terminal,
--   Drift.Untouched and Recovery are about these.
-- - HashImport (src/nightfall_photo_ingress/hash_import.py): the chunks of an import and the
--   summary; Chunks and DryRun are about these. Caches is the plan for one directory from its
--   cache files or from its files; Caches.Rows, Caches.Covered and Caches.Written are about it.
-- - Onedrive (src/nightfall_photo_ingress/adapters/onedrive): Retry is retry.py, and of client.py
--   Download is `download_with_retry`, Delta the reducer of delta pages, Graph `_graph_get_json`,
--   Staging `download_candidates`, Account the files of an account and Poll `poll_account_once`,
--   which composes them: a poll reads pages from the cursor on, hands the files of each to the
--   ingest and saves the next link behind it; Single is `_poll_single_account`. Download.Outcome,
--   Download.Elsewhere, Delta.LastEvent, Graph.Outcome, Staging.Deliver, Poll.Chain, Poll.Pages
--   and Poll.Cursor are about these.
-- - Api (api/services/triage_service.py and api/audit_hook.py): Keys the idempotency keys, Triage
--   `TriageService.execute` and Blocklist the block rules of api/services/blocklist_service.py;
--   Triage.Replay, Triage.Failure, Triage.Sound and Blocklist.Rules are about these.
-- - Flows: sequences of all of these on one world. Tests: runs at concrete inputs.
--
-- Parameters. Of code outside the repository nothing is assumed but that it is a function:
-- hashlib's digest of some bytes, `Path.resolve`, the device of a directory, the parsing of a
-- time, `shutil.copy2` as the bytes that it leaves, `fnmatch`, `re.search`, `uuid4`, the clock by
-- the number of its readings, whether `chmod` or `fsync` of a path fails, and whether the
-- journal's file is full. Of the triage, the JSON texts of responses and audit details and the
-- time of expiry are parameters, and the theorem on repeated requests supposes that a response
-- reads back as it was written. Of the downloads, the replies of the server, what becomes of the
-- writing of a body and of the removal of a partial file, the parsers of the Retry-After header
-- and the jitter are parameters. Of a directory's plan a record Tools has the text of a file's
-- bytes, the hash of a directory, which `find`, `sort` and `sha1sum` compute, and hashlib's
-- digests. Of a poll a record Remote has the replies to requests, by the number of the call, the
-- address, the attempt and the token, the refresh of the token, whether the disk fails at a call
-- that the code does not guard, `quote` and the eight digits of a digest; of a delta page, the
-- JSON objects are records of the fields that are read.
--
-- Choices. Sizes and times are natural numbers without bound, as Python's are. Paths are texts; a
-- file system is its regular files, so directories and modes are not kept; of chmod and fsync
-- only a failure is. Reading, `shutil.copy2`, the renames and removals of the flows and of the
-- ingest, and the creation of folders for a download do not fail in the model but for a missing
-- file. `str.lower` and `str.casefold` act on ASCII letters. Where the source reads the clock
-- only on one branch, the model may read it one time more, before the branch. Calls run one after
-- the other: a batch with several workers is run as one sequence. Durations of the retries are
-- natural numbers of a small unit in place of floats; trace events and the durations of chunks
-- are left out, and so is the thumbnail cache. Of a reconciliation the paths that `rglob` lists
-- and the ages of files are parameters. Of a poll the clock is read once for the cooldown, and
-- once for each page as the seconds since the start; the counters that are not exported, and the
-- two of response headers, are left out, and the others are exported in a fixed order. The
-- thresholds of drift are fractions in place of floats. A page is handed to the ingest by adding
-- its rows to a list. The searches with a bound, for a free destination, for a download and for
-- the pages of a poll, have the bounds of the source; the other fuel is for decimal numerals,
-- where a number is fuel enough for its digits, and for the chunks of a list, where the length
-- is.
--
-- Not modelled: the pruning of the audit log and its triggers, the backup of the registry, a stop
-- of a rebuild of the hash cache at another point than behind its copy, the scheduling of several
-- accounts by the OneDrive client and its authentication, the rest of the HTTP API,
-- configuration, command line, metrics and development tools. They call what is modelled here, or
-- are input and output around it, or are apart from the photo pipeline.
pub mod Base
pub mod Sql
pub mod Text
pub mod Registry
pub mod World
pub mod Storage
pub mod Review
pub mod LivePhoto
pub mod Ingest
pub mod HashImport
pub mod Onedrive
pub mod Api
pub mod Flows
pub mod Tests
